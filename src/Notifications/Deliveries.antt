-- ===== src/Notifications/Deliveries.antt =====
-- domain/notifications/models.py and service.py, repositories/notifications.py and
-- notifications/base.py (app). A provider is a parameter: it answers a message with an identifier or
-- fails; a delivery's moments, which the database fills, are left out.
use job_finder_agent.Common.{
  ℕ, ◌+◌, Bool, true, false, ◌&&◌, ◌||◌, Option, none, some, List, find, update_where, add, String,
  str_eq, leb, if◌then◌else◌, ◌==◌, not,
}
use job_finder_agent.Errors.Exceptions.{notification_delivery_not_found}
use job_finder_agent.Session.{
  Action, ◌>>=◌, ◌>>◌, pure, fail, query, modify, draw, commit_session, refresh_session,
}
use job_finder_agent.Matching.Rules.{Decision, notify, review, reject}

pub data DeliveryStatus : Type 0 where
  pending delivered retryable failed : DeliveryStatus

pub record Delivery : Type 0 where
  pub id : ℕ
  pub user_id : ℕ
  pub job_id : ℕ
  pub profile_id : ℕ
  pub channel : String
  pub status : DeliveryStatus
  pub attempt_count : ℕ
  pub provider_message_id : Option String
  pub error : Option String

-- What the code reads of an exception: its `retryable`, whether it is a TimeoutError or a
-- ConnectionError, its `status_code` and its text.
pub record Failure : Type 0 where
  pub retryable : Bool
  pub is_connection : Bool
  pub status_code : Option ℕ
  pub message : String

pub data Sent : Type 0 where
  accepted : String → Sent
  refused : Failure → Sent

unfoldable pub is_retryable : Failure → Bool
is_retryable e =
    e.retryable
    || e.is_connection
    || elim e.status_code [ none ↦ false | some code ↦ code == 429 || leb 500 code ]

-- The four values that name a delivery.
pub record Address : Type 0 where
  pub user_id : ℕ
  pub job_id : ℕ
  pub profile_id : ℕ
  pub channel : String

abbrev pub is_for : Address → Delivery → Bool
is_for a d =
    (d.user_id == a.user_id)
    && (d.job_id == a.job_id)
    && (d.profile_id == a.profile_id)
    && str_eq d.channel a.channel

-- The row of the object that the code changes.
abbrev pub set_delivery : Delivery → Action (List Delivery) (Unit {0})
set_delivery d = modify (update_where (λ x. x.id == d.id) (λ _. d))

abbrev pub is_delivered : DeliveryStatus → Bool
is_delivered delivered = true
is_delivered _ = false

module _ (uuid4 : ℕ → ℕ) where
  abbrev pub new_delivery : ℕ → Address → Delivery
  new_delivery id a = record {
    id = id;
    user_id = a.user_id;
    job_id = a.job_id;
    profile_id = a.profile_id;
    channel = a.channel;
    status = pending;
    attempt_count = 0;
    provider_message_id = none;
    error = none;
  }

  unfoldable pub get_or_create : Address → Action (List Delivery) (Delivery × Bool)
  get_or_create a = do
    row ← query (find (is_for a))
    elim row [
      | some d ↦ pure (d, false)
      | none ↦ do
        id ← draw uuid4
        modify (add (new_delivery id a))
        commit_session
        refresh_session
        pure (new_delivery id a, true)
    ]

  -- What an attempt makes of a delivery.
  unfoldable pub attempted : Delivery → Sent → Delivery
  unfolding is_retryable
  attempted d (accepted id) = record d {
    attempt_count = d.attempt_count + 1;
    provider_message_id = some id;
    status = delivered;
    error = none;
  }
  attempted d (refused e) = record d {
    attempt_count = d.attempt_count + 1;
    status = if is_retryable e then retryable else failed;
    error = some e.message;
  }

  -- `NotificationService.deliver`. The provider is sent the message that the templates render.
  unfoldable pub deliver :
      Address → Decision → (ℕ → Sent) → Action (List Delivery) (Option Delivery)
  unfolding get_or_create attempted
  deliver a notify provider = do
    (d, created) ← get_or_create a
    if not created && is_delivered d.status then pure (some d) else do
      sent ← draw provider
      set_delivery (attempted d sent)
      commit_session
      refresh_session
      pure (some (attempted d sent))
  deliver a review provider = pure none
  deliver a reject provider = pure none

-- `NotificationService.get_for_user`
unfoldable pub get_for_user : ℕ → ℕ → Action (List Delivery) Delivery
get_for_user delivery_id user_id = do
  row ← query (find (λ d. (d.id == delivery_id) && (d.user_id == user_id)))
  elim row [ none ↦ fail notification_delivery_not_found | some d ↦ pure d ]
