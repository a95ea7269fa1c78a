-- ===== src/Notifications/Telegram.antt =====
-- A failure of Telegram is never tried again.
use job_finder_agent.Common.{
  ℕ, ◌≡◌, ◌⊎◌, ◌⧺◌, [], ◌∷◌, refl, true, false, ◌||◌, ◌&&◌, not, Option, none, some, List, String,
  str_eq, arith, Bool-cases, Option-cases, inl, inr,
}
use job_finder_agent.Session.{
  Session, Action, ok, draw, pure, commit_session, refresh_session, flush_session, next_fault,
  later_faults, ◌>>=◌, ◌>>◌, Result-cases,
}
use job_finder_agent.Matching.Rules.{notify}
use job_finder_agent.Notifications.Deliveries.{
  Failure, Sent, accepted, refused, Delivery, DeliveryStatus, retryable, Address, is_retryable,
  attempted, deliver, set_delivery, is_delivered, get_or_create, pending, delivered, failed,
}
use job_finder_agent.Notifications.Providers.{
  HttpClient, NotificationMessage, Posted, unanswered, replied, send_telegram,
}

-- Documented behaviour of the exceptions of httpx: they are neither a TimeoutError nor a ConnectionError
-- of Python's own, and have no attribute `retryable` or `status_code`; the status is that of the attribute
-- `response`.
abbrev IsForeign : Failure → Type 0
IsForeign e = (e.retryable ≡ false) × (e.is_connection ≡ false) × (e.status_code ≡ none)

pub record IsHttpx (client : HttpClient) : Type 0 where
  pub transport_error-IsForeign : (message : String) → IsForeign (client.transport_error message)
  pub status_error-IsForeign : (status : ℕ) → IsForeign (client.status_error status)

-- Delivered, or failed for good.
abbrev pub IsSettled : DeliveryStatus → Type 0
IsSettled x = (x ≡ delivered) ⊎ (x ≡ failed)

Posted-cases :
    (p : Posted)
    → ((message : String) × (p ≡ unanswered message))
      ⊎ ((status : ℕ) × (id : Option String) × (p ≡ replied status id))
Posted-cases (unanswered message) = inl (message, refl)
Posted-cases (replied status id) = inr (status, id, refl)

module _ (uuid4 : ℕ → ℕ) where
  attempted-IsSettled :
      (d : Delivery) (sent : Sent)
      → ((e : Failure) → sent ≡ refused e → is_retryable e ≡ false)
      → IsSettled (attempted uuid4 d sent).status
  unfolding attempted
  attempted-IsSettled d (accepted id) h = inl refl
  attempted-IsSettled d (refused e) h = rw (h e refl) (inr refl)

  abbrev attempt_on : (ℕ → Sent) → Delivery → Action (List Delivery) (Option Delivery)
  attempt_on provider d = do
    sent ← draw provider
    set_delivery (attempted uuid4 d sent)
    commit_session
    refresh_session
    pure (some (attempted uuid4 d sent))

  attempt_on-attempted :
      (provider : ℕ → Sent) (d0 d : Delivery) (s : Session (List Delivery))
      → (attempt_on provider d0 s).0 ≡ ok (some d)
      → d ≡ attempted uuid4 d0 (provider s.ticks)
  unfolding commit_session refresh_session flush_session
  attempt_on-attempted provider d0 d s h = elim (Option-cases (next_fault s.faults)) [
    | inr (x, e) ↦ ground (arith, e)
    | inl e ↦ elim (Option-cases (next_fault (later_faults s.faults))) [
      | inr (x, e') ↦ ground (arith, e, e')
      | inl e' ↦ ground (arith, e, e')
    ]
  ]

  delivered-IsSettled : (x : DeliveryStatus) → is_delivered x ≡ true → IsSettled x
  delivered-IsSettled pending h = cc
  delivered-IsSettled delivered h = inl refl
  delivered-IsSettled failed h = cc
  delivered-IsSettled retryable h = cc

  -- A provider whose failures are never retryable leaves no delivery that waits for a retry.
  deliver-IsSettled :
      (a : Address) (provider : ℕ → Sent) (s : Session (List Delivery)) (d : Delivery)
      → ((t : ℕ) (e : Failure) → provider t ≡ refused e → is_retryable e ≡ false)
      → (deliver uuid4 a notify provider s).0 ≡ ok (some d)
      → IsSettled d.status
  unfolding deliver
  deliver-IsSettled a provider s d never done = elim (Result-cases (get_or_create uuid4 a s).0) [
    | inr (x, e) ↦ ground (arith, e)
    | inl ((d0, created), e) ↦ elim (Bool-cases (not created && is_delivered d0.status)) [
      | inl kept ↦
          let same : d ≡ d0 = ground (arith, e, kept) in
          rw same (delivered-IsSettled d0.status (ground arith))
      | inr tried ↦
          let s1 = (get_or_create uuid4 a s).1 in
          let h : (attempt_on provider d0 s1).0 ≡ ok (some d) = ground (arith, e, tried, done) in
          rw (attempt_on-attempted provider d0 d s1 h)
            (attempted-IsSettled d0 (provider s1.ticks) (never s1.ticks))
    ]
  ]

module _ (client : HttpClient) (lawful : IsHttpx client) (token chat_id : String)
    (m : NotificationMessage) where
  abbrev posted : Posted
  posted =
      client.post ("https://api.telegram.org/bot" ⧺ token ⧺ "/sendMessage")
        (("chat_id", chat_id) ∷ ("text", m.body) ∷ [])

  send_telegram-is_retryable :
      (e : Failure) → send_telegram client token chat_id m ≡ refused e → is_retryable e ≡ false
  unfolding send_telegram is_retryable
  send_telegram-is_retryable e h = elim (Bool-cases (str_eq token "" || str_eq chat_id "")) [
    | inl missing ↦ ground (arith, missing)
    | inr given ↦ elim (Posted-cases posted) [
      | inl (message, p) ↦
          let (a, b, c) = lawful.transport_error-IsForeign message in
          ground (arith, given, p, a, b, c)
      | inr (status, id, p) ↦
          let (a, b, c) = lawful.status_error-IsForeign status in ground (arith, given, p, a, b, c)
    ]
  ]

  -- A delivery by Telegram never waits for a retry: whatever the service answers, an overload (429), a
  -- failure of the server and no answer at all included, the delivery is delivered or failed. This relies
  -- on what the exceptions of the client are.
  pub deliver-send_telegram :
      (uuid4 : ℕ → ℕ) (a : Address) (s : Session (List Delivery)) (d : Delivery)
      → (deliver uuid4 a notify (λ t. send_telegram client token chat_id m) s).0 ≡ ok (some d)
      → IsSettled d.status
  deliver-send_telegram uuid4 a s d done =
      deliver-IsSettled uuid4 a (λ t. send_telegram client token chat_id m) s d
        (λ t e h. send_telegram-is_retryable e h) done
