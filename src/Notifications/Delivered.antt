-- ===== src/Notifications/Delivered.antt =====
-- Notifications are delivered once.
use job_finder_agent.Common.{ℕ, ◌≡◌, refl, some, List, find, arith}
use job_finder_agent.Session.{Session}
use job_finder_agent.Matching.Rules.{Decision, notify, review, reject}
use job_finder_agent.Notifications.Deliveries.{
  Delivery, delivered, Sent, Address, is_for, deliver, get_or_create,
}

module _ (uuid4 : ℕ → ℕ) where
  -- A delivery that was made is never made again: whatever the provider would do, the row stays as it
  -- is, and neither the provider nor the database is called. A job that is not to be notified of
  -- is not delivered either.
  pub deliver_once :
      (a : Address) (decision : Decision) (provider : ℕ → Sent) (s : Session (List Delivery))
      (d : Delivery)
      → find (is_for a) s.db ≡ some d
      → d.status ≡ delivered
      → (deliver uuid4 a decision provider s).1 ≡ s
  unfolding deliver get_or_create
  deliver_once a notify provider s d found done = ground (arith, found, done)
  deliver_once a review provider s d found done = refl
  deliver_once a reject provider s d found done = refl
