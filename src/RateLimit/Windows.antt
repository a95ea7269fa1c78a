-- ===== src/RateLimit/Windows.antt =====
-- The limiter within one window, and the moments that it names.
use job_finder_agent.Common.{
  ℕ, suc, ◌+◌, ◌-◌, ◌/◌, ◌≤◌, min, ◌≡◌, ◌↔◌, true, Option, some, List, [], ◌∷◌, String, arith, All,
  length, ◌==◌, Bool-cases, inl, inr, if◌then◌else◌, Texts, ◌>>=◌,
}
use job_finder_agent.RateLimit.Limiter.{
  Redis, IsCounting, check, redis_key, result_of, expire_first,
}
use native.Mathlib.Nat.{div-mul-le_self, lt-div-mul-add, mul-div_left}

-- The moments that the limiter names: a refused client waits at least a second and at most a window,
-- and the wait ends in the next window, at the named moment, for windows of at least a second.
result_of-reset_at :
    (now limit window count : ℕ)
    → 1 ≤ window
    → let r = result_of now limit window count in
      (1 ≤ r.retry_after)
      × (r.retry_after ≤ window)
      × (now + r.retry_after ≡ r.reset_at)
      × (r.reset_at / window ≡ suc (now / window))
      × ((r.allowed ≡ true) ↔ (count ≤ limit))
unfolding result_of
result_of-reset_at now limit window count h = ground (
  arith,
  div-mul-le_self now window,
  lt-div-mul-add {a = now} {b = window} h,
  mul-div_left (now / window + 1) {n = window} h,
)

module _ {S : Type 0} (T : Texts) (redis : Redis S) (key : String) (limit window : ℕ) where
  -- Requests of one client, at the given moments: how many are allowed, and the store after them.
  unfoldable pub serve : List ℕ → S → Option ℕ × S
  unfolding check
  serve [] s = (some 0, s)
  serve (now ∷ later) s =
      let (checked, s') = check T redis now key limit window s in
      let (counted, s'') = serve later s' in
      ((do r ← checked; n ← counted; some (if r.allowed then suc n else n)), s'')

  -- A request of a window whose key has the count `c`.
  pub check-count :
      (counts : IsCounting redis) (now : ℕ) (s : S)
      → (s' : S) × (check T redis now key limit window s ≡ (
        some (result_of now limit window (suc (counts.value (redis_key T key (now / window)) s))),
        s',
      ))
        × (counts.value (redis_key T key (now / window)) s'
            ≡ suc (counts.value (redis_key T key (now / window)) s))
  unfolding check expire_first
  check-count counts now s =
      let k = redis_key T key (now / window) in
      elim (Bool-cases (suc (counts.value k s) == 1)) [
        | inl e ↦ (
          counts.expiring k window (counts.next k s),
          ground
              (arith, e, counts.incr-next k s, counts.expire-expiring k window (counts.next k s)),
          ground (arith, counts.value-expiring k window (counts.next k s), counts.value-next k s),
        )
        | inr e ↦ (counts.next k s, ground (arith, e, counts.incr-next k s), counts.value-next k s)
      ]

  -- Of the requests that one client sends in one window, exactly the first ones are allowed, until the
  -- limit is reached, counting what the window has counted before them, where Redis answers.
  pub serve-limit :
      (counts : IsCounting redis) (bucket : ℕ) (times : List ℕ) (s : S)
      → All (λ now. now / window ≡ bucket) times
      → (s' : S) × (serve times s
          ≡ (some (min (length times) (limit - counts.value (redis_key T key bucket) s)), s'))
  unfolding serve result_of
  serve-limit counts bucket [] s h = (s, ground arith)
  serve-limit counts bucket (now ∷ times) s h =
      let k = redis_key T key bucket in
      let (s', answer, counted) = rw h.0 at (check-count counts now s) in
      let (s'', rest) = serve-limit counts bucket times s' h.1 in
      (s'', ground (arith, answer, counted, rest))
