-- ===== src/RateLimit/Limiter.antt =====
-- observability/rate_limit.py (app): `RateLimiter`, over a Redis that is a parameter.
use job_finder_agent.Common.{
  ℕ, suc, ◌+◌, ◌-◌, ◌*◌, ◌/◌, max, Bool, true, Option, none, some, String, leb, ◌==◌, if◌then◌else◌,
  Texts, ◌⧺◌, ◌≡◌,
}

-- The two commands that the limiter sends; `none` is a RedisError, and a command that fails leaves the
-- store that is given with it.
pub record Redis (S : Type 0) : Type 0 where
  pub incr : String → S → Option ℕ × S
  pub expire : String → ℕ → S → Bool × S

-- Documented behaviour of a Redis that answers, as long as no key runs out: `INCR` adds one to the
-- key's counter, which starts at 0, and returns it; `EXPIRE` leaves the counter alone.
pub record IsCounting {S : Type 0} (redis : Redis S) : Type 0 where
  pub value : String → S → ℕ
  pub next : String → S → S
  pub expiring : String → ℕ → S → S
  pub incr-next : (k : String) (s : S) → redis.incr k s ≡ (some (suc (value k s)), next k s)
  pub value-next : (k : String) (s : S) → value k (next k s) ≡ suc (value k s)
  pub expire-expiring : (k : String) (n : ℕ) (s : S) → redis.expire k n s ≡ (true, expiring k n s)
  pub value-expiring : (k : String) (n : ℕ) (s : S) → value k (expiring k n s) ≡ value k s

pub record RateLimitResult : Type 0 where
  pub allowed : Bool
  pub limit : ℕ
  pub remaining : ℕ
  pub retry_after : ℕ
  pub reset_at : ℕ

-- f"rate-limit:{key}:{bucket}"
unfoldable pub redis_key : Texts → String → ℕ → String
redis_key T key bucket = "rate-limit:" ⧺ (key ⧺ (":" ⧺ T.decimal bucket))

-- What `check` returns for a count, at the moment `now`.
unfoldable pub result_of : ℕ → ℕ → ℕ → ℕ → RateLimitResult
result_of now limit window count =
    let reset_at = (now / window + 1) * window in
    record {
      allowed = leb count limit;
      limit = limit;
      remaining = limit - count;
      retry_after = max 1 (reset_at - now);
      reset_at = reset_at;
    }

module _ {S : Type 0} (T : Texts) (redis : Redis S) where
  -- `EXPIRE` is sent with the first request of a window.
  unfoldable pub expire_first : String → ℕ → ℕ → S → Bool × S
  expire_first key window count s = if count == 1 then redis.expire key window s else (true, s)

  -- `RateLimiter.check` at the moment `now`: `none` is the RedisError of one of the commands. A request
  -- that was counted stays counted where `EXPIRE` fails.
  unfoldable pub check : ℕ → String → ℕ → ℕ → S → Option RateLimitResult × S
  unfolding redis_key result_of expire_first
  check now key limit window s =
      let k = redis_key T key (now / window) in
      let (counted, s') = redis.incr k s in
      elim counted [
        | none ↦ (none, s')
        | some count ↦
            let (done, s'') = expire_first k window count s' in
            if done then (some (result_of now limit window count), s'') else (none, s'')
      ]
