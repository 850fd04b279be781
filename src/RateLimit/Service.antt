-- ===== src/RateLimit/Service.antt =====
-- `RateLimiter` of swx_core/services/rate_limit/rate_limiter.py. Its pipeline on a sorted set of Redis
-- is a parameter; times are whole ticks, and the clock is an argument.
use swx.Prelude.{
  ℕ, suc, ◌+◌, ◌-◌, ◌≡◌, refl, ap, ◌∙◌, Bool, true, false, not, Option, none, some, String,
  string_eq, nat_eq, ◌==◌, ltb, ltb→lt, arith, if◌then◌else◌,
}
use mathlib.Core.Option.{some-injective}

pub data LimitWindow : Type 0 where
  minute : LimitWindow
  hour : LimitWindow
  day : LimitWindow

-- A window is given by its name or in seconds.
pub data Window : Type 0 where
  named : LimitWindow → Window
  seconds : ℕ → Window

abbrev pub window_seconds : LimitWindow → ℕ
window_seconds minute = 60
window_seconds hour = 3600
window_seconds day = 86400

abbrev pub int_to_window : ℕ → Option LimitWindow
int_to_window n =
    if n == 60
    then some minute
    else if n == 3600
    then some hour
    else if n == 86400
    then some day
    else none

-- `_normalise_window`, with `none` for its `ValueError`.
unfoldable pub normalise_window : Window → Option (LimitWindow × ℕ)
normalise_window (named window) = some (window, window_seconds window)
normalise_window (seconds n) = elim (int_to_window n) [
  | none ↦ none
  | some window ↦ some (window, n)
]

pub record RateLimitResult : Type 0 where
  pub allowed : Bool
  pub limit : ℕ
  pub remaining : ℕ
  pub reset_at : ℕ
  pub retry_after : Option ℕ

-- `execute` is the pipeline that forgets the requests of a key up to a time, counts the others, adds
-- one at a time, and has the key expire; `count` forgets and counts. They answer the count, or raise.
pub record RedisClient (W : Type 0) : Type 0 where
  pub execute : String → ℕ → ℕ → ℕ → W → Option ℕ × W
  pub count : String → ℕ → W → Option ℕ × W

-- `_fail_result` for a window of some seconds.
unfoldable pub fail_result : Bool → ℕ → ℕ → ℕ → RateLimitResult
fail_result fail_open limit secs now =
    if fail_open
    then record {
      allowed = true;
      limit = limit;
      remaining = limit - 1;
      reset_at = now;
      retry_after = none;
    }
    else record {
      allowed = false;
      limit = limit;
      remaining = 0;
      reset_at = now;
      retry_after = some secs;
    }

-- What follows the pipeline.
unfoldable pub decided : ℕ → ℕ → ℕ → ℕ → RateLimitResult
decided limit secs now current_count =
    let allowed = ltb current_count limit in
    record {
      allowed = allowed;
      limit = limit;
      remaining = if allowed then limit - current_count - 1 else 0;
      reset_at = now + secs;
      retry_after = if not allowed then some secs else none;
    }

module _ {W : Type 0} (fail_open : Bool) where
  abbrev pub after_pipeline : ℕ → ℕ → ℕ → Option ℕ × W → Option RateLimitResult × W
  after_pipeline limit secs now (none, w) = (some (fail_result fail_open limit secs now), w)
  after_pipeline limit secs now (some n, w) = (some (decided limit secs now n), w)

  abbrev pub check_window :
      Option (RedisClient W) → String → ℕ → ℕ → ℕ → W → Option RateLimitResult × W
  check_window none key limit secs now w = (some (fail_result fail_open limit secs now), w)
  check_window (some redis) key limit secs now w =
      after_pipeline limit secs now (redis.execute key (now - secs) now secs w)

  -- `none` for the `ValueError` of an unknown window.
  unfoldable pub check_limit :
      Option (RedisClient W) → String → ℕ → Window → ℕ → W → Option RateLimitResult × W
  unfolding normalise_window fail_result decided
  check_limit redis key limit window now w = elim (normalise_window window) [
    | none ↦ (none, w)
    | some (_, secs) ↦ check_window redis key limit secs now w
  ]

abbrev pub or_zero : {W : Type 0} → Option ℕ × W → ℕ × W
or_zero (none, w) = (0, w)
or_zero (some n, w) = (n, w)

module _ {W : Type 0} where
  unfoldable pub get_usage : Option (RedisClient W) → String → Window → ℕ → W → ℕ × W
  unfolding normalise_window
  get_usage none key window now w = (0, w)
  get_usage (some redis) key window now w = elim (normalise_window window) [
    | none ↦ (0, w)
    | some (_, secs) ↦ or_zero (redis.count key (now - secs) w)
  ]

  -- Where Redis counts.
  abbrev pub Counted : RedisClient W → String → ℕ → ℕ → ℕ → W → ℕ → Type 0
  Counted redis key secs now limit w left =
      (n : ℕ) × ((redis.execute key (now - secs) now secs w).0 ≡ some n) × (suc (n + left) ≡ limit)

  pipeline-Counted :
      (limit secs now : ℕ) (o : Option ℕ × W) (r : RateLimitResult)
      → (after_pipeline false limit secs now o).0 ≡ some r
      → r.allowed ≡ true
      → (n : ℕ) × (o.0 ≡ some n) × (suc (n + r.remaining) ≡ limit)
  unfolding fail_result decided
  pipeline-Counted limit secs now (none, w) r e h =
      absurd (let n : false ≡ true = ap (λ x. x.allowed) (some-injective _ _ e) ∙ h in cc)
  pipeline-Counted limit secs now (some n, w) r e h =
      let q = some-injective _ _ e in
      (n, refl, counted (ltb n limit) refl (ap (λ x. x.allowed) q ∙ h) (ap (λ x. x.remaining) q))
    where
      counted :
          (b : Bool)
          → ltb n limit ≡ b
          → b ≡ true
          → (if b then limit - n - 1 else 0) ≡ r.remaining
          → suc (n + r.remaining) ≡ limit
      counted true e h k = omega (arith, ltb→lt n limit e, k)
      counted false e h k = absurd (cc)

  -- With `RATE_LIMIT_FAIL_OPEN` off, a request is allowed only where Redis counted fewer requests than
  -- the limit, and what remains is what is left of the limit after them and this one.
  pub check_limit-Counted :
      (redis : RedisClient W) (key : String) (limit : ℕ) (window : LimitWindow) (now : ℕ) (w : W)
      (r : RateLimitResult)
      → (check_limit false (some redis) key limit (named window) now w).0 ≡ some r
      → r.allowed ≡ true
      → Counted redis key (window_seconds window) now limit w r.remaining
  unfolding check_limit normalise_window
  check_limit-Counted redis key limit window now w r e h =
      pipeline-Counted limit (window_seconds window) now
        (redis.execute key (now - window_seconds window) now (window_seconds window) w) r e h
