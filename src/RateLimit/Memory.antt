-- ===== src/RateLimit/Memory.antt =====
-- `RateLimiter` of swx_core/utils/rate_limit.py without Redis: a window of timestamps per key. Times
-- are whole seconds. `none` is the `ValueError` of `min([])`, where no request is allowed at all.
use swx.Prelude.{
  ℕ, ◌+◌, ◌-◌, Bool, true, false, Option, none, some, List, [], ◌∷◌, ◌++◌, length, filter, min, ltb,
  leb, if◌then◌else◌,
}
use swx.Prelude.Dict.{lookup, insert, erase}
use swx.Prelude.Text.{Text, text_eq, codes}

-- `(is_allowed, remaining_requests, retry_after_seconds)`
pub record Answer : Type 0 where
  pub is_allowed : Bool
  pub remaining : ℕ
  pub retry_after : ℕ

abbrev pub Store : Type 0
Store = List (Text × List ℕ)

abbrev pub make_key : Text → Text → Text → Text
make_key prefix identifier action = prefix ++ (identifier ++ (codes ":" ++ action))

abbrev pub stamps_of : Option (List ℕ) → List ℕ
stamps_of none = []
stamps_of (some stamps) = stamps

-- `ts > window_start`
abbrev pub is_recent : ℕ → ℕ → ℕ → Bool
is_recent window now ts = ltb now (ts + window)

abbrev pub oldest : ℕ → List ℕ → ℕ
oldest ts [] = ts
oldest ts (t ∷ stamps) = min ts (oldest t stamps)

-- `max(1, retry_after)`
abbrev pub at_least_one : ℕ → ℕ
at_least_one n = if leb 1 n then n else 1

abbrev pub refusal : ℕ → ℕ → List ℕ → Option Answer
refusal window now [] = none
refusal window now (t ∷ stamps) = some (record {
  is_allowed = false;
  remaining = 0;
  retry_after = at_least_one (oldest t stamps + window - now);
})

-- What is answered, and the stamps that are kept.
abbrev pub decide : ℕ → ℕ → ℕ → List ℕ → Option Answer × List ℕ
decide limit window now recent =
    if leb limit (length recent) then (refusal window now recent, recent) else (
      some (record { is_allowed = true; remaining = limit - length recent - 1; retry_after = 0 }),
      recent ++ now ∷ [],
    )

unfoldable pub check_memory : ℕ → ℕ → ℕ → Text → Store → Option Answer × Store
check_memory limit window now key store =
    let (answer, kept) =
      decide limit window now (filter (is_recent window now) (stamps_of (lookup key store))) in
    (answer, insert key kept store)

abbrev pub reset : Text → Text → Text → Store → Store
reset prefix identifier action store = erase (make_key prefix identifier action) store

-- `is_allowed` where no Redis client is there.
abbrev pub is_allowed : ℕ → ℕ → ℕ → Text → Text → Text → Store → Option Answer × Store
is_allowed limit window now prefix identifier action store =
    check_memory limit window now (make_key prefix identifier action) store
