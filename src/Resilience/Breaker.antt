-- ===== src/Resilience/Breaker.antt =====
-- `CircuitBreaker` of swx_core/services/llm/resilience.py. Each method holds the lock from its first
-- line to its last, so a history is a sequence of calls. Times and thresholds are natural numbers.
use swx.Prelude.{
  map, subst, ◌||◌, ℕ, zero, suc, ◌+◌, ◌≤◌, ◌<◌, ◌≡◌, refl, sym, ap, ◌∙◌, Bool, true, false, not,
  Option, none, some, List, [], ◌∷◌, arith, ltb, leb, if◌then◌else◌, all,
}

pub data CircuitState : Type 0 where
  closed : CircuitState
  opened : CircuitState
  half_open : CircuitState

pub record CircuitBreaker : Type 0 where
  pub failure_threshold : ℕ
  pub success_threshold : ℕ
  pub recovery_timeout_seconds : ℕ
  pub state : CircuitState
  pub failure_count : ℕ
  pub success_count : ℕ
  pub last_failure_time : Option ℕ

abbrev pub new_breaker : ℕ → ℕ → ℕ → CircuitBreaker
new_breaker failures successes timeout = record {
  failure_threshold = failures;
  success_threshold = successes;
  recovery_timeout_seconds = timeout;
  state = CircuitState.closed;
  failure_count = 0;
  success_count = 0;
  last_failure_time = none;
}

abbrev pub has_recovered : ℕ → CircuitBreaker → Bool
has_recovered now b = elim b.last_failure_time [
  | none ↦ false
  | some t ↦ leb (t + b.recovery_timeout_seconds) now
]

unfoldable pub allow_request : ℕ → CircuitBreaker → Bool × CircuitBreaker
allow_request now b = elim b.state [
  | CircuitState.opened ↦
      if has_recovered now b
      then (true, record b { state = CircuitState.half_open; success_count = 0 })
      else (false, b)
  | CircuitState.closed ↦ (true, b)
  | CircuitState.half_open ↦ (true, b)
]

unfoldable pub record_success : CircuitBreaker → CircuitBreaker
record_success b = elim b.state [
  | CircuitState.half_open ↦
      if leb b.success_threshold (b.success_count + 1)
      then record b { failure_count = 0; state = CircuitState.closed; success_count = 0 }
      else record b { failure_count = 0; success_count = b.success_count + 1 }
  | CircuitState.closed ↦ record b { failure_count = 0 }
  | CircuitState.opened ↦ record b { failure_count = 0 }
]

unfoldable pub record_failure : ℕ → CircuitBreaker → CircuitBreaker
record_failure now b =
    if leb b.failure_threshold (b.failure_count + 1)
    then record b {
      failure_count = b.failure_count + 1;
      last_failure_time = some now;
      success_count = 0;
      state = CircuitState.opened;
    }
    else record b {
      failure_count = b.failure_count + 1;
      last_failure_time = some now;
      success_count = 0;
    }

-- The calls of a breaker, at their times.
pub data BreakerCall : Type 0 where
  allows : ℕ → BreakerCall
  succeeds : BreakerCall
  fails : ℕ → BreakerCall

abbrev pub perform : BreakerCall → CircuitBreaker → CircuitBreaker
perform (allows now) b = (allow_request now b).1
perform succeeds b = record_success b
perform (fails now) b = record_failure now b

abbrev pub run : List BreakerCall → CircuitBreaker → CircuitBreaker
run [] b = b
run (call ∷ calls) b = run calls (perform call b)

abbrev pub replicate : ℕ → BreakerCall → List BreakerCall
replicate zero c = []
replicate (suc n) c = c ∷ replicate n c

-- The failures since the last success, given those before.
abbrev pub failing : List BreakerCall → ℕ → ℕ
failing [] n = n
failing (allows now ∷ calls) n = failing calls n
failing (succeeds ∷ calls) n = failing calls 0
failing (fails now ∷ calls) n = failing calls (n + 1)

abbrev pub is_closed : CircuitState → Bool
is_closed CircuitState.closed = true
is_closed _ = false

-- A closed breaker has counted fewer failures than its threshold.
abbrev pub fits : CircuitBreaker → Bool
fits b = if is_closed b.state then ltb b.failure_count b.failure_threshold else true

perform-fits :
    (call : BreakerCall) (b : CircuitBreaker)
    → 0 < b.failure_threshold
    → fits b ≡ true
    → (fits (perform call b) ≡ true) × ((perform call b).failure_threshold ≡ b.failure_threshold)
unfolding allow_request record_success record_failure
perform-fits (allows now) b h f = ground arith
perform-fits succeeds b h f = ground arith
perform-fits (fails now) b h f = ground arith

run-fits :
    (calls : List BreakerCall) (b : CircuitBreaker)
    → 0 < b.failure_threshold
    → fits b ≡ true
    → (fits (run calls b) ≡ true) × ((run calls b).failure_threshold ≡ b.failure_threshold)
run-fits [] b h f = (f, refl)
run-fits (call ∷ calls) b h f =
    let (g, same) = perform-fits call b h f in
    let (r, q) = run-fits calls (perform call b) (subst (λ n. 0 < n) (sym same) h) g in
    (r, q ∙ same)

perform-failing :
    (call : BreakerCall) (calls : List BreakerCall) (b : CircuitBreaker)
    → failing (call ∷ calls) b.failure_count ≡ failing calls (perform call b).failure_count
unfolding allow_request record_success record_failure
perform-failing (allows now) calls b = ground arith
perform-failing succeeds calls b = ground arith
perform-failing (fails now) calls b = ground arith

run-failing :
    (calls : List BreakerCall) (b : CircuitBreaker)
    → (run calls b).failure_count ≡ failing calls b.failure_count
run-failing [] b = refl
run-failing (call ∷ calls) b =
    run-failing calls (perform call b) ∙ sym (perform-failing call calls b)

-- After any calls on a new breaker with a positive threshold: its count is the number of failures
-- since the last success, and if it is closed, this is below the threshold.
pub run-closed :
    (failures successes timeout : ℕ) (calls : List BreakerCall)
    → 0 < failures
    → ((run calls (new_breaker failures successes timeout)).failure_count ≡ failing calls 0)
      × (not (is_closed (run calls (new_breaker failures successes timeout)).state)
          || ltb (failing calls 0) failures)
        ≡ true
run-closed failures successes timeout calls h =
    let b = run calls (new_breaker failures successes timeout) in
    let counted = run-failing calls (new_breaker failures successes timeout) in
    let (f, same) = run-fits calls (new_breaker failures successes timeout) h (ground arith) in
    (counted, below b.state b.failure_count b.failure_threshold counted same f)
  where
    below :
        (s : CircuitState) (count threshold : ℕ)
        → count ≡ failing calls 0
        → threshold ≡ failures
        → (if is_closed s then ltb count threshold else true) ≡ true
        → (not (is_closed s) || ltb (failing calls 0) failures) ≡ true
    below s count threshold c t f = rw (← c, ← t) (ground (arith, f))

allow_request-denies :
    (now t : ℕ) (b : CircuitBreaker)
    → b.state ≡ CircuitState.opened
    → b.last_failure_time ≡ some t
    → now < t + b.recovery_timeout_seconds
    → allow_request now b ≡ (false, b)
unfolding allow_request
allow_request-denies now t b o l h =
    let late : has_recovered now b ≡ false = rw l (ground arith) in
    rw (o, late, allow_request) (ap (λ s. (false, record b { state = s })) o)

run-denies :
    (t : ℕ) (times : List ℕ) (b : CircuitBreaker)
    → b.state ≡ CircuitState.opened
    → b.last_failure_time ≡ some t
    → all (λ n. ltb n (t + b.recovery_timeout_seconds)) times ≡ true
    → run (map allows times) b ≡ b
run-denies t [] b o l h = refl
run-denies t (n ∷ times) b o l h =
    ap (λ r. run (map allows times) r.1) (allow_request-denies n t b o l (ground (arith, h)))
    ∙ run-denies t times b o l (ground (arith, h))

record_failure-trips :
    (t : ℕ) (b : CircuitBreaker)
    → b.failure_threshold ≤ b.failure_count + 1
    → ((record_failure t b).state ≡ CircuitState.opened)
      × ((record_failure t b).last_failure_time ≡ some t)
      × ((record_failure t b).recovery_timeout_seconds ≡ b.recovery_timeout_seconds)
unfolding record_failure
record_failure-trips t b h =
    let reached : leb b.failure_threshold (b.failure_count + 1) ≡ true = ground arith in
    rw (reached, record_failure) (refl, refl, refl)

successes-close :
    (n : ℕ) (b : CircuitBreaker)
    → b.state ≡ CircuitState.half_open
    → b.success_count + suc n ≡ b.success_threshold
    → (run (replicate (suc n) succeeds) b).state ≡ CircuitState.closed
unfolding record_success
successes-close zero b o e =
    let reached : leb b.success_threshold (b.success_count + 1) ≡ true = ground arith in
    rw (o, reached, record_success) refl
successes-close (suc n) b o e =
    let more : leb b.success_threshold (b.success_count + 1) ≡ false = ground arith in
    let counted : record_success b
        ≡ record b { failure_count = 0; success_count = b.success_count + 1 } =
      rw (o, more, record_success)
        (ap (λ s. record b { state = s; failure_count = 0; success_count = b.success_count + 1 })
          o) in
    ap (λ c. (run (replicate (suc n) succeeds) c).state) counted
    ∙ successes-close n (record b { failure_count = 0; success_count = b.success_count + 1 }) o
        (omega (arith, e))

-- Once a failure has reached the threshold, no request is allowed before the recovery timeout, however
-- often one has been asked for since, as long as nothing else is recorded.
pub tripped-denies :
    (t now : ℕ) (times : List ℕ) (b : CircuitBreaker)
    → b.failure_threshold ≤ b.failure_count + 1
    → all (λ n. ltb n (t + b.recovery_timeout_seconds)) times ≡ true
    → now < t + b.recovery_timeout_seconds
    → (allow_request now (run (map allows times) (record_failure t b))).0 ≡ false
tripped-denies t now times b h early late =
    let (o, l, same) = record_failure-trips t b h in
    let c = record_failure t b in
    ap (λ d. (allow_request now d).0)
      (run-denies t times c o l
        (subst (λ n. all (λ m. ltb m (t + n)) times ≡ true) (sym same) early))
    ∙ ap (λ r. r.0) (allow_request-denies now t c o l (subst (λ n. now < t + n) (sym same) late))

-- An open breaker whose timeout has passed allows a request, and as many successes as its threshold,
-- at least one, close it.
pub recovered-closes :
    (now n : ℕ) (b : CircuitBreaker)
    → b.state ≡ CircuitState.opened
    → has_recovered now b ≡ true
    → b.success_threshold ≡ suc n
    → ((allow_request now b).0 ≡ true)
      × ((run (replicate (suc n) succeeds) (allow_request now b).1).state ≡ CircuitState.closed)
unfolding allow_request
recovered-closes now n b o r e =
    let allowed : allow_request now b
        ≡ (true, record b { state = CircuitState.half_open; success_count = 0 }) =
      rw (o, r, allow_request) refl in
    (
      ap (λ x. x.0) allowed,
      ap (λ x. (run (replicate (suc n) succeeds) x.1).state) allowed
          ∙ successes-close n (record b { state = CircuitState.half_open; success_count = 0 }) refl
              (omega (arith, e)),
    )
