-- ===== src/Resilience/Tests.antt =====
-- The breaker and the retries at concrete calls.
use swx.Prelude.{
  ℕ, ◌+◌, ◌≡◌, refl, Bool, true, false, not, ◌||◌, none, some, List, [], ◌∷◌, map, arith, ltb,
}
use swx.Prelude.Int.{pos}
use swx.Resilience.Breaker.{
  CircuitBreaker, CircuitState, new_breaker, BreakerCall, allows, succeeds, fails, run, replicate,
  failing, is_closed, run-closed, record_failure, allow_request, tripped-denies, recovered-closes,
}
use swx.Resilience.Retry.{
  Outside, Attempt, returned, raised, retry_with_backoff, Counted, retry_with_backoff-Counted,
}

abbrev history : List BreakerCall
history = fails 1 ∷ succeeds ∷ fails 2 ∷ allows 3 ∷ fails 4 ∷ []

run-closed_example :
    ((run history (new_breaker 3 1 30)).failure_count ≡ failing history 0)
    × (not (is_closed (run history (new_breaker 3 1 30)).state) || ltb (failing history 0) 3) ≡ true
run-closed_example = run-closed 3 1 30 history (omega arith)

abbrev nearly : CircuitBreaker
nearly = record (new_breaker 2 2 30) { failure_count = 1 }

tripped-denies_example :
    (allow_request 20 (run (map allows (11 ∷ 12 ∷ [])) (record_failure 10 nearly))).0 ≡ false
tripped-denies_example = tripped-denies 10 20 (11 ∷ 12 ∷ []) nearly (omega arith) refl (omega arith)

abbrev tripped : CircuitBreaker
tripped = record nearly {
  failure_count = 2;
  state = CircuitState.opened;
  last_failure_time = some 10;
}

recovered-closes_example :
    ((allow_request 40 tripped).0 ≡ true)
    × ((run (replicate 2 succeeds) (allow_request 40 tripped).1).state ≡ CircuitState.closed)
recovered-closes_example = recovered-closes 40 1 tripped refl refl refl

-- The function fails while the world is below 3; a sleep adds one to it.
abbrev answer : Bool → Attempt ℕ ℕ
answer true = raised 0
answer false = returned 7

abbrev flaky : Outside ℕ ℕ ℕ
flaky = record {
  fn = λ w. (answer (ltb w 3), w);
  now = λ w. w;
  uniform = λ limit w. 0;
  sleep = λ delay w. w + 1;
}

retry_with_backoff-Counted_example :
    Counted flaky 1 8 5 (retry_with_backoff flaky 1 8 (pos 4) none 0)
retry_with_backoff-Counted_example = retry_with_backoff-Counted flaky 1 8 (pos 4) none 0
