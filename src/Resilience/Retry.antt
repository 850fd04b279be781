-- ===== src/Resilience/Retry.antt =====
-- `calculate_backoff` and `retry_with_backoff` of swx_core/services/llm/resilience.py. Delays are
-- whole ticks. The world `W` carries what lies outside: the called function, the clock, the random
-- part of a delay, and the sleep.
use swx.Prelude.{
  ℕ, zero, suc, ◌+◌, ◌-◌, ◌*◌, ◌^◌, ◌/◌, ◌≤◌, ◌≡◌, refl, Bool, true, false, Option, none, some, min,
  arith, if◌then◌else◌,
}
use swx.Prelude.Int.{ℤ, pos, negsuc}
use swx.Resilience.Breaker.{CircuitBreaker, allow_request}

-- `attempt` counts from 1.
abbrev pub delay_of : ℕ → ℕ → ℕ → ℕ
delay_of attempt base_delay max_delay = min max_delay (base_delay * 2 ^ (attempt - 1))

unfoldable pub calculate_backoff : ℕ → ℕ → ℕ → Option ℕ → ℕ
calculate_backoff attempt base_delay max_delay none = delay_of attempt base_delay max_delay
calculate_backoff attempt base_delay max_delay (some uniform) =
    delay_of attempt base_delay max_delay + uniform

pub data Attempt (A E : Type 0) : Type 0 where
  returned : A → Attempt A E
  raised : E → Attempt A E

-- `circuit_open` is `CircuitOpenError`.
pub data Outcome (A E : Type 0) : Type 0 where
  value : A → Outcome A E
  last_error : E → Outcome A E
  circuit_open : Outcome A E
  -- `RuntimeError`
  no_attempt : Outcome A E

pub record Outside (W A E : Type 0) : Type 0 where
  pub fn : W → Attempt A E × W
  pub now : W → ℕ
  pub uniform : ℕ → W → ℕ
  pub sleep : ℕ → W → W

-- How a call ended, how often `fn` was called, and what is left of the breaker and the world.
pub record Ended (W A E : Type 0) : Type 0 where
  pub outcome : Outcome A E
  pub calls : ℕ
  pub breaker : Option CircuitBreaker
  pub world : W

module _ {W A E : Type 0} (O : Outside W A E) (base_delay max_delay : ℕ) where
  abbrev pub permit : Option CircuitBreaker → W → Bool × Option CircuitBreaker
  permit none w = (true, none)
  permit (some b) w = let (allowed, b') = allow_request (O.now w) b in (allowed, some b')

  abbrev pub nap : ℕ → W → W
  nap attempt w =
      let uniform = O.uniform (delay_of attempt base_delay max_delay / 4) w in
      O.sleep (calculate_backoff attempt base_delay max_delay (some uniform)) w

  -- What follows `await fn()`; `failed` goes on after an exception.
  abbrev pub answered :
      (E → Option CircuitBreaker → W → Ended W A E)
      → ℕ
      → Option CircuitBreaker
      → Attempt A E × W
      → Ended W A E
  answered failed calls b (Attempt.returned a, w) = record {
    outcome = Outcome.value a;
    calls = calls + 1;
    breaker = b;
    world = w;
  }
  answered failed calls b (Attempt.raised e, w) = failed e b w

  abbrev pub permitted :
      (E → Option CircuitBreaker → W → Ended W A E)
      → ℕ
      → W
      → Bool × Option CircuitBreaker
      → Ended W A E
  permitted failed calls w (false, b) = record {
    outcome = Outcome.circuit_open;
    calls = calls;
    breaker = b;
    world = w;
  }
  permitted failed calls w (true, b) = answered failed calls b (O.fn w)

  abbrev pub exhausted : ℕ → E → Option CircuitBreaker → W → Ended W A E
  exhausted calls e b w = record {
    outcome = Outcome.last_error e;
    calls = calls + 1;
    breaker = b;
    world = w;
  }

  -- The rounds of the loop from `attempt` on, of which `retries` are not the last.
  unfoldable pub rounds : ℕ → ℕ → ℕ → Option CircuitBreaker → W → Ended W A E
  rounds zero attempt calls b w = permitted (exhausted calls) calls w (permit b w)
  rounds (suc retries) attempt calls b w =
      permitted (λ e b' w'. rounds retries (attempt + 1) (calls + 1) b' (nap attempt w')) calls w
        (permit b w)

  -- `range(1, max_retries + 2)` is empty for a negative number.
  unfoldable pub retry_with_backoff : ℤ → Option CircuitBreaker → W → Ended W A E
  unfolding rounds
  retry_with_backoff (pos max_retries) b w = rounds max_retries 1 0 b w
  retry_with_backoff (negsuc _) b w = record {
    outcome = Outcome.no_attempt;
    calls = 0;
    breaker = b;
    world = w;
  }

  -- `max(max_retries + 1, 0)`
  abbrev pub attempts_allowed : ℤ → ℕ
  attempts_allowed (pos max_retries) = max_retries + 1
  attempts_allowed (negsuc _) = 0

  -- Whether the last error came out.
  abbrev pub gave_up : Outcome A E → Bool
  gave_up (Outcome.last_error e) = true
  gave_up _ = false

  -- At most `limit` calls, and as many if the last error came out.
  abbrev pub Counted : ℕ → Ended W A E → Type 0
  Counted limit r = (r.calls ≤ limit) × ((if gave_up r.outcome then r.calls else limit) ≡ limit)

  permitted-Counted :
      (limit calls : ℕ) (failed : E → Option CircuitBreaker → W → Ended W A E) (w : W)
      (p : Bool × Option CircuitBreaker)
      → suc calls ≤ limit
      → ((e : E) (b : Option CircuitBreaker) (w : W) → Counted limit (failed e b w))
      → Counted limit (permitted failed calls w p)
  permitted-Counted limit calls failed w (false, b) h f = (omega (arith, h), refl)
  permitted-Counted limit calls failed w (true, b) h f = after (O.fn w)
    where
      after : (r : Attempt A E × W) → Counted limit (answered failed calls b r)
      after (Attempt.returned a, w) = (omega (arith, h), refl)
      after (Attempt.raised e, w) = f e b w

  rounds-Counted :
      (retries attempt calls limit : ℕ) (b : Option CircuitBreaker) (w : W)
      → limit ≡ calls + suc retries
      → Counted limit (rounds retries attempt calls b w)
  unfolding rounds
  rounds-Counted zero attempt calls limit b w l =
      permitted-Counted limit calls (exhausted calls) w (permit b w) (omega (arith, l))
        (λ e b w. (omega (arith, l), omega (arith, l)))
  rounds-Counted (suc retries) attempt calls limit b w l =
      permitted-Counted limit calls
        (λ e b' w'. rounds retries (attempt + 1) (calls + 1) b' (nap attempt w')) w (permit b w)
        (omega (arith, l))
        (λ e b' w'.
          rounds-Counted retries (attempt + 1) (calls + 1) limit b' (nap attempt w')
            (omega (arith, l)))

  -- The function is called at most `max_retries + 1` times, never for a negative `max_retries`, and
  -- as often as that if its last error comes out.
  pub retry_with_backoff-Counted :
      (max_retries : ℤ) (b : Option CircuitBreaker) (w : W)
      → Counted (attempts_allowed max_retries) (retry_with_backoff max_retries b w)
  unfolding retry_with_backoff
  retry_with_backoff-Counted (pos max_retries) b w =
      rounds-Counted max_retries 1 0 (max_retries + 1) b w (omega arith)
  retry_with_backoff-Counted (negsuc _) b w = (omega arith, refl)
