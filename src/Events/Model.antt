-- ===== src/Events/Model.antt =====
-- The state of `EventBus`, of swx_core/events/dispatcher.py. `L` is the type of listeners, whose
-- `==` its `Hashable` is; `P` is that of payloads, `W` the world that listeners act on.
use swx.Prelude.{ℕ, Bool, Option, List, String, string_eq}
use swx.Prelude.Int.{ℤ}
use swx.Prelude.Text.{Text, text_eq}

pub record Event (P : Type 0) : Type 0 where
  pub name : Text
  pub payload : P
  pub timestamp : ℕ
  pub stopped : Bool
  pub metadata : List (String × P)

pub record ListenerRegistration (L : Type 0) : Type 0 where
  pub listener : L
  pub priority : ℤ
  pub queueable : Bool
  pub queue_name : String
  pub async_listener : Bool
  pub once : Bool
  pub pattern : Option Text

pub record EventBus (L P : Type 0) : Type 0 where
  pub listeners : List (Text × List (ListenerRegistration L))
  pub wildcard_listeners : List (ListenerRegistration L)
  pub fired : List (Text × List (Event P))

-- How a call of other code ended: `missing` is an `ImportError`.
pub data Ended : Type 0 where
  done : Ended
  raised : Ended
  missing : Ended

-- Listeners may change the event and the world; `is_coroutine` is `iscoroutinefunction`, `is_named`
-- whether the listener has a `__name__`, `enqueue` imports and calls `enqueue_job`.
pub record Outside (L P W : Type 0) : Type 0 where
  pub call : L → Event P → W → Ended × Event P × W
  pub is_coroutine : L → Bool
  pub is_named : L → Bool
  pub enqueue : ListenerRegistration L → Event P → W → Ended × W
  pub now : W → ℕ
