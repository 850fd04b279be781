-- ===== src/Events/Dispatch.antt =====
-- `dispatch`, `dispatch_sync` and the tracking of events, of swx_core/events/dispatcher.py. Listeners
-- are taken not to use the bus while it dispatches; keyword arguments are left out.
use swx.Prelude.{
  ℕ, Bool, true, false, not, ◌||◌, Option, none, some, List, [], ◌∷◌, ◌++◌, Hashable, length,
  nat_beq, if◌then◌else◌,
}
use swx.Prelude.Text.{Text, text_eq}
use swx.Prelude.Dict.{lookup, insert}
use swx.Events.Model.{Event, ListenerRegistration, EventBus, Outside, Ended, done, raised, missing}
use swx.Events.Bus.{or_empty, new_event, is_stopped, get_listeners_for_event, forget_each}

-- What a loop over listeners leaves: the event, the world, the one-time listeners that ran, and
-- whether an exception came out.
pub record Run (L P W : Type 0) : Type 0 where
  pub event : Event P
  pub world : W
  pub to_remove : List (ListenerRegistration L)
  pub escaped : Bool

-- The event that `fired` keeps is the one that the listeners change.
abbrev pub track : {L P : Type 0} → Event P → Text → EventBus L P → EventBus L P
track e event bus = record bus {
  fired = insert event (or_empty (lookup event bus.fired) ++ e ∷ []) bus.fired;
}

module _ {L P W : Type 0} (O : Outside L P W) where
  -- `_execute_listener`
  abbrev pub execute_listener : ListenerRegistration L → Event P → W → Ended × Event P × W
  execute_listener r e w = O.call r.listener e w

  abbrev pub queued : ListenerRegistration L → Event P → Ended × W → Ended × Event P × W
  queued r e (missing, w) = execute_listener r e w
  queued r e (ended, w) = (ended, e, w)

  -- `_queue_listener`
  abbrev pub queue_listener : ListenerRegistration L → Event P → W → Ended × Event P × W
  queue_listener r e w = queued r e (O.enqueue r e w)

  abbrev pub run_listener : ListenerRegistration L → Event P → W → Ended × Event P × W
  run_listener r e w = if r.queueable then queue_listener r e w else execute_listener r e w

  abbrev pub failed :
      (Event P → W → Run L P W) → Bool → Event P → W → List (ListenerRegistration L) → Run L P W
  failed next true e w gone = next e w
  failed next false e w gone = record { event = e; world = w; to_remove = gone; escaped = true }

  -- What follows the call of a listener. The message on its exception asks for its `__name__`.
  abbrev pub finished :
      (List (ListenerRegistration L) → Event P → W → Run L P W)
      → ListenerRegistration L
      → List (ListenerRegistration L)
      → Ended × Event P × W
      → Run L P W
  finished next r gone (done, e, w) = next (if r.once then gone ++ r ∷ [] else gone) e w
  finished next r gone (raised, e, w) = failed (next gone) (O.is_named r.listener) e w gone
  finished next r gone (missing, e, w) = failed (next gone) (O.is_named r.listener) e w gone

  -- The loop of `dispatch`.
  unfoldable pub run_each :
      List (ListenerRegistration L) → List (ListenerRegistration L) → Event P → W → Run L P W
  run_each [] gone e w = record { event = e; world = w; to_remove = gone; escaped = false }
  run_each (r ∷ rs) gone e w = elim (is_stopped e) [
    | true ↦ record { event = e; world = w; to_remove = gone; escaped = false }
    | false ↦ finished (λ gone' e' w'. run_each rs gone' e' w') r gone (run_listener r e w)
  ]

  -- The loop of `dispatch_sync`.
  unfoldable pub run_each_sync : List (ListenerRegistration L) → Event P → W → Event P × W
  run_each_sync [] e w = (e, w)
  run_each_sync (r ∷ rs) e w = elim (is_stopped e) [
    | true ↦ (e, w)
    | false ↦ elim (r.queueable || r.async_listener) [
      | true ↦ run_each_sync rs e w
      | false ↦ let (ended, e', w') = O.call r.listener e w in run_each_sync rs e' w'
    ]
  ]

  module _ ⦃same : Hashable L⦄ where
    -- The event, or `none` where an exception came out.
    abbrev pub dispatched : Text → EventBus L P → Run L P W → Option (Event P) × EventBus L P × W
    dispatched event bus r =
        if r.escaped
        then (none, track r.event event bus, r.world)
        else (some r.event, forget_each event r.to_remove (track r.event event bus), r.world)

    unfoldable pub dispatch : Text → P → EventBus L P → W → Option (Event P) × EventBus L P × W
    unfolding run_each
    dispatch event payload bus w =
        dispatched event bus
          (run_each (get_listeners_for_event event bus) [] (new_event event payload (O.now w)) w)

    unfoldable pub dispatch_sync : Text → P → EventBus L P → W → Event P × EventBus L P × W
    unfolding run_each_sync
    dispatch_sync event payload bus w =
        let (e, w') =
          run_each_sync (get_listeners_for_event event bus) (new_event event payload (O.now w)) w in
        (e, track e event bus, w')

    unfoldable pub emit : Event P → EventBus L P → W → Option (Event P) × EventBus L P × W
    unfolding dispatch
    emit e bus w = dispatch e.name e.payload bus w

abbrev pub all_events : {P : Type 0} → List (Text × List (Event P)) → List (Event P)
all_events [] = []
all_events ((_, events) ∷ fired) = events ++ all_events fired

module _ {L P : Type 0} where
  abbrev pub fired_of : Text → EventBus L P → List (Event P)
  fired_of event bus = or_empty (lookup event bus.fired)

  -- The assertions: whether they hold.
  unfoldable pub assert_fired_times : Text → ℕ → EventBus L P → Bool
  assert_fired_times event times bus = nat_beq (length (fired_of event bus)) times

  unfoldable pub assert_not_fired : Text → EventBus L P → Bool
  assert_not_fired event bus = nat_beq (length (fired_of event bus)) 0

  unfoldable pub assert_fired : Text → EventBus L P → Bool
  unfolding assert_not_fired
  assert_fired event bus = not (assert_not_fired event bus)

  unfoldable pub get_fired_events : Option Text → EventBus L P → List (Event P)
  get_fired_events none bus = all_events bus.fired
  get_fired_events (some []) bus = all_events bus.fired
  get_fired_events (some event) bus = fired_of event bus

  unfoldable pub clear_fired : EventBus L P → EventBus L P
  clear_fired bus = record bus { fired = [] }
