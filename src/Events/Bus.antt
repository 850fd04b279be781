-- ===== src/Events/Bus.antt =====
-- The operations of `EventBus`, of swx_core/events/dispatcher.py. The logging is left out, but for
-- the name of a failed listener, which it asks for.
use swx.Prelude.{
  ℕ, Bool, true, false, not, ◌&&◌, ◌||◌, Option, none, some, List, [], ◌∷◌, ◌++◌, String, string_eq,
  Hashable, ◌==◌, any, filter, if◌then◌else◌,
}
use swx.Prelude.Int.{ℤ, pos, ltb_ℤ, ℤ_beq}
use swx.Prelude.Text.{Text, text_eq, text_beq}
use swx.Prelude.Dict.{lookup, contains, insert, erase}
use swx.Events.Model.{Event, ListenerRegistration, EventBus, Outside}
use swx.Events.Pattern.{has_star, matches_pattern}

abbrev pub or_empty : {A : Type 0} → Option (List A) → List A
or_empty none = []
or_empty (some xs) = xs

abbrev pub option_beq : Option Text → Option Text → Bool
option_beq none none = true
option_beq (some s) (some t) = text_beq s t
option_beq _ _ = false

-- `pattern and self._matches_pattern(event, pattern)`
abbrev pub applies : Text → Option Text → Bool
applies event none = false
applies event (some []) = false
applies event (some pattern) = matches_pattern event pattern

abbrev pub bool_beq : Bool → Bool → Bool
bool_beq true b = b
bool_beq false b = not b

abbrev pub new_event : {P : Type 0} → Text → P → ℕ → Event P
new_event name payload now = record {
  name = name;
  payload = payload;
  timestamp = now;
  stopped = false;
  metadata = [];
}

-- `Event.stop`, `is_stopped`, `set` and `get`
unfoldable pub stop : {P : Type 0} → Event P → Event P
stop e = record e { stopped = true }

abbrev pub is_stopped : {P : Type 0} → Event P → Bool
is_stopped e = e.stopped

unfoldable pub set : {P : Type 0} → String → P → Event P → Event P
set key value e = record e { metadata = insert key value e.metadata }

unfoldable pub get : {P : Type 0} → String → P → Event P → P
get key default e = elim (lookup key e.metadata) [ none ↦ default | some v ↦ v ]

abbrev pub new_bus : {L P : Type 0} → EventBus L P
new_bus = record { listeners = []; wildcard_listeners = []; fired = [] }

module _ {L : Type 0} where
  -- A stable `sort(key=lambda r: r.priority, reverse=True)`: `r` goes before those of its priority.
  abbrev pub place :
      ListenerRegistration L → List (ListenerRegistration L) → List (ListenerRegistration L)
  place r [] = r ∷ []
  place r (s ∷ rs) = if ltb_ℤ r.priority s.priority then s ∷ place r rs else r ∷ s ∷ rs

  abbrev pub sort : List (ListenerRegistration L) → List (ListenerRegistration L)
  sort [] = []
  sort (r ∷ rs) = place r (sort rs)

module _ {L : Type 0} ⦃same : Hashable L⦄ where
  -- The `==` of the dataclass.
  abbrev pub same_registration : ListenerRegistration L → ListenerRegistration L → Bool
  same_registration r s =
      r.listener == s.listener
      && ℤ_beq r.priority s.priority
      && bool_beq r.queueable s.queueable
      && r.queue_name == s.queue_name
      && bool_beq r.async_listener s.async_listener
      && bool_beq r.once s.once
      && option_beq r.pattern s.pattern

  -- `reg in rs`
  abbrev pub is_in : ListenerRegistration L → List (ListenerRegistration L) → Bool
  is_in r rs = any (λ s. same_registration s r) rs

  -- `rs.remove(r)` where `r` is in `rs`: the first equal one goes.
  abbrev pub remove :
      ListenerRegistration L → List (ListenerRegistration L) → List (ListenerRegistration L)
  remove r [] = []
  remove r (s ∷ rs) = if same_registration s r then rs else s ∷ remove r rs

  abbrev pub remove_each :
      List (ListenerRegistration L) → List (ListenerRegistration L) → List (ListenerRegistration L)
  remove_each [] rs = rs
  remove_each (r ∷ gone) rs = remove_each gone (remove r rs)

abbrev pub not_empty : {L : Type 0} → List (ListenerRegistration L) → Bool
not_empty [] = false
not_empty (_ ∷ _) = true

module _ {L P W : Type 0} (O : Outside L P W) where
  abbrev pub registration : L → ℤ → Bool → String → Bool → Option Text → ListenerRegistration L
  registration listener priority queueable queue_name once pattern = record {
    listener = listener;
    priority = priority;
    queueable = queueable;
    queue_name = queue_name;
    async_listener = O.is_coroutine listener;
    once = once;
    pattern = pattern;
  }

  unfoldable pub listen : Text → L → ℤ → Bool → String → Bool → EventBus L P → EventBus L P
  listen event listener priority queueable queue_name once bus =
      if has_star event
      then record bus {
        wildcard_listeners = sort (
            bus.wildcard_listeners
            ++ registration listener priority queueable queue_name once (some event) ∷ []);
      }
      else record bus {
        listeners =
            insert event
              (sort (
                or_empty (lookup event bus.listeners)
                ++ registration listener priority queueable queue_name once none ∷ []))
              bus.listeners;
      }

  -- `subscribe`, with the defaults of `listen`.
  unfoldable pub subscribe : Text → L → EventBus L P → EventBus L P
  unfolding listen
  subscribe event func bus = listen event func (pos 50) false "default" false bus

module _ {L : Type 0} ⦃same : Hashable L⦄ where
  abbrev pub of_listener : L → List (ListenerRegistration L) → List (ListenerRegistration L)
  of_listener listener rs = filter (λ r. r.listener == listener) rs

  abbrev pub forgotten : L → List (ListenerRegistration L) → List (ListenerRegistration L)
  forgotten listener rs = remove_each (of_listener listener rs) rs

  -- The loop over the wildcards.
  abbrev pub add_matching :
      Text
      → List (ListenerRegistration L)
      → List (ListenerRegistration L)
      → List (ListenerRegistration L)
  add_matching event [] found = found
  add_matching event (r ∷ wildcards) found =
      add_matching event wildcards
        (if not (is_in r found) && applies event r.pattern then found ++ r ∷ [] else found)

module _ {L P : Type 0} ⦃same : Hashable L⦄ where
  unfoldable pub forget : Text → L → EventBus L P → Bool × EventBus L P
  forget event listener bus =
      let direct = or_empty (lookup event bus.listeners) in
      (
        any (λ r. r.listener == listener) direct
            || any (λ r. r.listener == listener) bus.wildcard_listeners,
        record bus {
          listeners =
              if contains event bus.listeners
              then insert event (forgotten listener direct) bus.listeners
              else bus.listeners;
          wildcard_listeners = forgotten listener bus.wildcard_listeners;
        },
      )

  -- `_forget_registration`
  unfoldable pub forget_registration : Text → ListenerRegistration L → EventBus L P → EventBus L P
  forget_registration event r bus = record bus {
    listeners =
        if contains event bus.listeners
        then insert event (remove r (or_empty (lookup event bus.listeners))) bus.listeners
        else bus.listeners;
    wildcard_listeners = remove r bus.wildcard_listeners;
  }

  abbrev pub forget_each : Text → List (ListenerRegistration L) → EventBus L P → EventBus L P
  forget_each event [] bus = bus
  forget_each event (r ∷ rs) bus = forget_each event rs (forget_registration event r bus)

  -- `_get_listeners_for_event`
  unfoldable pub get_listeners_for_event : Text → EventBus L P → List (ListenerRegistration L)
  get_listeners_for_event event bus =
      sort (add_matching event bus.wildcard_listeners (or_empty (lookup event bus.listeners)))

  -- With no event, and also with an empty name, all listeners go.
  unfoldable pub forget_all : Option Text → EventBus L P → EventBus L P
  forget_all none bus = record bus { listeners = []; wildcard_listeners = [] }
  forget_all (some []) bus = record bus { listeners = []; wildcard_listeners = [] }
  forget_all (some event) bus = record bus { listeners = erase event bus.listeners }

  unfoldable pub has_listeners : Text → EventBus L P → Bool
  has_listeners event bus =
      not_empty (or_empty (lookup event bus.listeners)) || not_empty bus.wildcard_listeners

  unfoldable pub get_listeners : Text → EventBus L P → List (ListenerRegistration L)
  get_listeners event bus = or_empty (lookup event bus.listeners) ++ bus.wildcard_listeners
