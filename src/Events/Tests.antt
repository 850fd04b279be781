-- ===== src/Events/Tests.antt =====
-- A bus of three listeners, on which the theorems are applied and the operations run.
use swx.Prelude.{
  ℕ, Bool, true, false, ◌&&◌, ◌||◌, List, [], ◌∷◌, ◌≡◌, ◌↔◌, ◌⊎◌, refl, nat_eq, if◌then◌else◌,
}
use swx.Prelude.Int.{ℤ, pos}
use swx.Prelude.Text.{Text, codes, text_eq}
use swx.Prelude.Dict.{lookup}
use swx.Events.Model.{Event, ListenerRegistration, EventBus, Outside, done}
use swx.Events.Pattern.{matches_pattern, matches_pattern-Fits, join, star, Fits}
use swx.Events.Bus.{
  or_empty, new_bus, listen, forget_registration, get_listeners_for_event, is_in, applies,
  add_matching,
}
use swx.Events.Dispatch.{dispatch, run_each}
use swx.Events.Order.{Sorted, of_priority, get_listeners_for_event-Sorted}
use swx.Events.Once.{lasting, IsQuiet, dispatch-lasting}

-- Listeners write down their number.
abbrev calls : Outside ℕ ℕ (List ℕ)
calls = record {
  call = λ l e w. (done, e, l ∷ w);
  is_coroutine = λ l. false;
  is_named = λ l. true;
  enqueue = λ r e w. (done, w);
  now = λ w. 0;
}

abbrev created : Text
created = codes "user.created"

bus : EventBus ℕ ℕ
unfolding listen
bus = listen calls created 3 (pos 25) false "default" false (
    listen calls (codes "user.*") 2 (pos 75) false "default" false
      (listen calls created 1 (pos 50) false "default" true new_bus))

heard_order : (dispatch calls created 5 bus []).2 ≡ 3 ∷ 1 ∷ 2 ∷ []
unfolding dispatch bus get_listeners_for_event run_each matches_pattern
heard_order = refl

heard_again : (dispatch calls created 5 (dispatch calls created 5 bus []).1 []).2 ≡ 3 ∷ 2 ∷ []
unfolding dispatch bus get_listeners_for_event run_each matches_pattern forget_registration
heard_again = refl

matches_pattern-Fits_example :
    (matches_pattern
        (join (codes "user" ∷ codes "created" ∷ []))
        (join (codes "user" ∷ codes "*" ∷ []))
      ≡ true)
    ↔ ((join (codes "user" ∷ codes "*" ∷ []) ≡ star ∷ [])
        ⊎ Fits (codes "user" ∷ codes "*" ∷ []) (codes "user" ∷ codes "created" ∷ []))
matches_pattern-Fits_example =
    matches_pattern-Fits (codes "user") (codes "*" ∷ []) (codes "user") (codes "created" ∷ [])
      (refl, (refl, tt)) (refl, (refl, tt))

get_listeners_for_event-Sorted_example :
    Sorted (get_listeners_for_event created bus)
    × ((r : ListenerRegistration ℕ)
        → is_in r (get_listeners_for_event created bus) ≡ (
            is_in r (or_empty (lookup created bus.listeners))
            || (is_in r bus.wildcard_listeners && applies created r.pattern)))
    × ((p : ℤ)
        → of_priority p (get_listeners_for_event created bus)
          ≡ of_priority p (
              add_matching created bus.wildcard_listeners
                (or_empty (lookup created bus.listeners))))
get_listeners_for_event-Sorted_example = get_listeners_for_event-Sorted created bus

calls-IsQuiet :
    (r : ListenerRegistration ℕ) (e : Event ℕ) (w : List ℕ) (b : Bool)
    → e.stopped ≡ false
    → IsQuiet calls (if b then (done, e, w) else (done, e, r.listener ∷ w))
calls-IsQuiet r e w true h = h
calls-IsQuiet r e w false h = h

dispatch-lasting_example :
    or_empty (lookup created (dispatch calls created 5 bus []).1.listeners)
    ≡ lasting (or_empty (lookup created bus.listeners))
dispatch-lasting_example =
    dispatch-lasting calls created 5 bus [] (λ r e w i h. calls-IsQuiet r e w r.queueable h)
