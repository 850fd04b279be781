-- ===== src/Events/Once.antt =====
-- One-time listeners, of `dispatch` in swx_core/events/dispatcher.py.
use swx.Prelude.{
  ℕ, suc, ◌≤◌, ◌-◌, Bool, true, false, not, ◌&&◌, Option, none, some, List, [], ◌∷◌, ◌++◌, ◌≡◌,
  refl, sym, ap, subst, inl, inr, ◌∙◌, arith, Option-cases, Hashable, filter, all, if◌then◌else◌,
  Bool-cases,
}
use mathlib.Core.List.{append-nil, append_assoc}
use swx.Prelude.Dict.{lookup, insert, lookup-insert, contains-lookup}
use swx.Prelude.Text.{Text, text_eq, text_beq_refl}
use swx.Events.Model.{Event, ListenerRegistration, EventBus, Outside, Ended, done, raised, missing}
use swx.Events.Equality.{same_registration_iff}
use swx.Events.Bus.{
  or_empty, applies, place, sort, same_registration, is_in, remove, remove_each, add_matching,
  forget_registration, forget_each, get_listeners_for_event, new_event,
}
use swx.Events.Dispatch.{Run, run_listener, finished, run_each, track, dispatched, dispatch}

module _ {L : Type 0} ⦃same : Hashable L⦄ where
  -- How often a registration is in a list.
  abbrev count : ListenerRegistration L → List (ListenerRegistration L) → ℕ
  count r [] = 0
  count r (s ∷ rs) = if same_registration s r then suc (count r rs) else count r rs

  abbrev pub lasting : List (ListenerRegistration L) → List (ListenerRegistration L)
  lasting rs = filter (λ r. not r.once) rs

  abbrev one_time : List (ListenerRegistration L) → List (ListenerRegistration L)
  one_time rs = filter (λ r. r.once) rs

  -- Every one-time registration is as often in `gone` as in the list.
  abbrev Covers : List (ListenerRegistration L) → List (ListenerRegistration L) → Type 0
  Covers gone rs = (r : ListenerRegistration L) → r.once ≡ true → count r rs ≤ count r gone

  count-remove :
      (r y : ListenerRegistration L) (rs : List (ListenerRegistration L))
      → count r (remove y rs) ≡ (if same_registration y r then count r rs - 1 else count r rs)
  count-remove r y [] = ground arith
  count-remove r y (s ∷ rs) = elim (Bool-cases (same_registration s y)) [
    | inl e ↦
        let k = ap (λ x. same_registration x r) ((same_registration_iff s y).0 e) in
        rw e (ground (arith, k))
    | inr e ↦ elim (Bool-cases (same_registration y r)) [
      | inl f ↦ elim (Bool-cases (same_registration s r)) [
        | inl g ↦ absurd (
            let n =
              (same_registration_iff s y).1
                ((same_registration_iff s r).0 g ∙ sym ((same_registration_iff y r).0 f)) in
            cc)
        | inr g ↦ rw (e, f, g) (count-remove r y rs ∙ rw f refl)
      ]
      | inr f ↦
          rw (e, f)
            (ap (λ n. if same_registration s r then suc n else n) (count-remove r y rs ∙ rw f refl))
    ]
  ]

  lasting-remove :
      (y : ListenerRegistration L) (rs : List (ListenerRegistration L))
      → y.once ≡ true
      → lasting (remove y rs) ≡ lasting rs
  lasting-remove y [] h = refl
  lasting-remove y (s ∷ rs) h = elim (Bool-cases (same_registration s y)) [
    | inl e ↦
        let q : s.once ≡ true = ap (λ r. r.once) ((same_registration_iff s y).0 e) ∙ h in
        rw (e, q) refl
    | inr e ↦ rw (e, lasting-remove y rs h) refl
  ]

  nothing_left : (rs : List (ListenerRegistration L)) → Covers [] rs → rs ≡ lasting rs
  nothing_left [] h = refl
  nothing_left (s ∷ rs) h = elim (Bool-cases s.once) [
    | inl e ↦ absurd (omega (arith, zero_is (h s e)))
    | inr e ↦
        ap (◌∷◌ s) (nothing_left rs (λ r o. omega (arith, h r o, count-tail r)))
        ∙ sym (shown s.once e)
  ]
    where
      count-tail : (r : ListenerRegistration L) → count r rs ≤ count r (s ∷ rs)
      count-tail r = ground arith

      shown :
          (b : Bool) → b ≡ false → (if not b then s ∷ lasting rs else lasting rs) ≡ s ∷ lasting rs
      shown true q = absurd (cc)
      shown false q = refl

      zero_is : count s (s ∷ rs) ≤ 0 → suc (count s rs) ≤ 0
      zero_is q = rw ((same_registration_iff s s).1 refl) at q

  remove_each-lasting :
      (gone rs : List (ListenerRegistration L))
      → all (λ r. r.once) gone ≡ true
      → Covers gone rs
      → remove_each gone rs ≡ lasting rs
  remove_each-lasting [] rs once covers = nothing_left rs covers
  remove_each-lasting (y ∷ gone) rs once covers =
      remove_each-lasting gone (remove y rs) (ground (arith, once))
        (λ r o. ground (arith, count-remove r y rs, covers r o))
      ∙ lasting-remove y rs (ground (arith, once))

  count-place :
      (t r : ListenerRegistration L) (rs : List (ListenerRegistration L))
      → count t (place r rs) ≡ count t (r ∷ rs)
  count-place t r [] = refl
  count-place t r (s ∷ rs) = ground (arith, count-place t r rs)

  count-sort :
      (t : ListenerRegistration L) (rs : List (ListenerRegistration L))
      → count t (sort rs) ≡ count t rs
  count-sort t [] = refl
  count-sort t (r ∷ rs) =
      count-place t r (sort rs)
      ∙ ap (λ n. if same_registration r t then suc n else n) (count-sort t rs)

  count-append :
      (t : ListenerRegistration L) (xs ys : List (ListenerRegistration L))
      → count t xs ≤ count t (xs ++ ys)
  count-append t [] ys = omega arith
  count-append t (x ∷ xs) ys = ground (arith, count-append t xs ys)

  count-add_matching :
      (event : Text) (t : ListenerRegistration L) (ws found : List (ListenerRegistration L))
      → count t found ≤ count t (add_matching event ws found)
  count-add_matching event t [] found = omega arith
  count-add_matching event t (w ∷ ws) found =
      let b = not (is_in w found) && applies event w.pattern in
      omega (arith, perhaps b, count-add_matching event t ws (if b then found ++ w ∷ [] else found))
    where
      perhaps : (b : Bool) → count t found ≤ count t (if b then found ++ w ∷ [] else found)
      perhaps true = count-append t found (w ∷ [])
      perhaps false = omega arith

  count-one_time :
      (t : ListenerRegistration L) (rs : List (ListenerRegistration L))
      → t.once ≡ true
      → count t rs ≤ count t (one_time rs)
  count-one_time t [] h = omega arith
  count-one_time t (r ∷ rs) h =
      either r.once (count-one_time t rs h)
        (λ e. ap (λ x. x.once) ((same_registration_iff r t).0 e) ∙ h)
    where
      either :
          (b : Bool)
          → count t rs ≤ count t (one_time rs)
          → (same_registration r t ≡ true → b ≡ true)
          → count t (r ∷ rs) ≤ count t (if b then r ∷ one_time rs else one_time rs)
      either true q k = ground (arith, q)
      either false q k = ground (arith, k, q)

  one_time-once : (rs : List (ListenerRegistration L)) → all (λ r. r.once) (one_time rs) ≡ true
  one_time-once [] = refl
  one_time-once (r ∷ rs) = ground (arith, one_time-once rs)

module _ {L P W : Type 0} ⦃same : Hashable L⦄ (O : Outside L P W) where
  -- The listener neither raises nor stops the event.
  abbrev pub IsQuiet : Ended × Event P × W → Type 0
  IsQuiet (done, e, w) = e.stopped ≡ false
  IsQuiet (raised, e, w) = ⊥
  IsQuiet (missing, e, w) = ⊥

  abbrev pub AllQuiet : List (ListenerRegistration L) → Type 0
  AllQuiet rs =
      (r : ListenerRegistration L) (e : Event P) (w : W)
      → is_in r rs ≡ true
      → e.stopped ≡ false
      → IsQuiet (run_listener O r e w)

  abbrev pub Leaves :
      List (ListenerRegistration L) → List (ListenerRegistration L) → Run L P W → Type 0
  Leaves rs gone run = (run.escaped ≡ false) × (run.to_remove ≡ gone ++ one_time rs)

  join_one :
      (r : ListenerRegistration L) (rs gone : List (ListenerRegistration L)) (b : Bool)
      → (if b then gone ++ r ∷ [] else gone) ++ one_time rs
        ≡ gone ++ (if b then r ∷ one_time rs else one_time rs)
  join_one r rs gone true = append_assoc gone (r ∷ []) (one_time rs)
  join_one r rs gone false = refl

  quiet_step :
      (r : ListenerRegistration L) (rs gone : List (ListenerRegistration L))
      (next : List (ListenerRegistration L) → Event P → W → Run L P W) (o : Ended × Event P × W)
      → IsQuiet o
      → ((gone' : List (ListenerRegistration L)) (e : Event P) (w : W)
          → e.stopped ≡ false
          → Leaves rs gone' (next gone' e w))
      → Leaves (r ∷ rs) gone (finished O next r gone o)
  quiet_step r rs gone next (done, e, w) quiet later =
      let l = later (if r.once then gone ++ r ∷ [] else gone) e w quiet in
      (l.0, l.1 ∙ join_one r rs gone r.once)
  quiet_step r rs gone next (raised, e, w) quiet later = absurd quiet
  quiet_step r rs gone next (missing, e, w) quiet later = absurd quiet

  run_each-unfold :
      (r : ListenerRegistration L) (rs gone : List (ListenerRegistration L)) (e : Event P) (w : W)
      → e.stopped ≡ false
      → run_each O (r ∷ rs) gone e w
        ≡ finished O (λ gone' e' w'. run_each O rs gone' e' w') r gone (run_listener O r e w)
  unfolding run_each
  run_each-unfold r rs gone e w h =
      ap {B = Run L P W}
        (λ b. elim b [
          | true ↦ record { event = e; world = w; to_remove = gone; escaped = false }
          | false ↦
              finished O (λ gone' e' w'. run_each O rs gone' e' w') r gone (run_listener O r e w)
        ])
        h

  run_each-Leaves :
      (rs gone : List (ListenerRegistration L)) (e : Event P) (w : W)
      → AllQuiet rs
      → e.stopped ≡ false
      → Leaves rs gone (run_each O rs gone e w)
  unfolding run_each
  run_each-Leaves [] gone e w quiet h = (refl, sym (append-nil gone))
  run_each-Leaves (r ∷ rs) gone e w quiet h =
      subst (λ x. Leaves (r ∷ rs) gone x) (sym (run_each-unfold r rs gone e w h))
        (quiet_step r rs gone (λ gone' e' w'. run_each O rs gone' e' w') (run_listener O r e w)
          (quiet r e w (rw ((same_registration_iff r r).1 refl) refl) h)
          (λ gone' e' w' h'.
            run_each-Leaves rs gone' e' w' (λ s e'' w'' i. quiet s e'' w'' (rw i (ground arith)))
              h'))

  own_after :
      (event : Text) (r : ListenerRegistration L) (bus : EventBus L P)
      → or_empty (lookup event (forget_registration event r bus).listeners)
        ≡ remove r (or_empty (lookup event bus.listeners))
  unfolding forget_registration
  own_after event r bus = elim (Option-cases (lookup event bus.listeners)) [
    | inl e ↦ let q = contains-lookup event bus.listeners ∙ ap is_some e in rw (q, e) refl
    | inr (rs, e) ↦
        let q = contains-lookup event bus.listeners ∙ ap is_some e in
        rw (q, e) (ap or_empty (found rs))
  ]
    where
      found :
          (rs : List (ListenerRegistration L))
          → lookup event (insert event (remove r rs) bus.listeners) ≡ some (remove r rs)
      found rs =
          lookup-insert event event (remove r rs) bus.listeners ∙ rw (text_beq_refl event) refl

      is_some : Option (List (ListenerRegistration L)) → Bool
      is_some o = elim o [ none ↦ false | some _ ↦ true ]

  own_after_each :
      (event : Text) (gone : List (ListenerRegistration L)) (bus : EventBus L P)
      → or_empty (lookup event (forget_each event gone bus).listeners)
        ≡ remove_each gone (or_empty (lookup event bus.listeners))
  own_after_each event [] bus = refl
  own_after_each event (r ∷ gone) bus =
      own_after_each event gone (forget_registration event r bus)
      ∙ ap (remove_each gone) (own_after event r bus)

  own_dispatched :
      (event : Text) (bus : EventBus L P) (run : Run L P W)
      → run.escaped ≡ false
      → or_empty (lookup event (dispatched O event bus run).1.listeners)
        ≡ remove_each run.to_remove (or_empty (lookup event bus.listeners))
  own_dispatched event bus run h =
      ap (λ b. or_empty (lookup event (at_end b).1.listeners)) h
      ∙ own_after_each event run.to_remove (track run.event event bus)
    where
      at_end : Bool → Option (Event P) × EventBus L P × W
      at_end b = if b then (none, track run.event event bus, run.world) else (
        some run.event,
        forget_each event run.to_remove (track run.event event bus),
        run.world,
      )

  -- If no listener that gets the event raises or stops it, then after `dispatch` the event's own
  -- listeners are those that are not one-time ones.
  pub dispatch-lasting :
      (event : Text) (payload : P) (bus : EventBus L P) (w : W)
      → AllQuiet (get_listeners_for_event event bus)
      → or_empty (lookup event (dispatch O event payload bus w).1.listeners)
        ≡ lasting (or_empty (lookup event bus.listeners))
  unfolding dispatch get_listeners_for_event
  dispatch-lasting event payload bus w quiet =
      own_dispatched event bus run left.0
      ∙ ap (λ gone. remove_each gone direct) left.1
      ∙ remove_each-lasting (one_time heard) direct (one_time-once heard) (λ r o. omega (
        arith,
        count-one_time r heard o,
        count-add_matching event r bus.wildcard_listeners direct,
        heard_count r,
      ))
    where
      direct : List (ListenerRegistration L)
      direct = or_empty (lookup event bus.listeners)

      heard : List (ListenerRegistration L)
      heard = get_listeners_for_event event bus

      run : Run L P W
      run = run_each O heard [] (new_event event payload (O.now w)) w

      left : Leaves heard [] run
      left = run_each-Leaves heard [] (new_event event payload (O.now w)) w quiet refl

      heard_count :
          (r : ListenerRegistration L)
          → count r heard ≡ count r (add_matching event bus.wildcard_listeners direct)
      heard_count r = count-sort r (add_matching event bus.wildcard_listeners direct)
