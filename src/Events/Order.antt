-- ===== src/Events/Order.antt =====
-- The listeners of an event and their order, of swx_core/events/dispatcher.py.
use swx.Prelude.{
  Bool, true, false, not, ◌&&◌, ◌||◌, List, [], ◌∷◌, ◌++◌, ◌≡◌, refl, sym, ap, inl, inr, ◌∙◌, arith,
  Hashable, any, any-append, filter, if◌then◌else◌, Bool-cases, string_eq,
}
use swx.Prelude.Int.{ℤ, ltb_ℤ, ℤ_beq}
use swx.Prelude.Dict.{lookup}
use swx.Prelude.Text.{Text, text_eq}
use swx.Events.Model.{ListenerRegistration, EventBus}
use swx.Events.Equality.{same_registration_iff}
use swx.Events.Bus.{
  or_empty, applies, place, sort, same_registration, is_in, add_matching, get_listeners_for_event,
}

first_no : (a b : Bool) → (a || b) ≡ false → a ≡ false
first_no a b h = ground (arith, h)

second_no : (a b : Bool) → (a || b) ≡ false → b ≡ false
second_no a b h = ground (arith, h)

neither : (a b : Bool) → a ≡ false → b ≡ false → (a || b) ≡ false
neither a b h k = ground (arith, h, k)

lower_chain : (a b c : ℤ) → ltb_ℤ a b ≡ false → ltb_ℤ b c ≡ false → ltb_ℤ a c ≡ false
lower_chain a b c h k = ground (arith, h, k)

lower_asym : (a b : ℤ) → ltb_ℤ a b ≡ true → ltb_ℤ b a ≡ false
lower_asym a b h = ground (arith, h)

lower_other : (a b p : ℤ) → ltb_ℤ a b ≡ true → ℤ_beq b p ≡ true → ℤ_beq a p ≡ false
lower_other a b p h k = ground (arith, h, k)

module _ {L : Type 0} where
  abbrev pub lower : ListenerRegistration L → ListenerRegistration L → Bool
  lower r s = ltb_ℤ r.priority s.priority

  -- No registration comes before one of a higher priority.
  abbrev pub Sorted : List (ListenerRegistration L) → Type 0
  Sorted [] = Unit {0}
  Sorted (r ∷ rs) = (any (lower r) rs ≡ false) × Sorted rs

  -- Those of a priority, in their order.
  abbrev pub of_priority : ℤ → List (ListenerRegistration L) → List (ListenerRegistration L)
  of_priority p rs = filter (λ r. ℤ_beq r.priority p) rs

  any-place :
      (test : ListenerRegistration L → Bool) (r : ListenerRegistration L)
      (rs : List (ListenerRegistration L))
      → any test (place r rs) ≡ (test r || any test rs)
  any-place test r [] = refl
  any-place test r (s ∷ rs) = ground (arith, any-place test r rs)

  pub any-sort :
      (test : ListenerRegistration L → Bool) (rs : List (ListenerRegistration L))
      → any test (sort rs) ≡ any test rs
  any-sort test [] = refl
  any-sort test (r ∷ rs) = any-place test r (sort rs) ∙ ap (◌||◌ (test r)) (any-sort test rs)

  none_lower :
      (r s : ListenerRegistration L) (rs : List (ListenerRegistration L))
      → lower r s ≡ false
      → any (lower s) rs ≡ false
      → any (lower r) rs ≡ false
  none_lower r s [] h k = refl
  none_lower r s (t ∷ rs) h k =
      neither (lower r t) (any (lower r) rs)
        (lower_chain r.priority s.priority t.priority h (first_no (lower s t) (any (lower s) rs) k))
        (none_lower r s rs h (second_no (lower s t) (any (lower s) rs) k))

  place-Sorted :
      (r : ListenerRegistration L) (rs : List (ListenerRegistration L))
      → Sorted rs
      → Sorted (place r rs)
  place-Sorted r [] h = (refl, tt)
  place-Sorted r (s ∷ rs) h = elim (Bool-cases (lower r s)) [
    | inl e ↦ rw e (
      (any-place (lower s) r rs
          ∙ neither (lower s r) (any (lower s) rs) (lower_asym r.priority s.priority e) h.0),
      place-Sorted r rs h.1,
    )
    | inr e ↦ rw e (neither (lower r s) (any (lower r) rs) e (none_lower r s rs e h.0), h)
  ]

  pub sort-Sorted : (rs : List (ListenerRegistration L)) → Sorted (sort rs)
  sort-Sorted [] = tt
  sort-Sorted (r ∷ rs) = place-Sorted r (sort rs) (sort-Sorted rs)

  of_priority-place :
      (p : ℤ) (r : ListenerRegistration L) (rs : List (ListenerRegistration L))
      → of_priority p (place r rs) ≡ of_priority p (r ∷ rs)
  of_priority-place p r [] = refl
  of_priority-place p r (s ∷ rs) = elim (Bool-cases (lower r s)) [
    | inl e ↦ elim (Bool-cases (ℤ_beq s.priority p)) [
      | inl q ↦
          let n = lower_other r.priority s.priority p e q in
          rw (e, q, of_priority-place p r rs, n) refl
      | inr q ↦ rw (e, q, of_priority-place p r rs) refl
    ]
    | inr e ↦ rw e refl
  ]

  pub of_priority-sort :
      (p : ℤ) (rs : List (ListenerRegistration L)) → of_priority p (sort rs) ≡ of_priority p rs
  of_priority-sort p [] = refl
  of_priority-sort p (r ∷ rs) =
      of_priority-place p r (sort rs) ∙ more (ℤ_beq r.priority p) (of_priority-sort p rs)
    where
      more :
          (b : Bool) {xs ys : List (ListenerRegistration L)}
          → xs ≡ ys
          → (if b then r ∷ xs else xs) ≡ (if b then r ∷ ys else ys)
      more true e = ap (◌∷◌ r) e
      more false e = e

module _ {L : Type 0} ⦃same : Hashable L⦄ where
  is_in-last :
      (r w : ListenerRegistration L) (found : List (ListenerRegistration L))
      → is_in r (found ++ w ∷ []) ≡ (is_in r found || (same_registration w r || false))
  is_in-last r w found = any-append (λ s. same_registration s r) found (w ∷ [])

  add_same :
      (r : ListenerRegistration L) (found : List (ListenerRegistration L)) (a b : Bool)
      → is_in r found ≡ a
      → is_in r (if not a && b then found ++ r ∷ [] else found) ≡ (is_in r found || b)
  add_same r found true b h = ground (arith, h)
  add_same r found false true h =
      is_in-last r r found
      ∙ ap (λ x. is_in r found || (x || false)) ((same_registration_iff r r).1 refl)
  add_same r found false false h = ground (arith, h)

  add_other :
      (r w : ListenerRegistration L) (found : List (ListenerRegistration L)) (b : Bool)
      → same_registration w r ≡ false
      → is_in r (if b then found ++ w ∷ [] else found) ≡ (is_in r found || false)
  add_other r w found true h = is_in-last r w found ∙ ap (λ x. is_in r found || (x || false)) h
  add_other r w found false h = ground arith

  -- One wildcard more.
  add_one :
      (event : Text) (r w : ListenerRegistration L) (found : List (ListenerRegistration L))
      → is_in r (if not (is_in w found) && applies event w.pattern then found ++ w ∷ [] else found)
        ≡ (is_in r found || (same_registration w r && applies event r.pattern))
  add_one event r w found = elim (Bool-cases (same_registration w r)) [
    | inl e ↦
        ap
          (λ x.
            is_in r
              (if not (is_in x found) && applies event x.pattern then found ++ x ∷ [] else found))
          ((same_registration_iff w r).0 e)
        ∙ add_same r found (is_in r found) (applies event r.pattern) refl
        ∙ ap (λ b. is_in r found || (b && applies event r.pattern)) (sym e)
    | inr e ↦
        add_other r w found (not (is_in w found) && applies event w.pattern) e
        ∙ ap (λ b. is_in r found || (b && applies event r.pattern)) (sym e)
  ]

  is_in-add_matching :
      (event : Text) (r : ListenerRegistration L) (ws found : List (ListenerRegistration L))
      → is_in r (add_matching event ws found)
        ≡ (is_in r found || (is_in r ws && applies event r.pattern))
  is_in-add_matching event r [] found = ground arith
  is_in-add_matching event r (w ∷ ws) found =
      is_in-add_matching event r ws
        (if not (is_in w found) && applies event w.pattern then found ++ w ∷ [] else found)
      ∙ ap (λ b. b || (is_in r ws && applies event r.pattern)) (add_one event r w found)
      ∙ regroup (is_in r found) (same_registration w r) (is_in r ws) (applies event r.pattern)
    where
      regroup : (a b c d : Bool) → ((a || (b && d)) || (c && d)) ≡ (a || ((b || c) && d))
      regroup a b c d = ground arith

module _ {L P : Type 0} ⦃same : Hashable L⦄ where
  -- The listeners that get an event are those of its name and the wildcards that match it, those of
  -- higher priority first, and those of the same priority in the order in which the loop collects them.
  pub get_listeners_for_event-Sorted :
      (event : Text) (bus : EventBus L P)
      → Sorted (get_listeners_for_event event bus)
        × ((r : ListenerRegistration L)
            → is_in r (get_listeners_for_event event bus) ≡ (
                is_in r (or_empty (lookup event bus.listeners))
                || (is_in r bus.wildcard_listeners && applies event r.pattern)))
        × ((p : ℤ)
            → of_priority p (get_listeners_for_event event bus)
              ≡ of_priority p (
                  add_matching event bus.wildcard_listeners
                    (or_empty (lookup event bus.listeners))))
  unfolding get_listeners_for_event
  get_listeners_for_event-Sorted event bus =
      let found =
        add_matching event bus.wildcard_listeners (or_empty (lookup event bus.listeners)) in
      (
        sort-Sorted found,
        (λ r.
            any-sort (λ s. same_registration s r) found
            ∙ is_in-add_matching event r bus.wildcard_listeners
                (or_empty (lookup event bus.listeners))),
        (λ p. of_priority-sort p found),
      )
