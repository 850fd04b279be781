-- ===== src/Container/Fuel.antt =====
-- How deep the calls of `Container.make`, of swx_core/container/container.py, nest.
use swx.Prelude.{
  ℕ, zero, suc, ◌<◌, ◌≡◌, refl, sym, ap, ◌∙◌, subst, Bool, true, false, none, List, [], ◌∷◌, String,
  string_eq, arith, Option-cases, inl, inr,
}
use swx.Prelude.Dict.{lookup, insert}
use swx.Container.Model.{
  Parameters, Concrete, named, BindingType, transient, singleton, scoped, instance_of, Binding,
  Container, circular, failure, out_of_fuel, Result, ok, err, M, ◌>>=◌, pure,
}
use swx.Container.Make.{
  or_empty, Maker, on_stack, aliased, fire, apply_extenders, is_known, build_binding, keep,
  instantiate, resolve_new, resolve_known, resolve, contextual_of, push, popped, make_key, make,
}
use swx.Container.Keeping.{Keeps, fire-Keeps, apply_extenders-Keeps, build_binding-Keeps}
use swx.Container.Restored.{make-Keeps}
use swx.Container.Reach.{
  missing, missing-push-lt, Within, ReachesAll, ReachesEach, ReachesConcrete, Closed,
}
use swx.Container.Answers.{
  is_out, Framed, Answers, Answers-then, fire-Answers, apply_extenders-Answers, build-Answers,
  build_binding-Answers,
}

module _ {V W : Type 0} where
  pub Framed-Closed :
      (U : List String) (c c' : Container V W) → Framed c c' → Closed U c → Closed U c'
  Framed-Closed U c c' p q =
      subst (λ d. Closed U d) (sym p)
        (record {
          plain = q.plain;
          within = q.within;
          bound = q.bound;
          before = q.before;
          after = q.after;
          extended = q.extended;
        })

  module _ (U : List String) (c0 : Container V W) (closed : Closed U c0) (mk : Maker V W)
      (makes_keep : (key : String) (given : Parameters V) → Keeps (mk key given))
      (makes_answer : (key : String) (given : Parameters V)
        → Within U c0 key
        → Answers c0 (mk key given)) where
    keep_last :
        (type : BindingType) (k : String) (v : V) (m : M V W V) (c : Container V W)
        → Answers c0 m
        → Framed c0 c
        → is_out ((keep type k v >>= λ _. m) c) ≡ false
    keep_last singleton k v m c q start =
        q (record c { instances = insert k v c.instances })
          (ap {A = Container V W}
            (λ s. record s {
              instances = insert k v c.instances;
              scoped_instances = c.scoped_instances;
              world = c.world;
            })
            start)
    keep_last scoped k v m c q start =
        q (record c { scoped_instances = insert k v c.scoped_instances })
          (ap {A = Container V W}
            (λ s. record s {
              instances = c.instances;
              scoped_instances = insert k v c.scoped_instances;
              world = c.world;
            })
            start)
    keep_last transient k v m c q start = q c start
    keep_last instance_of k v m c q start = q c start

    ended-Answers :
        (k : String) (v : V)
        → Answers c0 ((λ s. fire mk (or_empty (lookup k s.resolved_callbacks)) s) >>= λ _. pure v)
    ended-Answers k v =
        Answers-then c0 (λ s. fire mk (or_empty (lookup k s.resolved_callbacks)) s) (λ _. pure v)
          (λ s. fire-Keeps mk makes_keep (or_empty (lookup k s.resolved_callbacks)) s)
          (λ s start.
            fire-Answers U c0 mk makes_keep makes_answer (or_empty (lookup k s.resolved_callbacks))
              (subst (λ d. ReachesAll (Within U c0) (or_empty (lookup k d.resolved_callbacks)))
                (sym start) (closed.after k))
              s start)
          (λ _ c start. refl)

    instantiate-Answers :
        (k : String) (b : Binding V W) (given : Parameters V)
        → ReachesConcrete (Within U c0) (is_known c0) b.concrete
        → Answers c0 (instantiate mk k b given)
    unfolding instantiate
    instantiate-Answers k b given r c start =
        Answers-then c0 (build_binding mk b.binding_type b.concrete given)
          (λ made. extended made >>= λ v. keep b.binding_type k v >>= λ _. ended v)
          (build_binding-Keeps mk makes_keep b.binding_type b.concrete given)
          (build_binding-Answers U c0 mk makes_keep makes_answer b.binding_type b.concrete given r)
          (λ made.
            Answers-then c0 (extended made) (λ v. keep b.binding_type k v >>= λ _. ended v)
              (λ s. apply_extenders-Keeps mk makes_keep (or_empty (lookup k s.extenders)) made s)
              (λ s begun.
                apply_extenders-Answers U c0 mk makes_keep makes_answer
                  (or_empty (lookup k s.extenders)) made
                  (subst (λ d. ReachesEach (Within U c0) (or_empty (lookup k d.extenders)))
                    (sym begun) (closed.extended k))
                  s begun)
              (λ v c' begun. keep_last b.binding_type k v (ended v) c' (ended-Answers k v) begun))
          c start
      where
        extended : V → M V W V
        extended made s = apply_extenders mk (or_empty (lookup k s.extenders)) made s

        ended : V → M V W V
        ended v = (λ s. fire mk (or_empty (lookup k s.resolved_callbacks)) s) >>= λ _. pure v

    resolve_known-Answers :
        (k : String) (given : Parameters V)
        → on_stack k U ≡ true
        → Answers c0 (resolve_known mk k given)
    resolve_known-Answers k given inside c start = elim (Option-cases (lookup k c.instances)) [
      | inr (v, e) ↦ rw (e, resolve_known) refl
      | inl new ↦
          rw (new, resolve_known)
            (elim (Option-cases (lookup k c.scoped_instances)) [
              | inr (v, e) ↦ rw (e, resolve_known) refl
              | inl unscoped ↦
                  rw (unscoped, resolve_known)
                    (elim (Option-cases (lookup k c.bindings)) [
                      | inl e ↦
                          rw (e, resolve_new)
                            (build-Answers U c0 mk makes_keep makes_answer (named k) given
                              (closed.within k inside) c start)
                      | inr (b, e) ↦
                          rw (e, resolve_new)
                            (instantiate-Answers k b given
                              (closed.bound k b (ap (λ d. lookup k d.bindings) (sym start) ∙ e)) c
                              start)
                    ])
            ])
    ]

    pub resolve-Answers :
        (k : String) (given : Parameters V) → on_stack k U ≡ true → Answers c0 (resolve mk k given)
    unfolding resolve
    resolve-Answers k given inside =
        Answers-then c0 (λ s. fire mk (or_empty (lookup k s.resolving_callbacks)) s)
          (λ _. resolve_known mk k given)
          (λ s. fire-Keeps mk makes_keep (or_empty (lookup k s.resolving_callbacks)) s)
          (λ s start.
            fire-Answers U c0 mk makes_keep makes_answer (or_empty (lookup k s.resolving_callbacks))
              (subst (λ d. ReachesAll (Within U c0) (or_empty (lookup k d.resolving_callbacks)))
                (sym start) (closed.before k))
              s start)
          (λ _. resolve_known-Answers k given inside)

  no_contextual :
      (stack : List String) (k : String) (contextual : List (String × List (String × Concrete V W)))
      → contextual ≡ []
      → contextual_of stack k contextual ≡ none
  no_contextual [] k contextual e = refl
  no_contextual (when ∷ stack) k contextual e = rw e (no_contextual stack k [] refl)

  popped-out : (o : Result V × Container V W) → is_out o ≡ false → is_out (popped o) ≡ false
  popped-out (ok v, c) h = h
  popped-out (err out_of_fuel, c) h = h
  popped-out (err (circular s), c) h = h
  popped-out (err (failure e), c) h = h

  Closed-push :
      (U : List String) (k : String) (c : Container V W) → Closed U c → Closed U (push k c)
  Closed-push U k c closed = record {
    plain = closed.plain;
    within = closed.within;
    bound = closed.bound;
    before = closed.before;
    after = closed.after;
    extended = closed.extended;
  }

  make_key-Answers :
      (U : List String) (mk : Maker V W) (k : String) (given : Parameters V) (c : Container V W)
      → Closed U c
      → ((key : String) (given : Parameters V) → Keeps (mk key given))
      → on_stack k U ≡ true
      → (again : Bool)
      → (again ≡ false
          → (key : String) (given : Parameters V) → Within U c key
          → Answers (push k c) (mk key given))
      → is_out (make_key mk k given again none c) ≡ false
  make_key-Answers U mk k given c closed keeps inside true deeper = refl
  make_key-Answers U mk k given c closed keeps inside false deeper =
      popped-out (resolve mk k given (push k c)) (
        resolve-Answers U (push k c) (Closed-push U k c closed) mk keeps (deeper refl) k given
          inside (push k c) refl)

  -- `make` with some fuel answers, or raises what other code raised or a circular dependency, without
  -- running out of it, if the key and all that the registrations make are in `U`, of which fewer keys
  -- than the fuel are not on the build stack, and nothing is bound by context.
  pub make-answers :
      (fuel : ℕ) (U : List String) (key : String) (given : Parameters V) (c : Container V W)
      → Closed U c
      → Within U c key
      → missing U c.build_stack < fuel
      → is_out (make fuel key given c) ≡ false
  unfolding make
  make-answers zero U key given c closed inside enough = absurd (omega (arith, enough))
  make-answers (suc fuel) U key given c closed inside enough =
      let k = aliased c key in
      subst (λ x. is_out (make_key (make fuel) k given (on_stack k c.build_stack) x c) ≡ false)
        (sym (no_contextual c.build_stack k c.contextual closed.plain))
        (make_key-Answers U (make fuel) k given c closed (make-Keeps fuel) inside
          (on_stack k c.build_stack)
          (λ free key' given' inside' c' start.
            make-answers fuel U key' given' c'
              (Framed-Closed U (push k c) c' start (Closed-push U k c closed))
              (ap (λ d. on_stack (aliased d key') U) start ∙ inside')
              (subst (λ s. missing U s < fuel) (ap (λ d. d.build_stack) (sym start))
                (omega (arith, enough, missing-push-lt k U c.build_stack inside free)))))
