-- ===== src/Container/Restored.antt =====
-- `_resolve` and `make` of swx_core/container/container.py, and what they leave as they found it.
use swx.Prelude.{
  ℕ, zero, suc, ◌≡◌, refl, sym, ap, ◌∙◌, subst, Bool, true, false, ◌||◌, Option, none, some, List,
  ◌∷◌, String, string_eq, ◌==◌, beq_refl, eqb_iff, arith, Bool-cases, Option-cases, inl, inr,
}
use swx.Prelude.Dict.{lookup, lookup-insert}
use swx.Container.Model.{
  Parameters, Concrete, named, BindingType, transient, singleton, scoped, instance_of, Binding,
  Container, Result, ok, err, M, and_then, ◌>>=◌, pure,
}
use swx.Container.Make.{
  or_empty, Maker, on_stack, aliased, fire, apply_extenders, build, build_binding, keep,
  instantiate, resolve_new, resolve_known, resolve, contextual_of, push, popped, make_key, make,
  rest,
}
use swx.Container.Frame.{Kept, Kept-refl, Kept-trans, Kept-weaken, Kept-stack, Kept-and_then}
use swx.Container.Keeping.{
  Keeps, Keeps-then, Keeps-pure, fire-Keeps, apply_extenders-Keeps, build-Keeps,
  build_binding-Keeps,
}

module _ {V W : Type 0} where
  module _ (mk : Maker V W)
      (makes_keep : (key : String) (given : Parameters V) → Keeps (mk key given)) where
    -- Keeping a new instance only touches the key that is being made.
    keep-Kept :
        (held : List String) (type : BindingType) (k : String) (v : V) (c : Container V W)
        → lookup k c.instances ≡ none
        → on_stack k held ≡ false
        → Kept held c (keep type k v c).1
    keep-Kept held singleton k v c new free = record {
      frame = refl;
      grows = λ j w h. elim (Bool-cases (k == j)) [
        | inl e ↦ absurd (ground (arith, h, new, eqb_iff k j, e))
        | inr e ↦ lookup-insert j k v c.instances ∙ rw e h
      ];
      still = λ j h. elim (Bool-cases (k == j)) [
        | inl e ↦ absurd (ground (arith, h, free, eqb_iff k j, e))
        | inr e ↦ lookup-insert j k v c.instances ∙ rw e refl
      ];
    }
    keep-Kept held scoped k v c new free = record {
      frame = refl;
      grows = λ j w h. h;
      still = λ j h. refl;
    }
    keep-Kept held transient k v c new free = Kept-refl held c
    keep-Kept held instance_of k v c new free = Kept-refl held c

    -- While `k` is being made on top of `held`.
    module _ (held : List String) (k : String) (c : Container V W)
        (on : c.build_stack ≡ k ∷ held) where
      also :
          {A : Type 0} (c' : Container V W) (m : M V W A)
          → Keeps m
          → Kept (k ∷ held) c c'
          → Kept (k ∷ held) c (m c').1
      also c' m q p =
          Kept-trans (k ∷ held) c c' (m c').1 p
            (subst (λ s. Kept s c' (m c').1) (Kept-stack (k ∷ held) c c' p ∙ on) (q c'))

      last_of :
          {A : Type 0} (c' : Container V W) (m : M V W A)
          → Keeps m
          → Kept held c c'
          → Kept held c (m c').1
      last_of c' m q p = Kept-trans held c c' (m c').1 p (
          Kept-weaken k held c' (m c').1
            (subst (λ s. Kept s c' (m c').1) (Kept-stack held c c' p ∙ on) (q c')))

      then_less :
          {A B : Type 0} (f : A → M V W B) (o : Result A × Container V W)
          → Kept (k ∷ held) c o.1
          → ((a : A) (c' : Container V W) → Kept (k ∷ held) c c' → Kept held c (f a c').1)
          → Kept held c (and_then f o).1
      then_less f (ok a, c') p q = q a c' p
      then_less f (err e, c') p q = Kept-weaken k held c c' p

      module _ (free : on_stack k held ≡ false) (given : Parameters V) where
        still_none :
            (c' : Container V W)
            → Kept (k ∷ held) c c'
            → lookup k c.instances ≡ none
            → lookup k c'.instances ≡ none
        still_none c' p new = p.still k (ap (λ b. b || on_stack k held) (beq_refl k)) ∙ new

        -- The new instance is kept, and the callbacks run.
        Kept-last :
            (type : BindingType) (v : V) (m : M V W V) (c' : Container V W)
            → Keeps m
            → lookup k c'.instances ≡ none
            → Kept (k ∷ held) c c'
            → Kept held c ((keep type k v >>= λ _. m) c').1
        Kept-last type v m c' q new p =
            Kept-and_then held c (λ _. m) (keep type k v c')
              (Kept-trans held c c' (keep type k v c').1 (Kept-weaken k held c c' p)
                (keep-Kept held type k v c' new free))
              (λ _ c''. last_of c'' m q)

        instantiate-Kept :
            (b : Binding V W) (c' : Container V W)
            → lookup k c'.instances ≡ none
            → Kept (k ∷ held) c c'
            → Kept held c (instantiate mk k b given c').1
        unfolding instantiate
        instantiate-Kept b c' new p =
            then_less
              (λ made. (λ s. apply_extenders mk (or_empty (lookup k s.extenders)) made s) >>= λ v.
                keep b.binding_type k v >>= λ _. ended v)
              (build_binding mk b.binding_type b.concrete given c')
              (also c' (build_binding mk b.binding_type b.concrete given)
                (build_binding-Keeps mk makes_keep b.binding_type b.concrete given) p)
              (λ made c1 p1.
                then_less (λ v. keep b.binding_type k v >>= λ _. ended v)
                  (apply_extenders mk (or_empty (lookup k c1.extenders)) made c1)
                  (also c1 (apply_extenders mk (or_empty (lookup k c1.extenders)) made)
                    (apply_extenders-Keeps mk makes_keep (or_empty (lookup k c1.extenders)) made)
                    p1)
                  (λ v c2 p2.
                    Kept-last b.binding_type v (ended v) c2 (ended-Keeps v) (still_none c2 p2 new0)
                      p2))
          where
            new0 : lookup k c.instances ≡ none
            new0 = sym (p.still k (ap (λ b. b || on_stack k held) (beq_refl k))) ∙ new

            ended : V → M V W V
            ended v = (λ s. fire mk (or_empty (lookup k s.resolved_callbacks)) s) >>= λ _. pure v

            ended-Keeps : (v : V) → Keeps (ended v)
            ended-Keeps v =
                Keeps-then (λ s. fire mk (or_empty (lookup k s.resolved_callbacks)) s) (λ _. pure v)
                  (λ s. fire-Keeps mk makes_keep (or_empty (lookup k s.resolved_callbacks)) s)
                  (λ _. Keeps-pure v)

        resolve_new-Kept :
            (c' : Container V W)
            → lookup k c'.instances ≡ none
            → Kept (k ∷ held) c c'
            → Kept held c (resolve_new mk k given c').1
        resolve_new-Kept c' new p = elim (Option-cases (lookup k c'.bindings)) [
          | inl e ↦
              rw (e, resolve_new)
                (Kept-weaken k held c (build mk (named k) given c').1 (
                  also c' (build mk (named k) given) (build-Keeps mk makes_keep (named k) given) p))
          | inr (b, e) ↦ rw (e, resolve_new) (instantiate-Kept b c' new p)
        ]

        resolve_known-Kept :
            (c' : Container V W)
            → Kept (k ∷ held) c c'
            → Kept held c (resolve_known mk k given c').1
        resolve_known-Kept c' p = elim (Option-cases (lookup k c'.instances)) [
          | inr (v, e) ↦ rw (e, resolve_known) (Kept-weaken k held c c' p)
          | inl new ↦
              rw (new, resolve_known)
                (elim (Option-cases (lookup k c'.scoped_instances)) [
                  | inr (v, e) ↦ rw e (Kept-weaken k held c c' p)
                  | inl e ↦ rw e (resolve_new-Kept c' new p)
                ])
        ]

        pub resolve-Kept : Kept held c (resolve mk k given c).1
        unfolding resolve
        resolve-Kept =
            then_less (λ _. resolve_known mk k given)
              (fire mk (or_empty (lookup k c.resolving_callbacks)) c)
              (also c (fire mk (or_empty (lookup k c.resolving_callbacks)))
                (fire-Keeps mk makes_keep (or_empty (lookup k c.resolving_callbacks)))
                (Kept-refl (k ∷ held) c))
              (λ _ c' p. resolve_known-Kept c' p)

  popped-Kept :
      (k : String) (c : Container V W) (o : Result V × Container V W)
      → Kept c.build_stack (push k c) o.1
      → Kept c.build_stack c (popped o).1
  popped-Kept k c (r, c') p = record {
    frame = ap {A = Container V W} (λ s. record s { build_stack = rest s.build_stack }) p.frame;
    grows = p.grows;
    still = p.still;
  }

  make_key-Kept :
      (mk : Maker V W)
      → ((key : String) (given : Parameters V) → Keeps (mk key given))
      → (k : String) (given : Parameters V) (c : Container V W) (again : Bool)
      → on_stack k c.build_stack ≡ again
      → (contextual : Option (Concrete V W))
      → Kept c.build_stack c (make_key mk k given again contextual c).1
  make_key-Kept mk q k given c true held contextual = Kept-refl c.build_stack c
  make_key-Kept mk q k given c false free (some x) = build-Keeps mk q x given c
  make_key-Kept mk q k given c false free none =
      popped-Kept k c (resolve mk k given (push k c))
        (resolve-Kept mk q c.build_stack k (push k c) refl free given)

  -- However a call of `make` ends, only the singletons, the scoped instances and the world have
  -- changed, so that the build stack is as before; no singleton has been replaced or dropped, and none
  -- has appeared for a key of the build stack.
  pub make-Keeps :
      (fuel : ℕ) (key : String) (given : Parameters V) (c : Container V W)
      → Kept c.build_stack c (make fuel key given c).1
  unfolding make
  make-Keeps zero key given c = Kept-refl c.build_stack c
  make-Keeps (suc fuel) key given c =
      let k = aliased c key in
      make_key-Kept (make fuel) (make-Keeps fuel) k given c (on_stack k c.build_stack) refl
        (contextual_of c.build_stack k c.contextual)
