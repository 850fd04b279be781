-- ===== src/Container/Shared.antt =====
-- The singletons of `Container`, of swx_core/container/container.py.
use swx.Prelude.{
  ℕ, suc, ◌≡◌, refl, sym, ap, ◌∙◌, subst, none, some, List, [], ◌∷◌, String, string_eq, beq_refl,
  Option-cases, inl, inr,
}
use swx.Prelude.Dict.{lookup, insert, lookup-insert}
use swx.Container.Model.{
  Parameters, Concrete, singleton, Container, Result, ok, err, M, and_then, ◌>>=◌, pure,
}
use swx.Container.Make.{
  or_empty, Maker, on_stack, aliased, fire, apply_extenders, build_binding, keep, instantiate,
  resolve_new, resolve_known, resolve, contextual_of, push, popped, make_key, make,
}
use swx.Container.Frame.{Kept, Kept-refl, Kept-trans, Kept-stack}
use swx.Container.Keeping.{fire-Keeps}
use swx.Container.Restored.{make-Keeps}

module _ {V W : Type 0} where
  -- What an answer leaves among the singletons.
  abbrev pub Stored : String → Result V × Container V W → Type 0
  Stored k (ok v, c) = lookup k c.instances ≡ some v
  Stored k (err _, c) = Unit {0}

  Stored-and_then :
      {A : Type 0} (k : String) (f : A → M V W V) (o : Result A × Container V W)
      → ((a : A) (c : Container V W) → Stored k (f a c))
      → Stored k (and_then f o)
  Stored-and_then k f (ok a, c) q = q a c
  Stored-and_then k f (err e, c) q = tt

  Stored-popped : (k : String) (o : Result V × Container V W) → Stored k o → Stored k (popped o)
  Stored-popped k (ok v, c) h = h
  Stored-popped k (err e, c) h = tt

  Stored-after :
      (k : String) (v : V) (held : List String) (c : Container V W)
      (o : Result (Unit {0}) × Container V W)
      → Kept held c o.1
      → lookup k c.instances ≡ some v
      → Stored k (and_then (λ _. pure v) o)
  Stored-after k v held c (ok tt, c') p h = p.grows k v h
  Stored-after k v held c (err e, c') p h = tt

  instantiate-Stored :
      (fuel : ℕ) (k : String) (x : Concrete V W) (given : Parameters V) (c : Container V W)
      → Stored k
          (instantiate (make fuel) k (record { concrete = x; binding_type = singleton }) given c)
  unfolding instantiate
  instantiate-Stored fuel k x given c =
      Stored-and_then k (λ made. extended made >>= finished)
        (build_binding (make fuel) singleton x given c)
        (λ made c1. Stored-and_then k finished (extended made c1) (λ v c2.
          Stored-after k v c2.build_stack (record c2 { instances = insert k v c2.instances })
            (called (record c2 { instances = insert k v c2.instances }))
            (fire-Keeps (make fuel) (make-Keeps fuel) (or_empty (lookup k c2.resolved_callbacks))
              (record c2 { instances = insert k v c2.instances }))
            (lookup-insert k k v c2.instances ∙ rw (beq_refl k) refl)))
    where
      extended : V → M V W V
      extended made c = apply_extenders (make fuel) (or_empty (lookup k c.extenders)) made c

      called : M V W (Unit {0})
      called c = fire (make fuel) (or_empty (lookup k c.resolved_callbacks)) c

      finished : V → M V W V
      finished v = keep singleton k v >>= λ _. called >>= λ _. pure v

  -- A key that is bound as a singleton, is not in the open scope and has no resolving callbacks.
  pub record IsSingleton (k : String) (c : Container V W) : Type 0 where
    pub concrete : Concrete V W
    pub binding :
        lookup k c.bindings ≡ some (record { concrete = concrete; binding_type = singleton })
    pub unscoped : lookup k c.scoped_instances ≡ none
    pub uncalled : lookup k c.resolving_callbacks ≡ none

  resolve_known-Stored :
      (fuel : ℕ) (k : String) (given : Parameters V) (c : Container V W)
      → IsSingleton k c
      → Stored k (resolve_known (make fuel) k given c)
  resolve_known-Stored fuel k given c s = elim (Option-cases (lookup k c.instances)) [
    | inr (v, e) ↦ rw (e, resolve_known) e
    | inl new ↦
        rw (new, s.unscoped, s.binding, resolve_known, resolve_new)
          (instantiate-Stored fuel k s.concrete given c)
  ]

  resolve-unfold :
      (mk : Maker V W) (k : String) (given : Parameters V) (c : Container V W)
      → lookup k c.resolving_callbacks ≡ none
      → resolve mk k given c ≡ resolve_known mk k given c
  unfolding resolve fire
  resolve-unfold mk k given c e =
      ap (λ o. and_then (λ _. resolve_known mk k given) (fire mk (or_empty o) c)) e

  make-unfold :
      (fuel : ℕ) (key : String) (given : Parameters V) (c : Container V W)
      → c.build_stack ≡ []
      → make (suc fuel) key given c
        ≡ popped (resolve (make fuel) (aliased c key) given (push (aliased c key) c))
  unfolding make
  make-unfold fuel key given c e =
      let k = aliased c key in
      ap (λ s. make_key (make fuel) k given (on_stack k s) (contextual_of s k c.contextual) c) e

  make-Stored :
      (fuel : ℕ) (key : String) (given : Parameters V) (c : Container V W)
      → c.build_stack ≡ []
      → IsSingleton (aliased c key) c
      → Stored (aliased c key) (make (suc fuel) key given c)
  make-Stored fuel key given c top s =
      let k = aliased c key in
      subst (λ o. Stored k o) (sym (make-unfold fuel key given c top))
        (Stored-popped k (resolve (make fuel) k given (push k c)) (
          subst (λ o. Stored k o) (sym (resolve-unfold (make fuel) k given (push k c) s.uncalled))
            (resolve_known-Stored fuel k given (push k c) (record {
              concrete = s.concrete;
              binding = s.binding;
              unscoped = s.unscoped;
              uncalled = s.uncalled;
            }))))

  make-stored :
      (fuel : ℕ) (key : String) (given : Parameters V) (c : Container V W) (v : V)
      → c.build_stack ≡ []
      → lookup (aliased c key) c.resolving_callbacks ≡ none
      → lookup (aliased c key) c.instances ≡ some v
      → make (suc fuel) key given c ≡ (ok v, c)
  make-stored fuel key given c v top uncalled stored =
      let k = aliased c key in
      make-unfold fuel key given c top
      ∙ ap popped (resolve-unfold (make fuel) k given (push k c) uncalled ∙ known (push k c) stored)
    where
      known :
          (d : Container V W)
          → lookup (aliased c key) d.instances ≡ some v
          → resolve_known (make fuel) (aliased c key) given d ≡ (ok v, d)
      known d e = rw (e, resolve_known) refl

  -- Calls of `make`, each with its fuel, whatever they answer.
  abbrev pub make_all : List (ℕ × String × Parameters V) → Container V W → Container V W
  make_all [] c = c
  make_all ((fuel, key, given) ∷ calls) c = make_all calls (make fuel key given c).1

  make_all-Keeps :
      (calls : List (ℕ × String × Parameters V)) (c : Container V W)
      → Kept c.build_stack c (make_all calls c)
  make_all-Keeps [] c = Kept-refl c.build_stack c
  make_all-Keeps ((fuel, key, given) ∷ calls) c =
      let c' = (make fuel key given c).1 in
      let p = make-Keeps fuel key given c in
      Kept-trans c.build_stack c c' (make_all calls c') p (
        subst (λ s. Kept s c' (make_all calls c')) (Kept-stack c.build_stack c c' p)
          (make_all-Keeps calls c'))

  -- A singleton that was made outside any other call is what every later call of `make` for it
  -- answers, whatever was made in between, and that call changes nothing: for a key that is not in
  -- the open scope and has no resolving callbacks.
  pub make-shared :
      (fuel fuel' : ℕ) (key : String) (given given' : Parameters V) (c c' : Container V W) (v : V)
      (calls : List (ℕ × String × Parameters V))
      → c.build_stack ≡ []
      → IsSingleton (aliased c key) c
      → make (suc fuel) key given c ≡ (ok v, c')
      → make (suc fuel') key given' (make_all calls c') ≡ (ok v, make_all calls c')
  make-shared fuel fuel' key given given' c c' v calls top s answer =
      make-stored fuel' key given' (make_all calls c') v (ap (λ d. d.build_stack) kept.frame ∙ top)
        (subst (λ k. lookup k (make_all calls c').resolving_callbacks ≡ none)
          (ap (λ d. aliased d key) (sym kept.frame))
          (ap (λ d. lookup (aliased c key) d.resolving_callbacks) kept.frame ∙ s.uncalled))
        (subst (λ k. lookup k (make_all calls c').instances ≡ some v)
          (ap (λ d. aliased d key) (sym kept.frame))
          (later.grows (aliased c key) v
            (subst (λ o. Stored (aliased c key) o) answer (make-Stored fuel key given c top s))))
    where
      first : Kept c.build_stack c c'
      first = subst (λ o. Kept c.build_stack c o.1) answer (make-Keeps (suc fuel) key given c)

      later : Kept c'.build_stack c' (make_all calls c')
      later = make_all-Keeps calls c'

      kept : Kept c.build_stack c (make_all calls c')
      kept =
          Kept-trans c.build_stack c c' (make_all calls c') first
            (subst (λ s. Kept s c' (make_all calls c')) (Kept-stack c.build_stack c c' first) later)
