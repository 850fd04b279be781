-- ===== src/Container/Keeping.antt =====
-- What the code that `Container.make` runs, of swx_core/container/container.py, leaves as it found
-- it, if the nested calls of `make` do.
use swx.Prelude.{
  refl, subst, Bool, true, false, Option, none, some, List, [], ◌∷◌, String, string_eq, ◌==◌,
  Bool-cases, Option-cases, inl, inr,
}
use swx.Container.Model.{
  Program, done, fails, acts, makes, tries, Parameters, Parameter, Concrete, named, factory,
  constructor, object, BindingType, transient, singleton, scoped, instance_of, Container, circular,
  failure, out_of_fuel, Result, ok, err, M, ◌>>=◌, pure,
}
use swx.Container.Make.{
  Maker, caught, unless_self, play, fire, apply_extenders, is_known, with_value, resolve_parameter,
  resolve_parameters, build, build_binding,
}
use swx.Container.Frame.{Kept, Kept-refl, Kept-trans, Kept-stack, Kept-and_then}

module _ {V W : Type 0} where
  -- A call that keeps what `Kept` says, with the build stack held.
  abbrev pub Keeps : {A : Type 0} → M V W A → Type 0
  Keeps m = (c : Container V W) → Kept c.build_stack c (m c).1

  pub Keeps-then :
      {A B : Type 0} (m : M V W A) (f : A → M V W B)
      → Keeps m
      → ((a : A) → Keeps (f a))
      → Keeps (m >>= f)
  Keeps-then m f p q c = Kept-and_then c.build_stack c f (m c) (p c) (λ a c' r.
      Kept-trans c.build_stack c c' (f a c').1 r
        (subst (λ s. Kept s c' (f a c').1) (Kept-stack c.build_stack c c' r) (q a c')))

  pub Keeps-pure : {A : Type 0} (a : A) → Keeps (pure {V = V} {W = W} a)
  Keeps-pure a c = Kept-refl c.build_stack c

  module _ (mk : Maker V W)
      (makes_keep : (key : String) (given : Parameters V) → Keeps (mk key given)) where
    Keeps-more :
        {A : Type 0} (c c' : Container V W) (m : M V W A)
        → Keeps m
        → Kept c.build_stack c c'
        → Kept c.build_stack c (m c').1
    Keeps-more c c' m q p =
        Kept-trans c.build_stack c c' (m c').1 p
          (subst (λ s. Kept s c' (m c').1) (Kept-stack c.build_stack c c' p) (q c'))

    Keeps-caught :
        (k : Option V → M V W V) (c : Container V W) (o : Result V × Container V W)
        → ((v : Option V) → Keeps (k v))
        → Kept c.build_stack c o.1
        → Kept c.build_stack c (caught k o).1
    Keeps-caught k c (ok v, c') q p = Keeps-more c c' (k (some v)) (q (some v)) p
    Keeps-caught k c (err out_of_fuel, c') q p = p
    Keeps-caught k c (err (circular stack), c') q p = Keeps-more c c' (k none) (q none) p
    Keeps-caught k c (err (failure e), c') q p = Keeps-more c c' (k none) (q none) p

    pub play-Keeps : (p : Program V W) → Keeps (play mk p)
    unfolding play
    play-Keeps (done v) c = Kept-refl c.build_stack c
    play-Keeps (fails e) c = Kept-refl c.build_stack c
    play-Keeps (acts f k) c =
        let c' : Container V W = record c { world = f c.world } in
        Kept-trans c.build_stack c c' (play mk (k c.world) c').1
          (record { frame = refl; grows = λ j v h. h; still = λ j h. refl })
          (play-Keeps (k c.world) c')
    play-Keeps (makes key k) c =
        Keeps-then (mk key []) (λ v. play mk (k v)) (makes_keep key []) (λ v. play-Keeps (k v)) c
    play-Keeps (tries key k) c =
        Keeps-caught (λ v. play mk (k v)) c (mk key [] c) (λ v. play-Keeps (k v))
          (makes_keep key [] c)

    pub fire-Keeps : (ps : List (Program V W)) → Keeps (fire mk ps)
    unfolding fire
    fire-Keeps [] c = Kept-refl c.build_stack c
    fire-Keeps (p ∷ ps) c =
        Keeps-then (play mk p) (λ _. fire mk ps) (play-Keeps p) (λ _. fire-Keeps ps) c

    pub apply_extenders-Keeps :
        (es : List (V → Program V W)) (v : V) → Keeps (apply_extenders mk es v)
    unfolding apply_extenders
    apply_extenders-Keeps [] v c = Kept-refl c.build_stack c
    apply_extenders-Keeps (e ∷ es) v c =
        Keeps-then (play mk (e v)) (apply_extenders mk es) (play-Keeps (e v))
          (apply_extenders-Keeps es) c

    pub resolve_parameter-Keeps :
        (given : Parameters V) (p : Parameter V) → Keeps (resolve_parameter mk given p)
    resolve_parameter-Keeps given p c = elim (Option-cases p.annotation) [
      | inl e ↦ rw e (Kept-refl c.build_stack c)
      | inr (type, e) ↦ rw e (elim (Bool-cases (is_known c type)) [
        | inl known ↦ rw known (
            Keeps-then (mk type []) (λ v. pure (some v)) (makes_keep type [])
              (λ v. Keeps-pure (some v)) c)
        | inr unknown ↦ rw unknown (Kept-refl c.build_stack c)
      ])
    ]

    pub resolve_parameters-Keeps :
        (given : Parameters V) (ps : List (Parameter V)) → Keeps (resolve_parameters mk given ps)
    unfolding resolve_parameters
    resolve_parameters-Keeps given [] c = Kept-refl c.build_stack c
    resolve_parameters-Keeps given (p ∷ ps) c =
        skipping (p.name == "self") (resolve_parameters-Keeps given ps)
      where
        next : M V W (Parameters V)
        next = resolve_parameters mk given ps

        resolved : M V W (Parameters V)
        resolved =
            resolve_parameter mk given p >>= λ v. next >>= λ rest. pure (with_value p.name v rest)

        skipping : (b : Bool) → Keeps next → Kept c.build_stack c (unless_self b next resolved c).1
        skipping true later = later c
        skipping false later =
            Keeps-then (resolve_parameter mk given p)
              (λ v. next >>= λ rest. pure (with_value p.name v rest))
              (resolve_parameter-Keeps given p)
              (λ v.
                Keeps-then next (λ rest. pure (with_value p.name v rest)) later
                  (λ rest. Keeps-pure (with_value p.name v rest)))
              c

    pub build-Keeps : (x : Concrete V W) (given : Parameters V) → Keeps (build mk x given)
    unfolding build
    build-Keeps (named key) given = makes_keep key given
    build-Keeps (factory f) given = play-Keeps (f given)
    build-Keeps (constructor none init) given = play-Keeps (init [])
    build-Keeps (constructor (some signature) init) given =
        Keeps-then (resolve_parameters mk given signature) (λ resolved. play mk (init resolved))
          (resolve_parameters-Keeps given signature) (λ resolved. play-Keeps (init resolved))
    build-Keeps (object v) given = Keeps-pure v

    pub build_binding-Keeps :
        (type : BindingType) (x : Concrete V W) (given : Parameters V)
        → Keeps (build_binding mk type x given)
    build_binding-Keeps instance_of (object v) given = Keeps-pure v
    build_binding-Keeps instance_of (named key) given = build-Keeps (named key) given
    build_binding-Keeps instance_of (factory f) given = build-Keeps (factory f) given
    build_binding-Keeps instance_of (constructor s f) given = build-Keeps (constructor s f) given
    build_binding-Keeps transient x given = build-Keeps x given
    build_binding-Keeps singleton x given = build-Keeps x given
    build_binding-Keeps scoped x given = build-Keeps x given
