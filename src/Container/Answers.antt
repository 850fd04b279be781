-- ===== src/Container/Answers.antt =====
-- What runs inside `Container.make`, of swx_core/container/container.py, has fuel enough if the nested
-- calls of `make` do.
use swx.Prelude.{
  ◌≡◌, refl, sym, ap, ◌∙◌, subst, Bool, true, false, Option, none, some, List, [], ◌∷◌, String,
  string_eq, ◌==◌, Bool-cases, Option-cases, inl, inr,
}
use swx.Container.Model.{
  Program, done, fails, acts, makes, tries, Parameters, Parameter, Concrete, named, factory,
  constructor, object, BindingType, transient, singleton, scoped, instance_of, Container, circular,
  failure, out_of_fuel, Result, ok, err, M, and_then, ◌>>=◌, pure,
}
use swx.Container.Make.{
  Maker, caught, unless_self, play, fire, apply_extenders, is_known, with_value, resolve_parameter,
  resolve_parameters, build, build_binding,
}
use swx.Container.Frame.{Kept}
use swx.Container.Keeping.{Keeps, play-Keeps, resolve_parameter-Keeps, resolve_parameters-Keeps}
use swx.Container.Reach.{
  Within, Reaches, ReachesAll, ReachesEach, ReachesParameters, ReachesConcrete,
}

module _ {V W : Type 0} where
  abbrev pub is_out : {A : Type 0} → Result A × Container V W → Bool
  is_out (err out_of_fuel, c) = true
  is_out (_, c) = false

  -- Only the instances and the world differ.
  abbrev pub Framed : Container V W → Container V W → Type 0
  Framed c0 c = c ≡ record c0 {
    instances = c.instances;
    scoped_instances = c.scoped_instances;
    world = c.world;
  }

  -- From any state that the container reaches from `c0`, the call does not run out of fuel.
  abbrev pub Answers : {A : Type 0} → Container V W → M V W A → Type 0
  Answers c0 m = (c : Container V W) → Framed c0 c → is_out (m c) ≡ false

  pub Framed-Kept :
      (held : List String) (c0 c c' : Container V W) → Framed c0 c → Kept held c c' → Framed c0 c'
  Framed-Kept held c0 c c' p q =
      q.frame
      ∙ ap {A = Container V W}
          (λ s. record s {
            instances = c'.instances;
            scoped_instances = c'.scoped_instances;
            world = c'.world;
          })
          p

  pub out_after :
      {A B : Type 0} (f : A → M V W B) (o : Result A × Container V W)
      → is_out o ≡ false
      → ((a : A) (c : Container V W) → o ≡ (ok a, c) → is_out (f a c) ≡ false)
      → is_out (and_then f o) ≡ false
  out_after f (ok a, c) h q = q a c refl
  out_after f (err out_of_fuel, c) h q = absurd (cc)
  out_after f (err (circular s), c) h q = refl
  out_after f (err (failure e), c) h q = refl

  pub Answers-then :
      {A B : Type 0} (c0 : Container V W) (m : M V W A) (f : A → M V W B)
      → Keeps m
      → Answers c0 m
      → ((a : A) → Answers c0 (f a))
      → Answers c0 (m >>= f)
  Answers-then c0 m f keeps p q c start = out_after f (m c) (p c start) (λ a c' e.
      q a c' (
        Framed-Kept c.build_stack c0 c c' start
          (subst (λ o. Kept c.build_stack c o.1) e (keeps c))))

  Answers-caught :
      (c0 c : Container V W) (k : Option V → M V W V) (o : Result V × Container V W)
      → is_out o ≡ false
      → Framed c0 o.1
      → ((v : Option V) → Answers c0 (k v))
      → is_out (caught k o) ≡ false
  Answers-caught c0 c k (ok v, c') h p q = q (some v) c' p
  Answers-caught c0 c k (err out_of_fuel, c') h p q = absurd (cc)
  Answers-caught c0 c k (err (circular s), c') h p q = q none c' p
  Answers-caught c0 c k (err (failure e), c') h p q = q none c' p

  module _ (U : List String) (c0 : Container V W) (mk : Maker V W)
      (makes_keep : (key : String) (given : Parameters V) → Keeps (mk key given))
      (makes_answer : (key : String) (given : Parameters V)
        → Within U c0 key
        → Answers c0 (mk key given)) where
    play-Answers : (p : Program V W) → Reaches (Within U c0) p → Answers c0 (play mk p)
    unfolding play Reaches
    play-Answers (done v) r c start = refl
    play-Answers (fails e) r c start = refl
    play-Answers (acts f k) r c start =
        let c' : Container V W = record c { world = f c.world } in
        play-Answers (k c.world) (r c.world) c' (
          ap {A = Container V W}
            (λ s. record s {
              instances = c.instances;
              scoped_instances = c.scoped_instances;
              world = c'.world;
            })
            start)
    play-Answers (makes key k) r c start =
        Answers-then c0 (mk key []) (λ v. play mk (k v)) (makes_keep key [])
          (makes_answer key [] r.0) (λ v. play-Answers (k v) (r.1 v)) c start
    play-Answers (tries key k) r c start =
        Answers-caught c0 c (λ v. play mk (k v)) (mk key [] c) (makes_answer key [] r.0 c start)
          (Framed-Kept c.build_stack c0 c (mk key [] c).1 start (makes_keep key [] c))
          (λ v. play-Answers (k v) (r.1 v))

    pub fire-Answers :
        (ps : List (Program V W)) → ReachesAll (Within U c0) ps → Answers c0 (fire mk ps)
    unfolding fire
    fire-Answers [] r c start = refl
    fire-Answers (p ∷ ps) r c start =
        Answers-then c0 (play mk p) (λ _. fire mk ps) (play-Keeps mk makes_keep p)
          (play-Answers p r.0) (λ _. fire-Answers ps r.1) c start

    pub apply_extenders-Answers :
        (es : List (V → Program V W)) (v : V)
        → ReachesEach (Within U c0) es
        → Answers c0 (apply_extenders mk es v)
    unfolding apply_extenders
    apply_extenders-Answers [] v r c start = refl
    apply_extenders-Answers (e ∷ es) v r c start =
        Answers-then c0 (play mk (e v)) (apply_extenders mk es) (play-Keeps mk makes_keep (e v))
          (play-Answers (e v) (r.0 v)) (λ v'. apply_extenders-Answers es v' r.1) c start

    resolve_parameter-Answers :
        (given : Parameters V) (p : Parameter V)
        → ((type : String) → p.annotation ≡ some type → is_known c0 type ≡ true → Within U c0 type)
        → Answers c0 (resolve_parameter mk given p)
    resolve_parameter-Answers given p r c start = elim (Option-cases p.annotation) [
      | inl e ↦ rw e refl
      | inr (type, e) ↦ rw e (elim (Bool-cases (is_known c type)) [
        | inl known ↦ rw known (
            Answers-then c0 (mk type []) (λ v. pure (some v)) (makes_keep type [])
              (makes_answer type [] (r type e (ap (λ d. is_known d type) (sym start) ∙ known)))
              (λ v c' p. refl) c start)
        | inr unknown ↦ rw unknown refl
      ])
    ]

    resolve_parameters-Answers :
        (given : Parameters V) (ps : List (Parameter V))
        → ReachesParameters (Within U c0) (is_known c0) ps
        → Answers c0 (resolve_parameters mk given ps)
    unfolding resolve_parameters
    resolve_parameters-Answers given [] r c start = refl
    resolve_parameters-Answers given (p ∷ ps) r c start =
        skipping (p.name == "self") (resolve_parameters-Answers given ps r.1)
      where
        next : M V W (Parameters V)
        next = resolve_parameters mk given ps

        resolved : M V W (Parameters V)
        resolved =
            resolve_parameter mk given p >>= λ v. next >>= λ rest. pure (with_value p.name v rest)

        skipping : (b : Bool) → Answers c0 next → is_out (unless_self b next resolved c) ≡ false
        skipping true later = later c start
        skipping false later =
            Answers-then c0 (resolve_parameter mk given p)
              (λ v. next >>= λ rest. pure (with_value p.name v rest))
              (resolve_parameter-Keeps mk makes_keep given p)
              (resolve_parameter-Answers given p r.0)
              (λ v.
                Answers-then c0 next (λ rest. pure (with_value p.name v rest))
                  (resolve_parameters-Keeps mk makes_keep given ps) later (λ rest c' p. refl))
              c start

    pub build-Answers :
        (x : Concrete V W) (given : Parameters V)
        → ReachesConcrete (Within U c0) (is_known c0) x
        → Answers c0 (build mk x given)
    unfolding build
    build-Answers (named key) given r c start = makes_answer key given r c start
    build-Answers (factory f) given r c start = play-Answers (f given) (r given) c start
    build-Answers (constructor none init) given r c start = play-Answers (init []) r c start
    build-Answers (constructor (some signature) init) given r c start =
        Answers-then c0 (resolve_parameters mk given signature)
          (λ resolved. play mk (init resolved))
          (resolve_parameters-Keeps mk makes_keep given signature)
          (resolve_parameters-Answers given signature r.0)
          (λ resolved. play-Answers (init resolved) (r.1 resolved)) c start
    build-Answers (object v) given r c start = refl

    pub build_binding-Answers :
        (type : BindingType) (x : Concrete V W) (given : Parameters V)
        → ReachesConcrete (Within U c0) (is_known c0) x
        → Answers c0 (build_binding mk type x given)
    build_binding-Answers instance_of (object v) given = λ r c start. refl
    build_binding-Answers instance_of (named key) given = build-Answers (named key) given
    build_binding-Answers instance_of (factory f) given = build-Answers (factory f) given
    build_binding-Answers instance_of (constructor s f) given =
        build-Answers (constructor s f) given
    build_binding-Answers transient x given = build-Answers x given
    build_binding-Answers singleton x given = build-Answers x given
    build_binding-Answers scoped x given = build-Answers x given
