-- ===== src/Container/Tests.antt =====
-- A container of two keys, on which the theorems are applied and the operations run.
use swx.Prelude.{
  ℕ, suc, ◌+◌, ◌≡◌, refl, true, false, none, some, List, [], ◌∷◌, String, string_eq, ◌==◌,
  Bool-cases, subst, inl, inr, arith,
}
use mathlib.Core.Option.{some-injective}
use swx.Container.Model.{
  Program, done, acts, makes, Parameters, named, factory, object, singleton, Container, circular,
  ok, err,
}
use swx.Container.Make.{is_known, make, fire, play, resolve, build, apply_extenders}
use swx.Container.Registry.{new_container, bind, bind_singleton, alias}
use swx.Container.Frame.{Kept}
use swx.Container.Reach.{Within, Closed, ReachesConcrete, Reaches}
use swx.Container.Fuel.{make-answers}
use swx.Container.Answers.{is_out}
use swx.Container.Restored.{make-Keeps}
use swx.Container.Shared.{make-shared, make_all}

-- The world counts the calls of the factory.
abbrev connect : Parameters ℕ → Program ℕ ℕ
connect given = acts suc (λ w. makes "settings" (λ v. done (v + w)))

abbrev app : Container ℕ ℕ
app = record (new_container 0) {
  bindings =
      ("settings", record { concrete = object 7; binding_type = singleton })
      ∷ ("database", record { concrete = factory connect; binding_type = singleton })
      ∷ [];
  aliases = ("db", "database") ∷ [];
}

abbrev made : Container ℕ ℕ
made = record app { instances = ("settings", 7) ∷ ("database", 7) ∷ []; world = 1 }

registered :
    bind_singleton "database"
      (some (factory connect))
      (bind_singleton "settings" (some (object 7)) (alias "database" "db" (new_container 0)))
    ≡ app
unfolding bind_singleton alias
registered = refl

first_db : make 3 "db" [] app ≡ (ok 7, made)
unfolding make resolve fire build play apply_extenders
first_db = refl

first_database : make 3 "database" [] app ≡ (ok 7, made)
unfolding make resolve fire build play apply_extenders
first_database = refl

-- Without a concrete a key is bound to its own name.
unbound_cycle :
    make 3 "mail" [] (bind "mail" none app)
    ≡ (err (circular ("mail" ∷ "mail" ∷ [])), bind "mail" none app)
unfolding make bind resolve fire build
unbound_cycle = refl

-- A name that a context binds to itself is looked up in that context for ever.
abbrev looping : Container ℕ ℕ
looping = record (new_container 0) {
  bindings =
      (
        "page",
        record {
          concrete = factory (λ given. makes "view" (λ v. done v));
          binding_type = singleton;
        },
      )
      ∷ [];
  contextual = ("page", ("view", named "view") ∷ []) ∷ [];
}

looping_out : is_out (make 9 "page" [] looping) ≡ true
unfolding make resolve fire build play
looping_out = refl

make-Keeps_example : Kept [] app (make 3 "db" [] app).1
make-Keeps_example = make-Keeps 3 "db" [] app

make-shared_example :
    make 1 "database" [] (make_all ((2, "settings", []) ∷ []) made)
    ≡ (ok 7, make_all ((2, "settings", []) ∷ []) made)
make-shared_example =
    make-shared 2 0 "database" [] [] app made 7 ((2, "settings", []) ∷ []) refl
      (record { concrete = factory connect; binding = refl; unscoped = refl; uncalled = refl })
      first_database

abbrev both : List String
both = "settings" ∷ "database" ∷ []

app-Closed : Closed both app
unfolding Reaches
app-Closed = record {
  plain = refl;
  within = λ u h. elim (Bool-cases ("db" == u)) [ inl e ↦ rw e refl | inr e ↦ rw e h ];
  bound = λ u b e. elim (Bool-cases ("settings" == u)) [
    | inl q ↦
        subst (λ x. ReachesConcrete (Within both app) (is_known app) x.concrete)
          (some-injective _ _ (rw q at e)) tt
    | inr q ↦ elim (Bool-cases ("database" == u)) [
      | inl r ↦
          subst (λ x. ReachesConcrete (Within both app) (is_known app) x.concrete)
            (some-injective _ _ (rw (q, r) at e)) (λ given w. (refl, λ v. tt))
      | inr r ↦ absurd (let n : none ≡ some b = rw (q, r) at e in cc)
    ]
  ];
  before = λ u. tt;
  after = λ u. tt;
  extended = λ u. tt;
}

make-answers_example : is_out (make 3 "db" [] app) ≡ false
make-answers_example = make-answers 3 both "db" [] app app-Closed refl (omega arith)
