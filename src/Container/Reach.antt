-- ===== src/Container/Reach.antt =====
-- The keys that the registrations of `Container`, of swx_core/container/container.py, can make.
use swx.Prelude.{
  ℕ, ◌≤◌, ◌<◌, ◌≡◌, Bool, true, false, not, Option, none, some, List, [], ◌∷◌, String, string_eq,
  ◌==◌, beq_refl, eqb_iff, arith, length, filter, Bool-cases, inl, inr,
}
use swx.Prelude.Dict.{lookup}
use swx.Container.Model.{
  Program, done, fails, acts, makes, tries, Parameters, Parameter, Concrete, named, factory,
  constructor, object, Binding, Container,
}
use swx.Container.Make.{or_empty, on_stack, aliased, is_known}

-- The keys of `U` that are not being made.
abbrev pub missing : List String → List String → ℕ
missing U stack = length (filter (λ u. not (on_stack u stack)) U)

missing-push-le : (k : String) (U stack : List String) → missing U (k ∷ stack) ≤ missing U stack
missing-push-le k [] stack = omega arith
missing-push-le k (u ∷ U) stack = ground (arith, missing-push-le k U stack, eqb_iff k u)

pub missing-push-lt :
    (k : String) (U stack : List String)
    → on_stack k U ≡ true
    → on_stack k stack ≡ false
    → missing U (k ∷ stack) < missing U stack
missing-push-lt k [] stack h free = absurd (cc)
missing-push-lt k (u ∷ U) stack h free = elim (Bool-cases (u == k)) [
  | inl e ↦ rw ((eqb_iff u k).0 e, beq_refl k, free) (omega (arith, missing-push-le k U stack))
  | inr e ↦ ground (arith, missing-push-lt k U stack (rw e at h) free, eqb_iff k u, eqb_iff u k)
]

abbrev pub ReachesParameters :
    {V : Type 0} → (String → Type 0) → (String → Bool) → List (Parameter V) → Type 0
ReachesParameters within known [] = Unit {0}
ReachesParameters within known (p ∷ ps) =
    ((type : String) → p.annotation ≡ some type → known type ≡ true → within type)
    × ReachesParameters within known ps

module _ {V W : Type 0} where
  -- What is made for the key is one of `U`.
  abbrev pub Within : List String → Container V W → String → Type 0
  Within U c key = on_stack (aliased c key) U ≡ true

  -- The program makes keys of which `within` holds only, whatever it is answered.
  unfoldable pub Reaches : (String → Type 0) → Program V W → Type 0
  Reaches within (done v) = Unit {0}
  Reaches within (fails e) = Unit {0}
  Reaches within (acts f k) = (w : W) → Reaches within (k w)
  Reaches within (makes key k) = within key × ((v : V) → Reaches within (k v))
  Reaches within (tries key k) = within key × ((v : Option V) → Reaches within (k v))

  abbrev pub ReachesAll : (String → Type 0) → List (Program V W) → Type 0
  ReachesAll within [] = Unit {0}
  ReachesAll within (p ∷ ps) = Reaches within p × ReachesAll within ps

  abbrev pub ReachesEach : (String → Type 0) → List (V → Program V W) → Type 0
  ReachesEach within [] = Unit {0}
  ReachesEach within (e ∷ es) = ((v : V) → Reaches within (e v)) × ReachesEach within es

  abbrev pub ReachesConcrete : (String → Type 0) → (String → Bool) → Concrete V W → Type 0
  ReachesConcrete within known (named key) = within key
  ReachesConcrete within known (factory f) = (given : Parameters V) → Reaches within (f given)
  ReachesConcrete within known (constructor none init) = Reaches within (init [])
  ReachesConcrete within known (constructor (some signature) init) =
      ReachesParameters within known signature
      × ((given : Parameters V) → Reaches within (init given))
  ReachesConcrete within known (object v) = Unit {0}

  -- All that the registrations make is in `U`; nothing is bound by context.
  pub record Closed (U : List String) (c : Container V W) : Type 0 where
    pub plain : c.contextual ≡ []
    pub within : (u : String) → on_stack u U ≡ true → Within U c u
    pub bound :
        (u : String) (b : Binding V W)
        → lookup u c.bindings ≡ some b
        → ReachesConcrete (Within U c) (is_known c) b.concrete
    pub before : (u : String) → ReachesAll (Within U c) (or_empty (lookup u c.resolving_callbacks))
    pub after : (u : String) → ReachesAll (Within U c) (or_empty (lookup u c.resolved_callbacks))
    pub extended : (u : String) → ReachesEach (Within U c) (or_empty (lookup u c.extenders))
