-- ===== src/Container/Make.antt =====
-- Resolution: `Container.make`, `_resolve`, `_build`, `_build_class` and what they call, of
-- swx_core/container/container.py. A nested call of `make` is an argument of what is below it.
use swx.Prelude.{
  ℕ, zero, suc, Bool, true, false, ◌||◌, Option, none, some, List, [], ◌∷◌, reverse, String,
  string_eq, ◌==◌, any, if◌then◌else◌,
}
use swx.Prelude.Dict.{lookup, contains, insert}
use swx.Container.Model.{
  Program, done, fails, acts, makes, tries, Parameters, Parameter, Concrete, named, factory,
  constructor, object, BindingType, transient, singleton, scoped, instance_of, Binding, Container,
  circular, failure, out_of_fuel, Result, ok, err, M, and_then, ◌>>=◌, pure, raise,
}

abbrev pub or_empty : {A : Type 0} → Option (List A) → List A
or_empty none = []
or_empty (some xs) = xs

abbrev pub or_key : String → Option String → String
or_key key none = key
or_key key (some k) = k

-- What `make` is to the code that it runs.
abbrev pub Maker : Type 0 → Type 0 → Type 0
Maker V W = String → Parameters V → M V W V

abbrev pub default_or : {V : Type 0} → Option V → Option V → Option V
default_or (some v) given = some v
default_or none given = given

abbrev pub with_value : {V : Type 0} → String → Option V → Parameters V → Parameters V
with_value name none resolved = resolved
with_value name (some v) resolved = (name, v) ∷ resolved

abbrev pub rest : List String → List String
rest [] = []
rest (_ ∷ stack) = stack

abbrev pub on_stack : String → List String → Bool
on_stack key stack = any (λ k. k == key) stack

module _ {V W : Type 0} where
  -- `aliases.get(abstract, abstract)`
  abbrev pub aliased : Container V W → String → String
  aliased c key = or_key key (lookup key c.aliases)

  -- `except`
  abbrev pub caught : (Option V → M V W V) → Result V × Container V W → Result V × Container V W
  caught k (ok v, c) = k (some v) c
  caught k (err out_of_fuel, c) = (err out_of_fuel, c)
  caught k (err (circular stack), c) = k none c
  caught k (err (failure e), c) = k none c

  -- A call of a factory, an `__init__`, a callback or an extender. A program may catch what a nested
  -- `make` raises.
  unfoldable pub play : Maker V W → Program V W → M V W V
  play mk (done v) = pure v
  play mk (fails e) = raise (failure e)
  play mk (acts f k) = λ c. play mk (k c.world) (record c { world = f c.world })
  play mk (makes key k) = λ c. and_then (λ v. play mk (k v)) (mk key [] c)
  play mk (tries key k) = λ c. caught (λ v. play mk (k v)) (mk key [] c)

  -- `_fire_callbacks`
  unfoldable pub fire : Maker V W → List (Program V W) → M V W (Unit {0})
  fire mk [] = pure tt
  fire mk (p ∷ ps) = play mk p >>= λ _. fire mk ps

  -- `_apply_extenders`
  unfoldable pub apply_extenders : Maker V W → List (V → Program V W) → V → M V W V
  apply_extenders mk [] v = pure v
  apply_extenders mk (e ∷ es) v = play mk (e v) >>= apply_extenders mk es

  abbrev pub is_known : Container V W → String → Bool
  is_known c key = contains key c.bindings || contains key c.aliases

  -- The value of one parameter, if it gets one.
  abbrev pub resolve_parameter : Maker V W → Parameters V → Parameter V → M V W (Option V)
  resolve_parameter mk given p c = elim p.annotation [
    | none ↦ pure (default_or p.default (lookup p.name given)) c
    | some type ↦
        if is_known c type
        then and_then (λ v. pure (some v)) (mk type [] c)
        else pure (default_or p.default (lookup p.name given)) c
  ]

  abbrev pub unless_self : Bool → M V W (Parameters V) → M V W (Parameters V) → M V W (Parameters V)
  unless_self true skipped resolved = skipped
  unless_self false skipped resolved = resolved

  unfoldable pub resolve_parameters :
      Maker V W → Parameters V → List (Parameter V) → M V W (Parameters V)
  resolve_parameters mk given [] = pure []
  resolve_parameters mk given (p ∷ ps) =
      let next = resolve_parameters mk given ps in
      unless_self (p.name == "self") next
        (resolve_parameter mk given p >>= λ v. next >>= λ rest. pure (with_value p.name v rest))

  -- `_build` and `_build_class`; `_build_contextual` does the same.
  unfoldable pub build : Maker V W → Concrete V W → Parameters V → M V W V
  build mk (named key) given = mk key given
  build mk (factory f) given = play mk (f given)
  build mk (constructor none init) given = play mk (init [])
  build mk (constructor (some signature) init) given =
      resolve_parameters mk given signature >>= λ resolved. play mk (init resolved)
  build mk (object v) given = pure v

  abbrev pub build_binding : Maker V W → BindingType → Concrete V W → Parameters V → M V W V
  build_binding mk instance_of (object v) given = pure v
  build_binding mk _ concrete given = build mk concrete given

  -- Where the new instance goes: the singletons, the open scope, nowhere.
  abbrev pub keep : BindingType → String → V → M V W (Unit {0})
  keep singleton key v c = (ok tt, record c { instances = insert key v c.instances })
  keep scoped key v c = (ok tt, record c { scoped_instances = insert key v c.scoped_instances })
  keep transient key v c = (ok tt, c)
  keep instance_of key v c = (ok tt, c)

  -- The three branches of `_resolve` by the type of the binding.
  unfoldable pub instantiate : Maker V W → String → Binding V W → Parameters V → M V W V
  instantiate mk key b given = build_binding mk b.binding_type b.concrete given >>= λ made.
      (λ c. apply_extenders mk (or_empty (lookup key c.extenders)) made c) >>= λ v.
      keep b.binding_type key v >>= λ _.
      (λ c. fire mk (or_empty (lookup key c.resolved_callbacks)) c) >>= λ _. pure v

  abbrev pub resolve_new : Maker V W → String → Parameters V → M V W V
  resolve_new mk key given c = elim (lookup key c.bindings) [
    | none ↦ build mk (named key) given c
    | some b ↦ instantiate mk key b given c
  ]

  abbrev pub resolve_known : Maker V W → String → Parameters V → M V W V
  resolve_known mk key given c = elim (lookup key c.instances) [
    | some v ↦ (ok v, c)
    | none ↦ elim (lookup key c.scoped_instances) [
      | some v ↦ (ok v, c)
      | none ↦ resolve_new mk key given c
    ]
  ]

  -- `_resolve`
  unfoldable pub resolve : Maker V W → String → Parameters V → M V W V
  unfolding instantiate
  resolve mk key given = (λ c. fire mk (or_empty (lookup key c.resolving_callbacks)) c) >>= λ _.
      resolve_known mk key given

  -- `_get_contextual_concrete`, the newest key of the stack first.
  abbrev pub contextual_of :
      List String → String → List (String × List (String × Concrete V W)) → Option (Concrete V W)
  contextual_of [] key contextual = none
  contextual_of (when ∷ stack) key contextual =
      elim (lookup key (or_empty (lookup when contextual))) [
        | some concrete ↦ some concrete
        | none ↦ contextual_of stack key contextual
      ]

  abbrev pub push : String → Container V W → Container V W
  push key c = record c { build_stack = key ∷ c.build_stack }

  -- `finally: self._build_stack.pop()`
  abbrev pub popped : Result V × Container V W → Result V × Container V W
  popped (r, c) = (r, record c { build_stack = rest c.build_stack })

  -- `make` once the key is known to be on the stack or not, and its contextual binding is found.
  abbrev pub make_key : Maker V W → String → Parameters V → Bool → Option (Concrete V W) → M V W V
  make_key mk k given true contextual c = (err (circular (reverse (k ∷ c.build_stack))), c)
  make_key mk k given false (some concrete) c = build mk concrete given c
  make_key mk k given false none c = popped (resolve mk k given (push k c))

  -- `fuel` bounds how deep calls of `make` nest.
  unfoldable pub make : ℕ → String → Parameters V → M V W V
  make zero key given c = (err out_of_fuel, c)
  make (suc fuel) key given c =
      let k = aliased c key in
      make_key (make fuel) k given (on_stack k c.build_stack)
        (contextual_of c.build_stack k c.contextual) c
