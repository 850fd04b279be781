-- ===== src/Container/Registry.antt =====
-- The registrations of `Container`, of swx_core/container/container.py, its scopes, and what makes
-- several keys. `mk` is `make` with the fuel that it is given.
use swx.Prelude.{
  Bool, not, Option, none, some, List, [], ◌∷◌, ◌++◌, String, string_eq, ◌==◌, filter,
}
use swx.Prelude.Dict.{lookup, insert, erase}
use swx.Container.Model.{
  Program, Concrete, named, object, BindingType, transient, singleton, scoped, instance_of, Binding,
  Container, Result, ok, M, and_then, ◌>>=◌, pure,
}
use swx.Container.Make.{or_empty, Maker, play, is_known}

-- `setdefault(key, []).append(x)`
abbrev pub appended : {A : Type 0} → String → A → List (String × List A) → List (String × List A)
appended key x d = insert key (or_empty (lookup key d) ++ x ∷ []) d

-- What `when(...)` returns.
pub record ContextualBinding : Type 0 where
  pub when_abstract : String
  pub needs_abstract : Option String

abbrev pub when : String → ContextualBinding
when abstract = record { when_abstract = abstract; needs_abstract = none }

abbrev pub needs : String → ContextualBinding → ContextualBinding
needs abstract b = record b { needs_abstract = some abstract }

module _ {V W : Type 0} where
  -- `__init__`, in a given world.
  abbrev pub new_container : W → Container V W
  new_container w = record {
    bindings = [];
    instances = [];
    scoped_instances = [];
    aliases = [];
    contextual = [];
    tags = [];
    resolving_callbacks = [];
    resolved_callbacks = [];
    extenders = [];
    rebindings = [];
    build_stack = [];
    world = w;
  }

  abbrev pub concrete_or : String → Option (Concrete V W) → Concrete V W
  concrete_or abstract none = named abstract
  concrete_or abstract (some concrete) = concrete

  abbrev pub bind_as : BindingType → String → Concrete V W → Container V W → Container V W
  bind_as type abstract concrete c = record c {
    bindings = insert abstract (record { concrete = concrete; binding_type = type }) c.bindings;
  }

  -- `bind`, `singleton` and `scoped`
  unfoldable pub bind : String → Option (Concrete V W) → Container V W → Container V W
  bind abstract concrete = bind_as transient abstract (concrete_or abstract concrete)

  unfoldable pub bind_singleton : String → Option (Concrete V W) → Container V W → Container V W
  bind_singleton abstract concrete = bind_as singleton abstract (concrete_or abstract concrete)

  unfoldable pub bind_scoped : String → Option (Concrete V W) → Container V W → Container V W
  bind_scoped abstract concrete = bind_as scoped abstract (concrete_or abstract concrete)

  -- `instance`
  unfoldable pub bind_instance : String → V → Container V W → Container V W
  bind_instance abstract v c =
      let c' = bind_as instance_of abstract (object v) c in
      record c' { instances = insert abstract v c'.instances }

  unfoldable pub add_contextual : String → String → Concrete V W → Container V W → Container V W
  add_contextual when needs concrete c = record c {
    contextual =
        insert when (insert needs concrete (or_empty (lookup when c.contextual))) c.contextual;
  }

  unfoldable pub give : Concrete V W → ContextualBinding → Container V W → Container V W
  unfolding add_contextual
  give concrete b c = elim b.needs_abstract [
    | none ↦ c
    | some needs ↦ add_contextual b.when_abstract needs concrete c
  ]

  unfoldable pub tag : String → List String → Container V W → Container V W
  tag name abstracts c = record c { tags = insert name abstracts c.tags }

  unfoldable pub make_each : Maker V W → List String → M V W (List V)
  make_each mk [] = pure []
  make_each mk (a ∷ abstracts) = mk a [] >>= λ v. make_each mk abstracts >>= λ vs. pure (v ∷ vs)

  unfoldable pub tagged : Maker V W → String → M V W (List V)
  unfolding make_each
  tagged mk name c = make_each mk (or_empty (lookup name c.tags)) c

  unfoldable pub alias : String → String → Container V W → Container V W
  alias abstract alias_name c = record c { aliases = insert alias_name abstract c.aliases }

  abbrev pub with_scope :
      {A : Type 0} → List (String × V) → Result A × Container V W → Result A × Container V W
  with_scope previous (r, c) = (r, record c { scoped_instances = previous })

  -- `scope` and `async_scope` around the body of a `with` block.
  unfoldable pub scope : {A : Type 0} → M V W A → M V W A
  scope body c = with_scope c.scoped_instances (body (record c { scoped_instances = [] }))

  unfoldable pub resolving : String → Program V W → Container V W → Container V W
  resolving abstract callback c = record c {
    resolving_callbacks = appended abstract callback c.resolving_callbacks;
  }

  unfoldable pub after_resolving : String → Program V W → Container V W → Container V W
  after_resolving abstract callback c = record c {
    resolved_callbacks = appended abstract callback c.resolved_callbacks;
  }

  unfoldable pub extend : String → (V → Program V W) → Container V W → Container V W
  extend abstract callback c = record c { extenders = appended abstract callback c.extenders }

  unfoldable pub rebinding : String → (V → Program V W) → Container V W → Container V W
  rebinding abstract callback c = record c { rebindings = appended abstract callback c.rebindings }

  unfoldable pub call_each : Maker V W → List (V → Program V W) → V → M V W (Unit {0})
  unfolding play
  call_each mk [] v = pure tt
  call_each mk (f ∷ fs) v = play mk (f v) >>= λ _. call_each mk fs v

  unfoldable pub fresh : Maker V W → String → M V W (Unit {0})
  unfolding call_each
  fresh mk abstract c =
      let c' = record c { instances = erase abstract c.instances } in
      elim (lookup abstract c'.rebindings) [
        | none ↦ (ok tt, c')
        | some callbacks ↦ and_then (call_each mk callbacks) (mk abstract [] c')
      ]

  -- `bound`, which `has` calls.
  unfoldable pub bound : String → Container V W → Bool
  bound abstract c = is_known c abstract

  unfoldable pub override : String → Concrete V W → Container V W → Container V W
  override abstract concrete c =
      bind_as transient abstract concrete (record c { instances = erase abstract c.instances })

  unfoldable pub forget : String → Container V W → Container V W
  forget abstract c = record c {
    bindings = erase abstract c.bindings;
    instances = erase abstract c.instances;
    aliases = filter (λ a. not (a.1 == abstract)) c.aliases;
  }

  -- `_rebindings` and `_build_stack` stay.
  unfoldable pub flush : Container V W → Container V W
  flush c = record c {
    bindings = [];
    instances = [];
    scoped_instances = [];
    aliases = [];
    contextual = [];
    tags = [];
    extenders = [];
    resolving_callbacks = [];
    resolved_callbacks = [];
  }

  unfoldable pub get_bindings : Container V W → List (String × Binding V W)
  get_bindings c = c.bindings

  unfoldable pub get_instances : Container V W → List (String × V)
  get_instances c = c.instances

  -- `get_container`, `set_container` and `reset_container` on the module's `_container`; `w` is the
  -- world at the time.
  unfoldable pub get_container : W → Option (Container V W) → Container V W × Option (Container V W)
  get_container w none = (new_container w, some (new_container w))
  get_container w (some c) = (c, some c)

  unfoldable pub set_container : Container V W → Option (Container V W) → Option (Container V W)
  set_container c _ = some c

  unfoldable pub reset_container : Option (Container V W) → Option (Container V W)
  reset_container _ = none
