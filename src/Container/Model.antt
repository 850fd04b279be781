-- ===== src/Container/Model.antt =====
-- The state of `Container` and `Binding`, and what it is given: factories, classes, callbacks and
-- extenders are programs that may make other keys, change the world `W` outside and raise. `V` is
-- an instance. Keys are names: a type given to `make` stands for its `__name__`. One thread is
-- modelled, so the locks are left out, and a program is taken not to rebind keys while it runs.
use swx.Prelude.{Option, List, String}

-- `fails` is an exception of the code that is called.
pub data Program (V W : Type 0) : Type 0 where
  done : V → Program V W
  fails : String → Program V W
  acts : (W → W) → (W → Program V W) → Program V W
  makes : String → (V → Program V W) → Program V W
  tries : String → (Option V → Program V W) → Program V W

abbrev pub Parameters : Type 0 → Type 0
Parameters V = List (String × V)

-- A parameter of `__init__`: its name, the name of its annotation, its default.
pub record Parameter (V : Type 0) : Type 0 where
  pub name : String
  pub annotation : Option String
  pub default : Option V

-- What `_build` tells apart: a name, a callable, a class, anything else. The signature of a class is
-- `none` where `inspect.signature` raises.
pub data Concrete (V W : Type 0) : Type 0 where
  named : String → Concrete V W
  factory : (Parameters V → Program V W) → Concrete V W
  constructor : Option (List (Parameter V)) → (Parameters V → Program V W) → Concrete V W
  object : V → Concrete V W

pub data BindingType : Type 0 where
  transient : BindingType
  singleton : BindingType
  scoped : BindingType
  instance_of : BindingType

-- `shared` and `resolved` are only written.
pub record Binding (V W : Type 0) : Type 0 where
  pub concrete : Concrete V W
  pub binding_type : BindingType

-- The dicts of the container, its build stack with the newest key first, and the world outside.
pub record Container (V W : Type 0) : Type 0 where
  pub bindings : List (String × Binding V W)
  pub instances : List (String × V)
  pub scoped_instances : List (String × V)
  pub aliases : List (String × String)
  pub contextual : List (String × List (String × Concrete V W))
  pub tags : List (String × List String)
  pub resolving_callbacks : List (String × List (Program V W))
  pub resolved_callbacks : List (String × List (Program V W))
  pub extenders : List (String × List (V → Program V W))
  pub rebindings : List (String × List (V → Program V W))
  pub build_stack : List String
  pub world : W

-- `CircularDependencyError`, an exception of other code, or a call that nests deeper than the fuel.
pub data Error : Type 0 where
  circular : List String → Error
  failure : String → Error
  out_of_fuel : Error

pub data Result (A : Type 0) : Type 0 where
  ok : A → Result A
  err : Error → Result A

-- A call may change the container and the world, also where it raises.
abbrev pub M : Type 0 → Type 0 → Type 0 → Type 0
M V W A = Container V W → Result A × Container V W

abbrev pub and_then :
    {V W A B : Type 0} → (A → M V W B) → Result A × Container V W → Result B × Container V W
and_then f (ok a, c) = f a c
and_then f (err e, c) = (err e, c)

infixl 5 ◌>>=◌
abbrev pub ◌>>=◌ : {V W A B : Type 0} → M V W A → (A → M V W B) → M V W B
◌>>=◌ m f c = and_then f (m c)

abbrev pub pure : {V W A : Type 0} → A → M V W A
pure a c = (ok a, c)

abbrev pub raise : {V W A : Type 0} → Error → M V W A
raise e c = (err e, c)
