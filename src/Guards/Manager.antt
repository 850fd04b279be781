-- ===== src/Guards/Manager.antt =====
-- `AuthenticatedUser` of swx_core/guards/base.py and `GuardManager` of
-- swx_core/guards/guard_manager.py. A guard is what its methods do to a world `W`; `R` is the type of
-- requests.
use swx.Prelude.{
  Bool, true, false, ◌||◌, Option, none, some, List, [], ◌∷◌, map, any, String, string_eq, ◌==◌,
  if◌then◌else◌,
}
use swx.Prelude.Dict.{lookup, contains, insert}

pub record AuthenticatedUser : Type 0 where
  pub id : String
  pub email : String
  pub type : String
  pub roles : List String
  pub permissions : List String
  pub is_superuser : Bool
  pub is_active : Bool
  pub metadata : List (String × String)

abbrev pub is_in : String → List String → Bool
is_in x xs = any (λ y. y == x) xs

unfoldable pub has_role : AuthenticatedUser → String → Bool
has_role u role = is_in role u.roles || u.is_superuser

unfoldable pub has_permission : AuthenticatedUser → String → Bool
has_permission u permission = is_in permission u.permissions || u.is_superuser

unfoldable pub has_any_role : AuthenticatedUser → List String → Bool
has_any_role u roles = any (λ role. is_in role u.roles) roles || u.is_superuser

unfoldable pub has_any_permission : AuthenticatedUser → List String → Bool
has_any_permission u permissions =
    any (λ perm. is_in perm u.permissions) permissions || u.is_superuser

-- The methods of a guard end with an answer or with an exception.
pub data Tried (A : Type 0) : Type 0 where
  answered : A → Tried A
  raised : String → Tried A

-- `revoke_all_tokens_for_user` is `none` where the guard has no such method; `create_token` takes
-- the claims of its caller.
pub record Guard (R W : Type 0) : Type 0 where
  pub authenticate : R → W → Tried (Option AuthenticatedUser) × W
  pub create_token : AuthenticatedUser → List (String × String) → W → Tried String × W
  pub revoke_token : String → W → Tried Bool × W
  pub revoke_all_tokens_for_user : Option (String → W → Tried Bool × W)

pub record GuardManager (R W : Type 0) : Type 0 where
  pub guards : List (String × Guard R W)
  pub default_guard : String

-- `name or default`
abbrev pub or_default : Option String → String → String
or_default none default = default
or_default (some name) default = if name == "" then default else name

abbrev pub not_registered : {A : Type 0} → Tried A
not_registered = raised "not registered"

-- What a guard of the fallback leads to: its user, or the next ones.
abbrev pub fallen_back :
    {W : Type 0}
    → (W → Tried (Option AuthenticatedUser) × W)
    → Tried (Option AuthenticatedUser) × W
    → Tried (Option AuthenticatedUser) × W
fallen_back next (answered (some u), w) = (answered (some u), w)
fallen_back next (answered none, w) = next w
fallen_back next (raised e, w) = next w

module _ {R W : Type 0} where
  abbrev pub new_manager : String → GuardManager R W
  new_manager default = record { guards = []; default_guard = default }

  unfoldable pub register : String → Guard R W → GuardManager R W → GuardManager R W
  register name g m = record m { guards = insert name g m.guards }

  unfoldable pub guard : Option String → GuardManager R W → Tried (Guard R W)
  guard name m = elim (lookup (or_default name m.default_guard) m.guards) [
    | none ↦ not_registered
    | some g ↦ answered g
  ]

  unfoldable pub set_default : String → GuardManager R W → Tried (GuardManager R W)
  set_default name m =
      if contains name m.guards
      then answered (record m { default_guard = name })
      else not_registered

  -- A call of a method of the guard, if there is one.
  abbrev pub through :
      {A : Type 0} → (Guard R W → W → Tried A × W) → Tried (Guard R W) → W → Tried A × W
  through call (answered g) w = call g w
  through call (raised e) w = (raised e, w)

  -- The loop over the other guards.
  unfoldable pub fall_back :
      String → List (String × Guard R W) → R → W → Tried (Option AuthenticatedUser) × W
  fall_back default [] request w = (answered none, w)
  fall_back default ((name, g) ∷ guards) request w = elim (name == default) [
    | true ↦ fall_back default guards request w
    | false ↦ fallen_back (λ w'. fall_back default guards request w') (g.authenticate request w)
  ]

  -- What follows the default guard.
  abbrev pub after_default :
      GuardManager R W
      → R
      → Tried (Option AuthenticatedUser) × W
      → Tried (Option AuthenticatedUser) × W
  after_default m request (answered (some u), w) = (answered (some u), w)
  after_default m request (answered none, w) = fall_back m.default_guard m.guards request w
  after_default m request (raised e, w) = (raised e, w)

  unfoldable pub authenticate :
      R → Option String → GuardManager R W → W → Tried (Option AuthenticatedUser) × W
  unfolding guard fall_back
  authenticate request name m w =
      if or_default name "" == ""
      then after_default m request
          (through (λ g. g.authenticate request) (guard (some m.default_guard) m) w)
      else through (λ g. g.authenticate request) (guard name m) w

  unfoldable pub create_token :
      AuthenticatedUser
      → Option String
      → List (String × String)
      → GuardManager R W
      → W
      → Tried String × W
  unfolding guard
  create_token user name claims m = through (λ g. g.create_token user claims) (guard name m)

  unfoldable pub revoke_token : String → Option String → GuardManager R W → W → Tried Bool × W
  unfolding guard
  revoke_token token name m = through (λ g. g.revoke_token token) (guard name m)

  abbrev pub revoked_all : Guard R W → String → W → Tried Bool × W
  revoked_all g user_id w = elim g.revoke_all_tokens_for_user [
    | none ↦ (answered false, w)
    | some revoke ↦ revoke user_id w
  ]

  unfoldable pub revoke_all_tokens_for_user :
      String → Option String → GuardManager R W → W → Tried Bool × W
  unfolding guard
  revoke_all_tokens_for_user user_id name m = through (λ g. revoked_all g user_id) (guard name m)

  unfoldable pub registered_guards : GuardManager R W → List String
  registered_guards m = map (λ g. g.0) m.guards

  unfoldable pub has_guard : String → GuardManager R W → Bool
  has_guard name m = contains name m.guards

  unfoldable pub get_default_guard : GuardManager R W → String
  get_default_guard m = m.default_guard
