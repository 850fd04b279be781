-- ===== src/Cache/Auth.antt =====
-- `AuthCache` of swx_core/auth/auth_cache.py and the functions on its three instances. Redis is a
-- parameter: `none` is an exception of its client, which the code logs and passes over. What Redis
-- answers is taken as deserialised already (`swx_loads`); a value that cannot be is an exception.
use swx.Prelude.{ℕ, Option, none, some, List, [], ◌∷◌, ◌++◌, if◌then◌else◌, ◌==◌}
use swx.Prelude.Text.{Text, text_eq, codes}
use swx.Cache.L1.{L1Cache, get, set, delete, delete_by_prefix}

-- A user dict, or a list of permissions or roles; `J` is a JSON value.
pub data Value (J : Type 0) : Type 0 where
  profile : List (Text × J) → Value J
  records : List J → Value J

pub record Redis (S J : Type 0) : Type 0 where
  pub get_value : Text → S → Option (Option (Value J))
  pub setex : Text → ℕ → Value J → S → Option S
  pub delete_keys : List Text → S → Option S
  pub keys_with : Text → S → Option (List Text)

-- `settings.ENVIRONMENT`, the project's name as it stands in keys, and the times to live.
pub record Settings : Type 0 where
  pub environment : Text
  pub app : Text
  pub permissions_ttl : ℕ
  pub user_ttl : ℕ

-- `redis` is `None` where none is bound.
pub record AuthCache (S J : Type 0) : Type 0 where
  pub scope : Text
  pub ttl : ℕ
  pub l1 : L1Cache (Value J)
  pub redis : Option S

abbrev pub colon : Text
colon = codes ":"

abbrev pub build_prefix : Settings → Text → Text → Text
build_prefix s scope resource =
    s.environment ++ colon ++ s.app ++ colon ++ scope ++ colon ++ resource ++ colon

abbrev pub build_key : Settings → Text → Text → Text → Text
build_key s scope resource identifier =
    build_prefix s scope resource ++ (identifier ++ (colon ++ codes "v1"))

module _ {S J : Type 0} (R : Redis S J) where
  abbrev pub with_redis : AuthCache S J → Option S → AuthCache S J
  with_redis c none = c
  with_redis c (some s) = record c { redis = some s }

  abbrev pub with_l1 : AuthCache S J → L1Cache (Value J) → AuthCache S J
  with_l1 c l1 = record c { l1 = l1 }

  -- What Redis found goes into the first level; an exception on the way answers `None`.
  abbrev pub refilled :
      ℕ → Text → ℕ → AuthCache S J → Option (Option (Value J)) → Option (Value J) × AuthCache S J
  refilled now key ttl c none = (none, c)
  refilled now key ttl c (some none) = (none, c)
  refilled now key ttl c (some (some value)) = elim (set now key value ttl c.l1) [
    | none ↦ (none, c)
    | some l1 ↦ (some value, with_l1 c l1)
  ]

  abbrev pub from_redis : ℕ → Text → ℕ → AuthCache S J → Option (Value J) × AuthCache S J
  from_redis now key ttl c = elim c.redis [
    | none ↦ (none, c)
    | some s ↦ refilled now key ttl c (R.get_value key s)
  ]

  -- The body that `get_profile`, `get_permissions` and `get_cached_roles` share.
  unfoldable pub fetch : ℕ → Text → ℕ → AuthCache S J → Option (Value J) × AuthCache S J
  fetch now key ttl c =
      let (found, l1) = get now key c.l1 in
      elim found [
        | some value ↦ (some value, with_l1 c l1)
        | none ↦ from_redis now key ttl (with_l1 c l1)
      ]

  abbrev pub setex_value : Text → ℕ → Value J → AuthCache S J → AuthCache S J
  setex_value key ttl value c = elim c.redis [
    | none ↦ c
    | some s ↦ with_redis c (R.setex key ttl value s)
  ]

  -- The body that `set_profile`, `set_permissions` and `set_cached_roles` share; `none` is an
  -- exception of the first level.
  unfoldable pub put : ℕ → Text → ℕ → Value J → AuthCache S J → Option (AuthCache S J)
  put now key ttl value c = elim (set now key value ttl c.l1) [
    | none ↦ none
    | some l1 ↦ some (setex_value key ttl value (with_l1 c l1))
  ]

  abbrev pub deleted_keys : List Text → AuthCache S J → AuthCache S J
  deleted_keys keys c = elim c.redis [ none ↦ c | some s ↦ with_redis c (R.delete_keys keys s) ]

  -- The body that the functions invalidating one key share.
  unfoldable pub drop_key : Text → AuthCache S J → AuthCache S J
  drop_key key c = deleted_keys (key ∷ []) (with_l1 c (delete key c.l1))

  abbrev pub delete_found : AuthCache S J → Option (List Text) → AuthCache S J
  delete_found c none = c
  delete_found c (some []) = c
  delete_found c (some (k ∷ ks)) = deleted_keys (k ∷ ks) c

  -- The body that the functions invalidating a prefix share.
  unfoldable pub drop_prefix : Text → AuthCache S J → AuthCache S J
  drop_prefix prefix c =
      let c' = with_l1 c (delete_by_prefix prefix c.l1) in
      elim c'.redis [ none ↦ c' | some s ↦ delete_found c' (R.keys_with prefix s) ]

  -- Without the hashed password.
  abbrev pub safe : List (Text × J) → List (Text × J)
  safe [] = []
  safe ((k, v) ∷ user) = if k == codes "hashed_password" then safe user else (k, v) ∷ safe user

  module _ (settings : Settings) where
    abbrev pub get_profile : ℕ → Text → AuthCache S J → Option (Value J) × AuthCache S J
    get_profile now identifier c =
        fetch now (build_key settings c.scope (codes "profile") identifier) c.ttl c

    abbrev pub set_profile : ℕ → Text → List (Text × J) → AuthCache S J → Option (AuthCache S J)
    set_profile now identifier user c =
        put now (build_key settings c.scope (codes "profile") identifier) c.ttl
          (profile (safe user)) c

    abbrev pub invalidate_profile : Text → AuthCache S J → AuthCache S J
    invalidate_profile identifier c =
        drop_key (build_key settings c.scope (codes "profile") identifier) c

    abbrev pub invalidate_profile_by_prefix : Text → AuthCache S J → AuthCache S J
    invalidate_profile_by_prefix prefix c =
        drop_prefix (build_key settings c.scope (codes "profile") prefix) c

    abbrev pub get_permissions : ℕ → Text → AuthCache S J → Option (Value J) × AuthCache S J
    get_permissions now user_id c =
        fetch now (build_key settings c.scope (codes "permissions") user_id)
          settings.permissions_ttl c

    abbrev pub set_permissions : ℕ → Text → List J → AuthCache S J → Option (AuthCache S J)
    set_permissions now user_id permissions c =
        put now (build_key settings c.scope (codes "permissions") user_id) settings.permissions_ttl
          (records permissions) c

    abbrev pub invalidate_permissions : Text → AuthCache S J → AuthCache S J
    invalidate_permissions user_id c =
        drop_key (build_key settings c.scope (codes "permissions") user_id) c

    -- On `user_auth_cache`, whose scope is "user".
    abbrev pub invalidate_user_cache : Text → Text → AuthCache S J → AuthCache S J
    invalidate_user_cache uid email c =
        invalidate_permissions uid (invalidate_profile email (invalidate_profile uid c))

    abbrev pub invalidate_all_permissions : AuthCache S J → AuthCache S J
    invalidate_all_permissions c =
        drop_prefix (build_prefix settings (codes "user") (codes "permissions")) c

    -- On `_role_cache`.
    abbrev pub get_cached_roles : ℕ → Text → AuthCache S J → Option (Value J) × AuthCache S J
    get_cached_roles now user_id c =
        fetch now (build_key settings (codes "user") (codes "roles") user_id) settings.user_ttl c

    abbrev pub set_cached_roles : ℕ → Text → List J → AuthCache S J → Option (AuthCache S J)
    set_cached_roles now user_id roles c =
        put now (build_key settings (codes "user") (codes "roles") user_id) settings.user_ttl
          (records roles) c

    abbrev pub invalidate_user_roles : Text → AuthCache S J → AuthCache S J
    invalidate_user_roles uid c = drop_key (build_key settings (codes "user") (codes "roles") uid) c

    abbrev pub invalidate_all_roles : AuthCache S J → AuthCache S J
    invalidate_all_roles c = drop_prefix (build_prefix settings (codes "user") (codes "roles")) c
