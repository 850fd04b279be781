-- ===== src/Versions/Router.antt =====
-- `VersionedRouter`, `create_versioned_router` and `version_route` of swx_core/utils/versioning.py. Of
-- a router of the web framework only what is set here is kept: its prefix, and what a deprecation
-- notes. The list of versions is taken not to be shared with the caller.
use swx.Prelude.{
  Bool, true, false, Option, none, some, List, [], ◌∷◌, ◌++◌, map, nat_eq, if◌then◌else◌,
}
use swx.Prelude.Int.{ℤ}
use swx.Prelude.Text.{Text, text_eq, codes}
use swx.Prelude.Dict.{lookup, contains, insert}
use swx.Versions.Parse.{
  VersionStatus, deprecated, Statuses, or_stable, get_version_status, get_latest_version,
}

pub record VersionInfo : Type 0 where
  pub version : Text
  pub status : VersionStatus
  pub sunset_date : Option Text
  pub description : Text
  pub migration_guide_url : Option Text

pub record Router : Type 0 where
  pub prefix : Text
  pub deprecated : Bool
  pub sunset_date : Option Text
  pub migration_guide : Option Text

abbrev pub new_router : Text → Text → Router
new_router version prefix = record {
  prefix = codes "/" ++ version ++ prefix;
  deprecated = false;
  sunset_date = none;
  migration_guide = none;
}

pub record VersionedRouter : Type 0 where
  pub prefix : Text
  pub versions : List Text
  pub default_version : Text
  pub version_statuses : Statuses
  pub routers : List (Text × Router)

-- The loop over the versions.
abbrev pub routers_of : List Text → Text → List (Text × Router) → List (Text × Router)
routers_of [] prefix routers = routers
routers_of (v ∷ versions) prefix routers =
    routers_of versions prefix (insert v (new_router v prefix) routers)

abbrev pub default_or : Option Text → Option Text → Option Text
default_or none latest = latest
default_or (some []) latest = latest
default_or (some version) latest = some version

abbrev pub statuses_or : Option Statuses → Statuses → Statuses
statuses_or none defaults = defaults
statuses_or (some []) defaults = defaults
statuses_or (some statuses) defaults = statuses

-- A lookup that raises where the key is missing.
abbrev pub found : {A B : Type 0} → (A → B) → Option A → Option B
found f none = none
found f (some a) = some (f a)

module _ (int : Text → Option ℤ) (lower : Text → Text) where
  -- `__init__`, for a prefix without a final `/`; `none` for the `ValueError` on no versions.
  unfoldable pub new_versioned_router :
      Text → List Text → Option Text → Option Statuses → Statuses → Option VersionedRouter
  unfolding get_latest_version
  new_versioned_router prefix versions default statuses defaults =
      found
        (λ version. record {
          prefix = prefix;
          versions = versions;
          default_version = version;
          version_statuses = statuses_or statuses defaults;
          routers = routers_of versions prefix [];
        })
        (default_or default (get_latest_version int lower versions))

  abbrev pub with_default : List (Text × Router) → Option Text → Option (List (Text × Router))
  with_default routers none = none
  with_default routers (some version) =
      found (λ r. insert (codes "default") r routers) (lookup version routers)

  -- `none` where there are no versions or the default is not among them.
  unfoldable pub create_versioned_router :
      Text → List Text → Option Text → Option (List (Text × Router))
  unfolding get_latest_version
  create_versioned_router prefix versions default =
      let routers = routers_of versions prefix [] in
      elim default [
        | none ↦ with_default routers (get_latest_version int lower versions)
        | some version ↦ with_default routers (some version)
      ]

-- The handler that `version_route` picks for the version of a path, `none` for its status 400.
unfoldable pub version_route : {H : Type 0} → List (Text × H) → Text → Option Text → Option H
version_route versions default none = lookup default versions
version_route versions default (some version) = lookup version versions

unfoldable pub get_router : Text → VersionedRouter → Option Router
get_router version r = lookup version r.routers

unfoldable pub get_routers : VersionedRouter → List (Text × Router)
get_routers r = r.routers

unfoldable pub add_version : Text → VersionStatus → VersionedRouter → Option VersionedRouter
add_version version status r =
    if contains version r.routers
    then none
    else some (record r {
      routers = insert version (new_router version r.prefix) r.routers;
      versions = r.versions ++ version ∷ [];
      version_statuses = insert version status r.version_statuses;
    })

unfoldable pub deprecate_version :
    Text → Option Text → Option Text → VersionedRouter → Option VersionedRouter
deprecate_version version sunset_date migration_guide r =
    found
      (λ router. record r {
        version_statuses = insert version deprecated r.version_statuses;
        routers =
            insert version
              (record router {
                deprecated = true;
                sunset_date = sunset_date;
                migration_guide = migration_guide;
              })
              r.routers;
      })
      (lookup version r.routers)

unfoldable pub get_version_info : Text → VersionedRouter → Option VersionInfo
get_version_info version r =
    found
      (λ router. record {
        version = version;
        status = or_stable (lookup version r.version_statuses);
        sunset_date = router.sunset_date;
        description = codes "API version " ++ (version ++ (codes " for " ++ r.prefix));
        migration_guide_url = router.migration_guide;
      })
      (lookup version r.routers)

unfoldable pub list_versions : List Text → Statuses → List VersionInfo
unfolding get_version_status
list_versions versions statuses =
    map
      (λ v. record {
        version = v;
        status = get_version_status v statuses;
        sunset_date = none;
        description = codes "API version " ++ v;
        migration_guide_url = none;
      })
      versions
