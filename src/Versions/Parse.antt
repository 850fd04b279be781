-- ===== src/Versions/Parse.antt =====
-- Versions and their comparison, of swx_core/utils/versioning.py. Python's `int` and `lower` are
-- parameters, `int` with `none` for a `ValueError`.
use swx.Prelude.{
  Bool, not, ◌||◌, ◌&&◌, Option, none, some, List, [], ◌∷◌, ◌++◌, any, nat_eq, ◌==◌, if◌then◌else◌,
}
use swx.Prelude.Int.{ℤ, pos, negsuc, ltb_ℤ}
use swx.Prelude.Text.{Text, text_eq, codes, split}
use swx.Prelude.Dict.{lookup, insert}

pub data VersionStatus : Type 0 where
  stable : VersionStatus
  deprecated : VersionStatus
  sunset : VersionStatus
  beta : VersionStatus
  internal : VersionStatus

abbrev pub Statuses : Type 0
Statuses = List (Text × VersionStatus)

-- `DEFAULT_VERSION_STATUS`
abbrev pub default_version_status : Statuses
default_version_status = (codes "v1", stable) ∷ (codes "v2", stable) ∷ []

abbrev pub or_stable : Option VersionStatus → VersionStatus
or_stable none = stable
or_stable (some status) = status

unfoldable pub get_version_status : Text → Statuses → VersionStatus
get_version_status version statuses = or_stable (lookup version statuses)

unfoldable pub set_version_status : Text → VersionStatus → Statuses → Statuses
set_version_status version status statuses = insert version status statuses

-- `version in allowed_versions`
unfoldable pub is_valid_version : Text → List Text → Bool
is_valid_version version allowed = any (λ v. v == version) allowed

-- `s.lstrip("v")`
abbrev pub strip_v : Text → Text
strip_v [] = []
strip_v (c ∷ s) = if c == 118 then strip_v s else c ∷ s

abbrev pub Version : Type 0
Version = ℤ × ℤ

-- The order of tuples.
abbrev pub lower_version : Version → Version → Bool
lower_version (a, b) (c, d) = ltb_ℤ a c || (not (ltb_ℤ c a) && ltb_ℤ b d)

abbrev pub both_or_zero : Option ℤ → Option ℤ → Version
both_or_zero (some major) (some minor) = (major, minor)
both_or_zero _ _ = (pos 0, pos 0)

-- How two versions compare: -1, 0 or 1.
abbrev pub compared : Version → Version → ℤ
compared (a, b) (c, d) =
    if ltb_ℤ a c
    then negsuc 0
    else if ltb_ℤ c a
    then pos 1
    else if ltb_ℤ b d
    then negsuc 0
    else if ltb_ℤ d b
    then pos 1
    else pos 0

module _ (int : Text → Option ℤ) (lower : Text → Text) where
  abbrev pub parsed : List Text → Version
  parsed [] = (pos 0, pos 0)
  parsed (major ∷ []) = both_or_zero (int major) (some (pos 0))
  parsed (major ∷ minor ∷ more) = both_or_zero (int major) (int minor)

  unfoldable pub parse_version : Text → Version
  parse_version version = parsed (split (strip_v (lower version)))

  unfoldable pub compare_versions : Text → Text → ℤ
  unfolding parse_version
  compare_versions v1 v2 = compared (parse_version v1) (parse_version v2)

  -- `max(versions, key=parse_version)` from the first on: the first of the greatest.
  abbrev pub latest_from : Text → List Text → Text
  latest_from best [] = best
  latest_from best (v ∷ versions) =
      latest_from (if lower_version (parse_version best) (parse_version v) then v else best)
        versions

  -- `none` for the `ValueError` on no versions.
  unfoldable pub get_latest_version : List Text → Option Text
  unfolding parse_version
  get_latest_version [] = none
  get_latest_version (v ∷ versions) = some (latest_from v versions)

  unfoldable pub check_version_compatibility : Text → Text → Bool
  unfolding compare_versions
  check_version_compatibility requested minimum =
      not (ltb_ℤ (compare_versions requested minimum) (pos 0))

  abbrev pub valid_or : Option Text → List Text → Option Text → Option Text
  valid_or none supported next = next
  valid_or (some []) supported next = next
  valid_or (some version) supported next =
      if is_valid_version version supported then some version else next

  -- `negotiate_version`: the header, the number after `version=` in `Accept` as the regular
  -- expression finds it, the query parameter, the default; `major` writes a number in digits.
  unfoldable pub negotiate_version :
      (ℤ → Text) → Option Text → Option Text → Option Text → List Text → Option Text → Option Text
  unfolding is_valid_version parse_version get_latest_version
  negotiate_version major header accepted param supported default = valid_or header supported (
      valid_or
        (elim accepted [
          | none ↦ none
          | some number ↦ some (codes "v" ++ major (parse_version (codes "v" ++ number)).0)
        ])
        supported
        (valid_or param supported (elim default [
          | none ↦ get_latest_version supported
          | some version ↦ if version == [] then get_latest_version supported else some version
        ])))
