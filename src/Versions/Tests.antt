-- ===== src/Versions/Tests.antt =====
-- Two versions of one digit, negotiated and deprecated.
use swx.Prelude.{◌-◌, ◌+◌, Option, none, some, List, [], ◌∷◌, ◌≡◌, refl, ltb, if◌then◌else◌}
use swx.Prelude.Int.{ℤ, pos, pos_part}
use swx.Prelude.Text.{Text, codes}
use swx.Versions.Parse.{
  VersionStatus, deprecated, default_version_status, compare_versions, parse_version,
  get_latest_version, negotiate_version, is_valid_version,
}
use swx.Versions.Router.{
  VersionInfo, VersionedRouter, new_versioned_router, deprecate_version, get_version_info, found,
}

-- `int` of one digit.
abbrev digit : Text → Option ℤ
digit (c ∷ []) = if ltb 47 c then some (pos (c - 48)) else none
digit _ = none

abbrev both : List Text
both = codes "v1" ∷ codes "v2" ∷ []

minor_counts : compare_versions digit (λ s. s) (codes "v2.1") (codes "2") ≡ pos 1
unfolding compare_versions parse_version
minor_counts = refl

newest : get_latest_version digit (λ s. s) both ≡ some (codes "v2")
unfolding get_latest_version parse_version
newest = refl

-- The number in `Accept` counts where the header names no supported version.
by_accept :
    negotiate_version digit
      (λ s. s)
      (λ n. (pos_part n + 48) ∷ [])
      (some (codes "v7"))
      (some (codes "1.0"))
      none
      both
      none
    ≡ some (codes "v1")
unfolding negotiate_version is_valid_version parse_version
by_accept = refl

status_of : Option VersionInfo → Option VersionStatus
status_of info = found (λ i. i.status) info

deprecated_first : Option VersionedRouter → Option VersionStatus
unfolding status_of get_version_info
deprecated_first none = none
deprecated_first (some r) = status_of (get_version_info (codes "v1") r)

told_deprecated :
    deprecated_first
      (elim (new_versioned_router digit
          (λ s. s)
          (codes "/users")
          both
          none
          none
          default_version_status)
        as (λ _. Option VersionedRouter) [
          | none ↦ none
          | some r ↦ deprecate_version (codes "v1") none none r
        ])
    ≡ some deprecated
unfolding deprecated_first status_of new_versioned_router deprecate_version get_version_info
    get_latest_version parse_version
told_deprecated = refl
