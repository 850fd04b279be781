-- ===== src/RateLimit/Limits.antt =====
-- The registry of limits by plan, of swx_core/services/rate_limit/limit_registry.py, and their
-- overrides, of rate_limit_override.py.
use swx.Prelude.{
  ℕ, ◌≤◌, Bool, true, false, ◌||◌, Option, none, some, List, [], ◌∷◌, ◌++◌, String, string_eq,
  nat_eq, ◌==◌, ltb, arith, if◌then◌else◌,
}
use swx.Prelude.Text.{Text, codes, text_eq, starts_with}
use swx.Prelude.Dict.{lookup, insert}

abbrev pub limits : ℕ → ℕ → ℕ → List (String × ℕ)
limits burst sustained daily = ("burst", burst) ∷ ("sustained", sustained) ∷ ("daily", daily) ∷ []

abbrev pub Classes : Type 0
Classes = List (String × List (String × ℕ))

abbrev pub Features : Type 0
Features = List (String × Classes)

-- `RATE_LIMITS`
abbrev pub rate_limits : List (String × Features)
rate_limits =
    (
      "free",
      (
        "api_requests",
        ("read", limits 10000 100000 1000000)
            ∷ ("write", limits 5000 50000 500000)
            ∷ ("delete", limits 2000 10000 100000)
            ∷ [],
      )
          ∷ ("billing", ("read", limits 1000 10000 100000) ∷ ("write", limits 500 5000 50000) ∷ [])
          ∷ ("search", ("read", limits 1000 10000 100000) ∷ [])
          ∷ ("export", ("write", limits 500 2000 10000) ∷ [])
          ∷ [],
    )
    ∷ (
      "pro",
      (
        "api_requests",
        ("read", limits 200 10000 100000)
            ∷ ("write", limits 100 5000 50000)
            ∷ ("delete", limits 50 1000 10000)
            ∷ [],
      )
          ∷ ("billing", ("read", limits 50 1000 10000) ∷ ("write", limits 20 500 5000) ∷ [])
          ∷ ("search", ("read", limits 100 5000 50000) ∷ [])
          ∷ ("export", ("write", limits 20 100 1000) ∷ [])
          ∷ [],
    )
    ∷ (
      "team",
      (
        "api_requests",
        ("read", limits 500 50000 500000)
            ∷ ("write", limits 200 20000 200000)
            ∷ ("delete", limits 100 5000 50000)
            ∷ [],
      )
          ∷ ("billing", ("read", limits 100 5000 50000) ∷ ("write", limits 50 2000 20000) ∷ [])
          ∷ ("search", ("read", limits 200 20000 200000) ∷ [])
          ∷ ("export", ("write", limits 50 500 5000) ∷ [])
          ∷ [],
    )
    ∷ (
      "enterprise",
      (
        "api_requests",
        ("read", limits 1000 100000 1000000)
            ∷ ("write", limits 500 50000 500000)
            ∷ ("delete", limits 200 10000 100000)
            ∷ [],
      )
          ∷ ("billing", ("read", limits 200 10000 100000) ∷ ("write", limits 100 5000 50000) ∷ [])
          ∷ ("search", ("read", limits 500 50000 500000) ∷ [])
          ∷ ("export", ("write", limits 100 2000 20000) ∷ [])
          ∷ [],
    )
    ∷ (
      "admin",
      (
        "api_requests",
        ("read", limits 1000 100000 1000000)
            ∷ ("write", limits 500 50000 500000)
            ∷ ("delete", limits 200 10000 100000)
            ∷ [],
      )
          ∷ ("billing", ("read", limits 500 50000 500000) ∷ ("write", limits 200 20000 200000) ∷ [])
          ∷ ("search", ("read", limits 1000 100000 1000000) ∷ [])
          ∷ ("export", ("write", limits 200 5000 50000) ∷ [])
          ∷ [],
    )
    ∷ (
      "system",
      (
        "api_requests",
        ("read", limits 10000 1000000 10000000)
            ∷ ("write", limits 5000 500000 5000000)
            ∷ ("delete", limits 1000 100000 1000000)
            ∷ [],
      )
          ∷ [],
    )
    ∷ (
      "anonymous",
      (
        "api_requests",
        ("read", limits 10000 100000 1000000) ∷ ("write", limits 5000 50000 500000) ∷ [],
      )
          ∷ [],
    )
    ∷ []

-- `d.get(k, {})`
abbrev pub get_dict : {A : Type 0} → String → List (String × List A) → List A
get_dict k d = elim (lookup k d) [ none ↦ [] | some e ↦ e ]

abbrev pub get_number : String → List (String × ℕ) → ℕ
get_number k d = elim (lookup k d) [ none ↦ 0 | some n ↦ n ]

-- `RATE_LIMITS.get(plan, {}).get(feature, {}).get(endpoint_class, {}).get(limit_type, 0)`
abbrev pub limit_in : List (String × Features) → String → String → String → String → ℕ
limit_in table plan feature endpoint_class limit_type =
    get_number limit_type (get_dict endpoint_class (get_dict feature (get_dict plan table)))

-- What replaces a limit that is missing.
abbrev pub fallback_or_one : ℕ → ℕ
fallback_or_one fallback = if ltb 0 fallback then fallback else 1

abbrev pub limit_or : ℕ → ℕ → ℕ
limit_or limit fallback = if limit == 0 then fallback_or_one fallback else limit

unfoldable pub get_limit : String → String → String → String → ℕ
get_limit plan feature endpoint_class limit_type =
    limit_or (limit_in rate_limits plan feature endpoint_class limit_type)
      (limit_in rate_limits "free" "api_requests" endpoint_class limit_type)

unfoldable pub resolve_plan : String → Option String → String
resolve_plan actor_type billing_plan =
    if actor_type == "system" || actor_type == "admin"
    then actor_type
    else if actor_type == "anonymous"
    then "anonymous"
    else if actor_type == "user"
    then elim billing_plan [ none ↦ "free" | some plan ↦ if plan == "" then "free" else plan ]
    else "anonymous"

-- The method in upper case.
unfoldable pub get_endpoint_class : String → String
get_endpoint_class method_upper =
    if method_upper == "GET"
    then "read"
    else if method_upper == "POST" || method_upper == "PUT" || method_upper == "PATCH"
    then "write"
    else if method_upper == "DELETE"
    then "delete"
    else "read"

-- `part in path`
abbrev pub has_part : Text → Text → Bool
has_part path part = starts_with path part || later path
  where
    later : Text → Bool
    later [] = false
    later (_ ∷ rest) = starts_with rest part || later rest

-- The path in lower case.
unfoldable pub get_feature_from_path : Text → String
get_feature_from_path path_lower =
    if has_part path_lower (codes "/billing")
    then "billing"
    else if has_part path_lower (codes "/search") || has_part path_lower (codes "/query")
    then "search"
    else if has_part path_lower (codes "/export") || has_part path_lower (codes "/download")
    then "export"
    else "api_requests"

-- `_overrides` and `_loaded`; the key of an override is its four parts.
pub record Overrides : Type 0 where
  pub overrides : List (Text × ℕ)
  pub loaded : Bool

abbrev pub override_key : Text → Text → Text → Text → Text
override_key plan feature endpoint_class limit_type =
    codes "rate_limit."
    ++ (plan
        ++ (codes "." ++ (feature ++ (codes "." ++ (endpoint_class ++ (codes "." ++ limit_type))))))

abbrev pub all_inserted : List (Text × ℕ) → List (Text × ℕ) → List (Text × ℕ)
all_inserted [] d = d
all_inserted ((k, v) ∷ configs) d = all_inserted configs (insert k v d)

-- The rows of the database with their numbers, `none` where reading them raises.
unfoldable pub load_overrides : Option (List (Text × ℕ)) → Overrides → Overrides
load_overrides none o = record o { loaded = true }
load_overrides (some configs) o = record { overrides = all_inserted configs []; loaded = true }

unfoldable pub get_override : Text → Text → Text → Text → Overrides → Option ℕ
get_override plan feature endpoint_class limit_type o =
    lookup (override_key plan feature endpoint_class limit_type) o.overrides

unfoldable pub is_loaded : Overrides → Bool
is_loaded o = o.loaded

unfoldable pub reload_overrides : Option (List (Text × ℕ)) → Overrides → Overrides
unfolding load_overrides
reload_overrides configs o = load_overrides configs (record o { loaded = false })

unfoldable pub clear_overrides : Overrides → Overrides
clear_overrides o = record { overrides = []; loaded = false }

limit_or-positive : (limit fallback : ℕ) → 1 ≤ limit_or limit fallback
limit_or-positive limit fallback = ground arith

-- Whatever is asked for, known or not, the limit is positive.
pub get_limit-positive :
    (plan feature endpoint_class limit_type : String)
    → 1 ≤ get_limit plan feature endpoint_class limit_type
unfolding get_limit
get_limit-positive plan feature endpoint_class limit_type =
    limit_or-positive (limit_in rate_limits plan feature endpoint_class limit_type)
      (limit_in rate_limits "free" "api_requests" endpoint_class limit_type)
