-- ===== src/Billing/Entitlements.antt =====
-- `EntitlementResolver` of swx_core/services/billing/entitlement_resolver.py, `EntitlementService` of
-- quota_service.py, and `FeatureRegistry` of feature_registry.py. They only read, so the tables are
-- an argument. Quantities are not negative.
use swx.Prelude.{
  ℕ, ◌+◌, ◌-◌, Bool, true, false, ◌&&◌, ◌||◌, Option, none, some, List, [], ◌∷◌, String, string_eq,
  nat_eq, ◌==◌, filter, ltb, leb, if◌then◌else◌, map,
}
use swx.Prelude.Int.{ℤ, pos, negsuc, ◌-ℤ◌, ℤ_beq}
use swx.Prelude.Dict.{lookup, insert}
use swx.Billing.Model.{
  BillingAccountType, same_type, is_active, BillingAccount, Subscription, Tables, Error, http,
  Result, ok, err, one_or_none,
}

pub data FeatureType : Type 0 where
  boolean : FeatureType
  quota : FeatureType
  metered : FeatureType

pub record FeatureDefinition : Type 0 where
  pub key : String
  pub name : String
  pub description : String
  pub feature_type : FeatureType
  pub unit : Option String

-- `FeatureRegistry`
abbrev pub register :
    FeatureDefinition → List (String × FeatureDefinition) → List (String × FeatureDefinition)
register definition features = insert definition.key definition features

abbrev pub list_all : List (String × FeatureDefinition) → List FeatureDefinition
list_all features = map (λ f. f.1) features

-- A row of `PlanEntitlement` joined with its feature.
pub record PlanEntitlement : Type 0 where
  pub plan_id : ℕ
  pub feature_key : String
  pub value : String

-- A row of `UsageRecord` joined with its feature.
pub record UsageRecord : Type 0 where
  pub account_id : ℕ
  pub feature_key : String
  pub subscription_id : ℕ
  pub quantity : ℕ
  pub period_start : ℕ
  pub period_end : ℕ

-- The other tables, the setting `TRIAL_PLAN_KEY`, the time, and Python's `int`, which gives `none`
-- for a `ValueError`, and `lower`.
pub record Catalog : Type 0 where
  pub tables : Tables
  pub entitlements : List PlanEntitlement
  pub usage : List UsageRecord
  pub features : List (String × FeatureDefinition)
  pub trial_plan_key : String
  pub now : ℕ
  pub int : String → Option ℤ
  pub lower : String → String

-- How `require_quota` ends: with what is left, with `QuotaExceededError`, or with an error of a query.
pub data Required : Type 0 where
  answered : ℕ → Required
  quota_exceeded : String → ℤ → ℤ → Required
  failed : Error → Required

abbrev pub unlimited_quota : ℕ
unlimited_quota = 999999999

abbrev pub chain : {A B : Type 0} → Result A → (A → Result B) → Result B
chain (ok a) f = f a
chain (err e) f = err e

abbrev pub not_before : Option ℕ → ℕ → Bool
not_before none now = false
not_before (some t) now = leb now t

abbrev pub is_after : Option ℕ → ℕ → Bool
is_after none now = false
is_after (some t) now = ltb now t

-- `int(s)` where a `ValueError` counts as 0.
abbrev pub int_or_zero : Option ℤ → ℤ
int_or_zero none = pos 0
int_or_zero (some n) = n

abbrev pub total : List UsageRecord → ℕ
total [] = 0
total (u ∷ us) = u.quantity + total us

-- What a limit leaves of a use.
abbrev pub remaining_of : ℤ → ℕ → ℕ
remaining_of (pos limit) used = limit - used
remaining_of (negsuc n) used = if n == 0 then unlimited_quota else 0

module _ (c : Catalog) where
  abbrev pub grants : ℕ → Subscription → Bool
  grants account s =
      s.account_id == account
      && not_before s.current_period_end c.now
      && (is_active s.status || is_after s.trial_ends_at c.now)

  -- `_get_account_and_subscription`, `none` where either is missing.
  unfoldable pub get_account_and_subscription :
      ℕ → BillingAccountType → Result (Option (BillingAccount × Subscription))
  get_account_and_subscription owner type =
      chain
        (one_or_none
          (filter (λ a. a.owner_id == owner && same_type a.account_type type) c.tables.accounts))
        (λ found. elim found [
          | none ↦ ok none
          | some account ↦
              chain (one_or_none (filter (grants account.id) c.tables.subscriptions))
                (λ row. ok (elim row [ none ↦ none | some s ↦ some (account, s) ]))
        ])

  -- `_resolve_effective_plan_id`
  unfoldable pub resolve_effective_plan_id : Subscription → Result ℕ
  resolve_effective_plan_id s =
      if is_after s.trial_ends_at c.now
      then chain (one_or_none (filter (λ p. p.key == c.trial_plan_key) c.tables.plans))
          (λ found. ok (elim found [ none ↦ s.plan_id | some plan ↦ plan.id ]))
      else ok s.plan_id

  abbrev pub value_of : ℕ → String → Result (Option String)
  value_of plan feature_key =
      chain
        (one_or_none
          (filter (λ e. e.plan_id == plan && e.feature_key == feature_key) c.entitlements))
        (λ found. ok (elim found [ none ↦ none | some e ↦ some e.value ]))

  unfoldable pub get_entitlement : ℕ → BillingAccountType → String → Result (Option String)
  unfolding get_account_and_subscription resolve_effective_plan_id
  get_entitlement owner type feature_key = chain (get_account_and_subscription owner type) (λ found.
      elim found [
        | none ↦ ok none
        | some (account, s) ↦
            chain (resolve_effective_plan_id s) (λ plan. value_of plan feature_key)
      ])

  abbrev pub used_by : BillingAccount → Subscription → String → List UsageRecord
  used_by account s feature_key =
      filter
        (λ u.
          u.account_id == account.id
          && u.feature_key == feature_key
          && u.subscription_id == s.id
          && leb s.current_period_start u.period_start
          && not_before s.current_period_end u.period_end)
        c.usage

  abbrev pub remaining_under : BillingAccount → Subscription → String → Option String → ℕ
  remaining_under account s feature_key none = 0
  remaining_under account s feature_key (some value) = elim (c.int value) [
    | none ↦ 0
    | some limit ↦ remaining_of limit (total (used_by account s feature_key))
  ]

  unfoldable pub get_remaining_quota : ℕ → BillingAccountType → String → Result ℕ
  unfolding get_account_and_subscription resolve_effective_plan_id
  get_remaining_quota owner type feature_key =
      chain (get_account_and_subscription owner type) (λ found. elim found [
        | none ↦ ok 0
        | some (account, s) ↦ chain (resolve_effective_plan_id s) (λ plan.
            chain (value_of plan feature_key)
              (λ value. ok (remaining_under account s feature_key value)))
      ])

  abbrev pub is_true : Option String → Bool
  is_true none = false
  is_true (some value) = c.lower value == "true"

  unfoldable pub has : ℕ → BillingAccountType → String → Result Bool
  unfolding get_entitlement get_remaining_quota
  has owner type feature_key = elim (lookup feature_key c.features) [
    | none ↦ ok false
    | some definition ↦ elim definition.feature_type [
      | boolean ↦ chain (get_entitlement owner type feature_key) (λ value. ok (is_true value))
      | quota ↦ chain (get_remaining_quota owner type feature_key) (λ left. ok (ltb 0 left))
      | metered ↦ ok false
    ]
  ]

  -- `_get_limit`
  unfoldable pub get_limit : ℕ → BillingAccountType → String → Result ℤ
  unfolding get_entitlement
  get_limit owner type feature_key =
      chain (get_entitlement owner type feature_key)
        (λ value. ok (elim value [ none ↦ pos 0 | some v ↦ int_or_zero (c.int v) ]))

  abbrev pub refused : String → ℕ → Result ℤ → Required
  refused feature_key remaining (err e) = failed e
  refused feature_key remaining (ok limit) =
      quota_exceeded feature_key limit
        (if ℤ_beq limit (negsuc 0) then pos remaining else limit -ℤ pos remaining)

  abbrev pub required : String → ℕ → Result ℤ → Result ℕ → Required
  required feature_key quantity limit (err e) = failed e
  required feature_key quantity limit (ok remaining) =
      if ltb remaining quantity
      then refused feature_key remaining limit
      else answered (remaining - quantity)

  unfoldable pub require_quota : ℕ → BillingAccountType → String → ℕ → Required
  unfolding get_remaining_quota get_limit
  require_quota owner type feature_key quantity =
      required feature_key quantity (get_limit owner type feature_key)
        (get_remaining_quota owner type feature_key)

  -- `require_feature`, and `enforce_entitlement` for an owner
  unfoldable pub require_feature : ℕ → BillingAccountType → String → Result Bool
  unfolding has
  require_feature owner type feature_key =
      chain (has owner type feature_key) (λ allowed. if allowed then ok true else err (http 403))
