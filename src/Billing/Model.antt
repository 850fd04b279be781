-- ===== src/Billing/Model.antt =====
-- The tables of swx_core/models/billing.py that the subscriptions use, the queries of
-- swx_core/repositories/billing_repository.py, and the session. Identifiers are numbers, of which
-- `next_id` is the next new one; times are ticks, of which `day` make a day.
use swx.Prelude.{
  ℕ, Bool, true, false, ◌&&◌, Option, none, some, List, [], ◌∷◌, String, string_eq, nat_eq, ◌==◌,
  filter, if◌then◌else◌,
}

pub data BillingAccountType : Type 0 where
  user : BillingAccountType
  team : BillingAccountType
  organization : BillingAccountType

abbrev pub same_type : BillingAccountType → BillingAccountType → Bool
same_type user user = true
same_type team team = true
same_type organization organization = true
same_type _ _ = false

pub data BillingInterval : Type 0 where
  weekly : BillingInterval
  monthly : BillingInterval
  yearly : BillingInterval

-- `BILLING_INTERVAL_DAYS`
abbrev pub interval_days : BillingInterval → ℕ
interval_days weekly = 7
interval_days monthly = 30
interval_days yearly = 365

pub data SubscriptionStatus : Type 0 where
  trialing : SubscriptionStatus
  active : SubscriptionStatus
  past_due : SubscriptionStatus
  canceled : SubscriptionStatus
  unpaid : SubscriptionStatus
  expired : SubscriptionStatus

-- `status in ACTIVE_STATUSES`
abbrev pub is_active : SubscriptionStatus → Bool
is_active trialing = true
is_active active = true
is_active past_due = true
is_active _ = false

-- `status in TERMINAL_STATUSES`
abbrev pub is_terminal : SubscriptionStatus → Bool
is_terminal canceled = true
is_terminal expired = true
is_terminal _ = false

abbrev pub is_canceled : SubscriptionStatus → Bool
is_canceled canceled = true
is_canceled _ = false

pub record BillingAccount : Type 0 where
  pub id : ℕ
  pub owner_id : ℕ
  pub account_type : BillingAccountType
  pub billing_email : Option String
  pub stripe_customer_id : Option String

pub record Plan : Type 0 where
  pub id : ℕ
  pub key : String
  pub billing_interval : BillingInterval
  pub amount : Option ℕ
  pub stripe_price_id : Option String

pub record Subscription : Type 0 where
  pub id : ℕ
  pub account_id : ℕ
  pub plan_id : ℕ
  pub status : SubscriptionStatus
  pub current_period_start : ℕ
  pub current_period_end : Option ℕ
  pub cancel_at_period_end : Bool
  pub canceled_at : Option ℕ
  pub ended_at : Option ℕ
  pub stripe_subscription_id : Option String
  pub trial_ends_at : Option ℕ
  pub grace_period_ends_at : Option ℕ
  pub renewal_failure_count : ℕ

pub record Tables : Type 0 where
  pub accounts : List BillingAccount
  pub plans : List Plan
  pub subscriptions : List Subscription
  pub next_id : ℕ

-- What the event bus and the audit log are told: a name and the subscriptions it is about.
pub record Notice : Type 0 where
  pub name : String
  pub about : List ℕ

-- The rows as the session sees them, those that are committed, and what was announced.
pub record Session : Type 0 where
  pub tables : Tables
  pub committed : Tables
  pub notices : List Notice

pub data Error : Type 0 where
  http : ℕ → Error
  multiple_results : Error
  commit_failed : Error

pub data Result (A : Type 0) : Type 0 where
  ok : A → Result A
  err : Error → Result A

abbrev pub M : Type 0 → Type 0
M A = Session → Result A × Session

abbrev pub and_then : {A B : Type 0} → (A → M B) → Result A × Session → Result B × Session
and_then f (ok a, s) = f a s
and_then f (err e, s) = (err e, s)

infixl 5 ◌>>=◌
abbrev pub ◌>>=◌ : {A B : Type 0} → M A → (A → M B) → M B
◌>>=◌ m f s = and_then f (m s)

abbrev pub pure : {A : Type 0} → A → M A
pure a s = (ok a, s)

abbrev pub raise : {A : Type 0} → Error → M A
raise e s = (err e, s)

-- `utc_now`, which stands still during a call, whether the database takes a commit, and Stripe.
pub record Env : Type 0 where
  pub now : ℕ
  pub day : ℕ
  pub accepts : Tables → Bool

abbrev pub option_is : Option String → String → Bool
option_is none key = false
option_is (some k) key = k == key

-- `scalar_one_or_none`
abbrev pub one_or_none : {A : Type 0} → List A → Result (Option A)
one_or_none [] = ok none
one_or_none (a ∷ []) = ok (some a)
one_or_none (a ∷ b ∷ as') = err multiple_results

abbrev pub query : {A : Type 0} → (Tables → List A) → M (Option A)
query rows s = (one_or_none (rows s.tables), s)

abbrev pub find_id : ℕ → List Subscription → Option Subscription
find_id id [] = none
find_id id (s ∷ rows) = if s.id == id then some s else find_id id rows

-- `session.get(Subscription, id)`
unfoldable pub get_subscription_by_id : ℕ → M (Option Subscription)
get_subscription_by_id id s = (ok (find_id id s.tables.subscriptions), s)

unfoldable pub get_plan_by_key : String → M (Option Plan)
get_plan_by_key key = query (λ t. filter (λ p. p.key == key) t.plans)

unfoldable pub get_plan_by_stripe_price_id : String → M (Option Plan)
get_plan_by_stripe_price_id price =
    query (λ t. filter (λ p. option_is p.stripe_price_id price) t.plans)

unfoldable pub get_billing_account_by_owner : ℕ → BillingAccountType → M (Option BillingAccount)
get_billing_account_by_owner owner type =
    query (λ t. filter (λ a. a.owner_id == owner && same_type a.account_type type) t.accounts)

unfoldable pub get_billing_account_by_stripe_customer : String → M (Option BillingAccount)
get_billing_account_by_stripe_customer customer =
    query (λ t. filter (λ a. option_is a.stripe_customer_id customer) t.accounts)

unfoldable pub get_subscription_by_stripe_id : String → M (Option Subscription)
get_subscription_by_stripe_id stripe_id =
    query (λ t. filter (λ s. option_is s.stripe_subscription_id stripe_id) t.subscriptions)

-- The subscriptions of an account that are active.
abbrev pub active_of : ℕ → List Subscription → List Subscription
active_of account rows = filter (λ s. s.account_id == account && is_active s.status) rows

unfoldable pub get_active_subscription : ℕ → M (Option Subscription)
get_active_subscription account = query (λ t. active_of account t.subscriptions)
