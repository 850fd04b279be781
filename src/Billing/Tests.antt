-- ===== src/Billing/Tests.antt =====
-- Subscriptions of one account, on which the theorems are applied and the operations run.
use swx.Prelude.{
  ◌≤◌, ◌≡◌, ◌/◌, refl, subst, true, none, some, List, [], ◌∷◌, string_eq, nat_eq, arith,
}
use mathlib.Core.Option.{some-injective}
use swx.Prelude.Int.{pos}
use swx.Billing.Model.{
  BillingInterval, BillingAccountType, BillingAccount, Error, err, Plan, Tables, Session, Env,
  get_plan_by_key, get_active_subscription, get_subscription_by_id, is_active,
}
use swx.Billing.Subscriptions.{
  create_subscription, create_trial_subscription, deactivate_active_subscriptions, retry_renewal,
}
use swx.Billing.Counting.{active_count}
use swx.Billing.History.{Call, perform, perform_all, perform_all-single, is_ok, AllAllowed}
use swx.Billing.Entitlements.{
  Catalog, Required, get_account_and_subscription, resolve_effective_plan_id, get_remaining_quota,
  get_limit, require_quota,
}
use swx.Billing.Usage.{Settings, can_reset, get, reset_window}
use swx.Billing.Resets.{
  Use, times, perform as use_perform, resets_window, resets_day, resets-bounded,
}

abbrev env : Env
env = record { now = 100; day = 10; accepts = λ t. true }

abbrev pro : Plan
pro = record {
  id = 1;
  key = "pro";
  billing_interval = BillingInterval.weekly;
  amount = some 20;
  stripe_price_id = none;
}

abbrev tables : Tables
tables = record { accounts = []; plans = pro ∷ []; subscriptions = []; next_id = 5 }

abbrev start : Session
start = record { tables = tables; committed = tables; notices = [] }

abbrev calls : List Call
calls = Call.creates 9 "pro" none true ∷ Call.renews 5 ∷ Call.creates 9 "pro" none true ∷ []

twice_created : active_count 9 (perform_all env calls start).tables.subscriptions ≡ 1
unfolding perform create_subscription get_plan_by_key deactivate_active_subscriptions retry_renewal
    get_subscription_by_id
twice_created = refl

calls-AllAllowed : AllAllowed env calls start
unfolding perform create_subscription get_plan_by_key deactivate_active_subscriptions
calls-AllAllowed =
    (tt, ((λ r e. subst (λ x. is_active x.status ≡ true) (some-injective _ _ e) refl), (tt, tt)))

perform_all-single_example :
    (active_count 9 (perform_all env calls start).tables.subscriptions ≤ 1)
    × (active_count 9 (perform_all env calls start).committed.subscriptions ≤ 1)
    × (is_ok (get_active_subscription 9 (perform_all env calls start)).0 ≡ true)
perform_all-single_example =
    perform_all-single env calls start 9
      (record { one = λ a. omega arith; old = refl }, record { one = λ a. omega arith; old = refl })
      calls-AllAllowed

abbrev free : Plan
free = record pro { id = 2; key = "free"; amount = some 0 }

abbrev ada : BillingAccount
ada = record {
  id = 9;
  owner_id = 3;
  account_type = BillingAccountType.user;
  billing_email = none;
  stripe_customer_id = none;
}

-- What the resolver sees of the tables.
abbrev catalog : Tables → Catalog
catalog t = record {
  tables = t;
  entitlements = record { plan_id = 1; feature_key = "api.calls"; value = "40" } ∷ [];
  usage = [];
  features = [];
  trial_plan_key = "pro";
  now = 100;
  int = λ s. some (pos 40);
  lower = λ s. s;
}

abbrev trial_start : Session
trial_start = record start {
  tables = record tables { accounts = ada ∷ []; plans = pro ∷ free ∷ [] };
}

-- A free plan on trial has the quota of the trial's plan.
trial_quota :
    require_quota
      (catalog (perform env (Call.tries 9 "free" 30) trial_start).tables)
      3
      BillingAccountType.user
      "api.calls"
      15
    ≡ Required.answered 25
unfolding perform create_trial_subscription create_subscription get_plan_by_key
    deactivate_active_subscriptions require_quota get_remaining_quota get_limit
    get_account_and_subscription resolve_effective_plan_id
trial_quota = refl

-- A canceled trial still counts, so that a paid plan beside it makes the lookup fail.
trial_and_paid :
    get_account_and_subscription
      (catalog
        (perform_all env
          (Call.tries 9 "free" 30 ∷ Call.creates 9 "pro" none true ∷ [])
          trial_start).tables)
      3
      BillingAccountType.user
    ≡ err Error.multiple_results
unfolding perform create_trial_subscription create_subscription get_plan_by_key
    deactivate_active_subscriptions get_account_and_subscription
trial_and_paid = refl

abbrev settings : Settings
settings = record {
  window_hours = 5;
  monthly_tokens = 1000;
  window_tokens = 100;
  window_max_resets = 1;
  daily_max_resets = 2;
  month_of = λ t. t / 2592000;
  day_of = λ t. t / 86400;
  pricing = [];
  default_model = "";
}

abbrev uses : List Use
uses = Use.records 9 80 5 ∷ Use.resets 9 6 ∷ Use.resets 9 7 ∷ []

resets_granted : times settings (resets_window settings 9 0) uses [] ≡ 1
unfolding use_perform resets_window can_reset get reset_window
resets_granted = refl

resets-bounded_example :
    (times settings (resets_window settings 9 0) uses [] ≤ 1)
    × (times settings (resets_day settings 9 0) uses [] ≤ 2)
resets-bounded_example = resets-bounded settings uses 9 0 0
