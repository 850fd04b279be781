-- ===== src/Billing/Stripe.antt =====
-- The synchronisation with Stripe, of swx_core/services/billing/subscription_service.py.
use swx.Prelude.{
  ℕ, zero, suc, Bool, true, false, Option, none, some, [], ◌∷◌, String, string_eq, ◌==◌,
  if◌then◌else◌,
}
use swx.Billing.Model.{
  SubscriptionStatus, trialing, active, past_due, canceled, unpaid, expired, is_terminal,
  is_canceled, Plan, Subscription, M, ◌>>=◌, pure, Env, get_plan_by_stripe_price_id,
  get_billing_account_by_stripe_customer, get_subscription_by_stripe_id,
}
use swx.Billing.Subscriptions.{
  change, announce, start_of, commit_or_rollback, deactivate_active_subscriptions, subscribe,
}

-- The fields of `stripe_data`, where `none` stands for a field that is missing or of another type;
-- `price_id` is what `_get_stripe_price_id` finds in `items`. Times are those of the session's clock.
pub record StripeData : Type 0 where
  pub id : Option String
  pub current_period_start : Option ℕ
  pub current_period_end : Option ℕ
  pub status : Option String
  pub cancel_at_period_end : Option Bool
  pub subscription : Option String
  pub customer : Option String
  pub price_id : Option String

abbrev pub or_false : Option Bool → Bool
or_false none = false
or_false (some b) = b

-- `_get_stripe_subscription_status`, of `"active"` where there is no status
unfoldable pub get_stripe_subscription_status : Option String → SubscriptionStatus
get_stripe_subscription_status none = active
get_stripe_subscription_status (some status) =
    if status == "past_due"
    then past_due
    else if status == "unpaid"
    then unpaid
    else if status == "canceled"
    then canceled
    else if status == "incomplete"
    then past_due
    else if status == "incomplete_expired"
    then expired
    else if status == "trialing"
    then trialing
    else active

-- What Stripe says of the periods and the status.
pub record Synced : Type 0 where
  pub status : SubscriptionStatus
  pub period_start : ℕ
  pub period_end : ℕ
  pub cancel_at_period_end : Bool

module _ (env : Env) where
  abbrev pub start_if : Bool → Option ℕ → Option ℕ
  start_if true t = start_of t env.now
  start_if false t = t

  abbrev pub synced_row : Synced → Subscription → Subscription
  synced_row d s = record s {
    status = d.status;
    current_period_start = d.period_start;
    current_period_end = some d.period_end;
    cancel_at_period_end = d.cancel_at_period_end;
    ended_at = start_if (is_canceled d.status) s.ended_at;
    canceled_at = start_if d.cancel_at_period_end s.canceled_at;
  }

  -- `_update_existing_subscription`
  unfoldable pub update_existing_subscription : Subscription → Synced → M (Unit {0})
  update_existing_subscription s d = change s.id (synced_row d) >>= λ _.
      commit_or_rollback env >>= λ _. announce "subscription.updated" (s.id ∷ [])

  abbrev pub stripe_row : ℕ → Plan → String → Synced → ℕ → Subscription
  stripe_row account plan stripe_id d id = record {
    id = id;
    account_id = account;
    plan_id = plan.id;
    status = d.status;
    current_period_start = d.period_start;
    current_period_end = some d.period_end;
    cancel_at_period_end = d.cancel_at_period_end;
    canceled_at = start_if d.cancel_at_period_end none;
    ended_at = none;
    stripe_subscription_id = some stripe_id;
    trial_ends_at = none;
    grace_period_ends_at = none;
    renewal_failure_count = 0;
  }

  abbrev pub skipped : {A : Type 0} → (A → M (Unit {0})) → Option A → M (Unit {0})
  skipped next none = pure tt
  skipped next (some a) = next a

  -- `_create_subscription_from_stripe`
  unfoldable pub create_subscription_from_stripe : StripeData → String → Synced → M (Unit {0})
  unfolding get_plan_by_stripe_price_id get_billing_account_by_stripe_customer
      deactivate_active_subscriptions
  create_subscription_from_stripe stripe_data stripe_id d =
      skipped
        (λ customer.
          skipped
            (λ price.
              if price == ""
              then pure tt
              else get_plan_by_stripe_price_id price
                >>= skipped (λ plan.
                  get_billing_account_by_stripe_customer customer
                  >>= skipped (λ account.
                    subscribe env account.id (stripe_row account.id plan stripe_id d) >>= λ _.
                    pure tt)))
            stripe_data.price_id)
        stripe_data.customer

  abbrev pub update_or_create : StripeData → String → Synced → Option Subscription → M (Unit {0})
  update_or_create stripe_data stripe_id d (some s) = update_existing_subscription s d
  update_or_create stripe_data stripe_id d none =
      if is_terminal d.status
      then pure tt
      else create_subscription_from_stripe stripe_data stripe_id d

  abbrev pub sync_fields : StripeData → String → ℕ → ℕ → M (Unit {0})
  sync_fields stripe_data stripe_id first last =
      get_subscription_by_stripe_id stripe_id
      >>= update_or_create stripe_data stripe_id (record {
        status = get_stripe_subscription_status stripe_data.status;
        period_start = first;
        period_end = last;
        cancel_at_period_end = or_false stripe_data.cancel_at_period_end;
      })

  abbrev pub periods : StripeData → Option (ℕ × ℕ)
  periods stripe_data = elim stripe_data.current_period_start [
    | none ↦ none
    | some first ↦ elim stripe_data.current_period_end [
      | none ↦ none
      | some last ↦ some (first, last)
    ]
  ]

  -- `_sync_from_checkout_session` before its depth is exceeded. `fetch` is `get_subscription` of the
  -- provider, `none` where there is no provider or it raises.
  abbrev pub sync_from_checkout_session :
      (String → Option StripeData) → (StripeData → M (Unit {0})) → StripeData → M (Unit {0})
  sync_from_checkout_session fetch sync stripe_data = elim stripe_data.subscription [
    | none ↦ pure tt
    | some sub_id ↦ if sub_id == "" then pure tt else skipped sync (fetch sub_id)
  ]

  abbrev pub sync_periods : M (Unit {0}) → StripeData → String → Option (ℕ × ℕ) → M (Unit {0})
  sync_periods checkout stripe_data stripe_id none = checkout
  sync_periods checkout stripe_data stripe_id (some (first, last)) =
      sync_fields stripe_data stripe_id first last

  -- `sync_stripe_subscription` at depth `2 - depth_left`.
  unfoldable pub sync_stripe_subscription :
      (String → Option StripeData) → ℕ → StripeData → M (Unit {0})
  unfolding get_subscription_by_stripe_id
  sync_stripe_subscription fetch zero stripe_data =
      skipped (λ stripe_id. sync_periods (pure tt) stripe_data stripe_id (periods stripe_data))
        stripe_data.id
  sync_stripe_subscription fetch (suc depth_left) stripe_data =
      let checkout =
        sync_from_checkout_session fetch (sync_stripe_subscription fetch depth_left) stripe_data in
      skipped (λ stripe_id. sync_periods checkout stripe_data stripe_id (periods stripe_data))
        stripe_data.id
