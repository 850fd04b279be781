-- ===== src/Billing/Subscriptions.antt =====
-- `SubscriptionService` of swx_core/services/billing/subscription_service.py, but for Stripe.
use swx.Prelude.{
  ℕ, suc, ◌+◌, ◌*◌, Bool, true, false, not, ◌&&◌, Option, none, some, List, [], ◌∷◌, ◌++◌, map,
  String, nat_eq, ◌==◌, ltb, if◌then◌else◌,
}
use swx.Billing.Model.{
  BillingAccountType, interval_days, trialing, active, past_due, canceled, is_active, is_canceled,
  BillingAccount, Plan, Subscription, Session, http, commit_failed, ok, err, M, ◌>>=◌, pure, raise,
  Env, get_subscription_by_id, get_plan_by_key, get_billing_account_by_owner, active_of,
}

abbrev pub set_rows : (List Subscription → List Subscription) → Session → Session
set_rows f s = record s { tables = record s.tables { subscriptions = f s.tables.subscriptions } }

-- The row of an identifier, changed.
abbrev pub update_id : ℕ → (Subscription → Subscription) → List Subscription → List Subscription
update_id id f [] = []
update_id id f (s ∷ rows) = if s.id == id then f s ∷ rows else s ∷ update_id id f rows

abbrev pub change : ℕ → (Subscription → Subscription) → M (Unit {0})
change id f s = (ok tt, set_rows (update_id id f) s)

abbrev pub announce : String → List ℕ → M (Unit {0})
announce name about s =
    (ok tt, record s { notices = s.notices ++ record { name = name; about = about } ∷ [] })

abbrev pub announce_any : String → List ℕ → M (Unit {0})
announce_any name [] = pure tt
announce_any name (id ∷ ids) = announce name (id ∷ ids)

-- `raise HTTPException(404)` for a missing row.
abbrev pub found_or_404 : {A : Type 0} → Option A → M A
found_or_404 none = raise (http 404)
found_or_404 (some a) = pure a

abbrev pub start_of : Option ℕ → ℕ → Option ℕ
start_of none now = some now
start_of (some t) now = some t

module _ (env : Env) where
  -- `_commit_or_rollback`
  abbrev pub commit_or_rollback : M (Unit {0})
  commit_or_rollback s =
      if env.accepts s.tables
      then (ok tt, record s { committed = s.tables })
      else (err commit_failed, record s { tables = s.committed })

  abbrev pub add_account : ℕ → BillingAccountType → Option String → M BillingAccount
  add_account owner type email s =
      let account : BillingAccount = record {
        id = s.tables.next_id;
        owner_id = owner;
        account_type = type;
        billing_email = email;
        stripe_customer_id = none;
      } in
      (
        ok account,
        record s {
          tables = record s.tables {
            accounts = s.tables.accounts ++ account ∷ [];
            next_id = suc s.tables.next_id;
          };
        },
      )

  abbrev pub account_or_new :
      ℕ → BillingAccountType → Option String → Option BillingAccount → M BillingAccount
  account_or_new owner type email (some account) = pure account
  account_or_new owner type email none =
      add_account owner type email >>= λ account. commit_or_rollback >>= λ _. pure account

  unfoldable pub get_or_create_account : ℕ → BillingAccountType → Option String → M BillingAccount
  unfolding get_billing_account_by_owner
  get_or_create_account owner type email =
      get_billing_account_by_owner owner type >>= account_or_new owner type email

  abbrev pub ended : Subscription → Subscription
  ended s = record s { status = canceled; ended_at = some env.now }

  abbrev pub deactivate : ℕ → Subscription → Subscription
  deactivate account s = if s.account_id == account && is_active s.status then ended s else s

  -- `_deactivate_active_subscriptions`
  unfoldable pub deactivate_active_subscriptions : ℕ → M (List ℕ)
  deactivate_active_subscriptions account s = (
    ok (map (λ r. r.id) (active_of account s.tables.subscriptions)),
    set_rows (map (deactivate account)) s,
  )

  abbrev pub add_subscription : (ℕ → Subscription) → M Subscription
  add_subscription row s = (
    ok (row s.tables.next_id),
    record s {
      tables = record s.tables {
        subscriptions = s.tables.subscriptions ++ row s.tables.next_id ∷ [];
        next_id = suc s.tables.next_id;
      };
    },
  )

  abbrev pub new_subscription : ℕ → Plan → Option String → ℕ → Subscription
  new_subscription account plan stripe_id id = record {
    id = id;
    account_id = account;
    plan_id = plan.id;
    status = active;
    current_period_start = env.now;
    current_period_end = some (env.now + interval_days plan.billing_interval * env.day);
    cancel_at_period_end = false;
    canceled_at = none;
    ended_at = none;
    stripe_subscription_id = stripe_id;
    trial_ends_at = none;
    grace_period_ends_at = none;
    renewal_failure_count = 0;
  }

  -- `plan.amount is not None and plan.amount > 0`
  abbrev pub is_paid : Plan → Bool
  is_paid plan = elim plan.amount [ none ↦ false | some amount ↦ ltb 0 amount ]

  abbrev pub subscribe : ℕ → (ℕ → Subscription) → M Subscription
  subscribe account row = deactivate_active_subscriptions account >>= λ canceled_ids.
      add_subscription row >>= λ subscription. commit_or_rollback >>= λ _.
      announce_any "subscription.deactivated" canceled_ids >>= λ _.
      announce "subscription.created" (subscription.id ∷ []) >>= λ _. pure subscription

  unfoldable pub create_subscription : ℕ → String → Option String → Bool → M Subscription
  unfolding get_plan_by_key deactivate_active_subscriptions
  create_subscription account plan_key stripe_id allow_paid = get_plan_by_key plan_key >>= λ found.
      found_or_404 found >>= λ plan.
      if not allow_paid && is_paid plan
      then raise (http 402)
      else subscribe account (new_subscription account plan stripe_id)

  abbrev pub with_trial : ℕ → Subscription → Subscription
  with_trial trial_days s = record s {
    trial_ends_at = some (env.now + trial_days * env.day);
    status = trialing;
  }

  unfoldable pub create_trial_subscription : ℕ → String → ℕ → M Subscription
  unfolding create_subscription
  create_trial_subscription account plan_key trial_days =
      create_subscription account plan_key none false >>= λ subscription.
      change subscription.id (with_trial trial_days) >>= λ _.
      commit_or_rollback >>= λ _. pure (with_trial trial_days subscription)

  abbrev pub cancel_row : Bool → Subscription → Subscription
  cancel_row true s = record s { status = canceled; ended_at = start_of s.ended_at env.now }
  cancel_row false s = record s {
    cancel_at_period_end = true;
    canceled_at = start_of s.canceled_at env.now;
  }

  abbrev pub cancel_found : ℕ → Bool → Option Subscription → M (Unit {0})
  cancel_found id immediate none = pure tt
  cancel_found id immediate (some subscription) = change id (cancel_row immediate) >>= λ _.
      if is_canceled subscription.status && not immediate
      then pure tt
      else commit_or_rollback >>= λ _. announce "subscription.canceled" (id ∷ [])

  -- A row that is canceled already is changed in the session, and not committed.
  unfoldable pub cancel_subscription : ℕ → Bool → M (Unit {0})
  unfolding get_subscription_by_id
  cancel_subscription id immediate = get_subscription_by_id id >>= cancel_found id immediate

  -- What `enter_grace_period`, `retry_renewal` and `expire_grace` share.
  abbrev pub change_status : ℕ → (Subscription → Subscription) → String → M (Unit {0})
  change_status id f name = get_subscription_by_id id >>= found_or_404 >>= λ _.
      change id f >>= λ _. commit_or_rollback >>= λ _. announce name (id ∷ [])

  abbrev pub graced : ℕ → Subscription → Subscription
  graced grace_days s = record s {
    status = past_due;
    grace_period_ends_at = some (env.now + grace_days * env.day);
    renewal_failure_count = suc s.renewal_failure_count;
  }

  abbrev pub renewed : Subscription → Subscription
  renewed s = record s { status = active; grace_period_ends_at = none; renewal_failure_count = 0 }

  abbrev pub grace_over : Subscription → Subscription
  grace_over s = record s {
    status = canceled;
    ended_at = some env.now;
    grace_period_ends_at = none;
  }

  -- `enter_grace_period`, which `handle_renewal_failure` calls
  unfoldable pub enter_grace_period : ℕ → ℕ → M (Unit {0})
  unfolding get_subscription_by_id
  enter_grace_period id grace_days =
      change_status id (graced grace_days) "subscription.grace_entered"

  unfoldable pub retry_renewal : ℕ → M (Unit {0})
  unfolding get_subscription_by_id
  retry_renewal id = change_status id renewed "subscription.renewal_succeeded"

  unfoldable pub expire_grace : ℕ → M (Unit {0})
  unfolding get_subscription_by_id
  expire_grace id = change_status id grace_over "subscription.grace_expired"

  unfoldable pub is_grace_expired : ℕ → M Bool
  unfolding get_subscription_by_id
  is_grace_expired id = get_subscription_by_id id >>= λ found. pure (elim found [
    | none ↦ false
    | some s ↦ elim s.grace_period_ends_at [ none ↦ false | some t ↦ ltb t env.now ]
  ])
