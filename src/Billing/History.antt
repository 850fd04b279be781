-- ===== src/Billing/History.antt =====
-- Histories of calls of `SubscriptionService`, of swx_core/services/billing/subscription_service.py.
use swx.Prelude.{
  ℕ, ◌≤◌, ◌≡◌, refl, Bool, true, false, not, ◌&&◌, Option, none, some, List, [], ◌∷◌, String,
  string_eq, arith, nat_eq, ◌==◌, filter, length, if◌then◌else◌,
}
use swx.Billing.Model.{
  BillingAccountType, same_type, is_active, is_canceled, BillingAccount, Subscription, Session,
  Result, ok, err, and_then, ◌>>=◌, pure, Env, one_or_none, find_id, get_subscription_by_id,
  get_billing_account_by_owner, active_of, get_active_subscription,
}
use swx.Billing.Subscriptions.{
  set_rows, update_id, change, announce, found_or_404, commit_or_rollback, add_account,
  get_or_create_account, account_or_new, cancel_found, create_subscription,
  create_trial_subscription, cancel_row, cancel_subscription, change_status, graced, renewed,
  grace_over, enter_grace_period, retry_renewal, expire_grace,
}
use swx.Billing.Counting.{active_count, Calm, older-suc}
use swx.Billing.Single.{
  IsGood, Ends, Ends-then, Ends-IsGood, change-IsSingle, commit-Ends, IsNew, unchanged-Ends,
  create_subscription-Ends, create_trial_subscription-Ends,
}

-- Calls, Stripe's apart.
pub data Call : Type 0 where
  opens : ℕ → BillingAccountType → Option String → Call
  creates : ℕ → String → Option String → Bool → Call
  tries : ℕ → String → ℕ → Call
  cancels : ℕ → Bool → Call
  graces : ℕ → ℕ → Call
  renews : ℕ → Call
  expires : ℕ → Call

abbrev pub is_ok : {A : Type 0} → Result A → Bool
is_ok (ok a) = true
is_ok (err e) = false

one_or_none-ok : {A : Type 0} (rows : List A) → length rows ≤ 1 → is_ok (one_or_none rows) ≡ true
one_or_none-ok [] h = refl
one_or_none-ok (a ∷ []) h = refl
one_or_none-ok (a ∷ b ∷ rows) h = absurd (omega (arith, h))

module _ (env : Env) where
  unfoldable pub perform : Call → Session → Session
  unfolding get_or_create_account create_subscription create_trial_subscription cancel_subscription
  perform (opens owner type email) s = (get_or_create_account env owner type email s).1
  perform (creates account key stripe_id allow_paid) s =
      (create_subscription env account key stripe_id allow_paid s).1
  perform (tries account key days) s = (create_trial_subscription env account key days s).1
  perform (cancels id immediate) s = (cancel_subscription env id immediate s).1
  perform (graces id days) s = (enter_grace_period env id days s).1
  perform (renews id) s = (retry_renewal env id s).1
  perform (expires id) s = (expire_grace env id s).1

  -- The subscription, if there is one, is active.
  abbrev pub IsLive : ℕ → Session → Type 0
  IsLive id s =
      (r : Subscription) → find_id id s.tables.subscriptions ≡ some r → is_active r.status ≡ true

  -- A grace period and a renewal are for active subscriptions.
  abbrev pub Allowed : Call → Session → Type 0
  Allowed (graces id days) s = IsLive id s
  Allowed (renews id) s = IsLive id s
  Allowed _ s = Unit {0}

  abbrev pub perform_all : List Call → Session → Session
  perform_all [] s = s
  perform_all (call ∷ calls) s = perform_all calls (perform call s)

  abbrev pub AllAllowed : List Call → Session → Type 0
  AllAllowed [] s = Unit {0}
  AllAllowed (call ∷ calls) s = Allowed call s × AllAllowed calls (perform call s)

  change_status-Ends :
      (id : ℕ) (f : Subscription → Subscription) (name : String) (s : Session)
      → IsGood s
      → ((r : Subscription) → (f r).id ≡ r.id)
      → ((r : Subscription) → (f r).account_id ≡ r.account_id)
      → ((r : Subscription) → find_id id s.tables.subscriptions ≡ some r → Calm f r)
      → IsGood (change_status env id f name s).1
  unfolding get_subscription_by_id
  change_status-Ends id f name s h ids accounts calm = either (find_id id s.tables.subscriptions)
    where
      changed : Session
      changed = set_rows (update_id id f) s

      committed : Result (Unit {0}) × Session → Result (Unit {0}) × Session
      committed o = and_then (λ _. announce name (id ∷ [])) o

      told : (o : Result (Unit {0}) × Session) → IsGood o.1 → IsGood (committed o).1
      told (ok _, s') g = g
      told (err e, s') g = g

      either :
          (o : Option Subscription)
          → IsGood
              ((found_or_404 o >>= λ _.
                  change id f >>= λ _. commit_or_rollback env >>= λ _. announce name (id ∷ []))
                s).1
      either none = h
      either (some r) = told (commit_or_rollback env changed) (
          Ends-IsGood (λ _ _. Unit {0}) (commit_or_rollback env changed)
            (commit-Ends env (λ _. Unit {0}) changed
              (change-IsSingle id f s.tables h.0 ids accounts calm, h.1) tt))

  cancel_row-keeps :
      (immediate : Bool) (r : Subscription)
      → ((cancel_row env immediate r).id ≡ r.id)
        × ((cancel_row env immediate r).account_id ≡ r.account_id)
        × Calm (cancel_row env immediate) r
  cancel_row-keeps true r = (refl, refl, (λ h. absurd (cc)))
  cancel_row-keeps false r = (refl, refl, (λ h. h))

  cancel-IsGood :
      (id : ℕ) (immediate : Bool) (s : Session)
      → IsGood s
      → IsGood (cancel_subscription env id immediate s).1
  unfolding cancel_subscription get_subscription_by_id
  cancel-IsGood id immediate s h = either (find_id id s.tables.subscriptions)
    where
      changed : Session
      changed = set_rows (update_id id (cancel_row env immediate)) s

      good : IsGood changed
      good = (
        change-IsSingle id (cancel_row env immediate) s.tables h.0
            (λ r. (cancel_row-keeps immediate r).0) (λ r. (cancel_row-keeps immediate r).1)
            (λ r e. (cancel_row-keeps immediate r).2),
        h.1,
      )

      told :
          (o : Result (Unit {0}) × Session)
          → IsGood o.1
          → IsGood (and_then (λ _. announce "subscription.canceled" (id ∷ [])) o).1
      told (ok _, s') g = g
      told (err e, s') g = g

      closed :
          (b : Bool)
          → IsGood
              ((if b
                  then pure tt
                  else commit_or_rollback env >>= λ _. announce "subscription.canceled" (id ∷ []))
                changed).1
      closed true = good
      closed false = told (commit_or_rollback env changed) (
          Ends-IsGood (λ _ _. Unit {0}) (commit_or_rollback env changed)
            (commit-Ends env (λ _. Unit {0}) changed good tt))

      either : (o : Option Subscription) → IsGood (cancel_found env id immediate o s).1
      either none = h
      either (some r) = closed (is_canceled r.status && not immediate)

  open-IsGood :
      (owner : ℕ) (type : BillingAccountType) (email : Option String) (s : Session)
      → IsGood s
      → IsGood (get_or_create_account env owner type email s).1
  unfolding get_or_create_account get_billing_account_by_owner
  open-IsGood owner type email s h =
      Ends-IsGood (λ _ _. Unit {0}) (and_then (account_or_new env owner type email) (found, s))
        (Ends-then (λ _ _. Unit {0}) (λ _ _. Unit {0}) (account_or_new env owner type email)
          (found, s) (unchanged-Ends env found s h) (λ o s' h' _. or_new o s' h'))
    where
      found : Result (Option BillingAccount)
      found =
          one_or_none
            (filter (λ a. a.owner_id == owner && same_type a.account_type type) s.tables.accounts)

      or_new :
          (o : Option BillingAccount) (s : Session)
          → IsGood s
          → Ends (λ _ _. Unit {0}) (account_or_new env owner type email o s)
      or_new (some account) s h = (h, tt)
      or_new none s h =
          let added = (add_account env owner type email s).1 in
          Ends-then (λ _ _. Unit {0}) (λ _ _. Unit {0}) (λ _. pure new)
            (commit_or_rollback env added)
            (commit-Ends env (λ _. Unit {0}) added
              (
                record {
                  one = h.0.one;
                  old = older-suc s.tables.next_id s.tables.subscriptions h.0.old;
                },
                h.1,
              )
              tt)
            (λ _ s' h' _. (h', tt))
        where
          new : BillingAccount
          new = record {
            id = s.tables.next_id;
            owner_id = owner;
            account_type = type;
            billing_email = email;
            stripe_customer_id = none;
          }

  perform-IsGood : (call : Call) (s : Session) → IsGood s → Allowed call s → IsGood (perform call s)
  unfolding perform enter_grace_period retry_renewal expire_grace
  perform-IsGood (opens owner type email) s h a = open-IsGood owner type email s h
  perform-IsGood (creates account key stripe_id allow_paid) s h a =
      Ends-IsGood (IsNew env) (create_subscription env account key stripe_id allow_paid s)
        (create_subscription-Ends env account key stripe_id allow_paid s h)
  perform-IsGood (tries account key days) s h a =
      Ends-IsGood (λ _ _. Unit {0}) (create_trial_subscription env account key days s)
        (create_trial_subscription-Ends env account key days s h)
  perform-IsGood (cancels id immediate) s h a = cancel-IsGood id immediate s h
  perform-IsGood (graces id days) s h a =
      change_status-Ends id (graced env days) "subscription.grace_entered" s h (λ r. refl)
        (λ r. refl) (λ r e _. a r e)
  perform-IsGood (renews id) s h a =
      change_status-Ends id (renewed env) "subscription.renewal_succeeded" s h (λ r. refl)
        (λ r. refl) (λ r e _. a r e)
  perform-IsGood (expires id) s h a =
      change_status-Ends id (grace_over env) "subscription.grace_expired" s h (λ r. refl)
        (λ r. refl) (λ r e q. absurd (cc))

  perform_all-IsGood :
      (calls : List Call) (s : Session)
      → IsGood s
      → AllAllowed calls s
      → IsGood (perform_all calls s)
  perform_all-IsGood [] s h a = h
  perform_all-IsGood (call ∷ calls) s h a =
      perform_all-IsGood calls (perform call s) (perform-IsGood call s h a.0) a.1

  -- After any calls that open accounts, create subscriptions and trials, cancel, end grace periods,
  -- and start and renew those of active subscriptions, whichever commits the database refuses: no
  -- account has two active subscriptions, also in what is committed, and `get_active_subscription`
  -- does not raise, if it was so before and new identifiers are new.
  pub perform_all-single :
      (calls : List Call) (s : Session) (account : ℕ)
      → IsGood s
      → AllAllowed calls s
      → (active_count account (perform_all calls s).tables.subscriptions ≤ 1)
        × (active_count account (perform_all calls s).committed.subscriptions ≤ 1)
        × (is_ok (get_active_subscription account (perform_all calls s)).0 ≡ true)
  unfolding get_active_subscription
  perform_all-single calls s account h a =
      let g = perform_all-IsGood calls s h a in
      (
        g.0.one account,
        g.1.one account,
        one_or_none-ok (active_of account (perform_all calls s).tables.subscriptions)
            (g.0.one account),
      )
