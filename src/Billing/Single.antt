-- ===== src/Billing/Single.antt =====
-- One active subscription for an account, of swx_core/services/billing/subscription_service.py.
use swx.Prelude.{
  ℕ, suc, ◌+◌, ◌≤◌, ◌≡◌, refl, sym, ap, subst, ◌∙◌, Bool, true, false, not, ◌&&◌, Option, none,
  some, List, [], ◌∷◌, ◌++◌, map, String, string_eq, arith, nat_eq, ◌==◌, filter, if◌then◌else◌,
}
use mathlib.Core.Option.{some-injective}
use swx.Billing.Model.{
  is_active, Plan, Subscription, Tables, Session, Error, Result, ok, err, M, and_then, ◌>>=◌, pure,
  raise, Env, one_or_none, find_id, get_plan_by_key, active_of,
}
use swx.Billing.Subscriptions.{
  set_rows, update_id, change, announce, announce_any, found_or_404, commit_or_rollback, deactivate,
  deactivate_active_subscriptions, new_subscription, is_paid, subscribe, create_subscription,
  with_trial, create_trial_subscription,
}
use swx.Billing.Counting.{
  counts, active_count, older, active_count-deactivate, active_count-append, Calm,
  active_count-update, older-deactivate, older-append, older-update, find_id-append,
}

-- No account has two active subscriptions, and new identifiers are new.
pub record IsSingle (t : Tables) : Type 0 where
  pub one : (a : ℕ) → active_count a t.subscriptions ≤ 1
  pub old : older t.next_id t.subscriptions ≡ true

-- Also after a rollback.
abbrev pub IsGood : Session → Type 0
IsGood s = IsSingle s.tables × IsSingle s.committed

-- A call leaves a good session, and where it answers what `Q` says.
abbrev pub Ends : {A : Type 0} → (A → Session → Type 0) → Result A × Session → Type 0
Ends Q (ok a, s) = IsGood s × Q a s
Ends Q (err e, s) = IsGood s

pub Ends-then :
    {A B : Type 0} (P : A → Session → Type 0) (Q : B → Session → Type 0) (f : A → M B)
    (o : Result A × Session)
    → Ends P o
    → ((a : A) (s : Session) → IsGood s → P a s → Ends Q (f a s))
    → Ends Q (and_then f o)
Ends-then P Q f (ok a, s) h k = k a s h.0 h.1
Ends-then P Q f (err e, s) h k = h

pub Ends-IsGood :
    {A : Type 0} (Q : A → Session → Type 0) (o : Result A × Session) → Ends Q o → IsGood o.1
Ends-IsGood Q (ok a, s) h = h.0
Ends-IsGood Q (err e, s) h = h

pub change-IsSingle :
    (id : ℕ) (f : Subscription → Subscription) (t : Tables)
    → IsSingle t
    → ((s : Subscription) → (f s).id ≡ s.id)
    → ((s : Subscription) → (f s).account_id ≡ s.account_id)
    → ((s : Subscription) → find_id id t.subscriptions ≡ some s → Calm f s)
    → IsSingle (record t { subscriptions = update_id id f t.subscriptions })
change-IsSingle id f t h ids accounts calm = record {
  one = λ a. omega (arith, h.one a, active_count-update a id f t.subscriptions accounts calm);
  old = older-update t.next_id id f t.subscriptions ids ∙ h.old;
}

new-IsSingle :
    (env : Env) (account : ℕ) (r : Subscription) (t : Tables)
    → IsSingle t
    → r.id ≡ t.next_id
    → r.account_id ≡ account
    → IsSingle (record t {
      subscriptions = map (deactivate env account) t.subscriptions ++ r ∷ [];
      next_id = suc t.next_id;
    })
new-IsSingle env account r t h new mine = record {
  one = λ a.
      subst (λ n. n ≤ 1)
        (sym (active_count-append a r (map (deactivate env account) t.subscriptions)))
        (subst (λ n. n + (if counts a r then 1 else 0) ≤ 1)
          (sym (active_count-deactivate env account a t.subscriptions))
          (by_account a (account == a) (is_active r.status) refl));
  old =
      older-append t.next_id r (map (deactivate env account) t.subscriptions)
        (older-deactivate env account t.next_id t.subscriptions ∙ h.old) new;
}
  where
    by_account :
        (a : ℕ) (b c : Bool)
        → (account == a) ≡ b
        → (if b then 0 else active_count a t.subscriptions)
            + (if r.account_id == a && c then 1 else 0)
          ≤ 1
    by_account a true c e = ground arith
    by_account a false c e =
        subst (λ i. active_count a t.subscriptions + (if i == a && c then 1 else 0) ≤ 1) (sym mine)
          (subst (λ b. active_count a t.subscriptions + (if b && c then 1 else 0) ≤ 1) (sym e)
            (omega (arith, h.one a)))

module _ (env : Env) where
  pub commit-Ends :
      (P : Tables → Type 0) (s : Session)
      → IsGood s
      → P s.tables
      → Ends (λ _ s'. P s'.tables) (commit_or_rollback env s)
  commit-Ends P s h p = either (env.accepts s.tables)
    where
      either :
          (b : Bool)
          → Ends {A = Unit {0}}
              (λ _ s'. P s'.tables)
              (if b
                then (ok tt, record s { committed = s.tables })
                else (err Error.commit_failed, record s { tables = s.committed }))
      either true = ((h.0, h.0), p)
      either false = (h.1, h.1)

  announce_any-Ends :
      (P : Tables → Type 0) (name : String) (ids : List ℕ) (s : Session)
      → IsGood s
      → P s.tables
      → Ends (λ _ s'. P s'.tables) (announce_any name ids s)
  announce_any-Ends P name [] s h p = (h, p)
  announce_any-Ends P name (id ∷ ids) s h p = (h, p)

  -- The row is there under its identifier, and is active if all rows of its form are.
  abbrev pub Stands : (ℕ → Subscription) → Subscription → Session → Type 0
  Stands row r s = (find_id r.id s.tables.subscriptions ≡ some r) × ((n : ℕ) × (r ≡ row n))

  pub subscribe-Ends :
      (account : ℕ) (row : ℕ → Subscription) (s : Session)
      → IsGood s
      → ((n : ℕ) → (row n).id ≡ n)
      → ((n : ℕ) → (row n).account_id ≡ account)
      → Ends (Stands row) (subscribe env account row s)
  unfolding deactivate_active_subscriptions
  subscribe-Ends account row s h ids accounts =
      Ends-then (λ _ s'. P s'.tables) (Stands row)
        (λ _. announce_any "subscription.deactivated" gone >>= λ _.
          announce "subscription.created" (r.id ∷ []) >>= λ _. pure r)
        (commit_or_rollback env added)
        (commit-Ends P added (new-IsSingle env account r s.tables h.0 (ids n) (accounts n), h.1)
          (find_id-append r rows (
            subst (λ i. older i rows ≡ true) (sym (ids n))
              (older-deactivate env account n s.tables.subscriptions ∙ h.0.old))))
        (λ _ s' h' p'.
          Ends-then (λ _ s''. P s''.tables) (Stands row)
            (λ _. announce "subscription.created" (r.id ∷ []) >>= λ _. pure r)
            (announce_any "subscription.deactivated" gone s')
            (announce_any-Ends P "subscription.deactivated" gone s' h' p')
            (λ _ s'' h'' p''. (h'', (p'', (n, refl)))))
    where
      n : ℕ
      n = s.tables.next_id

      r : Subscription
      r = row n

      rows : List Subscription
      rows = map (deactivate env account) s.tables.subscriptions

      gone : List ℕ
      gone = map (λ x. x.id) (active_of account s.tables.subscriptions)

      P : Tables → Type 0
      P t = find_id r.id t.subscriptions ≡ some r

      added : Session
      added = record s {
        tables = record s.tables { subscriptions = rows ++ r ∷ []; next_id = suc n };
      }

  pub unchanged-Ends :
      {A : Type 0} (r : Result A) (s : Session) → IsGood s → Ends (λ _ _. Unit {0}) (r, s)
  unchanged-Ends (ok a) s h = (h, tt)
  unchanged-Ends (err e) s h = h

  pub found-Ends :
      {A : Type 0} (o : Option A) (s : Session)
      → IsGood s
      → Ends (λ _ _. Unit {0}) (found_or_404 o s)
  found-Ends none s h = h
  found-Ends (some a) s h = (h, tt)

  -- A new row that is active.
  abbrev pub IsNew : Subscription → Session → Type 0
  IsNew r s = (find_id r.id s.tables.subscriptions ≡ some r) × (is_active r.status ≡ true)

  pub create_subscription-Ends :
      (account : ℕ) (plan_key : String) (stripe_id : Option String) (allow_paid : Bool)
      (s : Session)
      → IsGood s
      → Ends IsNew (create_subscription env account plan_key stripe_id allow_paid s)
  unfolding create_subscription get_plan_by_key
  create_subscription-Ends account plan_key stripe_id allow_paid s h =
      let found = one_or_none (filter (λ p. p.key == plan_key) s.tables.plans) in
      Ends-then (λ _ _. Unit {0}) IsNew (λ o. found_or_404 o >>= paid) (found, s)
        (unchanged-Ends found s h)
        (λ o s' h' _.
          Ends-then (λ _ _. Unit {0}) IsNew paid (found_or_404 o s') (found-Ends o s' h')
            (λ plan s'' h'' _. unpaid (not allow_paid && is_paid env plan) plan s'' h''))
    where
      paid : Plan → M Subscription
      paid plan =
          if not allow_paid && is_paid env plan
          then raise (Error.http 402)
          else subscribe env account (new_subscription env account plan stripe_id)

      made :
          (plan : Plan) (o : Result Subscription × Session)
          → Ends (Stands (new_subscription env account plan stripe_id)) o
          → Ends IsNew o
      made plan (ok r, s) (g, (q, (n, e))) = (g, (q, ap (λ x. is_active x.status) e))
      made plan (err e, s) g = g

      unpaid :
          (b : Bool) (plan : Plan) (s : Session)
          → IsGood s
          → Ends IsNew (
              (if b
                  then raise (Error.http 402)
                  else subscribe env account (new_subscription env account plan stripe_id))
                s)
      unpaid true plan s g = g
      unpaid false plan s g =
          made plan (subscribe env account (new_subscription env account plan stripe_id) s) (
            subscribe-Ends account (new_subscription env account plan stripe_id) s g (λ n. refl)
              (λ n. refl))

  pub create_trial_subscription-Ends :
      (account : ℕ) (plan_key : String) (trial_days : ℕ) (s : Session)
      → IsGood s
      → Ends (λ _ _. Unit {0}) (create_trial_subscription env account plan_key trial_days s)
  unfolding create_trial_subscription
  create_trial_subscription-Ends account plan_key trial_days s h =
      Ends-then IsNew (λ _ _. Unit {0})
        (λ r. change r.id (with_trial env trial_days) >>= λ _.
          commit_or_rollback env >>= λ _. pure (with_trial env trial_days r))
        (create_subscription env account plan_key none false s)
        (create_subscription-Ends account plan_key none false s h)
        (λ r s' h' new.
          Ends-then (λ _ _. Unit {0}) (λ _ _. Unit {0}) (λ _. pure (with_trial env trial_days r))
            (commit_or_rollback env (set_rows (update_id r.id (with_trial env trial_days)) s'))
            (commit-Ends (λ _. Unit {0}) (set_rows (update_id r.id (with_trial env trial_days)) s')
              (
                change-IsSingle r.id (with_trial env trial_days) s'.tables h'.0 (λ x. refl)
                    (λ x. refl)
                    (λ x e _.
                      ap (λ y. is_active y.status) (some-injective _ _ (sym e ∙ new.0)) ∙ new.1),
                h'.1,
              )
              tt)
            (λ _ s'' h'' _. (h'', tt)))
