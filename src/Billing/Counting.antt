-- ===== src/Billing/Counting.antt =====
-- The active subscriptions of an account, counted: what the changes of rows of
-- swx_core/services/billing/subscription_service.py do to them.
use swx.Prelude.{
  ℕ, suc, ◌+◌, ◌≤◌, ◌≡◌, refl, sym, ap, subst, ◌∙◌, Bool, true, false, not, ◌&&◌, none, some, List,
  [], ◌∷◌, ◌++◌, map, arith, nat_eq, ◌==◌, eqb_iff, beq_refl, all, length, ltb, if◌then◌else◌,
}
use swx.Billing.Model.{Subscription, is_active, active_of, Env, find_id}
use swx.Billing.Subscriptions.{update_id, deactivate, ended}

abbrev pub counts : ℕ → Subscription → Bool
counts a s = s.account_id == a && is_active s.status

abbrev pub active_count : ℕ → List Subscription → ℕ
active_count a rows = length (active_of a rows)

-- All identifiers are older than `n`.
abbrev pub older : ℕ → List Subscription → Bool
older n rows = all (λ s. ltb s.id n) rows

one_more :
    (b : Bool) (s : Subscription) (rows : List Subscription)
    → length (if b then s ∷ rows else rows) ≡ (if b then suc (length rows) else length rows)
one_more true s rows = refl
one_more false s rows = refl

counts-deactivate :
    (env : Env) (account a : ℕ) (s : Subscription)
    → counts a (deactivate env account s) ≡ (not (account == a) && counts a s)
counts-deactivate env account a s =
    by_cases (s.account_id == account) (is_active s.status) refl refl
  where
    by_cases :
        (b c : Bool)
        → (s.account_id == account) ≡ b
        → is_active s.status ≡ c
        → counts a (if b && c then ended env s else s) ≡ (not (account == a) && counts a s)
    by_cases true true h k =
        ground
          (arith, h, k, eqb_iff s.account_id account, eqb_iff s.account_id a, eqb_iff account a)
    by_cases true false h k = ground (arith, k)
    by_cases false c h k =
        ground (arith, h, eqb_iff s.account_id account, eqb_iff s.account_id a, eqb_iff account a)

pub active_count-deactivate :
    (env : Env) (account a : ℕ) (rows : List Subscription)
    → active_count a (map (deactivate env account) rows)
      ≡ (if account == a then 0 else active_count a rows)
active_count-deactivate env account a [] = ground arith
active_count-deactivate env account a (s ∷ rows) =
    one_more (counts a (deactivate env account s)) (deactivate env account s)
      (active_of a (map (deactivate env account) rows))
    ∙ ap
        (λ b.
          if b
          then suc (active_count a (map (deactivate env account) rows))
          else active_count a (map (deactivate env account) rows))
        (counts-deactivate env account a s)
    ∙ ap (λ n. if not (account == a) && counts a s then suc n else n)
        (active_count-deactivate env account a rows)
    ∙ regroup (account == a) (counts a s) (active_count a rows)
    ∙ ap (λ n. if account == a then 0 else n) (sym (one_more (counts a s) s (active_of a rows)))
  where
    regroup :
        (b c : Bool) (n : ℕ)
        → (if not b && c then suc (if b then 0 else n) else (if b then 0 else n))
          ≡ (if b then 0 else if c then suc n else n)
    regroup true c n = ground arith
    regroup false c n = ground arith

pub active_count-append :
    (a : ℕ) (r : Subscription) (rows : List Subscription)
    → active_count a (rows ++ r ∷ []) ≡ active_count a rows + (if counts a r then 1 else 0)
active_count-append a r [] = one_more (counts a r) r [] ∙ zero_plus (if counts a r then 1 else 0)
  where
    zero_plus : (n : ℕ) → n ≡ 0 + n
    zero_plus n = omega arith
active_count-append a r (s ∷ rows) =
    one_more (counts a s) s (active_of a (rows ++ r ∷ []))
    ∙ ap (λ n. if counts a s then suc n else n) (active_count-append a r rows)
    ∙ regroup (counts a s) (active_count a rows) (if counts a r then 1 else 0)
    ∙ ap (λ n. n + (if counts a r then 1 else 0)) (sym (one_more (counts a s) s (active_of a rows)))
  where
    regroup :
        (b : Bool) (n m : ℕ) → (if b then suc (n + m) else n + m) ≡ (if b then suc n else n) + m
    regroup true n m = omega arith
    regroup false n m = omega arith

-- A change that makes no row active.
abbrev pub Calm : (Subscription → Subscription) → Subscription → Type 0
Calm f s = is_active (f s).status ≡ true → is_active s.status ≡ true

pub active_count-update :
    (a id : ℕ) (f : Subscription → Subscription) (rows : List Subscription)
    → ((s : Subscription) → (f s).account_id ≡ s.account_id)
    → ((s : Subscription) → find_id id rows ≡ some s → Calm f s)
    → active_count a (update_id id f rows) ≤ active_count a rows
active_count-update a id f [] same calm = omega arith
active_count-update a id f (s ∷ rows) same calm =
    either (s.id == id) refl (active_count-update a id f rows same)
  where
    ordered :
        (b c : Bool) (n m : ℕ)
        → (b ≡ true → c ≡ true)
        → n ≤ m
        → (if b then suc n else n) ≤ (if c then suc m else m)
    ordered true c n m h k = ground (arith, h refl, k)
    ordered false true n m h k = omega (arith, k)
    ordered false false n m h k = k

    counted :
        (t : Subscription) (more : List Subscription)
        → (counts a t ≡ true → counts a s ≡ true)
        → active_count a more ≤ active_count a rows
        → active_count a (t ∷ more) ≤ active_count a (s ∷ rows)
    counted t more h k =
        subst (λ n. n ≤ active_count a (s ∷ rows))
          (sym (one_more (counts a t) t (active_of a more)))
          (subst (λ n. (if counts a t then suc (active_count a more) else active_count a more) ≤ n)
            (sym (one_more (counts a s) s (active_of a rows)))
            (ordered (counts a t) (counts a s) (active_count a more) (active_count a rows) h k))

    rejoin : (b c d : Bool) → (b && c) ≡ true → (c ≡ true → d ≡ true) → (b && d) ≡ true
    rejoin true true d h k = k refl
    rejoin true false d h k = absurd (cc)
    rejoin false c d h k = h

    calm_counts : Calm f s → counts a (f s) ≡ true → counts a s ≡ true
    calm_counts q h =
        let k = ap (λ i. i == a && is_active (f s).status) (sym (same s)) ∙ h in
        rejoin (s.account_id == a) (is_active (f s).status) (is_active s.status) k q

    either :
        (b : Bool)
        → (s.id == id) ≡ b
        → (((t : Subscription) → find_id id rows ≡ some t → Calm f t)
            → active_count a (update_id id f rows) ≤ active_count a rows)
        → active_count a (if b then f s ∷ rows else s ∷ update_id id f rows)
          ≤ active_count a (s ∷ rows)
    either true e later =
        counted (f s) rows
          (calm_counts (calm s (ap (λ b. if b then some s else find_id id rows) e))) (omega arith)
    either false e later =
        counted s (update_id id f rows) (λ h. h)
          (later (λ t q. calm t (ap (λ b. if b then some s else find_id id rows) e ∙ q)))

pub older-deactivate :
    (env : Env) (account n : ℕ) (rows : List Subscription)
    → older n (map (deactivate env account) rows) ≡ older n rows
older-deactivate env account n [] = refl
older-deactivate env account n (s ∷ rows) =
    ap (λ b. b && older n (map (deactivate env account) rows))
      (same_id (s.account_id == account && is_active s.status))
    ∙ ap (◌&&◌ (ltb s.id n)) (older-deactivate env account n rows)
  where
    same_id : (b : Bool) → ltb (if b then ended env s else s).id n ≡ ltb s.id n
    same_id true = refl
    same_id false = refl

pub older-append :
    (n : ℕ) (r : Subscription) (rows : List Subscription)
    → older n rows ≡ true
    → r.id ≡ n
    → older (suc n) (rows ++ r ∷ []) ≡ true
older-append n r [] h e = ground (arith, e)
older-append n r (s ∷ rows) h e = ground (arith, older-append n r rows (ground (arith, h)) e, h)

pub older-update :
    (n id : ℕ) (f : Subscription → Subscription) (rows : List Subscription)
    → ((s : Subscription) → (f s).id ≡ s.id)
    → older n (update_id id f rows) ≡ older n rows
older-update n id f [] same = refl
older-update n id f (s ∷ rows) same = either (s.id == id) (older-update n id f rows same)
  where
    either :
        (b : Bool)
        → older n (update_id id f rows) ≡ older n rows
        → older n (if b then f s ∷ rows else s ∷ update_id id f rows) ≡ older n (s ∷ rows)
    either true q = ap (λ i. ltb i n && older n rows) (same s)
    either false q = ap (◌&&◌ (ltb s.id n)) q

-- The newest row is found by its identifier.
pub find_id-append :
    (r : Subscription) (rows : List Subscription)
    → older r.id rows ≡ true
    → find_id r.id (rows ++ r ∷ []) ≡ some r
find_id-append r [] h = ap (λ b. if b then some r else none) (beq_refl r.id)
find_id-append r (s ∷ rows) h =
    ap (λ b. if b then some s else find_id r.id (rows ++ r ∷ [])) (not_same (ground (arith, h)))
    ∙ find_id-append r rows (ground (arith, h))
  where
    not_same : ltb s.id r.id ≡ true → (s.id == r.id) ≡ false
    not_same q = ground (arith, q)

pub older-suc : (n : ℕ) (rows : List Subscription) → older n rows ≡ true → older (suc n) rows ≡ true
older-suc n [] h = refl
older-suc n (s ∷ rows) h = ground (arith, h, older-suc n rows (ground (arith, h)))
