-- ===== src/Ledger/Reconciled.antt =====
-- Every operation of swx_core/services/ledger_service.py keeps the books reconciled.
use swx.Prelude.{
  ℕ, ◌≡◌, refl, Bool, true, false, String, Option, none, some, nat_eq, string_eq, Bool-cases, inl,
  inr, Option-cases,
}
use swx.Ledger.Model.{
  LedgerEntry, CreditRequest, Tables, Session, Env, Result, ok, err, M, ◌>>=◌, Event,
}
use swx.Ledger.Repository.{get_entry_by_id}
use swx.Ledger.Service.{
  transaction, post, given, replayed, current_balance, credit_entry, debit_entry, refund_entry,
  refundable, overdraws, announce, entry_public, credit_new, credit, debit_new, debit, refund_new,
  refund,
}
use swx.Ledger.Books.{IsReconciled, applied, booked-IsReconciled}
use swx.Ledger.Posting.{posted, Posts, post-Posts, Announced, announce-Announced}

-- How a call leaves the session: reconciled; after an error at least what is committed is, and
-- the whole session if the call rolls back.
abbrev pub Leaves {ℓ} : {A : Type ℓ} → Bool → Result A × Session → Type 0
Leaves auto (ok _, s) = IsReconciled s.tables × IsReconciled s.committed
Leaves auto (err _, s) = (auto ≡ true → IsReconciled s.tables) × IsReconciled s.committed

posted-IsReconciled :
    (env : Env) (key : Option String) (entry : LedgerEntry) (t : Tables)
    → entry.balance_after
      ≡ applied entry.entry_type entry.amount (current_balance t entry.account_id).0
    → IsReconciled t
    → IsReconciled (posted env key entry t)
posted-IsReconciled env none entry t after h =
    booked-IsReconciled env.balance_id env.now (some entry.id) entry.currency entry t after h
posted-IsReconciled env (some key) entry t after h =
    booked-IsReconciled env.balance_id env.now (some entry.id) entry.currency entry t after h

Announced-Leaves :
    {A : Type 0} (auto : Bool) (a : A) (s : Session) (r : Result A × Session)
    → Announced a s r
    → IsReconciled s.tables
    → IsReconciled s.committed
    → Leaves auto r
Announced-Leaves auto a s (ok _, s') p t c = (rw p.0 t, rw p.1 c)
Announced-Leaves auto a s (err _, s') p t c = ((λ _. rw p.0 t), rw p.1 c)

-- The end of an operation: what follows the transaction runs only if that has gone through.
pub finish-Leaves :
    {B : Type 0} (auto : Bool) (done : Tables) (s : Session) (r : Result (Unit {0}) × Session)
    (f : Unit {0} → M B) (b : B)
    → Posts auto done s r
    → IsReconciled done
    → IsReconciled s.committed
    → ((s' : Session) → Announced b s' (f tt s'))
    → Leaves auto (((λ _. r) >>= f) s)
finish-Leaves true done s (ok tt, s') f b p h c k =
    Announced-Leaves true b s' (f tt s') (k s') (rw p.0 h) (rw p.1 h)
finish-Leaves false done s (ok tt, s') f b p h c k =
    Announced-Leaves false b s' (f tt s') (k s') (rw p.0 h) (rw p.1 c)
finish-Leaves auto done s (err e, s') f b p h c k = (λ a. rw (p.1 a) c, rw p.0 c)

module _ (env : Env) (request : CreditRequest) (auto : Bool) (s : Session)
    (reconciled : IsReconciled s.tables) (committed : IsReconciled s.committed) where
  credit_new-Leaves : Leaves auto (credit_new env request auto s)
  unfolding credit_new
  credit_new-Leaves =
      let entry = credit_entry env request s.tables in
      let key = given request.idempotency_key in
      finish-Leaves auto (posted env key entry s.tables) s
        (transaction auto (post env auto key entry) s)
        (λ _. announce env (Event.credited request.account_id entry.id request.amount) entry)
        (entry_public entry) (post-Posts env auto key entry s)
        (posted-IsReconciled env key entry s.tables refl reconciled) committed
        (announce-Announced env _ entry)

  pub credit-Leaves : Leaves auto (credit env request auto s)
  unfolding credit
  credit-Leaves = elim (Option-cases (replayed s.tables (given request.idempotency_key))) [
    | inl new ↦ rw new credit_new-Leaves
    | inr (e, old) ↦ rw old (reconciled, committed)
  ]

  debit_new-Leaves : Leaves auto (debit_new env request auto s)
  unfolding debit_new
  debit_new-Leaves =
      let entry = debit_entry env request s.tables in
      let key = given request.idempotency_key in
      elim (Bool-cases
        (overdraws env (current_balance s.tables request.account_id).0 request.amount)) [
          | inl short ↦ rw short ((λ _. reconciled), committed)
          | inr covered ↦ rw covered (
              finish-Leaves auto (posted env key entry s.tables) s
                (transaction auto (post env auto key entry) s)
                (λ _. announce env (Event.debited request.account_id entry.id request.amount) entry)
                (entry_public entry) (post-Posts env auto key entry s)
                (posted-IsReconciled env key entry s.tables refl reconciled) committed
                (announce-Announced env _ entry))
        ]

  pub debit-Leaves : Leaves auto (debit env request auto s)
  unfolding debit
  debit-Leaves = elim (Option-cases (replayed s.tables (given request.idempotency_key))) [
    | inl new ↦ rw new debit_new-Leaves
    | inr (e, old) ↦ rw old (reconciled, committed)
  ]

module _ (env : Env) (account original : ℕ) (key : String) (s : Session)
    (reconciled : IsReconciled s.tables) (committed : IsReconciled s.committed) where
  refund_new-Leaves : Leaves true (refund_new env account original key s)
  unfolding refund_new
  refund_new-Leaves = elim (Option-cases (refundable account (get_entry_by_id s.tables original))) [
    | inl missing ↦ rw missing ((λ _. reconciled), committed)
    | inr (e, found) ↦
        let entry = refund_entry env account key e s.tables in
        rw found (
          finish-Leaves true (posted env (some key) entry s.tables) s
            (transaction true (post env true (some key) entry) s)
            (λ _. announce env (Event.refunded account entry.id e.id) entry) (entry_public entry)
            (post-Posts env true (some key) entry s)
            (posted-IsReconciled env (some key) entry s.tables refl reconciled) committed
            (announce-Announced env _ entry))
  ]

  pub refund-Leaves : Leaves true (refund env account original key s)
  unfolding refund
  refund-Leaves = elim (Option-cases (replayed s.tables (some key))) [
    | inl new ↦ rw new refund_new-Leaves
    | inr (e, old) ↦ rw old (reconciled, committed)
  ]
