-- ===== src/Ledger/History.antt =====
-- Histories of calls of swx_core/services/ledger_service.py in one session.
use swx.Prelude.{◌≡◌, ◌≢◌, refl, Bool, true, String, List, [], ◌∷◌, ℕ, Option-cases, inl, inr}
use swx.Prelude.Int.{ℤ_beq_iff}
use swx.Ledger.Model.{
  LedgerEntryPublic, CreditRequest, TransferRequest, Tables, Session, Env, Result, ok, err, M,
  ◌>>=◌, pure,
}
use swx.Ledger.Repository.{get_balance}
use swx.Ledger.Service.{credit, debit, refund}
use swx.Ledger.Transfers.{reconcile, transfer}
use swx.Ledger.Books.{IsReconciled, computed-untouched}
use swx.Ledger.Reconciled.{Leaves, credit-Leaves, debit-Leaves, refund-Leaves}
use swx.Ledger.Legs.{transfer-Leaves}

pub data Call : Type 0 where
  credits debits : CreditRequest → Bool → Call
  refunds : ℕ → ℕ → String → Call
  transfers : TransferRequest → Call

-- A call, with its `auto_commit` where it has one, and the entries that it answers.
unfoldable pub perform : Env → Call → M (List LedgerEntryPublic)
perform env (credits r auto) = do entry ← credit env r auto; pure (entry ∷ [])
perform env (debits r auto) = do entry ← debit env r auto; pure (entry ∷ [])
perform env (refunds account original key) = do
  entry ← refund env account original key
  pure (entry ∷ [])
perform env (transfers r) = do (from, to) ← transfer env r; pure (from ∷ to ∷ [])

-- The calls of a history, each with what it takes from outside.
unfoldable pub run : List (Env × Call) → Session → Session
run [] s = s
run ((env, call) ∷ rest) s = run rest (perform env call s).1

-- Whether a call ends its own transaction.
abbrev pub commits_itself : Call → Bool
commits_itself (credits r auto) = auto
commits_itself (debits r auto) = auto
commits_itself (refunds account original key) = true
commits_itself (transfers r) = true

-- A credit or a debit ends its own transaction, and no transfer goes from an account to itself.
abbrev pub IsApart : Call → Type 0
IsApart (credits r auto) = auto ≡ true
IsApart (debits r auto) = auto ≡ true
IsApart (refunds account original key) = Unit
IsApart (transfers r) = r.from_account_id ≢ r.to_account_id

abbrev pub AllApart : List (Env × Call) → Type 0
AllApart [] = Unit
AllApart ((env, call) ∷ rest) = IsApart call × AllApart rest

abbrev pub IsSound : Session → Type 0
IsSound s = IsReconciled s.tables × IsReconciled s.committed

map-Leaves {ℓ κ} :
    {A : Type ℓ} {B : Type κ} (auto : Bool) (f : A → B) (s : Session) (r : Result A × Session)
    → auto ≡ true
    → Leaves auto r
    → IsSound (((λ _. r) >>= λ a. pure (f a)) s).1
map-Leaves auto f s (ok a, s') own h = h
map-Leaves auto f s (err e, s') own h = (h.0 own, h.1)

perform-IsSound :
    (env : Env) (call : Call) (s : Session)
    → IsApart call
    → IsSound s
    → IsSound (perform env call s).1
unfolding perform
perform-IsSound env (credits r auto) s own h =
    map-Leaves auto (λ e. e ∷ []) s (credit env r auto s) own (credit-Leaves env r auto s h.0 h.1)
perform-IsSound env (debits r auto) s own h =
    map-Leaves auto (λ e. e ∷ []) s (debit env r auto s) own (debit-Leaves env r auto s h.0 h.1)
perform-IsSound env (refunds account original key) s apart h =
    map-Leaves true (λ e. e ∷ []) s (refund env account original key s) refl
      (refund-Leaves env account original key s h.0 h.1)
perform-IsSound env (transfers r) s apart h =
    map-Leaves true (λ p. p.0 ∷ p.1 ∷ []) s (transfer env r s) refl
      (transfer-Leaves env r s apart h.0 h.1)

pub run-IsSound :
    (calls : List (Env × Call)) (s : Session) → AllApart calls → IsSound s → IsSound (run calls s)
unfolding run
run-IsSound [] s apart h = h
run-IsSound ((env, call) ∷ rest) s apart h =
    run-IsSound rest (perform env call s).1 apart.1 (perform-IsSound env call s apart.0 h)

matches-RowAgrees :
    (t : Tables) (account : ℕ) → IsReconciled t → (reconcile t account).matches ≡ true
unfolding reconcile
matches-RowAgrees t account h = elim (Option-cases (get_balance t account)) [
  | inl e ↦ rw e (rw (computed-untouched t account (rw e at (h account))))
  | inr (row, e) ↦ rw e ((ℤ_beq_iff _ _).1 (rw e at (h account)))
]

-- After any history of credits and debits that end their own transactions, refunds, and transfers
-- between two accounts, refused calls and replays included, that starts from reconciled books, `reconcile` reports for every account
-- that its row matches the sum of its entries.
pub run_reconciles :
    (calls : List (Env × Call)) (s : Session) (account : ℕ)
    → AllApart calls
    → IsSound s
    → (reconcile (run calls s).tables account).matches ≡ true
run_reconciles calls s account apart h =
    matches-RowAgrees (run calls s).tables account (run-IsSound calls s apart h).0
