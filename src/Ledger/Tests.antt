-- ===== src/Ledger/Tests.antt =====
-- The ledger's theorems at concrete sessions, and runs of the service.
use swx.Prelude.{
  ℕ, ◌+◌, ◌≡◌, refl, ap, Bool, true, false, String, none, some, List, [], ◌∷◌, arith, if◌then◌else◌,
  ◌==◌, nat_eq,
}
use swx.Prelude.Int.{pos, ◌+ℤ◌, ◌-ℤ◌, ◌≤ℤ◌}
use swx.Ledger.Model.{
  EntryType, LedgerEntry, CreditRequest, TransferRequest, Tables, Session, Statement, Env,
}
use swx.Ledger.Repository.{get_entry_by_id, upsert_balance}
use swx.Ledger.Service.{credit, debit, refund, current_balance}
use swx.Ledger.Transfers.{transfer, reconcile}
use swx.Ledger.Books.{IsReconciled}
use swx.Ledger.History.{
  Call, credits, debits, refunds, transfers, perform, run, run_reconciles, IsSound, run-IsSound,
}
use swx.Ledger.Atomic.{IsAtomic, perform-IsAtomic}
use swx.Ledger.TransferLaws.{transfer_moves, self_transfer_mints}
use swx.Ledger.Retried.{charges, charges_retried}
use swx.Ledger.Limits.{debit_covered, refund_restores}

-- The `n`-th call; the database refuses nothing.
abbrev env_at : ℕ → Env
env_at n = record {
  allow_negative_balance = false;
  now = n;
  entry_id = n;
  credit_entry_id = n + 1;
  balance_id = n + 2;
  second_balance_id = n + 3;
  uuid_text = λ i. if i == 20 then "20" else "other";
  refuses = λ statement. false;
  dispatch_raises = λ event. false;
}

abbrev refuses_record : Statement → Bool
refuses_record Statement.insert_record = true
refuses_record _ = false

abbrev env_failing : Env
env_failing = record (env_at 40) { refuses = refuses_record }

abbrev nothing : Tables
nothing = record { entries = []; balances = []; records = [] }

abbrev empty : Session
empty = record { tables = nothing; committed = nothing; events = [] }

empty-IsReconciled : IsReconciled empty.tables
empty-IsReconciled account = refl

abbrev asking : ℕ → String → CreditRequest
asking amount key = record {
  account_id = 1;
  amount = amount;
  currency = "EUR";
  reference_type = none;
  reference_id = none;
  idempotency_key = some key;
  description = none;
}

abbrev moving : ℕ → String → TransferRequest
moving to key = record {
  from_account_id = 1;
  to_account_id = to;
  amount = 30;
  currency = "EUR";
  idempotency_key = key;
  description = none;
}

abbrev calls : List (Env × Call)
calls =
    (env_at 10, credits (asking 100 "a") true)
    ∷ (env_at 20, debits (asking 40 "b") true)
    ∷ (env_at 30, refunds 1 20 "c")
    ∷ (env_failing, credits (asking 5 "f") true)
    ∷ (env_at 50, transfers (moving 2 "d"))
    ∷ (env_at 60, debits (asking 900 "e") true)
    ∷ []

balances_of_run : (current_balance (run calls empty).tables 1).0 ≡ pos 70
unfolding run perform credit debit refund transfer ◌+ℤ◌ ◌-ℤ◌ upsert_balance
balances_of_run = refl

run_reconciles_example : (reconcile (run calls empty).tables 2).matches ≡ true
run_reconciles_example =
    run_reconciles calls empty 2
      (refl, (refl, (tt, (refl, ((λ e. absurd (omega arith)), (refl, tt))))))
      (empty-IsReconciled, empty-IsReconciled)

perform-IsAtomic_example :
    IsAtomic true empty (perform env_failing (credits (asking 5 "f") true) empty)
perform-IsAtomic_example = perform-IsAtomic env_failing (credits (asking 5 "f") true) empty refl

-- Account 1 holds a hundred.
abbrev funded : Session
funded = run ((env_at 10, credits (asking 100 "a") true) ∷ []) empty

funded-IsSound : IsSound funded
funded-IsSound =
    run-IsSound ((env_at 10, credits (asking 100 "a") true) ∷ []) empty (refl, tt)
      (empty-IsReconciled, empty-IsReconciled)

transfer_moves_example :
    (current_balance (transfer (env_at 50) (moving 2 "d") funded).1.tables 1).0
    ≡ (current_balance funded.tables 1).0 -ℤ pos 30
unfolding run perform credit transfer ◌+ℤ◌ ◌-ℤ◌ upsert_balance
transfer_moves_example =
    transfer_moves (env_at 50) (moving 2 "d") funded (λ e. absurd (omega arith)) funded-IsSound.0 1
      refl refl

self_transfer_mints_example :
    let books = reconcile (transfer (env_at 50) (moving 1 "d") funded).1.tables 1 in
    (books.matches ≡ false) × (books.cached_balance ≡ books.computed_balance +ℤ pos 30)
unfolding run perform credit transfer ◌+ℤ◌ ◌-ℤ◌ upsert_balance
self_transfer_mints_example =
    self_transfer_mints (env_at 50) (moving 1 "d") funded refl (omega arith) funded-IsSound.0 refl
      refl

-- The first debit of `calls` asked for again at the end, for another amount.
charges_retried_example :
    let s =
      run
        ((env_at 50, transfers (moving 2 "d")) ∷ (env_failing, credits (asking 5 "f") true) ∷ [])
        (charges true (env_at 20) (asking 40 "b") true funded).1 in
    (charges true (env_at 60) (asking 70 "b") true s).1 ≡ s
unfolding run perform credit debit transfer ◌+ℤ◌ ◌-ℤ◌ upsert_balance
charges_retried_example =
    ap (λ r. r.1)
      (charges_retried (env_at 20) (env_at 60) (asking 40 "b") (asking 70 "b") true true true funded
        ((env_at 50, transfers (moving 2 "d")) ∷ (env_failing, credits (asking 5 "f") true) ∷ [])
        refl refl refl refl (refl, (refl, tt))
        (
          (λ e. absurd (omega arith)),
          (λ e. absurd (omega arith)),
          ((λ e. absurd (omega arith)), (λ e. absurd (omega arith)), tt),
        ))

debit_covered_example : pos 0 ≤ℤ pos 60
unfolding run perform credit debit ◌+ℤ◌ ◌-ℤ◌ upsert_balance
debit_covered_example = (debit_covered (env_at 20) (asking 40 "b") true funded refl refl refl).1

-- Account 1 after a debit of forty, entry 20.
abbrev charged : Session
charged = run ((env_at 20, debits (asking 40 "b") true) ∷ []) funded

refund_restores_example :
    (e : LedgerEntry) × (get_entry_by_id charged.tables 20 ≡ some e)
    × (e.account_id ≡ 1)
    × (e.entry_type ≡ EntryType.debit)
    × (40 ≡ e.amount)
    × (pos 100 ≡ (current_balance charged.tables 1).0 +ℤ pos e.amount)
    × ((j : ℕ)
        → (current_balance (refund (env_at 30) 1 20 "c" charged).1.tables j).0 ≡ (
            if 1 == j
            then (current_balance charged.tables 1).0 +ℤ pos e.amount
            else (current_balance charged.tables j).0))
unfolding run perform credit debit refund ◌+ℤ◌ ◌-ℤ◌ upsert_balance
refund_restores_example = refund_restores (env_at 30) 1 20 "c" charged refl refl
