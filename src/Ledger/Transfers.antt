-- ===== src/Ledger/Transfers.antt =====
-- swx_core/services/ledger_service.py: `transfer`, which writes a debit leg and a credit leg in one
-- transaction, and the read side of the service, `get_balance` and `reconcile`.
use swx.Prelude.{ℕ, ◌+◌, Bool, true, String, Option, none, some, List, [], ◌∷◌, string_eq, nat_eq}
use swx.Prelude.Int.{ℤ, pos, ◌+ℤ◌, ◌-ℤ◌, ℤ_beq, sub_ℕ}
use swx.Ledger.Model.{
  EntryType, LedgerEntry, LedgerEntryPublic, LedgerBalance, IdempotencyRecord, TransferRequest,
  Tables, Statement, Event, Env, Error, M, ◌>>=◌, ◌>>◌, pure, raise, gets, raise_if,
}
use swx.Ledger.Repository.{
  get_entry_by_id, get_latest_entry, get_entries_by_reference, get_balance, get_idempotency_record,
  sum_entries, create_entry, upsert_balance, create_idempotency_record,
}
use swx.Ledger.Service.{
  entry_public, current_balance, commit, transaction, dispatch, overdraws, completed,
}

-- Both legs: `metadata_` names the other account.
abbrev pub leg :
    Env → TransferRequest → EntryType → ℕ → ℕ → String → List (String × String) → ℤ → LedgerEntry
leg env request type id account reference metadata after = record {
  id = id;
  account_id = account;
  entry_type = type;
  amount = request.amount;
  currency = request.currency;
  reference_type = some "adjustment";
  reference_id = some reference;
  idempotency_key = some request.idempotency_key;
  description = request.description;
  metadata = metadata;
  balance_after = after;
  created_at = env.now;
  created_by = none;
}

abbrev pub debit_leg : Env → TransferRequest → Tables → LedgerEntry
debit_leg env request t =
    leg env request EntryType.debit env.entry_id request.from_account_id request.idempotency_key
      (("transfer_to_account_id", env.uuid_text request.to_account_id) ∷ [])
      ((current_balance t request.from_account_id).0 -ℤ pos request.amount)

abbrev pub credit_leg : Env → TransferRequest → Tables → LedgerEntry
credit_leg env request t =
    leg env request EntryType.credit env.credit_entry_id request.to_account_id
      (env.uuid_text env.entry_id)
      (("transfer_from_account_id", env.uuid_text request.from_account_id) ∷ [])
      ((current_balance t request.to_account_id).0 +ℤ pos request.amount)

-- The body of the `try`.
abbrev pub post_legs : Env → TransferRequest → LedgerEntry → LedgerEntry → M (Unit {0})
post_legs env request from to = do
  create_entry env Statement.insert_entry from
  create_entry env Statement.insert_credit_leg to
  upsert_balance env Statement.upsert_first env.balance_id request.from_account_id
      from.balance_after (some from.id) request.currency
  upsert_balance env Statement.upsert_second env.second_balance_id request.to_account_id
      to.balance_after (some to.id) request.currency
  create_idempotency_record env (completed request.idempotency_key request.from_account_id from.id)
  commit env

-- The three events and the answer.
abbrev pub announce_legs :
    Env → TransferRequest → LedgerEntry → LedgerEntry → M (LedgerEntryPublic × LedgerEntryPublic)
announce_legs env request from to = do
  dispatch env (Event.debited request.from_account_id from.id request.amount)
  dispatch env (Event.credited request.to_account_id to.id request.amount)
  dispatch env
      (Event.transferred request.from_account_id request.to_account_id from.id to.id request.amount)
  pure (entry_public from, entry_public to)

unfoldable pub transfer_new : Env → TransferRequest → M (LedgerEntryPublic × LedgerEntryPublic)
transfer_new env request = do
  balance ← gets (λ t. (current_balance t request.from_account_id).0)
  raise_if (overdraws env balance request.amount) Error.insufficient_balance
  from ← gets (debit_leg env request)
  to ← gets (credit_leg env request)
  transaction true (post_legs env request from to)
  announce_legs env request from to

abbrev pub first_leg : LedgerEntry → List LedgerEntry → M (LedgerEntryPublic × LedgerEntryPublic)
first_leg from [] = raise Error.credit_leg_not_found
first_leg from (to ∷ _) = pure (entry_public from, entry_public to)

abbrev pub earlier_legs :
    Env → TransferRequest → Option LedgerEntry → M (LedgerEntryPublic × LedgerEntryPublic)
earlier_legs env request none = raise Error.record_invalid
earlier_legs env request (some from) = do
  legs ←
      gets
        (λ t. get_entries_by_reference t request.to_account_id "adjustment" (env.uuid_text from.id))
  first_leg from legs

abbrev pub entry_of : Option IdempotencyRecord → Option ℕ
entry_of none = none
entry_of (some r) = r.entry_id

-- `if record and record.entry_id`
abbrev transfer_by :
    Env
    → TransferRequest
    → Option ℕ
    → M (LedgerEntryPublic × LedgerEntryPublic)
    → M (LedgerEntryPublic × LedgerEntryPublic)
transfer_by env request none new s = new s
transfer_by env request (some i) new s = earlier_legs env request (get_entry_by_id s.tables i) s

unfoldable pub transfer : Env → TransferRequest → M (LedgerEntryPublic × LedgerEntryPublic)
unfolding transfer_new
transfer env request s =
    transfer_by env request (entry_of (get_idempotency_record s.tables request.idempotency_key))
      (transfer_new env request) s

-- What `get_balance` answers: the row, or the zero balance in dollars of an unknown account.
pub record LedgerBalancePublic : Type 0 where
  pub id : ℕ
  pub account_id : ℕ
  pub currency : String
  pub balance : ℤ
  pub last_entry_id : Option ℕ
  pub updated_at : ℕ

abbrev balance_public : LedgerBalance → LedgerBalancePublic
balance_public row = record {
  id = row.id;
  account_id = row.account_id;
  currency = row.currency;
  balance = row.balance;
  last_entry_id = row.last_entry_id;
  updated_at = row.updated_at;
}

abbrev from_latest : Env → ℕ → Option LedgerEntry → M LedgerBalancePublic
from_latest env account none = pure (record {
  id = 0;
  account_id = account;
  currency = "USD";
  balance = pos 0;
  last_entry_id = none;
  updated_at = env.now;
})
from_latest env account (some e) = do
  cached ←
      upsert_balance env Statement.upsert_first env.balance_id account e.balance_after (some e.id)
        e.currency
  commit env
  pure (balance_public cached)

abbrev from_row : Env → ℕ → Option LedgerBalance → M LedgerBalancePublic
from_row env account (some row) s = pure (balance_public row) s
from_row env account none s = from_latest env account (get_latest_entry s.tables account) s

-- `ledger_service.get_balance`
unfoldable pub read_balance : Env → ℕ → M LedgerBalancePublic
read_balance env account s = from_row env account (get_balance s.tables account) s

pub record Reconciliation : Type 0 where
  pub cached_balance : ℤ
  pub computed_balance : ℤ
  pub matches : Bool

-- `credits + refunds + adjustments - debits`
unfoldable pub computed_of : List LedgerEntry → ℕ → ℤ
unfolding sum_entries
computed_of entries account =
    sub_ℕ
      (sum_entries account EntryType.credit entries
        + sum_entries account EntryType.refund entries
        + sum_entries account EntryType.adjustment entries)
      (sum_entries account EntryType.debit entries)

abbrev pub computed : Tables → ℕ → ℤ
computed t account = computed_of t.entries account

abbrev pub cached : Option LedgerBalance → ℤ
cached none = pos 0
cached (some row) = row.balance

unfoldable pub reconcile : Tables → ℕ → Reconciliation
reconcile t account = record {
  cached_balance = cached (get_balance t account);
  computed_balance = computed t account;
  matches = ℤ_beq (cached (get_balance t account)) (computed t account);
}
