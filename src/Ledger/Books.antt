-- ===== src/Ledger/Books.antt =====
-- The books: what `reconcile` computes from the entries against the balance row, under the table
-- changes of swx_core/repositories/ledger_repository.py.
use swx.Prelude.{
  ℕ, ◌≡◌, refl, sym, ◌∙◌, Bool, true, false, String, Option, none, some, List, [], ◌∷◌, arith, ◌==◌,
  nat_eq, if◌then◌else◌, any, eqb_iff, beq_refl, subst,
}
use swx.Prelude.Int.{ℤ, pos, ◌+ℤ◌, ◌-ℤ◌}
use swx.Prelude.Dict.{lookup-insert}
use swx.Ledger.Model.{EntryType, LedgerEntry, LedgerBalance, Tables}
use swx.Ledger.Repository.{get_balance, add_entry, put_balance, upserted, latest_of, sum_entries}
use swx.Ledger.Service.{current_balance, balance_of_row, balance_of_latest}
use swx.Ledger.Transfers.{computed, computed_of}

-- What an entry does to its account's balance.
abbrev pub applied : EntryType → ℕ → ℤ → ℤ
applied EntryType.debit amount balance = balance -ℤ pos amount
applied EntryType.credit amount balance = balance +ℤ pos amount
applied EntryType.refund amount balance = balance +ℤ pos amount
applied EntryType.adjustment amount balance = balance +ℤ pos amount

abbrev pub has_entries : ℕ → List LedgerEntry → Bool
has_entries account = any (λ e. e.account_id == account)

-- An account's row holds the sum of its entries; an account with no row has no entries.
abbrev pub RowAgrees : Option LedgerBalance → List LedgerEntry → ℕ → Type 0
RowAgrees none entries account = has_entries account entries ≡ false
RowAgrees (some row) entries account = row.balance ≡ computed_of entries account

abbrev pub IsReconciled : Tables → Type 0
IsReconciled t = (account : ℕ) → RowAgrees (get_balance t account) t.entries account

computed-by_type :
    (type : EntryType) (e : LedgerEntry) (t : Tables)
    → e.entry_type ≡ type
    → computed (add_entry e t) e.account_id ≡ applied type e.amount (computed t e.account_id)
unfolding computed_of ◌+ℤ◌ ◌-ℤ◌
computed-by_type EntryType.credit e t h = ground (arith, h)
computed-by_type EntryType.debit e t h = ground (arith, h)
computed-by_type EntryType.refund e t h = ground (arith, h)
computed-by_type EntryType.adjustment e t h = ground (arith, h)

pub computed-add_entry_self :
    (e : LedgerEntry) (t : Tables)
    → computed (add_entry e t) e.account_id
      ≡ applied e.entry_type e.amount (computed t e.account_id)
computed-add_entry_self e t = computed-by_type e.entry_type e t refl

pub computed-add_entry_ne :
    (e : LedgerEntry) (t : Tables) (account : ℕ)
    → (e.account_id == account) ≡ false
    → computed (add_entry e t) account ≡ computed t account
unfolding computed_of
computed-add_entry_ne e t account h = ground (arith, h)

latest_of-untouched :
    (account : ℕ) (es : List LedgerEntry)
    → has_entries account es ≡ false
    → latest_of account es ≡ none
latest_of-untouched account [] h = refl
latest_of-untouched account (e ∷ es) h = ground (arith, latest_of-untouched account es)

sum_entries-untouched :
    (account : ℕ) (type : EntryType) (es : List LedgerEntry)
    → has_entries account es ≡ false
    → sum_entries account type es ≡ 0
unfolding sum_entries
sum_entries-untouched account type [] h = refl
sum_entries-untouched account type (e ∷ es) h =
    ground (arith, sum_entries-untouched account type es)

pub computed-untouched :
    (t : Tables) (account : ℕ) → has_entries account t.entries ≡ false → computed t account ≡ pos 0
unfolding computed_of
computed-untouched t account h = rw (
  sum_entries-untouched account EntryType.credit t.entries h,
  sum_entries-untouched account EntryType.refund t.entries h,
  sum_entries-untouched account EntryType.adjustment t.entries h,
  sum_entries-untouched account EntryType.debit t.entries h,
)

balance_of_row-computed :
    (o : Option LedgerBalance) (t : Tables) (account : ℕ)
    → RowAgrees o t.entries account
    → (balance_of_row o (balance_of_latest (latest_of account t.entries))).0 ≡ computed t account
balance_of_row-computed none t account h =
    rw (latest_of-untouched account t.entries h) (sym (computed-untouched t account h))
balance_of_row-computed (some row) t account h = h

-- On reconciled books the balance that an operation starts from is the sum of the entries.
pub current_balance-computed :
    (t : Tables) (account : ℕ) → IsReconciled t → (current_balance t account).0 ≡ computed t account
current_balance-computed t account h =
    balance_of_row-computed (get_balance t account) t account (h account)

-- Another account's row is not concerned by an entry.
RowAgrees-add_entry_ne :
    (o : Option LedgerBalance) (e : LedgerEntry) (t : Tables) (account : ℕ)
    → (e.account_id == account) ≡ false
    → RowAgrees o t.entries account
    → RowAgrees o (e ∷ t.entries) account
RowAgrees-add_entry_ne none e t account ne h = rw ne h
RowAgrees-add_entry_ne (some row) e t account ne h = h ∙ sym (computed-add_entry_ne e t account ne)

pub balance-upserted :
    (id now account : ℕ) (balance : ℤ) (last : Option ℕ) (currency : String)
    (o : Option LedgerBalance)
    → (upserted id now account balance last currency o).balance ≡ balance
balance-upserted id now account balance last currency none = refl
balance-upserted id now account balance last currency (some row) = refl

pub get_balance-put_balance :
    (id now account : ℕ) (balance : ℤ) (last : Option ℕ) (currency : String) (t : Tables) (j : ℕ)
    → get_balance (put_balance id now account balance last currency t) j ≡ (
        if account == j
        then some (upserted id now account balance last currency (get_balance t account))
        else get_balance t j)
get_balance-put_balance id now account balance last currency t j =
    lookup-insert j account _ t.balances

-- An entry whose `balance_after` continues the books, with its row, keeps them reconciled.
module _ (id now : ℕ) (last : Option ℕ) (currency : String) (e : LedgerEntry) (t : Tables) where
  abbrev pub booked : Tables
  booked = put_balance id now e.account_id e.balance_after last currency (add_entry e t)

  booked-RowAgrees_self :
      e.balance_after ≡ applied e.entry_type e.amount (computed t e.account_id)
      → RowAgrees (get_balance booked e.account_id) booked.entries e.account_id
  unfolding computed_of
  booked-RowAgrees_self after =
      rw (lookup-insert e.account_id e.account_id _ t.balances, beq_refl e.account_id)
        (balance-upserted id now e.account_id e.balance_after last currency
            (get_balance t e.account_id)
          ∙ after
          ∙ sym (computed-add_entry_self e t))

  booked-RowAgrees :
      (j : ℕ) (test : Bool)
      → (e.account_id == j) ≡ test
      → e.balance_after ≡ applied e.entry_type e.amount (computed t e.account_id)
      → IsReconciled t
      → RowAgrees (get_balance booked j) booked.entries j
  unfolding computed_of
  booked-RowAgrees j true same after h =
      subst (λ k. RowAgrees (get_balance booked k) booked.entries k)
        ((eqb_iff e.account_id j).0 same) (booked-RowAgrees_self after)
  booked-RowAgrees j false other after h =
      rw (lookup-insert j e.account_id _ t.balances, other)
        (RowAgrees-add_entry_ne (get_balance t j) e t j other (h j))

  pub booked-IsReconciled :
      e.balance_after ≡ applied e.entry_type e.amount (current_balance t e.account_id).0
      → IsReconciled t
      → IsReconciled booked
  booked-IsReconciled after h j =
      booked-RowAgrees j (e.account_id == j) refl
        (rw (← current_balance-computed t e.account_id h) after) h
