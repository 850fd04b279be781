-- ===== src/Ledger/Repository.antt =====
-- swx_core/repositories/ledger_repository.py: the queries, as functions of the tables, and the
-- statements, which the database can refuse.
use swx.Prelude.{
  ℕ, ◌+◌, Bool, true, false, ◌&&◌, String, Option, none, some, List, [], ◌∷◌, ◌==◌, nat_eq,
  string_eq, if◌then◌else◌, ltb, filter,
}
use swx.Prelude.Int.{ℤ}
use swx.Prelude.Dict.{lookup, insert, contains}
use swx.Ledger.Model.{
  EntryType, entry_type_beq, LedgerEntry, LedgerBalance, IdempotencyRecord, Tables, Statement, Env,
  Error, ok, err, M, ◌>>=◌, pure, raise,
}

-- `get_entry_by_id`
abbrev pub find_entry : ℕ → List LedgerEntry → Option LedgerEntry
find_entry i [] = none
find_entry i (e ∷ es) = if e.id == i then some e else find_entry i es

abbrev pub get_entry_by_id : Tables → ℕ → Option LedgerEntry
get_entry_by_id t i = find_entry i t.entries

-- `ORDER BY created_at DESC, id DESC`: whether the first entry comes before the second.
abbrev pub is_newer : LedgerEntry → LedgerEntry → Bool
is_newer a b =
    if ltb b.created_at a.created_at
    then true
    else if a.created_at == b.created_at
    then ltb b.id a.id
    else false

abbrev pub newest : Option LedgerEntry → LedgerEntry → Option LedgerEntry
newest none e = some e
newest (some best) e = if is_newer best e then some best else some e

abbrev pub latest_of : ℕ → List LedgerEntry → Option LedgerEntry
latest_of account [] = none
latest_of account (e ∷ es) =
    let rest = latest_of account es in if e.account_id == account then newest rest e else rest

abbrev pub get_latest_entry : Tables → ℕ → Option LedgerEntry
get_latest_entry t account = latest_of account t.entries

abbrev text_is : Option String → String → Bool
text_is none k = false
text_is (some j) k = j == k

-- `ORDER BY created_at DESC`; of one time, the later row first.
abbrev pub insert_newest : LedgerEntry → List LedgerEntry → List LedgerEntry
insert_newest e [] = e ∷ []
insert_newest e (x ∷ xs) =
    if ltb e.created_at x.created_at then x ∷ insert_newest e xs else e ∷ x ∷ xs

abbrev pub newest_first : List LedgerEntry → List LedgerEntry
newest_first [] = []
newest_first (e ∷ es) = insert_newest e (newest_first es)

abbrev pub get_entries_by_reference : Tables → ℕ → String → String → List LedgerEntry
get_entries_by_reference t account kind reference = newest_first (
    filter
      (λ e.
        e.account_id == account
        && (text_is e.reference_type kind && text_is e.reference_id reference))
      t.entries)

abbrev pub get_balance : Tables → ℕ → Option LedgerBalance
get_balance t account = lookup account t.balances

abbrev pub get_idempotency_record : Tables → String → Option IdempotencyRecord
get_idempotency_record t key = lookup key t.records

-- `coalesce(sum(amount), 0)` of an account's entries of one type.
unfoldable pub sum_entries : ℕ → EntryType → List LedgerEntry → ℕ
sum_entries account type [] = 0
sum_entries account type (e ∷ es) =
    (if e.account_id == account && entry_type_beq e.entry_type type then e.amount else 0)
    + sum_entries account type es

-- A statement changes the tables, or the database refuses it.
abbrev pub execute : Env → Statement → (Tables → Tables) → M (Unit {0})
execute env statement change s = elim (env.refuses statement) [
  | true ↦ (err Error.database, s)
  | false ↦ (ok tt, record s { tables = change s.tables })
]

abbrev pub add_entry : LedgerEntry → Tables → Tables
add_entry e t = record t { entries = e ∷ t.entries }

abbrev pub create_entry : Env → Statement → LedgerEntry → M LedgerEntry
create_entry env statement e = execute env statement (add_entry e) >>= λ _. pure e

-- `INSERT … ON CONFLICT (account_id) DO UPDATE`
abbrev pub upserted : ℕ → ℕ → ℕ → ℤ → Option ℕ → String → Option LedgerBalance → LedgerBalance
upserted id now account balance last currency none = record {
  id = id;
  account_id = account;
  currency = currency;
  balance = balance;
  last_entry_id = last;
  updated_at = now;
}
upserted id now account balance last currency (some row) = record row {
  currency = currency;
  balance = balance;
  last_entry_id = last;
}

abbrev pub put_balance : ℕ → ℕ → ℕ → ℤ → Option ℕ → String → Tables → Tables
put_balance id now account balance last currency t = record t {
  balances =
      insert account (upserted id now account balance last currency (get_balance t account))
        t.balances;
}

abbrev or_missing : Option LedgerBalance → M LedgerBalance
or_missing none = raise Error.database
or_missing (some row) = pure row

unfoldable pub upsert_balance : Env → Statement → ℕ → ℕ → ℤ → Option ℕ → String → M LedgerBalance
upsert_balance env statement id account balance last currency =
    execute env statement (put_balance id env.now account balance last currency) >>= λ _ s.
    or_missing (get_balance s.tables account) s

abbrev pub add_record : IdempotencyRecord → Tables → Tables
add_record r t = record t { records = insert r.key r t.records }

-- The column `key` is unique: a second row under a key is refused.
abbrev pub create_idempotency_record : Env → IdempotencyRecord → M (Unit {0})
create_idempotency_record env r s = elim (contains r.key s.tables.records) [
  | true ↦ (err Error.database, s)
  | false ↦ execute env Statement.insert_record (add_record r) s
]
