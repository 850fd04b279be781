-- ===== src/Ledger/Service.antt =====
-- swx_core/services/ledger_service.py: the operations of the ledger. An operation that raises
-- leaves the session as the source does: rolled back, unless the caller keeps the transaction.
use Prim.Native.String.{◌++◌ as ◌text++◌}
use swx.Prelude.{
  ℕ, Bool, true, false, ◌&&◌, not, String, Option, none, some, [], ◌∷◌, ◌==◌, nat_eq, string_eq,
  if◌then◌else◌,
}
use swx.Prelude.Int.{ℤ, pos, ◌+ℤ◌, ◌-ℤ◌, ltb_ℤ}
use swx.Ledger.Model.{
  EntryType, entry_type_beq, LedgerEntry, LedgerEntryPublic, LedgerBalance, IdempotencyRecord,
  CreditRequest, Tables, Session, Statement, Event, Env, Error, ok, err, M, ◌>>=◌, ◌>>◌, pure,
  raise, raise_if, gets,
}
use swx.Ledger.Repository.{
  get_entry_by_id, get_latest_entry, get_balance, get_idempotency_record, create_entry,
  upsert_balance, create_idempotency_record,
}

abbrev pub entry_public : LedgerEntry → LedgerEntryPublic
entry_public e = record {
  id = e.id;
  account_id = e.account_id;
  entry_type = e.entry_type;
  amount = e.amount;
  currency = e.currency;
  reference_type = e.reference_type;
  reference_id = e.reference_id;
  idempotency_key = e.idempotency_key;
  description = e.description;
  entry_metadata = e.metadata;
  balance_after = e.balance_after;
  created_at = e.created_at;
  created_by = e.created_by;
}

-- `if text`: Python takes the empty text for false.
abbrev pub given : Option String → Option String
given none = none
given (some k) = if k == "" then none else some k

-- `text or default`
abbrev pub or_default : String → String → String
or_default text default = if text == "" then default else text

abbrev pub entry_of_record : Tables → Option IdempotencyRecord → Option ℕ
entry_of_record t none = none
entry_of_record t (some r) = r.entry_id

abbrev pub entry_at : Tables → Option ℕ → Option LedgerEntry
entry_at t none = none
entry_at t (some i) = get_entry_by_id t i

-- `_existing_entry`
abbrev pub existing_entry : Tables → Option IdempotencyRecord → Option LedgerEntry
existing_entry t r = entry_at t (entry_of_record t r)

abbrev pub record_of_key : Tables → Option String → Option IdempotencyRecord
record_of_key t none = none
record_of_key t (some k) = get_idempotency_record t k

-- The entry that an earlier call under the same key has made.
abbrev pub replayed : Tables → Option String → Option LedgerEntry
replayed t key = existing_entry t (record_of_key t key)

abbrev pub balance_of_latest : Option LedgerEntry → ℤ × String
balance_of_latest none = (pos 0, "USD")
balance_of_latest (some e) = (e.balance_after, e.currency)

abbrev pub balance_of_row : Option LedgerBalance → ℤ × String → ℤ × String
balance_of_row none other = other
balance_of_row (some row) other = (row.balance, row.currency)

-- `_current_balance`
abbrev pub current_balance : Tables → ℕ → ℤ × String
current_balance t account =
    balance_of_row (get_balance t account) (balance_of_latest (get_latest_entry t account))

-- `session.commit()`
abbrev pub commit : Env → M (Unit {0})
commit env s = elim (env.refuses Statement.commits) [
  | true ↦ (err Error.database, s)
  | false ↦ (ok tt, record s { committed = s.tables })
]

abbrev rolled_back : Bool → Session → Session
rolled_back auto s = if auto then record s { tables = s.committed } else s

-- `try: … except Exception: if auto_commit: await session.rollback(); raise`
abbrev pub transaction {ℓ} : {A : Type ℓ} → Bool → M A → M A
transaction auto body s =
    let (r, s') = body s in elim r [ ok a ↦ (ok a, s') | err e ↦ (err e, rolled_back auto s') ]

abbrev pub commit_if : Env → Bool → M (Unit {0})
commit_if env true = commit env
commit_if env false = pure tt

-- `event_bus.dispatch`: the event is out also where the bus then raises.
abbrev pub dispatch : Env → Event → M (Unit {0})
dispatch env e s =
    (if env.dispatch_raises e then err Error.bus else ok tt, record s { events = e ∷ s.events })

-- The event that an operation dispatches once it has committed, and its answer.
abbrev pub announce : Env → Event → LedgerEntry → M LedgerEntryPublic
announce env event entry = do dispatch env event; pure (entry_public entry)

abbrev pub completed : String → ℕ → ℕ → IdempotencyRecord
completed key account entry = record {
  key = key;
  account_id = account;
  entry_id = some entry;
  status = "completed";
}

abbrev pub record_key : Env → Option String → ℕ → ℕ → M (Unit {0})
record_key env none account entry = pure tt
record_key env (some key) account entry =
    create_idempotency_record env (completed key account entry)

-- The body of the `try` of a credit, a debit and a refund: the entry, the balance, the key.
abbrev pub post : Env → Bool → Option String → LedgerEntry → M (Unit {0})
post env auto key entry = do
  create_entry env Statement.insert_entry entry
  upsert_balance env Statement.upsert_first env.balance_id entry.account_id entry.balance_after
      (some entry.id) entry.currency
  record_key env key entry.account_id entry.id
  commit_if env auto

abbrev pub entry_for : Env → EntryType → CreditRequest → String → ℤ → LedgerEntry
entry_for env type request currency after = record {
  id = env.entry_id;
  account_id = request.account_id;
  entry_type = type;
  amount = request.amount;
  currency = or_default request.currency currency;
  reference_type = request.reference_type;
  reference_id = request.reference_id;
  idempotency_key = request.idempotency_key;
  description = request.description;
  metadata = [];
  balance_after = after;
  created_at = env.now;
  created_by = none;
}

abbrev pub credit_entry : Env → CreditRequest → Tables → LedgerEntry
credit_entry env request t =
    let (balance, currency) = current_balance t request.account_id in
    entry_for env EntryType.credit request currency (balance +ℤ pos request.amount)

abbrev pub debit_entry : Env → CreditRequest → Tables → LedgerEntry
debit_entry env request t =
    let (balance, currency) = current_balance t request.account_id in
    entry_for env EntryType.debit request currency (balance -ℤ pos request.amount)

unfoldable pub credit_new : Env → CreditRequest → Bool → M LedgerEntryPublic
credit_new env request auto = do
  entry ← gets (credit_entry env request)
  transaction auto (post env auto (given request.idempotency_key) entry)
  announce env (Event.credited request.account_id entry.id request.amount) entry

abbrev or_replay : Option LedgerEntry → M LedgerEntryPublic → M LedgerEntryPublic
or_replay none new = new
or_replay (some entry) new = pure (entry_public entry)

unfoldable pub credit : Env → CreditRequest → Bool → M LedgerEntryPublic
unfolding credit_new
credit env request auto s =
    or_replay (replayed s.tables (given request.idempotency_key)) (credit_new env request auto) s

-- `not LEDGER_ALLOW_NEGATIVE_BALANCE and balance < amount`
abbrev pub overdraws : Env → ℤ → ℕ → Bool
overdraws env balance amount = not env.allow_negative_balance && ltb_ℤ balance (pos amount)

unfoldable pub debit_new : Env → CreditRequest → Bool → M LedgerEntryPublic
debit_new env request auto = do
  balance ← gets (λ t. (current_balance t request.account_id).0)
  raise_if (overdraws env balance request.amount) Error.insufficient_balance
  entry ← gets (debit_entry env request)
  transaction auto (post env auto (given request.idempotency_key) entry)
  announce env (Event.debited request.account_id entry.id request.amount) entry

unfoldable pub debit : Env → CreditRequest → Bool → M LedgerEntryPublic
unfolding debit_new
debit env request auto s =
    or_replay (replayed s.tables (given request.idempotency_key)) (debit_new env request auto) s

-- The entry that a refund of `original` writes.
abbrev pub refund_entry : Env → ℕ → String → LedgerEntry → Tables → LedgerEntry
refund_entry env account key original t = record {
  id = env.entry_id;
  account_id = account;
  entry_type = EntryType.refund;
  amount = original.amount;
  currency = original.currency;
  reference_type = some "refund";
  reference_id = some (env.uuid_text original.id);
  idempotency_key = some key;
  description = some ("Refund for entry " text++ env.uuid_text original.id);
  metadata = [];
  balance_after = (current_balance t account).0 +ℤ pos original.amount;
  created_at = env.now;
  created_by = none;
}

-- `not original_entry or original_entry.account_id != account_id or … != DEBIT`
abbrev pub refundable : ℕ → Option LedgerEntry → Option LedgerEntry
refundable account none = none
refundable account (some e) =
    if e.account_id == account && entry_type_beq e.entry_type EntryType.debit then some e else none

abbrev refund_of : Env → ℕ → String → Option LedgerEntry → M LedgerEntryPublic
refund_of env account key none = raise Error.original_not_found
refund_of env account key (some original) = do
  entry ← gets (refund_entry env account key original)
  transaction true (post env true (some key) entry)
  announce env (Event.refunded account entry.id original.id) entry

unfoldable pub refund_new : Env → ℕ → ℕ → String → M LedgerEntryPublic
refund_new env account original key s =
    refund_of env account key (refundable account (get_entry_by_id s.tables original)) s

unfoldable pub refund : Env → ℕ → ℕ → String → M LedgerEntryPublic
unfolding refund_new
refund env account original key s =
    or_replay (replayed s.tables (some key)) (refund_new env account original key) s
