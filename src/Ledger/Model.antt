-- ===== src/Ledger/Model.antt =====
-- swx_core/models/ledger.py: the rows of the three tables, the requests and the session that an
-- operation runs in. UUIDs are only compared, so they are numbers; amounts are positive by the
-- requests' validation, so they are numbers too, while a balance can be negative.
use swx.Prelude.{ℕ, Bool, true, false, String, Option, List, if◌then◌else◌}
use swx.Prelude.Int.{ℤ}

pub data EntryType : Type 0 where
  credit debit refund adjustment : EntryType

abbrev pub entry_type_beq : EntryType → EntryType → Bool
entry_type_beq EntryType.credit EntryType.credit = true
entry_type_beq EntryType.debit EntryType.debit = true
entry_type_beq EntryType.refund EntryType.refund = true
entry_type_beq EntryType.adjustment EntryType.adjustment = true
entry_type_beq _ _ = false

pub record LedgerEntry : Type 0 where
  pub id : ℕ
  pub account_id : ℕ
  pub entry_type : EntryType
  pub amount : ℕ
  pub currency : String
  pub reference_type : Option String
  pub reference_id : Option String
  pub idempotency_key : Option String
  pub description : Option String
  pub metadata : List (String × String)
  pub balance_after : ℤ
  pub created_at : ℕ
  pub created_by : Option ℕ

-- `LedgerEntryPublic`, what an operation returns.
pub record LedgerEntryPublic : Type 0 where
  pub id : ℕ
  pub account_id : ℕ
  pub entry_type : EntryType
  pub amount : ℕ
  pub currency : String
  pub reference_type : Option String
  pub reference_id : Option String
  pub idempotency_key : Option String
  pub description : Option String
  pub entry_metadata : List (String × String)
  pub balance_after : ℤ
  pub created_at : ℕ
  pub created_by : Option ℕ

pub record LedgerBalance : Type 0 where
  pub id : ℕ
  pub account_id : ℕ
  pub currency : String
  pub balance : ℤ
  pub last_entry_id : Option ℕ
  pub updated_at : ℕ

pub record IdempotencyRecord : Type 0 where
  pub key : String
  pub account_id : ℕ
  pub entry_id : Option ℕ
  pub status : String

-- `CreditRequest`, and `DebitRequest`, which adds nothing to it.
pub record CreditRequest : Type 0 where
  pub account_id : ℕ
  pub amount : ℕ
  pub currency : String
  pub reference_type : Option String
  pub reference_id : Option String
  pub idempotency_key : Option String
  pub description : Option String

pub record TransferRequest : Type 0 where
  pub from_account_id : ℕ
  pub to_account_id : ℕ
  pub amount : ℕ
  pub currency : String
  pub idempotency_key : String
  pub description : Option String

-- The tables, the newest entry first. `account_id` of a balance and `key` of a record are unique
-- columns, so those two tables are dictionaries.
pub record Tables : Type 0 where
  pub entries : List LedgerEntry
  pub balances : List (ℕ × LedgerBalance)
  pub records : List (String × IdempotencyRecord)

-- What an operation dispatches on the event bus: the name, an account, an entry and the amount.
pub data Event : Type 0 where
  credited debited refunded : ℕ → ℕ → ℕ → Event
  transferred : ℕ → ℕ → ℕ → ℕ → ℕ → Event

-- An `AsyncSession`: the tables as its statements see them, and as they were last committed.
pub record Session : Type 0 where
  pub tables : Tables
  pub committed : Tables
  pub events : List Event

-- The statements that the database can refuse.
pub data Statement : Type 0 where
  insert_entry insert_credit_leg upsert_first upsert_second insert_record commits : Statement

-- What an operation takes from outside: the settings, the clock, the fresh UUIDs, the text of a
-- UUID, which of its statements the database refuses, and which events the event bus raises for:
-- its handler of a listener's error can raise an `AttributeError` of its own.
pub record Env : Type 0 where
  pub allow_negative_balance : Bool
  pub now : ℕ
  pub entry_id : ℕ
  pub credit_entry_id : ℕ
  pub balance_id : ℕ
  pub second_balance_id : ℕ
  pub uuid_text : ℕ → String
  pub refuses : Statement → Bool
  pub dispatch_raises : Event → Bool

-- The exceptions: the `HTTPException`s by their meaning, a database error, and one of the event bus.
pub data Error : Type 0 where
  insufficient_balance original_not_found record_invalid credit_leg_not_found database bus : Error

pub data Result {ℓ} (A : Type ℓ) : Type ℓ where
  ok : A → Result A
  err : Error → Result A

abbrev pub M {ℓ} : Type ℓ → Type ℓ
M A = Session → Result A × Session

infixl 5 ◌>>=◌ ◌>>◌
abbrev pub ◌>>=◌ {ℓ κ} : {A : Type ℓ} {B : Type κ} → M A → (A → M B) → M B
◌>>=◌ m f s = let (r, s') = m s in elim r [ ok a ↦ f a s' | err e ↦ (err e, s') ]

abbrev pub ◌>>◌ {ℓ κ} : {A : Type ℓ} {B : Type κ} → M A → M B → M B
m >> k = m >>= λ _. k

module _ {ℓ} {A : Type ℓ} where
  abbrev pub pure : A → M A
  pure a s = (ok a, s)

  abbrev pub raise : Error → M A
  raise e s = (err e, s)

  abbrev pub gets : (Tables → A) → M A
  gets f s = (ok (f s.tables), s)

abbrev pub raise_if : Bool → Error → M (Unit {0})
raise_if test e s = (if test then err e else ok tt, s)
