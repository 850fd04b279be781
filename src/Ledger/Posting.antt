-- ===== src/Ledger/Posting.antt =====
-- How a posting ends (the `try` blocks of swx_core/services/ledger_service.py): everything is
-- written, or the session is rolled back.
use swx.Prelude.{
  ℕ, ◌≡◌, refl, ◌∷◌, Bool, true, false, String, Option, none, some, arith, nat_eq, string_eq,
  if◌then◌else◌, beq_refl, Bool-cases, inl, inr,
}
use swx.Prelude.Int.{ℤ}
use swx.Prelude.Dict.{lookup-insert}
use swx.Ledger.Model.{
  LedgerEntry, Tables, Session, Statement, Event, Env, Error, Result, ok, err, M, ◌>>◌, pure,
}
use swx.Ledger.Repository.{
  get_balance, add_entry, put_balance, upserted, add_record, upsert_balance, execute,
}
use swx.Ledger.Service.{transaction, post, completed, dispatch, announce, entry_public}

-- An upsert that is not refused returns the row that it has written.
pub upsert_balance_lem :
    (env : Env) (statement : Statement) (id account : ℕ) (balance : ℤ) (last : Option ℕ)
    (currency : String) (s : Session)
    → upsert_balance env statement id account balance last currency s
      ≡ elim (env.refuses statement) [
        | true ↦ (err Error.database, s)
        | false ↦ (
          ok (upserted id env.now account balance last currency (get_balance s.tables account)),
          record s { tables = put_balance id env.now account balance last currency s.tables },
        )
      ]
unfolding upsert_balance
upsert_balance_lem env statement id account balance last currency s =
    elim (Bool-cases (env.refuses statement)) [
      | inl e ↦ rw (e, upsert_balance, execute)
      | inr e ↦ rw (
        e,
        upsert_balance,
        execute,
        lookup-insert account account _ s.tables.balances,
        beq_refl account,
      )
    ]

abbrev keyed : Option String → LedgerEntry → Tables → Tables
keyed none entry t = t
keyed (some key) entry t = add_record (completed key entry.account_id entry.id) t

-- The tables when the entry, its balance row and its key are in.
abbrev pub posted : Env → Option String → LedgerEntry → Tables → Tables
posted env key entry t = keyed key entry (
    put_balance env.balance_id env.now entry.account_id entry.balance_after (some entry.id)
      entry.currency (add_entry entry t))

-- All of it, committed if the operation is to commit; or nothing, rolled back if it is to.
abbrev pub Posts {ℓ} : {A : Type ℓ} → Bool → Tables → Session → Result A × Session → Type 0
Posts auto done s (ok _, s') =
    (s'.tables ≡ done)
    × (s'.committed ≡ (if auto then done else s.committed))
    × (s'.events ≡ s.events)
Posts auto done s (err e, s') =
    (s'.committed ≡ s.committed)
    × (auto ≡ true → s'.tables ≡ s.committed)
    × (s'.events ≡ s.events)
    × (e ≡ Error.database)

pub post-Posts :
    (env : Env) (auto : Bool) (key : Option String) (entry : LedgerEntry) (s : Session)
    → Posts auto (posted env key entry s.tables) s (transaction auto (post env auto key entry) s)
post-Posts env auto key entry s = ground (
  arith,
  upsert_balance_lem env Statement.upsert_first env.balance_id entry.account_id entry.balance_after
      (some entry.id) entry.currency (record s { tables = add_entry entry s.tables }),
)

-- What follows a transaction only dispatches: it leaves the tables, and answers `a` or is stopped
-- by the event bus.
abbrev pub Announced : {A : Type 0} → A → Session → Result A × Session → Type 0
Announced a s (ok b, s') = (s'.tables ≡ s.tables) × (s'.committed ≡ s.committed) × (b ≡ a)
Announced a s (err e, s') = (s'.tables ≡ s.tables) × (s'.committed ≡ s.committed) × (e ≡ Error.bus)

pub dispatch-Announced :
    {A : Type 0} (a : A) (env : Env) (event : Event) (m : M A)
    → ((s : Session) → Announced a s (m s))
    → (s : Session) → Announced a s ((dispatch env event >> m) s)
dispatch-Announced a env event m h s = dispatched (env.dispatch_raises event)
  where
    out : Session
    out = record s { events = event ∷ s.events }

    dispatched :
        (b : Bool)
        → Announced a s (◌>>◌ {0, 0} (λ _. (if b then err Error.bus else ok tt, out)) m s)
    dispatched true = (refl, refl, refl)
    dispatched false = h out

pub announce-Announced :
    (env : Env) (event : Event) (entry : LedgerEntry) (s : Session)
    → Announced (entry_public entry) s (announce env event entry s)
announce-Announced env event entry =
    dispatch-Announced (entry_public entry) env event (pure (entry_public entry))
      (λ s. (refl, refl, refl))
