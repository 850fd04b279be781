-- ===== src/Ledger/Replay.antt =====
-- Idempotency keys in swx_core/services/ledger_service.py: what a call that answers leaves under
-- its key.
use swx.Prelude.{
  ◌≡◌, ap, sym, ◌∙◌, Bool, false, String, Option, some, nat_eq, string_eq, Bool-cases, Option-cases,
  inl, inr, beq_refl,
}
use swx.Prelude.Dict.{lookup-insert}
use swx.Ledger.Model.{
  LedgerEntry, LedgerEntryPublic, CreditRequest, Tables, Session, Env, Result, ok, err, M, ◌>>=◌,
  Event,
}
use swx.Ledger.Service.{
  transaction, post, given, replayed, current_balance, credit_entry, debit_entry, overdraws,
  announce, credit_new, credit, debit_new, debit, entry_public,
}
use swx.Ledger.Posting.{posted, Posts, post-Posts, Announced, announce-Announced}

-- The tables hold the posting, and its entry is the answer.
abbrev pub Finished : Tables → LedgerEntry → Result LedgerEntryPublic × Session → Type 0
Finished done entry r = (r.1.tables ≡ done) × (r.0 ≡ ok (entry_public entry))

Announced-Finished :
    (done : Tables) (entry : LedgerEntry) (s : Session) (r : Result LedgerEntryPublic × Session)
    {a : LedgerEntryPublic}
    → Announced (entry_public entry) s r
    → s.tables ≡ done
    → r.0 ≡ ok a
    → Finished done entry r
Announced-Finished done entry s (ok _, s') p t e = (p.0 ∙ t, ap ok p.2)
Announced-Finished done entry s (err _, s') p t e = absurd (cc)

pub finish_lem :
    (auto : Bool) (done : Tables) (entry : LedgerEntry) (s : Session)
    (r : Result (Unit {0}) × Session) (f : Unit {0} → M LedgerEntryPublic) {a : LedgerEntryPublic}
    → Posts auto done s r
    → ((s' : Session) → Announced (entry_public entry) s' (f tt s'))
    → (((λ _. r) >>= f) s).0 ≡ ok a
    → Finished done entry (((λ _. r) >>= f) s)
finish_lem auto done entry s (ok tt, s') f p k e =
    Announced-Finished done entry s' (f tt s') (k s') p.0 e
finish_lem auto done entry s (err _, s') f p k e = absurd (cc)

abbrev pub event_of_credit : Env → CreditRequest → Event
event_of_credit env request = Event.credited request.account_id env.entry_id request.amount

abbrev pub event_of_debit : Env → CreditRequest → Event
event_of_debit env request = Event.debited request.account_id env.entry_id request.amount

module _ (env : Env) (request : CreditRequest) (auto : Bool) (s : Session)
    {a : LedgerEntryPublic} where
  pub credit_new_lem :
      (credit_new env request auto s).0 ≡ ok a
      → let entry = credit_entry env request s.tables in
        Finished
          (posted env (given request.idempotency_key) entry s.tables)
          entry
          (credit_new env request auto s)
  unfolding credit_new
  credit_new_lem e =
      let entry = credit_entry env request s.tables in
      let key = given request.idempotency_key in
      finish_lem auto (posted env key entry s.tables) entry s
        (transaction auto (post env auto key entry) s)
        (λ _. announce env (event_of_credit env request) entry) (post-Posts env auto key entry s)
        (announce-Announced env (event_of_credit env request) entry) e

  pub debit_new_lem :
      (debit_new env request auto s).0 ≡ ok a
      → let entry = debit_entry env request s.tables in
        let balance = (current_balance s.tables request.account_id).0 in
        (overdraws env balance request.amount ≡ false)
        × Finished
            (posted env (given request.idempotency_key) entry s.tables)
            entry
            (debit_new env request auto s)
  unfolding debit_new
  debit_new_lem e =
      let entry = debit_entry env request s.tables in
      let key = given request.idempotency_key in
      let balance = (current_balance s.tables request.account_id).0 in
      elim (Bool-cases (overdraws env balance request.amount)) [
        | inl short ↦ absurd (cc (rw short at e))
        | inr covered ↦ (
          covered,
          rw covered (
              finish_lem auto (posted env key entry s.tables) entry s
                (transaction auto (post env auto key entry) s)
                (λ _. announce env (event_of_debit env request) entry)
                (post-Posts env auto key entry s)
                (announce-Announced env (event_of_debit env request) entry) (rw covered at e)),
        )
      ]

-- The entry of a posting is found again under its key.
replayed-posted :
    (env : Env) (key : String) (entry : LedgerEntry) (t : Tables)
    → replayed (posted env (some key) entry t) (some key) ≡ some entry
replayed-posted env key entry t =
    rw (lookup-insert key key _ t.records, beq_refl key) (rw (beq_refl entry.id))

pub credit-replayed :
    (env : Env) (request : CreditRequest) (auto : Bool) (s : Session) {entry : LedgerEntry}
    → replayed s.tables (given request.idempotency_key) ≡ some entry
    → credit env request auto s ≡ (ok (entry_public entry), s)
unfolding credit
credit-replayed env request auto s e = rw e

pub debit-replayed :
    (env : Env) (request : CreditRequest) (auto : Bool) (s : Session) {entry : LedgerEntry}
    → replayed s.tables (given request.idempotency_key) ≡ some entry
    → debit env request auto s ≡ (ok (entry_public entry), s)
unfolding debit
debit-replayed env request auto s e = rw e

pub ok-injective {ℓ} : {A : Type ℓ} {a b : A} → ok a ≡ ok b → a ≡ b
ok-injective e = cc

-- After a call under a key that has answered, the entry of the answer stands under the key.
abbrev pub IsKept : Option String → Result LedgerEntryPublic × Session → LedgerEntryPublic → Type 0
IsKept key r a =
    (entry : LedgerEntry) × (replayed r.1.tables key ≡ some entry) × (entry_public entry ≡ a)

module _ (env : Env) (request : CreditRequest) (auto : Bool) (s : Session) {key : String}
    {a : LedgerEntryPublic} (keyed : given request.idempotency_key ≡ some key) where
  credit_new-IsKept :
      (credit_new env request auto s).0 ≡ ok a → IsKept (some key) (credit_new env request auto s) a
  credit_new-IsKept e =
      let entry = credit_entry env request s.tables in
      let (done, answered) = credit_new_lem env request auto s e in
      (
        entry,
        rw done (rw keyed (replayed-posted env key entry s.tables)),
        ok-injective (sym answered ∙ e),
      )

  pub credit-IsKept :
      (credit env request auto s).0 ≡ ok a → IsKept (some key) (credit env request auto s) a
  unfolding credit
  credit-IsKept e = elim (Option-cases (replayed s.tables (given request.idempotency_key))) [
    | inl new ↦ rw new (credit_new-IsKept (rw new at e))
    | inr (entry, old) ↦ rw old (entry, rw keyed at old, ok-injective (rw old at e))
  ]

  debit_new-IsKept :
      (debit_new env request auto s).0 ≡ ok a → IsKept (some key) (debit_new env request auto s) a
  debit_new-IsKept e =
      let entry = debit_entry env request s.tables in
      let (done, answered) = (debit_new_lem env request auto s e).1 in
      (
        entry,
        rw done (rw keyed (replayed-posted env key entry s.tables)),
        ok-injective (sym answered ∙ e),
      )

  pub debit-IsKept :
      (debit env request auto s).0 ≡ ok a → IsKept (some key) (debit env request auto s) a
  unfolding debit
  debit-IsKept e = elim (Option-cases (replayed s.tables (given request.idempotency_key))) [
    | inl new ↦ rw new (debit_new-IsKept (rw new at e))
    | inr (entry, old) ↦ rw old (entry, rw keyed at old, ok-injective (rw old at e))
  ]
