-- ===== src/Ledger/Legs.antt =====
-- `transfer` of swx_core/services/ledger_service.py: its two legs, and the books after them.
use swx.Prelude.{
  ◌≡◌, ◌≢◌, refl, ap, sym, ◌∙◌, true, Option, none, some, List, [], ◌∷◌, arith, nat_eq, string_eq,
  beq_ne, Bool-cases, inl, inr, Option-cases,
}
use swx.Ledger.Model.{
  EntryType, LedgerEntry, LedgerEntryPublic, TransferRequest, Tables, Session, Statement, Event,
  Env, Result, ok, err, ◌>>◌, pure,
}
use swx.Ledger.Repository.{
  get_entry_by_id, get_entries_by_reference, get_idempotency_record, add_entry, put_balance,
  add_record,
}
use swx.Ledger.Service.{transaction, current_balance, overdraws, completed, entry_public, dispatch}
use swx.Ledger.Transfers.{
  transfer, transfer_new, debit_leg, credit_leg, post_legs, announce_legs, entry_of, earlier_legs,
  first_leg,
}
use swx.Ledger.Books.{
  IsReconciled, applied, booked, booked-IsReconciled, current_balance-computed,
  computed-add_entry_ne,
}
use swx.Ledger.Posting.{Posts, upsert_balance_lem, Announced, dispatch-Announced}
use swx.Ledger.Reconciled.{Leaves, finish-Leaves}

-- The tables when both legs, both rows and the key are in.
abbrev pub legs_posted : Env → TransferRequest → LedgerEntry → LedgerEntry → Tables → Tables
legs_posted env request from to t =
    add_record (completed request.idempotency_key request.from_account_id from.id) (
      put_balance env.second_balance_id env.now request.to_account_id to.balance_after (some to.id)
        request.currency
        (put_balance env.balance_id env.now request.from_account_id from.balance_after
          (some from.id) request.currency (add_entry to (add_entry from t))))

module _ (env : Env) (request : TransferRequest) where
  pub post_legs-Posts :
      (from to : LedgerEntry) (s : Session)
      → Posts true
          (legs_posted env request from to s.tables)
          s
          (transaction true (post_legs env request from to) s)
  post_legs-Posts from to s =
      let t = add_entry to (add_entry from s.tables) in
      ground (
        arith,
        upsert_balance_lem env Statement.upsert_first env.balance_id request.from_account_id
            from.balance_after (some from.id) request.currency (record s { tables = t }),
        upsert_balance_lem env Statement.upsert_second env.second_balance_id request.to_account_id
            to.balance_after (some to.id) request.currency
            (record s {
              tables =
                  put_balance env.balance_id env.now request.from_account_id from.balance_after
                    (some from.id) request.currency t;
            }),
      )

  pub announce_legs-Announced :
      (from to : LedgerEntry) (s : Session)
      → Announced (entry_public from, entry_public to) s (announce_legs env request from to s)
  announce_legs-Announced from to =
      dispatch-Announced answer env (Event.debited request.from_account_id from.id request.amount)
        (dispatch env credited >> (dispatch env transferred >> pure answer))
        (dispatch-Announced answer env credited (dispatch env transferred >> pure answer)
          (dispatch-Announced answer env transferred (pure answer) (λ s. (refl, refl, refl))))
    where
      answer : LedgerEntryPublic × LedgerEntryPublic
      answer = (entry_public from, entry_public to)

      credited : Event
      credited = Event.credited request.to_account_id to.id request.amount

      transferred : Event
      transferred =
          Event.transferred request.from_account_id request.to_account_id from.id to.id
            request.amount

-- A replay changes nothing.
first_leg-unchanged :
    (from : LedgerEntry) (legs : List LedgerEntry) (s : Session) → (first_leg from legs s).1 ≡ s
first_leg-unchanged from [] s = refl
first_leg-unchanged from (to ∷ _) s = refl

pub earlier_legs-unchanged :
    (env : Env) (request : TransferRequest) (o : Option LedgerEntry) (s : Session)
    → (earlier_legs env request o s).1 ≡ s
earlier_legs-unchanged env request none s = refl
earlier_legs-unchanged env request (some from) s =
    first_leg-unchanged from
      (get_entries_by_reference s.tables request.to_account_id "adjustment" (env.uuid_text from.id))
      s

unchanged-Leaves {ℓ} :
    {A : Type ℓ} (s : Session) (r : Result A × Session)
    → r.1 ≡ s
    → IsReconciled s.tables
    → IsReconciled s.committed
    → Leaves true r
unchanged-Leaves s (ok _, s') e h c = (rw e h, rw e c)
unchanged-Leaves s (err _, s') e h c = ((λ _. rw e h), rw e c)

module _ (env : Env) (request : TransferRequest) (s : Session)
    (apart : request.from_account_id ≢ request.to_account_id)
    (reconciled : IsReconciled s.tables) where
  abbrev pub from : LedgerEntry
  from = debit_leg env request s.tables

  abbrev pub to : LedgerEntry
  to = credit_leg env request s.tables

  -- The tables after the first leg.
  abbrev halfway : Tables
  halfway = booked env.balance_id env.now (some from.id) request.currency from s.tables

  halfway-IsReconciled : IsReconciled halfway
  halfway-IsReconciled =
      booked-IsReconciled env.balance_id env.now (some from.id) request.currency from s.tables refl
        reconciled

  -- The first leg has not moved the balance that the second one continues.
  current_balance-halfway :
      (current_balance s.tables request.to_account_id).0
      ≡ (current_balance halfway request.to_account_id).0
  current_balance-halfway =
      current_balance-computed s.tables request.to_account_id reconciled
      ∙ sym (
          computed-add_entry_ne from s.tables request.to_account_id
            (beq_ne request.from_account_id request.to_account_id apart))
      ∙ sym (current_balance-computed halfway request.to_account_id halfway-IsReconciled)

  pub legs_posted-IsReconciled : IsReconciled (legs_posted env request from to s.tables)
  legs_posted-IsReconciled =
      booked-IsReconciled env.second_balance_id env.now (some to.id) request.currency to halfway
        (ap (applied EntryType.credit request.amount) current_balance-halfway) halfway-IsReconciled

  transfer_new-Leaves : IsReconciled s.committed → Leaves true (transfer_new env request s)
  unfolding transfer_new
  transfer_new-Leaves committed =
      elim (Bool-cases
        (overdraws env (current_balance s.tables request.from_account_id).0 request.amount)) [
          | inl short ↦ rw short ((λ _. reconciled), committed)
          | inr covered ↦ rw covered (
              finish-Leaves true (legs_posted env request from to s.tables) s
                (transaction true (post_legs env request from to) s)
                (λ _. announce_legs env request from to) (entry_public from, entry_public to)
                (post_legs-Posts env request from to s) legs_posted-IsReconciled committed
                (announce_legs-Announced env request from to))
        ]

  pub transfer-Leaves : IsReconciled s.committed → Leaves true (transfer env request s)
  unfolding transfer
  transfer-Leaves committed =
      elim (Option-cases (entry_of (get_idempotency_record s.tables request.idempotency_key))) [
        | inl new ↦ rw new (transfer_new-Leaves committed)
        | inr (i, old) ↦ rw old (
            unchanged-Leaves s _ (earlier_legs-unchanged env request (get_entry_by_id s.tables i) s)
              reconciled committed)
      ]
