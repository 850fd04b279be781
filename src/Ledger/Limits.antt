-- ===== src/Ledger/Limits.antt =====
-- What bounds a debit in swx_core/services/ledger_service.py, and what does not bound refunds.
use swx.Prelude.{
  ℕ, ◌≡◌, refl, arith, Bool, true, false, String, Option, none, some, nat_eq, string_eq,
  Option-cases, inl, inr, sym, ap, ◌∙◌, ◌==◌, if◌then◌else◌,
}
use swx.Prelude.Int.{ℤ, pos, ◌+ℤ◌, ◌-ℤ◌, ◌≤ℤ◌, ltb_ℤ}
use swx.Ledger.Model.{
  EntryType, entry_type_beq, LedgerEntry, LedgerEntryPublic, CreditRequest, Tables, Session, Env,
  Error, ok, err, Event,
}
use swx.Ledger.Repository.{get_entry_by_id, get_balance, add_entry}
use swx.Ledger.Books.{get_balance-put_balance, balance-upserted}
use swx.Ledger.Service.{
  transaction, post, given, replayed, current_balance, refund_entry, refundable, overdraws,
  announce, debit, debit_new, refund_new, refund,
}
use swx.Ledger.Posting.{posted, post-Posts, announce-Announced}
use swx.Ledger.Replay.{debit_new_lem, ok-injective, finish_lem, Finished}

not_overdrawn :
    (env : Env) (balance : ℤ) (amount : ℕ)
    → env.allow_negative_balance ≡ false
    → overdraws env balance amount ≡ false
    → pos 0 ≤ℤ balance -ℤ pos amount
unfolding ◌-ℤ◌
not_overdrawn env balance amount strict h = ground arith

module _ (env : Env) (request : CreditRequest) (auto : Bool) (s : Session)
    (strict : env.allow_negative_balance ≡ false)
    (new : replayed s.tables (given request.idempotency_key) ≡ none) where
  -- Where negative balances are not allowed, a debit that is no replay answers only if the balance
  -- covers it: what it leaves is the balance less the amount, and not below zero.
  pub debit_covered :
      {a : LedgerEntryPublic}
      → (debit env request auto s).0 ≡ ok a
      → let balance = (current_balance s.tables request.account_id).0 in
        (a.balance_after ≡ balance -ℤ pos request.amount) × (pos 0 ≤ℤ a.balance_after)
  unfolding debit
  debit_covered e =
      let (covered, finished) = debit_new_lem env request auto s (rw new at e) in
      let balance = (current_balance s.tables request.account_id).0 in
      rw (← ok-injective (sym finished.1 ∙ rw new at e))
        (refl, not_overdrawn env balance request.amount strict covered)

  -- A debit of more than the balance is refused, and changes nothing.
  pub debit_overdraft :
      ltb_ℤ (current_balance s.tables request.account_id).0 (pos request.amount) ≡ true
      → debit env request auto s ≡ (err Error.insufficient_balance, s)
  unfolding debit debit_new
  debit_overdraft short = rw new (rw strict (rw short))

-- The balances after a posting.
current_balance-unkeyed :
    (env : Env) (entry : LedgerEntry) (t : Tables) (j : ℕ)
    → (current_balance (posted env none entry t) j).0
      ≡ (if entry.account_id == j then entry.balance_after else (current_balance t j).0)
current_balance-unkeyed env entry t j = ground (
  arith,
  get_balance-put_balance env.balance_id env.now entry.account_id entry.balance_after
      (some entry.id) entry.currency (add_entry entry t) j,
  balance-upserted env.balance_id env.now entry.account_id entry.balance_after (some entry.id)
      entry.currency (get_balance t entry.account_id),
)

current_balance-posted :
    (env : Env) (key : Option String) (entry : LedgerEntry) (t : Tables) (j : ℕ)
    → (current_balance (posted env key entry t) j).0
      ≡ (if entry.account_id == j then entry.balance_after else (current_balance t j).0)
current_balance-posted env none entry t j = current_balance-unkeyed env entry t j
current_balance-posted env (some key) entry t j = current_balance-unkeyed env entry t j

entry_type_beq-debit :
    (type : EntryType) → entry_type_beq type EntryType.debit ≡ true → type ≡ EntryType.debit
entry_type_beq-debit EntryType.credit h = cc
entry_type_beq-debit EntryType.debit h = refl
entry_type_beq-debit EntryType.refund h = cc
entry_type_beq-debit EntryType.adjustment h = cc

refundable_inv :
    (account : ℕ) (o : Option LedgerEntry) {e : LedgerEntry}
    → refundable account o ≡ some e
    → (o ≡ some e) × (e.account_id ≡ account) × (e.entry_type ≡ EntryType.debit)
refundable_inv account none h = absurd (cc)
refundable_inv account (some x) {e} h =
    ground (arith, entry_type_beq-debit x.entry_type, entry_type_beq-debit e.entry_type)

module _ (env : Env) (account original : ℕ) (key : String) (s : Session) where
  refund_lem :
      {a : LedgerEntryPublic} {e : LedgerEntry}
      → replayed s.tables (some key) ≡ none
      → refundable account (get_entry_by_id s.tables original) ≡ some e
      → (refund env account original key s).0 ≡ ok a
      → let entry = refund_entry env account key e s.tables in
        Finished (posted env (some key) entry s.tables) entry (refund env account original key s)
  unfolding refund refund_new
  refund_lem {e} new found done =
      let entry = refund_entry env account key e s.tables in
      rw (new, found)
        (finish_lem true (posted env (some key) entry s.tables) entry s
          (transaction true (post env true (some key) entry) s)
          (λ _. announce env (Event.refunded account entry.id e.id) entry)
          (post-Posts env true (some key) entry s)
          (announce-Announced env (Event.refunded account entry.id e.id) entry)
          (rw (new, found) at done))

  refund_missing :
      {a : LedgerEntryPublic}
      → replayed s.tables (some key) ≡ none
      → refundable account (get_entry_by_id s.tables original) ≡ none
      → (refund env account original key s).0 ≡ ok a
      → ⊥
  unfolding refund refund_new
  refund_missing new missing done = cc (rw (new, missing) at done)

  -- A refund that is no replay answers only for a debit of the account: with an entry of that
  -- debit's amount, after which the account's balance stands higher by it and every other account's
  -- where it stood.
  pub refund_restores :
      {a : LedgerEntryPublic}
      → replayed s.tables (some key) ≡ none
      → (refund env account original key s).0 ≡ ok a
      → (e : LedgerEntry) × (get_entry_by_id s.tables original ≡ some e)
        × (e.account_id ≡ account)
        × (e.entry_type ≡ EntryType.debit)
        × (a.amount ≡ e.amount)
        × (a.balance_after ≡ (current_balance s.tables account).0 +ℤ pos e.amount)
        × ((j : ℕ)
            → (current_balance (refund env account original key s).1.tables j).0 ≡ (
                if account == j
                then (current_balance s.tables account).0 +ℤ pos e.amount
                else (current_balance s.tables j).0))
  refund_restores {a} new done =
      elim (Option-cases (refundable account (get_entry_by_id s.tables original))) [
        | inl missing ↦ absurd (refund_missing new missing done)
        | inr (e, found) ↦
            let (there, own, debited) = refundable_inv account _ found in
            let entry = refund_entry env account key e s.tables in
            let (tables, sent) = refund_lem new found done in
            let answered = ok-injective (sym sent ∙ done) in
            (
              e,
              there,
              own,
              debited,
              ap (λ x. x.amount) (sym answered),
              ap (λ x. x.balance_after) (sym answered),
              (λ j.
                  ap (λ t. (current_balance t j).0) tables
                  ∙ current_balance-posted env (some key) entry s.tables j),
            )
      ]
