-- ===== src/Ledger/TransferLaws.antt =====
-- What a transfer of swx_core/services/ledger_service.py moves, once it goes through.
use swx.Prelude.{
  ℕ, ◌<◌, ◌≡◌, ◌≢◌, refl, ap, subst, sym, ◌∙◌, Bool, true, false, none, some, ◌==◌, nat_eq,
  string_eq, beq_ne, beq_refl, eqb_iff, if◌then◌else◌, Bool-cases, inl, inr,
}
use swx.Prelude.Int.{pos, ◌+ℤ◌, ◌-ℤ◌, int_laws, ℤ_beq-add, pos_part, neg_part}
use swx.Prelude.Dict.{lookup-insert}
use swx.Ledger.Model.{
  LedgerEntry, LedgerEntryPublic, TransferRequest, Tables, Session, Env, Result, ok, err, M, ◌>>=◌,
}
use swx.Ledger.Repository.{get_balance, get_idempotency_record, add_entry}
use swx.Ledger.Service.{transaction, current_balance, overdraws, entry_public}
use swx.Ledger.Transfers.{
  computed, cached, reconcile, transfer, transfer_new, debit_leg, credit_leg, post_legs,
  announce_legs,
}
use swx.Ledger.Books.{
  IsReconciled, balance-upserted, current_balance-computed, computed-add_entry_ne,
  computed-add_entry_self,
}
use swx.Ledger.Posting.{Posts, Announced}
use swx.Ledger.Legs.{
  legs_posted, post_legs-Posts, announce_legs-Announced, legs_posted-IsReconciled,
}

Announced-tables :
    {B : Type 0} (a : B) (s : Session) (r : Result B × Session)
    → Announced a s r
    → r.1.tables ≡ s.tables
Announced-tables a s (ok _, s') p = p.0
Announced-tables a s (err _, s') p = p.0

-- An answer comes only from a transaction that has gone through.
finish_tables :
    {B : Type 0} (done : Tables) (s : Session) (r : Result (Unit {0}) × Session)
    (f : Unit {0} → M B) (a : B) {b : B}
    → Posts true done s r
    → ((s' : Session) → Announced a s' (f tt s'))
    → (((λ _. r) >>= f) s).0 ≡ ok b
    → (((λ _. r) >>= f) s).1.tables ≡ done
finish_tables done s (ok tt, s') f a p same e = Announced-tables a s' (f tt s') (same s') ∙ p.0
finish_tables done s (err _, s') f a p same e = cc

module _ (env : Env) (request : TransferRequest) (s : Session) where
  abbrev from : LedgerEntry
  from = debit_leg env request s.tables

  abbrev to : LedgerEntry
  to = credit_leg env request s.tables

  abbrev after : Tables
  after = legs_posted env request from to s.tables

  transfer_new_tables :
      {a : LedgerEntryPublic × LedgerEntryPublic}
      → (transfer_new env request s).0 ≡ ok a
      → (transfer_new env request s).1.tables ≡ after
  unfolding transfer_new
  transfer_new_tables e =
      elim (Bool-cases
        (overdraws env (current_balance s.tables request.from_account_id).0 request.amount)) [
          | inl short ↦ absurd (cc (rw short at e))
          | inr covered ↦ rw covered (
              finish_tables after s (transaction true (post_legs env request from to) s)
                (λ _. announce_legs env request from to) (entry_public from, entry_public to)
                (post_legs-Posts env request from to s)
                (announce_legs-Announced env request from to) (rw covered at e))
        ]

  -- Under a new key, a transfer that answers has written both legs.
  pub transfer_tables :
      {a : LedgerEntryPublic × LedgerEntryPublic}
      → get_idempotency_record s.tables request.idempotency_key ≡ none
      → (transfer env request s).0 ≡ ok a
      → (transfer env request s).1.tables ≡ after
  unfolding transfer
  transfer_tables new e = rw new (transfer_new_tables (rw new at e))

  cached-after : cached (get_balance after request.to_account_id) ≡ to.balance_after
  cached-after =
      rw
        (
          lookup-insert request.to_account_id request.to_account_id _ _,
          beq_refl request.to_account_id,
        )
        (balance-upserted env.second_balance_id env.now request.to_account_id to.balance_after
          (some to.id) request.currency _)

  computed-from :
      computed (add_entry from s.tables) request.from_account_id
      ≡ computed s.tables request.from_account_id -ℤ pos request.amount
  computed-from = computed-add_entry_self from s.tables

  computed-to :
      computed after request.to_account_id
      ≡ computed (add_entry from s.tables) request.to_account_id +ℤ pos request.amount
  computed-to = computed-add_entry_self to (add_entry from s.tables)

  computed-from_to :
      request.from_account_id ≡ request.to_account_id
      → computed (add_entry from s.tables) request.to_account_id
        ≡ computed s.tables request.to_account_id -ℤ pos request.amount
  computed-from_to same =
      subst (λ k. computed (add_entry from s.tables) k ≡ computed s.tables k -ℤ pos request.amount)
        same computed-from

  minted :
      request.from_account_id ≡ request.to_account_id
      → IsReconciled s.tables
      → cached (get_balance after request.to_account_id)
        ≡ computed after request.to_account_id +ℤ pos request.amount
  minted same h = omega (
    int_laws,
    ap pos_part cached-after,
    ap neg_part cached-after,
    ap pos_part (current_balance-computed s.tables request.to_account_id h),
    ap neg_part (current_balance-computed s.tables request.to_account_id h),
    ap pos_part computed-to,
    ap neg_part computed-to,
    ap pos_part (computed-from_to same),
    ap neg_part (computed-from_to same),
  )

  -- A transfer from an account to itself under a new key, on reconciled books, leaves the account's
  -- row above the sum of its entries by the whole amount, so `reconcile` reports a mismatch.
  pub self_transfer_mints :
      {a : LedgerEntryPublic × LedgerEntryPublic}
      → request.from_account_id ≡ request.to_account_id
      → 0 < request.amount
      → IsReconciled s.tables
      → get_idempotency_record s.tables request.idempotency_key ≡ none
      → (transfer env request s).0 ≡ ok a
      → let books = reconcile (transfer env request s).1.tables request.to_account_id in
        (books.matches ≡ false)
        × (books.cached_balance ≡ books.computed_balance +ℤ pos request.amount)
  unfolding reconcile
  self_transfer_mints same positive h new done =
      rw (transfer_tables new done)
        (ℤ_beq-add _ _ request.amount (minted same h) positive, minted same h)

  module _ (apart : request.from_account_id ≢ request.to_account_id)
      (h : IsReconciled s.tables) where
    after-IsReconciled : IsReconciled after
    after-IsReconciled = legs_posted-IsReconciled env request s apart h

    computed-after_from :
        computed after request.from_account_id
        ≡ computed s.tables request.from_account_id -ℤ pos request.amount
    computed-after_from =
        computed-add_entry_ne to (add_entry from s.tables) request.from_account_id
          (beq_ne request.to_account_id request.from_account_id (λ e. apart (sym e)))
        ∙ computed-from

    computed-after_to :
        computed after request.to_account_id
        ≡ computed s.tables request.to_account_id +ℤ pos request.amount
    computed-after_to =
        computed-to
        ∙ ap (λ b. b +ℤ pos request.amount)
            (computed-add_entry_ne from s.tables request.to_account_id
              (beq_ne request.from_account_id request.to_account_id apart))

    current-after : (j : ℕ) → (current_balance after j).0 ≡ computed after j
    current-after j = current_balance-computed after j after-IsReconciled

    current-before : (j : ℕ) → (current_balance s.tables j).0 ≡ computed s.tables j
    current-before j = current_balance-computed s.tables j h

    computed-after :
        (j : ℕ) (debits credits : Bool)
        → (request.from_account_id == j) ≡ debits
        → (request.to_account_id == j) ≡ credits
        → computed after j ≡ (
            if debits
            then computed s.tables j -ℤ pos request.amount
            else if credits
            then computed s.tables j +ℤ pos request.amount
            else computed s.tables j)
    computed-after j true credits f t =
        subst (λ k. computed after k ≡ computed s.tables k -ℤ pos request.amount)
          ((eqb_iff request.from_account_id j).0 f) computed-after_from
    computed-after j false true f t =
        subst (λ k. computed after k ≡ computed s.tables k +ℤ pos request.amount)
          ((eqb_iff request.to_account_id j).0 t) computed-after_to
    computed-after j false false f t =
        computed-add_entry_ne to (add_entry from s.tables) j t
        ∙ computed-add_entry_ne from s.tables j f

    -- Between two accounts, on reconciled books and under a new key, a transfer that answers takes
    -- the amount from the one balance, adds it to the other, and moves no third one.
    pub transfer_moves :
        {a : LedgerEntryPublic × LedgerEntryPublic} (j : ℕ)
        → get_idempotency_record s.tables request.idempotency_key ≡ none
        → (transfer env request s).0 ≡ ok a
        → let before = (current_balance s.tables j).0 in
          (current_balance (transfer env request s).1.tables j).0 ≡ (
            if request.from_account_id == j
            then before -ℤ pos request.amount
            else if request.to_account_id == j
            then before +ℤ pos request.amount
            else before)
    transfer_moves j new done =
        rw (transfer_tables new done, current-before j)
          (current-after j ∙ computed-after j _ _ refl refl)
