-- ===== src/Ledger/Atomic.antt =====
-- The error paths of swx_core/services/ledger_service.py: what a call that raises half way leaves.
use swx.Prelude.{
  ◌≡◌, refl, sym, subst, ◌∙◌, Bool, false, true, String, Option, some, [], ◌∷◌, ℕ, Bool-cases,
  Option-cases, inl, inr,
}
use swx.Ledger.Model.{
  LedgerEntry, CreditRequest, TransferRequest, Tables, Session, Env, Error, Result, ok, err, M,
  ◌>>=◌, pure, Event,
}
use swx.Ledger.Repository.{get_entry_by_id, get_idempotency_record}
use swx.Ledger.Service.{
  transaction, post, given, replayed, current_balance, credit_entry, debit_entry, refund_entry,
  refundable, overdraws, announce, entry_public, credit, debit, refund,
}
use swx.Ledger.Transfers.{transfer, debit_leg, credit_leg, post_legs, announce_legs, entry_of}
use swx.Ledger.Posting.{posted, Posts, post-Posts, Announced, announce-Announced}
use swx.Ledger.Legs.{legs_posted, post_legs-Posts, announce_legs-Announced, earlier_legs-unchanged}
use swx.Ledger.History.{Call, credits, debits, refunds, transfers, commits_itself, perform}

-- How a call leaves a session, by whether it ends its own transaction. If it does: an answer leaves
-- nothing uncommitted, and so does an exception of the event bus, which comes after the commit; any
-- other exception leaves the session as it was. If it does not, nothing is committed.
abbrev pub IsAtomic {ℓ} : {A : Type ℓ} → Bool → Session → Result A × Session → Type 0
IsAtomic false s r = r.1.committed ≡ s.committed
IsAtomic true s (ok _, s') = s'.tables ≡ s'.committed
IsAtomic true s (err Error.bus, s') = s'.tables ≡ s'.committed
IsAtomic true s (err _, s') =
    (s'.tables ≡ s.tables) × (s'.committed ≡ s.committed) × (s'.events ≡ s.events)

Announced-IsAtomic :
    {A : Type 0} (a : A) (s s' : Session) (r : Result A × Session)
    → Announced a s' r
    → s'.tables ≡ s'.committed
    → IsAtomic true s r
Announced-IsAtomic a s s' (ok _, s'') p clean = p.0 ∙ clean ∙ sym p.1
Announced-IsAtomic {A} a s s' (err e, s'') p clean =
    subst (λ e. IsAtomic {A = A} true s (err e, s'')) (sym p.2) (p.0 ∙ clean ∙ sym p.1)

Announced-uncommitted :
    {A : Type 0} (a : A) (s' : Session) (r : Result A × Session)
    → Announced a s' r
    → r.1.committed ≡ s'.committed
Announced-uncommitted a s' (ok _, s'') p = p.1
Announced-uncommitted a s' (err _, s'') p = p.1

finish-IsAtomic :
    {B : Type 0} (auto : Bool) (done : Tables) (s : Session) (r : Result (Unit {0}) × Session)
    (f : Unit {0} → M B) (b : B)
    → Posts auto done s r
    → s.tables ≡ s.committed
    → ((s' : Session) → Announced b s' (f tt s'))
    → IsAtomic auto s (((λ _. r) >>= f) s)
finish-IsAtomic true done s (ok tt, s') f b p clean k =
    Announced-IsAtomic b s s' (f tt s') (k s') (p.0 ∙ sym p.1)
finish-IsAtomic {B} true done s (err e, s') f b p clean k =
    subst (λ e. IsAtomic {A = B} true s (err e, s')) (sym p.3) (p.1 refl ∙ sym clean, p.0, p.2)
finish-IsAtomic false done s (ok tt, s') f b p clean k =
    Announced-uncommitted b s' (f tt s') (k s') ∙ p.1
finish-IsAtomic false done s (err e, s') f b p clean k = p.0

still-IsAtomic :
    {A : Type 0} (auto : Bool) (s : Session) (r : Result A)
    → s.tables ≡ s.committed
    → IsAtomic auto s (r, s)
still-IsAtomic false s r clean = refl
still-IsAtomic true s (ok _) clean = clean
still-IsAtomic true s (err Error.bus) clean = clean
still-IsAtomic true s (err Error.insufficient_balance) clean = (refl, refl, refl)
still-IsAtomic true s (err Error.original_not_found) clean = (refl, refl, refl)
still-IsAtomic true s (err Error.record_invalid) clean = (refl, refl, refl)
still-IsAtomic true s (err Error.credit_leg_not_found) clean = (refl, refl, refl)
still-IsAtomic true s (err Error.database) clean = (refl, refl, refl)

unchanged-IsAtomic :
    {A : Type 0} (s : Session) (r : Result A × Session)
    → s.tables ≡ s.committed
    → r.1 ≡ s
    → IsAtomic true s r
unchanged-IsAtomic s (r, s') clean e =
    subst (λ s'. IsAtomic true s (r, s')) (sym e) (still-IsAtomic true s r clean)

module _ (env : Env) (s : Session) (clean : s.tables ≡ s.committed) where
  -- A posting and its announcement.
  post-IsAtomic :
      (auto : Bool) (key : Option String) (entry : LedgerEntry) (event : Event)
      → IsAtomic auto s (
          ((λ _. transaction auto (post env auto key entry) s) >>= λ _. announce env event entry) s)
  post-IsAtomic auto key entry event =
      finish-IsAtomic auto (posted env key entry s.tables) s
        (transaction auto (post env auto key entry) s) (λ _. announce env event entry)
        (entry_public entry) (post-Posts env auto key entry s) clean
        (announce-Announced env event entry)

  pub credit-IsAtomic :
      (request : CreditRequest) (auto : Bool) → IsAtomic auto s (credit env request auto s)
  unfolding credit
  credit-IsAtomic request auto =
      elim (Option-cases (replayed s.tables (given request.idempotency_key))) [
        | inl new ↦
            let entry = credit_entry env request s.tables in
            rw new (
              post-IsAtomic auto (given request.idempotency_key) entry
                (Event.credited request.account_id entry.id request.amount))
        | inr (e, old) ↦ rw old (still-IsAtomic auto s _ clean)
      ]

  pub debit-IsAtomic :
      (request : CreditRequest) (auto : Bool) → IsAtomic auto s (debit env request auto s)
  unfolding debit
  debit-IsAtomic request auto =
      elim (Option-cases (replayed s.tables (given request.idempotency_key))) [
        | inl new ↦
            let entry = debit_entry env request s.tables in
            rw new
              (elim (Bool-cases
                (overdraws env (current_balance s.tables request.account_id).0 request.amount)) [
                  | inl short ↦ rw short (still-IsAtomic auto s _ clean)
                  | inr covered ↦ rw covered (
                      post-IsAtomic auto (given request.idempotency_key) entry
                        (Event.debited request.account_id entry.id request.amount))
                ])
        | inr (e, old) ↦ rw old (still-IsAtomic auto s _ clean)
      ]

  refund-IsAtomic :
      (account original : ℕ) (key : String) → IsAtomic true s (refund env account original key s)
  unfolding refund
  refund-IsAtomic account original key = elim (Option-cases (replayed s.tables (some key))) [
    | inl new ↦
        rw new (elim (Option-cases (refundable account (get_entry_by_id s.tables original))) [
          | inl missing ↦ rw missing (refl, refl, refl)
          | inr (e, found) ↦
              let entry = refund_entry env account key e s.tables in
              rw found (post-IsAtomic true (some key) entry (Event.refunded account entry.id e.id))
        ])
    | inr (e, old) ↦ rw old clean
  ]

  transfer-IsAtomic : (request : TransferRequest) → IsAtomic true s (transfer env request s)
  unfolding transfer
  transfer-IsAtomic request =
      let from = debit_leg env request s.tables in
      let to = credit_leg env request s.tables in
      elim (Option-cases (entry_of (get_idempotency_record s.tables request.idempotency_key))) [
        | inl new ↦
            rw new
              (elim (Bool-cases (
                overdraws env (current_balance s.tables request.from_account_id).0
                  request.amount)) [
                    | inl short ↦ rw short (refl, refl, refl)
                    | inr covered ↦ rw covered (
                        finish-IsAtomic true (legs_posted env request from to s.tables) s
                          (transaction true (post_legs env request from to) s)
                          (λ _. announce_legs env request from to)
                          (entry_public from, entry_public to)
                          (post_legs-Posts env request from to s) clean
                          (announce_legs-Announced env request from to))
                  ])
        | inr (i, old) ↦ rw old (
            unchanged-IsAtomic s _ clean
              (earlier_legs-unchanged env request (get_entry_by_id s.tables i) s))
      ]

map-IsAtomic :
    {A B : Type 0} (auto : Bool) (f : A → B) (s : Session) (r : Result A × Session)
    → IsAtomic auto s r
    → IsAtomic auto s (((λ _. r) >>= λ a. pure (f a)) s)
map-IsAtomic false f s (ok _, s') h = h
map-IsAtomic false f s (err _, s') h = h
map-IsAtomic true f s (ok _, s') h = h
map-IsAtomic true f s (err Error.bus, s') h = h
map-IsAtomic true f s (err Error.insufficient_balance, s') h = h
map-IsAtomic true f s (err Error.original_not_found, s') h = h
map-IsAtomic true f s (err Error.record_invalid, s') h = h
map-IsAtomic true f s (err Error.credit_leg_not_found, s') h = h
map-IsAtomic true f s (err Error.database, s') h = h

-- From a session with nothing uncommitted, whichever statements the database refuses and whichever
-- events the event bus raises for: a call that ends its own transaction commits all that it did and
-- answers, or commits it and raises the event bus's exception, or raises any other and leaves the
-- tables, what is committed and the events as they were. A credit or a debit with
-- `auto_commit=False` commits nothing.
pub perform-IsAtomic :
    (env : Env) (call : Call) (s : Session)
    → s.tables ≡ s.committed
    → IsAtomic (commits_itself call) s (perform env call s)
unfolding perform
perform-IsAtomic env (credits r auto) s clean =
    map-IsAtomic auto (λ e. e ∷ []) s (credit env r auto s) (credit-IsAtomic env s clean r auto)
perform-IsAtomic env (debits r auto) s clean =
    map-IsAtomic auto (λ e. e ∷ []) s (debit env r auto s) (debit-IsAtomic env s clean r auto)
perform-IsAtomic env (refunds account original key) s clean =
    map-IsAtomic true (λ e. e ∷ []) s (refund env account original key s)
      (refund-IsAtomic env s clean account original key)
perform-IsAtomic env (transfers r) s clean =
    map-IsAtomic true (λ p. p.0 ∷ p.1 ∷ []) s (transfer env r s) (transfer-IsAtomic env s clean r)
