-- ===== src/Ledger/Retried.antt =====
-- Idempotency keys of swx_core/services/ledger_service.py over a history: the entry that stands
-- under a key is still found after other calls.
use swx.Prelude.{
  ℕ, ◌≡◌, ◌≢◌, refl, sym, ap, subst, ◌∙◌, Bool, true, false, String, Option, none, some, List, [],
  ◌∷◌, nat_eq, string_eq, Bool-cases, Option-cases, inl, inr,
}
use swx.Ledger.Model.{
  LedgerEntry, LedgerEntryPublic, IdempotencyRecord, CreditRequest, TransferRequest, Tables,
  Session, Env, Result, ok, err, M, ◌>>=◌, pure, Event,
}
use swx.Ledger.Repository.{get_entry_by_id, get_idempotency_record, add_entry, put_balance}
use swx.Ledger.Service.{
  transaction, post, given, replayed, existing_entry, completed, credit_entry, debit_entry,
  refund_entry, refundable, current_balance, overdraws, announce, credit, debit, refund,
  entry_public,
}
use swx.Ledger.Transfers.{transfer, debit_leg, credit_leg, post_legs, announce_legs, entry_of}
use swx.Ledger.Posting.{posted, Posts, post-Posts, Announced, announce-Announced}
use swx.Ledger.Legs.{legs_posted, post_legs-Posts, announce_legs-Announced, earlier_legs-unchanged}
use swx.Ledger.Atomic.{IsAtomic, credit-IsAtomic, debit-IsAtomic}
use swx.Ledger.Replay.{IsKept, credit-IsKept, debit-IsKept, credit-replayed, debit-replayed}
use swx.Ledger.History.{Call, credits, debits, refunds, transfers, commits_itself, perform, run}
use swx.Ledger.Holding.{Holds, Holds-same, Holds-add_entry, Holds-add_record, Holds-posted}

completed-another :
    (t : Tables) (key : Option String) (k : String) {entry : LedgerEntry}
    → replayed t key ≡ none
    → Holds k entry t
    → key ≢ some k
completed-another t key k new h same = cc (ap (replayed t) same)

-- No call makes an entry under this id: the ids are fresh.
abbrev pub IsFresh : ℕ → List (Env × Call) → Type 0
IsFresh i [] = Unit
IsFresh i ((env, call) ∷ rest) = (env.entry_id ≢ i) × (env.credit_entry_id ≢ i) × IsFresh i rest

-- Every call ends its own transaction.
abbrev pub AllCommitting : List (Env × Call) → Type 0
AllCommitting [] = Unit
AllCommitting ((env, call) ∷ rest) = (commits_itself call ≡ true) × AllCommitting rest

module _ (key : String) (entry : LedgerEntry) where
  abbrev Kept : Session → Type 0
  Kept s = Holds key entry s.tables × Holds key entry s.committed

  Announced-Kept :
      {A : Type 0} (a : A) (s : Session) (r : Result A × Session)
      → Announced a s r
      → Kept s
      → Kept r.1
  Announced-Kept a s (ok _, s') p h = (rw p.0 h.0, rw p.1 h.1)
  Announced-Kept a s (err _, s') p h = (rw p.0 h.0, rw p.1 h.1)

  finish-Kept :
      {B : Type 0} (done : Tables) (s : Session) (r : Result (Unit {0}) × Session)
      (f : Unit {0} → M B) (b : B)
      → Posts true done s r
      → ((s' : Session) → Announced b s' (f tt s'))
      → Holds key entry done
      → Kept s
      → Kept (((λ _. r) >>= f) s).1
  finish-Kept done s (ok tt, s') f b p k d h =
      Announced-Kept b s' (f tt s') (k s') (rw p.0 d, rw p.1 d)
  finish-Kept done s (err e, s') f b p k d h = (rw (p.1 refl) h.1, rw p.0 h.1)

  map-Kept :
      {A B : Type 0} (f : A → B) (s : Session) (r : Result A × Session)
      → Kept r.1
      → Kept (((λ _. r) >>= λ a. pure (f a)) s).1
  map-Kept f s (ok _, s') h = h
  map-Kept f s (err _, s') h = h

  module _ (env : Env) (s : Session) (h : Kept s) (first : env.entry_id ≢ entry.id)
      (second : env.credit_entry_id ≢ entry.id) where
    post-Kept :
        (k : Option String) (e : LedgerEntry) (event : Event)
        → replayed s.tables k ≡ none
        → e.id ≢ entry.id
        → Kept (((λ _. transaction true (post env true k e) s) >>= λ _. announce env event e) s).1
    post-Kept k e event new fresh =
        finish-Kept (posted env k e s.tables) s (transaction true (post env true k e) s)
          (λ _. announce env event e) (entry_public e) (post-Posts env true k e s)
          (announce-Announced env event e)
          (Holds-posted key entry env k e s.tables (completed-another s.tables k key new h.0) fresh
            h.0)
          h

    credit-Kept : (request : CreditRequest) → Kept (credit env request true s).1
    unfolding credit
    credit-Kept request = elim (Option-cases (replayed s.tables (given request.idempotency_key))) [
      | inl new ↦
          let e = credit_entry env request s.tables in
          rw new (
            post-Kept (given request.idempotency_key) e
              (Event.credited request.account_id e.id request.amount) new first)
      | inr (e, old) ↦ rw old h
    ]

    debit-Kept : (request : CreditRequest) → Kept (debit env request true s).1
    unfolding debit
    debit-Kept request = elim (Option-cases (replayed s.tables (given request.idempotency_key))) [
      | inl new ↦
          let e = debit_entry env request s.tables in
          rw new
            (elim (Bool-cases
              (overdraws env (current_balance s.tables request.account_id).0 request.amount)) [
                | inl short ↦ rw short h
                | inr covered ↦ rw covered (
                    post-Kept (given request.idempotency_key) e
                      (Event.debited request.account_id e.id request.amount) new first)
              ])
      | inr (e, old) ↦ rw old h
    ]

    refund-Kept : (account original : ℕ) (k : String) → Kept (refund env account original k s).1
    unfolding refund
    refund-Kept account original k = elim (Option-cases (replayed s.tables (some k))) [
      | inl new ↦
          rw new (elim (Option-cases (refundable account (get_entry_by_id s.tables original))) [
            | inl missing ↦ rw missing h
            | inr (o, found) ↦
                let e = refund_entry env account k o s.tables in
                rw found (post-Kept (some k) e (Event.refunded account e.id o.id) new first)
          ])
      | inr (e, old) ↦ rw old h
    ]

    -- A transfer goes on only if no entry stands under its key.
    transfer_key : (k : String) → entry_of (get_idempotency_record s.tables k) ≡ none → k ≢ key
    transfer_key k new same =
        without (get_idempotency_record s.tables k) new
          (ap (λ j. replayed s.tables (some j)) same ∙ h.0)
      where
        without :
            (o : Option IdempotencyRecord)
            → entry_of o ≡ none
            → existing_entry s.tables o ≡ some entry
            → ⊥
        without none e p = cc
        without (some r) e p = cc (rw e at p)

    Holds-legs_posted :
        (request : TransferRequest) (from to : LedgerEntry)
        → request.idempotency_key ≢ key
        → from.id ≢ entry.id
        → to.id ≢ entry.id
        → Holds key entry (legs_posted env request from to s.tables)
    Holds-legs_posted request from to other one two =
        let t = add_entry to (add_entry from s.tables) in
        let booked =
          put_balance env.second_balance_id env.now request.to_account_id to.balance_after
            (some to.id) request.currency
            (put_balance env.balance_id env.now request.from_account_id from.balance_after
              (some from.id) request.currency t) in
        Holds-add_record key entry
          (completed request.idempotency_key request.from_account_id from.id) booked other
          (Holds-same key entry t booked refl refl (
            Holds-add_entry key entry to (add_entry from s.tables) two
              (Holds-add_entry key entry from s.tables one h.0)))

    transfer-Kept : (request : TransferRequest) → Kept (transfer env request s).1
    unfolding transfer
    transfer-Kept request =
        let from = debit_leg env request s.tables in
        let to = credit_leg env request s.tables in
        elim (Option-cases (entry_of (get_idempotency_record s.tables request.idempotency_key))) [
          | inl new ↦
              rw new
                (elim (Bool-cases (
                  overdraws env (current_balance s.tables request.from_account_id).0
                    request.amount)) [
                      | inl short ↦ rw short h
                      | inr covered ↦ rw covered (
                          finish-Kept (legs_posted env request from to s.tables) s
                            (transaction true (post_legs env request from to) s)
                            (λ _. announce_legs env request from to)
                            (entry_public from, entry_public to)
                            (post_legs-Posts env request from to s)
                            (announce_legs-Announced env request from to)
                            (Holds-legs_posted request from to
                              (transfer_key request.idempotency_key new) first second)
                            h)
                    ])
          | inr (i, old) ↦ rw old (
              subst Kept (sym (earlier_legs-unchanged env request (get_entry_by_id s.tables i) s))
                h)
        ]

    perform-Kept : (call : Call) → commits_itself call ≡ true → Kept (perform env call s).1
    unfolding perform
    perform-Kept (credits r auto) own =
        map-Kept (λ e. e ∷ []) s (credit env r auto s) (rw own (credit-Kept r))
    perform-Kept (debits r auto) own =
        map-Kept (λ e. e ∷ []) s (debit env r auto s) (rw own (debit-Kept r))
    perform-Kept (refunds account original k) own =
        map-Kept (λ e. e ∷ []) s (refund env account original k s) (refund-Kept account original k)
    perform-Kept (transfers r) own =
        map-Kept (λ p. p.0 ∷ p.1 ∷ []) s (transfer env r s) (transfer-Kept r)

  run-Kept :
      (calls : List (Env × Call)) (s : Session)
      → AllCommitting calls
      → IsFresh entry.id calls
      → Kept s
      → Kept (run calls s)
  unfolding run
  run-Kept [] s own fresh h = h
  run-Kept ((env, call) ∷ rest) s own fresh h =
      run-Kept rest (perform env call s).1 own.1 fresh.2
        (perform-Kept env s h fresh.0 fresh.1 call own.0)

-- A credit, or a debit.
abbrev pub charges : Bool → Env → CreditRequest → Bool → M LedgerEntryPublic
charges false = credit
charges true = debit

charges-IsKept :
    (debits' : Bool) (env : Env) (request : CreditRequest) (s : Session) {key : String}
    {a : LedgerEntryPublic}
    → given request.idempotency_key ≡ some key
    → (charges debits' env request true s).0 ≡ ok a
    → IsKept (some key) (charges debits' env request true s) a
charges-IsKept false env request s keyed e = credit-IsKept env request true s keyed e
charges-IsKept true env request s keyed e = debit-IsKept env request true s keyed e

charges-IsAtomic :
    (debits' : Bool) (env : Env) (request : CreditRequest) (s : Session)
    → s.tables ≡ s.committed
    → IsAtomic true s (charges debits' env request true s)
charges-IsAtomic false env request s clean = credit-IsAtomic env s clean request true
charges-IsAtomic true env request s clean = debit-IsAtomic env s clean request true

charges-replayed :
    (debits' : Bool) (env : Env) (request : CreditRequest) (auto : Bool) (s : Session)
    {entry : LedgerEntry}
    → replayed s.tables (given request.idempotency_key) ≡ some entry
    → charges debits' env request auto s ≡ (ok (entry_public entry), s)
charges-replayed false = credit-replayed
charges-replayed true = debit-replayed

answered-committed :
    {A : Type 0} (s : Session) (r : Result A × Session) {a : A}
    → IsAtomic true s r
    → r.0 ≡ ok a
    → r.1.tables ≡ r.1.committed
answered-committed s (ok _, s') h e = h
answered-committed s (err _, s') h e = absurd (cc)

-- A credit or a debit under a non-empty key, which ends its own transaction and starts with nothing
-- uncommitted, has answered. Then, after any credits, debits, refunds and transfers that end their
-- own transactions, refused ones and ones under any keys included, whose new entries have other ids
-- than the one answered, a credit or a debit under that key, whatever else it asks and whether it
-- commits, answers the same entry and changes nothing.
pub charges_retried :
    (env env' : Env) (request request' : CreditRequest) (debits' debits'' auto' : Bool)
    (s : Session) (calls : List (Env × Call)) {key : String} {a : LedgerEntryPublic}
    → s.tables ≡ s.committed
    → given request.idempotency_key ≡ some key
    → given request'.idempotency_key ≡ some key
    → (charges debits' env request true s).0 ≡ ok a
    → AllCommitting calls
    → IsFresh a.id calls
    → let s' = run calls (charges debits' env request true s).1 in
      charges debits'' env' request' auto' s' ≡ (ok a, s')
charges_retried env env' request request' debits' debits'' auto' s calls {key} clean keyed same e
      own fresh =
    let after = charges debits' env request true s in
    let (entry, held, public) = charges-IsKept debits' env request s keyed e in
    let committed = answered-committed s after (charges-IsAtomic debits' env request s clean) e in
    let kept =
      run-Kept key entry calls after.1 own (subst (λ x. IsFresh x.id calls) (sym public) fresh)
        (held, subst (Holds key entry) committed held) in
    charges-replayed debits'' env' request' auto' (run calls after.1) (rw same kept.0)
    ∙ ap (λ p. (ok p, run calls after.1)) public
