-- ===== src/Ledger/Holding.antt =====
-- The entry under an idempotency key of swx_core/services/ledger_service.py is found again whatever
-- else a posting adds to the tables.
use swx.Prelude.{
  ℕ, ◌≡◌, ◌≢◌, refl, sym, ap, subst, ◌∙◌, String, Option, none, some, List, [], ◌∷◌, nat_eq,
  string_eq, ◌==◌, eqb_iff, beq_ne, Bool-cases, inl, inr,
}
use swx.Prelude.Dict.{lookup, lookup-insert}
use mathlib.Core.Option.{some-injective}
use swx.Ledger.Model.{LedgerEntry, IdempotencyRecord, Tables, Env}
use swx.Ledger.Repository.{find_entry, add_entry, add_record}
use swx.Ledger.Service.{replayed, entry_at, entry_of_record, completed}
use swx.Ledger.Posting.{posted}

find_entry-id :
    (i : ℕ) (es : List LedgerEntry) {e : LedgerEntry} → find_entry i es ≡ some e → e.id ≡ i
find_entry-id i [] h = absurd (cc)
find_entry-id i (x ∷ es) h = elim (Bool-cases (x.id == i)) [
  | inl e ↦ subst (λ y. y.id ≡ i) (some-injective _ _ (rw e at h)) ((eqb_iff x.id i).0 e)
  | inr e ↦ find_entry-id i es (rw e at h)
]

-- The entry stands under the key.
abbrev pub Holds : String → LedgerEntry → Tables → Type 0
Holds key entry t = replayed t (some key) ≡ some entry

entry_of_record-any :
    (t t' : Tables) (o : Option IdempotencyRecord) → entry_of_record t' o ≡ entry_of_record t o
entry_of_record-any t t' none = refl
entry_of_record-any t t' (some r) = refl

entry_at-same :
    (t t' : Tables) (o : Option ℕ) → t'.entries ≡ t.entries → entry_at t' o ≡ entry_at t o
entry_at-same t t' none e = refl
entry_at-same t t' (some i) e = ap (find_entry i) e

module _ (key : String) (entry : LedgerEntry) where
  pub Holds-same :
      (t t' : Tables)
      → t'.entries ≡ t.entries
      → lookup key t'.records ≡ lookup key t.records
      → Holds key entry t
      → Holds key entry t'
  Holds-same t t' es rs h =
      entry_at-same t t' _ es
      ∙ ap (λ r. entry_at t (entry_of_record t' r)) rs
      ∙ ap (entry_at t) (entry_of_record-any t t' (lookup key t.records))
      ∙ h

  entry_at-add_entry :
      (e : LedgerEntry) (t : Tables) (o : Option ℕ)
      → e.id ≢ entry.id
      → entry_at t o ≡ some entry
      → entry_at (add_entry e t) o ≡ some entry
  entry_at-add_entry e t none fresh h = absurd (cc)
  entry_at-add_entry e t (some i) fresh h =
      rw (beq_ne e.id i (λ same. fresh (same ∙ sym (find_entry-id i t.entries h)))) h

  pub Holds-add_entry :
      (e : LedgerEntry) (t : Tables)
      → e.id ≢ entry.id
      → Holds key entry t
      → Holds key entry (add_entry e t)
  Holds-add_entry e t fresh h =
      ap (entry_at (add_entry e t)) (entry_of_record-any t (add_entry e t) (lookup key t.records))
      ∙ entry_at-add_entry e t (entry_of_record t (lookup key t.records)) fresh h

  pub Holds-add_record :
      (r : IdempotencyRecord) (t : Tables)
      → r.key ≢ key
      → Holds key entry t
      → Holds key entry (add_record r t)
  Holds-add_record r t other =
      Holds-same t (add_record r t) refl
        (lookup-insert key r.key r t.records ∙ rw (beq_ne r.key key other) refl)

  pub Holds-posted :
      (env : Env) (k : Option String) (e : LedgerEntry) (t : Tables)
      → k ≢ some key
      → e.id ≢ entry.id
      → Holds key entry t
      → Holds key entry (posted env k e t)
  Holds-posted env none e t other fresh h =
      Holds-same (add_entry e t) (posted env none e t) refl refl (Holds-add_entry e t fresh h)
  Holds-posted env (some k) e t other fresh h =
      Holds-add_record (completed k e.account_id e.id) (posted env none e t)
        (λ same. other (ap some same))
        (Holds-same (add_entry e t) (posted env none e t) refl refl (Holds-add_entry e t fresh h))
