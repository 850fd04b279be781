-- ===== src/Cache/L1.antt =====
-- `_L1Cache` of swx_core/auth/auth_cache.py: a dict of values with the time at which they expire.
-- Times are ticks of the monotonic clock. `none` of `set` is the `StopIteration` of an empty cache
-- without room.
use swx.Prelude.{
  ℕ, ◌+◌, ◌&&◌, not, Option, none, some, List, [], ◌∷◌, length, ltb, leb, if◌then◌else◌,
}
use swx.Prelude.Dict.{lookup, contains, insert, erase}
use swx.Prelude.Text.{Text, text_eq, starts_with}

pub record L1Cache (V : Type 0) : Type 0 where
  pub store : List (Text × (V × ℕ))
  pub max_entries : ℕ

module _ {V : Type 0} where
  abbrev pub with_store : L1Cache V → List (Text × (V × ℕ)) → L1Cache V
  with_store c s = record c { store = s }

  unfoldable pub get : ℕ → Text → L1Cache V → Option V × L1Cache V
  get now key c = elim (lookup key c.store) [
    | none ↦ (none, c)
    | some (value, expires_at) ↦
        if ltb expires_at now then (none, with_store c (erase key c.store)) else (some value, c)
  ]

  -- `del self._store[next(iter(self._store))]`
  abbrev pub evicted : List (Text × (V × ℕ)) → Option (List (Text × (V × ℕ)))
  evicted [] = none
  evicted ((oldest, _) ∷ s) = some (erase oldest s)

  abbrev pub room_for : Text → L1Cache V → Option (List (Text × (V × ℕ)))
  room_for key c =
      if leb c.max_entries (length c.store) && not (contains key c.store)
      then evicted c.store
      else some c.store

  unfoldable pub set : ℕ → Text → V → ℕ → L1Cache V → Option (L1Cache V)
  set now key value ttl c = elim (room_for key c) [
    | none ↦ none
    | some s ↦ some (with_store c (insert key (value, now + ttl) s))
  ]

  unfoldable pub delete : Text → L1Cache V → L1Cache V
  delete key c = with_store c (erase key c.store)

  unfoldable pub clear : L1Cache V → L1Cache V
  clear c = with_store c []

  abbrev pub without_prefix : Text → List (Text × (V × ℕ)) → List (Text × (V × ℕ))
  without_prefix prefix [] = []
  without_prefix prefix ((k, v) ∷ s) =
      if starts_with k prefix then without_prefix prefix s else (k, v) ∷ without_prefix prefix s

  unfoldable pub delete_by_prefix : Text → L1Cache V → L1Cache V
  delete_by_prefix prefix c = with_store c (without_prefix prefix c.store)

-- One call of the cache at some time.
pub data Call (V : Type 0) : Type 0 where
  gets : ℕ → Text → Call V
  sets : ℕ → Text → V → ℕ → Call V
  deletes : Text → Call V
  clears : Call V
  deletes_prefix : Text → Call V

module _ {V : Type 0} where
  -- A call that raises leaves the cache as it was.
  abbrev pub or_same : L1Cache V → Option (L1Cache V) → L1Cache V
  or_same c none = c
  or_same c (some c') = c'

  abbrev pub perform : Call V → L1Cache V → L1Cache V
  perform (gets now key) c = (get now key c).1
  perform (sets now key value ttl) c = or_same c (set now key value ttl c)
  perform (deletes key) c = delete key c
  perform clears c = clear c
  perform (deletes_prefix prefix) c = delete_by_prefix prefix c

  abbrev pub run : List (Call V) → L1Cache V → L1Cache V
  run [] c = c
  run (call ∷ calls) c = run calls (perform call c)
