-- ===== src/Cache/Coherence.antt =====
-- The bounded cache against a plain function of the calls that it has seen.
use swx.Prelude.{
  ℕ, suc, ◌+◌, ◌≤◌, ◌≡◌, ◌≢◌, refl, sym, ap, ◌∙◌, subst, Bool, true, false, ◌&&◌, not, Option, none,
  some, List, [], ◌∷◌, arith, length, ltb, leb, ◌==◌, beq_refl, eqb_iff, if◌then◌else◌, Bool-cases,
  Option-cases, inl, inr,
}
use swx.Prelude.Dict.{lookup, contains, lookup-insert, lookup-erase, length-insert, length-erase-le}
use swx.Prelude.Text.{Text, text_eq, starts_with}
use mathlib.Core.Option.{some-injective}
use swx.Cache.L1.{
  L1Cache, get, set, delete, clear, delete_by_prefix, evicted, room_for, without_prefix, Call, gets,
  sets, deletes, clears, deletes_prefix, perform, run, or_same,
}

module _ {V : Type 0} where
  length-without_prefix-le :
      (prefix : Text) (s : List (Text × (V × ℕ))) → length (without_prefix prefix s) ≤ length s
  length-without_prefix-le prefix [] = omega arith
  length-without_prefix-le prefix (x ∷ s) = ground (arith, length-without_prefix-le prefix s)

  length-evicted : (s s' : List (Text × (V × ℕ))) → evicted s ≡ some s' → suc (length s') ≤ length s
  length-evicted [] s' h = cc
  length-evicted ((k, v) ∷ s) s' h =
      subst (λ s'. suc (length s') ≤ suc (length s)) (some-injective _ _ h)
        (omega (arith, length-erase-le k s))

  lookup-evicted :
      (k : Text) (x : V × ℕ) (s s' : List (Text × (V × ℕ)))
      → evicted s ≡ some s'
      → lookup k s' ≡ some x
      → lookup k s ≡ some x
  lookup-evicted k x [] s' h l = cc
  lookup-evicted k x ((j, v) ∷ s) s' h l =
      found (sym (lookup-erase k j s) ∙ ap (lookup k) (some-injective _ _ h) ∙ l)
    where
      found :
          (if j == k then none else lookup k s) ≡ some x
          → (if j == k then some v else lookup k s) ≡ some x
      found q = elim (Bool-cases (j == k)) [
        | inl e ↦ absurd (cc (rw e at q))
        | inr e ↦ rw e (rw e at q)
      ]

  -- Room is made for a key that is not there, and the rest is what was there before.
  room_for-length :
      (key : Text) (c : L1Cache V) (s : List (Text × (V × ℕ)))
      → contains key c.store ≡ false
      → length c.store ≤ c.max_entries
      → room_for key c ≡ some s
      → suc (length s) ≤ c.max_entries
  room_for-length key c s new h r = elim (Bool-cases (leb c.max_entries (length c.store))) [
    | inl full ↦ omega (arith, h, length-evicted c.store s (rw (full, new) at r))
    | inr free ↦
        subst (λ s. suc (length s) ≤ c.max_entries) (some-injective _ _ (rw free at r))
          (ground arith)
  ]

  room_for-lookup :
      (key k : Text) (x : V × ℕ) (c : L1Cache V) (s : List (Text × (V × ℕ)))
      → room_for key c ≡ some s
      → lookup k s ≡ some x
      → lookup k c.store ≡ some x
  room_for-lookup key k x c s r l =
      elim (Bool-cases (leb c.max_entries (length c.store) && not (contains key c.store))) [
        | inl full ↦ lookup-evicted k x c.store s (rw full at r) l
        | inr free ↦ ap (lookup k) (some-injective _ _ (rw free at r)) ∙ l
      ]

  set-bounded :
      (now : ℕ) (key : Text) (value : V) (ttl : ℕ) (c : L1Cache V)
      → length c.store ≤ c.max_entries
      → length (or_same c (set now key value ttl c)).store ≤ c.max_entries
  unfolding set
  set-bounded now key value ttl c h = elim (Bool-cases (contains key c.store)) [
    | inl e ↦ rw (e, set) (ground (arith, length-insert key (value, now + ttl) c.store, e))
    | inr e ↦ elim (Option-cases (room_for key c)) [
      | inl r ↦ rw (r, set) h
      | inr (s, r) ↦
          rw (r, set)
            (ground (arith, length-insert key (value, now + ttl) s, room_for-length key c s e h r))
    ]
  ]

  pub lookup-without_prefix :
      (prefix key : Text) (s : List (Text × (V × ℕ)))
      → lookup key (without_prefix prefix s)
        ≡ (if starts_with key prefix then none else lookup key s)
  lookup-without_prefix prefix key [] = ground arith
  lookup-without_prefix prefix key ((k, v) ∷ s) = elim (Bool-cases (k == key)) [
    | inl e ↦
        subst
          (λ key.
            lookup key (without_prefix prefix ((k, v) ∷ s))
            ≡ (if starts_with key prefix then none else lookup key ((k, v) ∷ s)))
          ((eqb_iff k key).0 e) (same (lookup-without_prefix prefix k s))
    | inr e ↦ elim (Bool-cases (starts_with k prefix)) [
      | inl p ↦ rw (p, e) (lookup-without_prefix prefix key s)
      | inr p ↦ rw (p, e) (lookup-without_prefix prefix key s)
    ]
  ]
    where
      same :
          lookup k (without_prefix prefix s) ≡ (if starts_with k prefix then none else lookup k s)
          → lookup k (without_prefix prefix ((k, v) ∷ s))
            ≡ (if starts_with k prefix then none else lookup k ((k, v) ∷ s))
      same h = elim (Bool-cases (starts_with k prefix)) [
        | inl p ↦ rw p (rw p at h)
        | inr p ↦ rw (p, beq_refl k) refl
      ]

  get-max_entries :
      (now : ℕ) (key : Text) (c : L1Cache V) → (get now key c).1.max_entries ≡ c.max_entries
  unfolding get
  get-max_entries now key c = ground arith

  kept :
      (b : Bool) (o p : Option (V × ℕ)) {x : V × ℕ}
      → (o ≡ some x → p ≡ some x)
      → (if b then none else o) ≡ some x
      → (if b then none else p) ≡ some x
  kept true o p f h = h
  kept false o p f h = f h

  get-bounded :
      (now : ℕ) (key : Text) (c : L1Cache V) → length (get now key c).1.store ≤ length c.store
  unfolding get
  get-bounded now key c = ground (arith, length-erase-le key c.store)

  perform-max_entries :
      (call : Call V) (c : L1Cache V) → (perform call c).max_entries ≡ c.max_entries
  unfolding get set delete clear delete_by_prefix
  perform-max_entries (gets now key) c = get-max_entries now key c
  perform-max_entries (sets now key value ttl) c = elim (Option-cases (room_for key c)) [
    | inl r ↦ rw (r, set) refl
    | inr (s, r) ↦ rw (r, set) refl
  ]
  perform-max_entries (deletes key) c = refl
  perform-max_entries clears c = refl
  perform-max_entries (deletes_prefix prefix) c = refl

  perform-bounded :
      (call : Call V) (c : L1Cache V)
      → length c.store ≤ c.max_entries
      → length (perform call c).store ≤ c.max_entries
  unfolding delete clear delete_by_prefix
  perform-bounded (gets now key) c h = omega (arith, h, get-bounded now key c)
  perform-bounded (sets now key value ttl) c h = set-bounded now key value ttl c h
  perform-bounded (deletes key) c h = omega (arith, length-erase-le key c.store)
  perform-bounded clears c h = omega arith
  perform-bounded (deletes_prefix prefix) c h =
      omega (arith, length-without_prefix-le prefix c.store)

  -- A cache that holds at most its maximal number of entries still does after any calls.
  pub run-bounded :
      (calls : List (Call V)) (c : L1Cache V)
      → length c.store ≤ c.max_entries
      → length (run calls c).store ≤ c.max_entries
  run-bounded [] c h = h
  run-bounded (call ∷ calls) c h =
      subst (λ n. length (run calls (perform call c)).store ≤ n) (perform-max_entries call c)
        (run-bounded calls (perform call c) (
          subst (λ n. length (perform call c).store ≤ n) (sym (perform-max_entries call c))
            (perform-bounded call c h)))

  abbrev pub new_cache : ℕ → L1Cache V
  new_cache max = record { store = []; max_entries = max }

  -- A cache without bound or clock: what was written last under a key and not deleted since.
  abbrev pub remember : Call V → (Text → Option (V × ℕ)) → Text → Option (V × ℕ)
  remember (gets now key) f k = f k
  remember (sets now key value ttl) f k = if key == k then some (value, now + ttl) else f k
  remember (deletes key) f k = if key == k then none else f k
  remember clears f k = none
  remember (deletes_prefix prefix) f k = if starts_with k prefix then none else f k

  abbrev pub remembered : List (Call V) → (Text → Option (V × ℕ)) → Text → Option (V × ℕ)
  remembered [] f = f
  remembered (call ∷ calls) f = remembered calls (remember call f)

  -- What the cache holds is remembered.
  abbrev pub Agrees : L1Cache V → (Text → Option (V × ℕ)) → Type 0
  Agrees c f = (k : Text) (x : V × ℕ) → lookup k c.store ≡ some x → f k ≡ some x

  present :
      (b : Bool) (o : Option (V × ℕ)) {x : V × ℕ} → (if b then none else o) ≡ some x → o ≡ some x
  present true o h = absurd (cc h)
  present false o h = h

  get-lookup :
      (now : ℕ) (key k : Text) (x : V × ℕ) (c : L1Cache V)
      → lookup k (get now key c).1.store ≡ some x
      → lookup k c.store ≡ some x
  unfolding get
  get-lookup now key k x c h = elim (Option-cases (lookup key c.store)) [
    | inl e ↦ rw (e, get) at h
    | inr ((v, at), e) ↦ elim (Bool-cases (ltb at now)) [
      | inl late ↦
          present (key == k) _ (sym (lookup-erase k key c.store) ∙ (rw (e, late, get) at h))
      | inr fresh ↦ rw (e, fresh, get) at h
    ]
  ]

  lookup-no_room :
      (key k : Text) (x : V × ℕ) (c : L1Cache V) → room_for key c ≡ none → lookup k c.store ≢ some x
  lookup-no_room key k x c r h =
      elim (Bool-cases (leb c.max_entries (length c.store) && not (contains key c.store))) [
        | inl full ↦ empty c.store (rw full at r) h
        | inr free ↦ absurd (cc (rw free at r))
      ]
    where
      empty : (s : List (Text × (V × ℕ))) → evicted s ≡ none → lookup k s ≢ some x
      empty [] e = cc
      empty (y ∷ s) e = absurd (cc e)

  perform-Agrees :
      (call : Call V) (c : L1Cache V) (f : Text → Option (V × ℕ))
      → Agrees c f
      → Agrees (perform call c) (remember call f)
  unfolding get set delete clear delete_by_prefix
  perform-Agrees (gets now key) c f a k x h = a k x (get-lookup now key k x c h)
  perform-Agrees (sets now key value ttl) c f a k x h = elim (Option-cases (room_for key c)) [
    | inl r ↦ absurd (lookup-no_room key k x c r (rw (r, set) at h))
    | inr (s, r) ↦
        written (key == k) (value, now + ttl) (λ l. a k x (room_for-lookup key k x c s r l))
          (sym (lookup-insert k key (value, now + ttl) s) ∙ (rw (r, set) at h))
  ]
    where
      written :
          (b : Bool) (y : V × ℕ) {o p : Option (V × ℕ)}
          → (o ≡ some x → p ≡ some x)
          → (if b then some y else o) ≡ some x
          → (if b then some y else p) ≡ some x
      written true y g h = h
      written false y g h = g h
  perform-Agrees (deletes key) c f a k x h =
      kept (key == k) _ _ (a k x) (sym (lookup-erase k key c.store) ∙ h)
  perform-Agrees clears c f a k x h = absurd (cc h)
  perform-Agrees (deletes_prefix prefix) c f a k x h =
      kept (starts_with k prefix) _ _ (a k x) (sym (lookup-without_prefix prefix k c.store) ∙ h)

  run-Agrees :
      (calls : List (Call V)) (c : L1Cache V) (f : Text → Option (V × ℕ))
      → Agrees c f
      → Agrees (run calls c) (remembered calls f)
  run-Agrees [] c f a = a
  run-Agrees (call ∷ calls) c f a =
      run-Agrees calls (perform call c) (remember call f) (perform-Agrees call c f a)

  -- After any calls on a new cache, whatever the bound evicts: what `get` answers is what was written
  -- last under the key and not deleted since, and its time has not run out.
  pub get-run :
      (calls : List (Call V)) (max now : ℕ) (key : Text) (value : V)
      → (get now key (run calls (new_cache max))).0 ≡ some value
      → (expires_at : ℕ) × (remembered calls (λ _. none) key ≡ some (value, expires_at))
        × (now ≤ expires_at)
  unfolding get
  get-run calls max now key value h =
      let c = run calls (new_cache max) in
      elim (Option-cases (lookup key c.store)) [
        | inl e ↦ absurd (cc (rw (e, get) at h))
        | inr ((v, at), e) ↦ elim (Bool-cases (ltb at now)) [
          | inl late ↦ absurd (cc (rw (e, late, get) at h))
          | inr fresh ↦ (
            at,
            run-Agrees calls (new_cache max) (λ _. none) (λ k x l. absurd (cc l)) key (v, at) e
                ∙ ap (λ v. some (v, at)) (some-injective _ _ (rw (e, fresh, get) at h)),
            ground arith,
          )
        ]
      ]
