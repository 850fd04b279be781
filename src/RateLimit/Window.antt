-- ===== src/RateLimit/Window.antt =====
-- How many requests the in-memory limiter lets through in any window.
use swx.Prelude.{
  eqb_iff, ℕ, suc, ◌+◌, ◌≤◌, ◌≡◌, refl, ◌∙◌, subst, Bool, false, Option, none, some, List, [], ◌∷◌,
  ◌++◌, length, filter, length-filter-le, length-append, arith, leb, ◌==◌, if◌then◌else◌,
  Bool-cases, inl, inr,
}
use swx.Prelude.Dict.{lookup, lookup-insert}
use swx.Prelude.Text.{Text, text_eq}
use swx.RateLimit.Memory.{Answer, Store, stamps_of, is_recent, refusal, decide, check_memory}

-- The stamps of the window that ends now.
abbrev pub live : ℕ → ℕ → List ℕ → ℕ
live window now stamps = length (filter (is_recent window now) stamps)

abbrev pub lets_in : Option Answer → Bool
lets_in none = false
lets_in (some a) = a.is_allowed

abbrev pub noted : Bool → ℕ → List ℕ → List ℕ
noted b now log = if b then now ∷ log else log

-- Requests, each with its key and the time since the one before it; `log` notes when a request of
-- each key was let in.
abbrev pub Log : Type 0
Log = Text → List ℕ

abbrev pub noting : Bool → Text → ℕ → Log → Log
noting b key now log k = if key == k then noted b now (log k) else log k

live-recent :
    (window now later : ℕ) (stamps : List ℕ)
    → now ≤ later
    → live window later (filter (is_recent window now) stamps) ≡ live window later stamps
live-recent window now later [] h = refl
live-recent window now later (t ∷ stamps) h = ground (arith, live-recent window now later stamps h)

live-last :
    (window later now : ℕ) (stamps : List ℕ)
    → live window later (stamps ++ now ∷ []) ≡ live window later (now ∷ stamps)
live-last window later now [] = refl
live-last window later now (t ∷ stamps) = ground (arith, live-last window later now stamps)

refusal-refuses : (window now : ℕ) (recent : List ℕ) → lets_in (refusal window now recent) ≡ false
refusal-refuses window now [] = refl
refusal-refuses window now (t ∷ recent) = refl

module _ (limit window : ℕ) where
  -- Deciding keeps at most `limit` stamps, the recent ones and the new one if it is let in.
  decide-length :
      (now : ℕ) (recent : List ℕ)
      → length recent ≤ limit
      → length (decide limit window now recent).1 ≤ limit
  decide-length now recent h = elim (Bool-cases (leb limit (length recent))) [
    | inl e ↦ rw e h
    | inr e ↦
        let free : suc (length recent) ≤ limit = ground arith in
        rw e (omega (arith, free, length-append recent (now ∷ [])))
  ]

  decide-live :
      (now later : ℕ) (recent log : List ℕ)
      → live window later recent ≡ live window later log
      → live window later (decide limit window now recent).1
        ≡ live window later (noted (lets_in (decide limit window now recent).0) now log)
  decide-live now later recent log h = elim (Bool-cases (leb limit (length recent))) [
    | inl e ↦ rw (e, refusal-refuses window now recent) h
    | inr e ↦ rw e (live-last window later now recent ∙ ground (arith, h))
  ]

  abbrev pub Fits : ℕ → List ℕ → List ℕ → Type 0
  Fits now stamps log =
      (length stamps ≤ limit)
      × ((later : ℕ) → now ≤ later → live window later stamps ≡ live window later log)

  -- The stamps of every key agree with the log, from now on.
  abbrev pub Tracks : ℕ → Store → Log → Type 0
  Tracks now store log =
      (k : Text)
      → (length (stamps_of (lookup k store)) ≤ limit)
        × ((later : ℕ)
            → now ≤ later
            → live window later (stamps_of (lookup k store)) ≡ live window later (log k))

  abbrev recent_of : ℕ → List ℕ → List ℕ
  recent_of now stamps = filter (is_recent window now) stamps

  decide-Fits :
      (last now : ℕ) (stamps log : List ℕ)
      → last ≤ now
      → Fits last stamps log
      → Fits now
          (decide limit window now (recent_of now stamps)).1
          (noted (lets_in (decide limit window now (recent_of now stamps)).0) now log)
  decide-Fits last now stamps log h (short, same) = (
    decide-length now (recent_of now stamps)
        (omega (arith, short, length-filter-le (is_recent window now) stamps)),
    λ later l.
        decide-live now later (recent_of now stamps) log
          (live-recent window now later stamps l ∙ same later (omega (arith, h, l))),
  )

  Fits-later :
      (last now : ℕ) (stamps log : List ℕ) → last ≤ now → Fits last stamps log → Fits now stamps log
  Fits-later last now stamps log h (short, same) =
      (short, λ later l. same later (omega (arith, h, l)))

  check_memory-Tracks :
      (last now : ℕ) (key : Text) (store : Store) (log : Log)
      → last ≤ now
      → Tracks last store log
      → Tracks now
          (check_memory limit window now key store).1
          (noting (lets_in (check_memory limit window now key store).0) key now log)
  unfolding check_memory
  check_memory-Tracks last now key store log h t k =
      let made = decide limit window now (recent_of now (stamps_of (lookup key store))) in
      elim (Bool-cases (key == k)) [
        | inl e ↦
            rw (lookup-insert k key made.1 store, e)
              (subst (λ k. Fits now made.1 (noted (lets_in made.0) now (log k)))
                ((eqb_iff key k).0 e)
                (decide-Fits last now (stamps_of (lookup key store)) (log key) h (t key)))
        | inr e ↦
            rw (lookup-insert k key made.1 store, e)
              (Fits-later last now (stamps_of (lookup k store)) (log k) h (t k))
      ]

  abbrev pub after : ℕ → List (Text × ℕ) → Store → Log → ℕ × Log
  after now [] store log = (now, log)
  after now ((key, gap) ∷ requests) store log =
      let (answer, store') = check_memory limit window (now + gap) key store in
      after (now + gap) requests store' (noting (lets_in answer) key (now + gap) log)

  after-bounded :
      (requests : List (Text × ℕ)) (now : ℕ) (store : Store) (log : Log)
      → Tracks now store log
      → (key : Text) (later : ℕ) → (after now requests store log).0 ≤ later
      → live window later ((after now requests store log).1 key) ≤ limit
  after-bounded [] now store log t key later h =
      let (short, same) = t key in
      omega (
        arith,
        short,
        same later h,
        length-filter-le (is_recent window later) (stamps_of (lookup key store)),
      )
  after-bounded ((k, gap) ∷ requests) now store log t key later h =
      after-bounded requests (now + gap) (check_memory limit window (now + gap) k store).1
        (noting (lets_in (check_memory limit window (now + gap) k store).0) k (now + gap) log)
        (check_memory-Tracks now (now + gap) k store log (omega arith) t) key later h

  -- After any requests on a new in-memory limiter, of whatever keys and at whatever times, each no earlier than
  -- the one before: of the requests of a key that it let in, those in the window that ends at the
  -- last request, or at any later time, are at most `limit`.
  pub window-bounded :
      (requests : List (Text × ℕ)) (start : ℕ) (key : Text) (later : ℕ)
      → (after start requests [] (λ _. [])).0 ≤ later
      → live window later ((after start requests [] (λ _. [])).1 key) ≤ limit
  window-bounded requests start key later h =
      after-bounded requests start [] (λ _. []) (λ k. (omega arith, λ later l. refl)) key later h
