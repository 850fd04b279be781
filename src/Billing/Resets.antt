-- ===== src/Billing/Resets.antt =====
-- How often the usage window is reset, of swx_core/services/billing/usage_window_service.py.
use swx.Prelude.{
  ℕ, ◌+◌, ◌≤◌, ◌<◌, ◌≡◌, refl, ap, subst, ◌∙◌, Bool, true, false, ◌&&◌, Option, none, some, List,
  [], ◌∷◌, arith, nat_eq, ◌==◌, eqb_iff, leb, if◌then◌else◌,
}
use swx.Prelude.Dict.{lookup, lookup-insert}
use swx.Billing.Usage.{
  Settings, Counter, Key, key_beq, key_iff, key_eq, key_of, Counters, or_zero, get, incr, set_zero,
  window_start, monthly_key, window_key, window_reset_key, daily_reset_key, can_reset, record_usage,
  after_reset, reset_window, get_status, QuotaStatus,
}

get-incr :
    (j k : Key) (n : ℕ) (memory : Counters)
    → get k (incr j n memory) ≡ (if key_beq j k then get k memory + n else get k memory)
unfolding get incr
get-incr j k n memory =
    ap or_zero (lookup-insert k j (get j memory + n) memory) ∙ same_key (key_beq j k) refl
  where
    same_key :
        (b : Bool)
        → key_beq j k ≡ b
        → or_zero (if b then some (get j memory + n) else lookup k memory)
          ≡ (if b then get k memory + n else get k memory)
    same_key true e = ap (λ x. get x memory + n) ((key_iff j k).0 e)
    same_key false e = refl

get-set_zero :
    (j k : Key) (memory : Counters)
    → get k (set_zero j memory) ≡ (if key_beq j k then 0 else get k memory)
unfolding get set_zero
get-set_zero j k memory = ap or_zero (lookup-insert k j 0 memory) ∙ same_key (key_beq j k)
  where
    same_key :
        (b : Bool)
        → or_zero (if b then some 0 else lookup k memory) ≡ (if b then 0 else get k memory)
    same_key true = refl
    same_key false = refl

pub data Use : Type 0 where
  records : ℕ → ℕ → ℕ → Use
  resets : ℕ → ℕ → Use

module _ (settings : Settings) where
  unfoldable pub perform : Use → Counters → Counters
  unfolding record_usage reset_window
  perform (records account tokens now) memory = record_usage settings account tokens now memory
  perform (resets account now) memory = (reset_window settings account now memory).1

  -- Whether the call is a reset that is allowed, for the account in the window, or on the day.
  unfoldable pub admits_window : ℕ → ℕ → Use → Counters → Bool
  unfolding can_reset
  admits_window account w_start (records a tokens now) memory = false
  admits_window account w_start (resets a now) memory =
      a == account
      && window_start settings now == w_start
      && can_reset settings a (window_start settings now) now memory

  unfoldable pub admits_day : ℕ → ℕ → Use → Counters → Bool
  unfolding can_reset
  admits_day account day (records a tokens now) memory = false
  admits_day account day (resets a now) memory =
      a == account
      && settings.day_of now == day
      && can_reset settings a (window_start settings now) now memory

  -- Whether the call is a reset that `reset_window` carries out, that is, answers.
  abbrev answers : Option QuotaStatus → Bool
  answers none = false
  answers (some status) = true

  unfoldable pub resets_window : ℕ → ℕ → Use → Counters → Bool
  unfolding reset_window
  resets_window account w_start (records a tokens now) memory = false
  resets_window account w_start (resets a now) memory =
      a == account
      && window_start settings now == w_start
      && answers (reset_window settings a now memory).0

  unfoldable pub resets_day : ℕ → ℕ → Use → Counters → Bool
  unfolding reset_window
  resets_day account day (records a tokens now) memory = false
  resets_day account day (resets a now) memory =
      a == account && settings.day_of now == day && answers (reset_window settings a now memory).0

  abbrev pub times : (Use → Counters → Bool) → List Use → Counters → ℕ
  times test [] memory = 0
  times test (use' ∷ uses) memory =
      (if test use' memory then 1 else 0) + times test uses (perform use' memory)

  abbrev one_if : Bool → ℕ
  one_if b = if b then 1 else 0

  -- What is left to show of a key that such calls count, and of which there is room before each.
  times-bounded :
      (k : Key) (limit : ℕ) (test : Use → Counters → Bool)
      → ((u : Use) (memory : Counters)
          → get k (perform u memory) ≡ get k memory + one_if (test u memory))
      → ((u : Use) (memory : Counters) → test u memory ≡ true → get k memory < limit)
      → (uses : List Use) (memory : Counters) → get k memory ≤ limit
      → times test uses memory + get k memory ≤ limit
  times-bounded k limit test step room [] memory h = omega (arith, h)
  times-bounded k limit test step room (u ∷ uses) memory h =
      counted (test u memory) (step u memory) (room u memory)
        (times-bounded k limit test step room uses (perform u memory))
    where
      counted :
          (b : Bool)
          → get k (perform u memory) ≡ get k memory + one_if b
          → (b ≡ true → get k memory < limit)
          → (get k (perform u memory) ≤ limit
              → times test uses (perform u memory) + get k (perform u memory) ≤ limit)
          → one_if b + times test uses (perform u memory) + get k memory ≤ limit
      counted true e r later = let q = later (omega (arith, e, r refl)) in omega (arith, e, q)
      counted false e r later = let q = later (omega (arith, e, h)) in omega (arith, e, q)

  plus_if : (b : Bool) (n : ℕ) → (if b then n + 1 else n) ≡ n + one_if b
  plus_if true n = refl
  plus_if false n = omega arith

  -- A key that a reset counts if `b`, and that nothing else in it changes.
  reset-get :
      (k : Key) (b : Bool) (a now : ℕ) (memory : Counters)
      → get k (after_reset settings a (window_start settings now) now memory)
        ≡ get k memory + one_if b
      → get k (perform (resets a now) memory)
        ≡ get k memory + one_if (b && can_reset settings a (window_start settings now) now memory)
  unfolding perform reset_window
  reset-get k b a now memory e =
      allowed (can_reset settings a (window_start settings now) now memory)
    where
      after : Counters
      after = after_reset settings a (window_start settings now) now memory

      and_true : (x : Bool) → x ≡ (x && true)
      and_true true = refl
      and_true false = refl

      and_false : (x : Bool) (n : ℕ) → n ≡ n + one_if (x && false)
      and_false true n = omega arith
      and_false false n = omega arith

      ended : Bool → Option QuotaStatus × Counters
      ended c = if c then (some (get_status settings a none now after), after) else (none, memory)

      allowed : (c : Bool) → get k (ended c).1 ≡ get k memory + one_if (b && c)
      allowed true = e ∙ ap (λ x. get k memory + one_if x) (and_true b)
      allowed false = and_false b (get k memory)

  and_assoc : (x y z : Bool) → ((x && y) && z) ≡ (x && y && z)
  and_assoc true y z = refl
  and_assoc false y z = refl

  window_step :
      (account w_start : ℕ) (u : Use) (memory : Counters)
      → get (window_reset_key settings account w_start) (perform u memory)
        ≡ get (window_reset_key settings account w_start) memory
          + one_if (admits_window account w_start u memory)
  unfolding perform admits_window record_usage
  window_step account w_start (records a tokens now) memory =
      let k = window_reset_key settings account w_start in
      get-incr (window_key settings a (window_start settings now)) k tokens
        (incr (monthly_key settings a now) tokens memory)
      ∙ get-incr (monthly_key settings a now) k tokens memory
      ∙ plus_if false (get k memory)
  window_step account w_start (resets a now) memory =
      reset-get k (a == account && start == w_start) a now memory (
        get-set_zero (window_key settings a start) k (
          incr (daily_reset_key settings a now) 1
            (incr (window_reset_key settings a start) 1 memory))
        ∙ get-incr (daily_reset_key settings a now) k 1
            (incr (window_reset_key settings a start) 1 memory)
        ∙ get-incr (window_reset_key settings a start) k 1 memory
        ∙ plus_if (a == account && start == w_start) (get k memory))
      ∙ ap (λ x. get k memory + one_if x)
          (and_assoc (a == account) (start == w_start) (can_reset settings a start now memory))
    where
      start : ℕ
      start = window_start settings now

      k : Key
      k = window_reset_key settings account w_start

  day_step :
      (account day : ℕ) (u : Use) (memory : Counters)
      → get (key_of Counter.daily_resets account day) (perform u memory)
        ≡ get (key_of Counter.daily_resets account day) memory
          + one_if (admits_day account day u memory)
  unfolding perform admits_day record_usage
  day_step account day (records a tokens now) memory =
      let k = key_of Counter.daily_resets account day in
      get-incr (window_key settings a (window_start settings now)) k tokens
        (incr (monthly_key settings a now) tokens memory)
      ∙ get-incr (monthly_key settings a now) k tokens memory
      ∙ plus_if false (get k memory)
  day_step account day (resets a now) memory =
      reset-get k (a == account && settings.day_of now == day) a now memory (
        get-set_zero (window_key settings a start) k (
          incr (daily_reset_key settings a now) 1
            (incr (window_reset_key settings a start) 1 memory))
        ∙ get-incr (daily_reset_key settings a now) k 1
            (incr (window_reset_key settings a start) 1 memory)
        ∙ ap (λ n. if a == account && settings.day_of now == day then n + 1 else n)
            (get-incr (window_reset_key settings a start) k 1 memory)
        ∙ plus_if (a == account && settings.day_of now == day) (get k memory))
      ∙ ap (λ x. get k memory + one_if x)
          (and_assoc (a == account) (settings.day_of now == day)
            (can_reset settings a start now memory))
    where
      start : ℕ
      start = window_start settings now

      k : Key
      k = key_of Counter.daily_resets account day

  -- What the two tests of `can_reset` say.
  room :
      (m n d e : ℕ)
      → (if leb m n then false else if leb d e then false else true) ≡ true
      → (n < m) × (e < d)
  room m n d e h = (ground (arith, h), ground (arith, h))

  three : (x y z : Bool) → (x && y && z) ≡ true → (x ≡ true) × (y ≡ true) × (z ≡ true)
  three x y z h = ground (arith, h)

  window_room :
      (account w_start : ℕ) (u : Use) (memory : Counters)
      → admits_window account w_start u memory ≡ true
      → get (window_reset_key settings account w_start) memory < settings.window_max_resets
  unfolding admits_window can_reset
  window_room account w_start (records a tokens now) memory h = absurd (cc)
  window_room account w_start (resets a now) memory h =
      let start = window_start settings now in
      let (p, q, r) =
        three (a == account) (start == w_start) (can_reset settings a start now memory) h in
      subst (λ x. get (window_reset_key settings x w_start) memory < settings.window_max_resets)
        ((eqb_iff a account).0 p)
        (subst (λ x. get (window_reset_key settings a x) memory < settings.window_max_resets)
          ((eqb_iff start w_start).0 q)
          (room settings.window_max_resets (get (window_reset_key settings a start) memory)
            settings.daily_max_resets (get (daily_reset_key settings a now) memory) r).0)

  day_room :
      (account day : ℕ) (u : Use) (memory : Counters)
      → admits_day account day u memory ≡ true
      → get (key_of Counter.daily_resets account day) memory < settings.daily_max_resets
  unfolding admits_day can_reset
  day_room account day (records a tokens now) memory h = absurd (cc)
  day_room account day (resets a now) memory h =
      let start = window_start settings now in
      let (p, q, r) =
        three (a == account) (settings.day_of now == day) (can_reset settings a start now memory)
          h in
      subst (λ x. get (key_of Counter.daily_resets x day) memory < settings.daily_max_resets)
        ((eqb_iff a account).0 p)
        (subst (λ x. get (key_of Counter.daily_resets a x) memory < settings.daily_max_resets)
          ((eqb_iff (settings.day_of now) day).0 q)
          (room settings.window_max_resets (get (window_reset_key settings a start) memory)
            settings.daily_max_resets (get (daily_reset_key settings a now) memory) r).1)

  times-same :
      (test test' : Use → Counters → Bool)
      → ((u : Use) (memory : Counters) → test u memory ≡ test' u memory)
      → (uses : List Use) (memory : Counters) → times test uses memory ≡ times test' uses memory
  times-same test test' same [] memory = refl
  times-same test test' same (u ∷ uses) memory =
      ap (λ b. (if b then 1 else 0) + times test uses (perform u memory)) (same u memory)
      ∙ ap (λ n. (if test' u memory then 1 else 0) + n)
          (times-same test test' same uses (perform u memory))

  -- `reset_window` answers only where `can_reset` holds.
  answers-can_reset :
      (a now : ℕ) (memory : Counters)
      → answers (reset_window settings a now memory).0
        ≡ can_reset settings a (window_start settings now) now memory
  unfolding reset_window
  answers-can_reset a now memory =
      by_guard (can_reset settings a (window_start settings now) now memory)
    where
      after : Counters
      after = after_reset settings a (window_start settings now) now memory

      ended : Bool → Option QuotaStatus × Counters
      ended c = if c then (some (get_status settings a none now after), after) else (none, memory)

      by_guard : (c : Bool) → answers (ended c).0 ≡ c
      by_guard true = refl
      by_guard false = refl

  resets-admits_window :
      (account w_start : ℕ) (u : Use) (memory : Counters)
      → resets_window account w_start u memory ≡ admits_window account w_start u memory
  unfolding resets_window admits_window
  resets-admits_window account w_start (records a tokens now) memory = refl
  resets-admits_window account w_start (resets a now) memory =
      ap (λ b. a == account && window_start settings now == w_start && b)
        (answers-can_reset a now memory)

  resets-admits_day :
      (account day : ℕ) (u : Use) (memory : Counters)
      → resets_day account day u memory ≡ admits_day account day u memory
  unfolding resets_day admits_day
  resets-admits_day account day (records a tokens now) memory = refl
  resets-admits_day account day (resets a now) memory =
      ap (λ b. a == account && settings.day_of now == day && b) (answers-can_reset a now memory)

  -- In any uses of a new service that keeps its counters in the process, as it does without Redis:
  -- the resets of an account in one window that are carried out are at most
  -- `QUOTA_WINDOW_MAX_RESETS`, and those on one day at most `QUOTA_DAILY_MAX_RESETS`.
  pub resets-bounded :
      (uses : List Use) (account w_start day : ℕ)
      → (times (resets_window account w_start) uses [] ≤ settings.window_max_resets)
        × (times (resets_day account day) uses [] ≤ settings.daily_max_resets)
  unfolding get
  resets-bounded uses account w_start day =
      let w = window_reset_key settings account w_start in
      let d = key_of Counter.daily_resets account day in
      let p =
        times-bounded w settings.window_max_resets (admits_window account w_start)
          (window_step account w_start) (window_room account w_start) uses [] (omega arith) in
      let q =
        times-bounded d settings.daily_max_resets (admits_day account day) (day_step account day)
          (day_room account day) uses [] (omega arith) in
      let w' = times-same _ _ (resets-admits_window account w_start) uses [] in
      let d' = times-same _ _ (resets-admits_day account day) uses [] in
      (omega (arith, p, w'), omega (arith, q, d'))
