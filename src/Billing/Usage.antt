-- ===== src/Billing/Usage.antt =====
-- `UsageWindowService` of swx_core/services/billing/usage_window_service.py without Redis, and
-- `calculate_cost_nano` of usage_metering_service.py. Times are whole seconds.
use swx.Prelude.{
  ℕ, ◌+◌, ◌-◌, ◌*◌, ◌/◌, ◌≡◌, ◌↔◌, refl, subst, arith, ◌&&◌, eqb_iff, beq_refl, Bool, true, false,
  Option, none, some, List, String, string_eq, Hashable, nat_eq, ◌==◌, leb, if◌then◌else◌,
}
use swx.Prelude.Dict.{lookup, insert}

-- The settings, of which `window_hours` is positive, and the month and the day of a time.
pub record Settings : Type 0 where
  pub window_hours : ℕ
  pub monthly_tokens : ℕ
  pub window_tokens : ℕ
  pub window_max_resets : ℕ
  pub daily_max_resets : ℕ
  pub month_of : ℕ → ℕ
  pub day_of : ℕ → ℕ
  pub pricing : List (String × (ℕ × ℕ))
  pub default_model : String

pub data Counter : Type 0 where
  monthly : Counter
  window : Counter
  window_resets : Counter
  daily_resets : Counter

-- A key of `_memory`: what it counts, the account, and the month, window or day.
pub record Key : Type 0 where
  pub counter : Counter
  pub account_id : ℕ
  pub stamp : ℕ

abbrev pub counter_beq : Counter → Counter → Bool
counter_beq monthly monthly = true
counter_beq window window = true
counter_beq window_resets window_resets = true
counter_beq daily_resets daily_resets = true
counter_beq _ _ = false

abbrev pub key_beq : Key → Key → Bool
key_beq j k = counter_beq j.counter k.counter && j.account_id == k.account_id && j.stamp == k.stamp

counter_iff : (a b : Counter) → (counter_beq a b ≡ true) ↔ (a ≡ b)
counter_iff a b = ground arith

all_three : (a b c : Bool) → (a && b && c) ≡ true → (a ≡ true) × (b ≡ true) × (c ≡ true)
all_three a b c h = ground (arith, h)

pub key_iff : (j k : Key) → (key_beq j k ≡ true) ↔ (j ≡ k)
key_iff j k = (
  (λ h.
      let (a, b, c) =
        all_three (counter_beq j.counter k.counter) (j.account_id == k.account_id)
          (j.stamp == k.stamp) h in
      λ i. record {
        counter = (counter_iff j.counter k.counter).0 a i;
        account_id = (eqb_iff j.account_id k.account_id).0 b i;
        stamp = (eqb_iff j.stamp k.stamp).0 c i;
      }),
  (λ e.
      subst (λ x. key_beq j x ≡ true) e
        (rw ((counter_iff j.counter j.counter).1 refl, beq_refl j.account_id, beq_refl j.stamp)
          refl)),
)

instance abbrev pub key_eq : Hashable Key
key_eq = record { equals = key_beq; decides = key_iff }

abbrev pub key_of : Counter → ℕ → ℕ → Key
key_of counter account stamp = record { counter = counter; account_id = account; stamp = stamp }

-- `_memory`
abbrev pub Counters : Type 0
Counters = List (Key × ℕ)

abbrev pub or_zero : Option ℕ → ℕ
or_zero none = 0
or_zero (some n) = n

-- `_get`, `_incr` and `_set_zero`
unfoldable pub get : Key → Counters → ℕ
get key memory = or_zero (lookup key memory)

unfoldable pub incr : Key → ℕ → Counters → Counters
unfolding get
incr key amount memory = insert key (get key memory + amount) memory

unfoldable pub set_zero : Key → Counters → Counters
set_zero key memory = insert key 0 memory

pub record QuotaStatus : Type 0 where
  pub monthly_quota : ℕ
  pub monthly_used : ℕ
  pub monthly_remaining : ℕ
  pub window_quota : ℕ
  pub window_used : ℕ
  pub window_remaining : ℕ
  pub window_resets_at : ℕ
  pub window_resets_available : Bool

-- What `record_and_charge` comes to: the cost, or the quota that is exceeded.
pub data Charged : Type 0 where
  cost : ℕ → Charged
  usage_window : Charged
  monthly_quota : Charged

module _ (settings : Settings) where
  abbrev pub window_seconds : ℕ
  window_seconds = settings.window_hours * 3600

  abbrev pub window_start : ℕ → ℕ
  window_start now = now / window_seconds * window_seconds

  abbrev pub window_end_ts : ℕ → ℕ
  window_end_ts w_start = w_start + window_seconds

  abbrev pub monthly_key : ℕ → ℕ → Key
  monthly_key account now = key_of monthly account (settings.month_of now)

  abbrev pub window_key : ℕ → ℕ → Key
  window_key account w_start = key_of window account w_start

  abbrev pub window_reset_key : ℕ → ℕ → Key
  window_reset_key account w_start = key_of window_resets account w_start

  abbrev pub daily_reset_key : ℕ → ℕ → Key
  daily_reset_key account now = key_of daily_resets account (settings.day_of now)

  -- `_can_reset`
  unfoldable pub can_reset : ℕ → ℕ → ℕ → Counters → Bool
  unfolding get
  can_reset account w_start now memory =
      if leb settings.window_max_resets (get (window_reset_key account w_start) memory)
      then false
      else if leb settings.daily_max_resets (get (daily_reset_key account now) memory)
      then false
      else true

  unfoldable pub get_status : ℕ → Option ℕ → ℕ → Counters → QuotaStatus
  unfolding get can_reset
  get_status account monthly_limit now memory =
      let quota : ℕ = elim monthly_limit [ none ↦ settings.monthly_tokens | some q ↦ q ] in
      let w_start = window_start now in
      let monthly_used = get (monthly_key account now) memory in
      let window_used = get (window_key account w_start) memory in
      record {
        monthly_quota = quota;
        monthly_used = monthly_used;
        monthly_remaining = quota - monthly_used;
        window_quota = settings.window_tokens;
        window_used = window_used;
        window_remaining = settings.window_tokens - window_used;
        window_resets_at = window_end_ts w_start;
        window_resets_available = can_reset account w_start now memory;
      }

  unfoldable pub record_usage : ℕ → ℕ → ℕ → Counters → Counters
  unfolding incr
  record_usage account tokens now memory =
      incr (window_key account (window_start now)) tokens
        (incr (monthly_key account now) tokens memory)

  -- The counters after a reset that is allowed.
  abbrev pub after_reset : ℕ → ℕ → ℕ → Counters → Counters
  after_reset account w_start now memory =
      set_zero (window_key account w_start)
        (incr (daily_reset_key account now) 1 (incr (window_reset_key account w_start) 1 memory))

  -- `reset_window`, with `none` for `QuotaExceededError`.
  unfoldable pub reset_window : ℕ → ℕ → Counters → Option QuotaStatus × Counters
  unfolding can_reset get_status incr set_zero
  reset_window account now memory =
      let w_start = window_start now in
      if can_reset account w_start now memory
      then (
        some (get_status account none now (after_reset account w_start now memory)),
        after_reset account w_start now memory,
      )
      else (none, memory)

  abbrev pub price_or : Option (ℕ × ℕ) → Option (ℕ × ℕ) → ℕ × ℕ
  price_or (some p) fallback = p
  price_or none (some p) = p
  price_or none none = (0, 0)

  unfoldable pub calculate_cost_nano : ℕ → ℕ → String → ℕ
  calculate_cost_nano input_tokens output_tokens model_key =
      let p =
        price_or (lookup model_key settings.pricing)
          (lookup settings.default_model settings.pricing) in
      input_tokens * p.0 + output_tokens * p.1

  -- `record_and_charge` up to the debit of the wallet.
  unfoldable pub record_and_charge : ℕ → String → ℕ → ℕ → ℕ → Counters → Charged × Counters
  unfolding record_usage get_status calculate_cost_nano
  record_and_charge account model_key input_tokens output_tokens now memory =
      let memory' = record_usage account (input_tokens + output_tokens) now memory in
      let status = get_status account none now memory' in
      (
        if leb status.window_remaining 0
            then usage_window
            else if leb status.monthly_remaining 0
            then monthly_quota
            else cost (calculate_cost_nano input_tokens output_tokens model_key),
        memory',
      )
