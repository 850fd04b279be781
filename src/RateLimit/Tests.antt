-- ===== src/RateLimit/Tests.antt =====
-- The limiter at concrete requests.
use swx.Prelude.{ℕ, ◌≤◌, ◌≡◌, refl, some, List, [], ◌∷◌, true, false, arith, none, ltb}
use swx.Prelude.Text.{Text, codes}
use swx.RateLimit.Limits.{get_limit, get_feature_from_path}
use swx.RateLimit.Service.{seconds, check_limit, normalise_window, fail_result}
use swx.RateLimit.Memory.{make_key, check_memory, is_allowed, reset}
use swx.RateLimit.Window.{live, after, window-bounded}

abbrev login : Text
login = make_key (codes "rl:") (codes "1.2.3.4") (codes "login")

-- Five requests within a minute, where two are allowed.
abbrev burst : List (Text × ℕ)
burst = (login, 1) ∷ (login, 1) ∷ (codes "rl:other", 0) ∷ (login, 5) ∷ (login, 50) ∷ []

window-bounded_example : live 60 157 ((after 2 60 100 burst [] (λ _. [])).1 login) ≤ 2
unfolding check_memory
window-bounded_example = window-bounded 2 60 burst 100 login 157 (omega arith)

-- The third one is told to wait until the first one leaves the window.
refused_third :
    (is_allowed 2 60 107
      (codes "rl:")
      (codes "1.2.3.4")
      (codes "login")
      ((login, 101 ∷ 102 ∷ []) ∷ [])).0
    ≡ some (record { is_allowed = false; remaining = 0; retry_after = 54 })
unfolding check_memory
refused_third = refl

-- After a reset, the next request is let in.
third_again :
    (is_allowed 2 60 107
      (codes "rl:")
      (codes "1.2.3.4")
      (codes "login")
      (reset (codes "rl:") (codes "1.2.3.4") (codes "login") ((login, 101 ∷ 102 ∷ []) ∷ []))).0
    ≡ some (record { is_allowed = true; remaining = 1; retry_after = 0 })
unfolding check_memory
third_again = refl

-- The table allows the free plan more than the paid ones.
free_above_pro :
    ltb
      (get_limit "pro" "api_requests" "read" "burst")
      (get_limit "free" "api_requests" "read" "burst")
    ≡ true
unfolding get_limit
free_above_pro = refl

-- What no plan has gets the limit of the free plan.
missing_limit : get_limit "gold" "billing" "read" "burst" ≡ 10000
unfolding get_limit
missing_limit = refl

feature_of_path : get_feature_from_path (codes "/api/billing/accounts") ≡ "billing"
unfolding get_feature_from_path
feature_of_path = refl

-- Without Redis a request is refused, for as long as the window is.
closed_without_redis :
    (check_limit {W = ℕ} false none "k" 5 (seconds 3600) 10 0).0
    ≡ some (record {
      allowed = false;
      limit = 5;
      remaining = 0;
      reset_at = 10;
      retry_after = some 3600;
    })
unfolding check_limit normalise_window fail_result
closed_without_redis = refl
