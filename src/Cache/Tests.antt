-- ===== src/Cache/Tests.antt =====
-- The caches at concrete calls, with Redis as a dict that never expires an entry.
use swx.Prelude.{
  ℕ, ◌≡◌, if◌then◌else◌, ◌≤◌, refl, Option, none, some, List, [], ◌∷◌, map, filter, length, arith,
  ◌==◌,
}
use swx.Prelude.Dict.{lookup, insert, erase}
use swx.Prelude.Text.{Text, text_eq, codes, starts_with}
use swx.Cache.L1.{
  get, set, delete, delete_by_prefix, Call, gets, sets, deletes, deletes_prefix, run,
}
use swx.Cache.Coherence.{new_cache, run-bounded, remembered, get-run}
use swx.Cache.Auth.{
  Value, profile, Redis, Settings, AuthCache, build_key, put, get_profile, set_profile,
  get_permissions, invalidate_profile_by_prefix, invalidate_user_cache, invalidate_all_permissions,
}
use swx.Cache.Invalidation.{
  invalidate_profile_by_prefix-misses, set_profile-get_profile, invalidate_all_permissions-forgets,
  invalidate_user_cache-forgets,
}

abbrev calls : List (Call ℕ)
calls =
    sets 0 (codes "a") 1 10
    ∷ sets 1 (codes "b") 2 10
    ∷ gets 2 (codes "a")
    ∷ sets 3 (codes "c") 3 10
    ∷ deletes (codes "b")
    ∷ deletes_prefix (codes "d")
    ∷ []

run-bounded_example : length (run calls (new_cache 2)).store ≤ 2
run-bounded_example = run-bounded calls (new_cache 2) (omega arith)

get-run_example :
    (expires_at : ℕ) × (remembered calls (λ _. none) (codes "c") ≡ some (3, expires_at))
    × (5 ≤ expires_at)
unfolding get set delete delete_by_prefix
get-run_example = get-run calls 2 5 (codes "c") 3 refl

-- The oldest entry had to go.
evicted_a : (get 5 (codes "a") (run calls (new_cache 2))).0 ≡ none
unfolding get set delete delete_by_prefix
evicted_a = refl

abbrev without_keys : List Text → List (Text × Value ℕ) → List (Text × Value ℕ)
without_keys [] s = s
without_keys (k ∷ ks) s = without_keys ks (erase k s)

abbrev dict_redis : Redis (List (Text × Value ℕ)) ℕ
dict_redis = record {
  get_value = λ key s. some (lookup key s);
  setex = λ key ttl value s. some (insert key value s);
  delete_keys = λ ks s. some (without_keys ks s);
  keys_with = λ prefix s. some (filter (λ k. starts_with k prefix) (map (λ x. x.0) s));
}

abbrev settings : Settings
settings = record {
  environment = codes "local";
  app = codes "swx";
  permissions_ttl = 60;
  user_ttl = 300;
}

abbrev users : Option (List (Text × Value ℕ)) → AuthCache (List (Text × Value ℕ)) ℕ
users redis = record { scope = codes "user"; ttl = 300; l1 = new_cache 10; redis = redis }

abbrev ada : List (Text × ℕ)
ada = (codes "id", 1) ∷ (codes "hashed_password", 2) ∷ []

-- What `put` leaves of this cache.
abbrev or_users : Option (AuthCache (List (Text × Value ℕ)) ℕ) → AuthCache (List (Text × Value ℕ)) ℕ
or_users none = users none
or_users (some c) = c

abbrev with_ada : Option (List (Text × Value ℕ)) → AuthCache (List (Text × Value ℕ)) ℕ
with_ada redis = or_users (set_profile dict_redis settings 0 (codes "ada") ada (users redis))

set_profile-get_profile_example :
    (answer : List (Text × ℕ)) × ((get_profile dict_redis settings 200
        (codes "ada")
        (with_ada (some []))).0
      ≡ some (profile answer))
    × ((k : Text) → lookup k answer ≡ (if k == codes "hashed_password" then none else lookup k ada))
unfolding put set
set_profile-get_profile_example =
    set_profile-get_profile dict_redis settings 0 200 (codes "ada") ada (users (some []))
      (with_ada (some [])) refl (omega arith)

invalidate_profile_by_prefix-misses_example :
    lookup
      (build_key settings (codes "user") (codes "profile") (codes "ada"))
      (invalidate_profile_by_prefix dict_redis settings (codes "ad") (with_ada (some []))).l1.store
    ≡ lookup
        (build_key settings (codes "user") (codes "profile") (codes "ada"))
        (with_ada (some [])).l1.store
unfolding put set
invalidate_profile_by_prefix-misses_example =
    invalidate_profile_by_prefix-misses dict_redis settings (codes "ad") [] 97 (with_ada (some []))
      (λ e. cc)

invalidate_all_permissions-forgets_example :
    (get_permissions dict_redis settings 1
      (codes "1")
      (invalidate_all_permissions dict_redis settings (with_ada none))).0
    ≡ none
unfolding put set
invalidate_all_permissions-forgets_example =
    invalidate_all_permissions-forgets dict_redis settings 1 (codes "1") (with_ada none) refl refl

invalidate_user_cache-forgets_example :
    ((get_profile dict_redis settings 1
        (codes "1")
        (invalidate_user_cache dict_redis settings (codes "1") (codes "ada") (with_ada none))).0
      ≡ none)
    × ((get_profile dict_redis settings 1
          (codes "ada")
          (invalidate_user_cache dict_redis settings (codes "1") (codes "ada") (with_ada none))).0
        ≡ none)
    × ((get_permissions dict_redis settings 1
          (codes "1")
          (invalidate_user_cache dict_redis settings (codes "1") (codes "ada") (with_ada none))).0
        ≡ none)
unfolding put set
invalidate_user_cache-forgets_example =
    invalidate_user_cache-forgets dict_redis settings 1 (codes "1") (codes "ada") (with_ada none)
      refl
