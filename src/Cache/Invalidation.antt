-- ===== src/Cache/Invalidation.antt =====
-- What the entries of an `AuthCache` answer after writes and invalidations.
use swx.Prelude.{
  ℕ, ◌+◌, ◌≤◌, ◌≡◌, ◌≢◌, refl, sym, ap, ◌∙◌, true, false, Option, none, some, List, [], ◌∷◌, ◌++◌,
  arith, ltb, nat_eq, ◌==◌, beq_ne, beq_refl, eqb_iff, if◌then◌else◌, Bool-cases, Option-cases, inl,
  inr, subst,
}
use swx.Prelude.Dict.{lookup, erase, lookup-insert, lookup-erase}
use swx.Prelude.Text.{Text, text_eq, codes, starts_with, starts_with-append}
use mathlib.Core.Option.{some-injective}
use swx.Cache.L1.{L1Cache, get, set, delete, delete_by_prefix, room_for}
use swx.Cache.Coherence.{lookup-without_prefix}
use swx.Cache.Auth.{
  Value, profile, Redis, Settings, AuthCache, colon, build_prefix, build_key, with_l1, with_redis,
  setex_value, fetch, put, drop_key, drop_prefix, deleted_keys, safe, get_profile, set_profile,
  get_permissions, invalidate_profile_by_prefix, invalidate_user_cache, invalidate_all_permissions,
  delete_found,
}

starts_with-cancel : (p a b : Text) → starts_with (p ++ a) (p ++ b) ≡ starts_with a b
starts_with-cancel [] a b = refl
starts_with-cancel (c ∷ p) a b = rw (beq_refl c) (starts_with-cancel p a b)

starts_with-common :
    (p a t b : Text) → starts_with ((p ++ a) ++ t) (p ++ b) ≡ starts_with (a ++ t) b
starts_with-common [] a t b = refl
starts_with-common (c ∷ p) a t b = rw (beq_refl c) (starts_with-common p a t b)

set-get :
    {V : Type 0} (now now' ttl : ℕ) (key : Text) (value : V) (c c' : L1Cache V)
    → set now key value ttl c ≡ some c'
    → now' ≤ now + ttl
    → get now' key c' ≡ (some value, c')
unfolding set get
set-get now now' ttl key value c c' h late = elim (Option-cases (room_for key c)) [
  | inl r ↦ absurd (cc (rw (r, set) at h))
  | inr (s, r) ↦
      let fresh : ltb (now + ttl) now' ≡ false = ground arith in
      subst (λ c'. get now' key c' ≡ (some value, c')) (some-injective _ _ (rw (r, set) at h))
        (rw (lookup-insert key key (value, now + ttl) s, beq_refl key, fresh, get) refl)
]

module _ {S J : Type 0} (R : Redis S J) where
  l1-with_redis : (c : AuthCache S J) (o : Option S) → (with_redis R c o).l1 ≡ c.l1
  l1-with_redis c none = refl
  l1-with_redis c (some s) = refl

  l1-deleted_keys : (ks : List Text) (c : AuthCache S J) → (deleted_keys R ks c).l1 ≡ c.l1
  l1-deleted_keys ks c = elim (Option-cases c.redis) [
    | inl e ↦ rw e refl
    | inr (s, e) ↦ rw e (l1-with_redis (record c { redis = some s }) (R.delete_keys ks s))
  ]

  l1-delete_found : (c : AuthCache S J) (o : Option (List Text)) → (delete_found R c o).l1 ≡ c.l1
  l1-delete_found c none = refl
  l1-delete_found c (some []) = refl
  l1-delete_found c (some (k ∷ ks)) = l1-deleted_keys (k ∷ ks) c

  l1-drop_prefix :
      (prefix : Text) (c : AuthCache S J)
      → (drop_prefix R prefix c).l1 ≡ delete_by_prefix prefix c.l1
  unfolding drop_prefix
  l1-drop_prefix prefix c = elim (Option-cases c.redis) [
    | inl e ↦ rw (e, drop_prefix) refl
    | inr (s, e) ↦
        rw (e, drop_prefix)
          (l1-delete_found (with_l1 R c (delete_by_prefix prefix c.l1)) (R.keys_with prefix s))
  ]

  setex_value-parts :
      (key : Text) (ttl : ℕ) (value : Value J) (c : AuthCache S J)
      → ((setex_value R key ttl value c).l1 ≡ c.l1)
        × ((setex_value R key ttl value c).scope ≡ c.scope)
        × ((setex_value R key ttl value c).ttl ≡ c.ttl)
  setex_value-parts key ttl value c = elim (Option-cases c.redis) [
    | inl e ↦ rw e (refl, refl, refl)
    | inr (s, e) ↦ rw e (stored (record c { redis = some s }) (R.setex key ttl value s))
  ]
    where
      stored :
          (c : AuthCache S J) (o : Option S)
          → ((with_redis R c o).l1 ≡ c.l1)
            × ((with_redis R c o).scope ≡ c.scope)
            × ((with_redis R c o).ttl ≡ c.ttl)
      stored c none = (refl, refl, refl)
      stored c (some s) = (refl, refl, refl)

  put-parts :
      (now ttl : ℕ) (key : Text) (value : Value J) (c c' : AuthCache S J)
      → put R now key ttl value c ≡ some c'
      → (set now key value ttl c.l1 ≡ some c'.l1) × (c'.scope ≡ c.scope) × (c'.ttl ≡ c.ttl)
  unfolding put
  put-parts now ttl key value c c' h = elim (Option-cases (set now key value ttl c.l1)) [
    | inl e ↦ absurd (cc (rw (e, put) at h))
    | inr (l1, e) ↦
        let q : setex_value R key ttl value (with_l1 R c l1) ≡ c' =
          some-injective _ _ (rw (e, put) at h) in
        let (p, s, t) = setex_value-parts key ttl value (with_l1 R c l1) in
        (
          e ∙ ap some (sym p ∙ ap (λ x. x.l1) q),
          sym (ap (λ x. x.scope) q) ∙ s,
          sym (ap (λ x. x.ttl) q) ∙ t,
        )
  ]

  put-fetch :
      (now now' ttl ttl' : ℕ) (key : Text) (value : Value J) (c c' : AuthCache S J)
      → put R now key ttl value c ≡ some c'
      → now' ≤ now + ttl
      → (fetch R now' key ttl' c').0 ≡ some value
  unfolding fetch
  put-fetch now now' ttl ttl' key value c c' h late =
      let (p, _, _) = put-parts now ttl key value c c' h in
      rw (set-get now now' ttl key value c.l1 c'.l1 p late, fetch) refl

  fetch-missing :
      (now ttl : ℕ) (key : Text) (c : AuthCache S J)
      → c.redis ≡ none
      → lookup key c.l1.store ≡ none
      → (fetch R now key ttl c).0 ≡ none
  unfolding fetch get
  fetch-missing now ttl key c e l = rw (l, get, fetch, e) refl

  lookup-gone :
      {V : Type 0} (k j : Text) (s : List (Text × V))
      → lookup k s ≡ none
      → lookup k (erase j s) ≡ none
  lookup-gone k j s h = lookup-erase k j s ∙ ground (arith, h)

  lookup-erased : {V : Type 0} (k : Text) (s : List (Text × V)) → lookup k (erase k s) ≡ none
  lookup-erased k s = lookup-erase k k s ∙ rw (beq_refl k) refl

  module _ (settings : Settings) where
    -- Invalidating the profiles by a prefix leaves every profile in the first level whose identifier
    -- goes on after the prefix with anything but a colon.
    pub invalidate_profile_by_prefix-misses :
        (prefix rest : Text) (d : ℕ) (c : AuthCache S J)
        → d ≢ 58
        → lookup
            (build_key settings c.scope (codes "profile") (prefix ++ d ∷ rest))
            (invalidate_profile_by_prefix R settings prefix c).l1.store
          ≡ lookup (build_key settings c.scope (codes "profile") (prefix ++ d ∷ rest)) c.l1.store
    unfolding delete_by_prefix
    invalidate_profile_by_prefix-misses prefix rest d c other =
        let key = build_key settings c.scope (codes "profile") (prefix ++ d ∷ rest) in
        let full = build_key settings c.scope (codes "profile") prefix in
        let missed : starts_with key full ≡ false =
          starts_with-cancel (build_prefix settings c.scope (codes "profile"))
            ((prefix ++ d ∷ rest) ++ (colon ++ codes "v1")) (prefix ++ (colon ++ codes "v1"))
          ∙ starts_with-common prefix (d ∷ rest) (colon ++ codes "v1") (colon ++ codes "v1")
          ∙ rw (beq_ne d 58 other) refl in
        ap (λ l1. lookup key l1.store) (l1-drop_prefix full c)
        ∙ lookup-without_prefix full key c.l1.store
        ∙ rw missed refl

    -- A `get_profile` that follows a `set_profile` that did not raise, with no other call of the
    -- cache between and within the time to live, answers a dict that has no hashed password and
    -- under every other key what the user dict has, whatever Redis does.
    pub set_profile-get_profile :
        (now now' : ℕ) (identifier : Text) (user : List (Text × J)) (c c' : AuthCache S J)
        → set_profile R settings now identifier user c ≡ some c'
        → now' ≤ now + c.ttl
        → (answer : List (Text × J)) × ((get_profile R settings now' identifier c').0
            ≡ some (profile answer))
          × ((k : Text)
              → lookup k answer ≡ (if k == codes "hashed_password" then none else lookup k user))
    set_profile-get_profile now now' identifier user c c' h late =
        let key = build_key settings c.scope (codes "profile") identifier in
        let (_, same, _) = put-parts now c.ttl key (profile (safe R user)) c c' h in
        (
          safe R user,
          ap
                (λ scope.
                  (fetch R now' (build_key settings scope (codes "profile") identifier) c'.ttl
                    c').0)
                same
              ∙ put-fetch now now' c.ttl c'.ttl key (profile (safe R user)) c c' h late,
          lookup-safe user,
        )
      where
        lookup-safe :
            (user : List (Text × J)) (k : Text)
            → lookup k (safe R user)
              ≡ (if k == codes "hashed_password" then none else lookup k user)
        lookup-safe [] k = elim (Bool-cases (k == codes "hashed_password")) [
          | inl e ↦ rw e refl
          | inr e ↦ rw e refl
        ]
        lookup-safe ((j, v) ∷ user) k = elim (Bool-cases (j == codes "hashed_password")) [
          | inl e ↦ rw e (
              ground (
                arith,
                lookup-safe user k,
                e,
                eqb_iff j (codes "hashed_password"),
                eqb_iff j k,
                eqb_iff k (codes "hashed_password"),
              ))
          | inr e ↦ rw e (
              ground (
                arith,
                lookup-safe user k,
                e,
                eqb_iff j (codes "hashed_password"),
                eqb_iff j k,
                eqb_iff k (codes "hashed_password"),
              ))
        ]

    -- Without Redis, no list of permissions of any user is found in the users' cache after all
    -- have been invalidated.
    pub invalidate_all_permissions-forgets :
        (now : ℕ) (user_id : Text) (c : AuthCache S J)
        → c.redis ≡ none
        → c.scope ≡ codes "user"
        → (get_permissions R settings now user_id (invalidate_all_permissions R settings c)).0
          ≡ none
    unfolding drop_prefix delete_by_prefix
    invalidate_all_permissions-forgets now user_id c e u =
        subst (λ scope. Forgotten (record c { scope = scope })) (sym u)
          (subst (λ o. Forgotten (record c { redis = o; scope = codes "user" })) (sym e)
            (fetch-missing now settings.permissions_ttl key _ refl
              (lookup-without_prefix prefix key c.l1.store ∙ rw covered refl)))
      where
        Forgotten : AuthCache S J → Type 0
        Forgotten c =
            (get_permissions R settings now user_id (invalidate_all_permissions R settings c)).0
            ≡ none

        prefix : Text
        prefix = build_prefix settings (codes "user") (codes "permissions")

        key : Text
        key = build_key settings (codes "user") (codes "permissions") user_id

        covered : starts_with key prefix ≡ true
        covered = starts_with-append prefix (user_id ++ (colon ++ codes "v1"))

    -- Without Redis, neither profile of a user nor the permissions are found after `invalidate_user_cache`.
    pub invalidate_user_cache-forgets :
        (now : ℕ) (uid email : Text) (c : AuthCache S J)
        → c.redis ≡ none
        → ((get_profile R settings now uid (invalidate_user_cache R settings uid email c)).0 ≡ none)
          × ((get_profile R settings now email (invalidate_user_cache R settings uid email c)).0
              ≡ none)
          × ((get_permissions R settings now uid (invalidate_user_cache R settings uid email c)).0
              ≡ none)
    unfolding delete drop_key
    invalidate_user_cache-forgets now uid email c e =
        subst (λ o. Forgotten (record c { redis = o })) (sym e)
          (
            fetch-missing now c.ttl profile_key _ refl (
                lookup-gone profile_key permissions_key _
                  (lookup-gone profile_key email_key _ (lookup-erased profile_key c.l1.store))),
            fetch-missing now c.ttl email_key _ refl
                (lookup-gone email_key permissions_key _ (lookup-erased email_key _)),
            fetch-missing now settings.permissions_ttl permissions_key _ refl
                (lookup-erased permissions_key _),
          )
      where
        Forgotten : AuthCache S J → Type 0
        Forgotten c =
            ((get_profile R settings now uid (invalidate_user_cache R settings uid email c)).0
              ≡ none)
            × ((get_profile R settings now email (invalidate_user_cache R settings uid email c)).0
                ≡ none)
            × ((get_permissions R settings now uid (invalidate_user_cache R settings uid email c)).0
                ≡ none)

        profile_key : Text
        profile_key = build_key settings c.scope (codes "profile") uid

        email_key : Text
        email_key = build_key settings c.scope (codes "profile") email

        permissions_key : Text
        permissions_key = build_key settings c.scope (codes "permissions") uid
