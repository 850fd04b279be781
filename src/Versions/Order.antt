-- ===== src/Versions/Order.antt =====
-- The latest version, of swx_core/utils/versioning.py.
use swx.Prelude.{
  Bool, true, false, not, ◌||◌, Option, none, some, List, [], ◌∷◌, ◌≡◌, refl, ap, subst, ◌∙◌, any,
  arith, nat_eq, ◌==◌, eqb_iff, beq_refl, if◌then◌else◌, Bool-cases, inl, inr,
}
use mathlib.Core.Option.{some-injective}
use swx.Prelude.Int.{ℤ, pos, ltb_ℤ}
use swx.Prelude.Text.{Text, text_eq}
use swx.Versions.Parse.{
  Version, lower_version, compared, parse_version, compare_versions, latest_from,
  get_latest_version, is_valid_version, check_version_compatibility,
}

ltb_irrefl : (a : ℤ) → ltb_ℤ a a ≡ false
ltb_irrefl a = ground arith

lower_irrefl : (x : Version) → lower_version x x ≡ false
lower_irrefl (a, b) = rw (ltb_irrefl a, ltb_irrefl b) refl

-- What is not below `y`, which is not below `z`, is not below `z`.
lower_trans :
    (x y z : Version)
    → lower_version x y ≡ false
    → lower_version y z ≡ false
    → lower_version x z ≡ false
lower_trans (a, b) (c, d) (e, f) h k = ground (arith, h, k)

lower_asym : (x y : Version) → lower_version x y ≡ true → lower_version y x ≡ false
lower_asym (a, b) (c, d) h = ground (arith, h)

compared-lower : (x y : Version) → ltb_ℤ (compared x y) (pos 0) ≡ lower_version x y
compared-lower (a, b) (c, d) = ground arith

none_holds :
    (test : Text → Bool) (v : Text) (versions : List Text)
    → any test versions ≡ false
    → is_valid_version v versions ≡ true
    → test v ≡ false
unfolding is_valid_version
none_holds test v [] h k = absurd (cc)
none_holds test v (w ∷ versions) h k = elim (Bool-cases (w == v)) [
  | inl e ↦ subst (λ x. test x ≡ false) ((eqb_iff w v).0 e) (ground (arith, h))
  | inr e ↦ none_holds test v versions (ground (arith, h)) (rw e at k)
]

module _ (int : Text → Option ℤ) (lower : Text → Text) where
  abbrev parse : Text → Version
  parse v = parse_version int lower v

  abbrev best_of : Text → Text → Text
  best_of best v = if lower_version (parse best) (parse v) then v else best

  best_of-left : (best v : Text) → lower_version (parse (best_of best v)) (parse best) ≡ false
  best_of-left best v = by_test (lower_version (parse best) (parse v)) refl
    where
      by_test :
          (b : Bool)
          → lower_version (parse best) (parse v) ≡ b
          → lower_version (parse (if b then v else best)) (parse best) ≡ false
      by_test true e = lower_asym (parse best) (parse v) e
      by_test false e = lower_irrefl (parse best)

  best_of-right : (best v : Text) → lower_version (parse (best_of best v)) (parse v) ≡ false
  best_of-right best v = by_test (lower_version (parse best) (parse v)) refl
    where
      by_test :
          (b : Bool)
          → lower_version (parse best) (parse v) ≡ b
          → lower_version (parse (if b then v else best)) (parse v) ≡ false
      by_test true e = lower_irrefl (parse v)
      by_test false e = e

  latest_from-best :
      (best : Text) (versions : List Text)
      → lower_version (parse (latest_from int lower best versions)) (parse best) ≡ false
  latest_from-best best [] = lower_irrefl (parse best)
  latest_from-best best (v ∷ versions) =
      lower_trans (parse (latest_from int lower (best_of best v) versions)) (parse (best_of best v))
        (parse best) (latest_from-best (best_of best v) versions) (best_of-left best v)

  latest_from-rest :
      (best : Text) (versions : List Text)
      → any (λ v. lower_version (parse (latest_from int lower best versions)) (parse v)) versions
        ≡ false
  latest_from-rest best [] = refl
  latest_from-rest best (v ∷ versions) =
      neither
        (lower_trans (parse (latest_from int lower (best_of best v) versions))
          (parse (best_of best v)) (parse v) (latest_from-best (best_of best v) versions)
          (best_of-right best v))
        (latest_from-rest (best_of best v) versions)
    where
      neither : {a b : Bool} → a ≡ false → b ≡ false → (a || b) ≡ false
      neither h k = ground (arith, h, k)

  latest_from-valid :
      (best : Text) (versions : List Text)
      → is_valid_version (latest_from int lower best versions) (best ∷ versions) ≡ true
  unfolding is_valid_version
  latest_from-valid best [] = rw (beq_refl best) refl
  latest_from-valid best (v ∷ versions) =
      one_of (lower_version (parse best) (parse v)) (λ b. latest_from-valid b versions)
    where
      one_of :
          (b : Bool)
          → ((w : Text) → is_valid_version (latest_from int lower w versions) (w ∷ versions) ≡ true)
          → is_valid_version
              (latest_from int lower (if b then v else best) versions)
              (best ∷ v ∷ versions)
            ≡ true
      one_of true later = ground (arith, later v)
      one_of false later = ground (arith, later best)

  -- `get_latest_version` answers one of the versions, which is compatible with each of them as a
  -- minimum.
  pub get_latest_version-compatible :
      (versions : List Text) (latest v : Text)
      → get_latest_version int lower versions ≡ some latest
      → is_valid_version v versions ≡ true
      → (is_valid_version latest versions ≡ true)
        × (check_version_compatibility int lower latest v ≡ true)
  unfolding get_latest_version check_version_compatibility compare_versions is_valid_version
  get_latest_version-compatible [] latest v e h = absurd (let n : none ≡ some latest = e in cc)
  get_latest_version-compatible (w ∷ versions) latest v e h =
      subst
        (λ x.
          (is_valid_version x (w ∷ versions) ≡ true)
          × (check_version_compatibility int lower x v ≡ true))
        (some-injective _ _ e)
        (
          latest_from-valid w versions,
          ap not (
              compared-lower (parse newest) (parse v)
              ∙ none_holds (λ x. lower_version (parse newest) (parse x)) v (w ∷ versions)
                  (all_below (latest_from-best w versions) (latest_from-rest w versions)) h),
        )
    where
      newest : Text
      newest = latest_from int lower w versions

      all_below : {a b : Bool} → a ≡ false → b ≡ false → (a || b) ≡ false
      all_below p q = ground (arith, p, q)
