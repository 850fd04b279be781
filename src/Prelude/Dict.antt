-- ===== src/Prelude/Dict.antt =====
-- A Python dict: unique keys in insertion order. Writing an old key keeps its place.
use swx.Prelude.{
  suc, ◌≤◌, ◌≡◌, refl, Bool, true, false, Option, none, some, List, [], ◌∷◌, arith, Hashable, ◌==◌,
  eqb_iff, if◌then◌else◌, length,
}

module _ {ℓ κ} {K : Type ℓ} {V : Type κ} ⦃keys : Hashable K⦄ where
  -- `d.get(k)`
  abbrev pub lookup : K → List (K × V) → Option V
  lookup k [] = none
  lookup k ((j, v) ∷ d) = if j == k then some v else lookup k d

  -- `k in d`
  abbrev pub contains : K → List (K × V) → Bool
  contains k [] = false
  contains k ((j, v) ∷ d) = if j == k then true else contains k d

  -- `d[k] = v`
  abbrev pub insert : K → V → List (K × V) → List (K × V)
  insert k v [] = (k, v) ∷ []
  insert k v ((j, w) ∷ d) = if j == k then (j, v) ∷ d else (j, w) ∷ insert k v d

  -- `d.pop(k, None)`
  abbrev pub erase : K → List (K × V) → List (K × V)
  erase k [] = []
  erase k ((j, w) ∷ d) = if j == k then erase k d else (j, w) ∷ erase k d

  pub contains-lookup :
      (k : K) (d : List (K × V)) → contains k d ≡ elim (lookup k d) [ none ↦ false | some _ ↦ true ]
  contains-lookup k [] = refl
  contains-lookup k ((j, w) ∷ d) = ground (arith, contains-lookup k d)

  pub lookup-insert :
      (j k : K) (v : V) (d : List (K × V))
      → lookup j (insert k v d) ≡ (if k == j then some v else lookup j d)
  lookup-insert j k v [] = refl
  lookup-insert j k v ((i, w) ∷ d) =
      ground (arith, lookup-insert j k v d, eqb_iff i k, eqb_iff i j, eqb_iff k j)

  pub lookup-erase :
      (j k : K) (d : List (K × V)) → lookup j (erase k d) ≡ (if k == j then none else lookup j d)
  lookup-erase j k [] = ground arith
  lookup-erase j k ((i, w) ∷ d) =
      ground (arith, lookup-erase j k d, eqb_iff i k, eqb_iff i j, eqb_iff k j)

  pub length-insert :
      (k : K) (v : V) (d : List (K × V))
      → length (insert k v d) ≡ (if contains k d then length d else suc (length d))
  length-insert k v [] = refl
  length-insert k v ((i, w) ∷ d) = ground (arith, length-insert k v d)

  pub length-erase-le : (k : K) (d : List (K × V)) → length (erase k d) ≤ length d
  length-erase-le k [] = omega arith
  length-erase-le k ((i, w) ∷ d) = ground (arith, length-erase-le k d)
