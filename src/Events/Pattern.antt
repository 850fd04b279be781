-- ===== src/Events/Pattern.antt =====
-- The patterns of listeners: `EventBus._matches_pattern` of swx_core/events/dispatcher.py.
use swx.Prelude.{
  ℕ, Bool, true, false, not, ◌&&◌, ◌||◌, List, [], ◌∷◌, ◌++◌, ◌≡◌, ◌⊎◌, ◌↔◌, inl, inr, refl, sym,
  ap, ◌∙◌, subst, nat_eq, arith, ◌==◌, any, any-append, length, nat_beq, if◌then◌else◌, Bool-cases,
}
use swx.Prelude.Text.{dot, split, Text, text_beq, text_beq_iff}

abbrev pub star : ℕ
star = 42

-- `"*" in s`
abbrev pub has_star : Text → Bool
has_star s = any (λ c. c == star) s

-- The loop over the parts.
abbrev pub parts_match : List Text → List Text → Bool
parts_match (p ∷ ps) (e ∷ es) = (text_beq p (star ∷ []) || text_beq p e) && parts_match ps es
parts_match [] es = true
parts_match (p ∷ ps) [] = true

unfoldable pub matches_pattern : Text → Text → Bool
matches_pattern event pattern =
    if text_beq pattern (star ∷ [])
    then true
    else if not (has_star pattern)
    then text_beq event pattern
    else if nat_beq (length (split pattern)) (length (split event))
    then parts_match (split pattern) (split event)
    else false

-- `".".join(parts)`
abbrev pub join : List Text → Text
join [] = []
join (part ∷ []) = part
join (part ∷ next ∷ parts) = part ++ dot ∷ join (next ∷ parts)

-- No part of the list has a dot.
abbrev pub NoDots : List Text → Type 0
NoDots [] = Unit {0}
NoDots (part ∷ parts) = (any (λ c. c == dot) part ≡ false) × NoDots parts

-- The lists are as long as each other, and each part of the pattern is `*` or that of the name.
abbrev pub Fits : List Text → List Text → Type 0
Fits [] [] = Unit {0}
Fits (p ∷ ps) (e ∷ es) = ((p ≡ star ∷ []) ⊎ (p ≡ e)) × Fits ps es
Fits [] (e ∷ es) = [] ≡ e ∷ es
Fits (p ∷ ps) [] = p ∷ ps ≡ []

split_part : (part : Text) → any (λ c. c == dot) part ≡ false → split part ≡ part ∷ []
split_part [] h = refl
split_part (c ∷ part) h = elim (Bool-cases (c == dot)) [
  | inl e ↦ absurd (ground (arith, h, e))
  | inr e ↦ rw (e, split_part part (rw e at h)) refl
]

split_first :
    (part rest : Text)
    → any (λ c. c == dot) part ≡ false
    → split (part ++ dot ∷ rest) ≡ part ∷ split rest
split_first [] rest h = refl
split_first (c ∷ part) rest h = elim (Bool-cases (c == dot)) [
  | inl e ↦ absurd (ground (arith, h, e))
  | inr e ↦ rw (e, split_first part rest (rw e at h)) refl
]

split-join :
    (part : Text) (parts : List Text)
    → NoDots (part ∷ parts)
    → split (join (part ∷ parts)) ≡ part ∷ parts
split-join part [] h = split_part part h.0
split-join part (next ∷ parts) h =
    split_first part (join (next ∷ parts)) h.0 ∙ ap (◌∷◌ part) (split-join next parts h.1)

part_matches :
    (p e : Text) → ((text_beq p (star ∷ []) || text_beq p e) ≡ true) ↔ ((p ≡ star ∷ []) ⊎ (p ≡ e))
part_matches p e = ground (arith, text_beq_iff p (star ∷ []), text_beq_iff p e)

parts_match-Fits :
    (ps es : List Text)
    → ((nat_beq (length ps) (length es) ≡ true) × (parts_match ps es ≡ true)) ↔ Fits ps es
parts_match-Fits [] [] = ((λ h. tt), (λ h. (refl, refl)))
parts_match-Fits [] (e ∷ es) = ((λ h. absurd (ground (arith, h.0))), (λ h. absurd (cc)))
parts_match-Fits (p ∷ ps) [] = ((λ h. absurd (ground (arith, h.0))), (λ h. absurd (cc)))
parts_match-Fits (p ∷ ps) (e ∷ es) = (
  (λ h. (
    (part_matches p e).0 (ground (arith, h.1)),
    (parts_match-Fits ps es).0 (ground (arith, h.0), ground (arith, h.1)),
  )),
  (λ h.
      let (lengths, matched) = (parts_match-Fits ps es).1 h.1 in
      (ground (arith, lengths), ground (arith, matched, (part_matches p e).1 h.0))),
)

Fits-refl : (ps : List Text) → Fits ps ps
Fits-refl [] = tt
Fits-refl (p ∷ ps) = (inr refl, Fits-refl ps)

same_part : (p e : Text) → has_star p ≡ false → (p ≡ star ∷ []) ⊎ (p ≡ e) → e ≡ p
same_part p e h (inl q) = absurd (let n : true ≡ false = rw q at h in cc)
same_part p e h (inr q) = sym q

-- Without a star only the same parts fit.
Fits-same :
    (p : Text) (ps : List Text) (e : Text) (es : List Text)
    → has_star (join (p ∷ ps)) ≡ false
    → Fits (p ∷ ps) (e ∷ es)
    → e ∷ es ≡ p ∷ ps
Fits-same p [] e [] h f = ap (λ x. x ∷ []) (same_part p e h f.0)
Fits-same p [] e (e' ∷ es) h f = absurd (let n : [] ≡ e' ∷ es = f.1 in cc)
Fits-same p (p' ∷ ps) e [] h f = absurd (let n : p' ∷ ps ≡ [] = f.1 in cc)
Fits-same p (p' ∷ ps) e (e' ∷ es) h f =
    let q : (has_star p || has_star (join (p' ∷ ps))) ≡ false =
      sym (any-append (λ c. c == star) p (dot ∷ join (p' ∷ ps))) ∙ h in
    ap (λ x. x ∷ e' ∷ es) (same_part p e (ground (arith, q)) f.0)
    ∙ ap (◌∷◌ p) (Fits-same p' ps e' es (ground (arith, q)) f.1)

module _ (p : Text) (ps : List Text) (e : Text) (es : List Text) where
  abbrev pattern : Text
  pattern = join (p ∷ ps)

  abbrev event : Text
  event = join (e ∷ es)

  -- The tests of the code, in their order.
  tested :
      (starred wild same lengths matched : Bool)
      → (starred ≡ true) ↔ (pattern ≡ star ∷ [])
      → (wild ≡ false → (same ≡ true) ↔ Fits (p ∷ ps) (e ∷ es))
      → ((lengths ≡ true) × (matched ≡ true)) ↔ Fits (p ∷ ps) (e ∷ es)
      → ((if starred then true else if not wild then same else if lengths then matched else false)
          ≡ true)
        ↔ ((pattern ≡ star ∷ []) ⊎ Fits (p ∷ ps) (e ∷ es))
  tested true wild same lengths matched a b c = ((λ h. inl (a.0 refl)), (λ h. refl))
  tested false false same lengths matched a b c = (
    (λ h. inr ((b refl).0 h)),
    (λ h. elim h [ inl q ↦ absurd (let n = a.1 q in cc) | inr f ↦ (b refl).1 f ]),
  )
  tested false true same false matched a b c = (
    (λ h. absurd (cc)),
    (λ h. elim h [ inl q ↦ absurd (let n = a.1 q in cc) | inr f ↦ (c.1 f).0 ]),
  )
  tested false true same true matched a b c = (
    (λ h. inr (c.0 (refl, h))),
    (λ h. elim h [ inl q ↦ absurd (let n = a.1 q in cc) | inr f ↦ (c.1 f).1 ]),
  )

  same_text :
      NoDots (p ∷ ps)
      → NoDots (e ∷ es)
      → has_star pattern ≡ false
      → (text_beq event pattern ≡ true) ↔ Fits (p ∷ ps) (e ∷ es)
  same_text plain named h = (
    (λ q.
        subst (λ x. Fits (p ∷ ps) x)
          (sym (
            sym (split-join e es named)
            ∙ ap split ((text_beq_iff event pattern).0 q)
            ∙ split-join p ps plain))
          (Fits-refl (p ∷ ps))),
    (λ f. (text_beq_iff event pattern).1 (join_same (Fits-same p ps e es h f))),
  )
    where
      join_same : e ∷ es ≡ p ∷ ps → join (e ∷ es) ≡ join (p ∷ ps)
      join_same q = ap join q

  -- For names given by their parts, which have no dots: `*` matches every event, and otherwise a
  -- pattern matches the events with as many parts, each of which is the pattern's where that is not
  -- `*`.
  pub matches_pattern-Fits :
      NoDots (p ∷ ps)
      → NoDots (e ∷ es)
      → (matches_pattern (join (e ∷ es)) (join (p ∷ ps)) ≡ true)
        ↔ ((join (p ∷ ps) ≡ star ∷ []) ⊎ Fits (p ∷ ps) (e ∷ es))
  unfolding matches_pattern
  matches_pattern-Fits plain named =
      tested (text_beq pattern (star ∷ [])) (has_star pattern) (text_beq event pattern)
        (nat_beq (length (split pattern)) (length (split event)))
        (parts_match (split pattern) (split event)) (text_beq_iff pattern (star ∷ []))
        (same_text plain named)
        (subst
          (λ x.
            ((nat_beq (length x) (length (split event)) ≡ true)
              × (parts_match x (split event) ≡ true))
            ↔ Fits (p ∷ ps) (e ∷ es))
          (sym (split-join p ps plain))
          (subst
            (λ y.
              ((nat_beq (length (p ∷ ps)) (length y) ≡ true) × (parts_match (p ∷ ps) y ≡ true))
              ↔ Fits (p ∷ ps) (e ∷ es))
            (sym (split-join e es named)) (parts_match-Fits (p ∷ ps) (e ∷ es))))
