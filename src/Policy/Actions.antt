-- ===== src/Policy/Actions.antt =====
-- `PolicyEngine._matches_action` (and `PolicyRegistry._matches_pattern`, the same code) of
-- swx_core/services/policy, against the patterns that its comment lists.
use swx.Prelude.{
  ◌≡◌, ap, subst, ◌∙◌, Bool, true, false, ◌++◌, inl, inr, ◌↔◌, if◌then◌else◌, ◌==◌, Bool-cases,
}
use swx.Prelude.Text.{
  Text, codes, text_eq, text_beq_iff, starts_with, ends_with, drop_last, drop, starts_with-append,
  starts_with_split, ends_with-append, ends_with_split, drop_last-append,
}

abbrev pub star : Text
star = codes "*"

unfoldable pub matches_action : Text → Text → Bool
matches_action action pattern =
    if pattern == star
    then true
    else if ends_with pattern star
    then starts_with action (drop_last pattern)
    else if starts_with pattern star
    then ends_with action (drop 1 pattern)
    else action == pattern

-- An action is under a pattern: the full wildcard, what stands before a final wildcard, what
-- stands after a first one, or the pattern itself, if it neither begins nor ends with one.
pub data Matches : Text → Text → Type 0 where
  everything : (action pattern : Text) → pattern ≡ star → Matches action pattern
  prefix :
      (action pattern p rest : Text)
      → pattern ≡ p ++ star
      → action ≡ p ++ rest
      → Matches action pattern
  suffix :
      (action pattern p before : Text)
      → pattern ≡ star ++ p
      → ends_with pattern star ≡ false
      → action ≡ before ++ p
      → Matches action pattern
  exactly :
      (action pattern : Text)
      → ends_with pattern star ≡ false
      → starts_with pattern star ≡ false
      → action ≡ pattern
      → Matches action pattern

matches_action_sound :
    (action pattern : Text) → matches_action action pattern ≡ true → Matches action pattern
unfolding matches_action
matches_action_sound action pattern h = elim (Bool-cases (pattern == star)) [
  | inl full ↦ everything action pattern ((text_beq_iff pattern star).0 full)
  | inr other ↦ elim (Bool-cases (ends_with pattern star)) [
    | inl e ↦
        let (p, q) = ends_with_split pattern star e in
        let (rest, r) = starts_with_split action p (
          subst (λ k. starts_with action k ≡ true) (ap drop_last q ∙ drop_last-append p b'*')
            (rw (other, e) at h)) in
        prefix action pattern p rest q r
    | inr no_end ↦ elim (Bool-cases (starts_with pattern star)) [
      | inl s ↦
          let (p, q) = starts_with_split pattern star s in
          let (before, r) =
            ends_with_split action p
              (subst (λ k. ends_with action (drop 1 k) ≡ true) q (rw (other, no_end, s) at h)) in
          suffix action pattern p before q no_end r
      | inr no_start ↦
          exactly action pattern no_end no_start
            ((text_beq_iff action pattern).0 (rw (other, no_end, no_start) at h))
    ]
  ]
]

-- A pattern that is not the full wildcard is matched by the other tests.
matches_action_other :
    (action pattern : Text)
    → ((pattern == star) ≡ false → matches_action action pattern ≡ true)
    → matches_action action pattern ≡ true
unfolding matches_action
matches_action_other action pattern h = elim (Bool-cases (pattern == star)) [
  | inl full ↦ rw full
  | inr other ↦ h other
]

matches_action_complete :
    (action pattern : Text) → Matches action pattern → matches_action action pattern ≡ true
unfolding matches_action
matches_action_complete action pattern (everything _ _ e) = rw e
matches_action_complete action pattern (prefix _ _ p rest e f) =
    let ends : ends_with pattern star ≡ true = rw e (ends_with-append p star) in
    let start : starts_with action (drop_last pattern) ≡ true =
      rw (e, drop_last-append p b'*', f) (starts_with-append p rest) in
    matches_action_other action pattern (λ other. rw (other, ends) start)
matches_action_complete action pattern (suffix _ _ p before e n f) =
    let starts : starts_with pattern star ≡ true = rw e (starts_with-append star p) in
    let end : ends_with action (drop 1 pattern) ≡ true = rw (e, f) (ends_with-append before p) in
    matches_action_other action pattern (λ other. rw (other, n, starts) end)
matches_action_complete action pattern (exactly _ _ n m e) =
    let same : (action == pattern) ≡ true = (text_beq_iff action pattern).1 e in
    matches_action_other action pattern (λ other. rw (other, n, m) same)

-- The test decides the relation.
pub matches_action_iff :
    (action pattern : Text) → (matches_action action pattern ≡ true) ↔ Matches action pattern
matches_action_iff action pattern =
    (matches_action_sound action pattern, matches_action_complete action pattern)
