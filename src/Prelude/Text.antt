-- ===== src/Prelude/Text.antt =====
-- Python's `str` as its list of code points, where the program looks into the text.
use Prim.Native.Char.{code}
use swx.Prelude.{
  ℕ, zero, suc, ◌≡◌, refl, ap, ◌↔◌, Bool, true, false, ◌&&◌, List, [], ◌∷◌, ◌++◌, arith, String,
  Hashable, nat_eq, ◌==◌, eqb_iff, beq_refl, if◌then◌else◌, Bool-cases, inl, inr,
}

abbrev pub Text : Type 0
Text = List ℕ

-- The code points of a literal.
abbrev pub codes : String → Text
codes String.[] = []
codes (String.◌∷◌ c s) = code c ∷ codes s

abbrev pub text_beq : Text → Text → Bool
text_beq [] [] = true
text_beq [] (b ∷ bs) = false
text_beq (a ∷ as') [] = false
text_beq (a ∷ as') (b ∷ bs) = a == b && text_beq as' bs

pub text_beq_iff : (s t : Text) → (text_beq s t ≡ true) ↔ (s ≡ t)
text_beq_iff [] [] = ((λ h. refl), (λ h. refl))
text_beq_iff [] (b ∷ bs) = ((λ h. cc), (λ h. cc))
text_beq_iff (a ∷ as') [] = ((λ h. cc), (λ h. cc))
text_beq_iff (a ∷ as') (b ∷ bs) = (
  (λ h. ground (arith, text_beq_iff as' bs, eqb_iff a b)),
  (λ h. ground (arith, text_beq_iff as' bs, eqb_iff a b)),
)

instance abbrev pub text_eq : Hashable Text
text_eq = record { equals = text_beq; decides = text_beq_iff }

-- `s.startswith(p)`
abbrev pub starts_with : Text → Text → Bool
starts_with s [] = true
starts_with [] (c ∷ p) = false
starts_with (a ∷ s) (c ∷ p) = a == c && starts_with s p

-- `s.endswith(p)`
abbrev pub ends_with : Text → Text → Bool
ends_with [] p = text_beq [] p
ends_with (a ∷ s) p = if text_beq (a ∷ s) p then true else ends_with s p

-- `s[:-1]`
abbrev pub drop_last : Text → Text
drop_last [] = []
drop_last (a ∷ []) = []
drop_last (a ∷ b ∷ s) = a ∷ drop_last (b ∷ s)

-- `s[n:]`
abbrev pub drop : ℕ → Text → Text
drop zero s = s
drop (suc n) [] = []
drop (suc n) (a ∷ s) = drop n s

abbrev pub dot : ℕ
dot = 46

abbrev pub add_first : ℕ → List Text → List Text
add_first c [] = (c ∷ []) ∷ []
add_first c (part ∷ parts) = (c ∷ part) ∷ parts

-- `s.split(".")`
abbrev pub split : Text → List Text
split [] = [] ∷ []
split (c ∷ s) = if c == dot then [] ∷ split s else add_first c (split s)

pub starts_with-append : (p rest : Text) → starts_with (p ++ rest) p ≡ true
starts_with-append [] rest = refl
starts_with-append (c ∷ p) rest = rw (beq_refl c) (starts_with-append p rest)

pub starts_with_split : (s p : Text) → starts_with s p ≡ true → (rest : Text) × (s ≡ p ++ rest)
starts_with_split s [] h = (s, refl)
starts_with_split [] (c ∷ p) h = absurd (cc)
starts_with_split (a ∷ s) (c ∷ p) h = elim (Bool-cases (starts_with s p)) [
  | inl e ↦ let (rest, q) = starts_with_split s p e in (rest, ground (arith, q, eqb_iff a c))
  | inr e ↦ absurd (ground (arith, h, e))
]

pub text_beq_refl : (s : Text) → text_beq s s ≡ true
text_beq_refl s = (text_beq_iff s s).1 refl

ends_with_self : (p : Text) → ends_with p p ≡ true
ends_with_self [] = refl
ends_with_self (c ∷ p) = rw (text_beq_refl (c ∷ p))

pub ends_with-append : (before p : Text) → ends_with (before ++ p) p ≡ true
ends_with-append [] p = ends_with_self p
ends_with-append (c ∷ before) p = ground (arith, ends_with-append before p)

pub ends_with_split : (s p : Text) → ends_with s p ≡ true → (before : Text) × (s ≡ before ++ p)
ends_with_split [] p h = ([], (text_beq_iff [] p).0 h)
ends_with_split (a ∷ s) p h = elim (Bool-cases (text_beq (a ∷ s) p)) [
  | inl e ↦ ([], (text_beq_iff (a ∷ s) p).0 e)
  | inr e ↦ let (before, q) = ends_with_split s p (rw e at h) in (a ∷ before, rw q)
]

-- Dropping the last code point of a text undoes an append.
pub drop_last-append : (p : Text) (c : ℕ) → drop_last (p ++ c ∷ []) ≡ p
drop_last-append [] c = refl
drop_last-append (a ∷ []) c = refl
drop_last-append (a ∷ b ∷ p) c = ap (◌∷◌ a) (drop_last-append (b ∷ p) c)
