-- ===== src/Prelude/Equality.antt =====
-- Python's `==` on the types that serve as keys.
use Prim.Native.Nat.{ℕ}
use Prim.Native.String.{String}
use mathlib.Core.Path.{◌≡◌, refl}
use mathlib.Core.Logic.{◌↔◌, ◌≢◌}
use mathlib.Core.Bool.{Bool, true, false}
use native.Mathlib.Omega.{arith}
use text.Mathlib.Text.{◌==◌ as same_text}
use text.Mathlib.TextEquality.{eq_iff as same_text_iff}
use swx.Prelude.Tests.{nat_beq, nat_beq_iff}

-- A type whose `__eq__` tells exactly whether two values are the same.
pub record Hashable {ℓ} (K : Type ℓ) : Type ℓ where
  pub equals : K → K → Bool
  pub decides : (j k : K) → (equals j k ≡ true) ↔ (j ≡ k)

instance abbrev pub string_eq : Hashable String
string_eq = record { equals = same_text; decides = same_text_iff }

instance abbrev pub nat_eq : Hashable ℕ
nat_eq = record { equals = nat_beq; decides = nat_beq_iff }

module _ {ℓ} {K : Type ℓ} ⦃keys : Hashable K⦄ where
  infix 50 ◌==◌
  abbrev pub ◌==◌ : K → K → Bool
  j == k = keys.equals j k

  pub eqb_iff : (j k : K) → ((j == k) ≡ true) ↔ (j ≡ k)
  eqb_iff j k = keys.decides j k

  pub beq_refl : (k : K) → (k == k) ≡ true
  beq_refl k = (eqb_iff k k).1 refl

  pub beq_ne : (j k : K) → j ≢ k → (j == k) ≡ false
  beq_ne j k other = ground (arith, eqb_iff j k)
