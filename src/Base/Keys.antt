-- ===== src/Base/Keys.antt =====
-- Go's `comparable`: the types whose values `==` compares, as an interface.
use Prim.Native.Nat.{ℕ}
use Prim.Native.String.{String}
use mathlib.Core.Path.{◌≡◌, refl}
use mathlib.Core.Logic.{◌↔◌}
use mathlib.Core.Bool.{Bool, true, false, not}
use text.Mathlib.Text.{◌==◌ as text_eqb}
use text.Mathlib.TextEquality.{eq_iff}
use native.Mathlib.Omega.{arith}
use aws_advanced_go_wrapper.Base.Tests.{nat_beq, nat_beq_iff}

pub record Comparable {ℓ} (K : Type ℓ) : Type ℓ where
  pub eqb : K → K → Bool
  pub eqb_iff : (j k : K) → (eqb j k ≡ true) ↔ (j ≡ k)

abbrev pub bool_eqb : Bool → Bool → Bool
bool_eqb true b = b
bool_eqb false b = not b

pub bool_eqb_iff : (j k : Bool) → (bool_eqb j k ≡ true) ↔ (j ≡ k)
bool_eqb_iff j k = ground arith

instance abbrev pub bool_comparable : Comparable Bool
bool_comparable = record { eqb = bool_eqb; eqb_iff = bool_eqb_iff }

instance abbrev pub string_comparable : Comparable String
string_comparable = record { eqb = text_eqb; eqb_iff = eq_iff }

instance abbrev pub nat_comparable : Comparable ℕ
nat_comparable = record { eqb = nat_beq; eqb_iff = nat_beq_iff }

module _ {ℓ} {K : Type ℓ} ⦃c : Comparable K⦄ where
  infix 50 ◌==◌
  abbrev pub ◌==◌ : K → K → Bool
  j == k = c.eqb j k

  pub ==_refl : (k : K) → (k == k) ≡ true
  ==_refl k = (c.eqb_iff k k).1 refl
