-- ===== src/Prelude/Equality.antt =====
-- Python's `==` on the values that the program compares: texts, numbers, options, tuples.
use Prim.Native.Nat.{ℕ}
use Prim.Native.String.{String}
use text.Mathlib.Text.{◌==◌ as str_eq}
use text.Mathlib.TextEquality.{eq_iff}
use mathlib.Core.Path.{◌≡◌}
use mathlib.Core.Logic.{◌↔◌}
use mathlib.Core.Bool.{Bool, true, false, not, ◌&&◌}
use mathlib.Core.Option.{Option, none, some}
use native.Mathlib.Omega.{arith}
use ven_agent.Prelude.Tests.{nat_beq, nat_beq_iff}

-- A type whose values the program compares, with the proof that the comparison decides equality.
pub record HasEq {ℓ} (V : Type ℓ) : Type ℓ where
  pub equals : V → V → Bool
  pub decides : (x y : V) → (equals x y ≡ true) ↔ (x ≡ y)

-- Texts, such as ids, are compared by their characters.
instance abbrev pub text_has_eq : HasEq String
text_has_eq = record { equals = str_eq; decides = eq_iff }

instance abbrev pub number_has_eq : HasEq ℕ
number_has_eq = record { equals = nat_beq; decides = nat_beq_iff }

module _ {ℓ} {V : Type ℓ} ⦃v : HasEq V⦄ where
  infix 50 ◌!=◌ ◌==◌
  abbrev pub ◌!=◌ : V → V → Bool
  x != y = not (v.equals x y)

  abbrev pub ◌==◌ : V → V → Bool
  x == y = v.equals x y

module _ {ℓ} {A : Type ℓ} ⦃e : HasEq A⦄ where
  abbrev pub option_beq : Option A → Option A → Bool
  option_beq none none = true
  option_beq none (some b) = false
  option_beq (some a) none = false
  option_beq (some a) (some b) = e.equals a b

  pub option_beq_iff : (a b : Option A) → (option_beq a b ≡ true) ↔ (a ≡ b)
  option_beq_iff none none = ground arith
  option_beq_iff none (some b) = ground arith
  option_beq_iff (some a) none = ground arith
  option_beq_iff (some a) (some b) = ground (arith, e.decides a b)

  instance abbrev pub option_eq : HasEq (Option A)
  option_eq = record { equals = option_beq; decides = option_beq_iff }

module _ {ℓ κ} {A : Type ℓ} {B : Type κ} ⦃e : HasEq A⦄ ⦃f : HasEq B⦄ where
  abbrev pub pair_beq : A × B → A × B → Bool
  pair_beq (a, b) (c, d) = e.equals a c && f.equals b d

  pub pair_beq_iff : (p q : A × B) → (pair_beq p q ≡ true) ↔ (p ≡ q)
  pair_beq_iff (a, b) (c, d) = ground (arith, e.decides a c, f.decides b d)

  instance abbrev pub pair_eq : HasEq (A × B)
  pair_eq = record { equals = pair_beq; decides = pair_beq_iff }

pub beq_refl {ℓ} : {A : Type ℓ} ⦃e : HasEq A⦄ (a : A) → (a == a) ≡ true
beq_refl ⦃e⦄ a = ground (arith, e.decides a a)
