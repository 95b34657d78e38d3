-- ===== src/Prelude/Texts.antt =====
-- Python's `<` on texts: a strict total order.
use Prim.Native.Nat.{ℕ, Ordering, compare as compare_ℕ}
use Prim.Native.Char.{Char, code}
use Prim.Native.String.compare
use Prim.Native.String.{String, [], ◌∷◌, compare, then}
use text.Mathlib.Text.{is_lt}
use text.Mathlib.TextEquality.{codes_equal}
use mathlib.Core.Path.{◌≡◌, refl, ap, ◌∙◌}
use mathlib.Core.Bool.{Bool, true, false, ◌&&◌, ◌||◌}
use native.Mathlib.Omega.{arith}
use ven_agent.Prelude.Tests.{ltb, nat_beq}

abbrev pub text_lt : String → String → Bool
text_lt s t = is_lt (compare s t)

then_lt :
    (m n : ℕ) (o : Ordering) → is_lt (then (compare_ℕ m n) o) ≡ (ltb m n || nat_beq m n && is_lt o)
then_lt m n o =
    elim (compare_ℕ m n)
      as (λ r. is_lt (then r o) ≡ (
        (elim r [ Ordering.lt ↦ true | _ ↦ false ])
        || (elim r [ Ordering.eq ↦ true | _ ↦ false ]) && is_lt o)) [
          | Ordering.lt ↦ refl
          | Ordering.eq ↦ refl
          | Ordering.gt ↦ refl
        ]

text_lt-cons :
    (c d : Char) (s t : String)
    → text_lt (c ∷ s) (d ∷ t) ≡ (ltb (code c) (code d) || nat_beq (code c) (code d) && text_lt s t)
text_lt-cons c d s t =
    ap is_lt (compare.cons-cons c d s t) ∙ then_lt (code c) (code d) (compare s t)

nil-text_lt : (d : Char) (t : String) → text_lt [] (d ∷ t) ≡ true
nil-text_lt d t = ap is_lt (compare.nil-cons d t)

text_lt-nil : (s : String) → text_lt s [] ≡ false
text_lt-nil [] = ap is_lt compare.nil-nil
text_lt-nil (c ∷ s) = ap is_lt (compare.cons-nil c s)

pub text_lt_irrefl : (s : String) → text_lt s s ≡ false
text_lt_irrefl [] = text_lt-nil []
text_lt_irrefl (c ∷ s) = ground (arith, text_lt-cons c c s s, text_lt_irrefl s)

pub text_lt_trans : (s t u : String) → text_lt s t ≡ true → text_lt t u ≡ true → text_lt s u ≡ true
text_lt_trans s t [] h k = ground (arith, text_lt-nil t)
text_lt_trans s [] (e ∷ u) h k = ground (arith, text_lt-nil s)
text_lt_trans [] (d ∷ t) (e ∷ u) h k = nil-text_lt e u
text_lt_trans (c ∷ s) (d ∷ t) (e ∷ u) h k =
    ground
      (arith, text_lt-cons c d s t, text_lt-cons d e t u, text_lt-cons c e s u, text_lt_trans s t u)

pub text_lt_total : (s t : String) → text_lt s t ≡ false → text_lt t s ≡ false → s ≡ t
text_lt_total [] [] h k = refl
text_lt_total [] (d ∷ t) h k = absurd (ground (arith, nil-text_lt d t))
text_lt_total (c ∷ s) [] h k = absurd (ground (arith, nil-text_lt c s))
text_lt_total (c ∷ s) (d ∷ t) h k =
    let same_code : code c ≡ code d = ground (arith, text_lt-cons c d s t, text_lt-cons d c t s) in
    let rest : s ≡ t =
      text_lt_total s t (ground (arith, text_lt-cons c d s t))
        (ground (arith, text_lt-cons d c t s)) in
    let first : c ≡ d = codes_equal c d (ground (arith, same_code)) in λ i. first i ∷ rest i
