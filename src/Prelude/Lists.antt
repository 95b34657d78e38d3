-- ===== src/Prelude/Lists.antt =====
-- Lists measured by the native numbers, and predicates on lists by recursion.
use Prim.Native.Nat.{ℕ, zero, suc, ◌+◌, ◌≤◌}
use mathlib.Core.Path.{◌≡◌, refl, sym, subst}
use mathlib.Core.Logic.{◌⊎◌, inl, inr}
use mathlib.Core.Bool.{Bool, true, false, ◌||◌, ◌&&◌}
use mathlib.Core.Option.{Option, none, some}
use mathlib.Core.List.{List, [], ◌∷◌, ◌++◌}
use native.Mathlib.Omega.{arith}
use ven_agent.Prelude.Tests.{if◌then◌else◌, Bool-cases}

module _ {ℓ} {A : Type ℓ} where
  abbrev pub length : List A → ℕ
  length [] = 0
  length (x ∷ xs) = suc (length xs)

  pub length-append : (xs ys : List A) → length (xs ++ ys) ≡ length xs + length ys
  length-append [] ys = omega arith
  length-append (x ∷ xs) ys = omega (arith, length-append xs ys)

  -- `xs[:n]`
  abbrev pub take : ℕ → List A → List A
  take zero xs = []
  take (suc n) [] = []
  take (suc n) (x ∷ xs) = x ∷ take n xs

  pub length-take-le : (n : ℕ) (xs : List A) → length (take n xs) ≤ n
  length-take-le zero xs = omega arith
  length-take-le (suc n) [] = omega arith
  length-take-le (suc n) (x ∷ xs) = omega (arith, length-take-le n xs)

  abbrev pub All {κ} : (A → Type κ) → List A → Type κ
  All P [] = Unit
  All P (x ∷ xs) = P x × All P xs

  -- Python's `any(test(x) for x in xs)` and `all(...)`.
  abbrev pub any : (A → Bool) → List A → Bool
  any test [] = false
  any test (x ∷ xs) = test x || any test xs

  abbrev pub all : (A → Bool) → List A → Bool
  all test [] = true
  all test (x ∷ xs) = test x && all test xs

  -- `[x for x in xs if test(x)]`
  abbrev pub select : (A → Bool) → List A → List A
  select test [] = []
  select test (x ∷ xs) = let rest = select test xs in if test x then x ∷ rest else rest

  -- `next((x for x in xs if test(x)), None)`
  abbrev pub first : (A → Bool) → List A → Option A
  first test [] = none
  first test (x ∷ xs) = if test x then some x else first test xs

  -- `xs[-1] if xs else None`
  abbrev pub last : List A → Option A
  last [] = none
  last (x ∷ []) = some x
  last (x ∷ y ∷ xs) = last (y ∷ xs)

-- `a` stands in the list.
abbrev pub Occurs : {A : Type 0} → A → List A → Type 0
Occurs a [] = ⊥
Occurs a (x ∷ xs) = (a ≡ x) ⊎ Occurs a xs

module _ {A : Type 0} where
  pub All-Occurs {κ} : (P : A → Type κ) {a : A} (xs : List A) → All P xs → Occurs a xs → P a
  All-Occurs P [] h m = elim m [ ]
  All-Occurs P (x ∷ xs) h (inl e) = subst P (sym e) h.0
  All-Occurs P (x ∷ xs) h (inr m) = All-Occurs P xs h.1 m

  -- What `select` keeps stands in the list and passes the test.
  pub Occurs-select :
      (test : A → Bool) {a : A} (xs : List A)
      → Occurs a (select test xs)
      → Occurs a xs × (test a ≡ true)
  Occurs-select test [] m = elim m [ ]
  Occurs-select test {a = a} (x ∷ xs) m = elim (Bool-cases (test x)) [
    | inl keep ↦ elim (kept keep) [
      | inl e ↦ (inl e, rw e keep)
      | inr m' ↦ let found = Occurs-select test xs m' in (inr found.0, found.1)
    ]
    | inr skip ↦ let found = Occurs-select test xs (rw skip at m) in (inr found.0, found.1)
  ]
    where
      kept : test x ≡ true → (a ≡ x) ⊎ Occurs a (select test xs)
      kept keep = rw keep at m

  pub select-Occurs :
      (test : A → Bool) {a : A} (xs : List A)
      → Occurs a xs
      → test a ≡ true
      → Occurs a (select test xs)
  select-Occurs test [] m t = elim m [ ]
  select-Occurs test (x ∷ xs) (inl e) t = ground arith
  select-Occurs test (x ∷ xs) (inr m) t = ground (arith, select-Occurs test xs m t)

  pub any-Occurs :
      (test : A → Bool) {a : A} (xs : List A) → any test xs ≡ false → Occurs a xs → test a ≡ false
  any-Occurs test [] h m = elim m [ ]
  any-Occurs test (x ∷ xs) h (inl e) = ground arith
  any-Occurs test (x ∷ xs) h (inr m) = ground (arith, any-Occurs test xs (ground arith) m)

  pub first-Occurs :
      (test : A → Bool) (a : A) (xs : List A)
      → first test xs ≡ some a
      → Occurs a xs × (test a ≡ true)
  first-Occurs test a [] h = cc
  first-Occurs test a (x ∷ xs) h = elim (Bool-cases (test x)) [
    | inl t ↦ let same : some x ≡ some a = rw t at h in (inl (cc same), cc same)
    | inr f ↦ let found = first-Occurs test a xs (rw f at h) in (inr found.0, found.1)
  ]

  -- Where nothing was found, nothing passes the test.
  pub first-append_last :
      (test : A → Bool) (a : A) (xs : List A)
      → first test xs ≡ none
      → test a ≡ true
      → first test (xs ++ a ∷ []) ≡ some a
  first-append_last test a [] h k = rw k refl
  first-append_last test a (x ∷ xs) h k = elim (Bool-cases (test x)) [
    | inl t ↦ absurd (cc (rw t at h))
    | inr f ↦ rw f (first-append_last test a xs (rw f at h) k)
  ]

  pub first-none :
      (test : A → Bool) (a : A) (xs : List A) → first test xs ≡ none → Occurs a xs → test a ≡ false
  first-none test a [] h m = elim m [ ]
  first-none test a (x ∷ xs) h (inl e) = ground arith
  first-none test a (x ∷ xs) h (inr m) = ground (arith, first-none test a xs (ground arith) m)

  pub Occurs-All {κ} : (P : A → Type κ) (xs : List A) → ((a : A) → Occurs a xs → P a) → All P xs
  Occurs-All P [] h = tt
  Occurs-All P (x ∷ xs) h = (h x (inl refl), Occurs-All P xs (λ a m. h a (inr m)))

  pub Occurs-append : (a : A) (xs ys : List A) → Occurs a (xs ++ ys) → Occurs a xs ⊎ Occurs a ys
  Occurs-append a [] ys m = inr m
  Occurs-append a (x ∷ xs) ys (inl e) = inl (inl e)
  Occurs-append a (x ∷ xs) ys (inr m) = elim (Occurs-append a xs ys m) [
    | inl left ↦ inl (inr left)
    | inr right ↦ inr right
  ]

  pub append-Occurs-left : (a : A) (xs ys : List A) → Occurs a xs → Occurs a (xs ++ ys)
  append-Occurs-left a [] ys m = elim m [ ]
  append-Occurs-left a (x ∷ xs) ys (inl e) = inl e
  append-Occurs-left a (x ∷ xs) ys (inr m) = inr (append-Occurs-left a xs ys m)

  pub append-Occurs-right : (a : A) (xs ys : List A) → Occurs a ys → Occurs a (xs ++ ys)
  append-Occurs-right a [] ys m = m
  append-Occurs-right a (x ∷ xs) ys m = inr (append-Occurs-right a xs ys m)
