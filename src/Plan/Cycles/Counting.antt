-- ===== src/Plan/Cycles/Counting.antt =====
-- How often an id stands in a list, and the edges of a graph whose source is still to be processed.
use ven_agent.Prelude.{
  ℕ, suc, ◌+◌, ◌≤◌, ◌≡◌, refl, inl, inr, true, false, String, List, [], ◌∷◌, ◌++◌, arith, ◌==◌,
  text_has_eq, if◌then◌else◌, length, Occurs,
}
use ven_agent.Plan.{contains}

abbrev pub count : String → List String → ℕ
count id [] = 0
count id (x ∷ xs) = (if x == id then 1 else 0) + count id xs

pub count-append :
    (id : String) (xs ys : List String) → count id (xs ++ ys) ≡ count id xs + count id ys
count-append id [] ys = omega arith
count-append id (x ∷ xs) ys = omega (arith, count-append id xs ys)

pub contains-count : (id : String) (xs : List String) → contains id xs ≡ true → 1 ≤ count id xs
contains-count id [] h = cc
contains-count id (x ∷ xs) h = ground (arith, contains-count id xs)

pub count-contains : (id : String) (xs : List String) → contains id xs ≡ false → count id xs ≡ 0
count-contains id [] h = refl
count-contains id (x ∷ xs) h = ground (arith, count-contains id xs)

pub Occurs-count : (id : String) (xs : List String) → Occurs id xs → 1 ≤ count id xs
Occurs-count id [] m = elim m [ ]
Occurs-count id (x ∷ xs) (inl e) = ground (arith, text_has_eq.decides x id)
Occurs-count id (x ∷ xs) (inr m) = omega (arith, Occurs-count id xs m)

-- `xs` without its first `id`.
remove : String → List String → List String
remove id [] = []
remove id (x ∷ xs) = if x == id then xs else x ∷ remove id xs

count-remove :
    (id k : String) (xs : List String)
    → 1 ≤ count id xs
    → count k (remove id xs) + (if id == k then 1 else 0) ≡ count k xs
unfolding remove
count-remove id k [] h = absurd (omega arith)
count-remove id k (x ∷ xs) h = ground (
  arith,
  text_has_eq.decides x id,
  text_has_eq.decides x k,
  text_has_eq.decides id k,
  count-remove id k xs,
)

length-remove :
    (id : String) (xs : List String) → 1 ≤ count id xs → suc (length (remove id xs)) ≡ length xs
unfolding remove
length-remove id [] h = absurd (omega arith)
length-remove id (x ∷ xs) h = ground (arith, length-remove id xs)

module _ (x : String) (xs ys : List String)
    (h : (id : String) → count id (x ∷ xs) ≤ count id ys) where
  head_is_there : 1 ≤ count x ys
  head_is_there = ground (arith, h x, text_has_eq.decides x x)

  rest_is_there : (id : String) → count id xs ≤ count id (remove x ys)
  rest_is_there id = ground (arith, h id, count-remove x id ys head_is_there)

-- A list that holds no id more often is no longer.
pub length-le_of_count :
    (xs ys : List String) → ((id : String) → count id xs ≤ count id ys) → length xs ≤ length ys
length-le_of_count [] ys h = omega arith
length-le_of_count (x ∷ xs) ys h = omega (
  arith,
  length-remove x ys (head_is_there x xs ys h),
  length-le_of_count xs (remove x ys) (rest_is_there x xs ys h),
)

-- If it is not shorter either, it holds each id as often.
pub count-le_of_length :
    (xs ys : List String)
    → ((id : String) → count id xs ≤ count id ys)
    → length ys ≤ length xs
    → (id : String) → count id ys ≤ count id xs
count-le_of_length [] [] h l id = omega arith
count-le_of_length [] (y ∷ ys) h l id = absurd (omega arith)
count-le_of_length (x ∷ xs) ys h l id =
    let shorter : length (remove x ys) ≤ length xs =
      omega (arith, length-remove x ys (head_is_there x xs ys h), l) in
    let same = count-le_of_length xs (remove x ys) (rest_is_there x xs ys h) shorter id in
    ground (arith, same, count-remove x id ys (head_is_there x xs ys h))
