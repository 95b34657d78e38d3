-- ===== src/Prelude/Dict.antt =====
-- Python's `dict`: an association list in the order of insertion, which the program iterates over.
-- An assignment to a key that is there keeps its place; a new key goes to the end.
use mathlib.Core.Path.{◌≡◌, refl, sym, ap, ◌∙◌}
use mathlib.Core.Logic.{◌≢◌, inl, inr}
use mathlib.Core.Option
use mathlib.Core.Option.{Option, none, some}
use mathlib.Core.List.{List, [], ◌∷◌}
use native.Mathlib.Omega.{arith}
use ven_agent.Prelude.Tests.{if◌then◌else◌, Bool-cases}
use ven_agent.Prelude.Lists.{Occurs}
use ven_agent.Prelude.Equality.{HasEq, ◌==◌}

abbrev pub Dict {ℓ κ} : Type ℓ → Type κ → Type (ℓ ⊔ κ)
Dict K V = List (K × V)

module _ {ℓ κ} {K : Type ℓ} {V : Type κ} ⦃e : HasEq K⦄ where
  -- `d.pop(key, None)`
  unfoldable pub pop : (entries : Dict K V) (key : K) → Dict K V
  pop [] key = []
  pop (entry ∷ later) key =
      let kept = pop later key in if entry.0 == key then kept else entry ∷ kept

  -- `d.get(key)`
  unfoldable pub get : (entries : Dict K V) (key : K) → Option V
  get [] key = none
  get (entry ∷ later) key = if entry.0 == key then some entry.1 else get later key

  -- `d[key] = value`
  unfoldable pub put : (entries : Dict K V) (key : K) (value : V) → Dict K V
  put [] key value = (key, value) ∷ []
  put (entry ∷ later) key value =
      if entry.0 == key then (entry.0, value) ∷ later else entry ∷ put later key value

  pub get-pop :
      (entries : Dict K V) (gone key : K)
      → get (pop entries gone) key ≡ (if gone == key then none else get entries key)
  unfolding get pop
  get-pop [] gone key = ground arith
  get-pop ((i, w) ∷ d) gone key =
      ground (arith, e.decides gone key, e.decides i gone, e.decides i key, get-pop d gone key)

  pub get-put :
      (entries : Dict K V) (new key : K) (value : V)
      → get (put entries new value) key ≡ (if new == key then some value else get entries key)
  unfolding get put
  get-put [] new key value = refl
  get-put ((i, w) ∷ d) new key value =
      ground (arith, e.decides new key, e.decides i new, e.decides i key, get-put d new key value)

  pub get-put_self : (d : Dict K V) (k : K) (v : V) → get (put d k v) k ≡ some v
  get-put_self d k v = ground (arith, get-put d k k v, e.decides k k)

  pub get-pop_self : (d : Dict K V) (k : K) → get (pop d k) k ≡ none
  get-pop_self d k = ground (arith, get-pop d k k, e.decides k k)

  pub get-put_ne : (d : Dict K V) (k j : K) (v : V) → k ≢ j → get (put d k v) j ≡ get d j
  get-put_ne d k j v h = ground (arith, get-put d k j v, e.decides k j)

module _ {ℓ κ} {K : Type ℓ} {V : Type κ} where
  -- `d.values()`
  abbrev pub values : Dict K V → List V
  values [] = []
  values ((k, v) ∷ d) = v ∷ values d

  -- `d.keys()`
  abbrev pub keys : Dict K V → List K
  keys [] = []
  keys ((k, v) ∷ d) = k ∷ keys d

-- `{k: f(v) for k, v in d.items()}`
abbrev pub map_values {ℓ κ} : {K : Type ℓ} {V : Type κ} → (V → V) → Dict K V → Dict K V
map_values f [] = []
map_values f ((k, v) ∷ d) = (k, f v) ∷ map_values f d

pub get-map_values {ℓ κ} :
    {K : Type ℓ} {V : Type κ} ⦃e : HasEq K⦄ (f : V → V) (d : Dict K V) (k : K)
    → get (map_values f d) k ≡ Option.map f (get d k)
unfolding get
get-map_values f [] k = refl
get-map_values ⦃e⦄ f ((j, v) ∷ d) k = elim (Bool-cases (j == k)) [
  | inl same ↦ rw same
  | inr other ↦ rw other (get-map_values f d k)
]

-- The keys are distinct, and each value stands under the key that it names.
abbrev pub IsKeyed {ℓ κ} :
    {K : Type ℓ} {V : Type κ} ⦃e : HasEq K⦄ → (V → K) → Dict K V → Type (ℓ ⊔ κ)
IsKeyed name [] = Unit
IsKeyed name ((k, v) ∷ d) = (name v ≡ k) × (get d k ≡ none) × IsKeyed name d

module _ {ℓ} {K : Type ℓ} {V : Type 0} ⦃e : HasEq K⦄ where
  pub get-Occurs : (d : Dict K V) (k : K) (v : V) → get d k ≡ some v → Occurs v (values d)
  unfolding get
  get-Occurs [] k v h = cc
  get-Occurs ((j, w) ∷ d) k v h = elim (Bool-cases (j == k)) [
    | inl e ↦ inl (ground arith)
    | inr e ↦ inr (get-Occurs d k v (ground arith))
  ]

  module _ (name : V → K) where
    -- In a dict whose values name their keys, a value is found under its name.
    pub get-name :
        (d : Dict K V) (v : V) → IsKeyed name d → Occurs v (values d) → get d (name v) ≡ some v
    unfolding get
    get-name [] v h m = elim m [ ]
    get-name ((k, w) ∷ d) v h (inl q) = ground (arith, e.decides k (name v))
    get-name ((k, w) ∷ d) v h (inr m) = ground (arith, e.decides k (name v), get-name d v h.2 m)

    pub get-name_eq :
        (d : Dict K V) (k : K) (v : V) → IsKeyed name d → get d k ≡ some v → name v ≡ k
    unfolding get
    get-name_eq [] k v h g = cc
    get-name_eq ((j, w) ∷ d) k v h g =
        ground (arith, e.decides j k, λ (g' : get d k ≡ some v). get-name_eq d k v h.2 g')

    pub put-IsKeyed :
        (d : Dict K V) (k : K) (v : V) → IsKeyed name d → name v ≡ k → IsKeyed name (put d k v)
    unfolding put get
    put-IsKeyed [] k v h q = (q, refl, tt)
    put-IsKeyed ((j, w) ∷ d) k v h q = elim (Bool-cases (j == k)) [
      | inl same ↦ rw same (q ∙ sym ((e.decides j k).0 same), h.1, h.2)
      | inr other ↦ rw other (
        h.0,
        ground (arith, get-put d k j v, e.decides k j, e.decides j k, h.1),
        put-IsKeyed d k v h.2 q,
      )
    ]

    pub pop-IsKeyed : (d : Dict K V) (k : K) → IsKeyed name d → IsKeyed name (pop d k)
    unfolding pop
    pop-IsKeyed [] k h = tt
    pop-IsKeyed ((j, w) ∷ d) k h = elim (Bool-cases (j == k)) [
      | inl same ↦ rw same (pop-IsKeyed d k h.2)
      | inr other ↦ rw other (h.0, ground (arith, get-pop d k j, h.1), pop-IsKeyed d k h.2)
    ]

    pub map_values-IsKeyed :
        (f : V → V) (d : Dict K V)
        → ((v : V) → name (f v) ≡ name v)
        → IsKeyed name d
        → IsKeyed name (map_values f d)
    map_values-IsKeyed f [] same h = tt
    map_values-IsKeyed f ((k, v) ∷ d) same h = (
      same v ∙ h.0,
      get-map_values f d k ∙ ap (Option.map f) h.1,
      map_values-IsKeyed f d same h.2,
    )
