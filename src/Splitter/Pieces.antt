-- ===== src/Splitter/Pieces.antt =====
-- The pieces of src/rag/splitter.py `_recursive_split`: none is too long, and no visible text is lost.
use ven_agent.Prelude.{
  ℕ, ◌≤◌, ◌≡◌, refl, sym, ap, subst, ◌∙◌, inl, inr, true, false, not, List, [], ◌∷◌, ◌++◌, arith,
  Bool-cases, length, concat, select, All, All-append, append-nil, concat-append, select-append,
  leb,
}
use ven_agent.Splitter.{
  Text, is_space, is_blank, split_keeping_sep, hard_split_by_rune, unless_blank, each_part,
  fit_or_cut, recursive_split,
}
use ven_agent.Splitter.Cutting.{
  concat-split_keeping_sep, concat-hard_split_from, hard_split_from-bounded,
}

-- The code points that are not spaces.
abbrev pub visible : Text → Text
visible text = select (λ c. not (is_space c)) text

abbrev pub IsWithin : ℕ → Text → Type 0
IsWithin bound text = length text ≤ bound

visible-blank : (text : Text) → is_blank text ≡ true → visible text ≡ []
visible-blank [] h = refl
visible-blank (c ∷ text) h = elim (Bool-cases (is_space c)) [
  | inl space ↦ rw space (visible-blank text (ground arith))
  | inr other ↦ absurd (ground arith)
]

visible-unless_blank : (text : Text) → visible (concat (unless_blank text)) ≡ visible text
visible-unless_blank text = elim (Bool-cases (is_blank text)) [
  | inl blank ↦ rw blank (sym (visible-blank text blank))
  | inr shown ↦ rw shown (ap visible (append-nil text))
]

unless_blank-IsWithin :
    (size : ℕ) (text : Text) → length text ≤ size → All (IsWithin size) (unless_blank text)
unless_blank-IsWithin size text h = elim (Bool-cases (is_blank text)) [
  | inl blank ↦ rw blank tt
  | inr shown ↦ rw shown (h, tt)
]

module _ (size : ℕ) (cut : Text → List Text) where
  fit_or_cut-fits :
      (text : Text) → leb (length text) size ≡ true → fit_or_cut size cut text ≡ unless_blank text
  fit_or_cut-fits text fits = ap (λ b. elim b [ true ↦ unless_blank text | false ↦ cut text ]) fits

  fit_or_cut-long :
      (text : Text) → leb (length text) size ≡ false → fit_or_cut size cut text ≡ cut text
  fit_or_cut-long text long = ap (λ b. elim b [ true ↦ unless_blank text | false ↦ cut text ]) long

  fit_or_cut-IsWithin :
      ((text : Text) → All (IsWithin size) (cut text))
      → (text : Text) → All (IsWithin size) (fit_or_cut size cut text)
  fit_or_cut-IsWithin h text = elim (Bool-cases (leb (length text) size)) [
    | inl fits ↦
        subst (All (IsWithin size)) (sym (fit_or_cut-fits text fits))
          (unless_blank-IsWithin size text (ground arith))
    | inr long ↦ subst (All (IsWithin size)) (sym (fit_or_cut-long text long)) (h text)
  ]

  fit_or_cut-visible :
      ((text : Text) → visible (concat (cut text)) ≡ visible text)
      → (text : Text) → visible (concat (fit_or_cut size cut text)) ≡ visible text
  fit_or_cut-visible h text = elim (Bool-cases (leb (length text) size)) [
    | inl fits ↦
        ap (λ t. visible (concat t)) (fit_or_cut-fits text fits) ∙ visible-unless_blank text
    | inr long ↦ ap (λ t. visible (concat t)) (fit_or_cut-long text long) ∙ h text
  ]

module _ (f : Text → List Text) where
  each_part-IsWithin :
      (size : ℕ) (parts : List Text)
      → ((text : Text) → All (IsWithin size) (f text))
      → All (IsWithin size) (each_part f parts)
  each_part-IsWithin size [] h = tt
  each_part-IsWithin size (part ∷ parts) h =
      All-append (IsWithin size) (f part) (each_part f parts) (h part)
        (each_part-IsWithin size parts h)

  each_part-visible :
      (parts : List Text)
      → ((text : Text) → visible (concat (f text)) ≡ visible text)
      → visible (concat (each_part f parts)) ≡ visible (concat parts)
  each_part-visible [] h = refl
  each_part-visible (part ∷ parts) h =
      ap visible (concat-append (f part) (each_part f parts))
      ∙ select-append _ (concat (f part)) (concat (each_part f parts))
      ∙ ap (λ t. t ++ visible (concat (each_part f parts))) (h part)
      ∙ ap (λ t. visible part ++ t) (each_part-visible parts h)
      ∙ sym (select-append _ part (concat parts))

hard_split-visible :
    (size : ℕ)
    → 1 ≤ size
    → (text : Text) → visible (concat (hard_split_by_rune size text)) ≡ visible text
unfolding hard_split_by_rune
hard_split-visible size h text =
    ap visible (concat-hard_split_from size (length text) text h (omega arith))

hard_split-IsWithin : (size : ℕ) (text : Text) → All (IsWithin size) (hard_split_by_rune size text)
unfolding hard_split_by_rune
hard_split-IsWithin size text = hard_split_from-bounded size (length text) text

-- Every piece fits, whatever the separators.
pub recursive_split-IsWithin :
    (size : ℕ) (seps : List Text) (text : Text)
    → All (IsWithin size) (recursive_split size seps text)
unfolding recursive_split
recursive_split-IsWithin size [] text = fit_or_cut-IsWithin size _ (hard_split-IsWithin size) text
recursive_split-IsWithin size ([] ∷ seps) text =
    fit_or_cut-IsWithin size _ (hard_split-IsWithin size) text
recursive_split-IsWithin size ((c ∷ sep) ∷ seps) text =
    fit_or_cut-IsWithin size _
      (λ whole.
        each_part-IsWithin _ size (split_keeping_sep whole (c ∷ sep))
          (fit_or_cut-IsWithin size _ (recursive_split-IsWithin size seps)))
      text

-- The pieces have the visible text of the whole, in its order, whatever the separators.
pub recursive_split-visible :
    (size : ℕ) (seps : List Text) (text : Text)
    → 1 ≤ size
    → visible (concat (recursive_split size seps text)) ≡ visible text
unfolding recursive_split
recursive_split-visible size [] text h =
    fit_or_cut-visible size (hard_split_by_rune size) (hard_split-visible size h) text
recursive_split-visible size ([] ∷ seps) text h =
    fit_or_cut-visible size (hard_split_by_rune size) (hard_split-visible size h) text
recursive_split-visible size ((c ∷ sep) ∷ seps) text h =
    let each : Text → List Text = fit_or_cut size (recursive_split size seps) in
    fit_or_cut-visible size (λ whole. each_part each (split_keeping_sep whole (c ∷ sep)))
      (λ whole.
        each_part-visible each (split_keeping_sep whole (c ∷ sep)) (
          fit_or_cut-visible size (recursive_split size seps)
            (λ part. recursive_split-visible size seps part h))
        ∙ ap visible (concat-split_keeping_sep whole (c ∷ sep)))
      text
