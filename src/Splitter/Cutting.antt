-- ===== src/Splitter/Cutting.antt =====
-- What src/rag/splitter.py keeps of a text when it cuts it: every code point that is not a space.
use ven_agent.Prelude.{
  ℕ, zero, suc, ◌-◌, ◌≤◌, ◌≡◌, refl, sym, ap, ◌∙◌, inl, inr, true, false, List, [], ◌∷◌, ◌++◌, map,
  arith, number_has_eq, Bool-cases, length, take, drop, concat, All, append-nil, append_assoc,
  take-drop, length-drop, length-take-le,
}
use ven_agent.Splitter.{
  Text, starts_with, split_from, keep_first, put_first, split_keeping_sep, hard_split_from,
}

starts_with-drop :
    (sep text : Text) → starts_with sep text ≡ true → sep ++ drop (length sep) text ≡ text
unfolding starts_with
starts_with-drop [] text h = refl
starts_with-drop (p ∷ sep) [] h = absurd (ground arith)
starts_with-drop (p ∷ sep) (c ∷ text) h =
    let same : p ≡ c = ground (arith, number_has_eq.decides p c) in
    ap (λ i. i ∷ (sep ++ drop (length sep) text)) same
    ∙ ap (λ t. c ∷ t) (starts_with-drop sep text (ground arith))

concat-put_first :
    (sep : Text) (c : ℕ) (parts : List Text)
    → concat (keep_first sep (put_first c parts)) ≡ c ∷ concat (keep_first sep parts)
concat-put_first sep c [] = refl
concat-put_first sep c (part ∷ parts) = refl

-- A separator stands before every part but the first one, so before all parts if one is put ahead.
concat-all_kept :
    (sep : Text) (part : Text) (parts : List Text)
    → concat (keep_first sep ([] ∷ part ∷ parts)) ≡ sep ++ concat (keep_first sep (part ∷ parts))
concat-all_kept sep part parts = append_assoc sep part (concat (map (λ q. sep ++ q) parts))

abbrev IsPart : List Text → Type 0
IsPart parts = (part : Text) × (rest : List Text) × (parts ≡ part ∷ rest)

put_first-IsPart : (c : ℕ) (parts : List Text) → IsPart (put_first c parts)
put_first-IsPart c [] = (_, _, refl)
put_first-IsPart c (part ∷ parts) = (_, _, refl)

split_from-found :
    (sep : Text) (c : ℕ) (text : Text)
    → starts_with sep (c ∷ text) ≡ true
    → split_from sep 0 (c ∷ text) ≡ [] ∷ split_from sep (length sep - 1) text
unfolding split_from
split_from-found sep c text found = rw (split_from, found) refl

split_from-missed :
    (sep : Text) (c : ℕ) (text : Text)
    → starts_with sep (c ∷ text) ≡ false
    → split_from sep 0 (c ∷ text) ≡ put_first c (split_from sep 0 text)
unfolding split_from
split_from-missed sep c text missed = rw (split_from, missed) refl

split_from-IsPart : (sep : Text) (skip : ℕ) (text : Text) → IsPart (split_from sep skip text)
unfolding split_from
split_from-IsPart sep skip [] = ([], [], refl)
split_from-IsPart sep (suc skip) (c ∷ text) = split_from-IsPart sep skip text
split_from-IsPart sep zero (c ∷ text) = elim (Bool-cases (starts_with sep (c ∷ text))) [
  | inl found ↦ (_, _, split_from-found sep c text found)
  | inr none_here ↦
      rw (split_from-missed sep c text none_here) (put_first-IsPart c (split_from sep 0 text))
]

concat-split_from :
    (p : ℕ) (sep : Text) (skip : ℕ) (text : Text)
    → concat (keep_first (p ∷ sep) (split_from (p ∷ sep) skip text)) ≡ drop skip text
unfolding split_from
concat-split_from p sep zero [] = refl
concat-split_from p sep (suc skip) [] = refl
concat-split_from p sep (suc skip) (c ∷ text) = concat-split_from p sep skip text
concat-split_from p sep zero (c ∷ text) = elim (Bool-cases (starts_with (p ∷ sep) (c ∷ text))) [
  | inl found ↦
      let (part, parts, shape) = split_from-IsPart (p ∷ sep) (length sep) text in
      let less : suc (length sep) - 1 ≡ length sep = omega arith in
      let rest = concat-split_from p sep (length sep) text in
      rw (split_from-found (p ∷ sep) c text found, less)
        (ap (λ ps. concat (keep_first (p ∷ sep) ([] ∷ ps))) shape
          ∙ concat-all_kept (p ∷ sep) part parts
          ∙ ap (λ ps. (p ∷ sep) ++ concat (keep_first (p ∷ sep) ps)) (sym shape)
          ∙ ap (λ t. (p ∷ sep) ++ t) rest
          ∙ starts_with-drop (p ∷ sep) (c ∷ text) found)
  | inr none_here ↦ rw (split_from-missed (p ∷ sep) c text none_here) (
      concat-put_first (p ∷ sep) c (split_from (p ∷ sep) 0 text)
      ∙ ap (λ t. c ∷ t) (concat-split_from p sep 0 text))
]

-- Cutting at a separator keeps the text.
pub concat-split_keeping_sep : (text sep : Text) → concat (split_keeping_sep text sep) ≡ text
unfolding split_keeping_sep
concat-split_keeping_sep text [] = append-nil text
concat-split_keeping_sep text (c ∷ sep) = concat-split_from c sep 0 text

-- Cutting into pieces of a positive size keeps the text, and the fuel is enough.
pub concat-hard_split_from :
    (size fuel : ℕ) (text : Text)
    → 1 ≤ size
    → length text ≤ fuel
    → concat (hard_split_from size fuel text) ≡ text
unfolding hard_split_from
concat-hard_split_from size zero [] h k = refl
concat-hard_split_from size zero (c ∷ text) h k = absurd (omega (arith, k))
concat-hard_split_from size (suc fuel) [] h k = refl
concat-hard_split_from size (suc fuel) (c ∷ text) h k =
    ap (λ t. take size (c ∷ text) ++ t)
      (concat-hard_split_from size fuel (drop size (c ∷ text)) h
        (omega (arith, length-drop size (c ∷ text), h, k)))
    ∙ take-drop size (c ∷ text)

pub hard_split_from-bounded :
    (size fuel : ℕ) (text : Text)
    → All (λ piece. length piece ≤ size) (hard_split_from size fuel text)
unfolding hard_split_from
hard_split_from-bounded size zero text = tt
hard_split_from-bounded size (suc fuel) [] = tt
hard_split_from-bounded size (suc fuel) (c ∷ text) =
    (length-take-le size (c ∷ text), hard_split_from-bounded size fuel (drop size (c ∷ text)))
