-- ===== src/Splitter/Fences.antt =====
-- src/rag/splitter.py `_protect_code_blocks`: the atoms are the text, cut at pairs of fences.
use ven_agent.Prelude.{
  ℕ, zero, suc, ◌+◌, ◌≤◌, ◌≡◌, sym, ap, subst, ◌∙◌, inl, inr, Bool, true, false, ◌&&◌, List, [],
  ◌∷◌, ◌++◌, map, arith, ◌==◌, number_has_eq, Bool-cases, if◌then◌else◌, length, drop, slice,
  concat, append-nil, drop-slice, drop_all, ltb,
}
use ven_agent.Splitter.{
  Text, Atom, plain, fence, starts_with, fences_from, pair_fences, protect_code_blocks,
}

abbrev pub whole_of : List Atom → Text
whole_of atoms = concat (map (λ a. a.text) atoms)

-- Positions of fences, from a position on, none of which overlaps the one before it.
abbrev IsSpaced : ℕ → List ℕ → Type 0
IsSpaced from [] = Unit
IsSpaced from (p ∷ ps) = (from ≤ p) × IsSpaced (p + 3) ps

IsSpaced-earlier : (a b : ℕ) (ps : List ℕ) → a ≤ b → IsSpaced b ps → IsSpaced a ps
IsSpaced-earlier a b [] h k = tt
IsSpaced-earlier a b (p ∷ ps) h k = (omega (arith, h, k.0), k.1)

pub fences_from-hit :
    (at_start : Bool) (pos c : ℕ) (text : Text)
    → at_start && starts_with fence (c ∷ text) ≡ true
    → fences_from at_start pos 0 (c ∷ text) ≡ pos ∷ fences_from (c == 10) (pos + 1) 2 text
unfolding fences_from
fences_from-hit at_start pos c text hit =
    ap
      (λ b. elim b [
        | true ↦ pos ∷ fences_from (c == 10) (pos + 1) 2 text
        | false ↦ fences_from (c == 10) (pos + 1) 0 text
      ])
      hit

pub fences_from-miss :
    (at_start : Bool) (pos c : ℕ) (text : Text)
    → at_start && starts_with fence (c ∷ text) ≡ false
    → fences_from at_start pos 0 (c ∷ text) ≡ fences_from (c == 10) (pos + 1) 0 text
unfolding fences_from
fences_from-miss at_start pos c text miss =
    ap
      (λ b. elim b [
        | true ↦ pos ∷ fences_from (c == 10) (pos + 1) 2 text
        | false ↦ fences_from (c == 10) (pos + 1) 0 text
      ])
      miss

fences_from-IsSpaced :
    (at_start : Bool) (pos skip : ℕ) (text : Text)
    → IsSpaced (pos + skip) (fences_from at_start pos skip text)
unfolding fences_from
fences_from-IsSpaced at_start pos skip [] = tt
fences_from-IsSpaced at_start pos (suc skip) (c ∷ text) =
    IsSpaced-earlier (pos + suc skip) (pos + 1 + skip) _ (omega arith)
      (fences_from-IsSpaced (c == 10) (pos + 1) skip text)
fences_from-IsSpaced at_start pos zero (c ∷ text) =
    elim (Bool-cases (at_start && starts_with fence (c ∷ text))) [
      | inl hit ↦ subst (IsSpaced (pos + 0)) (sym (fences_from-hit at_start pos c text hit)) (
        omega arith,
        IsSpaced-earlier (pos + 3) (pos + 1 + 2) _ (omega arith)
            (fences_from-IsSpaced (c == 10) (pos + 1) 2 text),
      )
      | inr miss ↦ subst (IsSpaced (pos + 0)) (sym (fences_from-miss at_start pos c text miss)) (
          IsSpaced-earlier (pos + 0) (pos + 1 + 0) _ (omega arith)
            (fences_from-IsSpaced (c == 10) (pos + 1) 0 text))
    ]

rest_of_text :
    (text : Text) (cursor : ℕ)
    → whole_of (if ltb cursor (length text) then plain (drop cursor text) ∷ [] else [])
      ≡ drop cursor text
rest_of_text text cursor = elim (Bool-cases (ltb cursor (length text))) [
  | inl before ↦ rw before (append-nil (drop cursor text))
  | inr past ↦ rw past (sym (drop_all cursor text (ground arith)))
]

text_between :
    (text : Text) (cursor open_pos : ℕ) (rest : List Atom)
    → cursor ≤ open_pos
    → whole_of rest ≡ drop open_pos text
    → whole_of (if ltb cursor open_pos then plain (slice cursor open_pos text) ∷ rest else rest)
      ≡ drop cursor text
text_between text cursor open_pos rest h k = elim (Bool-cases (ltb cursor open_pos)) [
  | inl before ↦
      rw before (ap (λ t. slice cursor open_pos text ++ t) k ∙ drop-slice cursor open_pos text h)
  | inr at_once ↦
      let same : open_pos ≡ cursor = ground (arith, h) in
      rw at_once (k ∙ ap (λ n. drop n text) same)
]

whole_of-pair_fences :
    (text : Text) (cursor : ℕ) (positions : List ℕ)
    → IsSpaced cursor positions
    → whole_of (pair_fences text cursor positions) ≡ drop cursor text
unfolding pair_fences
whole_of-pair_fences text cursor [] h = rest_of_text text cursor
whole_of-pair_fences text cursor (p ∷ []) h = rest_of_text text cursor
whole_of-pair_fences text cursor (open_pos ∷ close_start ∷ positions) h =
    text_between text cursor open_pos _ h.0 (
      ap (λ t. slice open_pos (close_start + 3) text ++ t)
        (whole_of-pair_fences text (close_start + 3) positions h.1.1)
      ∙ drop-slice open_pos (close_start + 3) text (omega (arith, h.1.0)))

-- The atoms, put together, are the text.
pub whole_of-protect_code_blocks : (text : Text) → whole_of (protect_code_blocks text) ≡ text
unfolding protect_code_blocks
whole_of-protect_code_blocks text =
    let positions = fences_from true 0 0 text in
    elim (Bool-cases (ltb (length positions) 2)) [
      | inl few ↦ rw few (append-nil text)
      | inr pairs ↦
          rw pairs (whole_of-pair_fences text 0 positions (fences_from-IsSpaced true 0 0 text))
    ]
