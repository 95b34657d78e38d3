-- ===== src/Splitter/CodeBlocks.antt =====
-- src/rag/splitter.py `_protect_code_blocks`: what the code blocks of a text are, told without the loop
-- of the code, and that its atomic atoms are such blocks.
use ven_agent.Prelude.{
  ℕ, zero, suc, ◌+◌, ◌≡◌, refl, sym, ap, ◌∙◌, subst, inl, inr, Bool, true, false, ◌&&◌, List, [],
  ◌∷◌, ◌++◌, arith, ◌==◌, number_has_eq, Bool-cases, if◌then◌else◌, length, drop, slice, ltb,
  Occurs,
}
use ven_agent.Splitter.{
  Text, Atom, plain, fence, starts_with, fences_from, pair_fences, protect_code_blocks,
}
use ven_agent.Splitter.Fences.{fences_from-hit, fences_from-miss}

-- Every position, counted from `pos`, at which a line starts with three backticks; `line_start` tells
-- whether the text itself starts a line.
abbrev pub fence_lines : Bool → ℕ → Text → List ℕ
fence_lines line_start pos [] = []
fence_lines line_start pos (c ∷ text) =
    let rest = fence_lines (c == 10) (pos + 1) text in
    if line_start && starts_with fence (c ∷ text) then pos ∷ rest else rest

-- `d` is the text from a fence to the end of the next one, where the number of the fences before it is
-- even: it opens a block, and the next one closes it. `fences` are the positions of all fences.
pub record IsPaired (text d : Text) (fences : List ℕ) : Type 0 where
  pub earlier : List ℕ
  pub opening : ℕ
  pub closing : ℕ
  pub later : List ℕ
  pub consecutive : fences ≡ earlier ++ opening ∷ closing ∷ later
  pub pairs_before : ℕ
  pub paired : length earlier ≡ pairs_before + pairs_before
  pub block : d ≡ slice opening (closing + 3) text

abbrev pub IsCodeBlock : Text → Text → Type 0
IsCodeBlock text d = IsPaired text d (fence_lines true 0 text)

-- No line starts at the next code points, as many as `skip` says.
abbrev IsQuiet : ℕ → Bool → Text → Type 0
IsQuiet zero line_start text = Unit
IsQuiet (suc skip) line_start [] = Unit
IsQuiet (suc skip) line_start (c ∷ text) = (line_start ≡ false) × IsQuiet skip (c == 10) text

fence-IsQuiet :
    (c : ℕ) (text : Text) → starts_with fence (c ∷ text) ≡ true → IsQuiet 2 (c == 10) text
unfolding starts_with
fence-IsQuiet c [] h = tt
fence-IsQuiet c (b ∷ []) h = absurd (ground arith)
fence-IsQuiet c (b ∷ a ∷ text) h =
    let here : 96 ≡ c = ground (arith, number_has_eq.decides 96 c) in
    let next : 96 ≡ b = ground (arith, number_has_eq.decides 96 b) in
    (ap (λ x. x == 10) (sym here), (ap (λ x. x == 10) (sym next), tt))

fences_from-fence_lines :
    (line_start : Bool) (pos skip : ℕ) (text : Text)
    → IsQuiet skip line_start text
    → fences_from line_start pos skip text ≡ fence_lines line_start pos text
unfolding fences_from
fences_from-fence_lines line_start pos skip [] q = refl
fences_from-fence_lines line_start pos (suc skip) (c ∷ text) q =
    rw q.0 (fences_from-fence_lines (c == 10) (pos + 1) skip text q.1)
fences_from-fence_lines line_start pos zero (c ∷ text) q =
    elim (Bool-cases (line_start && starts_with fence (c ∷ text))) [
      | inl hit ↦
          let starts : starts_with fence (c ∷ text) ≡ true = ground (arith, hit) in
          fences_from-hit line_start pos c text hit
          ∙ ap (λ ps. pos ∷ ps)
              (fences_from-fence_lines (c == 10) (pos + 1) 2 text (fence-IsQuiet c text starts))
          ∙ rw hit refl
      | inr miss ↦
          fences_from-miss line_start pos c text miss
          ∙ fences_from-fence_lines (c == 10) (pos + 1) 0 text tt
          ∙ rw miss refl
    ]

atomic_after_gap :
    (gap : Bool) (between : Text) (rest : List Atom) (atom : Atom)
    → Occurs atom (if gap then plain between ∷ rest else rest)
    → atom.atomic ≡ true
    → Occurs atom rest
atomic_after_gap true between rest atom (inl e) whole =
    absurd (cc (sym (ap (λ a. a.atomic) e) ∙ whole))
atomic_after_gap true between rest atom (inr m) whole = m
atomic_after_gap false between rest atom m whole = m

last_gap-IsPlain :
    (gap : Bool) (left : Text) (atom : Atom)
    → Occurs atom (if gap then plain left ∷ [] else [])
    → ¬ (atom.atomic ≡ true)
last_gap-IsPlain gap left atom m whole = elim (atomic_after_gap gap left [] atom m whole) [ ]

pair_fences-IsPaired :
    (text : Text) (cursor : ℕ) (positions : List ℕ) (atom : Atom)
    → Occurs atom (pair_fences text cursor positions)
    → atom.atomic ≡ true
    → IsPaired text atom.text positions
unfolding pair_fences
pair_fences-IsPaired text cursor [] atom m whole =
    absurd (last_gap-IsPlain (ltb cursor (length text)) (drop cursor text) atom m whole)
pair_fences-IsPaired text cursor (p ∷ []) atom m whole =
    absurd (last_gap-IsPlain (ltb cursor (length text)) (drop cursor text) atom m whole)
pair_fences-IsPaired text cursor (open_pos ∷ close_start ∷ positions) atom m whole =
    elim (atomic_after_gap (ltb cursor open_pos) (slice cursor open_pos text) _ atom m whole) [
      | inl here ↦ record {
        earlier = [];
        opening = open_pos;
        closing = close_start;
        later = positions;
        consecutive = refl;
        pairs_before = 0;
        paired = refl;
        block = ap (λ a. a.text) here;
      }
      | inr later ↦
          let b = pair_fences-IsPaired text (close_start + 3) positions atom later whole in
          record {
            earlier = open_pos ∷ close_start ∷ b.earlier;
            opening = b.opening;
            closing = b.closing;
            later = b.later;
            consecutive = ap (λ ps. open_pos ∷ close_start ∷ ps) b.consecutive;
            pairs_before = b.pairs_before + 1;
            paired = omega (arith, b.paired);
            block = b.block;
          }
    ]

-- What the code keeps whole is a code block.
pub protect_code_blocks-IsCodeBlock :
    (text : Text) (atom : Atom)
    → Occurs atom (protect_code_blocks text)
    → atom.atomic ≡ true
    → IsCodeBlock text atom.text
unfolding protect_code_blocks
protect_code_blocks-IsCodeBlock text atom m whole =
    let positions = fences_from true 0 0 text in
    elim (Bool-cases (ltb (length positions) 2)) [
      | inl few ↦ absurd (elim (rw few at m) [
        | inl e ↦ cc (sym (ap (λ a. a.atomic) e) ∙ whole)
        | inr none_left ↦ none_left
      ])
      | inr pairs ↦
          subst (IsPaired text atom.text) (fences_from-fence_lines true 0 0 text tt)
            (pair_fences-IsPaired text 0 positions atom (rw pairs at m) whole)
    ]
