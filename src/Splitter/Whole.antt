-- ===== src/Splitter/Whole.antt =====
-- src/rag/splitter.py `split`: what the chunks of a document are.
use ven_agent.Prelude.{
  ℕ, ◌≤◌, ◌≡◌, ◌⊎◌, refl, sym, ap, ◌∙◌, inl, inr, true, List, [], ◌∷◌, ◌++◌, Bool-cases,
  if◌then◌else◌, length, concat, append-nil, concat-append, select-append, Occurs, All, All-append,
  All-map,
}
use ven_agent.Splitter.{Text, Atom, recursive_split, protect_code_blocks, pieces_of, split}
use ven_agent.Splitter.Pieces.{visible, IsWithin, recursive_split-IsWithin, recursive_split-visible}
use ven_agent.Splitter.Fences.{whole_of, whole_of-protect_code_blocks}
use ven_agent.Splitter.CodeBlocks.{IsCodeBlock, protect_code_blocks-IsCodeBlock}
use ven_agent.Splitter.Merging.{concat-merge, HasTail, merge-HasTail}

pieces_of-All :
    (size : ℕ) (seps : List Text) (Q : Text → Type 0) (atoms : List Atom)
    → ((c : Text) → length c ≤ size → Q c)
    → ((atom : Atom) → Occurs atom atoms → atom.atomic ≡ true → Q atom.text)
    → All Q (pieces_of size seps atoms)
unfolding pieces_of
pieces_of-All size seps Q [] fits h = tt
pieces_of-All size seps Q (atom ∷ atoms) fits h =
    All-append Q _ (pieces_of size seps atoms)
      (elim (Bool-cases atom.atomic) [
        | inl whole ↦ rw whole (h atom (inl refl) whole, tt)
        | inr cut ↦
            rw cut (All-map (IsWithin size) Q _ fits (recursive_split-IsWithin size seps atom.text))
      ])
      (pieces_of-All size seps Q atoms fits (λ a m. h a (inr m)))

pieces_of-visible :
    (size : ℕ) (seps : List Text) (atoms : List Atom)
    → 1 ≤ size
    → visible (concat (pieces_of size seps atoms)) ≡ visible (whole_of atoms)
unfolding pieces_of
pieces_of-visible size seps [] h = refl
pieces_of-visible size seps (atom ∷ atoms) h =
    let parts = if atom.atomic then atom.text ∷ [] else recursive_split size seps atom.text in
    let here : visible (concat parts) ≡ visible atom.text = elim (Bool-cases atom.atomic) [
      | inl whole ↦ rw whole (ap visible (append-nil atom.text))
      | inr cut ↦ rw cut (recursive_split-visible size seps atom.text h)
    ] in
    ap visible (concat-append parts (pieces_of size seps atoms))
    ∙ select-append _ (concat parts) (concat (pieces_of size seps atoms))
    ∙ ap (λ t. t ++ visible (concat (pieces_of size seps atoms))) here
    ∙ ap (λ t. visible atom.text ++ t) (pieces_of-visible size seps atoms h)
    ∙ sym (select-append _ atom.text (whole_of atoms))

-- Every chunk is at most `overlap` code points, and then at most `chunk_size` code points or one whole code
-- block of the text, whatever the separators. A code block goes from a fence, three backticks that a line
-- starts with, to the end of the next fence, where an even number of fences stands before the first one.
pub split-bounded :
    (size overlap : ℕ) (seps : List Text) (text : Text)
    → All
        (HasTail overlap (λ d. (length d ≤ size) ⊎ IsCodeBlock text d))
        (split size overlap seps text)
unfolding split
split-bounded size overlap seps text =
    merge-HasTail size overlap _ (pieces_of size seps (protect_code_blocks text)) (λ c h. inl h)
      (pieces_of-All size seps _ (protect_code_blocks text) (λ c h. inl h)
        (λ atom m whole. inr (protect_code_blocks-IsCodeBlock text atom m whole)))

-- Without overlap and with a positive `chunk_size`, the chunks put together have the visible text of the
-- document, in its order: what `split` drops are spaces, whatever the separators.
pub split-visible :
    (size : ℕ) (seps : List Text) (text : Text)
    → 1 ≤ size
    → visible (concat (split size 0 seps text)) ≡ visible text
unfolding split
split-visible size seps text h =
    ap visible (concat-merge size (pieces_of size seps (protect_code_blocks text)))
    ∙ pieces_of-visible size seps (protect_code_blocks text) h
    ∙ ap visible (whole_of-protect_code_blocks text)
