-- ===== src/Splitter/Tests.antt =====
-- A short text with a block of code, and the theorems at it.
use ven_agent.Prelude.{◌≤◌, ◌≡◌, ◌⊎◌, refl, List, [], ◌∷◌, arith, length, concat, All}
use ven_agent.Splitter.{
  Text, is_space, starts_with, split_from, split_keeping_sep, hard_split_from, hard_split_by_rune,
  recursive_split, fences_from, pair_fences, protect_code_blocks, merge_from, tail_runes,
  overlapped, with_overlap, merge, pieces_of, split,
}
use ven_agent.Splitter.CodeBlocks.{IsCodeBlock}
use ven_agent.Splitter.Pieces.{visible}
use ven_agent.Splitter.Merging.{HasTail}
use ven_agent.Splitter.Whole.{split-bounded, split-visible}

-- "ab c\n```x```\nde"
abbrev note : Text
note = 97 ∷ 98 ∷ 32 ∷ 99 ∷ 10 ∷ 96 ∷ 96 ∷ 96 ∷ 120 ∷ 10 ∷ 96 ∷ 96 ∷ 96 ∷ 10 ∷ 100 ∷ 101 ∷ []

abbrev separators : List Text
separators = (10 ∷ []) ∷ (32 ∷ []) ∷ [] ∷ []

-- "ab", " c", the block, and "\nde", each but the first one after the last code point before it.
note_chunks :
    split 3 1 separators note
    ≡ (97 ∷ 98 ∷ [])
      ∷ (98 ∷ 32 ∷ 99 ∷ [])
      ∷ (99 ∷ 96 ∷ 96 ∷ 96 ∷ 120 ∷ 10 ∷ 96 ∷ 96 ∷ 96 ∷ [])
      ∷ (96 ∷ 10 ∷ 100 ∷ 101 ∷ [])
      ∷ []
unfolding split merge with_overlap overlapped tail_runes merge_from pieces_of protect_code_blocks
    pair_fences fences_from recursive_split hard_split_by_rune hard_split_from split_keeping_sep
    split_from starts_with is_space
note_chunks = refl

split-bounded_example :
    All (HasTail 1 (λ d. (length d ≤ 3) ⊎ IsCodeBlock note d)) (split 3 1 separators note)
split-bounded_example = split-bounded 3 1 separators note

split-visible_example : visible (concat (split 3 0 separators note)) ≡ visible note
split-visible_example = split-visible 3 separators note (omega arith)
