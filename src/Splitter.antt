-- ===== src/Splitter.antt =====
-- src/rag/splitter.py: RecursiveSplitter, which cuts a document into chunks for the search index.
-- A text is the list of its code points; `size` is `chunk_size`.
pub mod Cutting
pub mod Pieces
pub mod Fences
pub mod CodeBlocks
pub mod Merging
pub mod Whole
mod Tests
use ven_agent.Prelude.{
  ℕ, zero, suc, ◌+◌, ◌-◌, Bool, true, false, ◌&&◌, ◌||◌, List, [], ◌∷◌, ◌++◌, map, ◌==◌,
  number_has_eq, if◌then◌else◌, ltb, leb, length, take, drop, slice, concat, all,
}

abbrev pub Text : Type 0
Text = List ℕ

-- The code points that Python's `str.strip` strips.
unfoldable pub is_space : ℕ → Bool
is_space c =
    leb 9 c && leb c 13
    || leb 28 c && leb c 32
    || c == 133
    || c == 160
    || c == 5760
    || leb 8192 c && leb c 8202
    || c == 8232
    || c == 8233
    || c == 8239
    || c == 8287
    || c == 12288

-- `text.strip() == ""`
abbrev pub is_blank : Text → Bool
is_blank text = all is_space text

-- `text.startswith(prefix)`
unfoldable pub starts_with : Text → Text → Bool
starts_with [] text = true
starts_with (p ∷ prefix) [] = false
starts_with (p ∷ prefix) (c ∷ text) = p == c && starts_with prefix text

abbrev pub put_first : ℕ → List Text → List Text
put_first c [] = (c ∷ []) ∷ []
put_first c (part ∷ parts) = (c ∷ part) ∷ parts

-- `text.split(sep)`, after `skip` code points of a separator that was found.
unfoldable pub split_from : Text → ℕ → Text → List Text
unfolding starts_with
split_from sep skip [] = [] ∷ []
split_from sep (suc skip) (c ∷ text) = split_from sep skip text
split_from sep zero (c ∷ text) = elim (starts_with sep (c ∷ text)) [
  | true ↦ [] ∷ split_from sep (length sep - 1) text
  | false ↦ put_first c (split_from sep 0 text)
]

abbrev pub keep_first : Text → List Text → List Text
keep_first sep [] = []
keep_first sep (part ∷ parts) = part ∷ map (λ q. sep ++ q) parts

unfoldable pub split_keeping_sep : Text → Text → List Text
unfolding split_from
split_keeping_sep text [] = text ∷ []
split_keeping_sep text (c ∷ sep) = keep_first (c ∷ sep) (split_from (c ∷ sep) 0 text)

-- `[text[i : i + size] for i in range(0, len(text), size)]`, for a positive size, on fuel.
unfoldable pub hard_split_from : ℕ → ℕ → Text → List Text
hard_split_from size zero text = []
hard_split_from size (suc fuel) [] = []
hard_split_from size (suc fuel) (c ∷ text) =
    take size (c ∷ text) ∷ hard_split_from size fuel (drop size (c ∷ text))

unfoldable pub hard_split_by_rune : ℕ → Text → List Text
unfolding hard_split_from
hard_split_by_rune size text = hard_split_from size (length text) text

abbrev pub unless_blank : Text → List Text
unless_blank text = if is_blank text then [] else text ∷ []

abbrev pub each_part : (Text → List Text) → List Text → List Text
each_part f [] = []
each_part f (part ∷ parts) = f part ++ each_part f parts

-- A text that fits is one piece, unless it is blank; another one is cut by `cut`.
abbrev pub fit_or_cut : ℕ → (Text → List Text) → Text → List Text
fit_or_cut size cut text = elim (leb (length text) size) [
  | true ↦ unless_blank text
  | false ↦ cut text
]

unfoldable pub recursive_split : ℕ → List Text → Text → List Text
unfolding is_space split_keeping_sep hard_split_by_rune
recursive_split size [] text = fit_or_cut size (hard_split_by_rune size) text
recursive_split size ([] ∷ seps) text = fit_or_cut size (hard_split_by_rune size) text
recursive_split size ((c ∷ sep) ∷ seps) text =
    fit_or_cut size
      (λ whole.
        each_part (fit_or_cut size (λ part. recursive_split size seps part))
          (split_keeping_sep whole (c ∷ sep)))
      text

abbrev pub fence : Text
fence = 96 ∷ 96 ∷ 96 ∷ []

-- The positions of ``` at the start of a line, `(?m)^```` : `skip` code points are passed over, and
-- `at_start` tells whether a line starts here.
unfoldable pub fences_from : Bool → ℕ → ℕ → Text → List ℕ
unfolding starts_with
fences_from at_start pos skip [] = []
fences_from at_start pos (suc skip) (c ∷ text) = fences_from (c == 10) (pos + 1) skip text
fences_from at_start pos zero (c ∷ text) = elim (at_start && starts_with fence (c ∷ text)) [
  | true ↦ pos ∷ fences_from (c == 10) (pos + 1) 2 text
  | false ↦ fences_from (c == 10) (pos + 1) 0 text
]

pub record Atom : Type 0 where
  pub text : Text
  pub atomic : Bool

abbrev pub plain : Text → Atom
plain text = record { text = text; atomic = false }

abbrev pub code : Text → Atom
code text = record { text = text; atomic = true }

-- The loop over the pairs of fences, and the text after the last pair.
unfoldable pub pair_fences : Text → ℕ → List ℕ → List Atom
pair_fences text cursor (open_pos ∷ close_start ∷ positions) =
    let close_pos = close_start + 3 in
    let rest = code (slice open_pos close_pos text) ∷ pair_fences text close_pos positions in
    if ltb cursor open_pos then plain (slice cursor open_pos text) ∷ rest else rest
pair_fences text cursor _ = if ltb cursor (length text) then plain (drop cursor text) ∷ [] else []

unfoldable pub protect_code_blocks : Text → List Atom
unfolding fences_from pair_fences
protect_code_blocks text =
    let positions = fences_from true 0 0 text in
    if ltb (length positions) 2 then plain text ∷ [] else pair_fences text 0 positions

-- `flush`
abbrev pub flush : List Text → ℕ → List Text → List Text
flush buf buf_len merged = if ltb 0 buf_len then concat buf ∷ merged else merged

-- The loop of `_merge`, with what it appends to `merged` from here on.
unfoldable pub merge_from : ℕ → List Text → ℕ → List Text → List Text
merge_from size buf buf_len [] = flush buf buf_len []
merge_from size buf buf_len (piece ∷ pieces) = elim (buf_len == 0) [
  | true ↦ merge_from size (buf ++ (piece ∷ [])) (length piece) pieces
  | false ↦ elim (leb (buf_len + length piece) size) [
    | true ↦ merge_from size (buf ++ (piece ∷ [])) (buf_len + length piece) pieces
    | false ↦ flush buf buf_len (merge_from size (piece ∷ []) (length piece) pieces)
  ]
]

unfoldable pub tail_runes : Text → ℕ → Text
tail_runes s n = if leb (length s) n then s else drop (length s - n) s

-- Each chunk but the first one after the end of the chunk before it.
unfoldable pub overlapped : ℕ → Text → List Text → List Text
unfolding tail_runes
overlapped overlap previous [] = []
overlapped overlap previous (chunk ∷ chunks) =
    (tail_runes previous overlap ++ chunk) ∷ overlapped overlap chunk chunks

unfoldable pub with_overlap : ℕ → List Text → List Text
unfolding overlapped
with_overlap overlap [] = []
with_overlap overlap (chunk ∷ chunks) =
    if ltb 0 overlap then chunk ∷ overlapped overlap chunk chunks else chunk ∷ chunks

unfoldable pub merge : ℕ → ℕ → List Text → List Text
unfolding merge_from with_overlap
merge size overlap pieces = with_overlap overlap (merge_from size [] 0 pieces)

unfoldable pub pieces_of : ℕ → List Text → List Atom → List Text
unfolding recursive_split
pieces_of size separators [] = []
pieces_of size separators (atom ∷ atoms) =
    (if atom.atomic then atom.text ∷ [] else recursive_split size separators atom.text)
    ++ pieces_of size separators atoms

unfoldable pub split : ℕ → ℕ → List Text → Text → List Text
unfolding protect_code_blocks pieces_of merge
split size overlap separators text =
    merge size overlap (pieces_of size separators (protect_code_blocks text))

abbrev pub default_separators : List Text
default_separators =
    (10 ∷ 35 ∷ 35 ∷ 32 ∷ [])
    ∷ (10 ∷ 35 ∷ 35 ∷ 35 ∷ 32 ∷ [])
    ∷ (10 ∷ 35 ∷ 35 ∷ 35 ∷ 35 ∷ 32 ∷ [])
    ∷ (10 ∷ 35 ∷ 32 ∷ [])
    ∷ (10 ∷ 10 ∷ [])
    ∷ (10 ∷ [])
    ∷ (12290 ∷ [])
    ∷ (65281 ∷ [])
    ∷ (65311 ∷ [])
    ∷ (46 ∷ 32 ∷ [])
    ∷ (33 ∷ 32 ∷ [])
    ∷ (63 ∷ 32 ∷ [])
    ∷ (65307 ∷ [])
    ∷ (59 ∷ 32 ∷ [])
    ∷ (65292 ∷ [])
    ∷ (44 ∷ 32 ∷ [])
    ∷ (32 ∷ [])
    ∷ []
    ∷ []
