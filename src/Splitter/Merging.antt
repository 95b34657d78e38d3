-- ===== src/Splitter/Merging.antt =====
-- src/rag/splitter.py `_merge`: the merged chunks are the pieces in their order, and stay within the size.
use ven_agent.Prelude.{
  ℕ, ◌+◌, ◌-◌, ◌≤◌, ◌≡◌, ◌⊎◌, refl, sym, ap, subst, ◌∙◌, inl, inr, true, false, List, [], ◌∷◌, ◌++◌,
  arith, ◌==◌, number_has_eq, Bool-cases, length, length-append, length-drop, concat, append-nil,
  append_assoc, concat-append, All, All-map, ltb, leb,
}
use ven_agent.Splitter.{Text, flush, merge_from, tail_runes, overlapped, with_overlap, merge}

length-concat_snoc :
    (buf : List Text) (piece : Text)
    → length (concat (buf ++ (piece ∷ []))) ≡ length (concat buf) + length piece
length-concat_snoc buf piece =
    ap length (concat-append buf (piece ∷ []) ∙ ap (λ t. concat buf ++ t) (append-nil piece))
    ∙ length-append (concat buf) piece

no_text : (text : Text) → length text ≡ 0 → text ≡ []
no_text [] h = refl
no_text (c ∷ text) h = absurd (omega (arith, h))

concat-flush :
    (buf : List Text) (n : ℕ) (merged : List Text)
    → length (concat buf) ≡ n
    → concat (flush buf n merged) ≡ concat buf ++ concat merged
concat-flush buf n merged h = elim (Bool-cases (ltb 0 n)) [
  | inl some_text ↦ rw some_text refl
  | inr nothing ↦
      let none_kept = no_text (concat buf) (ground (arith, h)) in
      rw nothing (ap (λ t. t ++ concat merged) (sym none_kept))
]

module _ (size : ℕ) (buf : List Text) (n : ℕ) (piece : Text) (pieces : List Text) where
  merge_from-first :
      (n == 0) ≡ true
      → merge_from size buf n (piece ∷ pieces)
        ≡ merge_from size (buf ++ (piece ∷ [])) (length piece) pieces
  unfolding merge_from
  merge_from-first zero_length =
      ap
        (λ b. elim b [
          | true ↦ merge_from size (buf ++ (piece ∷ [])) (length piece) pieces
          | false ↦ elim (leb (n + length piece) size) [
            | true ↦ merge_from size (buf ++ (piece ∷ [])) (n + length piece) pieces
            | false ↦ flush buf n (merge_from size (piece ∷ []) (length piece) pieces)
          ]
        ])
        zero_length

  merge_from-later :
      (n == 0) ≡ false
      → merge_from size buf n (piece ∷ pieces) ≡ (elim (leb (n + length piece) size) [
        | true ↦ merge_from size (buf ++ (piece ∷ [])) (n + length piece) pieces
        | false ↦ flush buf n (merge_from size (piece ∷ []) (length piece) pieces)
      ])
  unfolding merge_from
  merge_from-later some_length =
      ap
        (λ b. elim b [
          | true ↦ merge_from size (buf ++ (piece ∷ [])) (length piece) pieces
          | false ↦ elim (leb (n + length piece) size) [
            | true ↦ merge_from size (buf ++ (piece ∷ [])) (n + length piece) pieces
            | false ↦ flush buf n (merge_from size (piece ∷ []) (length piece) pieces)
          ]
        ])
        some_length

  -- What the loop does with a piece, when `n` is the length of the buffer.
  merge_from-cases :
      length (concat buf) ≡ n
      → ((merge_from size buf n (piece ∷ pieces)
            ≡ merge_from size (buf ++ (piece ∷ [])) (n + length piece) pieces)
          × ((n ≡ 0) ⊎ (n + length piece ≤ size)))
        ⊎ (merge_from size buf n (piece ∷ pieces)
            ≡ flush buf n (merge_from size (piece ∷ []) (length piece) pieces))
  merge_from-cases h = elim (Bool-cases (n == 0)) [
    | inl zero_length ↦
        let is_zero : n ≡ 0 = ground (arith, zero_length) in
        inl (
          merge_from-first zero_length
              ∙ ap (λ k. merge_from size (buf ++ (piece ∷ [])) k pieces) (omega (arith, is_zero)),
          inl is_zero,
        )
    | inr some_length ↦ elim (Bool-cases (leb (n + length piece) size)) [
      | inl fits ↦ inl (
        merge_from-later some_length
            ∙ ap
                (λ b. elim b [
                  | true ↦ merge_from size (buf ++ (piece ∷ [])) (n + length piece) pieces
                  | false ↦ flush buf n (merge_from size (piece ∷ []) (length piece) pieces)
                ])
                fits,
        inr (ground arith),
      )
      | inr long ↦ inr (
          merge_from-later some_length
          ∙ ap
              (λ b. elim b [
                | true ↦ merge_from size (buf ++ (piece ∷ [])) (n + length piece) pieces
                | false ↦ flush buf n (merge_from size (piece ∷ []) (length piece) pieces)
              ])
              long)
    ]
  ]

concat-merge_from :
    (size : ℕ) (buf : List Text) (n : ℕ) (pieces : List Text)
    → length (concat buf) ≡ n
    → concat (merge_from size buf n pieces) ≡ concat buf ++ concat pieces
unfolding merge_from
concat-merge_from size buf n [] h = concat-flush buf n [] h
concat-merge_from size buf n (piece ∷ pieces) h =
    elim (merge_from-cases size buf n piece pieces h) [
      | inl (joined, _) ↦
          ap concat joined
          ∙ concat-merge_from size (buf ++ (piece ∷ [])) (n + length piece) pieces
              (length-concat_snoc buf piece ∙ omega (arith, h))
          ∙ ap (λ t. t ++ concat pieces)
              (concat-append buf (piece ∷ []) ∙ ap (λ t. concat buf ++ t) (append-nil piece))
          ∙ append_assoc (concat buf) piece (concat pieces)
      | inr flushed ↦
          ap concat flushed
          ∙ concat-flush buf n (merge_from size (piece ∷ []) (length piece) pieces) h
          ∙ ap (λ t. concat buf ++ t)
              (concat-merge_from size (piece ∷ []) (length piece) pieces
                  (ap length (append-nil piece))
                ∙ ap (λ t. t ++ concat pieces) (append-nil piece))
    ]

no_overlap : (chunks : List Text) → concat (with_overlap 0 chunks) ≡ concat chunks
unfolding with_overlap
no_overlap [] = refl
no_overlap (chunk ∷ chunks) = refl

-- Merging the pieces, without overlap, neither loses nor adds a code point.
pub concat-merge : (size : ℕ) (pieces : List Text) → concat (merge size 0 pieces) ≡ concat pieces
unfolding merge
concat-merge size pieces =
    no_overlap (merge_from size [] 0 pieces) ∙ concat-merge_from size [] 0 pieces refl

module _ (size : ℕ) (Q : Text → Type 0) (fits : (c : Text) → length c ≤ size → Q c) where
  flush-All :
      (buf : List Text) (n : ℕ) (merged : List Text)
      → (n ≡ 0) ⊎ Q (concat buf)
      → All Q merged
      → All Q (flush buf n merged)
  flush-All buf n merged h k = elim (Bool-cases (ltb 0 n)) [
    | inr nothing ↦ rw nothing k
    | inl some_text ↦
        rw some_text
          (elim h [ inl is_zero ↦ absurd (ground (arith, is_zero, some_text)) | inr q ↦ (q, k) ])
  ]

  joined_text :
      (buf : List Text) (piece : Text)
      → length (concat buf) ≡ 0
      → concat (buf ++ (piece ∷ [])) ≡ piece
  joined_text buf piece h =
      concat-append buf (piece ∷ [])
      ∙ ap (λ t. t ++ concat (piece ∷ [])) (no_text (concat buf) h)
      ∙ append-nil piece

  merge_from-All :
      (buf : List Text) (n : ℕ) (pieces : List Text)
      → length (concat buf) ≡ n
      → (n ≡ 0) ⊎ Q (concat buf)
      → All Q pieces
      → All Q (merge_from size buf n pieces)
  unfolding merge_from
  merge_from-All buf n [] h q k = flush-All buf n [] q tt
  merge_from-All buf n (piece ∷ pieces) h q k = elim (merge_from-cases size buf n piece pieces h) [
    | inl (joined, why) ↦
        let longer : length (concat (buf ++ (piece ∷ []))) ≡ n + length piece =
          length-concat_snoc buf piece ∙ omega (arith, h) in
        let still : Q (concat (buf ++ (piece ∷ []))) = elim why [
          | inl is_zero ↦ subst Q (sym (joined_text buf piece (h ∙ is_zero))) k.0
          | inr small ↦ fits (concat (buf ++ (piece ∷ []))) (omega (arith, longer, small))
        ] in
        subst (All Q) (sym joined)
          (merge_from-All (buf ++ (piece ∷ [])) (n + length piece) pieces longer (inr still) k.1)
    | inr flushed ↦ subst (All Q) (sym flushed) (
        flush-All buf n _ q (
          merge_from-All (piece ∷ []) (length piece) pieces (ap length (append-nil piece))
            (inr (subst Q (sym (append-nil piece)) k.0)) k.1))
  ]

-- The end of a chunk, at most `overlap` long, and then a text of which `Q` holds.
abbrev pub HasTail : ℕ → (Text → Type 0) → Text → Type 0
HasTail overlap Q c = (t : Text) × (d : Text) × (c ≡ t ++ d) × (length t ≤ overlap) × Q d

length-tail_runes : (s : Text) (n : ℕ) → length (tail_runes s n) ≤ n
unfolding tail_runes
length-tail_runes s n = elim (Bool-cases (leb (length s) n)) [
  | inl short ↦ rw short (ground arith)
  | inr long ↦ rw long (ground (arith, length-drop (length s - n) s))
]

overlapped-HasTail :
    (Q : Text → Type 0) (overlap : ℕ) (previous : Text) (chunks : List Text)
    → All Q chunks
    → All (HasTail overlap Q) (overlapped overlap previous chunks)
unfolding overlapped
overlapped-HasTail Q overlap previous [] h = tt
overlapped-HasTail Q overlap previous (chunk ∷ chunks) h = (
  (tail_runes previous overlap, chunk, refl, length-tail_runes previous overlap, h.0),
  overlapped-HasTail Q overlap chunk chunks h.1,
)

without_tail : (Q : Text → Type 0) (overlap : ℕ) (c : Text) → Q c → HasTail overlap Q c
without_tail Q overlap c h = ([], c, refl, omega arith, h)

with_overlap-HasTail :
    (Q : Text → Type 0) (overlap : ℕ) (chunks : List Text)
    → All Q chunks
    → All (HasTail overlap Q) (with_overlap overlap chunks)
unfolding with_overlap
with_overlap-HasTail Q overlap [] h = tt
with_overlap-HasTail Q overlap (chunk ∷ chunks) h = elim (Bool-cases (ltb 0 overlap)) [
  | inl wanted ↦
      rw wanted (without_tail Q overlap chunk h.0, overlapped-HasTail Q overlap chunk chunks h.1)
  | inr none_wanted ↦ rw none_wanted (
    without_tail Q overlap chunk h.0,
    All-map Q (HasTail overlap Q) chunks (without_tail Q overlap) h.1,
  )
]

pub merge-HasTail :
    (size overlap : ℕ) (Q : Text → Type 0) (pieces : List Text)
    → ((c : Text) → length c ≤ size → Q c)
    → All Q pieces
    → All (HasTail overlap Q) (merge size overlap pieces)
unfolding merge
merge-HasTail size overlap Q pieces fits h =
    with_overlap-HasTail Q overlap (merge_from size [] 0 pieces)
      (merge_from-All size Q fits [] 0 pieces refl (inl refl) h)
