-- ===== src/Prompt/Sorting.antt =====
-- src/promptctx/assembler.py: the order of the blocks does not depend on the order in which they arrive.
use ven_agent.Prelude.{
  ℕ, ◌+◌, ◌≡◌, ◌≢◌, ◌⊎◌, ◌↔◌, refl, sym, ap, subst, ◌∙◌, inl, inr, Bool, true, false, String, List,
  [], ◌∷◌, arith, number_has_eq, Bool-cases, length, Occurs, All, All-Occurs, text_lt_irrefl,
  text_lt_trans, text_lt_total, Occurs-All,
}
use ven_agent.Prelude.Dict.{Dict}
use ven_agent.Prompt.{
  SectionSpec, ContextBlock, section_of, is_required, ranks_before, goes_before, insert_block,
  sort_blocks,
}

ranks_before_irrefl : (r : Bool) (p n : ℕ) (i : String) → ranks_before r p n i r p n i ≡ false
ranks_before_irrefl r p n i = ground (arith, text_lt_irrefl i)

ranks_before_trans :
    (ra rb rc : Bool) (pa na pb nb pc nc : ℕ) (ia ib ic : String)
    → ranks_before ra pa na ia rb pb nb ib ≡ true
    → ranks_before rb pb nb ib rc pc nc ic ≡ true
    → ranks_before ra pa na ia rc pc nc ic ≡ true
ranks_before_trans ra rb rc pa na pb nb pc nc ia ib ic h k = ground (arith, text_lt_trans ia ib ic)

ranks_before_total :
    (ra rb : Bool) (pa na pb nb : ℕ) (ia ib : String)
    → ia ≢ ib
    → ranks_before ra pa na ia rb pb nb ib ≡ false
    → ranks_before rb pb nb ib ra pa na ia ≡ true
ranks_before_total ra rb pa na pb nb ia ib other h = ground (arith, text_lt_total ia ib)

-- Adding a block to a list of blocks, whatever its place.
Occurs-insert_block :
    (sections : Dict String SectionSpec) (a b : ContextBlock) (bs : List ContextBlock)
    → Occurs a (insert_block sections b bs) ↔ ((a ≡ b) ⊎ Occurs a bs)
unfolding insert_block
Occurs-insert_block sections a b [] = (λ m. m, λ m. m)
Occurs-insert_block sections a b (x ∷ xs) = elim (Bool-cases (goes_before sections x b)) [
  | inl later ↦ rw later (ground (arith, Occurs-insert_block sections a b xs))
  | inr here ↦ rw here (λ m. m, λ m. m)
]

pub Occurs-sort_blocks :
    (sections : Dict String SectionSpec) (a : ContextBlock) (bs : List ContextBlock)
    → Occurs a (sort_blocks sections bs) ↔ Occurs a bs
unfolding sort_blocks
Occurs-sort_blocks sections a [] = (λ m. m, λ m. m)
Occurs-sort_blocks sections a (b ∷ bs) = ground (
  arith,
  Occurs-insert_block sections a b (sort_blocks sections bs),
  Occurs-sort_blocks sections a bs,
)

length-insert_block :
    (sections : Dict String SectionSpec) (b : ContextBlock) (bs : List ContextBlock)
    → length (insert_block sections b bs) ≡ length bs + 1
unfolding insert_block
length-insert_block sections b [] = omega arith
length-insert_block sections b (x ∷ xs) = elim (Bool-cases (goes_before sections x b)) [
  | inl later ↦ rw later (omega (arith, length-insert_block sections b xs))
  | inr here ↦ rw here (omega arith)
]

pub length-sort_blocks :
    (sections : Dict String SectionSpec) (bs : List ContextBlock)
    → length (sort_blocks sections bs) ≡ length bs
unfolding sort_blocks
length-sort_blocks sections [] = refl
length-sort_blocks sections (b ∷ bs) = omega (
  arith,
  length-insert_block sections b (sort_blocks sections bs),
  length-sort_blocks sections bs,
)

abbrev pub HasDistinctIds : List ContextBlock → Type 0
HasDistinctIds [] = Unit
HasDistinctIds (b ∷ bs) = All (λ x. b.block_id ≢ x.block_id) bs × HasDistinctIds bs

module _ (sections : Dict String SectionSpec) where
  abbrev IsBefore : ContextBlock → ContextBlock → Type 0
  IsBefore a b = goes_before sections a b ≡ true

  goes_before_irrefl : (a : ContextBlock) → goes_before sections a a ≡ false
  unfolding goes_before
  goes_before_irrefl a =
      ranks_before_irrefl (is_required sections a) (section_of sections a).priority a.priority
        a.block_id

  IsBefore-trans : (a b c : ContextBlock) → IsBefore a b → IsBefore b c → IsBefore a c
  unfolding goes_before
  IsBefore-trans a b c h k =
      ranks_before_trans (is_required sections a) (is_required sections b) (is_required sections c)
        (section_of sections a).priority a.priority (section_of sections b).priority b.priority
        (section_of sections c).priority c.priority a.block_id b.block_id c.block_id h k

  goes_before_total :
      (a b : ContextBlock)
      → a.block_id ≢ b.block_id
      → goes_before sections a b ≡ false
      → IsBefore b a
  unfolding goes_before
  goes_before_total a b other h =
      ranks_before_total (is_required sections a) (is_required sections b)
        (section_of sections a).priority a.priority (section_of sections b).priority b.priority
        a.block_id b.block_id other h

  -- Each block goes strictly before all that follow it.
  abbrev IsOrdered : List ContextBlock → Type 0
  IsOrdered [] = Unit
  IsOrdered (b ∷ bs) = All (IsBefore b) bs × IsOrdered bs

  insert_block-IsOrdered :
      (b : ContextBlock) (bs : List ContextBlock)
      → IsOrdered bs
      → ((x : ContextBlock) → Occurs x bs → b.block_id ≢ x.block_id)
      → IsOrdered (insert_block sections b bs)
  unfolding insert_block
  insert_block-IsOrdered b [] h other = (tt, tt)
  insert_block-IsOrdered b (x ∷ xs) h other = elim (Bool-cases (goes_before sections x b)) [
    | inl later ↦ rw later (
      Occurs-All (IsBefore x) (insert_block sections b xs) (λ y m.
          elim ((Occurs-insert_block sections y b xs).0 m) [
            | inl e ↦ subst (IsBefore x) (sym e) later
            | inr there ↦ All-Occurs (IsBefore x) xs h.0 there
          ]),
      insert_block-IsOrdered b xs h.1 (λ y m. other y (inr m)),
    )
    | inr here ↦
        let first : IsBefore b x = goes_before_total x b (λ e. other x (inl refl) (sym e)) here in
        rw here (
          (
            first,
            Occurs-All (IsBefore b) xs
                (λ y m. IsBefore-trans b x y first (All-Occurs (IsBefore x) xs h.0 m)),
          ),
          h,
        )
  ]

  sort_blocks-IsOrdered :
      (bs : List ContextBlock) → HasDistinctIds bs → IsOrdered (sort_blocks sections bs)
  unfolding sort_blocks
  sort_blocks-IsOrdered [] h = tt
  sort_blocks-IsOrdered (b ∷ bs) h =
      insert_block-IsOrdered b (sort_blocks sections bs) (sort_blocks-IsOrdered bs h.1)
        (λ x m. All-Occurs _ bs h.0 ((Occurs-sort_blocks sections x bs).0 m))

  no_loop : (a b : ContextBlock) → IsBefore a b → IsBefore b a → ⊥
  no_loop a b h k = ground (arith, IsBefore-trans a b a h k, goes_before_irrefl a)

  -- Two ordered lists with the same blocks are the same list.
  ordered_unique :
      (xs ys : List ContextBlock)
      → IsOrdered xs
      → IsOrdered ys
      → ((a : ContextBlock) → Occurs a xs ↔ Occurs a ys)
      → xs ≡ ys
  ordered_unique [] [] h k same = refl
  ordered_unique [] (y ∷ ys) h k same = absurd ((same y).1 (inl refl))
  ordered_unique (x ∷ xs) [] h k same = absurd ((same x).0 (inl refl))
  ordered_unique (x ∷ xs) (y ∷ ys) h k same =
      let first : x ≡ y = elim ((same x).0 (inl refl)) [
        | inl e ↦ e
        | inr m ↦ elim ((same y).1 (inl refl)) [
          | inl e ↦ sym e
          | inr n ↦
              absurd
                (no_loop x y (All-Occurs (IsBefore x) xs h.0 n) (All-Occurs (IsBefore y) ys k.0 m))
        ]
      ] in
      let rest = ordered_unique xs ys h.1 k.1 (λ a. (
        λ m. elim ((same a).0 (inr m)) [
          | inr n ↦ n
          | inl e ↦
              let loop : IsBefore x x =
                subst (IsBefore x) (e ∙ sym first) (All-Occurs (IsBefore x) xs h.0 m) in
              absurd (no_loop x x loop loop)
        ],
        λ n. elim ((same a).1 (inr n)) [
          | inr m ↦ m
          | inl e ↦
              let loop : IsBefore y y =
                subst (IsBefore y) (e ∙ first) (All-Occurs (IsBefore y) ys k.0 n) in
              absurd (no_loop y y loop loop)
        ],
      )) in
      ap (λ z. z ∷ xs) first ∙ ap (λ zs. y ∷ zs) rest

  -- Blocks with distinct ids are sorted to the same list, in whatever order they arrive.
  pub sort_blocks_unique :
      (bs cs : List ContextBlock)
      → HasDistinctIds bs
      → HasDistinctIds cs
      → ((a : ContextBlock) → Occurs a bs ↔ Occurs a cs)
      → sort_blocks sections bs ≡ sort_blocks sections cs
  sort_blocks_unique bs cs h k same =
      ordered_unique (sort_blocks sections bs) (sort_blocks sections cs)
        (sort_blocks-IsOrdered bs h) (sort_blocks-IsOrdered cs k)
        (λ a. (
          λ m.
              (Occurs-sort_blocks sections a cs).1
                ((same a).0 ((Occurs-sort_blocks sections a bs).0 m)),
          λ m.
              (Occurs-sort_blocks sections a bs).1
                ((same a).1 ((Occurs-sort_blocks sections a cs).0 m)),
        ))
