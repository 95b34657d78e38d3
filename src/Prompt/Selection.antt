-- ===== src/Prompt/Selection.antt =====
-- src/promptctx/assembler.py: what the loop over the ordered blocks selects.
use ven_agent.Prelude.{
  ℕ, ◌+◌, ◌≤◌, ◌≡◌, ◌⊎◌, refl, sym, ap, subst, ◌∙◌, inl, inr, true, false, none, some, String, List,
  [], ◌∷◌, ◌++◌, arith, ◌==◌, text_has_eq, Bool-cases, if◌then◌else◌, length, length-append, select,
  select-append, Occurs, Occurs-append, append-Occurs-left, append-Occurs-right, Result, ok, err,
}
use ven_agent.Prelude.Dict.{Dict, put, get-put}
use ven_agent.Prompt.{
  SectionSpec, ContextBlock, ProjectionError, context_overflow, section_of, is_required, tokens,
  total_at, Chosen, fits, with_selected, with_omitted, choose,
}

tokens-append : (xs ys : List ContextBlock) → tokens (xs ++ ys) ≡ tokens xs + tokens ys
tokens-append [] ys = omega arith
tokens-append (x ∷ xs) ys = omega (arith, tokens-append xs ys)

-- The selected blocks of a category.
abbrev pub in_section : String → List ContextBlock → List ContextBlock
in_section category blocks = select (λ b. b.category == category) blocks

module _ (sections : Dict String SectionSpec) (input_budget : ℕ) where
  -- The counts are those of the selected blocks, and stay within the budget and those of the sections.
  pub record IsWithinBudget (c : Chosen) : Type 0 where
    pub total : c.total ≡ tokens c.selected
    pub budget : c.total ≤ input_budget
    pub counted :
        (category : String)
        → total_at c.section_totals category ≡ tokens (in_section category c.selected)
    pub capped :
        (b : ContextBlock)
        → Occurs b c.selected
        → total_at c.section_totals b.category ≤ (section_of sections b).token_budget

  section_of-category :
      (a b : ContextBlock) → a.category ≡ b.category → section_of sections a ≡ section_of sections b
  unfolding section_of
  section_of-category a b same = rw same refl

  total_at-put :
      (totals : Dict String ℕ) (category other : String) (n : ℕ)
      → total_at (put totals category n) other
        ≡ (if category == other then n else total_at totals other)
  total_at-put totals category other n =
      ap (λ o. elim o [ none ↦ 0 | some k ↦ k ]) (get-put totals category other n)
      ∙ elim (Bool-cases (category == other)) [
        | inl same ↦ rw same refl
        | inr apart ↦ rw apart refl
      ]

  in_section-snoc :
      (category : String) (blocks : List ContextBlock) (b : ContextBlock)
      → tokens (in_section category (blocks ++ (b ∷ [])))
        ≡ tokens (in_section category blocks)
          + (if b.category == category then b.token_count else 0)
  in_section-snoc category blocks b =
      ap tokens (select-append _ blocks (b ∷ []))
      ∙ tokens-append (in_section category blocks) (in_section category (b ∷ []))
      ∙ elim (Bool-cases (b.category == category)) [
        | inl same ↦ rw same (omega arith)
        | inr apart ↦ rw apart (omega arith)
      ]

  with_selected-IsWithinBudget :
      (c : Chosen) (block : ContextBlock)
      → IsWithinBudget c
      → fits sections input_budget c block ≡ true
      → IsWithinBudget (with_selected c block)
  with_selected-IsWithinBudget c block h room = record {
    total = omega (arith, h.total, tokens-append c.selected (block ∷ []));
    budget = ground (arith, room);
    counted = λ category. ground (
      arith,
      total_at-put c.section_totals block.category category
          (total_at c.section_totals block.category + block.token_count),
      in_section-snoc category c.selected block,
      h.counted category,
      h.counted block.category,
      text_has_eq.decides block.category category,
    );
    capped = λ b m.
        let now =
          total_at-put c.section_totals block.category b.category
            (total_at c.section_totals block.category + block.token_count) in
        elim (Bool-cases (block.category == b.category)) [
          | inl same ↦
              let spec =
                section_of-category block b
                  ((text_has_eq.decides block.category b.category).0 same) in
              let cap : total_at c.section_totals block.category + block.token_count
                  ≤ (section_of sections b).token_budget =
                subst
                  (λ s.
                    total_at c.section_totals block.category + block.token_count ≤ s.token_budget)
                  spec (ground (arith, room)) in
              ground (arith, now, same, cap)
          | inr apart ↦ elim (Occurs-append b c.selected (block ∷ []) m) [
            | inl before ↦ ground (arith, now, apart, h.capped b before)
            | inr (inl e) ↦
                absurd (ground (arith, apart, e, text_has_eq.decides block.category b.category))
            | inr (inr none_left) ↦ absurd none_left
          ]
        ];
  }

  -- What one round of the loop does.
  choose-cases :
      (c : Chosen) (block : ContextBlock) (blocks : List ContextBlock)
      → ((fits sections input_budget c block ≡ true)
          × (choose sections input_budget c (block ∷ blocks)
              ≡ choose sections input_budget (with_selected c block) blocks))
        ⊎ ((is_required sections block ≡ true)
            × (choose sections input_budget c (block ∷ blocks) ≡ err context_overflow))
        ⊎ ((is_required sections block ≡ false)
            × (choose sections input_budget c (block ∷ blocks)
                ≡ choose sections input_budget (with_omitted c block) blocks))
  unfolding choose
  choose-cases c block blocks =
      let next = choose sections input_budget (with_selected c block) blocks in
      let skipped = choose sections input_budget (with_omitted c block) blocks in
      elim (Bool-cases (fits sections input_budget c block)) [
        | inl room ↦ inl (
          room,
          ap
              (λ b. elim b [
                | true ↦ next
                | false ↦ elim (is_required sections block) [
                  | true ↦ err context_overflow
                  | false ↦ skipped
                ]
              ])
              room,
        )
        | inr no_room ↦
            let first_step =
              ap
                (λ b. elim b [
                  | true ↦ next
                  | false ↦ elim (is_required sections block) [
                    | true ↦ err context_overflow
                    | false ↦ skipped
                  ]
                ])
                no_room in
            elim (Bool-cases (is_required sections block)) [
              | inl needed ↦ inr (
                  inl (
                    needed,
                    first_step
                        ∙ ap (λ b. elim b [ true ↦ err context_overflow | false ↦ skipped ]) needed,
                  ))
              | inr spare ↦ inr (
                  inr (
                    spare,
                    first_step
                        ∙ ap (λ b. elim b [ true ↦ err context_overflow | false ↦ skipped ]) spare,
                  ))
            ]
      ]

  -- Every block of `blocks`, or chosen before, ends in one of the two lists; the required ones in the first.
  pub record IsChoice (c : Chosen) (blocks : List ContextBlock) (done : Chosen) : Type 0 where
    pub within : IsWithinBudget done
    pub kept : (b : ContextBlock) → Occurs b c.selected → Occurs b done.selected
    pub required :
        (b : ContextBlock)
        → Occurs b blocks
        → is_required sections b ≡ true
        → Occurs b done.selected
    pub counts :
        length done.selected + length done.omitted
        ≡ length c.selected + length c.omitted + length blocks
    pub from : (b : ContextBlock) → Occurs b done.selected → Occurs b c.selected ⊎ Occurs b blocks

  ok_is_not_err :
      (e : ProjectionError) (done : Chosen)
      → ◌≡◌ {A = Result ProjectionError Chosen} (err e) (ok done)
      → ⊥
  ok_is_not_err e done h = cc

  pub choose-IsChoice :
      (c : Chosen) (blocks : List ContextBlock) (done : Chosen)
      → IsWithinBudget c
      → choose sections input_budget c blocks ≡ ok done
      → IsChoice c blocks done
  unfolding choose
  choose-IsChoice c [] done h run =
      let same : c ≡ done = cc run in
      subst (IsChoice c []) same (record {
        within = h;
        kept = λ b m. m;
        required = λ b m r. elim m [ ];
        counts = omega arith;
        from = λ b m. inl m;
      })
  choose-IsChoice c (block ∷ blocks) done h run = elim (choose-cases c block blocks) [
    | inl (room, step) ↦
        let rest =
          choose-IsChoice (with_selected c block) blocks done
            (with_selected-IsWithinBudget c block h room) (sym step ∙ run) in
        record {
          within = rest.within;
          kept = λ b m. rest.kept b (append-Occurs-left b c.selected (block ∷ []) m);
          required = λ b m r. elim m [
            | inl e ↦ rest.kept b (append-Occurs-right b c.selected (block ∷ []) (inl e))
            | inr later ↦ rest.required b later r
          ];
          counts = omega (arith, rest.counts, length-append c.selected (block ∷ []));
          from = λ b m. elim (rest.from b m) [
            | inr later ↦ inr (inr later)
            | inl chosen ↦ elim (Occurs-append b c.selected (block ∷ []) chosen) [
              | inl before ↦ inl before
              | inr (inl e) ↦ inr (inl e)
              | inr (inr none_left) ↦ absurd none_left
            ]
          ];
        }
    | inr (inl (needed, overflow)) ↦
        absurd (ok_is_not_err context_overflow done (sym overflow ∙ run))
    | inr (inr (spare, step)) ↦
        let same_counts : IsWithinBudget (with_omitted c block) = record {
          total = h.total;
          budget = h.budget;
          counted = h.counted;
          capped = h.capped;
        } in
        let rest =
          choose-IsChoice (with_omitted c block) blocks done same_counts (sym step ∙ run) in
        record {
          within = rest.within;
          kept = rest.kept;
          required = λ b m r. elim m [
            | inl e ↦ absurd (ground (arith, e, r, spare))
            | inr later ↦ rest.required b later r
          ];
          counts = omega (arith, rest.counts, length-append c.omitted (block ∷ []));
          from =
              λ b m. elim (rest.from b m) [ inl before ↦ inl before | inr later ↦ inr (inr later) ];
        }
  ]
