-- ===== src/Prompt/Projection.antt =====
-- src/promptctx/assembler.py `project`: the context of a model call.
use ven_agent.Prelude.{
  ℕ, ◌≡◌, ◌↔◌, refl, sym, ap, ◌∙◌, inl, inr, Bool, true, false, not, ◌||◌, String, List, [], ◌∷◌,
  arith, ◌==◌, text_has_eq, Bool-cases, ltb, any, select, Occurs, Result, ok, err,
}
use ven_agent.Prelude.Dict.{Dict, get}
use ven_agent.Prompt.{
  SectionSpec, ProjectionPolicy, ContextBlock, ModelCallContext, ProjectionError, context_overflow,
  projection_configuration_error, sections_from, is_known, is_required, goes_before, insert_block,
  sort_blocks, tokens, Chosen, none_chosen, choose, context_of, has_none, project,
}
use ven_agent.Prompt.Sorting.{
  HasDistinctIds, Occurs-sort_blocks, length-sort_blocks, sort_blocks_unique,
}
use ven_agent.Prompt.Selection.{IsWithinBudget, IsChoice, choose-IsChoice}

abbrev sections_of : ProjectionPolicy → Dict String SectionSpec
sections_of policy = sections_from [] policy.sections

-- The checks of `project` in their order, on their results.
abbrev staged :
    Bool
    → Bool
    → Bool
    → Result ProjectionError Chosen
    → (Chosen → ModelCallContext)
    → Result ProjectionError ModelCallContext
staged bad unknown over chosen show = elim bad [
  | true ↦ err projection_configuration_error
  | false ↦ elim unknown [
    | true ↦ err projection_configuration_error
    | false ↦ elim over [
      | true ↦ err context_overflow
      | false ↦ elim chosen [ err e ↦ err e | ok c ↦ ok (show c) ]
    ]
  ]
]

-- `project`, given whether a block is unknown, the tokens of the required blocks and the sorted blocks.
abbrev run_on :
    ProjectionPolicy → ℕ → Bool → ℕ → List ContextBlock → Result ProjectionError ModelCallContext
run_on policy input_budget unknown required_tokens sorted =
    staged (policy.model_role == "" || has_none policy.sections) unknown
      (ltb input_budget required_tokens)
      (choose (sections_of policy) input_budget none_chosen sorted)
      (context_of policy (sections_of policy) input_budget)

project-staged :
    (policy : ProjectionPolicy) (blocks : List ContextBlock) (input_budget : ℕ)
    → project policy blocks input_budget
      ≡ run_on policy input_budget
          (any (λ b. not (is_known (sections_of policy) b)) blocks)
          (tokens (select (is_required (sections_of policy)) blocks))
          (sort_blocks (sections_of policy) blocks)
unfolding project
project-staged policy blocks input_budget = refl

staged-ok :
    (bad unknown over : Bool) (chosen : Result ProjectionError Chosen)
    (show : Chosen → ModelCallContext) (context : ModelCallContext)
    → staged bad unknown over chosen show ≡ ok context
    → (done : Chosen) × (chosen ≡ ok done) × (context ≡ show done)
staged-ok true unknown over chosen show context h = absurd (cc)
staged-ok false true over chosen show context h = absurd (cc)
staged-ok false false true chosen show context h = absurd (cc)
staged-ok false false false (err e) show context h = absurd (cc)
staged-ok false false false (ok c) show context h = (c, refl, sym (cc h))

-- What a context is made of: `done` is a choice among the blocks, within all budgets and with all required
-- ones, and the context shows it.
pub record Projects (policy : ProjectionPolicy) (blocks : List ContextBlock) (input_budget : ℕ)
    (context : ModelCallContext) : Type 0 where
  pub done : Chosen
  pub shown : context ≡ context_of policy (sections_of policy) input_budget done
  pub choice : IsChoice (sections_of policy) input_budget none_chosen blocks done

none_chosen-IsWithinBudget :
    (sections : Dict String SectionSpec) (input_budget : ℕ)
    → IsWithinBudget sections input_budget none_chosen
unfolding get
none_chosen-IsWithinBudget sections input_budget = record {
  total = refl;
  budget = omega arith;
  counted = λ category. refl;
  capped = λ b m. elim m [ ];
}

-- Where `project` returns a context, its tokens are those of the selected blocks and within the budget, the
-- selected blocks of each section are within the budget of the section, every required block is selected,
-- the selected blocks are among the given ones, and as many blocks are selected or omitted as were given.
pub project-Projects :
    (policy : ProjectionPolicy) (blocks : List ContextBlock) (input_budget : ℕ)
    (context : ModelCallContext)
    → project policy blocks input_budget ≡ ok context
    → Projects policy blocks input_budget context
project-Projects policy blocks input_budget context h =
    let sections = sections_of policy in
    let (done, run, shown) =
      staged-ok (policy.model_role == "" || has_none policy.sections)
        (any (λ b. not (is_known sections b)) blocks)
        (ltb input_budget (tokens (select (is_required sections) blocks)))
        (choose sections input_budget none_chosen (sort_blocks sections blocks))
        (context_of policy sections input_budget) context
        (sym (project-staged policy blocks input_budget) ∙ h) in
    let sorted =
      choose-IsChoice sections input_budget none_chosen (sort_blocks sections blocks) done
        (none_chosen-IsWithinBudget sections input_budget) run in
    record {
      done = done;
      shown = shown;
      choice = record {
        within = sorted.within;
        kept = sorted.kept;
        required = λ b m. sorted.required b ((Occurs-sort_blocks sections b blocks).1 m);
        counts = omega (arith, sorted.counts, length-sort_blocks sections blocks);
        from = λ b m. elim (sorted.from b m) [
          | inl before ↦ inl before
          | inr there ↦ inr ((Occurs-sort_blocks sections b blocks).0 there)
        ];
      };
    }

module _ (sections : Dict String SectionSpec) (test : ContextBlock → Bool) where
  any-insert_block :
      (b : ContextBlock) (bs : List ContextBlock)
      → any test (insert_block sections b bs) ≡ (test b || any test bs)
  unfolding insert_block
  any-insert_block b [] = refl
  any-insert_block b (x ∷ xs) = elim (Bool-cases (goes_before sections x b)) [
    | inl later ↦ rw later (ground (arith, any-insert_block b xs))
    | inr here ↦ rw here refl
  ]

  any-sort_blocks : (bs : List ContextBlock) → any test (sort_blocks sections bs) ≡ any test bs
  unfolding sort_blocks
  any-sort_blocks [] = refl
  any-sort_blocks (b ∷ bs) =
      any-insert_block b (sort_blocks sections bs) ∙ ap (λ r. test b || r) (any-sort_blocks bs)

  tokens-insert_block :
      (b : ContextBlock) (bs : List ContextBlock)
      → tokens (select test (insert_block sections b bs)) ≡ tokens (select test (b ∷ bs))
  unfolding insert_block
  tokens-insert_block b [] = refl
  tokens-insert_block b (x ∷ xs) = elim (Bool-cases (goes_before sections x b)) [
    | inl later ↦ rw later (ground (arith, tokens-insert_block b xs, test b, test x))
    | inr here ↦ rw here refl
  ]

  tokens-sort_blocks :
      (bs : List ContextBlock)
      → tokens (select test (sort_blocks sections bs)) ≡ tokens (select test bs)
  unfolding sort_blocks
  tokens-sort_blocks [] = refl
  tokens-sort_blocks (b ∷ bs) =
      tokens-insert_block b (sort_blocks sections bs)
      ∙ ground (arith, tokens-sort_blocks bs, test b)

-- For blocks with distinct ids, `project` returns or raises the same in whatever order they arrive.
pub project-order :
    (policy : ProjectionPolicy) (blocks arrived : List ContextBlock) (input_budget : ℕ)
    → HasDistinctIds blocks
    → HasDistinctIds arrived
    → ((b : ContextBlock) → Occurs b blocks ↔ Occurs b arrived)
    → project policy blocks input_budget ≡ project policy arrived input_budget
project-order policy blocks arrived input_budget h k same =
    let sections = sections_of policy in
    let sorted = sort_blocks_unique sections blocks arrived h k same in
    let unknown : ContextBlock → Bool = λ b. not (is_known sections b) in
    let same_unknown : any unknown blocks ≡ any unknown arrived =
      sym (any-sort_blocks sections unknown blocks)
      ∙ ap (any unknown) sorted
      ∙ any-sort_blocks sections unknown arrived in
    let required = is_required sections in
    let same_tokens : tokens (select required blocks) ≡ tokens (select required arrived) =
      sym (tokens-sort_blocks sections required blocks)
      ∙ ap (λ bs. tokens (select required bs)) sorted
      ∙ tokens-sort_blocks sections required arrived in
    project-staged policy blocks input_budget
    ∙ ap
        (λ u.
          run_on policy input_budget u (tokens (select required blocks))
            (sort_blocks sections blocks))
        same_unknown
    ∙ ap (λ n. run_on policy input_budget (any unknown arrived) n (sort_blocks sections blocks))
        same_tokens
    ∙ ap
        (λ bs.
          run_on policy input_budget (any unknown arrived) (tokens (select required arrived)) bs)
        sorted
    ∙ sym (project-staged policy arrived input_budget)
