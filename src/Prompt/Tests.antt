-- ===== src/Prompt/Tests.antt =====
-- A policy of two sections, and the theorems at it.
use ven_agent.Prelude.{
  ℕ, ◌≡◌, ◌↔◌, refl, inl, inr, true, false, none, String, List, [], ◌∷◌, arith, text_has_eq, Occurs,
  ok, err,
}
use ven_agent.Prelude.Dict.{get, put}
use ven_agent.Prompt.{
  system_messages, messages, ProjectionPolicy, ContextBlock, ModelCallContext, context_overflow,
  sections_from, section_of, is_required, goes_before, insert_block, sort_blocks, choose,
  contents_at, context_of, project,
}
use ven_agent.Prompt.Sorting.{HasDistinctIds}
use ven_agent.Prompt.Projection.{Projects, project-Projects, project-order}

abbrev policy : ProjectionPolicy
policy = record {
  version = "v1";
  model_role = "answer";
  sections =
      (record {
        section_kind = "security";
        placement = system_messages;
        required = true;
        priority = 100;
        token_budget = 10;
        failure_policy = "fail";
      })
      ∷ (record {
        section_kind = "summary";
        placement = messages;
        required = false;
        priority = 80;
        token_budget = 6;
        failure_policy = "omit";
      })
      ∷ [];
}

abbrev block : String → String → ℕ → ℕ → ContextBlock
block id category priority count = record {
  block_id = id;
  category = category;
  source = "test";
  content = id;
  priority = priority;
  mandatory = false;
  token_count = count;
  source_ref = none;
  sensitivity = "internal";
  captured_at = none;
  metadata = [];
}

abbrev rules : ContextBlock
rules = block "rules" "security" 1 5

abbrev old : ContextBlock
old = block "old" "summary" 1 4

abbrev new : ContextBlock
new = block "new" "summary" 2 4

abbrev blocks : List ContextBlock
blocks = old ∷ new ∷ rules ∷ []

abbrev arrived : List ContextBlock
arrived = rules ∷ old ∷ new ∷ []

-- The second block of the section no longer fits.
abbrev context : ModelCallContext
context = record {
  for_system = "rules" ∷ [];
  for_messages = "new" ∷ [];
  for_tools = [];
  budget_report = record {
    input_budget = 20;
    selected_tokens = 9;
    selected_block_ids = "rules" ∷ "new" ∷ [];
    omitted_block_ids = "old" ∷ [];
    token_count_method = "provided";
  };
  policy_version = "v1";
}

blocks_fit : project policy blocks 20 ≡ ok context
unfolding project sections_from section_of is_required goes_before insert_block sort_blocks choose
    contents_at context_of get put
blocks_fit = refl

too_small : project policy blocks 4 ≡ err context_overflow
unfolding project sections_from section_of is_required goes_before insert_block sort_blocks choose
    contents_at context_of get put
too_small = refl

project-Projects_example : Projects policy blocks 20 context
project-Projects_example = project-Projects policy blocks 20 context blocks_fit

blocks-HasDistinctIds : HasDistinctIds blocks
blocks-HasDistinctIds = (
  (
    ground (arith, text_has_eq.decides "old" "new"),
    (ground (arith, text_has_eq.decides "old" "rules"), tt),
  ),
  ((ground (arith, text_has_eq.decides "new" "rules"), tt), (tt, tt)),
)

arrived-HasDistinctIds : HasDistinctIds arrived
arrived-HasDistinctIds = (
  (
    ground (arith, text_has_eq.decides "rules" "old"),
    (ground (arith, text_has_eq.decides "rules" "new"), tt),
  ),
  ((ground (arith, text_has_eq.decides "old" "new"), tt), (tt, tt)),
)

same_blocks : (b : ContextBlock) → Occurs b blocks ↔ Occurs b arrived
same_blocks b = (
  λ m. elim m [
    | inl e ↦ inr (inl e)
    | inr (inl e) ↦ inr (inr (inl e))
    | inr (inr (inl e)) ↦ inl e
    | inr (inr (inr n)) ↦ absurd n
  ],
  λ m. elim m [
    | inl e ↦ inr (inr (inl e))
    | inr (inl e) ↦ inl e
    | inr (inr (inl e)) ↦ inr (inl e)
    | inr (inr (inr n)) ↦ absurd n
  ],
)

project-order_example : project policy blocks 20 ≡ project policy arrived 20
project-order_example =
    project-order policy blocks arrived 20 blocks-HasDistinctIds arrived-HasDistinctIds same_blocks
