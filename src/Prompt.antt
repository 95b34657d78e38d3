-- ===== src/Prompt.antt =====
-- src/promptctx: the blocks of a model call's context, and their selection within the token budgets.
pub mod Sorting
pub mod Selection
pub mod Projection
mod Tests
use ven_agent.Prelude.{
  ℕ, ◌+◌, ◌≡◌, ◌↔◌, Bool, true, false, not, ◌&&◌, ◌||◌, Option, none, some, String, List, [], ◌∷◌,
  ◌++◌, map, arith, HasEq, ◌==◌, text_has_eq, number_has_eq, if◌then◌else◌, ltb, leb, text_lt, any,
  select, Result, ok, err,
}
use ven_agent.Prelude.Dict.{Dict, get, put}

pub data Placement : Type 0 where
  system_messages messages tools : Placement

abbrev placement_beq : Placement → Placement → Bool
placement_beq system_messages system_messages = true
placement_beq messages messages = true
placement_beq tools tools = true
placement_beq _ _ = false

pub placement_beq_iff : (a b : Placement) → (placement_beq a b ≡ true) ↔ (a ≡ b)
placement_beq_iff a b = ground arith

instance abbrev pub placement_eq : HasEq Placement
placement_eq = record { equals = placement_beq; decides = placement_beq_iff }

-- The priorities and the counts that the program uses are not negative.
pub record SectionSpec : Type 0 where
  pub section_kind : String
  pub placement : Placement
  pub required : Bool
  pub priority : ℕ
  pub token_budget : ℕ
  pub failure_policy : String

pub record ProjectionPolicy : Type 0 where
  pub version : String
  pub model_role : String
  pub sections : List SectionSpec

pub record ContextBlock : Type 0 where
  pub block_id : String
  pub category : String
  pub source : String
  pub content : String
  pub priority : ℕ
  pub mandatory : Bool
  pub token_count : ℕ
  pub source_ref : Option String
  pub sensitivity : String
  pub captured_at : Option String
  pub metadata : List (String × String)

pub record BudgetReport : Type 0 where
  pub input_budget : ℕ
  pub selected_tokens : ℕ
  pub selected_block_ids : List String
  pub omitted_block_ids : List String
  pub token_count_method : String

pub record ModelCallContext : Type 0 where
  pub for_system : List String
  pub for_messages : List String
  pub for_tools : List String
  pub budget_report : BudgetReport
  pub policy_version : String

pub data ProjectionError : Type 0 where
  context_overflow projection_configuration_error : ProjectionError

-- `{item.section_kind: item for item in policy.sections}`
unfoldable pub sections_from : Dict String SectionSpec → List SectionSpec → Dict String SectionSpec
sections_from sections [] = sections
sections_from sections (item ∷ items) = sections_from (put sections item.section_kind item) items

abbrev pub is_known : Dict String SectionSpec → ContextBlock → Bool
is_known sections block = elim (get sections block.category) [ none ↦ false | some section ↦ true ]

-- `sections[block.category]`, for a block that is known.
unfoldable pub section_of : Dict String SectionSpec → ContextBlock → SectionSpec
section_of sections block = elim (get sections block.category) [
  | none ↦ record {
    section_kind = "";
    placement = messages;
    required = false;
    priority = 0;
    token_budget = 0;
    failure_policy = "omit";
  }
  | some section ↦ section
]

unfoldable pub is_required : Dict String SectionSpec → ContextBlock → Bool
unfolding section_of
is_required sections block = block.mandatory || (section_of sections block).required

abbrev pub tokens : List ContextBlock → ℕ
tokens [] = 0
tokens (block ∷ blocks) = block.token_count + tokens blocks

-- The key of `sorted`: required blocks first, then by the priority of the section, that of the block and
-- the id. Whether `a` sorts strictly before `b`.
abbrev pub ranks_before : Bool → ℕ → ℕ → String → Bool → ℕ → ℕ → String → Bool
ranks_before ra pa na ia rb pb nb ib =
    ra && not rb
    || (ra && rb || not ra && not rb)
      && (ltb pb pa || pa == pb && (ltb nb na || na == nb && text_lt ia ib))

unfoldable pub goes_before : Dict String SectionSpec → ContextBlock → ContextBlock → Bool
unfolding is_required
goes_before sections a b =
    ranks_before (is_required sections a) (section_of sections a).priority a.priority a.block_id
      (is_required sections b) (section_of sections b).priority b.priority b.block_id

-- Python's `sorted`: stable, by insertion from the right.
unfoldable pub insert_block :
    Dict String SectionSpec → ContextBlock → List ContextBlock → List ContextBlock
unfolding goes_before
insert_block sections block [] = block ∷ []
insert_block sections block (b ∷ bs) =
    let later = insert_block sections block bs in
    if goes_before sections b block then b ∷ later else block ∷ b ∷ bs

unfoldable pub sort_blocks : Dict String SectionSpec → List ContextBlock → List ContextBlock
unfolding insert_block
sort_blocks sections [] = []
sort_blocks sections (b ∷ bs) = insert_block sections b (sort_blocks sections bs)

abbrev pub total_at : Dict String ℕ → String → ℕ
total_at totals category = elim (get totals category) [ none ↦ 0 | some n ↦ n ]

pub record Chosen : Type 0 where
  pub selected : List ContextBlock
  pub omitted : List ContextBlock
  pub total : ℕ
  pub section_totals : Dict String ℕ

abbrev pub none_chosen : Chosen
none_chosen = record { selected = []; omitted = []; total = 0; section_totals = [] }

abbrev pub fits : Dict String SectionSpec → ℕ → Chosen → ContextBlock → Bool
fits sections input_budget c block =
    leb (c.total + block.token_count) input_budget
    && leb (total_at c.section_totals block.category + block.token_count)
        (section_of sections block).token_budget

abbrev pub with_selected : Chosen → ContextBlock → Chosen
with_selected c block = record {
  selected = c.selected ++ (block ∷ []);
  omitted = c.omitted;
  total = c.total + block.token_count;
  section_totals =
      put c.section_totals block.category
        (total_at c.section_totals block.category + block.token_count);
}

abbrev pub with_omitted : Chosen → ContextBlock → Chosen
with_omitted c block = record c { omitted = c.omitted ++ (block ∷ []) }

-- `for block in ordered`
unfoldable pub choose :
    Dict String SectionSpec → ℕ → Chosen → List ContextBlock → Result ProjectionError Chosen
unfolding is_required
choose sections input_budget c [] = ok c
choose sections input_budget c (block ∷ blocks) = elim (fits sections input_budget c block) [
  | true ↦ choose sections input_budget (with_selected c block) blocks
  | false ↦ elim (is_required sections block) [
    | true ↦ err context_overflow
    | false ↦ choose sections input_budget (with_omitted c block) blocks
  ]
]

-- `by_placement[placement]`
unfoldable pub contents_at : Dict String SectionSpec → Placement → List ContextBlock → List String
unfolding section_of
contents_at sections placement blocks =
    map (λ b. b.content) (select (λ b. (section_of sections b).placement == placement) blocks)

unfoldable pub context_of :
    ProjectionPolicy → Dict String SectionSpec → ℕ → Chosen → ModelCallContext
unfolding contents_at
context_of policy sections input_budget c = record {
  for_system = contents_at sections system_messages c.selected;
  for_messages = contents_at sections messages c.selected;
  for_tools = contents_at sections tools c.selected;
  budget_report = record {
    input_budget = input_budget;
    selected_tokens = c.total;
    selected_block_ids = map (λ b. b.block_id) c.selected;
    omitted_block_ids = map (λ b. b.block_id) c.omitted;
    token_count_method = "provided";
  };
  policy_version = policy.version;
}

abbrev pub has_none : {A : Type 0} → List A → Bool
has_none [] = true
has_none (x ∷ xs) = false

unfoldable pub project :
    ProjectionPolicy → List ContextBlock → ℕ → Result ProjectionError ModelCallContext
unfolding sections_from is_required sort_blocks choose context_of
project policy blocks input_budget =
    let sections = sections_from [] policy.sections in
    elim (policy.model_role == "" || has_none policy.sections) [
      | true ↦ err projection_configuration_error
      | false ↦ elim (any (λ b. not (is_known sections b)) blocks) [
        | true ↦ err projection_configuration_error
        | false ↦ elim (ltb input_budget (tokens (select (is_required sections) blocks))) [
          | true ↦ err context_overflow
          | false ↦ elim (choose sections input_budget none_chosen (sort_blocks sections blocks)) [
            | err e ↦ err e
            | ok c ↦ ok (context_of policy sections input_budget c)
          ]
        ]
      ]
    ]
