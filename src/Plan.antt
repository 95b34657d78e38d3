-- ===== src/Plan.antt =====
-- src/agent/state.py and src/agent/planning/dag.py: the plan of a run, the outcomes of its nodes, and
-- which nodes can run next.
pub mod Layers
pub mod Waiting
pub mod Validation
pub mod Cycles
pub mod Accepted
mod Tests
use ven_agent.Prelude.{
  ℕ, ◌≡◌, ◌↔◌, Bool, true, false, ◌&&◌, ◌||◌, not, Option, String, List, [], ◌∷◌, ◌++◌, map, arith,
  ◌==◌, text_has_eq, any, all, select, if◌then◌else◌,
}
use Prim.Native.String.{◌++◌ as ◌+++◌}

pub record PlanNode : Type 0 where
  pub node_id : String
  pub objective : String
  pub node_type : String
  pub tool : Option String
  pub agent_name : Option String
  pub arguments_json : String
  pub depends_on : List String
  pub race_group : Option String

pub record Plan : Type 0 where
  pub revision : ℕ
  pub goal : String
  pub nodes : List PlanNode

pub record NodeOutcome : Type 0 where
  pub plan_revision : ℕ
  pub node_id : String
  pub logical_attempt : ℕ
  pub outcome : String
  pub observation : String
  pub retryable : Bool
  pub tool_call_id : Option String
  pub artifact_refs : List String
  pub evidence_refs : List String
  pub error_code : Option String

-- `name in names`, for a `frozenset` or a tuple: only membership is asked of either.
abbrev pub contains : String → List String → Bool
contains name names = any (λ other. other == name) names

abbrev outcome_ids : (NodeOutcome → Bool) → List NodeOutcome → List String
outcome_ids test outcomes = map (λ item. item.node_id) (select test outcomes)

unfoldable pub succeeded_ids : List NodeOutcome → List String
succeeded_ids outcomes = outcome_ids (λ item. item.outcome == "succeeded") outcomes

unfoldable pub resolved_ids : List NodeOutcome → List String
resolved_ids outcomes =
    outcome_ids (λ item. item.outcome == "succeeded" || item.outcome == "skipped") outcomes

unfoldable pub failed_node_ids : List NodeOutcome → List String
failed_node_ids outcomes = outcome_ids (λ item. item.outcome == "failed") outcomes

unfoldable pub is_pending : PlanNode → List String → Bool
is_pending node done = not (contains node.node_id done)

unfoldable pub dependencies_satisfied : PlanNode → List String → List String → Bool
dependencies_satisfied node done known =
    all (λ dep. contains dep done) node.depends_on
    && all (λ dep. contains dep known) node.depends_on

-- `frozenset(item.node_id for item in nodes) | done`
abbrev pub known_ids : List PlanNode → List String → List String
known_ids nodes done = map (λ node. node.node_id) nodes ++ done

-- The `node:dep` texts of one node.
unfoldable pub unresolvable_of : List String → String → List String → List String
unresolvable_of known node_id [] = []
unresolvable_of known node_id (dep ∷ deps) =
    let rest = unresolvable_of known node_id deps in
    if contains dep known then rest else (node_id +++ ":" +++ dep) ∷ rest

unfoldable pub unresolvable_each : List String → List PlanNode → List String
unfolding unresolvable_of
unresolvable_each known [] = []
unresolvable_each known (node ∷ nodes) =
    unresolvable_of known node.node_id node.depends_on ++ unresolvable_each known nodes

unfoldable pub unresolvable_dependencies : List PlanNode → List String → List String
unfolding unresolvable_each
unresolvable_dependencies nodes done = unresolvable_each (known_ids nodes done) nodes

unfoldable pub ready_layer : Plan → List NodeOutcome → List PlanNode
unfolding resolved_ids is_pending dependencies_satisfied
ready_layer plan outcomes =
    let done = resolved_ids outcomes in
    let known = known_ids plan.nodes done in
    select (λ node. is_pending node done && dependencies_satisfied node done known) plan.nodes

unfoldable pub pending_nodes : Plan → List NodeOutcome → List PlanNode
unfolding resolved_ids is_pending
pending_nodes plan outcomes =
    let done = resolved_ids outcomes in select (λ node. is_pending node done) plan.nodes
