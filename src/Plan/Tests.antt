-- ===== src/Plan/Tests.antt =====
-- Plans of src/agent/planning/dag.py, and the theorems at them.
use ven_agent.Prelude.{
  ℕ, ◌≡◌, ◌≢◌, ◌↔◌, ◌<◌, All, All-Occurs, refl, true, inl, inr, false, none, some, String, List, [],
  ◌∷◌, length, arith, Occurs, ◌==◌, text_has_eq, if◌then◌else◌,
}
use ven_agent.Plan.{
  PlanNode, Plan, NodeOutcome, succeeded_ids, resolved_ids, failed_node_ids, is_pending,
  dependencies_satisfied, ready_layer, pending_nodes, unresolvable_of, unresolvable_each,
  unresolvable_dependencies,
}
use ven_agent.Prelude.Dict.{get, put}
use ven_agent.Plan.Validation.{
  start_with, link, link_all, graph_of, sources, relax, process, has_cycle, dependency_errors,
  node_errors, all_node_errors, has_duplicate, validate_plan,
}
use ven_agent.Plan.Cycles.Correct.{process-ends, Ranks, has_cycle_lem}
use ven_agent.Plan.Accepted.{NamesDependencies, validate_plan-progress}
use ven_agent.Plan.Waiting.{IsRanked, ready_layer-independent, ready_layer-progress}

plans : Unit {0}
unfolding succeeded_ids resolved_ids failed_node_ids is_pending dependencies_satisfied ready_layer
    pending_nodes unresolvable_of unresolvable_each unresolvable_dependencies
plans = tt

abbrev step : String → List String → PlanNode
step id deps = record {
  node_id = id;
  objective = "";
  node_type = "tool";
  tool = some "search";
  agent_name = none;
  arguments_json = "{}";
  depends_on = deps;
  race_group = none;
}

abbrev outcome_of : String → String → NodeOutcome
outcome_of id result = record {
  plan_revision = 1;
  node_id = id;
  logical_attempt = 1;
  outcome = result;
  observation = "";
  retryable = false;
  tool_call_id = none;
  artifact_refs = [];
  evidence_refs = [];
  error_code = none;
}

-- Two searches, one of which lost a race, and a summary of both.
abbrev trip : Plan
trip = record {
  revision = 1;
  goal = "trip";
  nodes =
      step "sum" ("a" ∷ "b" ∷ []) ∷ step "a" [] ∷ step "b" ("a" ∷ []) ∷ step "c" ("a" ∷ []) ∷ [];
}

abbrev after_a : List NodeOutcome
after_a = outcome_of "a" "succeeded" ∷ outcome_of "x" "failed" ∷ []

layers :
    (ready_layer trip [] ≡ step "a" [] ∷ [])
    × (ready_layer trip after_a ≡ step "b" ("a" ∷ []) ∷ step "c" ("a" ∷ []) ∷ [])
    × (ready_layer trip (outcome_of "b" "skipped" ∷ after_a)
        ≡ step "sum" ("a" ∷ "b" ∷ []) ∷ step "c" ("a" ∷ []) ∷ [])
unfolding plans
layers = (refl, refl, refl)

outcome_sets :
    (succeeded_ids (outcome_of "b" "skipped" ∷ after_a) ≡ "a" ∷ [])
    × (resolved_ids (outcome_of "b" "skipped" ∷ after_a) ≡ "b" ∷ "a" ∷ [])
    × (failed_node_ids after_a ≡ "x" ∷ [])
    × (unresolvable_dependencies (step "a" ("z" ∷ []) ∷ []) [] ≡ "a:z" ∷ [])
unfolding plans
outcome_sets = (refl, refl, refl, refl)

ready_layer-independent_example : ¬ Occurs {A = String} "b" ("a" ∷ [])
unfolding plans
ready_layer-independent_example =
    ready_layer-independent trip after_a (step "b" ("a" ∷ [])) (step "c" ("a" ∷ [])) (inl refl)
      (inr (inl refl))

abbrev depth : String → ℕ
depth id = if id == "a" then 0 else if id == "sum" then 2 else 1

abbrev RanksBelow : PlanNode → Type 0
RanksBelow node = All (λ dep. depth dep < depth node.node_id) node.depends_on

trip-RanksBelow : All RanksBelow trip.nodes
trip-RanksBelow =
    ((omega arith, (omega arith, tt)), (tt, ((omega arith, tt), ((omega arith, tt), tt))))

trip-IsRanked : IsRanked depth trip
trip-IsRanked node other m n d =
    All-Occurs (λ dep. depth dep < depth node.node_id) node.depends_on
      (All-Occurs RanksBelow trip.nodes trip-RanksBelow m) d

ready_layer-progress_example : (first : PlanNode) × Occurs first (ready_layer trip after_a)
unfolding plans
ready_layer-progress_example =
    ready_layer-progress depth trip after_a (step "sum" ("a" ∷ "b" ∷ [])) trip-IsRanked refl
      (inl refl)

-- The checks of a plan, opened.
checks : Unit {0}
unfolding get put start_with link link_all graph_of sources relax process has_cycle
    dependency_errors node_errors all_node_errors has_duplicate validate_plan
checks = tt

trip_accepted : validate_plan trip ("search" ∷ []) [] ≡ []
unfolding checks
trip_accepted = refl

-- A cycle, and a node that waits for itself and names an unknown dependency and no tool.
rejected_plans :
    (has_cycle (step "a" ("b" ∷ []) ∷ step "b" ("a" ∷ []) ∷ step "c" [] ∷ []) ≡ true)
    × (validate_plan (record trip { nodes = step "a" ("a" ∷ "z" ∷ []) ∷ [] }) [] []
        ≡ "unknown_dependency:a:z" ∷ "self_dependency:a" ∷ "unknown_tool:a:search" ∷ [])
    × (validate_plan (record trip { nodes = [] }) [] [] ≡ "plan_empty" ∷ [])
unfolding checks
rejected_plans = (refl, refl, refl)

process-ends_example :
    process 9 (graph_of trip.nodes).0 (graph_of trip.nodes).1 (sources (graph_of trip.nodes).1 []) 0
    ≡ process
        (length trip.nodes)
        (graph_of trip.nodes).0
        (graph_of trip.nodes).1
        (sources (graph_of trip.nodes).1 [])
        0
process-ends_example = process-ends trip.nodes 9 (omega arith)

has_cycle_lem_example :
    (has_cycle trip.nodes ≡ false) ↔ ((rank : String → ℕ) × Ranks rank trip.nodes)
unfolding checks
has_cycle_lem_example = has_cycle_lem trip.nodes refl

trip-IsNamed : All (λ node. All (λ dep. ◌≢◌ {A = String} dep "") node.depends_on) trip.nodes
trip-IsNamed = (
  (ground (arith, text_has_eq.decides "a" ""), (ground (arith, text_has_eq.decides "b" ""), tt)),
  (
    tt,
    (
      (ground (arith, text_has_eq.decides "a" ""), tt),
      ((ground (arith, text_has_eq.decides "a" ""), tt), tt),
    ),
  ),
)

trip-NamesDependencies : NamesDependencies trip
trip-NamesDependencies node dep m d =
    All-Occurs (λ i. ◌≢◌ {A = String} i "") node.depends_on
      (All-Occurs (λ (n : PlanNode). All (λ i. ◌≢◌ {A = String} i "") n.depends_on) trip.nodes
        trip-IsNamed m)
      d

validate_plan-progress_example : (first : PlanNode) × Occurs first (ready_layer trip after_a)
unfolding plans
validate_plan-progress_example =
    validate_plan-progress trip ("search" ∷ []) [] after_a (step "sum" ("a" ∷ "b" ∷ []))
      trip_accepted trip-NamesDependencies (inl refl)
