-- ===== src/Plan/Validation.antt =====
-- src/agent/planning/dag.py: `validate_plan`, and Kahn's test for cycles.
use Prim.Native.String.{◌++◌ as ◌+++◌}
use ven_agent.Prelude.{
  ℕ, zero, suc, ◌+◌, ◌-◌, Bool, true, false, not, ◌&&◌, ◌||◌, Option, none, some, String, List, [],
  ◌∷◌, ◌++◌, map, length, ◌==◌, ◌!=◌, text_has_eq, number_has_eq, if◌then◌else◌,
}
use ven_agent.Prelude.Dict.{Dict, get, put}
use ven_agent.Plan.{PlanNode, Plan, contains}

abbrev pub has_key : {V : Type 0} → Dict String V → String → Bool
has_key d k = elim (get d k) [ none ↦ false | some v ↦ true ]

-- `indegree[k]` and `edges[k]`, which are read at keys that are there.
abbrev pub degree_at : Dict String ℕ → String → ℕ
degree_at d k = elim (get d k) [ none ↦ 0 | some n ↦ n ]

abbrev pub targets_at : Dict String (List String) → String → List String
targets_at d k = elim (get d k) [ none ↦ [] | some ids ↦ ids ]

-- `{node.node_id: value for node in nodes}`
unfoldable pub start_with : {V : Type 0} → V → Dict String V → List PlanNode → Dict String V
start_with value d [] = d
start_with value d (node ∷ nodes) = start_with value (put d node.node_id value) nodes

abbrev pub Graph : Type 0
Graph = Dict String (List String) × Dict String ℕ

-- The loop over the dependencies of one node. `indegree[node_id]` grows by one for each edge.
unfoldable pub link : String → List String → Graph → Graph
link node_id [] graph = graph
link node_id (dep ∷ deps) (edges, indegree) = link node_id deps (
    if has_key indegree dep && dep != node_id
    then (
      put edges dep (targets_at edges dep ++ node_id ∷ []),
      put indegree node_id (degree_at indegree node_id + 1),
    )
    else (edges, indegree))

unfoldable pub link_all : List PlanNode → Graph → Graph
unfolding link
link_all [] graph = graph
link_all (node ∷ nodes) graph = link_all nodes (link node.node_id node.depends_on graph)

unfoldable pub graph_of : List PlanNode → Graph
unfolding start_with link_all
graph_of nodes = link_all nodes (start_with [] [] nodes, start_with 0 [] nodes)

-- The ids of degree 0. `queue` is a stack: its end is the head of the list here.
unfoldable pub sources : Dict String ℕ → List String → List String
sources [] queue = queue
sources ((id, degree) ∷ entries) queue = sources entries (if degree == 0 then id ∷ queue else queue)

-- The loop over `edges[current]`. A degree that is lowered is not 0.
unfoldable pub relax : List String → Dict String ℕ → List String → Dict String ℕ × List String
relax [] indegree queue = (indegree, queue)
relax (downstream ∷ rest) indegree queue =
    let degree : ℕ = degree_at indegree downstream - 1 in
    relax rest (put indegree downstream degree) (if degree == 0 then downstream ∷ queue else queue)

-- `while queue`, on fuel: how many ids were taken off the queue.
unfoldable pub process : ℕ → Dict String (List String) → Dict String ℕ → List String → ℕ → ℕ
unfolding relax
process zero edges indegree queue processed = processed
process (suc fuel) edges indegree [] processed = processed
process (suc fuel) edges indegree (current ∷ queue) processed =
    let (indegree', queue') = relax (targets_at edges current) indegree queue in
    process fuel edges indegree' queue' (processed + 1)

-- Each id is taken off the queue once, so as many rounds as there are nodes are enough.
unfoldable pub has_cycle : List PlanNode → Bool
unfolding graph_of sources process
has_cycle nodes =
    let (edges, indegree) = graph_of nodes in
    process (length nodes) edges indegree (sources indegree []) 0 != length nodes

-- `if wrong: errors.append(text)`, before the errors that follow.
abbrev pub error_if : Bool → String → List String → List String
error_if wrong text rest = if wrong then text ∷ rest else rest

-- How an f-string shows an optional text.
abbrev pub shown : Option String → String
shown none = "None"
shown (some text) = text

-- `name not in names`, where the name may be `None`.
abbrev pub is_missing : Option String → List String → Bool
is_missing none names = true
is_missing (some name) names = not (contains name names)

unfoldable pub dependency_errors : List String → String → List String → List String
dependency_errors ids node_id [] = []
dependency_errors ids node_id (dep ∷ deps) =
    error_if (not (contains dep ids) && dep != "")
      ("unknown_dependency:" +++ node_id +++ ":" +++ dep) (dependency_errors ids node_id deps)

unfoldable pub node_errors : List String → List String → List String → PlanNode → List String
unfolding dependency_errors
node_errors ids known_tools known_agents node =
    dependency_errors ids node.node_id node.depends_on
    ++ error_if (contains node.node_id node.depends_on) ("self_dependency:" +++ node.node_id) (
        error_if (node.node_type == "tool" && is_missing node.tool known_tools)
          ("unknown_tool:" +++ node.node_id +++ ":" +++ shown node.tool)
          (error_if (node.node_type == "sub_agent" && is_missing node.agent_name known_agents)
            ("unknown_agent:" +++ node.node_id +++ ":" +++ shown node.agent_name) []))

unfoldable pub all_node_errors :
    List String → List String → List String → List PlanNode → List String
unfolding node_errors
all_node_errors ids known_tools known_agents [] = []
all_node_errors ids known_tools known_agents (node ∷ nodes) =
    node_errors ids known_tools known_agents node
    ++ all_node_errors ids known_tools known_agents nodes

-- `len(ids) != len(set(ids))`
unfoldable pub has_duplicate : List String → Bool
has_duplicate [] = false
has_duplicate (id ∷ ids) = contains id ids || has_duplicate ids

abbrev pub is_empty : {A : Type 0} → List A → Bool
is_empty [] = true
is_empty (x ∷ xs) = false

unfoldable pub validate_plan : Plan → List String → List String → List String
unfolding has_duplicate all_node_errors
validate_plan plan known_tools known_agents =
    let ids = map (λ node. node.node_id) plan.nodes in
    error_if (is_empty plan.nodes) "plan_empty" (
      error_if (has_duplicate ids) "duplicate_node_id" (
        all_node_errors ids known_tools known_agents plan.nodes
        ++ error_if (has_cycle plan.nodes) "plan_cycle" []))
