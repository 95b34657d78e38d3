-- ===== src/Plan/Accepted.antt =====
-- src/agent/planning/dag.py: a plan that `validate_plan` accepts can be run to its end.
use ven_agent.Prelude.{
  ℕ, ◌≡◌, ◌≢◌, refl, sym, subst, ◌∙◌, inl, inr, Bool, true, false, String, List, [], ◌∷◌, ◌++◌, map,
  arith, text_has_eq, Occurs,
}
use ven_agent.Plan.{
  PlanNode, Plan, NodeOutcome, contains, resolved_ids, known_ids, pending_nodes, ready_layer,
  unresolvable_dependencies, unresolvable_each, unresolvable_of,
}
use ven_agent.Plan.Layers.{contains-Occurs}
use ven_agent.Plan.Waiting.{IsRanked, ready_layer-progress, nil-append}
use ven_agent.Plan.Validation.{
  validate_plan, error_if, all_node_errors, node_errors, dependency_errors, has_cycle,
  has_duplicate, is_empty,
}
use ven_agent.Plan.Cycles.Correct.{has_cycle-Ranks, Ranks}

error_if-nil :
    (wrong : Bool) (text : String) (rest : List String)
    → error_if wrong text rest ≡ []
    → (wrong ≡ false) × (rest ≡ [])
error_if-nil true text rest h = cc
error_if-nil false text rest h = (refl, h)

-- No dependency of the plan is the empty text: the planner drops those.
abbrev pub NamesDependencies : Plan → Type 0
NamesDependencies plan =
    (node : PlanNode) (dep : String)
    → Occurs node plan.nodes
    → Occurs dep node.depends_on
    → dep ≢ ""

dependency_errors-nil :
    (ids : List String) (node_id : String) (deps : List String) (dep : String)
    → dependency_errors ids node_id deps ≡ []
    → Occurs dep deps
    → dep ≢ ""
    → contains dep ids ≡ true
unfolding dependency_errors
dependency_errors-nil ids node_id [] dep h m named = elim m [ ]
dependency_errors-nil ids node_id (d ∷ deps) dep h (inl e) named =
    let fine = (error_if-nil _ _ (dependency_errors ids node_id deps) h).0 in
    rw e (ground (arith, fine, text_has_eq.decides d "", λ (q : d ≡ ""). named (e ∙ q)))
dependency_errors-nil ids node_id (d ∷ deps) dep h (inr m) named =
    dependency_errors-nil ids node_id deps dep
      (error_if-nil _ _ (dependency_errors ids node_id deps) h).1 m named

module _ (ids tools agents : List String) where
  -- What no error at a node means for its dependencies.
  node_errors-nil :
      (node : PlanNode)
      → node_errors ids tools agents node ≡ []
      → (dependency_errors ids node.node_id node.depends_on ≡ [])
        × (contains node.node_id node.depends_on ≡ false)
  unfolding node_errors
  node_errors-nil node h =
      let (deps, others) = nil-append (dependency_errors ids node.node_id node.depends_on) _ h in
      (deps, (error_if-nil _ _ _ others).0)

  all_node_errors-nil :
      (nodes : List PlanNode) (node : PlanNode)
      → all_node_errors ids tools agents nodes ≡ []
      → Occurs node nodes
      → node_errors ids tools agents node ≡ []
  unfolding all_node_errors
  all_node_errors-nil [] node h m = elim m [ ]
  all_node_errors-nil (x ∷ nodes) node h m =
      let (here, there) = nil-append (node_errors ids tools agents x) _ h in
      elim m [ inl e ↦ rw e here | inr m' ↦ all_node_errors-nil nodes node there m' ]

module _ (known : List String) where
  unresolvable_of-none :
      (node_id : String) (deps : List String)
      → ((dep : String) → Occurs dep deps → contains dep known ≡ true)
      → unresolvable_of known node_id deps ≡ []
  unfolding unresolvable_of
  unresolvable_of-none node_id [] h = refl
  unresolvable_of-none node_id (dep ∷ deps) h =
      rw (h dep (inl refl)) (unresolvable_of-none node_id deps (λ d m. h d (inr m)))

  unresolvable_each-none :
      (nodes : List PlanNode)
      → ((node : PlanNode) (dep : String)
          → Occurs node nodes
          → Occurs dep node.depends_on
          → contains dep known ≡ true)
      → unresolvable_each known nodes ≡ []
  unfolding unresolvable_each
  unresolvable_each-none [] h = refl
  unresolvable_each-none (node ∷ nodes) h =
      rw (unresolvable_of-none node.node_id node.depends_on (λ d m. h node d (inl refl) m))
        (unresolvable_each-none nodes (λ n d m. h n d (inr m)))

contains-append_left :
    (name : String) (xs ys : List String)
    → contains name xs ≡ true
    → contains name (xs ++ ys) ≡ true
contains-append_left name [] ys h = cc
contains-append_left name (x ∷ xs) ys h = ground (arith, contains-append_left name xs ys)

module _ (plan : Plan) (tools agents : List String)
    (accepted : validate_plan plan tools agents ≡ []) (named : NamesDependencies plan) where
  abbrev ids : List String
  ids = map (λ node. node.node_id) plan.nodes

  accepted_parts :
      (all_node_errors ids tools agents plan.nodes ≡ []) × (has_cycle plan.nodes ≡ false)
  unfolding validate_plan
  accepted_parts =
      let graph_errors = error_if (has_cycle plan.nodes) "plan_cycle" [] in
      let errors = all_node_errors ids tools agents plan.nodes ++ graph_errors in
      let id_errors = error_if (has_duplicate ids) "duplicate_node_id" errors in
      let h = (error_if-nil (is_empty plan.nodes) "plan_empty" id_errors accepted).1 in
      let h' = (error_if-nil (has_duplicate ids) "duplicate_node_id" errors h).1 in
      let (nodes, cycle) =
        nil-append (all_node_errors ids tools agents plan.nodes) graph_errors h' in
      (nodes, (error_if-nil (has_cycle plan.nodes) "plan_cycle" [] cycle).0)

  accepted_node :
      (node : PlanNode)
      → Occurs node plan.nodes
      → (dependency_errors ids node.node_id node.depends_on ≡ [])
        × (contains node.node_id node.depends_on ≡ false)
  accepted_node node m =
      node_errors-nil ids tools agents node
        (all_node_errors-nil ids tools agents plan.nodes node accepted_parts.0 m)

  accepted_dependency :
      (node : PlanNode) (dep : String)
      → Occurs node plan.nodes
      → Occurs dep node.depends_on
      → contains dep ids ≡ true
  accepted_dependency node dep m n =
      dependency_errors-nil ids node.node_id node.depends_on dep (accepted_node node m).0 n
        (named node dep m n)

  accepted-IsRanked : (rank : String → ℕ) → Ranks rank plan.nodes → IsRanked rank plan
  accepted-IsRanked rank ranked node other m n d = ranked other.node_id node.node_id (
    node,
    m,
    refl,
    d,
    accepted_dependency node other.node_id m d,
    λ same.
        let clash : true ≡ false =
          sym (
            contains-Occurs node.node_id node.depends_on
              (subst (λ i. Occurs i node.depends_on) same d))
          ∙ (accepted_node node m).1 in
        cc clash,
  )

-- A plan that `validate_plan` accepts, and whose dependencies are not empty texts, does not get
-- stuck: whatever outcomes there are, while a node is pending, a node is ready.
pub validate_plan-progress :
    (plan : Plan) (tools agents : List String) (outcomes : List NodeOutcome) (node : PlanNode)
    → validate_plan plan tools agents ≡ []
    → NamesDependencies plan
    → Occurs node (pending_nodes plan outcomes)
    → (first : PlanNode) × Occurs first (ready_layer plan outcomes)
unfolding unresolvable_dependencies
validate_plan-progress plan tools agents outcomes node accepted named m =
    let (rank, ranked) =
      has_cycle-Ranks plan.nodes (accepted_parts plan tools agents accepted named).1 in
    ready_layer-progress rank plan outcomes node
      (accepted-IsRanked plan tools agents accepted named rank ranked)
      (unresolvable_each-none (known_ids plan.nodes (resolved_ids outcomes)) plan.nodes (λ n d p q.
        contains-append_left d (map (λ i. i.node_id) plan.nodes) (resolved_ids outcomes)
          (accepted_dependency plan tools agents accepted named n d p q)))
      m
