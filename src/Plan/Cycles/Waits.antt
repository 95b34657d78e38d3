-- ===== src/Plan/Cycles/Waits.antt =====
-- src/agent/planning/dag.py: which nodes wait for which, and the edges that `_has_cycle` draws.
use ven_agent.Prelude.{
  ◌≡◌, ◌≢◌, refl, sym, ap, subst, ◌∙◌, ◌⊎◌, inl, inr, Bool, true, ◌&&◌, String, List, [], ◌∷◌, map,
  arith, ◌==◌, ◌!=◌, text_has_eq, number_has_eq, Bool-cases, Occurs, Occurs-append,
  append-Occurs-left, append-Occurs-right,
}
use ven_agent.Plan.{PlanNode, contains}
use ven_agent.Plan.Cycles.Build.{Edges, targets, node_edges, plan_edges}

pub Occurs-targets :
    (s t : String) (edges : Edges) → Occurs t (targets s edges) → Occurs (s, t) edges
Occurs-targets s t [] m = elim m [ ]
Occurs-targets s t ((a, b) ∷ edges) m = elim (Bool-cases (a == s)) [
  | inl same ↦ elim (found same) [
    | inl e ↦ inl (rw (e, (text_has_eq.decides a s).0 same))
    | inr m' ↦ inr (Occurs-targets s t edges m')
  ]
  | inr other ↦ inr (Occurs-targets s t edges (rw other at m))
]
  where
    found : a == s ≡ true → (t ≡ b) ⊎ Occurs t (targets s edges)
    found same = rw same at m

-- `t` waits for `s`: they are ids of different nodes, and `s` is a dependency of a node `t`.
abbrev pub WaitsFor : List PlanNode → String → String → Type 0
WaitsFor nodes s t =
    (node : PlanNode) × Occurs node nodes
    × (node.node_id ≡ t)
    × Occurs s node.depends_on
    × (contains s (map (λ n. n.node_id) nodes) ≡ true)
    × (s ≢ t)

module _ (known : String → Bool) where
  Occurs-node_edges :
      (node_id : String) (deps : List String) (s t : String)
      → Occurs (s, t) (node_edges known node_id deps)
      → (t ≡ node_id) × Occurs s deps × (known s ≡ true) × (s ≢ t)
  Occurs-node_edges node_id [] s t m = elim m [ ]
  Occurs-node_edges node_id (dep ∷ deps) s t m = elim (Bool-cases (known dep && dep != node_id)) [
    | inl linked ↦ elim (found linked) [
      | inl e ↦
          let s_is : s ≡ dep = ap (λ p. p.0) e in
          let t_is : t ≡ node_id = ap (λ p. p.1) e in
          (
            t_is,
            inl s_is,
            rw s_is (ground arith),
            λ q. ground (arith, text_has_eq.decides dep node_id, sym s_is ∙ q ∙ t_is),
          )
      | inr m' ↦ let (a, b, c, d) = Occurs-node_edges node_id deps s t m' in (a, inr b, c, d)
    ]
    | inr skipped ↦
        let (a, b, c, d) = Occurs-node_edges node_id deps s t (rw skipped at m) in (a, inr b, c, d)
  ]
    where
      found :
          known dep && dep != node_id ≡ true
          → ◌≡◌ {A = String × String} (s, t) (dep, node_id)
            ⊎ Occurs (s, t) (node_edges known node_id deps)
      found linked = rw linked at m

  node_edges-Occurs :
      (node_id : String) (deps : List String) (s : String)
      → Occurs s deps
      → known s ≡ true
      → s ≢ node_id
      → Occurs (s, node_id) (node_edges known node_id deps)
  node_edges-Occurs node_id [] s m k d = elim m [ ]
  node_edges-Occurs node_id (dep ∷ deps) s (inl e) k d =
      let linked : known dep && dep != node_id ≡ true =
        ground (arith, ap known e, text_has_eq.decides dep node_id) in
      rw linked (inl (rw e))
  node_edges-Occurs node_id (dep ∷ deps) s (inr m) k d =
      elim (Bool-cases (known dep && dep != node_id)) [
        | inl linked ↦ rw linked (inr (node_edges-Occurs node_id deps s m k d))
        | inr skipped ↦ rw skipped (node_edges-Occurs node_id deps s m k d)
      ]

  Occurs-plan_edges :
      (nodes : List PlanNode) (s t : String)
      → Occurs (s, t) (plan_edges known nodes)
      → (node : PlanNode) × Occurs node nodes
        × (node.node_id ≡ t)
        × Occurs s node.depends_on
        × (known s ≡ true)
        × (s ≢ t)
  Occurs-plan_edges [] s t m = elim m [ ]
  Occurs-plan_edges (node ∷ nodes) s t m =
      elim (Occurs-append (s, t) (node_edges known node.node_id node.depends_on)
        (plan_edges known nodes) m) [
          | inl here ↦
              let (a, b, c, d) = Occurs-node_edges node.node_id node.depends_on s t here in
              (node, inl refl, sym a, b, c, d)
          | inr there ↦
              let (n, p, q, r, k, d) = Occurs-plan_edges nodes s t there in (n, inr p, q, r, k, d)
        ]

  plan_edges-Occurs :
      (nodes : List PlanNode) (node : PlanNode) (s : String)
      → Occurs node nodes
      → Occurs s node.depends_on
      → known s ≡ true
      → s ≢ node.node_id
      → Occurs (s, node.node_id) (plan_edges known nodes)
  plan_edges-Occurs [] node s m n k d = elim m [ ]
  plan_edges-Occurs (x ∷ nodes) node s (inl e) n k d = rw e (
      append-Occurs-left (s, x.node_id) (node_edges known x.node_id x.depends_on)
        (plan_edges known nodes)
        (node_edges-Occurs x.node_id x.depends_on s (rw e at n) k (rw e at d)))
  plan_edges-Occurs (x ∷ nodes) node s (inr m) n k d =
      append-Occurs-right (s, node.node_id) (node_edges known x.node_id x.depends_on)
        (plan_edges known nodes) (plan_edges-Occurs nodes node s m n k d)

-- The edges of the nodes are the pairs of which one waits for the other.
abbrev pub edges_of : List PlanNode → Edges
edges_of nodes = plan_edges (λ id. contains id (map (λ n. n.node_id) nodes)) nodes

pub edges_of-WaitsFor :
    (nodes : List PlanNode) (s t : String) → Occurs (s, t) (edges_of nodes) → WaitsFor nodes s t
edges_of-WaitsFor nodes = Occurs-plan_edges (λ id. contains id (map (λ n. n.node_id) nodes)) nodes

pub WaitsFor-edges_of :
    (nodes : List PlanNode) (s t : String) → WaitsFor nodes s t → Occurs (s, t) (edges_of nodes)
WaitsFor-edges_of nodes s t (node, m, e, n, k, d) =
    subst (λ i. Occurs (s, i) (edges_of nodes)) e
      (plan_edges-Occurs (λ id. contains id (map (λ i. i.node_id) nodes)) nodes node s m n k
        (λ q. d (q ∙ e)))
