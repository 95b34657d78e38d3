-- ===== src/Plan/Cycles/Correct.antt =====
-- src/agent/planning/dag.py: `_has_cycle` is false exactly for the nodes that can be ranked.
use ven_agent.Prelude.{
  ℕ, zero, suc, ◌≤◌, ◌<◌, ◌≡◌, ◌↔◌, refl, sym, ap, subst, inl, inr, true, false, String, List, [],
  ◌∷◌, map, arith, ◌==◌, text_has_eq, number_has_eq, if◌then◌else◌, Bool-cases, length, All, Occurs,
  Occurs-All,
}
use ven_agent.Prelude.Dict.{keys}
use ven_agent.Plan.{PlanNode, contains}
use ven_agent.Plan.Validation.{
  has_key, degree_at, graph_of, sources, process, has_cycle, has_duplicate,
}
use ven_agent.Plan.Cycles.Counting.{
  count, contains-count, count-contains, count-le_of_length, length-le_of_count,
}
use ven_agent.Plan.Cycles.Build.{targets, graph_of-Holds, contains-node_id}
use ven_agent.Plan.Cycles.Keys.{graph_of-IsOnce, count-sources}
use ven_agent.Plan.Cycles.Invariant.{Inv}
use ven_agent.Plan.Cycles.Waits.{
  WaitsFor, edges_of, edges_of-WaitsFor, WaitsFor-edges_of, Occurs-targets,
}
use ven_agent.Plan.Cycles.Rank.{
  IsTopological, rank_in, Done, process-Done, process-enough, zero-open_count,
}

module _ (nodes : List PlanNode) where
  abbrev node_ids : List String
  node_ids = map (λ n. n.node_id) nodes

  abbrev ids : List String
  ids = keys (graph_of nodes).1

  count-ids : (id : String) → count id ids ≡ (if contains id node_ids then 1 else 0)
  count-ids id = ground (arith, (graph_of-IsOnce nodes).0 id, (graph_of-Holds nodes).same_keys id)

  count-start :
      (id : String)
      → count id (sources (graph_of nodes).1 []) ≡ (
          if has_key (graph_of nodes).1 id
          then (if degree_at (graph_of nodes).1 id == 0 then 1 else 0)
          else 0)
  count-start id =
      ground (arith, count-sources (graph_of nodes).1 [] id (ground (arith, count-ids id)))

  start-Inv : Inv ids (edges_of nodes) [] [] (sources (graph_of nodes).1 []) (graph_of nodes).1
  start-Inv = record {
    degrees = λ id. omega (arith, (graph_of-Holds nodes).degrees id);
    placed = λ id p. ground (arith, count-start id);
    zeros = λ id p q. ground (arith, count-start id, (graph_of-IsOnce nodes).0 id);
    once = λ id. ground (arith, count-start id, (graph_of-IsOnce nodes).0 id);
  }

  targets_known : (s : String) → All (λ t. 1 ≤ count t ids) (targets s (edges_of nodes))
  targets_known s = Occurs-All _ (targets s (edges_of nodes)) (λ t m.
      let (node, n, e, _, _, _) =
        edges_of-WaitsFor nodes s t (Occurs-targets s t (edges_of nodes) m) in
      let there : contains t node_ids ≡ true =
        subst (λ i. contains i node_ids ≡ true) e (contains-node_id nodes node n) in
      ground (arith, count-ids t))

  process_all :
      (order : List String) × (process
          (length nodes)
          (graph_of nodes).0
          (graph_of nodes).1
          (sources (graph_of nodes).1 [])
          0
        ≡ length order)
      × Done ids (edges_of nodes) order
  process_all =
      process-Done ids (edges_of nodes) (λ id. ground (arith, count-ids id)) targets_known
        (graph_of nodes).0 (graph_of-Holds nodes).lists (length nodes) [] _ _ start-Inv tt
        (omega (arith, (graph_of-IsOnce nodes).1))

  -- The loop of `_has_cycle` ends within as many rounds as there are nodes: on any more fuel it counts
  -- the same ids.
  pub process-ends :
      (fuel : ℕ)
      → length nodes ≤ fuel
      → process fuel (graph_of nodes).0 (graph_of nodes).1 (sources (graph_of nodes).1 []) 0
        ≡ process
            (length nodes)
            (graph_of nodes).0
            (graph_of nodes).1
            (sources (graph_of nodes).1 [])
            0
  process-ends fuel more =
      process-enough ids (edges_of nodes) (λ id. ground (arith, count-ids id)) targets_known
        (graph_of nodes).0 (graph_of-Holds nodes).lists (length nodes) fuel [] _ _ 0 start-Inv
        (omega (arith, (graph_of-IsOnce nodes).1)) more

-- In a topological order without repetition, the source of an edge stands below its target.
rank_in-le :
    (edges : List (String × String)) (order : List String) (id : String)
    → rank_in edges order id ≤ length order
rank_in-le edges [] id = omega arith
rank_in-le edges (c ∷ order) id = ground (arith, rank_in-le edges order id)

rank_in-lt :
    (edges : List (String × String)) (order : List String) (s t : String)
    → IsTopological edges order
    → ((id : String) → count id order ≤ 1)
    → Occurs (s, t) edges
    → 1 ≤ count t order
    → (rank_in edges order s < rank_in edges order t) × (1 ≤ count s order)
rank_in-lt edges [] s t h once m k = absurd (omega (arith, k))
rank_in-lt edges (c ∷ order) s t h once m k = elim (Bool-cases (c == t)) [
  | inl same ↦
      let first : contains s order ≡ true =
        h.0 s (subst (λ i. Occurs (s, i) edges) (sym ((text_has_eq.decides c t).0 same)) m) in
      ground (
        arith,
        same,
        contains-count s order first,
        rank_in-le edges order s,
        once s,
        text_has_eq.decides c s,
      )
  | inr other ↦
      let later =
        rank_in-lt edges order s t h.1 (λ id. omega (arith, once id)) m
          (ground (arith, k, other)) in
      ground (arith, other, later.0, later.1, once s)
]

-- Every pair of nodes of which one waits for the other is ranked.
abbrev pub Ranks : (String → ℕ) → List PlanNode → Type 0
Ranks rank nodes = (s t : String) → WaitsFor nodes s t → rank s < rank t

WaitsFor-known :
    (nodes : List PlanNode) (s t : String) → WaitsFor nodes s t → 1 ≤ count t (ids nodes)
WaitsFor-known nodes s t (node, m, e, n, k, d) =
    let there : contains t (node_ids nodes) ≡ true =
      subst (λ i. contains i (node_ids nodes) ≡ true) e (contains-node_id nodes node m) in
    ground (arith, count-ids nodes t)

-- Nodes in which `_has_cycle` finds no cycle can be ranked.
pub has_cycle-Ranks :
    (nodes : List PlanNode) → has_cycle nodes ≡ false → (rank : String → ℕ) × Ranks rank nodes
unfolding has_cycle
has_cycle-Ranks nodes h =
    let (order, counted, done) = process_all nodes in
    let whole : length order ≡ length nodes = ground (arith, counted, h) in
    let placed =
      count-le_of_length order (ids nodes) (λ id. omega (arith, done.inv.once id))
        (omega (arith, whole, (graph_of-IsOnce nodes).1)) in
    (
      rank_in (edges_of nodes) order,
      λ s t w.
          (rank_in-lt (edges_of nodes) order s t done.topological
            (λ id. ground (arith, done.inv.once id, count-ids nodes id))
            (WaitsFor-edges_of nodes s t w)
            (omega (arith, placed t, WaitsFor-known nodes s t w))).0,
    )

module _ (nodes : List PlanNode) (rank : String → ℕ) (ranked : Ranks rank nodes) where
  -- What is ranked is taken off the queue.
  all_placed :
      (order : List String) (done : Done (ids nodes) (edges_of nodes) order) (bound : ℕ)
      (id : String)
      → rank id < bound
      → 1 ≤ count id (ids nodes)
      → 1 ≤ count id order
  all_placed order done zero id h k = absurd (omega (arith, h))
  all_placed order done (suc bound) id h k =
      let settled = zero-open_count order (edges_of nodes) id (λ s m.
        let w = edges_of-WaitsFor nodes s id m in
        let below = ranked s id w in
        let there =
          all_placed order done bound s (omega (arith, below, h))
            (ground (arith, count-ids nodes s, w.4)) in
        ground (arith, count-contains s order, there)) in
      omega (arith, done.inv.zeros id k (omega (arith, done.inv.degrees id, settled)))

has_duplicate-count :
    (names : List String) (id : String) → has_duplicate names ≡ false → count id names ≤ 1
unfolding has_duplicate
has_duplicate-count [] id h = omega arith
has_duplicate-count (x ∷ names) id h =
    ground (arith, has_duplicate-count names id, count-contains id names, text_has_eq.decides x id)

length-map : {A B : Type 0} (f : A → B) (xs : List A) → length (map f xs) ≡ length xs
length-map f [] = refl
length-map f (x ∷ xs) = ap suc (length-map f xs)

-- Nodes with distinct ids that can be ranked have no cycle for `_has_cycle`.
pub Ranks-has_cycle :
    (nodes : List PlanNode) (rank : String → ℕ)
    → has_duplicate (map (λ n. n.node_id) nodes) ≡ false
    → Ranks rank nodes
    → has_cycle nodes ≡ false
unfolding has_cycle
Ranks-has_cycle nodes rank distinct ranked =
    let (order, counted, done) = process_all nodes in
    let fits = length-le_of_count (node_ids nodes) order (λ id.
      elim (Bool-cases (contains id (node_ids nodes))) [
        | inl there ↦
            let k : 1 ≤ count id (ids nodes) = ground (arith, count-ids nodes id) in
            omega (
              arith,
              has_duplicate-count (node_ids nodes) id distinct,
              all_placed nodes rank ranked order done (suc (rank id)) id (omega arith) k,
            )
        | inr missing ↦ omega (arith, count-contains id (node_ids nodes) missing)
      ]) in
    let fits' = length-le_of_count order (ids nodes) (λ id. omega (arith, done.inv.once id)) in
    let whole : length order ≡ length nodes = omega (
      arith,
      fits,
      fits',
      length-map (λ (n : PlanNode). n.node_id) nodes,
      (graph_of-IsOnce nodes).1,
    ) in
    ground (arith, counted, whole)

-- For nodes with distinct ids, `_has_cycle` answers no exactly if there is a rank in which every
-- dependency between two nodes stands below the node that waits for it.
pub has_cycle_lem :
    (nodes : List PlanNode)
    → has_duplicate (map (λ n. n.node_id) nodes) ≡ false
    → (has_cycle nodes ≡ false) ↔ ((rank : String → ℕ) × Ranks rank nodes)
has_cycle_lem nodes distinct =
    (has_cycle-Ranks nodes, λ ranked. Ranks-has_cycle nodes ranked.0 distinct ranked.1)
