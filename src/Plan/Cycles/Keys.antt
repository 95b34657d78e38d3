-- ===== src/Plan/Cycles/Keys.antt =====
-- src/agent/planning/dag.py: the ids that `indegree` counts, and those that start on the queue.
use ven_agent.Prelude.{
  ℕ, ◌+◌, ◌≤◌, ◌≡◌, refl, ◌∙◌, inl, inr, true, false, ◌&&◌, String, List, [], ◌∷◌, ◌++◌, arith,
  ◌==◌, ◌!=◌, text_has_eq, number_has_eq, if◌then◌else◌, Bool-cases, length, All, Occurs-All,
}
use ven_agent.Prelude.Dict.{Dict, get, put, get-put, keys}
use ven_agent.Plan.{PlanNode}
use ven_agent.Plan.Validation.{
  has_key, degree_at, targets_at, start_with, Graph, link, link_all, graph_of, sources,
}
use ven_agent.Plan.Cycles.Counting.{count}
use ven_agent.Plan.Cycles.Build.{get-start_with, contains-node_id}

-- Each key stands once among the keys.
abbrev pub IsOnce : {V : Type 0} → Dict String V → Type 0
IsOnce d = (id : String) → count id (keys d) ≡ (if has_key d id then 1 else 0)

count-keys :
    {V : Type 0} (d : Dict String V) (k : String) (v : V) (id : String)
    → count id (keys (put d k v))
      ≡ count id (keys d) + (if has_key d k then 0 else (if k == id then 1 else 0))
unfolding put get
count-keys [] k v id = omega arith
count-keys ((j, w) ∷ d) k v id = ground (arith, count-keys d k v id)

length-keys :
    {V : Type 0} (d : Dict String V) (k : String) (v : V)
    → length (keys (put d k v)) ≡ length (keys d) + (if has_key d k then 0 else 1)
unfolding put get
length-keys [] k v = omega arith
length-keys ((j, w) ∷ d) k v = ground (arith, length-keys d k v)

put-IsOnce : {V : Type 0} (d : Dict String V) (k : String) (v : V) → IsOnce d → IsOnce (put d k v)
put-IsOnce d k v h id =
    ground (arith, h id, count-keys d k v id, get-put d k id v, text_has_eq.decides k id)

start_with-IsOnce :
    {V : Type 0} (value : V) (d : Dict String V) (nodes : List PlanNode)
    → IsOnce d
    → IsOnce (start_with value d nodes)
      × (length (keys (start_with value d nodes)) ≤ length (keys d) + length nodes)
unfolding start_with
start_with-IsOnce value d [] h = (h, omega arith)
start_with-IsOnce value d (node ∷ nodes) h =
    let later =
      start_with-IsOnce value (put d node.node_id value) nodes
        (put-IsOnce d node.node_id value h) in
    (later.0, ground (arith, later.1, length-keys d node.node_id value))

-- The keys of `indegree` stay as they are.
record Keeps (d e : Dict String ℕ) : Type 0 where
  once : IsOnce d → IsOnce e
  size : length (keys e) ≡ length (keys d)
  same : (id : String) → has_key e id ≡ has_key d id

Keeps-put : (d : Dict String ℕ) (k : String) (n : ℕ) → has_key d k ≡ true → Keeps d (put d k n)
Keeps-put d k n h = record {
  once = put-IsOnce d k n;
  size = ground (arith, length-keys d k n);
  same = λ id. ground (arith, get-put d k id n, text_has_eq.decides k id);
}

Keeps-trans : {d e f : Dict String ℕ} → Keeps d e → Keeps e f → Keeps d f
Keeps-trans a b = record {
  once = λ h. b.once (a.once h);
  size = b.size ∙ a.size;
  same = λ id. b.same id ∙ a.same id;
}

Keeps-link :
    (node_id : String) (deps : List String) (graph : Graph)
    → has_key graph.1 node_id ≡ true
    → Keeps graph.1 (link node_id deps graph).1
unfolding link
Keeps-link node_id [] graph h = record { once = λ o. o; size = refl; same = λ id. refl }
Keeps-link node_id (dep ∷ deps) (lists, degrees) h =
    elim (Bool-cases (has_key degrees dep && dep != node_id)) [
      | inr skipped ↦ rw (skipped, link) (Keeps-link node_id deps (lists, degrees) h)
      | inl linked ↦
          let step = Keeps-put degrees node_id (degree_at degrees node_id + 1) h in
          rw (linked, link)
            (Keeps-trans step (
              Keeps-link node_id deps
                (
                  put lists dep (targets_at lists dep ++ node_id ∷ []),
                  put degrees node_id (degree_at degrees node_id + 1),
                )
                (step.same node_id ∙ h)))
    ]

Keeps-link_all :
    (nodes : List PlanNode) (graph : Graph)
    → All (λ node. has_key graph.1 node.node_id ≡ true) nodes
    → Keeps graph.1 (link_all nodes graph).1
unfolding link_all
Keeps-link_all [] graph h = record { once = λ o. o; size = refl; same = λ id. refl }
Keeps-link_all (node ∷ nodes) graph h =
    let step = Keeps-link node.node_id node.depends_on graph h.0 in
    Keeps-trans step
      (Keeps-link_all nodes (link node.node_id node.depends_on graph) (kept nodes h.1 step))
  where
    kept :
        {e : Dict String ℕ} (rest : List PlanNode)
        → All (λ n. has_key graph.1 n.node_id ≡ true) rest
        → Keeps graph.1 e
        → All (λ n. has_key e n.node_id ≡ true) rest
    kept [] a k = tt
    kept (n ∷ rest) a k = (k.same n.node_id ∙ a.0, kept rest a.1 k)

absent :
    {V : Type 0} (d : Dict String V) (id : String) → count id (keys d) ≡ 0 → has_key d id ≡ false
unfolding get
absent [] id h = refl
absent ((j, w) ∷ d) id h = ground (arith, absent d id)

-- The queue starts with the ids of degree 0.
pub count-sources :
    (d : Dict String ℕ) (queue : List String) (id : String)
    → count id (keys d) ≤ 1
    → count id (sources d queue)
      ≡ count id queue + (if has_key d id then (if degree_at d id == 0 then 1 else 0) else 0)
unfolding sources get
count-sources [] queue id h = omega arith
count-sources ((j, n) ∷ d) queue id h = ground (
  arith,
  count-sources d (if n == 0 then j ∷ queue else queue) id,
  absent d id,
  text_has_eq.decides j id,
)

start_keys :
    (nodes : List PlanNode)
    → All (λ node. has_key (start_with {V = ℕ} 0 [] nodes) node.node_id ≡ true) nodes
start_keys nodes = Occurs-All _ nodes (λ node m.
    ground (arith, get-start_with {V = ℕ} 0 [] nodes node.node_id, contains-node_id nodes node m))

-- The keys of the graph's degrees are the ids of the nodes, each once.
pub graph_of-IsOnce :
    (nodes : List PlanNode)
    → IsOnce (graph_of nodes).1 × (length (keys (graph_of nodes).1) ≤ length nodes)
unfolding graph_of get
graph_of-IsOnce nodes =
    let start = start_with-IsOnce {V = ℕ} 0 [] nodes (λ id. refl) in
    let kept =
      Keeps-link_all nodes (start_with [] [] nodes, start_with 0 [] nodes) (start_keys nodes) in
    (kept.once start.0, omega (arith, kept.size, start.1))
