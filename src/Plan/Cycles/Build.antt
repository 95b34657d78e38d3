-- ===== src/Plan/Cycles/Build.antt =====
-- src/agent/planning/dag.py: the two dicts that `_has_cycle` builds hold the edges of the plan.
use ven_agent.Prelude.{
  ℕ, ◌+◌, ◌≡◌, refl, sym, ap, subst, ◌∙◌, All, inl, inr, Bool, true, false, ◌&&◌, Option, none,
  some, String, List, [], ◌∷◌, ◌++◌, map, arith, ◌==◌, ◌!=◌, text_has_eq, if◌then◌else◌, Bool-cases,
  Occurs, Occurs-All,
}
use mathlib.Core.List.{append-nil, append_assoc}
use ven_agent.Prelude.Dict.{Dict, get, put, get-put}
use ven_agent.Plan.{PlanNode, contains}
use ven_agent.Plan.Validation.{
  has_key, degree_at, targets_at, start_with, Graph, link, link_all, graph_of,
}

-- An edge from a dependency to the node that waits for it.
abbrev pub Edges : Type 0
Edges = List (String × String)

-- The edges into `target` whose source is not among `processed`.
abbrev pub open_count : List String → Edges → String → ℕ
open_count processed [] target = 0
open_count processed ((s, t) ∷ edges) target =
    (if t == target then (if contains s processed then 0 else 1) else 0)
    + open_count processed edges target

abbrev pub targets : String → Edges → List String
targets source [] = []
targets source ((s, t) ∷ edges) =
    if s == source then t ∷ targets source edges else targets source edges

open_count-append :
    (processed : List String) (xs ys : Edges) (target : String)
    → open_count processed (xs ++ ys) target
      ≡ open_count processed xs target + open_count processed ys target
open_count-append processed [] ys target = omega arith
open_count-append processed ((s, t) ∷ xs) ys target =
    omega (arith, open_count-append processed xs ys target)

targets-append :
    (source : String) (xs ys : Edges)
    → targets source (xs ++ ys) ≡ targets source xs ++ targets source ys
targets-append source [] ys = refl
targets-append source ((s, t) ∷ xs) ys = elim (Bool-cases (s == source)) [
  | inl same ↦ rw (same, targets-append source xs ys)
  | inr other ↦ rw (other, targets-append source xs ys)
]

-- The edges of one node and of all, in the order in which they are added.
abbrev pub node_edges : (String → Bool) → String → List String → Edges
node_edges known node_id [] = []
node_edges known node_id (dep ∷ deps) =
    if known dep && dep != node_id
    then (dep, node_id) ∷ node_edges known node_id deps
    else node_edges known node_id deps

abbrev pub plan_edges : (String → Bool) → List PlanNode → Edges
plan_edges known [] = []
plan_edges known (node ∷ nodes) =
    node_edges known node.node_id node.depends_on ++ plan_edges known nodes

-- The dicts of the graph hold these edges, and the keys are the known ids.
pub record Holds (known : String → Bool) (edges : Edges) (graph : Graph) : Type 0 where
  pub degrees : (id : String) → degree_at graph.1 id ≡ open_count [] edges id
  pub lists : (id : String) → targets_at graph.0 id ≡ targets id edges
  pub same_keys : (id : String) → has_key graph.1 id ≡ known id

module _ (known : String → Bool) where
  lists_step :
      (edges : Edges) (lists : Dict String (List String)) (dep node_id id : String)
      → ((k : String) → targets_at lists k ≡ targets k edges)
      → targets_at (put lists dep (targets_at lists dep ++ node_id ∷ [])) id
        ≡ targets id (edges ++ (dep, node_id) ∷ [])
  lists_step edges lists dep node_id id h =
      ap listed (get-put lists dep id (targets_at lists dep ++ node_id ∷ []))
      ∙ elim (Bool-cases (dep == id)) [
        | inl same ↦ rw same (
            ap (λ ids. ids ++ node_id ∷ [])
              (h dep ∙ ap (λ k. targets k edges) ((text_has_eq.decides dep id).0 same))
            ∙ added same)
        | inr other ↦ rw other (h id ∙ extended other)
      ]
    where
      listed : Option (List String) → List String
      listed found = elim found [ none ↦ [] | some ids ↦ ids ]

      added :
          dep == id ≡ true
          → targets id edges ++ node_id ∷ [] ≡ targets id (edges ++ (dep, node_id) ∷ [])
      added e = sym (targets-append id edges ((dep, node_id) ∷ []) ∙ rw e)

      extended : dep == id ≡ false → targets id edges ≡ targets id (edges ++ (dep, node_id) ∷ [])
      extended e =
          sym
            (targets-append id edges ((dep, node_id) ∷ []) ∙ (rw e (append-nil (targets id edges))))

  Holds-step :
      (edges : Edges) (graph : Graph) (dep node_id : String)
      → Holds known edges graph
      → known node_id ≡ true
      → Holds known (edges ++ (dep, node_id) ∷ []) (
        put graph.0 dep (targets_at graph.0 dep ++ node_id ∷ []),
        put graph.1 node_id (degree_at graph.1 node_id + 1),
      )
  Holds-step edges graph dep node_id h k = record {
    degrees = λ id. ground (
      arith,
      h.degrees id,
      h.degrees node_id,
      get-put graph.1 node_id id (degree_at graph.1 node_id + 1),
      open_count-append [] edges ((dep, node_id) ∷ []) id,
      text_has_eq.decides node_id id,
    );
    lists = λ id. lists_step edges graph.0 dep node_id id h.lists;
    same_keys = λ id. ground (
      arith,
      h.same_keys id,
      get-put graph.1 node_id id (degree_at graph.1 node_id + 1),
      text_has_eq.decides node_id id,
    );
  }

  Holds-link :
      (node_id : String) (deps : List String) (edges : Edges) (graph : Graph)
      → Holds known edges graph
      → known node_id ≡ true
      → Holds known (edges ++ node_edges known node_id deps) (link node_id deps graph)
  unfolding link
  Holds-link node_id [] edges graph h k = rw (append-nil edges) h
  Holds-link node_id (dep ∷ deps) edges (lists, degrees) h k =
      elim (Bool-cases (known dep && dep != node_id)) [
        | inl linked ↦
            let tested : has_key degrees dep && dep != node_id ≡ true =
              rw (h.same_keys dep) linked in
            let grown : Graph = (
              put lists dep (targets_at lists dep ++ node_id ∷ []),
              put degrees node_id (degree_at degrees node_id + 1),
            ) in
            rw (linked, tested)
              (subst (λ e. Holds known e (link node_id deps grown))
                (append_assoc edges ((dep, node_id) ∷ []) (node_edges known node_id deps))
                (Holds-link node_id deps (edges ++ (dep, node_id) ∷ []) grown
                  (Holds-step edges (lists, degrees) dep node_id h k) k))
        | inr skipped ↦
            let tested : has_key degrees dep && dep != node_id ≡ false =
              rw (h.same_keys dep) skipped in
            rw (skipped, tested) (Holds-link node_id deps edges (lists, degrees) h k)
      ]

  Holds-link_all :
      (nodes : List PlanNode) (edges : Edges) (graph : Graph)
      → Holds known edges graph
      → All (λ node. known node.node_id ≡ true) nodes
      → Holds known (edges ++ plan_edges known nodes) (link_all nodes graph)
  unfolding link_all
  Holds-link_all [] edges graph h k = rw (append-nil edges) h
  Holds-link_all (node ∷ nodes) edges graph h k =
      subst (λ e. Holds known e (link_all nodes (link node.node_id node.depends_on graph)))
        (append_assoc edges (node_edges known node.node_id node.depends_on)
          (plan_edges known nodes))
        (Holds-link_all nodes (edges ++ node_edges known node.node_id node.depends_on) _
          (Holds-link node.node_id node.depends_on edges graph h k.0) k.1)

-- What stands under an id at the start.
pub get-start_with :
    {V : Type 0} (value : V) (d : Dict String V) (nodes : List PlanNode) (id : String)
    → get (start_with value d nodes) id
      ≡ (if contains id (map (λ node. node.node_id) nodes) then some value else get d id)
unfolding start_with
get-start_with value d [] id = refl
get-start_with value d (node ∷ nodes) id =
    get-start_with value (put d node.node_id value) nodes id
    ∙ elim (Bool-cases (contains id (map (λ n. n.node_id) nodes))) [
      | inl there ↦ elim (Bool-cases (node.node_id == id)) [
        | inl same ↦ rw (there, same)
        | inr other ↦ rw (there, other)
      ]
      | inr absent ↦ elim (Bool-cases (node.node_id == id)) [
        | inl same ↦ rw (absent, get-put d node.node_id id value, same)
        | inr other ↦ rw (absent, get-put d node.node_id id value, other)
      ]
    ]

pub contains-node_id :
    (nodes : List PlanNode) (node : PlanNode)
    → Occurs node nodes
    → contains node.node_id (map (λ n. n.node_id) nodes) ≡ true
contains-node_id [] node m = elim m [ ]
contains-node_id (n ∷ nodes) node (inl e) =
    ground (arith, ap (λ (i : PlanNode). i.node_id) e, text_has_eq.decides n.node_id node.node_id)
contains-node_id (n ∷ nodes) node (inr m) = ground (arith, contains-node_id nodes node m)

-- The graph of the nodes holds the edges between them.
pub graph_of-Holds :
    (nodes : List PlanNode)
    → Holds
        (λ id. contains id (map (λ n. n.node_id) nodes))
        (plan_edges (λ id. contains id (map (λ n. n.node_id) nodes)) nodes)
        (graph_of nodes)
unfolding graph_of get
graph_of-Holds nodes =
    let ids = map (λ (n : PlanNode). n.node_id) nodes in
    Holds-link_all (λ id. contains id ids) nodes [] _
      (record {
        degrees = λ id. ground (arith, get-start_with {V = ℕ} 0 [] nodes id);
        lists = λ id. ground (arith, get-start_with {V = List String} [] [] nodes id);
        same_keys = λ id. ground (arith, get-start_with {V = ℕ} 0 [] nodes id);
      })
      (Occurs-All _ nodes (contains-node_id nodes))
