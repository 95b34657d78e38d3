-- ===== src/Plan/Waiting.antt =====
-- src/agent/planning/dag.py: the nodes of a layer do not wait for each other, and a plan without
-- cycles does not get stuck.
use Prim.Native.String.{◌++◌ as ◌+++◌}
use ven_agent.Prelude.{
  ℕ, zero, suc, ◌<◌, ◌≡◌, refl, sym, ◌∙◌, ◌⊎◌, inl, inr, true, false, String, List, [], ◌∷◌, ◌++◌,
  arith, ◌==◌, text_has_eq, Occurs, Occurs-select, Bool-cases,
}
use ven_agent.Plan.{
  PlanNode, Plan, NodeOutcome, contains, resolved_ids, is_pending, known_ids, ready_layer,
  pending_nodes, unresolvable_dependencies, unresolvable_each, unresolvable_of,
}
use ven_agent.Plan.Layers.{ready-Occurs, Occurs-ready}

pub nil-append : {A : Type 0} (xs ys : List A) → xs ++ ys ≡ [] → (xs ≡ []) × (ys ≡ [])
nil-append [] ys h = (refl, h)
nil-append (x ∷ xs) ys h = cc

unresolvable_of-nil :
    (known : List String) (node_id : String) (deps : List String) (dep : String)
    → unresolvable_of known node_id deps ≡ []
    → Occurs dep deps
    → contains dep known ≡ true
unfolding unresolvable_of
unresolvable_of-nil known node_id [] dep h m = elim m [ ]
unresolvable_of-nil known node_id (d ∷ deps) dep h m = elim (Bool-cases (contains d known)) [
  | inl here ↦ elim m [
    | inl e ↦ rw e here
    | inr m' ↦ unresolvable_of-nil known node_id deps dep (rw here at h) m'
  ]
  | inr missing ↦
      let clash : (node_id +++ ":" +++ d) ∷ unresolvable_of known node_id deps ≡ [] =
        rw missing at h in
      absurd (cc clash)
]

unresolvable_each-nil :
    (known : List String) (nodes : List PlanNode) (node : PlanNode) (dep : String)
    → unresolvable_each known nodes ≡ []
    → Occurs node nodes
    → Occurs dep node.depends_on
    → contains dep known ≡ true
unfolding unresolvable_each
unresolvable_each-nil known [] node dep h m n = elim m [ ]
unresolvable_each-nil known (x ∷ nodes) node dep h m n =
    let (here, there) =
      nil-append (unresolvable_of known x.node_id x.depends_on) (unresolvable_each known nodes) h in
    elim m [
      | inl e ↦ unresolvable_of-nil known x.node_id x.depends_on dep here (rw e at n)
      | inr m' ↦ unresolvable_each-nil known nodes node dep there m' n
    ]

-- A known id is resolved or names a node.
known-cases :
    (nodes : List PlanNode) (done : List String) (dep : String)
    → contains dep (known_ids nodes done) ≡ true
    → (contains dep done ≡ true) ⊎ ((node : PlanNode) × Occurs node nodes × (node.node_id ≡ dep))
known-cases [] done dep h = inl h
known-cases (x ∷ nodes) done dep h = elim (Bool-cases (x.node_id == dep)) [
  | inl same ↦ inr (x, inl refl, (text_has_eq.decides x.node_id dep).0 same)
  | inr other ↦ elim (known-cases nodes done dep (rw other at h)) [
    | inl resolved ↦ inl resolved
    | inr (node, m, e) ↦ inr (node, inr m, e)
  ]
]

-- Every dependency is resolved, or there is one that is not.
waits_for :
    (done deps : List String)
    → ((dep : String) → Occurs dep deps → contains dep done ≡ true)
      ⊎ ((dep : String) × Occurs dep deps × (contains dep done ≡ false))
waits_for done [] = inl (λ dep m. elim m [ ])
waits_for done (d ∷ deps) = elim (Bool-cases (contains d done)) [
  | inr missing ↦ inr (d, inl refl, missing)
  | inl here ↦ elim (waits_for done deps) [
    | inr (dep, m, missing) ↦ inr (dep, inr m, missing)
    | inl rest ↦ inl (λ dep m. elim m [ inl e ↦ rw e here | inr m' ↦ rest dep m' ])
  ]
]

-- No node of a ready layer depends on a node of the same layer.
pub ready_layer-independent :
    (plan : Plan) (outcomes : List NodeOutcome) (a b : PlanNode)
    → Occurs a (ready_layer plan outcomes)
    → Occurs b (ready_layer plan outcomes)
    → ¬ Occurs a.node_id b.depends_on
ready_layer-independent plan outcomes a b m n d =
    let open_a = (Occurs-ready plan outcomes a m).1 in
    let done_a = (Occurs-ready plan outcomes b n).2 a.node_id d in
    let clash : true ≡ false = sym done_a ∙ open_a in absurd (cc clash)

-- `rank` grows along the dependencies between the plan's nodes, so they have no cycle.
abbrev pub IsRanked : (String → ℕ) → Plan → Type 0
IsRanked rank plan =
    (node other : PlanNode)
    → Occurs node plan.nodes
    → Occurs other plan.nodes
    → Occurs other.node_id node.depends_on
    → rank other.node_id < rank node.node_id

module _ (rank : String → ℕ) (plan : Plan) (outcomes : List NodeOutcome)
    (ranked : IsRanked rank plan)
    (known : unresolvable_dependencies plan.nodes (resolved_ids outcomes) ≡ []) where
  ready_below :
      (bound : ℕ) (node : PlanNode)
      → rank node.node_id < bound
      → Occurs node plan.nodes
      → contains node.node_id (resolved_ids outcomes) ≡ false
      → (first : PlanNode) × Occurs first (ready_layer plan outcomes)
  unfolding unresolvable_dependencies
  ready_below zero node h m p = absurd (omega (arith, h))
  ready_below (suc bound) node h m p = elim (waits_for (resolved_ids outcomes) node.depends_on) [
    | inl resolved ↦ (node, ready-Occurs plan outcomes node m p resolved)
    | inr (dep, n, missing) ↦
        elim (known-cases plan.nodes (resolved_ids outcomes) dep (
          unresolvable_each-nil (known_ids plan.nodes (resolved_ids outcomes)) plan.nodes node dep
            known m n)) [
              | inl resolved ↦
                  let clash : true ≡ false = sym resolved ∙ missing in absurd (cc clash)
              | inr (other, m', e) ↦
                  let less = ranked node other m m' (rw e n) in
                  ready_below bound other (omega (arith, less, h)) m' (rw e missing)
            ]
  ]

-- Where the dependencies between the plan's nodes have no cycle, and every dependency is resolved or
-- is a node of the plan, a plan with a pending node has a ready one.
pub ready_layer-progress :
    (rank : String → ℕ) (plan : Plan) (outcomes : List NodeOutcome) (node : PlanNode)
    → IsRanked rank plan
    → unresolvable_dependencies plan.nodes (resolved_ids outcomes) ≡ []
    → Occurs node (pending_nodes plan outcomes)
    → (first : PlanNode) × Occurs first (ready_layer plan outcomes)
unfolding pending_nodes is_pending
ready_layer-progress rank plan outcomes node ranked known m =
    let found = Occurs-select (λ i. is_pending i (resolved_ids outcomes)) plan.nodes m in
    ready_below rank plan outcomes ranked known (suc (rank node.node_id)) node (omega arith) found.0
      (ground (arith, found.1))
