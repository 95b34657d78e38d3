-- ===== src/Plan/Layers.antt =====
-- src/agent/planning/dag.py: what stands in a layer.
use ven_agent.Prelude.{
  ◌≡◌, refl, inl, inr, Bool, true, false, ◌&&◌, String, List, [], ◌∷◌, ◌++◌, map, arith,
  text_has_eq, all, Occurs, Occurs-select, select-Occurs,
}
use ven_agent.Plan.{
  PlanNode, Plan, NodeOutcome, contains, resolved_ids, is_pending, dependencies_satisfied,
  known_ids, ready_layer,
}

pub contains-Occurs :
    (name : String) (names : List String) → Occurs name names → contains name names ≡ true
contains-Occurs name [] m = elim m [ ]
contains-Occurs name (other ∷ names) (inl e) = ground (arith, text_has_eq.decides other name)
contains-Occurs name (other ∷ names) (inr m) = ground (arith, contains-Occurs name names m)

contains-append :
    (name : String) (xs ys : List String)
    → contains name ys ≡ true
    → contains name (xs ++ ys) ≡ true
contains-append name [] ys h = h
contains-append name (x ∷ xs) ys h = ground (arith, contains-append name xs ys h)

pub all-Occurs :
    {A : Type 0} (test : A → Bool) {a : A} (xs : List A)
    → all test xs ≡ true
    → Occurs a xs
    → test a ≡ true
all-Occurs test [] h m = elim m [ ]
all-Occurs test (x ∷ xs) h (inl e) = ground arith
all-Occurs test (x ∷ xs) h (inr m) = ground (arith, all-Occurs test xs (ground arith) m)

pub Occurs-all :
    {A : Type 0} (test : A → Bool) (xs : List A)
    → ((a : A) → Occurs a xs → test a ≡ true)
    → all test xs ≡ true
Occurs-all test [] h = refl
Occurs-all test (x ∷ xs) h = rw (h x (inl refl)) (Occurs-all test xs (λ a m. h a (inr m)))

module _ (plan : Plan) (outcomes : List NodeOutcome) where
  -- A node stands in the ready layer if it is a node of the plan that is not resolved and all whose
  -- dependencies are.
  pub ready-Occurs :
      (node : PlanNode)
      → Occurs node plan.nodes
      → contains node.node_id (resolved_ids outcomes) ≡ false
      → ((dep : String) → Occurs dep node.depends_on → contains dep (resolved_ids outcomes) ≡ true)
      → Occurs node (ready_layer plan outcomes)
  unfolding ready_layer is_pending dependencies_satisfied
  ready-Occurs node m p d =
      let done = resolved_ids outcomes in
      let known = known_ids plan.nodes done in
      let resolved = Occurs-all (λ dep. contains dep done) node.depends_on d in
      let heard =
        Occurs-all (λ dep. contains dep known) node.depends_on
          (λ dep n. contains-append dep (map (λ i. i.node_id) plan.nodes) done (d dep n)) in
      select-Occurs (λ node. is_pending node done && dependencies_satisfied node done known)
        plan.nodes m (rw (p, resolved, heard))

  pub Occurs-ready :
      (node : PlanNode)
      → Occurs node (ready_layer plan outcomes)
      → Occurs node plan.nodes
        × (contains node.node_id (resolved_ids outcomes) ≡ false)
        × ((dep : String)
            → Occurs dep node.depends_on
            → contains dep (resolved_ids outcomes) ≡ true)
  unfolding ready_layer is_pending dependencies_satisfied
  Occurs-ready node m =
      let done = resolved_ids outcomes in
      let known = known_ids plan.nodes done in
      let found =
        Occurs-select (λ node. is_pending node done && dependencies_satisfied node done known)
          plan.nodes m in
      (
        found.0,
        ground (arith, found.1),
        λ dep n. all-Occurs (λ dep. contains dep done) node.depends_on (ground (arith, found.1)) n,
      )
