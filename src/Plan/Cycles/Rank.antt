-- ===== src/Plan/Cycles/Rank.antt =====
-- src/agent/planning/dag.py: the ids in the order in which `_has_cycle` takes them off the queue.
use ven_agent.Prelude.{
  ℕ, zero, suc, ◌+◌, ◌≤◌, ◌≡◌, refl, sym, ap, ◌∙◌, inl, inr, true, false, String, List, [], ◌∷◌,
  ◌++◌, arith, ◌==◌, text_has_eq, if◌then◌else◌, Bool-cases, length, length-append, All, Occurs,
}
use ven_agent.Prelude.Dict.{Dict}
use ven_agent.Plan.{contains}
use ven_agent.Plan.Validation.{targets_at, relax, process}
use ven_agent.Plan.Cycles.Counting.{count, count-append, contains-count, length-le_of_count}
use ven_agent.Plan.Cycles.Build.{Edges, open_count, targets}
use ven_agent.Plan.Cycles.Invariant.{Inv, relax-Inv}

-- Once `c` is processed, what it had open is left to its targets.
open_count-targets :
    (c : String) (processed : List String) (edges : Edges) (id : String)
    → contains c processed ≡ false
    → open_count (c ∷ processed) edges id + count id (targets c edges)
      ≡ open_count processed edges id
open_count-targets c processed [] id h = omega arith
open_count-targets c processed ((s, t) ∷ edges) id h = ground (
  arith,
  open_count-targets c processed edges id h,
  text_has_eq.decides c s,
  text_has_eq.decides s c,
  text_has_eq.decides t id,
)

-- An id has nothing open exactly if all sources of its edges are processed.
open_count-zero :
    (processed : List String) (edges : Edges) (s id : String)
    → open_count processed edges id ≡ 0
    → Occurs (s, id) edges
    → contains s processed ≡ true
open_count-zero processed [] s id h m = elim m [ ]
open_count-zero processed ((a, t) ∷ edges) s id h (inl e) =
    let same_s : s ≡ a = ap (λ p. p.0) e in
    let same_t : id ≡ t = ap (λ p. p.1) e in ground (arith, text_has_eq.decides t id)
open_count-zero processed ((a, t) ∷ edges) s id h (inr m) =
    open_count-zero processed edges s id (ground arith) m

pub zero-open_count :
    (processed : List String) (edges : Edges) (id : String)
    → ((s : String) → Occurs (s, id) edges → contains s processed ≡ true)
    → open_count processed edges id ≡ 0
zero-open_count processed [] id h = refl
zero-open_count processed ((a, t) ∷ edges) id h = elim (Bool-cases (t == id)) [
  | inl same ↦
      let here : contains a processed ≡ true =
        h a (inl (ap (λ k. (a, k)) (sym ((text_has_eq.decides t id).0 same)))) in
      let rest = zero-open_count processed edges id (λ s m. h s (inr m)) in
      rw (same, here) (omega (arith, rest))
  | inr other ↦ rw other (omega (arith, zero-open_count processed edges id (λ s m. h s (inr m))))
]

module _ (edges : Edges) where
  -- Each id stands after the sources of its edges.
  abbrev pub IsTopological : List String → Type 0
  IsTopological [] = Unit
  IsTopological (c ∷ processed) =
      ((s : String) → Occurs (s, c) edges → contains s processed ≡ true) × IsTopological processed

  -- The place of an id, counted from the first one that was processed.
  abbrev pub rank_in : List String → String → ℕ
  rank_in [] id = 0
  rank_in (c ∷ processed) id = if c == id then suc (length processed) else rank_in processed id

-- What the loop ends with.
pub record Done (ids : List String) (edges : Edges) (processed : List String) : Type 0 where
  pub indegree : Dict String ℕ
  pub inv : Inv ids edges processed [] [] indegree
  pub topological : IsTopological edges processed

module _ (ids : List String) (edges : Edges) (once : (id : String) → count id ids ≤ 1)
    (known : (s : String) → All (λ t. 1 ≤ count t ids) (targets s edges))
    (lists : Dict String (List String))
    (same : (s : String) → targets_at lists s ≡ targets s edges) where
  module _ (c : String) (processed queue : List String) (indegree : Dict String ℕ)
      (h : Inv ids edges processed [] (c ∷ queue) indegree) where
    new : contains c processed ≡ false
    new = ground (arith, h.once c, once c, contains-count c processed, text_has_eq.decides c c)

    Inv-pop : Inv ids edges (c ∷ processed) (targets c edges) queue indegree
    Inv-pop = record {
      degrees = λ id. omega (arith, h.degrees id, open_count-targets c processed edges id new);
      placed = λ id p. h.placed id (omega (arith, p));
      zeros = λ id p q. omega (arith, h.zeros id p q);
      once = λ id. omega (arith, h.once id);
    }

    sources_first : (s : String) → Occurs (s, c) edges → contains s processed ≡ true
    sources_first s m =
        open_count-zero processed edges s c
          (ground (arith, h.degrees c, h.placed c, text_has_eq.decides c c)) m

  queue_bound :
      (processed queue : List String) (indegree : Dict String ℕ)
      → Inv ids edges processed [] queue indegree
      → length queue + length processed ≤ length ids
  queue_bound processed queue indegree h =
      let bound =
        length-le_of_count (queue ++ processed) ids
          (λ id. omega (arith, h.once id, count-append id queue processed)) in
      omega (arith, bound, length-append queue processed)

  pub process-Done :
      (fuel : ℕ) (processed queue : List String) (indegree : Dict String ℕ)
      → Inv ids edges processed [] queue indegree
      → IsTopological edges processed
      → length ids ≤ fuel + length processed
      → (order : List String) × (process fuel lists indegree queue (length processed)
          ≡ length order)
        × Done ids edges order
  unfolding process
  process-Done zero processed [] indegree h t enough =
      (processed, refl, record { indegree = indegree; inv = h; topological = t })
  process-Done zero processed (c ∷ queue) indegree h t enough =
      absurd (omega (arith, queue_bound processed (c ∷ queue) indegree h))
  process-Done (suc fuel) processed [] indegree h t enough =
      (processed, refl, record { indegree = indegree; inv = h; topological = t })
  process-Done (suc fuel) processed (c ∷ queue) indegree h t enough =
      let popped =
        relax-Inv ids edges (c ∷ processed) (targets c edges) queue indegree
          (Inv-pop c processed queue indegree h) (known c) in
      let later =
        process-Done fuel (c ∷ processed) _ _ popped (sources_first c processed queue indegree h, t)
          (omega (arith, enough)) in
      let counted : length processed + 1 ≡ suc (length processed) = omega arith in
      rw (same c) (
        later.0,
        ap
              (λ n.
                process fuel lists (relax (targets c edges) indegree queue).0
                  (relax (targets c edges) indegree queue).1 n)
              counted
            ∙ later.1,
        later.2,
      )

  -- With enough fuel, more fuel does the same: the queue is empty before the fuel is.
  pub process-enough :
      (fuel total : ℕ) (processed queue : List String) (indegree : Dict String ℕ) (counted : ℕ)
      → Inv ids edges processed [] queue indegree
      → length ids ≤ fuel + length processed
      → fuel ≤ total
      → process total lists indegree queue counted ≡ process fuel lists indegree queue counted
  unfolding process
  process-enough zero zero processed queue indegree n h enough le = refl
  process-enough zero (suc total) processed [] indegree n h enough le = refl
  process-enough zero (suc total) processed (c ∷ queue) indegree n h enough le =
      absurd (omega (arith, queue_bound processed (c ∷ queue) indegree h))
  process-enough (suc fuel) zero processed queue indegree n h enough le = absurd (omega (arith, le))
  process-enough (suc fuel) (suc total) processed [] indegree n h enough le = refl
  process-enough (suc fuel) (suc total) processed (c ∷ queue) indegree n h enough le =
      let popped =
        relax-Inv ids edges (c ∷ processed) (targets c edges) queue indegree
          (Inv-pop c processed queue indegree h) (known c) in
      rw (same c) (
        process-enough fuel total (c ∷ processed) _ _ (n + 1) popped (omega (arith, enough))
          (omega (arith, le)))
