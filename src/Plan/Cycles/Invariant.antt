-- ===== src/Plan/Cycles/Invariant.antt =====
-- src/agent/planning/dag.py: what holds between the rounds of `while queue`.
use ven_agent.Prelude.{
  ℕ, suc, ◌+◌, ◌-◌, ◌≤◌, ◌≡◌, String, List, [], ◌∷◌, arith, ◌==◌, text_has_eq, number_has_eq,
  if◌then◌else◌, All,
}
use ven_agent.Prelude.Dict.{Dict, put, get-put}
use ven_agent.Plan.Validation.{degree_at, relax}
use ven_agent.Plan.Cycles.Counting.{count}
use ven_agent.Plan.Cycles.Build.{Edges, open_count}

-- `ids` are the keys, `processed` what was taken off the queue, the last one first, and `rest` the
-- targets of the last one that are still to be lowered.
pub record Inv (ids : List String) (edges : Edges) (processed rest queue : List String)
    (indegree : Dict String ℕ) : Type 0 where
  pub degrees :
      (id : String) → degree_at indegree id ≡ open_count processed edges id + count id rest
  pub placed : (id : String) → 1 ≤ count id queue + count id processed → degree_at indegree id ≡ 0
  pub zeros :
      (id : String)
      → 1 ≤ count id ids
      → degree_at indegree id ≡ 0
      → 1 ≤ count id queue + count id processed
  pub once : (id : String) → count id queue + count id processed ≤ count id ids

module _ (ids : List String) (edges : Edges) (processed : List String) where
  module _ (t : String) (rest queue : List String) (indegree : Dict String ℕ)
      (h : Inv ids edges processed (t ∷ rest) queue indegree) where
    abbrev lowered : ℕ
    lowered = degree_at indegree t - 1

    lowered_lem : suc lowered ≡ degree_at indegree t
    lowered_lem = ground (arith, h.degrees t, text_has_eq.decides t t)

    degree_at-lowered :
        (id : String)
        → degree_at (put indegree t lowered) id
          ≡ (if t == id then lowered else degree_at indegree id)
    degree_at-lowered id = ground (arith, get-put indegree t id lowered)

    Inv-step :
        1 ≤ count t ids
        → Inv ids edges processed rest
            (if lowered == 0 then t ∷ queue else queue)
            (put indegree t lowered)
    Inv-step k = record {
      degrees = λ id. ground (
        arith,
        degree_at-lowered id,
        h.degrees id,
        h.degrees t,
        lowered_lem,
        text_has_eq.decides t id,
      );
      placed = λ id p. ground (
        arith,
        degree_at-lowered id,
        h.placed id,
        h.placed t,
        lowered_lem,
        text_has_eq.decides t id,
      );
      zeros = λ id p q.
          ground (arith, degree_at-lowered id, h.zeros id, lowered_lem, text_has_eq.decides t id);
      once = λ id. ground (arith, h.once id, h.placed t, lowered_lem, k, text_has_eq.decides t id);
    }

  pub relax-Inv :
      (rest queue : List String) (indegree : Dict String ℕ)
      → Inv ids edges processed rest queue indegree
      → All (λ t. 1 ≤ count t ids) rest
      → Inv ids edges processed [] (relax rest indegree queue).1 (relax rest indegree queue).0
  unfolding relax
  relax-Inv [] queue indegree h k = h
  relax-Inv (t ∷ rest) queue indegree h k =
      relax-Inv rest _ _ (Inv-step t rest queue indegree h k.0) k.1
