-- ===== src/Platform/Claims/Order.antt =====
-- The order in which `claim_next` looks at its candidates.
use ven_agent.Prelude.{
  leb, All-Occurs, ◌<◌, ℕ, ◌≤◌, ◌≡◌, ◌⊎◌, inl, inr, Bool, true, false, none, some, List, [], ◌∷◌,
  arith, Occurs, Bool-cases, select, Occurs-select, select-Occurs, All, first, first-Occurs,
  first-none, not,
}
use ven_agent.Run.{AgentRun}
use ven_agent.Platform.Claims.Tally.{leased_count, count_at-tally}
use ven_agent.Platform.Claims.{
  insert_run, sort_runs, sorts_before, candidates, is_candidate, next_claim, tally, count_at,
}

Occurs-insert_run :
    (a r : AgentRun) (rs : List AgentRun) → Occurs a (insert_run r rs) → (a ≡ r) ⊎ Occurs a rs
unfolding insert_run
Occurs-insert_run a r [] m = m
Occurs-insert_run a r (x ∷ xs) m = ground (arith, Occurs-insert_run a r xs)

insert_run-Occurs :
    (a r : AgentRun) (rs : List AgentRun) → (a ≡ r) ⊎ Occurs a rs → Occurs a (insert_run r rs)
unfolding insert_run
insert_run-Occurs a r [] m = m
insert_run-Occurs a r (x ∷ xs) m = ground (arith, insert_run-Occurs a r xs)

-- Sorting keeps the runs.
pub Occurs-sort_runs : (a : AgentRun) (rs : List AgentRun) → Occurs a (sort_runs rs) → Occurs a rs
unfolding sort_runs
Occurs-sort_runs a [] m = m
Occurs-sort_runs a (r ∷ rs) m =
    ground (arith, Occurs-insert_run a r (sort_runs rs) m, Occurs-sort_runs a rs)

pub sort_runs-Occurs : (a : AgentRun) (rs : List AgentRun) → Occurs a rs → Occurs a (sort_runs rs)
unfolding sort_runs
sort_runs-Occurs a [] m = m
sort_runs-Occurs a (r ∷ rs) (inl e) = insert_run-Occurs a r (sort_runs rs) (inl e)
sort_runs-Occurs a (r ∷ rs) (inr m) =
    insert_run-Occurs a r (sort_runs rs) (inr (sort_runs-Occurs a rs m))

-- The oldest runs come first.
abbrev pub IsByAge : List AgentRun → Type 0
IsByAge [] = Unit
IsByAge (r ∷ rs) = All (λ x. r.created_at ≤ x.created_at) rs × IsByAge rs

sorts_before-le : (a b : AgentRun) → sorts_before a b ≡ true → a.created_at ≤ b.created_at
unfolding sorts_before
sorts_before-le a b h = ground arith

le-sorts_before : (a b : AgentRun) → sorts_before a b ≡ false → b.created_at ≤ a.created_at
unfolding sorts_before
le-sorts_before a b h = ground arith

All-insert_run :
    (n : ℕ) (r : AgentRun) (rs : List AgentRun)
    → n ≤ r.created_at
    → All (λ x. n ≤ x.created_at) rs
    → All (λ x. n ≤ x.created_at) (insert_run r rs)
unfolding insert_run
All-insert_run n r [] h hs = (h, tt)
All-insert_run n r (x ∷ xs) h hs = ground (arith, All-insert_run n r xs h hs.1)

All-weaken :
    (m n : ℕ) (rs : List AgentRun)
    → m ≤ n
    → All (λ x. n ≤ x.created_at) rs
    → All (λ x. m ≤ x.created_at) rs
All-weaken m n [] h hs = tt
All-weaken m n (x ∷ xs) h hs = (omega arith, All-weaken m n xs h hs.1)

insert_run-IsByAge : (r : AgentRun) (rs : List AgentRun) → IsByAge rs → IsByAge (insert_run r rs)
unfolding insert_run
insert_run-IsByAge r [] h = (tt, tt)
insert_run-IsByAge r (x ∷ xs) h = elim (Bool-cases (sorts_before x r)) [
  | inl later ↦ rw later (
    All-insert_run x.created_at r xs (sorts_before-le x r later) h.0,
    insert_run-IsByAge r xs h.1,
  )
  | inr first ↦
      let le = le-sorts_before x r first in
      rw first ((le, All-weaken r.created_at x.created_at xs le h.0), h)
]

pub sort_runs-IsByAge : (rs : List AgentRun) → IsByAge (sort_runs rs)
unfolding sort_runs
sort_runs-IsByAge [] = tt
sort_runs-IsByAge (r ∷ rs) = insert_run-IsByAge r (sort_runs rs) (sort_runs-IsByAge rs)

-- The first that passes a test is the oldest that passes it.
first-oldest :
    (test : AgentRun → Bool) (a b : AgentRun) (rs : List AgentRun)
    → IsByAge rs
    → first test rs ≡ some a
    → Occurs b rs
    → test b ≡ true
    → a.created_at ≤ b.created_at
first-oldest test a b [] h f m t = elim m [ ]
first-oldest test a b (x ∷ xs) h f (inl e) t = ground arith
first-oldest test a b (x ∷ xs) h f (inr m) t = elim (Bool-cases (test x)) [
  | inl passes ↦
      let same : some x ≡ some a = rw passes at f in
      let le = All-Occurs (λ y. x.created_at ≤ y.created_at) xs h.0 m in ground arith
  | inr fails ↦ first-oldest test a b xs h.1 (rw fails at f) m t
]

-- The owner has room for one more leased run.
abbrev has_room : ℕ → List AgentRun → AgentRun → Bool
has_room now runs run = not (leb 2 (count_at (tally now [] runs) run.owner_id))

module _ (now : ℕ) (runs : List AgentRun) where
  pub next_claim-some :
      (a : AgentRun)
      → next_claim now runs ≡ some a
      → Occurs a runs × (is_candidate now a ≡ true) × (leased_count now a.owner_id runs < 2)
  unfolding next_claim candidates
  next_claim-some a h =
      let found = first-Occurs (has_room now runs) a (candidates now runs) h in
      let sorted = Occurs-sort_runs a (select (is_candidate now) runs) found.0 in
      let chosen = Occurs-select (is_candidate now) runs sorted in
      (chosen.0, chosen.1, ground (arith, found.1, count_at-tally now a.owner_id runs))

  Occurs-candidates :
      (b : AgentRun) → Occurs b runs → is_candidate now b ≡ true → Occurs b (candidates now runs)
  unfolding candidates
  Occurs-candidates b m c = sort_runs-Occurs b _ (select-Occurs (is_candidate now) runs m c)

  room : (b : AgentRun) → leased_count now b.owner_id runs < 2 → has_room now runs b ≡ true
  room b h = ground (arith, count_at-tally now b.owner_id runs)

  -- No other candidate whose owner has room is older than the one that is taken.
  pub next_claim_oldest :
      (a b : AgentRun)
      → next_claim now runs ≡ some a
      → Occurs b runs
      → is_candidate now b ≡ true
      → leased_count now b.owner_id runs < 2
      → a.created_at ≤ b.created_at
  unfolding next_claim candidates
  next_claim_oldest a b h m c r =
      first-oldest (has_room now runs) a b (candidates now runs)
        (sort_runs-IsByAge (select (is_candidate now) runs)) h (Occurs-candidates b m c) (room b r)

  -- Where none is taken, each candidate's owner has two leased runs.
  pub next_claim-none :
      (b : AgentRun)
      → next_claim now runs ≡ none
      → Occurs b runs
      → is_candidate now b ≡ true
      → 2 ≤ leased_count now b.owner_id runs
  unfolding next_claim
  next_claim-none b h m c =
      let full =
        first-none (has_room now runs) b (candidates now runs) h (Occurs-candidates b m c) in
      ground (arith, count_at-tally now b.owner_id runs)
