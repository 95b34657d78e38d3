-- ===== src/Platform/Claims/Choice.antt =====
-- What `claim_next` hands to a worker, and when it hands out nothing.
use ven_agent.Prelude.{
  ℕ, ◌+◌, ◌≤◌, ◌<◌, ◌≡◌, ◌≢◌, refl, subst, inl, inr, true, none, some, String, arith, text_has_eq,
  Occurs, Option-cases, ok,
}
use ven_agent.Prelude.Dict.{get, put, values, IsKeyed, get-name, get-put_self, get-put_ne}
use ven_agent.Run.{AgentRun, running}
use ven_agent.Platform.{PlatformState}
use ven_agent.Platform.Claims.{claim_next, next_claim, claimed, is_candidate}
use ven_agent.Platform.Claims.Tally.{leased_count, leased_count-put}
use ven_agent.Platform.Claims.Order.{next_claim-some, next_claim_oldest, next_claim-none}

abbrev run_name : AgentRun → String
run_name run = run.run_id

-- `run` is what a claim made of the stored run `before`.
pub record IsClaimOf (s t : PlatformState) (worker token : String) (now lease : ℕ)
    (before run : AgentRun) : Type 0 where
  pub stored : get s.runs run.run_id ≡ some before
  pub free : is_candidate now before ≡ true
  pub claimed_by : run.claimed_by ≡ some worker
  pub claim_token : run.claim_token ≡ some token
  pub lease_end : run.lease_expires_at ≡ some (now + lease)
  pub status : run.status ≡ running
  pub attempt : run.execution_attempt ≡ before.execution_attempt + 1
  pub written : get t.runs run.run_id ≡ some run
  pub others : (k : String) → run.run_id ≢ k → get t.runs k ≡ get s.runs k
  pub capped : leased_count now run.owner_id (values t.runs) ≤ 2
  pub oldest :
      (b : AgentRun)
      → Occurs b (values s.runs)
      → is_candidate now b ≡ true
      → leased_count now b.owner_id (values s.runs) < 2
      → run.created_at ≤ b.created_at

module _ (worker : String) (now lease : ℕ) (token : String) (s : PlatformState) where
  taken_run :
      (a : AgentRun)
      → IsKeyed run_name s.runs
      → next_claim now (values s.runs) ≡ some a
      → let run = claimed a worker token now lease in
        let t = record s { runs = put s.runs a.run_id run } in
        IsClaimOf s t worker token now lease a run
  unfolding claimed
  taken_run a keyed h =
      let chosen = next_claim-some now (values s.runs) a h in
      let run = claimed a worker token now lease in
      record {
        stored = get-name run_name s.runs a keyed chosen.0;
        free = chosen.1;
        claimed_by = refl;
        claim_token = refl;
        lease_end = refl;
        status = refl;
        attempt = refl;
        written = get-put_self s.runs a.run_id run;
        others = λ k other. get-put_ne s.runs a.run_id k run other;
        capped = omega (arith, chosen.2, leased_count-put now a.owner_id a.run_id run s.runs);
        oldest = λ b m c r. next_claim_oldest now (values s.runs) a b h m c r;
      }

  -- A claim that hands out a run: the run was stored and queued, or running with an ended lease; it is
  -- now running with the worker, the token, a lease from now and the next attempt; no other run was
  -- written; its owner has at most two runs with a live lease; and no run that could have been claimed
  -- instead, of an owner with fewer than two, is older.
  pub claim_next-some :
      (run : AgentRun)
      → IsKeyed run_name s.runs
      → (claim_next worker now lease token s).0 ≡ ok (some run)
      → (before : AgentRun) × IsClaimOf s
          (claim_next worker now lease token s).1
          worker
          token
          now
          lease
          before
          run
  unfolding claim_next
  claim_next-some run keyed h = elim (Option-cases (next_claim now (values s.runs))) [
    | inl e ↦ absurd (cc (rw (e, claim_next) at h))
    | inr (a, e) ↦
        let same : ok (some (claimed a worker token now lease)) ≡ ok (some run) =
          rw (e, claim_next) at h in
        let is_run : claimed a worker token now lease ≡ run = cc same in
        rw (e, claim_next)
          (subst
            (λ r.
              (before : AgentRun) × IsClaimOf s
                (record s { runs = put s.runs a.run_id (claimed a worker token now lease) }) worker
                token now lease before r)
            is_run (a, taken_run a keyed e))
  ]

  -- A claim that hands out nothing writes nothing, and each run that is queued or has an ended lease
  -- belongs to an owner with two runs whose leases are live.
  pub claim_next-none :
      (claim_next worker now lease token s).0 ≡ ok none
      → ((claim_next worker now lease token s).1 ≡ s)
        × ((b : AgentRun)
            → Occurs b (values s.runs)
            → is_candidate now b ≡ true
            → 2 ≤ leased_count now b.owner_id (values s.runs))
  unfolding claim_next
  claim_next-none h = elim (Option-cases (next_claim now (values s.runs))) [
    | inl e ↦ (rw (e, claim_next), λ b m c. next_claim-none now (values s.runs) b e m c)
    | inr (a, e) ↦ absurd (cc (rw (e, claim_next) at h))
  ]
