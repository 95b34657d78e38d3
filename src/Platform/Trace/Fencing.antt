-- ===== src/Platform/Trace/Fencing.antt =====
-- Leases and claims over time: what a worker that lost its claim can still do.
use ven_agent.Prelude.{
  ℕ, ◌<◌, ◌≡◌, sym, ◌∙◌, ap, subst, ◌⊎◌, inl, inr, true, Option, none, some, String, List, arith,
  text_has_eq, Occurs, Bool-cases, ◌==◌, ok,
}
use ven_agent.Prelude.Dict.{get}
use ven_agent.Run.{AgentRun, running, failed, cancelled, succeeded, status_eq, is_terminal_status}
use ven_agent.Platform.{PlatformState}
use ven_agent.Platform.Claims.{
  require_current_claim, heartbeat, wait_approval_run, fail_run, cancel_run, incompatible_run,
}
use ven_agent.Platform.Finish.{succeed_run}
use ven_agent.Platform.Machine.Guards.{
  Refuses, find_run_cases, require_current_claim_cases, is_stale_lem,
}
use ven_agent.Platform.Machine.Invariant.{RunsValid}
use ven_agent.Platform.Trace.{Call, perform_all, all_run_ids, all_removed_ids, UsesNewIds}
use ven_agent.Platform.Trace.Reach.{perform_all-Steps}
use ven_agent.Platform.Trace.History.{Follows, Later, Steps-Later}

pub perform_all-Later :
    (cs : List Call) (s : PlatformState) (k : String) (a : AgentRun)
    → RunsValid s.runs
    → UsesNewIds cs s
    → ¬ Occurs k (all_run_ids cs)
    → get s.runs k ≡ some a
    → Later (λ c. Occurs c (all_removed_ids cs)) (perform_all cs s).runs k a
perform_all-Later cs s k a v u old g =
    Steps-Later k a old
      (perform_all-Steps
        {scope = record {
          new = λ id. Occurs id (all_run_ids cs);
          ended = λ c. Occurs c (all_removed_ids cs);
        }}
        cs s v (λ id m. m) (λ c m. m) u)
      g

-- Every run stored under `k` has a later attempt than `n`.
abbrev IsPast : PlatformState → String → ℕ → Type 0
IsPast s k n = (b : AgentRun) → get s.runs k ≡ some b → n < b.execution_attempt

past_claim :
    (k token : String) (n : ℕ) (worker : Option String) (s : PlatformState)
    → IsPast s k n
    → Refuses (require_current_claim k token n worker) s
past_claim k token n worker s past = elim (require_current_claim_cases k token n worker s) [
  | inl refused ↦ refused
  | inr (run, q, g, h) ↦ absurd (omega (arith, past run g, (is_stale_lem run token n worker h).2))
]

-- No method of a worker writes anything.
pub record WritesNothing (k worker token : String) (n : ℕ) (s : PlatformState) : Type 0 where
  pub beats : (now lease : ℕ) → (heartbeat k worker token n now lease s).1 ≡ s
  pub waits : (now : ℕ) → (wait_approval_run k token n now s).1 ≡ s
  pub succeeds :
      (answer : String) (now : ℕ) (blocks : List (List (String × String))) (uuid : String)
      → (succeed_run k token n answer now blocks uuid s).1 ≡ s
  pub fails : (reason message : String) (now : ℕ) → (fail_run k token n reason message now s).1 ≡ s
  pub cancels : (reason : String) (now : ℕ) → (cancel_run k worker token n reason now s).1 ≡ s
  pub rejects : (message : String) (now : ℕ) → (incompatible_run k token n message now s).1 ≡ s

module _ (k worker token : String) (n : ℕ) (s : PlatformState) (past : IsPast s k n) where
  late_success :
      (answer : String) (now : ℕ) (blocks : List (List (String × String))) (uuid : String)
      → (succeed_run k token n answer now blocks uuid s).1 ≡ s
  unfolding succeed_run
  late_success answer now blocks uuid = elim (find_run_cases k s) [
    | inl (e, q) ↦ rw q
    | inr (run, q, g, u) ↦ elim (Bool-cases (run.status == succeeded)) [
      | inl d ↦ rw (q, d)
      | inr d ↦ let (e, r) = past_claim k token n none s past in rw (q, d, r)
    ]
  ]

  late_failure :
      (reason message : String) (now : ℕ) → (fail_run k token n reason message now s).1 ≡ s
  unfolding fail_run
  late_failure reason message now = elim (find_run_cases k s) [
    | inl (e, q) ↦ rw q
    | inr (run, q, g, u) ↦ elim (Bool-cases (run.status == failed)) [
      | inl d ↦ rw (q, d)
      | inr d ↦ let (e, r) = past_claim k token n none s past in rw (q, d, r)
    ]
  ]

  late_cancel : (reason : String) (now : ℕ) → (cancel_run k worker token n reason now s).1 ≡ s
  unfolding cancel_run
  late_cancel reason now = elim (find_run_cases k s) [
    | inl (e, q) ↦ rw q
    | inr (run, q, g, u) ↦ elim (Bool-cases (run.status == cancelled)) [
      | inl d ↦ rw (q, d)
      | inr d ↦ let (e, r) = past_claim k token n (some worker) s past in rw (q, d, r)
    ]
  ]

  past-WritesNothing : WritesNothing k worker token n s
  unfolding heartbeat wait_approval_run incompatible_run
  past-WritesNothing =
      let (e, q) = past_claim k token n none s past in
      let (e', q') = past_claim k token n (some worker) s past in
      record {
        beats = λ now lease. rw q';
        waits = λ now. rw q;
        succeeds = late_success;
        fails = late_failure;
        cancels = late_cancel;
        rejects = λ message now. rw q;
      }

module _ (cs : List Call) (s : PlatformState) (k : String) (a : AgentRun) (valid : RunsValid s.runs)
    (new : UsesNewIds cs s) (old : ¬ Occurs k (all_run_ids cs)) (here : get s.runs k ≡ some a) where
  -- A worker whose attempt is earlier than the run's writes nothing any more: after any further calls
  -- its heartbeat, its wait for an approval, its success, failure, cancellation and refusal of the
  -- runtime's version leave the whole store as it is, whatever token and worker name it gives. The
  -- calls give the id of the run to no other run.
  pub lost_claim-WritesNothing :
      (worker token : String) (n : ℕ)
      → n < a.execution_attempt
      → WritesNothing k worker token n (perform_all cs s)
  lost_claim-WritesNothing worker token n lost =
      past-WritesNothing k worker token n (perform_all cs s) λ b g.
        elim (perform_all-Later cs s k a valid new old here) [
          | inl (gone, ended) ↦ let clash : none ≡ some b = sym gone ∙ g in absurd (cc clash)
          | inr (c, h, f) ↦
              let both : some c ≡ some b = sym h ∙ g in let grown = f.attempts in ground arith
        ]

  -- An attempt belongs to one token: where the run is running now, and after any further calls the
  -- guard of the worker's methods accepts a claim with the same attempt, its token is the run's.
  pub attempt_has_one_token :
      (token : String) (worker : Option String) (run : AgentRun)
      → a.status ≡ running
      → require_current_claim k token a.execution_attempt worker (perform_all cs s)
        ≡ (ok run, perform_all cs s)
      → a.claim_token ≡ some token
  attempt_has_one_token token worker run runs accepted =
      elim (require_current_claim_cases k token a.execution_attempt worker (perform_all cs s)) [
        | inl (e, q) ↦ absurd (cc (ap (λ p. p.0) (sym q ∙ accepted)))
        | inr (b, q, g, h) ↦
            let held = is_stale_lem b token a.execution_attempt worker h in
            elim (perform_all-Later cs s k a valid new old here) [
              | inl (gone, ended) ↦ let clash : none ≡ some b = sym gone ∙ g in absurd (cc clash)
              | inr (c, i, f) ↦
                  let both : some c ≡ some b = sym i ∙ g in
                  let c_is_b : c ≡ b = cc both in
                  let follows : Follows a b = subst (Follows a) c_is_b f in
                  ground (arith, follows.fenced held.0)
            ]
      ]

  -- A run that is over stays over: after any further calls it has the same state, completion time,
  -- output, conversation and owner, or it is gone and one of these calls was a `remove_conversation` of
  -- the run's conversation. The calls give the id of the run to no other run.
  pub terminal_is_final :
      is_terminal_status a.status ≡ true
      → ((get (perform_all cs s).runs k ≡ none) × Occurs a.conversation_id (all_removed_ids cs))
        ⊎ ((b : AgentRun) × (get (perform_all cs s).runs k ≡ some b)
            × (b.status ≡ a.status)
            × (b.completed_at ≡ a.completed_at)
            × (b.output_message_id ≡ a.output_message_id)
            × (b.conversation_id ≡ a.conversation_id)
            × (b.owner_id ≡ a.owner_id))
  terminal_is_final over = elim (perform_all-Later cs s k a valid new old here) [
    | inl gone ↦ inl gone
    | inr (b, g, f) ↦
        let (same, done, output) = f.final over in
        inr (b, g, same, done, output, f.conversation, f.owner)
  ]
