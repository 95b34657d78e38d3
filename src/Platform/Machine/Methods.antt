-- ===== src/Platform/Machine/Methods.antt =====
-- The methods of src/repo/inmemory/runs.py take steps of the abstract machine.
use ven_agent.Prelude.{
  ℕ, ◌≡◌, refl, inl, inr, Option, none, some, String, ◌==◌, ◌||◌, text_has_eq, Bool-cases,
}
use ven_agent.Prelude.Dict.{Dict, get, put}
use ven_agent.Run.{
  AgentRun, waiting_approval, failed, cancelled, status_beq_iff, status_eq, terminal,
}
use ven_agent.Platform.{PlatformState, Method}
use ven_agent.Platform.Claims.{
  heartbeat, request_cancel, wait_approval_run, resume_run, cancel_waiting_approval, set_run_skill,
  fail_run, cancel_run, incompatible_run, is_some,
}
use ven_agent.Platform.Machine.{Scope, Moves, Steps, stay, next, moved}
use ven_agent.Platform.Machine.Writes.{
  heartbeat-Moves, cancel_request-Moves, wait-Moves, resume-Moves, skill-Moves, failed-Moves,
  cancelled-Moves, refused-Moves, incompatible-Moves,
}
use ven_agent.Platform.Machine.Guards.{
  find_run_cases, find_owned_run_cases, require_current_claim_cases, is_stale_lem,
}

-- A call of the method, whatever it returns, takes the runs by steps of the machine.
abbrev pub TakesSteps : {A : Type 0} → Method A → Type 1
TakesSteps m = (scope : Scope) (s : PlatformState) → Steps scope s.runs (m s).1.runs

pub one_move :
    {scope : Scope} {d : Dict String AgentRun} (id : String) (a b : AgentRun)
    → get d id ≡ some a
    → Moves a b
    → Steps scope d (put d id b)
one_move id a b g m = next stay (moved id a b g m refl)

pub heartbeat-TakesSteps :
    (id worker token : String) (attempt now lease : ℕ)
    → TakesSteps (heartbeat id worker token attempt now lease)
unfolding heartbeat
heartbeat-TakesSteps id worker token attempt now lease scope s =
    elim (require_current_claim_cases id token attempt (some worker) s) [
      | inl (e, q) ↦ rw q stay
      | inr (run, q, g, h) ↦
          let held = is_stale_lem run token attempt (some worker) h in
          rw q (one_move id run _ g (heartbeat-Moves run now lease held.0))
    ]

pub request_cancel-TakesSteps :
    (owner id : String) (now : ℕ) → TakesSteps (request_cancel owner id now)
unfolding request_cancel
request_cancel-TakesSteps owner id now scope s = elim (find_owned_run_cases owner id s) [
  | inl (e, q) ↦ rw q stay
  | inr (run, q, g, o) ↦ elim (Bool-cases (terminal run || is_some run.cancel_requested_at)) [
    | inl over ↦ rw (q, over) stay
    | inr live ↦ rw (q, live) (one_move id run _ g (cancel_request-Moves run now))
  ]
]

pub wait_approval_run-TakesSteps :
    (id token : String) (attempt now : ℕ) → TakesSteps (wait_approval_run id token attempt now)
unfolding wait_approval_run
wait_approval_run-TakesSteps id token attempt now scope s =
    elim (require_current_claim_cases id token attempt none s) [
      | inl (e, q) ↦ rw q stay
      | inr (run, q, g, h) ↦
          rw q (one_move id run _ g (wait-Moves run now (is_stale_lem run token attempt none h).0))
    ]

pub resume_run-TakesSteps : (id : String) (now : ℕ) → TakesSteps (resume_run id now)
unfolding resume_run
resume_run-TakesSteps id now scope s = elim (find_run_cases id s) [
  | inl (e, q) ↦ rw q stay
  | inr (run, q, g, u) ↦ elim (Bool-cases (run.status == waiting_approval)) [
    | inl w ↦
        rw (q, w)
          (one_move id run _ g (resume-Moves run now ((status_beq_iff _ waiting_approval).0 w)))
    | inr w ↦ rw (q, w) stay
  ]
]

pub set_run_skill-TakesSteps :
    (owner id : String) (skill name : Option String) (now : ℕ)
    → TakesSteps (set_run_skill owner id skill name now)
unfolding set_run_skill
set_run_skill-TakesSteps owner id skill name now scope s = elim (find_owned_run_cases owner id s) [
  | inl (e, q) ↦ rw q stay
  | inr (run, q, g, o) ↦ rw q (one_move id run _ g (skill-Moves run skill name now))
]

pub cancel_waiting_approval-TakesSteps :
    (owner id : String) (now : ℕ) → TakesSteps (cancel_waiting_approval owner id now)
unfolding cancel_waiting_approval
cancel_waiting_approval-TakesSteps owner id now scope s = elim (find_owned_run_cases owner id s) [
  | inl (e, q) ↦ rw q stay
  | inr (run, q, g, o) ↦ elim (Bool-cases (run.status == cancelled)) [
    | inl c ↦ rw (q, c) stay
    | inr c ↦ elim (Bool-cases (run.status == waiting_approval)) [
      | inl w ↦
          rw (q, c, w)
            (one_move id run _ g
              (refused-Moves run _ _ now ((status_beq_iff _ waiting_approval).0 w)))
      | inr w ↦ rw (q, c, w) stay
    ]
  ]
]

pub fail_run-TakesSteps :
    (id token : String) (attempt : ℕ) (reason message : String) (now : ℕ)
    → TakesSteps (fail_run id token attempt reason message now)
unfolding fail_run
fail_run-TakesSteps id token attempt reason message now scope s = elim (find_run_cases id s) [
  | inl (e, q) ↦ rw q stay
  | inr (existing, q, g, u) ↦ elim (Bool-cases (existing.status == failed)) [
    | inl f ↦ rw (q, f) stay
    | inr f ↦ elim (require_current_claim_cases id token attempt none s) [
      | inl (e, r) ↦ rw (q, f, r) stay
      | inr (run, r, g', h) ↦
          rw (q, f, r)
            (one_move id run _ g'
              (failed-Moves run _ _ now (is_stale_lem run token attempt none h).0))
    ]
  ]
]

pub cancel_run-TakesSteps :
    (id worker token : String) (attempt : ℕ) (reason : String) (now : ℕ)
    → TakesSteps (cancel_run id worker token attempt reason now)
unfolding cancel_run
cancel_run-TakesSteps id worker token attempt reason now scope s = elim (find_run_cases id s) [
  | inl (e, q) ↦ rw q stay
  | inr (existing, q, g, u) ↦ elim (Bool-cases (existing.status == cancelled)) [
    | inl f ↦ rw (q, f) stay
    | inr f ↦ elim (require_current_claim_cases id token attempt (some worker) s) [
      | inl (e, r) ↦ rw (q, f, r) stay
      | inr (run, r, g', h) ↦
          let held = is_stale_lem run token attempt (some worker) h in
          rw (q, f, r) (one_move id run _ g' (cancelled-Moves run _ _ now held.0))
    ]
  ]
]

pub incompatible_run-TakesSteps :
    (id token : String) (attempt : ℕ) (message : String) (now : ℕ)
    → TakesSteps (incompatible_run id token attempt message now)
unfolding incompatible_run
incompatible_run-TakesSteps id token attempt message now scope s =
    elim (require_current_claim_cases id token attempt none s) [
      | inl (e, q) ↦ rw q stay
      | inr (run, q, g, h) ↦
          let held = is_stale_lem run token attempt none h in
          rw q (one_move id run _ g (incompatible-Moves run _ _ now held.0))
    ]
