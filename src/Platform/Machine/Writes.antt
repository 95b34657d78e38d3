-- ===== src/Platform/Machine/Writes.antt =====
-- The writes of the methods of src/repo/inmemory/runs.py are moves of the abstract machine.
use ven_agent.Prelude.{ℕ, ◌+◌, ◌≡◌, true, Option, none, some, String, arith, text_has_eq}
use ven_agent.Run.{AgentRun, queued, running, waiting_approval, failed, cancelled, incompatible}
use ven_agent.Platform.Claims.{claimed, is_candidate, ended}
use ven_agent.Platform.Finish.{finished}
use ven_agent.Platform.Conversations.{request_stop}
use ven_agent.Platform.Machine.{Moves}

pub claimed-Moves :
    (run : AgentRun) (worker token : String) (now lease : ℕ)
    → is_candidate now run ≡ true
    → Moves run (claimed run worker token now lease)
unfolding claimed is_candidate
claimed-Moves run worker token now lease h = ground arith

pub heartbeat-Moves :
    (run : AgentRun) (now lease : ℕ)
    → run.status ≡ running
    → Moves run (record run { updated_at = now; lease_expires_at = some (now + lease) })
heartbeat-Moves run now lease h = ground arith

pub cancel_request-Moves :
    (run : AgentRun) (now : ℕ)
    → Moves run (record run { cancel_requested_at = some now; updated_at = now })
cancel_request-Moves run now = ground arith

pub wait-Moves :
    (run : AgentRun) (now : ℕ)
    → run.status ≡ running
    → Moves run (record run {
      status = waiting_approval;
      updated_at = now;
      phase = some "awaiting_approval";
      claimed_by = none;
      claim_token = none;
      lease_expires_at = none;
    })
wait-Moves run now h = ground arith

pub resume-Moves :
    (run : AgentRun) (now : ℕ)
    → run.status ≡ waiting_approval
    → Moves run (record run { status = queued; updated_at = now; phase = some "synthesizing" })
resume-Moves run now h = ground arith

pub skill-Moves :
    (run : AgentRun) (id name : Option String) (now : ℕ)
    → Moves run
        (record run { selected_skill_id = id; selected_skill_name = name; updated_at = now })
skill-Moves run id name now = ground arith

pub failed-Moves :
    (run : AgentRun) (reason message : Option String) (now : ℕ)
    → run.status ≡ running
    → Moves run (ended failed reason message now run)
failed-Moves run reason message now h = ground arith

pub cancelled-Moves :
    (run : AgentRun) (reason message : Option String) (now : ℕ)
    → run.status ≡ running
    → Moves run (ended cancelled reason message now run)
cancelled-Moves run reason message now h = ground arith

pub refused-Moves :
    (run : AgentRun) (reason message : Option String) (now : ℕ)
    → run.status ≡ waiting_approval
    → Moves run (ended cancelled reason message now run)
refused-Moves run reason message now h = ground arith

pub incompatible-Moves :
    (run : AgentRun) (reason message : Option String) (now : ℕ)
    → run.status ≡ running
    → Moves run (ended incompatible reason message now run)
incompatible-Moves run reason message now h = ground arith

pub finished-Moves :
    (run : AgentRun) (message_id : String) (now : ℕ)
    → run.status ≡ running
    → Moves run (finished run message_id now)
finished-Moves run message_id now h = ground arith

pub stopped-Moves : (now : ℕ) (run : AgentRun) → Moves run (request_stop now run)
unfolding request_stop
stopped-Moves now run = ground arith

pub Moves-refl : (run : AgentRun) → Moves run run
Moves-refl run = ground arith
