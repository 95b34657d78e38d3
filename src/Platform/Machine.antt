-- ===== src/Platform/Machine.antt =====
-- The abstract machine of runs: what one atomic step may do to the runs of the store. The methods of
-- src/repo/inmemory are shown to take such steps, and the invariants are shown of such steps.
pub mod Writes
pub mod Guards
pub mod Methods
pub mod Endings
pub mod Removals
pub mod Requests
pub mod Repeats
pub mod Invariant
use ven_agent.Prelude.{
  ℕ, ◌≤◌, ◌<◌, ◌≡◌, ◌⊎◌, Bool, true, false, Option, none, some, String, text_has_eq,
}
use ven_agent.Prelude.Dict.{Dict, get, put, pop, values, map_values}
use ven_agent.Run.{
  AgentRun, RunStatus, queued, running, waiting_approval, succeeded, failed, cancelled,
  incompatible, status_beq, is_active_status, is_terminal_status,
}
use ven_agent.Platform.Claims.{is_some}
use ven_agent.Platform.Runs.{has_active_run}

-- The edges of the run's state machine. A state may also stay as it is.
abbrev pub may_become : RunStatus → RunStatus → Bool
may_become queued queued = true
may_become queued running = true
may_become running queued = false
may_become running _ = true
may_become waiting_approval queued = true
may_become waiting_approval waiting_approval = true
may_become waiting_approval cancelled = true
may_become a b = status_beq a b

-- Worker, token and lease are there exactly while the run is running, the time of completion exactly
-- once it is over, the output exactly when it succeeded.
pub record IsSound (run : AgentRun) : Type 0 where
  pub held_by : is_some run.claimed_by ≡ status_beq run.status running
  pub held : is_some run.claim_token ≡ status_beq run.status running
  pub leased : is_some run.lease_expires_at ≡ status_beq run.status running
  pub over : is_some run.completed_at ≡ is_terminal_status run.status
  pub answered : is_some run.output_message_id ≡ status_beq run.status succeeded

-- What one step may change in a run. A run that goes on running keeps its token and its attempt, or
-- has a later attempt.
pub record Moves (a b : AgentRun) : Type 0 where
  pub same_id : b.run_id ≡ a.run_id
  pub same_conversation : b.conversation_id ≡ a.conversation_id
  pub same_owner : b.owner_id ≡ a.owner_id
  pub same_input : b.input_message_id ≡ a.input_message_id
  pub same_grant : b.grant_id ≡ a.grant_id
  pub edge : may_become a.status b.status ≡ true
  pub attempts : a.execution_attempt ≤ b.execution_attempt
  pub fenced :
      b.status ≡ running
      → ((a.status ≡ running)
          × (b.claim_token ≡ a.claim_token)
          × (b.execution_attempt ≡ a.execution_attempt))
        ⊎ (a.execution_attempt < b.execution_attempt)
  pub final :
      is_terminal_status a.status ≡ true
      → (b.completed_at ≡ a.completed_at) × (b.output_message_id ≡ a.output_message_id)
  pub sound : IsSound a → IsSound b

-- What steps may do: give the run ids of which `new` holds to new runs, and remove the runs of the
-- conversations of which `ended` holds.
pub record Scope : Type 1 where
  pub new : String → Type 0
  pub ended : String → Type 0

-- One step.
pub data Step (scope : Scope) (d e : Dict String AgentRun) : Type 0 where
  moved :
      (k : String) (a b : AgentRun) → get d k ≡ some a → Moves a b → e ≡ put d k b → Step scope d e
  created :
      (b : AgentRun)
      → scope.new b.run_id
      → get d b.run_id ≡ none
      → b.status ≡ queued
      → IsSound b
      → has_active_run b.conversation_id (values d) ≡ false
      → e ≡ put d b.run_id b
      → Step scope d e
  mapped :
      (f : AgentRun → AgentRun)
      → ((a : AgentRun) → Moves a (f a))
      → e ≡ map_values f d
      → Step scope d e
  removed :
      (k : String) (a : AgentRun)
      → get d k ≡ some a
      → scope.ended a.conversation_id
      → e ≡ pop d k
      → Step scope d e

-- Any number of steps.
pub data Steps (scope : Scope) (d : Dict String AgentRun) : Dict String AgentRun → Type 0 where
  stay : Steps scope d d
  next : {e f : Dict String AgentRun} → Steps scope d e → Step scope e f → Steps scope d f
