-- ===== src/Run.antt =====
-- src/agent/runs.py and src/agent/events.py: the durable run, its states, and its events.
use ven_agent.Prelude.{ℕ, ◌≡◌, ◌↔◌, Bool, true, false, Option, String, arith, HasEq}

pub data RunStatus : Type 0 where
  queued running waiting_approval succeeded failed cancelled incompatible : RunStatus

abbrev pub status_beq : RunStatus → RunStatus → Bool
status_beq queued queued = true
status_beq running running = true
status_beq waiting_approval waiting_approval = true
status_beq succeeded succeeded = true
status_beq failed failed = true
status_beq cancelled cancelled = true
status_beq incompatible incompatible = true
status_beq _ _ = false

pub status_beq_iff : (a b : RunStatus) → (status_beq a b ≡ true) ↔ (a ≡ b)
status_beq_iff a b = ground arith

instance abbrev pub status_eq : HasEq RunStatus
status_eq = record { equals = status_beq; decides = status_beq_iff }

-- `status in ACTIVE_RUN_STATUSES`
abbrev pub is_active_status : RunStatus → Bool
is_active_status queued = true
is_active_status running = true
is_active_status waiting_approval = true
is_active_status _ = false

-- `status in TERMINAL_RUN_STATUSES`
abbrev pub is_terminal_status : RunStatus → Bool
is_terminal_status succeeded = true
is_terminal_status failed = true
is_terminal_status cancelled = true
is_terminal_status incompatible = true
is_terminal_status _ = false

pub record AgentRun : Type 0 where
  pub run_id : String
  pub conversation_id : String
  pub owner_id : String
  pub input_message_id : String
  pub grant_id : String
  pub status : RunStatus
  pub runtime_contract_version : ℕ
  pub created_at : ℕ
  pub updated_at : ℕ
  pub output_message_id : Option String
  pub retry_of_run_id : Option String
  pub started_at : Option ℕ
  pub completed_at : Option ℕ
  pub cancel_requested_at : Option ℕ
  pub terminal_reason_code : Option String
  pub terminal_message : Option String
  pub phase : Option String
  pub completed_nodes : ℕ
  pub total_nodes : ℕ
  pub claimed_by : Option String
  pub claim_token : Option String
  pub lease_expires_at : Option ℕ
  pub execution_attempt : ℕ
  pub selected_skill_id : Option String
  pub selected_skill_name : Option String

unfoldable pub terminal : AgentRun → Bool
terminal run = is_terminal_status run.status

-- The payload of an event is kept and never read: it stands for its JSON text.
pub record RunEvent : Type 0 where
  pub run_id : String
  pub sequence : ℕ
  pub type : String
  pub payload : String
  pub created_at : ℕ
