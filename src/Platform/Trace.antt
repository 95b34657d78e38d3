-- ===== src/Platform/Trace.antt =====
-- Sequences of calls of all run and conversation methods of src/repo/inmemory that write, in any order
-- and with any arguments, as the HTTP routes, the workers and the cleanup make them.
pub mod Reach
pub mod History
pub mod Fencing
use ven_agent.Prelude.{ℕ, ◌≡◌, Option, none, String, List, [], ◌∷◌, ◌++◌, text_has_eq, Occurs}
use ven_agent.Prelude.Dict.{get}
use ven_agent.Ownership.{Actor}
use ven_agent.Platform.{PlatformState}
use ven_agent.Platform.Claims.{
  claim_next, heartbeat, request_cancel, wait_approval_run, resume_run, cancel_waiting_approval,
  set_run_skill, fail_run, cancel_run, incompatible_run,
}
use ven_agent.Platform.Runs.{create_run, append_run_event}
use ven_agent.Platform.Retry.{retry_run}
use ven_agent.Platform.Finish.{succeed_run}
use ven_agent.Platform.Conversations.{
  mark_conversation_deleting, create_conversation, rename_conversation,
}
use ven_agent.Platform.Removal.{remove_conversation}

-- A call of a method with its arguments, in the method's order; a `uuid4` that it makes comes last.
pub data Call : Type 0 where
  claim : (worker : String) (now lease : ℕ) (token : String) → Call
  beat : (id worker token : String) (attempt now lease : ℕ) → Call
  ask_cancel : (owner id : String) (now : ℕ) → Call
  wait : (id token : String) (attempt now : ℕ) → Call
  resume : (id : String) (now : ℕ) → Call
  refuse : (owner id : String) (now : ℕ) → Call
  choose_skill : (owner id : String) (skill name : Option String) (now : ℕ) → Call
  succeed :
      (id token : String) (attempt : ℕ) (answer : String) (now : ℕ)
      (blocks : List (List (String × String))) (uuid : String)
      → Call
  fail : (id token : String) (attempt : ℕ) (reason message : String) (now : ℕ) → Call
  cancel : (id worker token : String) (attempt : ℕ) (reason : String) (now : ℕ) → Call
  reject : (id token : String) (attempt : ℕ) (message : String) (now : ℕ) → Call
  create :
      (actor : Actor) (id message request : String) (now : ℕ)
      (message_uuid run_uuid grant_uuid : String)
      → Call
  retry : (actor : Actor) (source request : String) (now : ℕ) (run_uuid grant_uuid : String) → Call
  mark : (owner id : String) (now : ℕ) → Call
  remove : (owner id : String) → Call
  open_conversation : (actor : Actor) (now : ℕ) (uuid : String) → Call
  rename : (owner id title : String) (now : ℕ) → Call
  append_event : (id type payload : String) (now : ℕ) → Call

-- The state after the call, whether it returned or raised.
unfoldable pub perform : Call → PlatformState → PlatformState
perform (claim worker now lease token) s = (claim_next worker now lease token s).1
perform (beat id worker token attempt now lease) s =
    (heartbeat id worker token attempt now lease s).1
perform (ask_cancel owner id now) s = (request_cancel owner id now s).1
perform (wait id token attempt now) s = (wait_approval_run id token attempt now s).1
perform (resume id now) s = (resume_run id now s).1
perform (refuse owner id now) s = (cancel_waiting_approval owner id now s).1
perform (choose_skill owner id skill name now) s = (set_run_skill owner id skill name now s).1
perform (succeed id token attempt answer now blocks uuid) s =
    (succeed_run id token attempt answer now blocks uuid s).1
perform (fail id token attempt reason message now) s =
    (fail_run id token attempt reason message now s).1
perform (cancel id worker token attempt reason now) s =
    (cancel_run id worker token attempt reason now s).1
perform (reject id token attempt message now) s =
    (incompatible_run id token attempt message now s).1
perform (create actor id message request now message_uuid run_uuid grant_uuid) s =
    (create_run actor id message request now message_uuid run_uuid grant_uuid s).1
perform (retry actor source request now run_uuid grant_uuid) s =
    (retry_run actor source request now run_uuid grant_uuid s).1
perform (mark owner id now) s = (mark_conversation_deleting owner id now s).1
perform (remove owner id) s = (remove_conversation owner id s).1
perform (open_conversation actor now uuid) s = (create_conversation actor now uuid s).1
perform (rename owner id title now) s = (rename_conversation owner id title now s).1
perform (append_event id type payload now) s = (append_run_event id type payload now s).1

unfoldable pub perform_all : List Call → PlatformState → PlatformState
unfolding perform
perform_all [] s = s
perform_all (c ∷ cs) s = perform_all cs (perform c s)

-- The run ids that a call may give out.
abbrev pub run_ids : Call → List String
run_ids (create actor id message request now message_uuid run_uuid grant_uuid) = run_uuid ∷ []
run_ids (retry actor source request now run_uuid grant_uuid) = run_uuid ∷ []
run_ids _ = []

abbrev pub all_run_ids : List Call → List String
all_run_ids [] = []
all_run_ids (c ∷ cs) = run_ids c ++ all_run_ids cs

-- The conversations that a call may remove with their runs.
abbrev pub removed_ids : Call → List String
removed_ids (remove owner id) = id ∷ []
removed_ids _ = []

abbrev pub all_removed_ids : List Call → List String
all_removed_ids [] = []
all_removed_ids (c ∷ cs) = removed_ids c ++ all_removed_ids cs

abbrev pub IsUnused : PlatformState → List String → Type 0
IsUnused s [] = Unit
IsUnused s (id ∷ ids) = (get s.runs id ≡ none) × IsUnused s ids

-- `uuid4` gives ids that no stored run has.
abbrev pub UsesNewIds : List Call → PlatformState → Type 0
UsesNewIds [] s = Unit
UsesNewIds (c ∷ cs) s = IsUnused s (run_ids c) × UsesNewIds cs (perform c s)
