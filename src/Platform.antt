-- ===== src/Platform.antt =====
-- src/repo/inmemory/state.py: the state that the in-memory stores of owners, conversations and runs
-- share, and what their methods raise. Each method holds the one lock, so it is one atomic step.
pub mod Conversations
pub mod Claims
pub mod Removal
pub mod Runs
pub mod Retry
pub mod Finish
pub mod Machine
pub mod Trace
pub mod Owners
mod Tests
use ven_agent.Prelude.{
  ℕ, ◌*◌, ◌≡◌, Bool, true, false, Option, none, some, String, List, [], ◌==◌, text_has_eq, Action,
  Result, raise, raise_if, pure, gets, modify, or_raise, ◌>>=◌, ◌>>◌, if◌then◌else◌, not,
}
use ven_agent.Prelude.Dict.{Dict, get, put}
use ven_agent.Ownership.{OwnerRecord, UserRecord, SessionRecord, RunGrant}
use ven_agent.Conversation.{Conversation, ConversationMessage}
use ven_agent.Run.{AgentRun, RunEvent}

pub record RequestRecord : Type 0 where
  pub operation : String
  pub payload : String
  pub run_id : String
  pub input_message_id : String

-- A `defaultdict` reads a missing key as its default; the lists of `messages` and `run_events` are
-- read with `list_at`.
pub record PlatformState : Type 0 where
  pub owners : Dict String OwnerRecord
  pub users : Dict String UserRecord
  pub users_by_name : Dict String String
  pub sessions : Dict String SessionRecord
  pub conversations : Dict String Conversation
  pub messages : Dict String (List ConversationMessage)
  pub runs : Dict String AgentRun
  pub run_events : Dict String (List RunEvent)
  pub grants : Dict String RunGrant
  pub requests : Dict (String × String) RequestRecord
  pub guest_creates : Dict String (List ℕ)

-- What the methods raise. `key_error` and `stop_iteration` are Python's own, of `d[k]` and `next`.
pub data PlatformError : Type 0 where
  run_not_found invalid_run_transition run_authorization_invalid : PlatformError
  conversation_not_found conversation_deleting conversation_busy : PlatformError
  idempotency_conflict retry_not_allowed anonymous_limit_exceeded : PlatformError
  session_inactive username_taken key_error stop_iteration : PlatformError

abbrev pub Method : Type 0 → Type 0
Method A = Action PlatformState PlatformError A

abbrev pub list_at : {A : Type 0} → Dict String (List A) → String → List A
list_at d k = elim (get d k) [ none ↦ [] | some xs ↦ xs ]

-- `timedelta(days=n)`, in microseconds.
abbrev pub days : ℕ → ℕ
days n = n * 86_400_000_000

-- `option or default`, for an option whose values are all true in a Boolean context.
abbrev pub or_else : {A : Type 0} → Option A → A → A
or_else none d = d
or_else (some a) d = a

-- `text or default`: the empty text is false.
abbrev pub text_or : Option String → String → String
text_or none d = d
text_or (some s) d = if s == "" then d else s
