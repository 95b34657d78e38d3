-- ===== src/Platform/Retry.antt =====
-- src/repo/inmemory/runs.py: a retry of a run that failed, was cancelled or is incompatible, and the
-- check of a run's grant.
use Prim.Native.String.{◌++◌ as concat}
use ven_agent.Prelude.{
  ℕ, Bool, true, false, not, ◌||◌, Option, none, some, String, List, ◌==◌, ◌!=◌, text_has_eq,
  number_has_eq, option_eq, pair_eq, Result, ok, err, raise_if, pure, gets, modify, or_raise, ◌>>=◌,
  ◌>>◌, if◌then◌else◌, leb, select, first, last,
}
use ven_agent.Prelude.Dict.{get, put}
use ven_agent.Ownership.{Actor, OwnerRecord, RunGrant, ExecutionAuthorization, is_active}
use ven_agent.Conversation.{ConversationMessage, role_eq, user}
use ven_agent.Run.{AgentRun, RunStatus, failed, cancelled, incompatible}
use ven_agent.Platform.{
  PlatformState, PlatformError, Method, RequestRecord, run_authorization_invalid, run_not_found,
  idempotency_conflict, retry_not_allowed, stop_iteration, list_at,
}
use ven_agent.Platform.Conversations.{require_conversation, require_active_owner_if_known}
use ven_agent.Platform.Claims.{find_owned_run, is_some}
use ven_agent.Platform.Runs.{RunCreation, creation, require_no_active_run, new_run}

abbrev pub is_retryable : RunStatus → Bool
is_retryable failed = true
is_retryable cancelled = true
is_retryable incompatible = true
is_retryable _ = false

-- The last message of the user is the source's input: nothing was asked since.
unfoldable pub is_last_input : AgentRun → List ConversationMessage → Bool
is_last_input source items = elim (last (select (λ item. item.role == user) items)) [
  | none ↦ false
  | some item ↦ item.message_id == source.input_message_id
]

-- What `retry_run` does for a request that it has not seen.
unfoldable pub start_retry :
    Actor → AgentRun → String → String → ℕ → String → String → Method RunCreation
start_retry actor source source_run_id client_request_id now run_uuid grant_uuid = do
  raise_if (not (is_retryable source.status)) retry_not_allowed
  require_conversation actor.owner_id source.conversation_id
  require_active_owner_if_known actor.owner_id
  items ← gets (λ s. list_at s.messages source.conversation_id)
  raise_if (not (is_last_input source items)) retry_not_allowed
  require_no_active_run source.conversation_id
  input ← or_raise (first (λ item. item.message_id == source.input_message_id) items) stop_iteration
  run ←
      new_run actor source.conversation_id source.input_message_id now (some source_run_id) run_uuid
        grant_uuid
  modify (λ s. record s {
    runs = put s.runs run_uuid run;
    requests =
        put s.requests (source.conversation_id, client_request_id)
          (record {
            operation = concat "retry:" source_run_id;
            payload = "";
            run_id = run_uuid;
            input_message_id = source.input_message_id;
          });
  })
  pure (record { run = run; input_message = input })

unfoldable pub replay_retry : String → RequestRecord → Method RunCreation
replay_retry source_run_id replay = do
  raise_if (replay.operation != concat "retry:" source_run_id) idempotency_conflict
  creation replay.run_id replay.input_message_id

unfoldable pub retry_run : Actor → String → String → ℕ → String → String → Method RunCreation
retry_run actor source_run_id client_request_id now run_uuid grant_uuid = do
  source ← find_owned_run actor.owner_id source_run_id
  replay ← gets (λ s. get s.requests (source.conversation_id, client_request_id))
  elim replay [
    | some r ↦ replay_retry source_run_id r
    | none ↦ start_retry actor source source_run_id client_request_id now run_uuid grant_uuid
  ]

-- The owner's part of the test in `authorize_run`.
abbrev owner_forbids : RunGrant → Option OwnerRecord → Bool
owner_forbids grant none = false
owner_forbids grant (some owner) =
    not (is_active owner.lifecycle_state) || grant.authorization_epoch != owner.authorization_epoch

unfoldable pub grant_forbids : AgentRun → ℕ → Option OwnerRecord → RunGrant → Bool
grant_forbids run now owner grant =
    grant.run_id != run.run_id
    || grant.owner_id != run.owner_id
    || grant.conversation_id != run.conversation_id
    || is_some grant.revoked_at
    || leb grant.expires_at now
    || owner_forbids grant owner

abbrev authorization_of : AgentRun → RunGrant → ExecutionAuthorization
authorization_of run grant = record {
  run_id = run.run_id;
  owner_id = grant.owner_id;
  tenant_id = grant.tenant_id;
  conversation_id = grant.conversation_id;
  allowed_data_scopes = grant.allowed_data_scopes;
  allowed_action_classes = grant.allowed_action_classes;
  authorization_epoch = grant.authorization_epoch;
}

unfoldable pub authorize_run :
    PlatformState → String → ℕ → Result PlatformError ExecutionAuthorization
unfolding grant_forbids
authorize_run s run_id now = elim (get s.runs run_id) [
  | none ↦ err run_not_found
  | some run ↦ elim (get s.grants run.grant_id) [
    | none ↦ err run_authorization_invalid
    | some grant ↦
        if grant_forbids run now (get s.owners run.owner_id) grant
        then err run_authorization_invalid
        else ok (authorization_of run grant)
  ]
]
