-- ===== src/Platform/Runs.antt =====
-- src/repo/inmemory/runs.py: the creation and retry of runs, their events and their authorization.
use Prim.Native.String.{◌++◌ as concat}
use ven_agent.Prelude.{
  ℕ, ◌+◌, Bool, not, ◌&&◌, ◌||◌, Option, none, some, String, List, [], ◌∷◌, ◌++◌, ◌==◌, ◌!=◌,
  text_has_eq, number_has_eq, option_eq, pair_eq, Result, ok, err, raise_if, pure, gets, modify,
  or_raise, ◌>>=◌, ◌>>◌, if◌then◌else◌, ltb, select, any, first, length,
}
use ven_agent.Prelude.Dict.{get, put, values}
use ven_agent.Ownership.{Actor, RunGrant, is_active}
use ven_agent.Conversation.{ConversationMessage, Conversation, role_eq, user}
use ven_agent.Run.{AgentRun, RunEvent, queued, is_active_status}
use ven_agent.Platform.{
  PlatformState, PlatformError, Method, RequestRecord, run_not_found, conversation_deleting,
  conversation_busy, idempotency_conflict, key_error, stop_iteration, list_at, days,
}
use ven_agent.Platform.Conversations.{
  require_conversation, next_sequence, require_active_owner_if_known,
}

unfoldable pub append_run_event : String → String → String → ℕ → Method RunEvent
append_run_event run_id event_type payload now s = elim (get s.runs run_id) [
  | none ↦ (err run_not_found, s)
  | some run ↦
      let events = list_at s.run_events run_id in
      let event : RunEvent = record {
        run_id = run_id;
        sequence = length events + 1;
        type = event_type;
        payload = payload;
        created_at = now;
      } in
      (ok event, record s { run_events = put s.run_events run_id (events ++ event ∷ []) })
]

unfoldable pub run_events :
    PlatformState → String → String → ℕ → Result PlatformError (List RunEvent)
run_events s owner_id run_id after_sequence = elim (get s.runs run_id) [
  | none ↦ err run_not_found
  | some run ↦
      if run.owner_id != owner_id
      then err run_not_found
      else ok (select (λ item. ltb after_sequence item.sequence) (list_at s.run_events run_id))
]

-- `RUNTIME_CONTRACT_VERSION` of src/agent/graph.py.
abbrev pub runtime_contract_version : ℕ
runtime_contract_version = 3

unfoldable pub new_grant : Actor → String → ℕ → ℕ → String → String → RunGrant
new_grant actor conversation_id epoch now run_uuid grant_uuid = record {
  grant_id = grant_uuid;
  run_id = run_uuid;
  owner_id = actor.owner_id;
  tenant_id = "default";
  conversation_id = conversation_id;
  allowed_data_scopes = concat "conversation:" conversation_id ∷ "owner:memory" ∷ [];
  allowed_action_classes = "model.invoke" ∷ "memory.read" ∷ "memory.write" ∷ "tool.invoke" ∷ [];
  authorization_epoch = epoch;
  requested_by_session_id = actor.session_id;
  expires_at = now + days 7;
  revoked_at = none;
}

unfoldable pub queued_run : Actor → String → String → ℕ → Option String → String → String → AgentRun
queued_run actor conversation_id input_message_id now retry_of_run_id run_uuid grant_uuid = record {
  run_id = run_uuid;
  conversation_id = conversation_id;
  owner_id = actor.owner_id;
  input_message_id = input_message_id;
  grant_id = grant_uuid;
  status = queued;
  runtime_contract_version = runtime_contract_version;
  created_at = now;
  updated_at = now;
  output_message_id = none;
  retry_of_run_id = retry_of_run_id;
  started_at = none;
  completed_at = none;
  cancel_requested_at = none;
  terminal_reason_code = none;
  terminal_message = none;
  phase = none;
  completed_nodes = 0;
  total_nodes = 1;
  claimed_by = none;
  claim_token = none;
  lease_expires_at = none;
  execution_attempt = 0;
  selected_skill_id = none;
  selected_skill_name = none;
}

-- `_new_run`: it stores the grant; its callers store the run. The last arguments are two `uuid4`.
unfoldable pub new_run :
    Actor → String → String → ℕ → Option String → String → String → Method AgentRun
unfolding new_grant queued_run
new_run actor conversation_id input_message_id now retry_of_run_id run_uuid grant_uuid s =
    let epoch : ℕ = elim (get s.owners actor.owner_id) [
      | none ↦ 1
      | some o ↦ o.authorization_epoch
    ] in
    let grant = new_grant actor conversation_id epoch now run_uuid grant_uuid in
    (
      ok (
          queued_run actor conversation_id input_message_id now retry_of_run_id run_uuid
            grant_uuid),
      record s { grants = put s.grants grant_uuid grant },
    )

pub record RunCreation : Type 0 where
  pub run : AgentRun
  pub input_message : ConversationMessage

-- `_creation`
unfoldable pub creation : String → String → Method RunCreation
creation run_id input_message_id = do
  runs ← gets (λ s. s.runs)
  run ← or_raise (get runs run_id) key_error
  all_messages ← gets (λ s. s.messages)
  message ←
      or_raise
        (first (λ item. item.message_id == input_message_id)
          (list_at all_messages run.conversation_id))
        stop_iteration
  pure (record { run = run; input_message = message })

-- `_require_no_active_run`
unfoldable pub has_active_run : String → List AgentRun → Bool
has_active_run conversation_id runs =
    any (λ run. run.conversation_id == conversation_id && is_active_status run.status) runs

unfoldable pub require_no_active_run : String → Method (Unit {0})
unfolding has_active_run
require_no_active_run conversation_id s =
    raise_if (has_active_run conversation_id (values s.runs)) conversation_busy s

abbrev user_message : Actor → String → String → String → ℕ → ℕ → String → ConversationMessage
user_message actor conversation_id message client_request_id sequence now uuid = record {
  message_id = uuid;
  conversation_id = conversation_id;
  owner_id = actor.owner_id;
  role = user;
  content = message;
  sequence = sequence;
  created_at = now;
  client_request_id = some client_request_id;
  source_run_id = none;
  reply_to_message_id = none;
  content_blocks = [];
}

-- What `create_run` does for a request that it has not seen. The `uuid4`s are those of the message,
-- the run and the grant.
unfoldable pub start_run :
    Actor
    → Conversation
    → String
    → String
    → String
    → ℕ
    → String
    → String
    → String
    → Method RunCreation
start_run actor conversation conversation_id message client_request_id now message_uuid run_uuid
      grant_uuid =
    do
      raise_if (not (is_active conversation.lifecycle_state)) conversation_deleting
      require_no_active_run conversation_id
      sequence ← gets (λ s. next_sequence s conversation_id)
      let input =
          user_message actor conversation_id message client_request_id sequence now message_uuid
      run ← new_run actor conversation_id message_uuid now none run_uuid grant_uuid
      modify (λ s. record s {
        messages =
            put s.messages conversation_id (list_at s.messages conversation_id ++ input ∷ []);
        runs = put s.runs run_uuid run;
        requests =
            put s.requests (conversation_id, client_request_id)
              (record {
                operation = "create";
                payload = message;
                run_id = run_uuid;
                input_message_id = message_uuid;
              });
        conversations =
            put s.conversations conversation_id (record conversation { updated_at = now });
      })
      pure (record { run = run; input_message = input })

unfoldable pub replay_create : String → RequestRecord → Method RunCreation
replay_create message replay = do
  raise_if (replay.operation != "create" || replay.payload != message) idempotency_conflict
  creation replay.run_id replay.input_message_id

unfoldable pub create_run :
    Actor → String → String → String → ℕ → String → String → String → Method RunCreation
create_run actor conversation_id message client_request_id now message_uuid run_uuid grant_uuid = do
  conversation ← require_conversation actor.owner_id conversation_id
  require_active_owner_if_known actor.owner_id
  replay ← gets (λ s. get s.requests (conversation_id, client_request_id))
  elim replay [
    | some r ↦ replay_create message r
    | none ↦
        start_run actor conversation conversation_id message client_request_id now message_uuid
          run_uuid grant_uuid
  ]
