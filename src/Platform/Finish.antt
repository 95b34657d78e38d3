-- ===== src/Platform/Finish.antt =====
-- src/repo/inmemory/runs.py: the success of a run, with its answer as a formal message and the title.
use ven_agent.Prelude.{
  ℕ, Bool, not, ◌&&◌, ◌||◌, none, some, String, List, [], ◌∷◌, ◌++◌, ◌==◌, ◌!=◌, text_has_eq,
  option_eq, ok, err, raise_if, pure, modify, ◌>>=◌, ◌>>◌, if◌then◌else◌, any, first,
}
use ven_agent.Prelude.Dict.{get, put}
use ven_agent.Ownership.{is_active}
use ven_agent.Conversation.{
  Conversation, ConversationMessage, role_eq, assistant, source_eq, auto, automatic_title,
}
use ven_agent.Run.{AgentRun, status_eq, succeeded}
use ven_agent.Platform.{Method, invalid_run_transition, stop_iteration, list_at}
use ven_agent.Platform.Conversations.{next_sequence}
use ven_agent.Platform.Claims.{is_some, find_run, require_current_claim}

-- `conversation is None or conversation.lifecycle_state != "active"`
unfoldable pub require_available : String → Method Conversation
require_available conversation_id s = elim (get s.conversations conversation_id) [
  | none ↦ (err invalid_run_transition, s)
  | some conversation ↦
      if is_active conversation.lifecycle_state
      then (ok conversation, s)
      else (err invalid_run_transition, s)
]

abbrev pub answers : String → AgentRun → ConversationMessage → Bool
answers run_id run item =
    item.source_run_id == some run_id || item.reply_to_message_id == some run.input_message_id

abbrev pub answer_message :
    String
    → AgentRun
    → String
    → List (List (String × String))
    → ℕ
    → ℕ
    → String
    → ConversationMessage
answer_message run_id run answer blocks sequence now uuid = record {
  message_id = uuid;
  conversation_id = run.conversation_id;
  owner_id = run.owner_id;
  role = assistant;
  content = answer;
  sequence = sequence;
  created_at = now;
  client_request_id = none;
  source_run_id = some run_id;
  reply_to_message_id = some run.input_message_id;
  content_blocks = blocks;
}

-- The message that answers the run: the one that is there, or a new one under `uuid`.
unfoldable pub output_message :
    String
    → AgentRun
    → String
    → List (List (String × String))
    → ℕ
    → String
    → Method ConversationMessage
unfolding next_sequence
output_message run_id run answer blocks now uuid s =
    let items = list_at s.messages run.conversation_id in
    elim (first (answers run_id run) items) [
      | some prior ↦ (ok prior, s)
      | none ↦
          let output =
            answer_message run_id run answer blocks (next_sequence s run.conversation_id) now
              uuid in
          (
            ok output,
            record s { messages = put s.messages run.conversation_id (items ++ output ∷ []) },
          )
    ]

-- The title is automatic, and no other answer stands in the conversation.
unfoldable pub needs_title : Conversation → ConversationMessage → List ConversationMessage → Bool
needs_title conversation output items =
    conversation.title_source == auto
    && not (any (λ item. item.role == assistant && item.message_id != output.message_id) items)

-- The title after a success: the first answer takes it from the run's input.
unfoldable pub success_title : AgentRun → Conversation → ConversationMessage → Method String
success_title run conversation output s =
    let items = list_at s.messages run.conversation_id in
    if needs_title conversation output items
    then elim (first (λ item. item.message_id == run.input_message_id) items) [
      | none ↦ (err stop_iteration, s)
      | some source ↦ (ok (automatic_title source.content), s)
    ]
    else (ok conversation.title, s)

abbrev pub finished : AgentRun → String → ℕ → AgentRun
finished run message_id now = record run {
  status = succeeded;
  output_message_id = some message_id;
  completed_at = some now;
  updated_at = now;
  terminal_reason_code = none;
  terminal_message = none;
  completed_nodes = run.total_nodes;
  claimed_by = none;
  claim_token = none;
  lease_expires_at = none;
}

-- What `succeed_run` does after the claim is checked.
unfoldable pub finalize :
    String → AgentRun → String → List (List (String × String)) → ℕ → String → Method AgentRun
finalize run_id run answer blocks now uuid = do
  raise_if (is_some run.cancel_requested_at) invalid_run_transition
  conversation ← require_available run.conversation_id
  output ← output_message run_id run answer blocks now uuid
  title ← success_title run conversation output
  modify (λ s. record s {
    runs = put s.runs run_id (finished run output.message_id now);
    conversations =
        put s.conversations run.conversation_id
          (record conversation { title = title; updated_at = now; last_successful_at = some now });
  })
  pure (finished run output.message_id now)

unfoldable pub succeed_run :
    String → String → ℕ → String → ℕ → List (List (String × String)) → String → Method AgentRun
succeed_run run_id claim_token execution_attempt answer now blocks uuid = do
  existing ← find_run run_id
  if existing.status == succeeded then pure existing else do
    run ← require_current_claim run_id claim_token execution_attempt none
    finalize run_id run answer blocks now uuid
