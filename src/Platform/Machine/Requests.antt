-- ===== src/Platform/Machine/Requests.antt =====
-- `create_run` and `retry_run` take steps of the abstract machine, for a run id that is new.
use Prim.Native.String.{◌++◌ as concat}
use ven_agent.Prelude.{
  ℕ, ◌≡◌, refl, ◌⊎◌, inl, inr, Option, none, some, String, arith, ok, ◌==◌, ◌!=◌, ◌||◌, text_has_eq,
  option_eq, pair_eq, Bool-cases, Option-cases, first,
}
use ven_agent.Prelude.Dict.{get, values}
use ven_agent.Ownership.{Actor, is_active}
use ven_agent.Conversation.{Conversation}
use ven_agent.Run.{AgentRun, status_eq}
use ven_agent.Platform.{
  PlatformState, RequestRecord, list_at, conversation_not_found, session_inactive,
}
use ven_agent.Platform.Conversations.{
  require_conversation, require_active_owner_if_known, owner_is_deleting,
}
use ven_agent.Platform.Runs.{
  create_run, start_run, creation, replay_create, new_run, require_no_active_run, has_active_run,
  queued_run,
}
use ven_agent.Platform.Retry.{retry_run, start_retry, replay_retry, is_retryable, is_last_input}
use ven_agent.Platform.Machine.{Scope, Steps, IsSound, stay, next, created}
use ven_agent.Platform.Machine.Guards.{Refuses, find_owned_run_cases}

pub require_conversation_cases :
    (owner id : String) (s : PlatformState)
    → Refuses (require_conversation owner id) s
      ⊎ ((c : Conversation) × (require_conversation owner id s ≡ (ok c, s))
          × (get s.conversations id ≡ some c)
          × (c.owner_id ≡ owner))
unfolding require_conversation
require_conversation_cases owner id s = elim (Option-cases (get s.conversations id)) [
  | inl e ↦ inl (conversation_not_found, rw e)
  | inr (c, e) ↦ elim (Bool-cases (c.owner_id == owner)) [
    | inl o ↦ inr (c, rw (e, o), e, (text_has_eq.decides c.owner_id owner).0 o)
    | inr o ↦ inl (conversation_not_found, rw (e, o))
  ]
]

-- A replay reads the state and writes nothing.
pub creation_reads :
    (run_id message_id : String) (s : PlatformState) → (creation run_id message_id s).1 ≡ s
unfolding creation
creation_reads run_id message_id s = elim (Option-cases (get s.runs run_id)) [
  | inl e ↦ rw e
  | inr (run, e) ↦
      elim (Option-cases
        (first (λ item. item.message_id == message_id) (list_at s.messages run.conversation_id))) [
          | inl f ↦ rw (e, f)
          | inr (m, f) ↦ rw (e, f)
        ]
]

queued_run-IsSound :
    (actor : Actor) (conversation message : String) (now : ℕ) (retry : Option String)
    (run_uuid grant_uuid : String)
    → IsSound (queued_run actor conversation message now retry run_uuid grant_uuid)
unfolding queued_run
queued_run-IsSound actor conversation message now retry run_uuid grant_uuid = ground arith

start_run-Steps :
    {scope : Scope} (actor : Actor) (c : Conversation) (id message request : String) (now : ℕ)
    (message_uuid run_uuid grant_uuid : String) (s : PlatformState)
    → scope.new run_uuid
    → get s.runs run_uuid ≡ none
    → Steps scope s.runs
        (start_run actor c id message request now message_uuid run_uuid grant_uuid s).1.runs
unfolding start_run new_run require_no_active_run queued_run
start_run-Steps actor c id message request now message_uuid run_uuid grant_uuid s ok_new new =
    elim (Bool-cases (is_active c.lifecycle_state)) [
      | inr gone ↦ rw gone stay
      | inl open_one ↦ elim (Bool-cases (has_active_run id (values s.runs))) [
        | inl busy ↦ rw (open_one, busy) stay
        | inr idle ↦
            rw (open_one, idle)
              (next stay (
                created (queued_run actor id message_uuid now none run_uuid grant_uuid) ok_new new
                  refl (queued_run-IsSound actor id message_uuid now none run_uuid grant_uuid) idle
                  refl))
      ]
    ]

pub replay_create_reads :
    (message : String) (r : RequestRecord) (s : PlatformState) → (replay_create message r s).1 ≡ s
unfolding replay_create
replay_create_reads message r s =
    elim (Bool-cases (r.operation != "create" || r.payload != message)) [
      | inl b ↦ rw b
      | inr b ↦ rw b (creation_reads r.run_id r.input_message_id s)
    ]

pub replay_retry_reads :
    (source : String) (r : RequestRecord) (s : PlatformState) → (replay_retry source r s).1 ≡ s
unfolding replay_retry
replay_retry_reads source r s = elim (Bool-cases (r.operation != concat "retry:" source)) [
  | inl b ↦ rw b
  | inr b ↦ rw b (creation_reads r.run_id r.input_message_id s)
]

-- What `create_run` comes to once the conversation is the owner's and the owner is active.
pub create_run_cases :
    (actor : Actor) (id message request : String) (now : ℕ)
    (message_uuid run_uuid grant_uuid : String) (s : PlatformState)
    → let m = create_run actor id message request now message_uuid run_uuid grant_uuid in
      Refuses m s
      ⊎ ((r : RequestRecord) × (get s.requests (id, request) ≡ some r)
          × (m s ≡ replay_create message r s))
      ⊎ ((c : Conversation) × (get s.requests (id, request) ≡ none)
          × (m s ≡ start_run actor c id message request now message_uuid run_uuid grant_uuid s))
unfolding create_run require_active_owner_if_known
create_run_cases actor id message request now message_uuid run_uuid grant_uuid s =
    elim (require_conversation_cases actor.owner_id id s) [
      | inl (e, q) ↦ inl (e, rw q)
      | inr (c, q, g, o) ↦ elim (Bool-cases (owner_is_deleting s actor.owner_id)) [
        | inl d ↦ inl (session_inactive, rw (q, d))
        | inr d ↦ elim (Option-cases (get s.requests (id, request))) [
          | inl n ↦ inr (inr (c, n, rw (q, d, n)))
          | inr (r, n) ↦ inr (inl (r, n, rw (q, d, n)))
        ]
      ]
    ]

pub create_run-Steps :
    {scope : Scope} (actor : Actor) (id message request : String) (now : ℕ)
    (message_uuid run_uuid grant_uuid : String) (s : PlatformState)
    → scope.new run_uuid
    → get s.runs run_uuid ≡ none
    → Steps scope s.runs
        (create_run actor id message request now message_uuid run_uuid grant_uuid s).1.runs
create_run-Steps actor id message request now message_uuid run_uuid grant_uuid s ok_new new =
    elim (create_run_cases actor id message request now message_uuid run_uuid grant_uuid s) [
      | inl (e, q) ↦ rw q stay
      | inr (inl (r, g, q)) ↦ rw (q, replay_create_reads message r s) stay
      | inr (inr (c, g, q)) ↦ rw q (
          start_run-Steps actor c id message request now message_uuid run_uuid grant_uuid s ok_new
            new)
    ]

start_retry-Steps :
    {scope : Scope} (actor : Actor) (source : AgentRun) (source_id request : String) (now : ℕ)
    (run_uuid grant_uuid : String) (s : PlatformState)
    → scope.new run_uuid
    → get s.runs run_uuid ≡ none
    → Steps scope s.runs
        (start_retry actor source source_id request now run_uuid grant_uuid s).1.runs
unfolding start_retry new_run require_no_active_run require_active_owner_if_known queued_run
start_retry-Steps actor source source_id request now run_uuid grant_uuid s ok_new new =
    let id = source.conversation_id in
    let items = list_at s.messages id in
    elim (Bool-cases (is_retryable source.status)) [
      | inr ended ↦ rw ended stay
      | inl retryable ↦ elim (require_conversation_cases actor.owner_id id s) [
        | inl (e, q) ↦ rw (retryable, q) stay
        | inr (c, q, g, o) ↦ elim (Bool-cases (owner_is_deleting s actor.owner_id)) [
          | inl d ↦ rw (retryable, q, d) stay
          | inr d ↦ elim (Bool-cases (is_last_input source items)) [
            | inr l ↦ rw (retryable, q, d, l) stay
            | inl l ↦ elim (Bool-cases (has_active_run id (values s.runs))) [
              | inl busy ↦ rw (retryable, q, d, l, busy) stay
              | inr idle ↦
                  elim (Option-cases
                    (first (λ item. item.message_id == source.input_message_id) items)) [
                      | inl f ↦ rw (retryable, q, d, l, idle, f) stay
                      | inr (m, f) ↦
                          rw (retryable, q, d, l, idle, f)
                            (next stay (
                              created
                                (queued_run actor id source.input_message_id now (some source_id)
                                  run_uuid grant_uuid)
                                ok_new new refl
                                (queued_run-IsSound actor id source.input_message_id now
                                  (some source_id) run_uuid grant_uuid)
                                idle refl))
                    ]
            ]
          ]
        ]
      ]
    ]

pub retry_run-Steps :
    {scope : Scope} (actor : Actor) (source_id request : String) (now : ℕ)
    (run_uuid grant_uuid : String) (s : PlatformState)
    → scope.new run_uuid
    → get s.runs run_uuid ≡ none
    → Steps scope s.runs (retry_run actor source_id request now run_uuid grant_uuid s).1.runs
unfolding retry_run
retry_run-Steps actor source_id request now run_uuid grant_uuid s ok_new new =
    elim (find_owned_run_cases actor.owner_id source_id s) [
      | inl (e, q) ↦ rw q stay
      | inr (source, q, g, o) ↦
          elim (Option-cases (get s.requests (source.conversation_id, request))) [
            | inl n ↦
                rw (q, n)
                  (start_retry-Steps actor source source_id request now run_uuid grant_uuid s ok_new
                    new)
            | inr (r, n) ↦ rw (q, n, replay_retry_reads source_id r s) stay
          ]
    ]
