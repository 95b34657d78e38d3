-- ===== src/Platform/Conversations.antt =====
-- src/repo/inmemory/conversation.py: conversations, their messages, titles and deletion.
use Prim.Native.Nat.{max}
use Prim.Native.String.{compare}
use text.Mathlib.Text.{is_lt}
use ven_agent.Prelude.{
  ℕ, ◌+◌, Bool, false, not, ◌&&◌, ◌||◌, Option, none, some, String, List, [], ◌∷◌, ◌++◌, ◌==◌, ◌!=◌,
  text_has_eq, number_has_eq, option_eq, pair_eq, ok, err, raise_if, pure, gets, modify, or_raise,
  ◌>>=◌, ◌>>◌, if◌then◌else◌, ltb, leb, select, take, length,
}
use ven_agent.Prelude.Dict.{map_values, Dict, get, put, values}
use ven_agent.Ownership.{Actor, active, deleting, is_active, user, kind_eq}
use ven_agent.Conversation.{Conversation, ConversationMessage, auto, manual}
use ven_agent.Run.{AgentRun, terminal}
use ven_agent.Platform.{
  PlatformState, Method, conversation_not_found, session_inactive, key_error,
  anonymous_limit_exceeded, list_at, or_else,
}

-- `_require_conversation`
unfoldable pub require_conversation : String → String → Method Conversation
require_conversation owner_id conversation_id = do
  conversations ← gets (λ s. s.conversations)
  item ← or_raise (get conversations conversation_id) conversation_not_found
  raise_if (item.owner_id != owner_id) conversation_not_found
  pure item

-- `max((item.sequence for item in items), default=0)`
unfoldable pub max_sequence : List ConversationMessage → ℕ
max_sequence [] = 0
max_sequence (m ∷ ms) = max m.sequence (max_sequence ms)

-- `_next_sequence`
unfoldable pub next_sequence : PlatformState → String → ℕ
unfolding max_sequence
next_sequence s conversation_id = max_sequence (list_at s.messages conversation_id) + 1

unfoldable pub new_conversation : Actor → ℕ → String → Conversation
new_conversation actor now uuid = record {
  conversation_id = uuid;
  owner_id = actor.owner_id;
  owner_kind = actor.kind;
  lifecycle_state = active;
  title = "新对话";
  title_source = auto;
  created_at = now;
  updated_at = now;
  last_successful_at = none;
}

-- `_require_active_owner_if_known`
unfoldable pub owner_is_deleting : PlatformState → String → Bool
owner_is_deleting s owner_id = elim (get s.owners owner_id) [
  | none ↦ false
  | some owner ↦ not (is_active owner.lifecycle_state)
]

unfoldable pub require_active_owner_if_known : String → Method (Unit {0})
unfolding owner_is_deleting
require_active_owner_if_known owner_id s =
    raise_if (owner_is_deleting s owner_id) session_inactive s

-- `timedelta(minutes=10)`
abbrev pub guest_window : ℕ
guest_window = 600_000_000

-- The `popleft` loop: attempts that are ten minutes old leave the front of the queue.
unfoldable pub drop_old : ℕ → List ℕ → List ℕ
drop_old now [] = []
drop_old now (t ∷ ts) = if leb (t + guest_window) now then drop_old now ts else t ∷ ts

unfoldable pub live_conversations : String → List Conversation → ℕ
live_conversations owner_id items =
    length (select (λ item. item.owner_id == owner_id && is_active item.lifecycle_state) items)

-- The guest's branch of `create_conversation`. The old attempts are gone also where it raises.
unfoldable pub admit_guest : String → ℕ → Method (Unit {0})
unfolding drop_old live_conversations
admit_guest owner_id now s =
    let live = live_conversations owner_id (values s.conversations) in
    let attempts = drop_old now (list_at s.guest_creates owner_id) in
    if leb 10 live || leb 5 (length attempts)
    then (
      err anonymous_limit_exceeded,
      record s { guest_creates = put s.guest_creates owner_id attempts },
    )
    else (ok tt, record s { guest_creates = put s.guest_creates owner_id (attempts ++ now ∷ []) })

-- `uuid` is the `uuid4` of the conversation.
unfoldable pub create_conversation : Actor → ℕ → String → Method Conversation
create_conversation actor now uuid = do
  require_active_owner_if_known actor.owner_id
  if actor.kind == user then pure tt else admit_guest actor.owner_id now
  let conversation = new_conversation actor now uuid
  modify (λ s. record s { conversations = put s.conversations uuid conversation })
  pure conversation

unfoldable pub get_conversation : PlatformState → String → String → Option Conversation
get_conversation s owner_id conversation_id = elim (get s.conversations conversation_id) [
  | none ↦ none
  | some item ↦ if item.owner_id == owner_id then some item else none
]

-- `(updated_at, conversation_id)` in descending order, as `sort(reverse=True)` leaves it.
abbrev key_before : ℕ × String → ℕ × String → Bool
key_before (t, i) (u, j) = ltb t u || t == u && is_lt (compare i j)

abbrev sort_key : Conversation → ℕ × String
sort_key item = (item.updated_at, item.conversation_id)

unfoldable pub insert_recent : Conversation → List Conversation → List Conversation
insert_recent c [] = c ∷ []
insert_recent c (d ∷ ds) =
    if key_before (sort_key c) (sort_key d) then d ∷ insert_recent c ds else c ∷ d ∷ ds

unfoldable pub sort_recent : List Conversation → List Conversation
unfolding insert_recent
sort_recent [] = []
sort_recent (c ∷ cs) = insert_recent c (sort_recent cs)

unfoldable pub list_conversations :
    PlatformState → String → Option (ℕ × String) → ℕ → List Conversation
unfolding sort_recent
list_conversations s owner_id before limit =
    let items = sort_recent (
      select (λ item. item.owner_id == owner_id && is_active item.lifecycle_state)
        (values s.conversations)) in
    take limit (elim before [
      | none ↦ items
      | some key ↦ select (λ item. key_before (sort_key item) key) items
    ])

unfoldable pub messages : PlatformState → String → String → List ConversationMessage
unfolding get_conversation
messages s owner_id conversation_id = elim (get_conversation s owner_id conversation_id) [
  | none ↦ []
  | some item ↦ list_at s.messages conversation_id
]

unfoldable pub rename_conversation : String → String → String → ℕ → Method Conversation
unfolding get_conversation
rename_conversation owner_id conversation_id title now s =
    elim (get_conversation s owner_id conversation_id) [
      | none ↦ (err key_error, s)
      | some conversation ↦
          if not (is_active conversation.lifecycle_state)
          then (err key_error, s)
          else let updated = record conversation {
            title = title;
            title_source = manual;
            updated_at = now;
          } in
            (ok updated, record s { conversations = put s.conversations conversation_id updated })
    ]

-- What `mark_conversation_deleting` writes into each run that is not over.
unfoldable pub request_stop : ℕ → AgentRun → AgentRun
request_stop now run = record run {
  cancel_requested_at = some (or_else run.cancel_requested_at now);
  updated_at = now;
}

abbrev pub stops : String → AgentRun → Bool
stops conversation_id run = run.conversation_id == conversation_id && not (terminal run)

unfoldable pub stop_runs : String → ℕ → Dict String AgentRun → Dict String AgentRun
stop_runs conversation_id now =
    map_values (λ run. if stops conversation_id run then request_stop now run else run)

unfoldable pub stopped_ids : String → Dict String AgentRun → List String
unfolding terminal
stopped_ids conversation_id [] = []
stopped_ids conversation_id ((run_id, run) ∷ runs) =
    let rest = stopped_ids conversation_id runs in
    if stops conversation_id run then run_id ∷ rest else rest

unfoldable pub mark_conversation_deleting : String → String → ℕ → Method (List String)
mark_conversation_deleting owner_id conversation_id now s =
    elim (get_conversation s owner_id conversation_id) [
      | none ↦ (ok [], s)
      | some conversation ↦ (
        ok (stopped_ids conversation_id s.runs),
        record s {
          conversations =
              put s.conversations conversation_id
                (record conversation { lifecycle_state = deleting; updated_at = now });
          runs = stop_runs conversation_id now s.runs;
        },
      )
    ]
