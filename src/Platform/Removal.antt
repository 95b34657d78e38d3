-- ===== src/Platform/Removal.antt =====
-- src/repo/inmemory/conversation.py: the removal of conversations and the lists that cleanup reads.
use ven_agent.Prelude.{
  ℕ, ◌+◌, Bool, not, ◌&&◌, none, some, String, List, [], ◌∷◌, ◌==◌, ◌!=◌, text_has_eq, ok, err,
  pure, modify, ◌>>◌, if◌then◌else◌, leb, select, any, map,
}
use ven_agent.Prelude.Dict.{Dict, get, pop, values}
use ven_agent.Ownership.{user, kind_eq, is_active}
use ven_agent.Conversation.{Conversation}
use ven_agent.Run.{AgentRun}
use ven_agent.Platform.{PlatformState, Method, RequestRecord, key_error, or_else, days}
use ven_agent.Platform.Conversations.{get_conversation}
use ven_agent.Platform.Claims.{sort_runs}

-- The set of the run ids of a conversation. A set has no order that the result depends on.
unfoldable pub unique : List String → List String
unique [] = []
unique (x ∷ xs) = let rest = unique xs in if any (λ y. x == y) rest then rest else x ∷ rest

unfoldable pub ids_of : String → List AgentRun → List String
ids_of conversation_id runs =
    map (λ run. run.run_id) (select (λ run. run.conversation_id == conversation_id) runs)

-- `runs.pop(run_id)` raises on a missing key; `grants.pop(..., None)` does not.
unfoldable pub remove_run : String → Method (Unit {0})
remove_run run_id s = elim (get s.runs run_id) [
  | none ↦ (err key_error, s)
  | some run ↦ (ok tt, record s { runs = pop s.runs run_id; grants = pop s.grants run.grant_id })
]

unfoldable pub remove_runs : List String → Method (Unit {0})
unfolding remove_run
remove_runs [] = pure tt
remove_runs (run_id ∷ run_ids) = do remove_run run_id; remove_runs run_ids

-- The requests of a conversation have its id in their key.
unfoldable pub remove_requests :
    String → Dict (String × String) RequestRecord → Dict (String × String) RequestRecord
remove_requests conversation_id [] = []
remove_requests conversation_id ((key, r) ∷ requests) =
    let rest = remove_requests conversation_id requests in
    if key.0 == conversation_id then rest else (key, r) ∷ rest

unfoldable pub remove_conversation : String → String → Method (Unit {0})
unfolding unique ids_of remove_runs remove_requests
remove_conversation owner_id conversation_id s = elim (get s.conversations conversation_id) [
  | none ↦ (ok tt, s)
  | some conversation ↦
      if conversation.owner_id != owner_id
      then (ok tt, s)
      else (do
        remove_runs (unique (ids_of conversation_id (values s.runs)))
        modify (λ t. record t {
          requests = remove_requests conversation_id t.requests;
          messages = pop t.messages conversation_id;
          conversations = pop t.conversations conversation_id;
        }))
          s
]

unfoldable pub conversation_runs : PlatformState → String → String → List AgentRun
unfolding get_conversation sort_runs
conversation_runs s owner_id conversation_id = elim (get_conversation s owner_id conversation_id) [
  | none ↦ []
  | some item ↦ sort_runs (select (λ run. run.conversation_id == conversation_id) (values s.runs))
]

abbrev owner_and_id : Conversation → String × String
owner_and_id item = (item.owner_id, item.conversation_id)

unfoldable pub deleting_conversations : PlatformState → List (String × String)
deleting_conversations s =
    map owner_and_id
      (select (λ item. not (is_active item.lifecycle_state)) (values s.conversations))

unfoldable pub owner_conversation_ids : PlatformState → String → List String
owner_conversation_ids s owner_id =
    map (λ item. item.conversation_id)
      (select (λ item. item.owner_id == owner_id) (values s.conversations))

-- A guest's conversation ends seven days after its last success, or after its creation.
unfoldable pub guest_expired : ℕ → Conversation → Bool
guest_expired now item =
    item.owner_kind != user
    && is_active item.lifecycle_state
    && leb (or_else item.last_successful_at item.created_at + days 7) now

unfoldable pub expired_guest_conversations : PlatformState → ℕ → List (String × String)
unfolding guest_expired
expired_guest_conversations s now =
    map owner_and_id (select (guest_expired now) (values s.conversations))
