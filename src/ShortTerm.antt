-- ===== src/ShortTerm.antt =====
-- src/memory/short_term.py: the recent turns of a conversation that fit a token budget.
pub mod Recent
pub mod Turns
mod Tests
use Prim.Native.Nat.{◌/◌}
use Prim.Native.String.{len}
use ven_agent.Prelude.{
  ℕ, ◌+◌, Bool, true, false, not, String, List, [], ◌∷◌, ◌++◌, map, ◌==◌, text_has_eq,
  if◌then◌else◌, ltb, any, select, concat,
}
use ven_agent.Conversation.{ConversationMessage, Role, user, assistant}

-- src/promptctx/context.py: `max(1, ceil(bytes / 3))`, where `len` counts the bytes of UTF-8.
unfoldable pub conservative_token_count : String → ℕ
conservative_token_count content =
    let thirds : ℕ = (len content + 2) / 3 in if ltb 1 thirds then thirds else 1

-- `sorted(messages, key=lambda item: item.sequence)`: stable, by insertion from the right.
unfoldable pub insert_message :
    ConversationMessage → List ConversationMessage → List ConversationMessage
insert_message message [] = message ∷ []
insert_message message (m ∷ ms) =
    let later = insert_message message ms in
    if ltb m.sequence message.sequence then m ∷ later else message ∷ m ∷ ms

unfoldable pub by_sequence : List ConversationMessage → List ConversationMessage
unfolding insert_message
by_sequence [] = []
by_sequence (m ∷ ms) = insert_message m (by_sequence ms)

abbrev pub Turn : Type 0
Turn = List ConversationMessage

-- `if current: values.append(current)`
abbrev pub closed_turn : Turn → List Turn → List Turn
closed_turn [] turns = turns
closed_turn (m ∷ ms) turns = (m ∷ ms) ∷ turns

-- The loop over the sorted messages, with the turn that is open: what it appends from here on.
unfoldable pub turns_from : Turn → List ConversationMessage → List Turn
turns_from current [] = closed_turn current []
turns_from current (message ∷ messages) = elim message.role [
  | user ↦ closed_turn current (turns_from (message ∷ []) messages)
  | assistant ↦ elim current [
    | [] ↦ turns_from [] messages
    | m ∷ ms ↦ turns_from (m ∷ ms ++ (message ∷ [])) messages
  ]
]

unfoldable pub turns_of : List ConversationMessage → List Turn
unfolding by_sequence turns_from
turns_of messages = turns_from [] (by_sequence messages)

unfoldable pub token_count : Turn → ℕ
unfolding conservative_token_count
token_count [] = 0
token_count (m ∷ ms) = conservative_token_count m.content + token_count ms

abbrev pub reversed : List Turn → List Turn
reversed [] = []
reversed (turn ∷ turns) = reversed turns ++ (turn ∷ [])

-- `for turn in reversed(turns)`: the turns that it appends to `selected`.
unfoldable pub select_until : ℕ → ℕ → List Turn → List Turn
unfolding token_count
select_until token_budget total [] = []
select_until token_budget total (turn ∷ turns) =
    let rest = select_until token_budget (total + token_count turn) turns in
    if ltb token_budget (total + token_count turn) then [] else turn ∷ rest

unfoldable pub select_recent_turns : List ConversationMessage → ℕ → List ConversationMessage
unfolding turns_of select_until
select_recent_turns messages token_budget =
    concat (reversed (select_until token_budget 0 (reversed (turns_of messages))))

-- The older messages of `split_recent_turns`; the recent ones are `select_recent_turns`.
unfoldable pub older_messages : List ConversationMessage → ℕ → List ConversationMessage
unfolding select_recent_turns
older_messages messages token_budget =
    let recent = select_recent_turns messages token_budget in
    select (λ item. not (any (λ r. r.message_id == item.message_id) recent)) messages
