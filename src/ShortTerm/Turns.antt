-- ===== src/ShortTerm/Turns.antt =====
-- src/memory/short_term.py `_turns`: what the turns of a conversation are.
use ven_agent.Prelude.{
  ◌≡◌, ◌⊎◌, inl, inr, refl, sym, ap, subst, ◌∙◌, List, [], ◌∷◌, ◌++◌, concat, append_assoc, All,
  All-append,
}
use ven_agent.Conversation.{ConversationMessage, Role, user, assistant}
use ven_agent.ShortTerm.{Turn, closed_turn, by_sequence, turns_from, turns_of}

abbrev IsReply : ConversationMessage → Type 0
IsReply m = m.role ≡ assistant

-- A message of the user and the replies that follow it.
abbrev pub IsTurn : Turn → Type 0
IsTurn [] = ⊥
IsTurn (m ∷ ms) = (m.role ≡ user) × All IsReply ms

turns_from-question :
    (current : Turn) (message : ConversationMessage) (messages : List ConversationMessage)
    → message.role ≡ user
    → turns_from current (message ∷ messages)
      ≡ closed_turn current (turns_from (message ∷ []) messages)
unfolding turns_from
turns_from-question current message messages asks =
    ap
      (λ r. elim r [
        | user ↦ closed_turn current (turns_from (message ∷ []) messages)
        | assistant ↦ elim current [
          | [] ↦ turns_from [] messages
          | m ∷ ms ↦ turns_from (m ∷ ms ++ (message ∷ [])) messages
        ]
      ])
      asks

turns_from-reply :
    (current : Turn) (message : ConversationMessage) (messages : List ConversationMessage)
    → message.role ≡ assistant
    → turns_from current (message ∷ messages) ≡ (elim current [
      | [] ↦ turns_from [] messages
      | m ∷ ms ↦ turns_from (m ∷ ms ++ (message ∷ [])) messages
    ])
unfolding turns_from
turns_from-reply current message messages answers =
    ap
      (λ r. elim r [
        | user ↦ closed_turn current (turns_from (message ∷ []) messages)
        | assistant ↦ elim current [
          | [] ↦ turns_from [] messages
          | m ∷ ms ↦ turns_from (m ∷ ms ++ (message ∷ [])) messages
        ]
      ])
      answers

Role-cases : (r : Role) → (r ≡ user) ⊎ (r ≡ assistant)
Role-cases user = inl refl
Role-cases assistant = inr refl

-- With an open turn, the turns are that turn and the rest of the messages.
open_turn :
    (m : ConversationMessage) (ms : Turn) (messages : List ConversationMessage)
    → IsTurn (m ∷ ms)
    → (concat (turns_from (m ∷ ms) messages) ≡ (m ∷ ms) ++ messages)
      × All IsTurn (turns_from (m ∷ ms) messages)
unfolding turns_from
open_turn m ms [] h = (refl, (h, tt))
open_turn m ms (message ∷ messages) h = elim (Role-cases message.role) [
  | inl asks ↦
      let (whole, turns) = open_turn message [] messages (asks, tt) in
      let step = turns_from-question (m ∷ ms) message messages asks in
      (ap concat step ∙ ap (λ t. (m ∷ ms) ++ t) whole, subst (All IsTurn) (sym step) (h, turns))
  | inr answers ↦
      let (whole, turns) =
        open_turn m (ms ++ (message ∷ [])) messages
          (h.0, All-append IsReply ms (message ∷ []) h.1 (answers, tt)) in
      let step = turns_from-reply (m ∷ ms) message messages answers in
      (
        ap concat step ∙ whole ∙ append_assoc (m ∷ ms) (message ∷ []) messages,
        subst (All IsTurn) (sym step) turns,
      )
]

-- The messages, cut into replies to nothing and turns.
pub record IsCut (messages : List ConversationMessage) (turns : List Turn) : Type 0 where
  pub skipped : List ConversationMessage
  pub replies : All IsReply skipped
  pub whole : messages ≡ skipped ++ concat turns
  pub each : All IsTurn turns

no_turn : (messages : List ConversationMessage) → IsCut messages (turns_from [] messages)
unfolding turns_from
no_turn [] = record { skipped = []; replies = tt; whole = refl; each = tt }
no_turn (message ∷ messages) = elim (Role-cases message.role) [
  | inl asks ↦
      let (whole, turns) = open_turn message [] messages (asks, tt) in
      let step = turns_from-question [] message messages asks in
      record {
        skipped = [];
        replies = tt;
        whole = sym (ap concat step ∙ whole);
        each = subst (All IsTurn) (sym step) turns;
      }
  | inr answers ↦
      let rest = no_turn messages in
      let step = turns_from-reply [] message messages answers in
      record {
        skipped = message ∷ rest.skipped;
        replies = (answers, rest.replies);
        whole =
            ap (λ t. message ∷ t) (rest.whole ∙ ap (λ ts. rest.skipped ++ concat ts) (sym step));
        each = subst (All IsTurn) (sym step) rest.each;
      }
]

-- The turns of a conversation are its messages by sequence, without the assistant's messages before the
-- first one of the user; each turn is one message of the user and the assistant's replies to it.
pub turns_of-IsCut :
    (messages : List ConversationMessage) → IsCut (by_sequence messages) (turns_of messages)
unfolding turns_of
turns_of-IsCut messages = no_turn (by_sequence messages)
