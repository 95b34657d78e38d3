-- ===== src/ShortTerm/Tests.antt =====
-- A conversation of two turns, and the theorems at it.
use ven_agent.Prelude.{ℕ, ◌≡◌, refl, none, String, List, [], ◌∷◌}
use ven_agent.Conversation.{ConversationMessage, Role, user, assistant}
use ven_agent.ShortTerm.{
  conservative_token_count, insert_message, by_sequence, turns_from, turns_of, token_count,
  select_until, select_recent_turns, older_messages,
}
use ven_agent.ShortTerm.Recent.{IsRecent, select_recent_turns-IsRecent}
use ven_agent.ShortTerm.Turns.{IsCut, turns_of-IsCut}

abbrev said : String → Role → String → ℕ → ConversationMessage
said id role content sequence = record {
  message_id = id;
  conversation_id = "c1";
  owner_id = "ann";
  role = role;
  content = content;
  sequence = sequence;
  created_at = sequence;
  client_request_id = none;
  source_run_id = none;
  reply_to_message_id = none;
  content_blocks = [];
}

abbrev talk : List ConversationMessage
talk =
    said "m3" user "and now?" 3
    ∷ said "m0" assistant "welcome" 0
    ∷ said "m1" user "hello there" 1
    ∷ said "m2" assistant "hi" 2
    ∷ said "m4" assistant "later" 4
    ∷ []

-- The last turn takes five tokens, the first one five as well.
last_turn :
    select_recent_turns talk 9 ≡ said "m3" user "and now?" 3 ∷ said "m4" assistant "later" 4 ∷ []
unfolding select_recent_turns turns_of by_sequence insert_message turns_from token_count
    conservative_token_count select_until
last_turn = refl

older_part :
    older_messages talk 9
    ≡ said "m0" assistant "welcome" 0
      ∷ said "m1" user "hello there" 1
      ∷ said "m2" assistant "hi" 2
      ∷ []
unfolding older_messages select_recent_turns turns_of by_sequence insert_message turns_from
    token_count conservative_token_count select_until
older_part = refl

select_recent_turns-IsRecent_example : IsRecent (turns_of talk) 9 (select_recent_turns talk 9)
select_recent_turns-IsRecent_example = select_recent_turns-IsRecent talk 9

turns_of-IsCut_example : IsCut (by_sequence talk) (turns_of talk)
turns_of-IsCut_example = turns_of-IsCut talk
