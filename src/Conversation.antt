-- ===== src/Conversation.antt =====
-- src/conversation/models.py: conversations and their formal messages.
mod Rules
pub use Rules.{automatic_title-length}
unfoldable pub use Rules.{automatic_title}
use ven_agent.Prelude.{ℕ, ◌≡◌, ◌↔◌, Bool, true, false, Option, String, List, arith, HasEq}
use ven_agent.Ownership.{ActorKind, Lifecycle}

pub data TitleSource : Type 0 where
  auto manual : TitleSource

abbrev source_beq : TitleSource → TitleSource → Bool
source_beq auto auto = true
source_beq manual manual = true
source_beq _ _ = false

pub source_beq_iff : (a b : TitleSource) → (source_beq a b ≡ true) ↔ (a ≡ b)
source_beq_iff a b = ground arith

instance abbrev pub source_eq : HasEq TitleSource
source_eq = record { equals = source_beq; decides = source_beq_iff }

pub data Role : Type 0 where
  user assistant : Role

abbrev role_beq : Role → Role → Bool
role_beq user user = true
role_beq assistant assistant = true
role_beq _ _ = false

pub role_beq_iff : (a b : Role) → (role_beq a b ≡ true) ↔ (a ≡ b)
role_beq_iff a b = ground arith

instance abbrev pub role_eq : HasEq Role
role_eq = record { equals = role_beq; decides = role_beq_iff }

pub record Conversation : Type 0 where
  pub conversation_id : String
  pub owner_id : String
  pub owner_kind : ActorKind
  pub lifecycle_state : Lifecycle
  pub title : String
  pub title_source : TitleSource
  pub created_at : ℕ
  pub updated_at : ℕ
  pub last_successful_at : Option ℕ

pub record ConversationMessage : Type 0 where
  pub message_id : String
  pub conversation_id : String
  pub owner_id : String
  pub role : Role
  pub content : String
  pub sequence : ℕ
  pub created_at : ℕ
  pub client_request_id : Option String
  pub source_run_id : Option String
  pub reply_to_message_id : Option String
  pub content_blocks : List (List (String × String))
