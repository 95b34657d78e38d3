-- ===== src/Ownership.antt =====
-- src/ownership/models.py: who acts, the owners, their sessions and the grants of runs.
-- A `datetime` is a number of microseconds and a `timedelta` is a difference of two.
use ven_agent.Prelude.{ℕ, ◌≡◌, ◌↔◌, Bool, true, false, Option, String, List, arith, HasEq, ◌==◌}

pub data ActorKind : Type 0 where
  guest user temporary_guest : ActorKind

abbrev kind_beq : ActorKind → ActorKind → Bool
kind_beq guest guest = true
kind_beq user user = true
kind_beq temporary_guest temporary_guest = true
kind_beq _ _ = false

pub kind_beq_iff : (a b : ActorKind) → (kind_beq a b ≡ true) ↔ (a ≡ b)
kind_beq_iff a b = ground arith

instance abbrev pub kind_eq : HasEq ActorKind
kind_eq = record { equals = kind_beq; decides = kind_beq_iff }

pub data RuntimeMode : Type 0 where
  durable temporary : RuntimeMode

pub record Actor : Type 0 where
  pub owner_id : String
  pub kind : ActorKind
  pub session_id : String
  pub username : Option String
  pub mode : RuntimeMode

unfoldable pub is_user : Actor → Bool
is_user actor = actor.kind == user

-- The values of `lifecycle_state` that the program writes, for owners and conversations.
pub data Lifecycle : Type 0 where
  active deleting : Lifecycle

abbrev pub is_active : Lifecycle → Bool
is_active active = true
is_active deleting = false

pub record OwnerRecord : Type 0 where
  pub owner_id : String
  pub kind : ActorKind
  pub lifecycle_state : Lifecycle
  pub authorization_epoch : ℕ

pub record UserRecord : Type 0 where
  pub owner_id : String
  pub username_normalized : String
  pub username_display : String
  pub password_hash : String

pub record SessionRecord : Type 0 where
  pub session_id : String
  pub owner_id : String
  pub actor_kind : ActorKind
  pub refresh_hash : String
  pub expires_at : ℕ
  pub revoked_at : Option ℕ
  pub previous_refresh_hash : Option String
  pub previous_valid_until : Option ℕ

pub record RefreshLookup : Type 0 where
  pub session : SessionRecord
  pub matched_previous : Bool

pub record RunGrant : Type 0 where
  pub grant_id : String
  pub run_id : String
  pub owner_id : String
  pub tenant_id : String
  pub conversation_id : String
  pub allowed_data_scopes : List String
  pub allowed_action_classes : List String
  pub authorization_epoch : ℕ
  pub requested_by_session_id : String
  pub expires_at : ℕ
  pub revoked_at : Option ℕ

pub record ExecutionAuthorization : Type 0 where
  pub run_id : String
  pub owner_id : String
  pub tenant_id : String
  pub conversation_id : String
  pub allowed_data_scopes : List String
  pub allowed_action_classes : List String
  pub authorization_epoch : ℕ
