-- ===== src/Platform/Owners/Calls.antt =====
-- Sequences of calls of the ownership methods, in any order and with any arguments.
use ven_agent.Prelude.{ℕ, ◌≢◌, Option, String, List, [], ◌∷◌, text_has_eq}
use ven_agent.Ownership.{ActorKind}
use ven_agent.Platform.{PlatformState}
use ven_agent.Platform.Owners.{
  create_guest, rotate_refresh, revoke_session, register_user, create_account_session,
  change_password, mark_owner_deleting, delete_owner, delete_orphan_guests,
}

-- A call of a method with its arguments, in the method's order; the `uuid4`s that it makes come last.
pub data OwnerCall : Type 0 where
  enter :
      (kind : ActorKind) (hash : String) (expires : ℕ) (owner_uuid session_uuid : String)
      → OwnerCall
  rotate : (id expected replacement : String) (grace : ℕ) → OwnerCall
  revoke : (id : String) (now : ℕ) → OwnerCall
  register :
      (name display password hash : String) (expires : ℕ) (last : Option String) (now : ℕ)
      (owner_uuid session_uuid : String)
      → OwnerCall
  sign_in :
      (owner hash : String) (expires : ℕ) (last : Option String) (now : ℕ) (session_uuid : String)
      → OwnerCall
  change : (owner session password hash : String) (grace now : ℕ) → OwnerCall
  mark_deleting : (owner : String) (now : ℕ) → OwnerCall
  delete : (owner : String) → OwnerCall
  sweep : (now : ℕ) → OwnerCall

-- The state after the call, whether it returned or raised.
unfoldable pub serve : OwnerCall → PlatformState → PlatformState
serve (enter kind hash expires owner_uuid session_uuid) s =
    (create_guest kind hash expires owner_uuid session_uuid s).1
serve (rotate id expected replacement grace) s = (rotate_refresh id expected replacement grace s).1
serve (revoke id now) s = revoke_session id now s
serve (register name display password hash expires last now owner_uuid session_uuid) s =
    (register_user name display password hash expires last now owner_uuid session_uuid s).1
serve (sign_in owner hash expires last now session_uuid) s =
    (create_account_session owner hash expires last now session_uuid s).1
serve (change owner session password hash grace now) s =
    (change_password owner session password hash grace now s).1
serve (mark_deleting owner now) s = (mark_owner_deleting owner now s).1
serve (delete owner) s = delete_owner owner s
serve (sweep now) s = (delete_orphan_guests now s).1

unfoldable pub serve_all : List OwnerCall → PlatformState → PlatformState
unfolding serve
serve_all [] s = s
serve_all (c ∷ cs) s = serve_all cs (serve c s)

-- The owner id that the call makes is not `owner_id`.
abbrev pub MakesOther : String → OwnerCall → Type 0
MakesOther owner_id (enter kind hash expires owner_uuid session_uuid) = owner_uuid ≢ owner_id
MakesOther owner_id (register name display password hash expires last now owner_uuid session_uuid) =
    owner_uuid ≢ owner_id
MakesOther owner_id _ = Unit

abbrev pub AllMakeOther : String → List OwnerCall → Type 0
AllMakeOther owner_id [] = Unit
AllMakeOther owner_id (c ∷ cs) = MakesOther owner_id c × AllMakeOther owner_id cs
