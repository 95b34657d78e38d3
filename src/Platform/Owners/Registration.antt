-- ===== src/Platform/Owners/Registration.antt =====
-- Registering a user, and looking the name up afterwards.
use ven_agent.Prelude.{
  ℕ, ◌≡◌, refl, ap, ◌∙◌, inl, inr, Option, none, some, String, text_has_eq, Bool-cases,
  Option-cases, err, ok,
}
use ven_agent.Prelude.Dict.{get, put, get-put_self}
use ven_agent.Ownership.{UserRecord, SessionRecord, user}
use ven_agent.Platform.{PlatformState, username_taken}
use ven_agent.Platform.Owners.{
  new_session, is_revoked, revoke_session, revoke_if_active, register_user, find_user_by_name,
}

abbrev account_of : String → String → String → String → UserRecord
account_of name display password owner_uuid = record {
  owner_id = owner_uuid;
  username_normalized = name;
  username_display = display;
  password_hash = password;
}

revoke_session-accounts :
    (id : String) (now : ℕ) (s : PlatformState)
    → ((revoke_session id now s).users ≡ s.users)
      × ((revoke_session id now s).users_by_name ≡ s.users_by_name)
unfolding revoke_session
revoke_session-accounts id now s = elim (Option-cases (get s.sessions id)) [
  | inl absent ↦ rw (absent, revoke_session) (refl, refl)
  | inr (v, found) ↦ elim (Bool-cases (is_revoked v)) [
    | inl over ↦ rw (found, over, revoke_session) (refl, refl)
    | inr live ↦ rw (found, live, revoke_session) (refl, refl)
  ]
]

revoke_if_active-accounts :
    (id : Option String) (now : ℕ) (s : PlatformState)
    → ((revoke_if_active id now s).users ≡ s.users)
      × ((revoke_if_active id now s).users_by_name ≡ s.users_by_name)
unfolding revoke_if_active
revoke_if_active-accounts none now s = (refl, refl)
revoke_if_active-accounts (some id) now s = revoke_session-accounts id now s

register_user-taken :
    (name display password hash : String) (expires : ℕ) (last : Option String) (now : ℕ)
    (owner_uuid session_uuid : String) (s : PlatformState) (id : String)
    → get s.users_by_name name ≡ some id
    → register_user name display password hash expires last now owner_uuid session_uuid s
      ≡ (err username_taken, s)
unfolding register_user
register_user-taken name display password hash expires last now owner_uuid session_uuid s id taken =
    rw (taken, register_user) refl

register_user-free :
    (name display password hash : String) (expires : ℕ) (last : Option String) (now : ℕ)
    (owner_uuid session_uuid : String) (s : PlatformState)
    → get s.users_by_name name ≡ none
    → let done =
        register_user name display password hash expires last now owner_uuid session_uuid s in
      (done.0
        ≡ ok (
          account_of name display password owner_uuid,
          new_session session_uuid owner_uuid user hash expires,
        ))
      × (done.1.users ≡ put s.users owner_uuid (account_of name display password owner_uuid))
      × (done.1.users_by_name ≡ put s.users_by_name name owner_uuid)
unfolding register_user
register_user-free name display password hash expires last now owner_uuid session_uuid s free =
    rw (free, register_user)
      (refl, (revoke_if_active-accounts last now _).0, (revoke_if_active-accounts last now _).1)

find_user_by_name-found :
    (s : PlatformState) (name id : String) (u : UserRecord)
    → get s.users_by_name name ≡ some id
    → get s.users id ≡ some u
    → find_user_by_name name s ≡ some u
unfolding find_user_by_name
find_user_by_name-found s name id u named stored = rw (named, find_user_by_name, stored) refl

-- Registering a free name returns the new account, which carries the given password hash and is what
-- `find_user_by_name` finds under the name afterwards; and then a second registration of the name, with
-- any other arguments, raises `UsernameTaken` and writes nothing.
pub register_user-claims :
    (name display password hash : String) (expires : ℕ) (last : Option String) (now : ℕ)
    (owner_uuid session_uuid : String) (s : PlatformState) (display' password' hash' : String)
    (expires' : ℕ) (last' : Option String) (now' : ℕ) (owner_uuid' session_uuid' : String)
    → get s.users_by_name name ≡ none
    → (u : UserRecord) × (v : SessionRecord) × ((register_user name display password hash expires
          last now owner_uuid session_uuid s).0
        ≡ ok (u, v))
      × (u.password_hash ≡ password)
      × (find_user_by_name name
            (register_user name display password hash expires last now owner_uuid session_uuid s).1
          ≡ some u)
      × (register_user name display' password' hash' expires' last' now' owner_uuid' session_uuid'
            (register_user name display password hash expires last now owner_uuid session_uuid s).1
          ≡ (
            err username_taken,
            (register_user name display password hash expires last now owner_uuid session_uuid s).1,
          ))
register_user-claims name display password hash expires last now owner_uuid session_uuid s display'
      password' hash' expires' last' now' owner_uuid' session_uuid' free =
    let (result, users, names) =
      register_user-free name display password hash expires last now owner_uuid session_uuid s
        free in
    let named = ap (λ d. get d name) names ∙ get-put_self s.users_by_name name owner_uuid in
    let stored = ap (λ d. get d owner_uuid) users ∙ get-put_self s.users owner_uuid _ in
    (
      _,
      _,
      result,
      refl,
      find_user_by_name-found _ name owner_uuid _ named stored,
      register_user-taken name display' password' hash' expires' last' now' owner_uuid'
          session_uuid' _ owner_uuid named,
    )
