-- ===== src/Platform/Owners.antt =====
-- src/repo/inmemory/ownership.py: owners, users, and sessions with their refresh tokens.
pub mod Calls
pub mod Sessions
pub mod Closing
pub mod Marking
pub mod Authorization
pub mod Accounts
pub mod Index
pub mod Registration
pub mod Erasure
mod Tests
use ven_agent.Prelude.{
  ℕ, ◌+◌, ◌≡◌, Bool, true, false, not, ◌&&◌, ◌||◌, Option, none, some, String, List, [], ◌∷◌, ◌==◌,
  ◌!=◌, text_has_eq, option_eq, ok, err, raise_if, pure, modify, gets, or_raise, ◌>>=◌, ◌>>◌,
  if◌then◌else◌, ltb, any, length,
}
use ven_agent.Prelude.Dict.{Dict, get, put, pop, values}
use ven_agent.Prelude.DictLoops.{update_each, pop_each}
use ven_agent.Ownership.{
  ActorKind, user, kind_eq, OwnerRecord, UserRecord, SessionRecord, RefreshLookup, active, deleting,
  is_active,
}
use ven_agent.Conversation.{Conversation}
use ven_agent.Platform.{PlatformState, Method, session_inactive, username_taken, key_error}

abbrev new_owner : String → ActorKind → OwnerRecord
new_owner owner_id kind = record {
  owner_id = owner_id;
  kind = kind;
  lifecycle_state = active;
  authorization_epoch = 1;
}

abbrev pub new_session : String → String → ActorKind → String → ℕ → SessionRecord
new_session session_id owner_id kind refresh_hash expires_at = record {
  session_id = session_id;
  owner_id = owner_id;
  actor_kind = kind;
  refresh_hash = refresh_hash;
  expires_at = expires_at;
  revoked_at = none;
  previous_refresh_hash = none;
  previous_valid_until = none;
}

abbrev pub is_revoked : SessionRecord → Bool
is_revoked session = elim session.revoked_at [ none ↦ false | some t ↦ true ]

abbrev pub revoked : ℕ → SessionRecord → SessionRecord
revoked now session = record session { revoked_at = some now }

abbrev pub rotated : String → ℕ → SessionRecord → SessionRecord
rotated new_hash previous_valid_until session = record session {
  refresh_hash = new_hash;
  previous_refresh_hash = some session.refresh_hash;
  previous_valid_until = some previous_valid_until;
}

abbrev pub put_session : SessionRecord → PlatformState → PlatformState
put_session session s = record s { sessions = put s.sessions session.session_id session }

unfoldable pub create_guest :
    ActorKind → String → ℕ → String → String → Method (OwnerRecord × SessionRecord)
create_guest kind refresh_hash expires_at owner_uuid session_uuid s =
    let owner = new_owner owner_uuid kind in
    let session = new_session session_uuid owner_uuid kind refresh_hash expires_at in
    (ok (owner, session), put_session session (record s { owners = put s.owners owner_uuid owner }))

-- `session.previous_refresh_hash == refresh_hash` within its grace period.
unfoldable pub matches_previous : String → ℕ → SessionRecord → Bool
matches_previous refresh_hash now session =
    session.previous_refresh_hash == some refresh_hash
    && elim session.previous_valid_until [ none ↦ false | some t ↦ ltb now t ]

unfoldable pub find_among : String → ℕ → List SessionRecord → Option RefreshLookup
find_among refresh_hash now [] = none
find_among refresh_hash now (session ∷ sessions) =
    let later = find_among refresh_hash now sessions in
    if session.refresh_hash == refresh_hash
    then some (record { session = session; matched_previous = false })
    else if matches_previous refresh_hash now session
    then some (record { session = session; matched_previous = true })
    else later

unfoldable pub find_refresh : String → ℕ → PlatformState → Option RefreshLookup
unfolding find_among matches_previous
find_refresh refresh_hash now s = find_among refresh_hash now (values s.sessions)

unfoldable pub rotate_refresh : String → String → String → ℕ → Method SessionRecord
rotate_refresh session_id expected_hash new_hash previous_valid_until s =
    elim (get s.sessions session_id) [
      | none ↦ (err session_inactive, s)
      | some session ↦
          if session.refresh_hash != expected_hash then (err session_inactive, s) else (
            ok (rotated new_hash previous_valid_until session),
            record s {
              sessions = put s.sessions session_id (rotated new_hash previous_valid_until session);
            },
          )
    ]

-- `if session is not None and session.revoked_at is None`, of `revoke_session` and
-- `_revoke_if_active`.
unfoldable pub revoke_session : String → ℕ → PlatformState → PlatformState
revoke_session session_id now s = elim (get s.sessions session_id) [
  | none ↦ s
  | some session ↦
      if is_revoked session
      then s
      else record s { sessions = put s.sessions session_id (revoked now session) }
]

unfoldable pub revoke_if_active : Option String → ℕ → PlatformState → PlatformState
unfolding revoke_session
revoke_if_active none now s = s
revoke_if_active (some session_id) now s = revoke_session session_id now s

abbrev pub is_taken : Option String → Bool
is_taken none = false
is_taken (some id) = true

unfoldable pub register_user :
    String
    → String
    → String
    → String
    → ℕ
    → Option String
    → ℕ
    → String
    → String
    → Method (UserRecord × SessionRecord)
unfolding revoke_if_active
register_user name display password_hash refresh_hash expires_at revoke_session_id revoke_at
      owner_uuid session_uuid s =
    if is_taken (get s.users_by_name name)
    then (err username_taken, s)
    else let account : UserRecord = record {
      owner_id = owner_uuid;
      username_normalized = name;
      username_display = display;
      password_hash = password_hash;
    } in
      let session = new_session session_uuid owner_uuid user refresh_hash expires_at in
      (
        ok (account, session),
        revoke_if_active revoke_session_id revoke_at (
            put_session session (record s {
              owners = put s.owners owner_uuid (new_owner owner_uuid user);
              users = put s.users owner_uuid account;
              users_by_name = put s.users_by_name name owner_uuid;
            })),
      )

unfoldable pub find_user_by_name : String → PlatformState → Option UserRecord
find_user_by_name name s = elim (get s.users_by_name name) [
  | none ↦ none
  | some owner_id ↦ get s.users owner_id
]

abbrev pub is_open : Option OwnerRecord → Bool
is_open none = false
is_open (some owner) = is_active owner.lifecycle_state

unfoldable pub create_account_session :
    String → String → ℕ → Option String → ℕ → String → Method SessionRecord
unfolding revoke_if_active
create_account_session owner_id refresh_hash expires_at revoke_session_id revoke_at session_uuid s =
    let session = new_session session_uuid owner_id user refresh_hash expires_at in
    if is_open (get s.owners owner_id)
    then (ok session, revoke_if_active revoke_session_id revoke_at (put_session session s))
    else (err session_inactive, s)

-- What `change_password` writes for a session, or nothing.
unfoldable pub after_change :
    String → String → String → ℕ → ℕ → String → SessionRecord → Option SessionRecord
after_change owner_id current_session_id refresh_hash previous_valid_until now session_id session =
    if session.owner_id != owner_id
    then none
    else if session_id == current_session_id
    then some (rotated refresh_hash previous_valid_until session)
    else if is_revoked session
    then none
    else some (revoked now session)

-- The ids of the sessions that it revokes.
unfoldable pub revoked_ids : String → String → List (String × SessionRecord) → List String
revoked_ids owner_id current_session_id [] = []
revoked_ids owner_id current_session_id ((session_id, session) ∷ entries) =
    let rest = revoked_ids owner_id current_session_id entries in
    if session.owner_id == owner_id && session_id != current_session_id && not (is_revoked session)
    then session_id ∷ rest
    else rest

unfoldable pub change_password :
    String → String → String → String → ℕ → ℕ → Method (SessionRecord × List String)
unfolding after_change revoked_ids
change_password owner_id current_session_id password_hash refresh_hash previous_valid_until now s =
    elim (get s.users owner_id) [
      | none ↦ (err key_error, s)
      | some account ↦
          let sessions =
            update_each
              (after_change owner_id current_session_id refresh_hash previous_valid_until now)
              s.sessions s.sessions in
          let changed = record s {
            users = put s.users owner_id (record account { password_hash = password_hash });
            sessions = sessions;
          } in
          elim (get sessions current_session_id) [
            | none ↦ (err key_error, changed)
            | some current ↦
                (ok (current, revoked_ids owner_id current_session_id s.sessions), changed)
          ]
    ]

unfoldable pub after_mark : String → ℕ → String → SessionRecord → Option SessionRecord
after_mark owner_id now session_id session =
    if session.owner_id == owner_id then some (revoked now session) else none

unfoldable pub owned_ids : String → List (String × SessionRecord) → List String
owned_ids owner_id [] = []
owned_ids owner_id ((session_id, session) ∷ entries) =
    let rest = owned_ids owner_id entries in
    if session.owner_id == owner_id then session_id ∷ rest else rest

abbrev pub marked : OwnerRecord → OwnerRecord
marked owner = record owner {
  lifecycle_state = deleting;
  authorization_epoch = owner.authorization_epoch + 1;
}

unfoldable pub mark_owner_deleting : String → ℕ → Method (List String)
unfolding after_mark owned_ids
mark_owner_deleting owner_id now s = elim (get s.owners owner_id) [
  | none ↦ (ok [], s)
  | some owner ↦ (
    ok (owned_ids owner_id s.sessions),
    record s {
      owners = put s.owners owner_id (marked owner);
      sessions = update_each (after_mark owner_id now) s.sessions s.sessions;
    },
  )
]

unfoldable pub deleting_owner_ids : List (String × OwnerRecord) → List String
deleting_owner_ids [] = []
deleting_owner_ids ((owner_id, owner) ∷ entries) =
    let rest = deleting_owner_ids entries in
    if is_active owner.lifecycle_state then rest else owner_id ∷ rest

abbrev pub owned_by : String → SessionRecord → Bool
owned_by owner_id session = session.owner_id == owner_id

unfoldable pub delete_owner : String → PlatformState → PlatformState
delete_owner owner_id s = record s {
  users_by_name = elim (get s.users owner_id) [
    | none ↦ s.users_by_name
    | some account ↦ pop s.users_by_name account.username_normalized
  ];
  users = pop s.users owner_id;
  sessions = pop_each (owned_by owner_id) s.sessions s.sessions;
  owners = pop s.owners owner_id;
}

-- A guest that no conversation names and that has no live session.
unfoldable pub is_orphan : PlatformState → ℕ → String → OwnerRecord → Bool
is_orphan s now owner_id owner =
    owner.kind != user
    && not (any (λ (item : Conversation). item.owner_id == owner_id) (values s.conversations))
    && not (
        any
          (λ session.
            session.owner_id == owner_id && not (is_revoked session) && ltb now session.expires_at)
          (values s.sessions))

unfoldable pub orphan_ids : PlatformState → ℕ → List (String × OwnerRecord) → List String
unfolding is_orphan
orphan_ids s now [] = []
orphan_ids s now ((owner_id, owner) ∷ entries) =
    let rest = orphan_ids s now entries in
    if is_orphan s now owner_id owner then owner_id ∷ rest else rest

unfoldable pub drop_guests : List String → PlatformState → PlatformState
drop_guests [] s = s
drop_guests (owner_id ∷ ids) s = drop_guests ids (record s {
  sessions = pop_each (owned_by owner_id) s.sessions s.sessions;
  owners = pop s.owners owner_id;
  guest_creates = pop s.guest_creates owner_id;
})

-- How many guests were deleted, and the state without them.
unfoldable pub delete_orphan_guests : ℕ → PlatformState → ℕ × PlatformState
unfolding orphan_ids drop_guests
delete_orphan_guests now s = let ids = orphan_ids s now s.owners in (length ids, drop_guests ids s)
