-- ===== src/Platform/Owners/Index.antt =====
-- Every ownership method keeps the index of the user names.
use ven_agent.Prelude.{
  ℕ, ◌≡◌, refl, ap, inl, inr, arith, false, Option, none, some, String, List, [], ◌∷◌, ◌==◌,
  text_has_eq, Bool-cases, Option-cases,
}
use ven_agent.Prelude.Dict.{Dict, get, put, pop}
use ven_agent.Prelude.DictLoops.{update_each}
use ven_agent.Ownership.{UserRecord}
use ven_agent.Platform.{PlatformState}
use ven_agent.Platform.Owners.{
  is_revoked, is_open, is_taken, after_change, create_guest, rotate_refresh, revoke_session,
  revoke_if_active, register_user, create_account_session, change_password, mark_owner_deleting,
  delete_owner, orphan_ids, drop_guests, delete_orphan_guests,
}
use ven_agent.Platform.Owners.Calls.{
  OwnerCall, enter, rotate, revoke, register, sign_in, change, mark_deleting, delete, sweep, serve,
  serve_all,
}
use ven_agent.Platform.Owners.Accounts.{
  AccountsMatch, add-AccountsMatch, rewrite-AccountsMatch, remove-AccountsMatch,
}

abbrev pub AccountsValid : PlatformState → Type 0
AccountsValid s = AccountsMatch s.users s.users_by_name

rotate_refresh-AccountsValid :
    (id expected replacement : String) (grace : ℕ) (s : PlatformState)
    → AccountsValid s
    → AccountsValid (rotate_refresh id expected replacement grace s).1
unfolding rotate_refresh
rotate_refresh-AccountsValid id expected replacement grace s h =
    elim (Option-cases (get s.sessions id)) [
      | inl absent ↦ rw (absent, rotate_refresh) h
      | inr (v, found) ↦ elim (Bool-cases (v.refresh_hash == expected)) [
        | inl same ↦ rw (found, same, rotate_refresh) h
        | inr other ↦ rw (found, other, rotate_refresh) h
      ]
    ]

revoke_session-AccountsValid :
    (id : String) (now : ℕ) (s : PlatformState)
    → AccountsValid s
    → AccountsValid (revoke_session id now s)
unfolding revoke_session
revoke_session-AccountsValid id now s h = elim (Option-cases (get s.sessions id)) [
  | inl absent ↦ rw (absent, revoke_session) h
  | inr (v, found) ↦ elim (Bool-cases (is_revoked v)) [
    | inl over ↦ rw (found, over, revoke_session) h
    | inr live ↦ rw (found, live, revoke_session) h
  ]
]

pub revoke_if_active-AccountsValid :
    (id : Option String) (now : ℕ) (s : PlatformState)
    → AccountsValid s
    → AccountsValid (revoke_if_active id now s)
unfolding revoke_if_active
revoke_if_active-AccountsValid none now s h = h
revoke_if_active-AccountsValid (some id) now s h = revoke_session-AccountsValid id now s h

is_taken-none : (o : Option String) → is_taken o ≡ false → o ≡ none
is_taken-none o h = ground arith

register_user-AccountsValid :
    (name display password hash : String) (expires : ℕ) (last : Option String) (now : ℕ)
    (owner_uuid session_uuid : String) (s : PlatformState)
    → get s.users owner_uuid ≡ none
    → AccountsValid s
    → AccountsValid
        (register_user name display password hash expires last now owner_uuid session_uuid s).1
unfolding register_user
register_user-AccountsValid name display password hash expires last now owner_uuid session_uuid s
      new h =
    elim (Bool-cases (is_taken (get s.users_by_name name))) [
      | inl taken ↦ rw (taken, register_user) h
      | inr free ↦
          rw (free, register_user)
            (revoke_if_active-AccountsValid last now _ (
              add-AccountsMatch s.users s.users_by_name owner_uuid _ h new (is_taken-none _ free)
                refl))
    ]

create_account_session-AccountsValid :
    (owner hash : String) (expires : ℕ) (last : Option String) (now : ℕ) (session_uuid : String)
    (s : PlatformState)
    → AccountsValid s
    → AccountsValid (create_account_session owner hash expires last now session_uuid s).1
unfolding create_account_session
create_account_session-AccountsValid owner hash expires last now session_uuid s h =
    elim (Bool-cases (is_open (get s.owners owner))) [
      | inl active ↦
          rw (active, create_account_session) (revoke_if_active-AccountsValid last now _ h)
      | inr closed ↦ rw (closed, create_account_session) h
    ]

change_password-AccountsValid :
    (owner current password hash : String) (grace now : ℕ) (s : PlatformState)
    → AccountsValid s
    → AccountsValid (change_password owner current password hash grace now s).1
unfolding change_password
change_password-AccountsValid owner current password hash grace now s h =
    let sessions = update_each (after_change owner current hash grace now) s.sessions s.sessions in
    elim (Option-cases (get s.users owner)) [
      | inl absent ↦ rw (absent, change_password) h
      | inr (account, found) ↦
          let rewritten : AccountsMatch
              (put s.users owner (record account { password_hash = password })) s.users_by_name =
            rewrite-AccountsMatch s.users s.users_by_name owner account _ h found refl refl in
          elim (Option-cases (get sessions current)) [
            | inl gone ↦ rw (found, change_password, gone) rewritten
            | inr (v, there) ↦ rw (found, change_password, there) rewritten
          ]
    ]

mark_owner_deleting-AccountsValid :
    (owner : String) (now : ℕ) (s : PlatformState)
    → AccountsValid s
    → AccountsValid (mark_owner_deleting owner now s).1
unfolding mark_owner_deleting
mark_owner_deleting-AccountsValid owner now s h = elim (Option-cases (get s.owners owner)) [
  | inl absent ↦ rw (absent, mark_owner_deleting) h
  | inr (found, stored) ↦ rw (stored, mark_owner_deleting) h
]

pop_absent : (d : Dict String UserRecord) (k : String) → get d k ≡ none → pop d k ≡ d
unfolding get pop
pop_absent [] k h = refl
pop_absent ((j, v) ∷ d) k h = elim (Bool-cases (j == k)) [
  | inl same ↦ absurd (ground arith)
  | inr other ↦ rw other (ap (λ e. (j, v) ∷ e) (pop_absent d k (ground arith)))
]

pub delete_owner-AccountsValid :
    (owner : String) (s : PlatformState) → AccountsValid s → AccountsValid (delete_owner owner s)
unfolding delete_owner
delete_owner-AccountsValid owner s h = elim (Option-cases (get s.users owner)) [
  | inl absent ↦ rw (absent, delete_owner, pop_absent s.users owner absent) h
  | inr (u, found) ↦
      rw (found, delete_owner) (remove-AccountsMatch s.users s.users_by_name owner u h found)
]

drop_guests-AccountsValid :
    (ids : List String) (s : PlatformState) → AccountsValid s → AccountsValid (drop_guests ids s)
unfolding drop_guests
drop_guests-AccountsValid [] s h = h
drop_guests-AccountsValid (owner ∷ ids) s h = drop_guests-AccountsValid ids _ h

-- `uuid4` gives an owner id that no user has.
abbrev pub MakesNew : OwnerCall → PlatformState → Type 0
MakesNew (register name display password hash expires last now owner_uuid session_uuid) s =
    get s.users owner_uuid ≡ none
MakesNew _ s = Unit

abbrev pub AllMakeNew : List OwnerCall → PlatformState → Type 0
AllMakeNew [] s = Unit
AllMakeNew (c ∷ cs) s = MakesNew c s × AllMakeNew cs (serve c s)

serve-AccountsValid :
    (c : OwnerCall) (s : PlatformState) → MakesNew c s → AccountsValid s → AccountsValid (serve c s)
unfolding serve create_guest delete_orphan_guests
serve-AccountsValid (enter kind hash expires owner_uuid session_uuid) s new h = h
serve-AccountsValid (rotate id expected replacement grace) s new h =
    rotate_refresh-AccountsValid id expected replacement grace s h
serve-AccountsValid (revoke id now) s new h = revoke_session-AccountsValid id now s h
serve-AccountsValid (register name display password hash expires last now owner_uuid session_uuid) s
      new h =
    register_user-AccountsValid name display password hash expires last now owner_uuid session_uuid
      s new h
serve-AccountsValid (sign_in owner hash expires last now session_uuid) s new h =
    create_account_session-AccountsValid owner hash expires last now session_uuid s h
serve-AccountsValid (change owner session password hash grace now) s new h =
    change_password-AccountsValid owner session password hash grace now s h
serve-AccountsValid (mark_deleting owner now) s new h =
    mark_owner_deleting-AccountsValid owner now s h
serve-AccountsValid (delete owner) s new h = delete_owner-AccountsValid owner s h
serve-AccountsValid (sweep now) s new h = drop_guests-AccountsValid (orphan_ids s now s.owners) s h

-- After any calls of the ownership methods, in a store whose user names and users match, and where `uuid4`
-- gives owner ids that no user has, they match still: a name leads to the one account that has it, and
-- each account stands under its owner's id and is found by its name.
pub serve_all-AccountsValid :
    (cs : List OwnerCall) (s : PlatformState)
    → AccountsValid s
    → AllMakeNew cs s
    → AccountsValid (serve_all cs s)
unfolding serve_all
serve_all-AccountsValid [] s h new = h
serve_all-AccountsValid (c ∷ cs) s h new =
    serve_all-AccountsValid cs (serve c s) (serve-AccountsValid c s new.0 h) new.1
