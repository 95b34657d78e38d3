-- ===== src/Platform/Owners/Marking.antt =====
-- The methods that open accounts and delete owners, and every sequence of calls: once an owner is marked
-- for deletion, it is never active again and has no live session.
use ven_agent.Prelude.{
  ℕ, ◌≡◌, ◌≢◌, refl, ap, ◌∙◌, inl, inr, arith, Option, none, some, String, List, [], ◌∷◌, ◌==◌,
  text_has_eq, Bool-cases, Option-cases,
}
use ven_agent.Prelude.Dict.{get, get-put, get-put_self}
use ven_agent.Prelude.DictLoops.{update_each}
use ven_agent.Ownership.{OwnerRecord, SessionRecord}
use ven_agent.Platform.{PlatformState}
use ven_agent.Platform.Owners.{
  is_open, is_taken, marked, owned_by, after_change, after_mark, register_user,
  create_account_session, change_password, mark_owner_deleting, delete_owner, orphan_ids,
  drop_guests, delete_orphan_guests,
}
use ven_agent.Platform.Owners.Calls.{
  OwnerCall, enter, rotate, revoke, register, sign_in, change, mark_deleting, delete, sweep, serve,
  serve_all, MakesOther, AllMakeOther,
}
use ven_agent.Platform.Owners.Sessions.{
  SessionsKeyed, IsShut, SessionsShut, put-SessionsShut, update_each-SessionsShut,
  pop_each-SessionsShut,
}
use ven_agent.Platform.Owners.Closing.{
  IsClosed, put_owner-closed, pop_owner-closed, create_guest-IsClosed, rotate_refresh-IsClosed,
  revoke_session-IsClosed, revoke_if_active-IsClosed,
}

register_user-IsClosed :
    {o : String} (name display password hash : String) (expires : ℕ) (last : Option String)
    (now : ℕ) (owner_uuid session_uuid : String) (s : PlatformState)
    → owner_uuid ≢ o
    → IsClosed o s
    → IsClosed o
        (register_user name display password hash expires last now owner_uuid session_uuid s).1
unfolding register_user
register_user-IsClosed {o} name display password hash expires last now owner_uuid session_uuid s
      other h =
    elim (Bool-cases (is_taken (get s.users_by_name name))) [
      | inl taken ↦ rw (taken, register_user) h
      | inr free ↦
          rw (free, register_user)
            (revoke_if_active-IsClosed last now _ (record {
              closed = put_owner-closed o s.owners owner_uuid _ h.closed other;
              sessions = put-SessionsShut _ _ _ h.sessions refl (λ same. absurd (other same));
            }))
    ]

create_account_session-IsClosed :
    {o : String} (owner hash : String) (expires : ℕ) (last : Option String) (now : ℕ)
    (session_uuid : String) (s : PlatformState)
    → IsClosed o s
    → IsClosed o (create_account_session owner hash expires last now session_uuid s).1
unfolding create_account_session
create_account_session-IsClosed {o} owner hash expires last now session_uuid s h =
    elim (Bool-cases (is_open (get s.owners owner))) [
      | inl active ↦
          let other : owner ≢ o = λ same. absurd (cc) in
          rw (active, create_account_session)
            (revoke_if_active-IsClosed last now _ (record {
              closed = h.closed;
              sessions = put-SessionsShut _ _ _ h.sessions refl (λ same. absurd (other same));
            }))
      | inr not_active ↦ rw (not_active, create_account_session) h
    ]

change-IsShut :
    {o : String} (owner current hash : String) (grace now : ℕ) (k : String) (v w : SessionRecord)
    → IsShut o v
    → after_change owner current hash grace now k v ≡ some w
    → IsShut o w
unfolding after_change
change-IsShut owner current hash grace now k v w h written = ground (arith, h)

change-session_id :
    (owner current hash : String) (grace now : ℕ) (k : String) (v w : SessionRecord)
    → after_change owner current hash grace now k v ≡ some w
    → w.session_id ≡ v.session_id
unfolding after_change
change-session_id owner current hash grace now k v w written = ground arith

mark-IsShut :
    {o : String} (owner : String) (now : ℕ) (k : String) (v w : SessionRecord)
    → after_mark owner now k v ≡ some w
    → IsShut o w
unfolding after_mark
mark-IsShut owner now k v w written = ground arith

mark-IsShut_kept :
    {o : String} (now : ℕ) (k : String) (v : SessionRecord)
    → after_mark o now k v ≡ none
    → IsShut o v
unfolding after_mark
mark-IsShut_kept {o} now k v kept = ground (arith, text_has_eq.decides v.owner_id o)

mark-session_id :
    (owner : String) (now : ℕ) (k : String) (v w : SessionRecord)
    → after_mark owner now k v ≡ some w
    → w.session_id ≡ v.session_id
unfolding after_mark
mark-session_id owner now k v w written = ground arith

change_password-IsClosed :
    {o : String} (owner current password hash : String) (grace now : ℕ) (s : PlatformState)
    → IsClosed o s
    → IsClosed o (change_password owner current password hash grace now s).1
unfolding change_password
change_password-IsClosed {o} owner current password hash grace now s h =
    let body = after_change owner current hash grace now in
    let sessions : SessionsShut o (update_each body s.sessions s.sessions) =
      update_each-SessionsShut body s.sessions h.sessions.keyed
        (change-session_id owner current hash grace now)
        (λ k v w found written.
          change-IsShut owner current hash grace now k v w (h.sessions.shut k v found) written)
        (λ k v found kept. h.sessions.shut k v found) in
    elim (Option-cases (get s.users owner)) [
      | inl absent ↦ rw (absent, change_password) h
      | inr (account, found) ↦
          elim (Option-cases (get (update_each body s.sessions s.sessions) current)) [
            | inl gone ↦
                rw (found, change_password, gone)
                  (record { closed = h.closed; sessions = sessions })
            | inr (v, there) ↦
                rw (found, change_password, there)
                  (record { closed = h.closed; sessions = sessions })
          ]
    ]

mark_owner_deleting-IsClosed :
    {o : String} (owner : String) (now : ℕ) (s : PlatformState)
    → IsClosed o s
    → IsClosed o (mark_owner_deleting owner now s).1
unfolding mark_owner_deleting
mark_owner_deleting-IsClosed {o} owner now s h = elim (Option-cases (get s.owners owner)) [
  | inl absent ↦ rw (absent, mark_owner_deleting) h
  | inr (record_, found) ↦
      rw (found, mark_owner_deleting)
        (record {
          closed =
              ap is_open (get-put s.owners owner o (marked record_))
              ∙ elim (Bool-cases (owner == o)) [
                | inl same ↦ rw same refl
                | inr other ↦ rw other h.closed
              ];
          sessions =
              update_each-SessionsShut (after_mark owner now) s.sessions h.sessions.keyed
                (mark-session_id owner now)
                (λ k v w at written. mark-IsShut owner now k v w written)
                (λ k v at kept. h.sessions.shut k v at);
        })
]

-- `mark_owner_deleting` closes the owner that it names.
pub mark_owner_deleting-closes :
    (o : String) (now : ℕ) (s : PlatformState) (owner : OwnerRecord)
    → SessionsKeyed s.sessions
    → get s.owners o ≡ some owner
    → IsClosed o (mark_owner_deleting o now s).1
unfolding mark_owner_deleting
mark_owner_deleting-closes o now s owner keyed found =
    rw (found, mark_owner_deleting)
      (record {
        closed = ap is_open (get-put_self s.owners o (marked owner));
        sessions =
            update_each-SessionsShut (after_mark o now) s.sessions keyed (mark-session_id o now)
              (λ k v w at written. mark-IsShut o now k v w written)
              (λ k v at kept. mark-IsShut_kept now k v kept);
      })

delete_owner-IsClosed :
    {o : String} (owner : String) (s : PlatformState)
    → IsClosed o s
    → IsClosed o (delete_owner owner s)
unfolding delete_owner
delete_owner-IsClosed {o} owner s h = record {
  closed = pop_owner-closed o s.owners owner h.closed;
  sessions = pop_each-SessionsShut (owned_by owner) s.sessions h.sessions;
}

drop_guests-IsClosed :
    {o : String} (ids : List String) (s : PlatformState)
    → IsClosed o s
    → IsClosed o (drop_guests ids s)
unfolding drop_guests
drop_guests-IsClosed [] s h = h
drop_guests-IsClosed {o} (owner ∷ ids) s h = drop_guests-IsClosed ids _ (record {
  closed = pop_owner-closed o s.owners owner h.closed;
  sessions = pop_each-SessionsShut (owned_by owner) s.sessions h.sessions;
})

serve-IsClosed :
    {o : String} (c : OwnerCall) (s : PlatformState)
    → MakesOther o c
    → IsClosed o s
    → IsClosed o (serve c s)
unfolding serve delete_orphan_guests
serve-IsClosed (enter kind hash expires owner_uuid session_uuid) s other h =
    create_guest-IsClosed kind hash expires owner_uuid session_uuid s other h
serve-IsClosed (rotate id expected replacement grace) s other h =
    rotate_refresh-IsClosed id expected replacement grace s h
serve-IsClosed (revoke id now) s other h = revoke_session-IsClosed id now s h
serve-IsClosed (register name display password hash expires last now owner_uuid session_uuid) s
      other h =
    register_user-IsClosed name display password hash expires last now owner_uuid session_uuid s
      other h
serve-IsClosed (sign_in owner hash expires last now session_uuid) s other h =
    create_account_session-IsClosed owner hash expires last now session_uuid s h
serve-IsClosed (change owner session password hash grace now) s other h =
    change_password-IsClosed owner session password hash grace now s h
serve-IsClosed (mark_deleting owner now) s other h = mark_owner_deleting-IsClosed owner now s h
serve-IsClosed (delete owner) s other h = delete_owner-IsClosed owner s h
serve-IsClosed (sweep now) s other h = drop_guests-IsClosed (orphan_ids s now s.owners) s h

serve_all-IsClosed :
    {o : String} (cs : List OwnerCall) (s : PlatformState)
    → AllMakeOther o cs
    → IsClosed o s
    → IsClosed o (serve_all cs s)
unfolding serve_all
serve_all-IsClosed [] s other h = h
serve_all-IsClosed (c ∷ cs) s other h =
    serve_all-IsClosed cs (serve c s) other.1 (serve-IsClosed c s other.0 h)

-- After `mark_owner_deleting` on a stored owner, in a store whose sessions stand under their ids, and any
-- further calls of the ownership methods that make other owner ids, the owner is gone or still not active,
-- and every session of the owner that is left is revoked.
pub marked_owner-IsClosed :
    (o : String) (now : ℕ) (s : PlatformState) (owner : OwnerRecord) (cs : List OwnerCall)
    → SessionsKeyed s.sessions
    → get s.owners o ≡ some owner
    → AllMakeOther o cs
    → IsClosed o (serve_all cs (mark_owner_deleting o now s).1)
marked_owner-IsClosed o now s owner cs keyed found other =
    serve_all-IsClosed cs _ other (mark_owner_deleting-closes o now s owner keyed found)
