-- ===== src/Platform/Owners/Closing.antt =====
-- An owner that is marked for deletion: no ownership method opens it, or a session of it, again.
use ven_agent.Prelude.{
  ℕ, ◌≡◌, ◌≢◌, refl, ap, ◌∙◌, inl, inr, arith, false, Option, none, some, String, ◌==◌, text_has_eq,
  Bool-cases, Option-cases,
}
use ven_agent.Prelude.Dict.{Dict, get, put, pop, get-put, get-pop, get-name_eq}
use ven_agent.Ownership.{ActorKind, OwnerRecord, SessionRecord}
use ven_agent.Platform.{PlatformState}
use ven_agent.Platform.Owners.{
  is_revoked, is_open, create_guest, rotate_refresh, revoke_session, revoke_if_active,
}
use ven_agent.Platform.Owners.Sessions.{IsShut, SessionsShut, put-SessionsShut}

-- The owner is gone or not active, the sessions stand under their ids, and none of the owner's is live.
pub record IsClosed (owner_id : String) (s : PlatformState) : Type 0 where
  pub closed : is_open (get s.owners owner_id) ≡ false
  pub sessions : SessionsShut owner_id s.sessions

pub put_owner-closed :
    (o : String) (owners : Dict String OwnerRecord) (k : String) (v : OwnerRecord)
    → is_open (get owners o) ≡ false
    → k ≢ o
    → is_open (get (put owners k v) o) ≡ false
put_owner-closed o owners k v h other =
    ground (arith, get-put owners k o v, text_has_eq.decides k o)

pub pop_owner-closed :
    (o : String) (owners : Dict String OwnerRecord) (k : String)
    → is_open (get owners o) ≡ false
    → is_open (get (pop owners k) o) ≡ false
pop_owner-closed o owners k h =
    ap is_open (get-pop owners k o)
    ∙ elim (Bool-cases (k == o)) [ inl same ↦ rw same refl | inr other ↦ rw other h ]

pub create_guest-IsClosed :
    {o : String} (kind : ActorKind) (hash : String) (expires : ℕ) (owner_uuid session_uuid : String)
    (s : PlatformState)
    → owner_uuid ≢ o
    → IsClosed o s
    → IsClosed o (create_guest kind hash expires owner_uuid session_uuid s).1
unfolding create_guest
create_guest-IsClosed {o} kind hash expires owner_uuid session_uuid s other h = record {
  closed = put_owner-closed o s.owners owner_uuid _ h.closed other;
  sessions = put-SessionsShut _ _ _ h.sessions refl (λ same. absurd (other same));
}

-- A session that is written under the id of one with the same owner and at least its revocation.
overwrite-SessionsShut :
    {o : String} (d : Dict String SessionRecord) (k : String) (v w : SessionRecord)
    → SessionsShut o d
    → get d k ≡ some v
    → w.session_id ≡ v.session_id
    → (IsShut o v → IsShut o w)
    → SessionsShut o (put d k w)
overwrite-SessionsShut d k v w h found name shut =
    put-SessionsShut d k w h (name ∙ get-name_eq _ d k v h.keyed found) (shut (h.shut k v found))

pub rotate_refresh-IsClosed :
    {o : String} (id expected replacement : String) (grace : ℕ) (s : PlatformState)
    → IsClosed o s
    → IsClosed o (rotate_refresh id expected replacement grace s).1
unfolding rotate_refresh
rotate_refresh-IsClosed id expected replacement grace s h =
    elim (Option-cases (get s.sessions id)) [
      | inl absent ↦ rw (absent, rotate_refresh) h
      | inr (v, found) ↦ elim (Bool-cases (v.refresh_hash == expected)) [
        | inl same ↦
            rw (found, same, rotate_refresh)
              (record {
                closed = h.closed;
                sessions =
                    overwrite-SessionsShut s.sessions id v _ h.sessions found refl (λ shut. shut);
              })
        | inr other ↦ rw (found, other, rotate_refresh) h
      ]
    ]

pub revoke_session-IsClosed :
    {o : String} (id : String) (now : ℕ) (s : PlatformState)
    → IsClosed o s
    → IsClosed o (revoke_session id now s)
unfolding revoke_session
revoke_session-IsClosed id now s h = elim (Option-cases (get s.sessions id)) [
  | inl absent ↦ rw (absent, revoke_session) h
  | inr (v, found) ↦ elim (Bool-cases (is_revoked v)) [
    | inl over ↦ rw (found, over, revoke_session) h
    | inr live ↦
        rw (found, live, revoke_session)
          (record {
            closed = h.closed;
            sessions =
                overwrite-SessionsShut s.sessions id v _ h.sessions found refl (λ shut owner. refl);
          })
  ]
]

pub revoke_if_active-IsClosed :
    {o : String} (id : Option String) (now : ℕ) (s : PlatformState)
    → IsClosed o s
    → IsClosed o (revoke_if_active id now s)
unfolding revoke_if_active
revoke_if_active-IsClosed none now s h = h
revoke_if_active-IsClosed (some id) now s h = revoke_session-IsClosed id now s h
