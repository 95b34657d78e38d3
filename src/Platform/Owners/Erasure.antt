-- ===== src/Platform/Owners/Erasure.antt =====
-- What `delete_owner` leaves of an owner, and of the others.
use ven_agent.Prelude.{
  ◌≡◌, ◌≢◌, ◌↔◌, refl, sym, ◌∙◌, inl, inr, arith, Option, none, some, String, ◌==◌, text_has_eq,
  Option-cases, if◌then◌else◌,
}
use ven_agent.Prelude.Dict.{Dict, get, pop, get-pop}
use ven_agent.Prelude.DictLoops.{get-pop_each, dropped}
use ven_agent.Ownership.{UserRecord, SessionRecord}
use ven_agent.Platform.{PlatformState}
use ven_agent.Platform.Owners.{owned_by, delete_owner, find_user_by_name}
use ven_agent.Platform.Owners.Sessions.{SessionsKeyed}
use ven_agent.Platform.Owners.Index.{AccountsValid, delete_owner-AccountsValid}

-- Exactly the owner's sessions, account and record are gone from `s` in `s'`, and everything that the
-- conversation and run methods write is as it was.
pub record Erases (o : String) (s s' : PlatformState) : Type 0 where
  pub sessions :
      (k : String) (v : SessionRecord)
      → (get s'.sessions k ≡ some v) ↔ ((get s.sessions k ≡ some v) × (v.owner_id ≢ o))
  pub accounts :
      (name : String) (u : UserRecord)
      → (find_user_by_name name s' ≡ some u)
        ↔ ((find_user_by_name name s ≡ some u) × (u.owner_id ≢ o))
  pub owners : (k : String) → get s'.owners k ≡ (if o == k then none else get s.owners k)
  pub users : (k : String) → get s'.users k ≡ (if o == k then none else get s.users k)
  pub conversations : s'.conversations ≡ s.conversations
  pub messages : s'.messages ≡ s.messages
  pub runs : s'.runs ≡ s.runs
  pub run_events : s'.run_events ≡ s.run_events
  pub grants : s'.grants ≡ s.grants
  pub requests : s'.requests ≡ s.requests
  pub guest_creates : s'.guest_creates ≡ s.guest_creates

pub found-split :
    (name : String) (u : UserRecord) (s : PlatformState)
    → (find_user_by_name name s ≡ some u)
      ↔ ((id : String) × (get s.users_by_name name ≡ some id) × (get s.users id ≡ some u))
unfolding find_user_by_name
found-split name u s = (
  λ found. elim (Option-cases (get s.users_by_name name)) [
    | inl absent ↦ absurd (ground (arith, absent, found))
    | inr (id, named) ↦ (id, named, ground (arith, named, found))
  ],
  λ (id, named, stored). rw (named, find_user_by_name, stored) refl,
)

dropped-split :
    (o : String) (kept : Option SessionRecord) (v : SessionRecord)
    → (dropped (owned_by o) kept kept ≡ some v) ↔ ((kept ≡ some v) × (v.owner_id ≢ o))
dropped-split o none v = ground arith
dropped-split o (some w) v = ground (arith, text_has_eq.decides w.owner_id o)

pop-split :
    {V : Type 0} (d : Dict String V) (gone key : String) (v : V)
    → (get (pop d gone) key ≡ some v) ↔ ((gone ≢ key) × (get d key ≡ some v))
pop-split d gone key v = ground (arith, get-pop d gone key, text_has_eq.decides gone key)

-- In the store without the owner's account, the names are those that lead to another owner.
names_left :
    (o name : String) (s : PlatformState) (id : String) (u : UserRecord)
    → AccountsValid s
    → o ≢ id
    → get s.users_by_name name ≡ some id
    → get (delete_owner o s).users_by_name name ≡ some id
unfolding delete_owner
names_left o name s id u valid other named = elim (Option-cases (get s.users o)) [
  | inl absent ↦ rw (absent, delete_owner) named
  | inr (account, stored) ↦
      rw (stored, delete_owner)
        ((pop-split s.users_by_name account.username_normalized name id).1
          (λ same. ground (arith, same, (valid.stored o account stored).1, named, other), named))
]

names_before :
    (o name : String) (s : PlatformState) (id : String)
    → get (delete_owner o s).users_by_name name ≡ some id
    → get s.users_by_name name ≡ some id
unfolding delete_owner
names_before o name s id named = elim (Option-cases (get s.users o)) [
  | inl absent ↦ ground (arith, absent, named)
  | inr (account, stored) ↦
      let named' : get (pop s.users_by_name account.username_normalized) name ≡ some id =
        ground (arith, stored, named) in
      ((pop-split s.users_by_name account.username_normalized name id).0 named').1
]

-- In a store whose sessions stand under their ids and whose user names and users match, `delete_owner`
-- leaves every session, account, user and owner record that is not the owner's as it is, found by the same
-- id or name, and none of the owner's; every conversation, message, run, run event, grant, request and guest
-- counter, the owner's too, stays as it was; and the user names and users match still.
pub delete_owner-Erases :
    (o : String) (s : PlatformState)
    → SessionsKeyed s.sessions
    → AccountsValid s
    → Erases o s (delete_owner o s) × AccountsValid (delete_owner o s)
unfolding delete_owner
delete_owner-Erases o s keyed valid = (
  record {
    sessions = λ k v.
        let split = dropped-split o (get s.sessions k) v in
        let left = get-pop_each _ (owned_by o) s.sessions s.sessions k keyed in
        (λ found. split.0 (sym left ∙ found), λ kept. left ∙ split.1 kept);
    accounts = λ name u. (
      λ found.
          let (id, named, stored) = (found-split name u (delete_owner o s)).0 found in
          let (other, stored_before) = (pop-split s.users o id u).0 stored in
          let named_before = names_before o name s id named in
          (
            (found-split name u s).1 (id, named_before, stored_before),
            λ same. other (sym same ∙ (valid.stored id u stored_before).0),
          ),
      λ (found, other).
          let (id, named, stored) = (found-split name u s).0 found in
          let other_id : o ≢ id = λ same. other ((valid.stored id u stored).0 ∙ sym same) in
          (found-split name u (delete_owner o s)).1 (
            id,
            names_left o name s id u valid other_id named,
            (pop-split s.users o id u).1 (other_id, stored),
          ),
    );
    owners = λ k. get-pop s.owners o k;
    users = λ k. get-pop s.users o k;
    conversations = refl;
    messages = refl;
    runs = refl;
    run_events = refl;
    grants = refl;
    requests = refl;
    guest_creates = refl;
  },
  delete_owner-AccountsValid o s valid,
)
