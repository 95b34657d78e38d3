-- ===== src/Platform/Owners/Tests.antt =====
-- Two accounts and a guest, and the theorems at this store.
use ven_agent.Prelude.{
  ◌≡◌, refl, Bool, true, Option, none, some, String, List, [], ◌∷◌, arith, ok, err, text_has_eq,
}
use ven_agent.Prelude.Dict.{get, put, pop}
use ven_agent.Prelude.DictLoops.{update_each}
use ven_agent.Ownership.{guest, user, deleting, UserRecord, SessionRecord, RefreshLookup}
use ven_agent.Ownership.{Actor, temporary}
use ven_agent.Platform.Runs.{queued_run}
use ven_agent.Platform.{PlatformState, username_taken, run_authorization_invalid}
use ven_agent.Platform.Retry.{authorize_run}
use ven_agent.Platform.Owners.{
  register_user, mark_owner_deleting, delete_owner, find_user_by_name, revoke_session,
  rotate_refresh, create_account_session, change_password, create_guest, find_refresh, find_among,
  new_owner, matches_previous,
}
use ven_agent.Platform.Owners.Calls.{
  OwnerCall, enter, rotate, register, sign_in, change, delete, serve, serve_all, AllMakeOther,
}
use ven_agent.Platform.Owners.Sessions.{SessionsKeyed}
use ven_agent.Platform.Owners.Closing.{IsClosed}
use ven_agent.Platform.Owners.Marking.{marked_owner-IsClosed}
use ven_agent.Platform.Owners.Authorization.{marked_owner-authorize_run}
use ven_agent.Platform.Owners.Index.{AccountsValid, serve_all-AccountsValid}
use ven_agent.Platform.Owners.Registration.{register_user-claims}
use ven_agent.Platform.Owners.Erasure.{Erases, delete_owner-Erases}

abbrev nobody : PlatformState
nobody = record {
  owners = [];
  users = [];
  users_by_name = [];
  sessions = [];
  conversations = [];
  messages = [];
  runs = [];
  run_events = [];
  grants = [];
  requests = [];
  guest_creates = [];
}

abbrev sign_ups : List OwnerCall
sign_ups =
    register "ann" "Ann" "p1" "h1" 90 none 1 "o1" "s1"
    ∷ register "bob" "Bob" "p2" "h2" 90 none 2 "o2" "s2"
    ∷ sign_in "o1" "h3" 90 (some "s1") 3 "s3"
    ∷ []

abbrev two_users : PlatformState
two_users = serve_all sign_ups nobody

nobody-AccountsValid : AccountsValid nobody
unfolding get
nobody-AccountsValid = record {
  named = λ name id at. absurd (ground arith);
  stored = λ id u at. absurd (ground arith);
}

two_users-AccountsValid : AccountsValid two_users
unfolding serve_all serve register_user create_account_session get put
two_users-AccountsValid =
    serve_all-AccountsValid sign_ups nobody nobody-AccountsValid (refl, (refl, (tt, tt)))

two_users-SessionsKeyed : SessionsKeyed two_users.sessions
unfolding serve_all serve register_user create_account_session get put revoke_session
two_users-SessionsKeyed = (refl, refl, (refl, refl, (refl, refl, tt)))

abbrev goodbye : List OwnerCall
goodbye =
    sign_in "o1" "h4" 90 none 5 "s4" ∷ rotate "s3" "h3" "h5" 60 ∷ enter guest "h6" 90 "o3" "s5" ∷ []

goodbye_ids : AllMakeOther "o1" goodbye
goodbye_ids = (tt, (tt, (λ same. absurd (ground (arith, text_has_eq.decides "o3" "o1", same)), tt)))

marked_owner-IsClosed_example :
    IsClosed "o1" (serve_all goodbye (mark_owner_deleting "o1" 4 two_users).1)
unfolding serve_all serve register_user create_account_session get put
marked_owner-IsClosed_example =
    marked_owner-IsClosed "o1" 4 two_users (new_owner "o1" user) goodbye two_users-SessionsKeyed
      refl goodbye_ids

abbrev ann : Actor
ann = record {
  owner_id = "o1";
  kind = user;
  session_id = "s3";
  username = some "ann";
  mode = temporary;
}

abbrev with_run : PlatformState
with_run = record two_users { runs = ("r1", queued_run ann "c1" "m1" 3 none "r1" "g1") ∷ [] }

marked_owner-authorize_run_example :
    authorize_run (serve_all goodbye (mark_owner_deleting "o1" 4 with_run).1) "r1" 7
    ≡ err run_authorization_invalid
unfolding serve_all serve register_user create_account_session get put revoke_session
    mark_owner_deleting rotate_refresh create_guest queued_run update_each
marked_owner-authorize_run_example =
    marked_owner-authorize_run "o1" 4 with_run (new_owner "o1" user) goodbye "r1" 7
      (queued_run ann "c1" "m1" 3 none "r1" "g1")
      (record { owner_id = "o1"; kind = user; lifecycle_state = deleting; authorization_epoch = 2 })
      two_users-SessionsKeyed refl goodbye_ids refl refl refl

abbrev farewell : List OwnerCall
farewell =
    change "o2" "s2" "p3" "h7" 50 8
    ∷ delete "o1"
    ∷ register "ann" "Ann" "p4" "h8" 90 none 9 "o4" "s6"
    ∷ []

serve_all-AccountsValid_example : AccountsValid (serve_all farewell two_users)
unfolding serve_all serve register_user create_account_session get put pop revoke_session
    delete_owner change_password update_each
serve_all-AccountsValid_example =
    serve_all-AccountsValid farewell two_users two_users-AccountsValid (tt, (tt, (refl, tt)))

register_user-claims_example :
    (u : UserRecord) × (v : SessionRecord) × ((register_user "cyd" "Cyd" "p5" "h9" 90 none 6 "o5"
        "s7" two_users).0
      ≡ ok (u, v))
    × (u.password_hash ≡ "p5")
    × (find_user_by_name "cyd" (register_user "cyd" "Cyd" "p5" "h9" 90 none 6 "o5" "s7" two_users).1
        ≡ some u)
    × (register_user "cyd" "C" "p6" "h10" 99 none 7 "o6" "s8"
          (register_user "cyd" "Cyd" "p5" "h9" 90 none 6 "o5" "s7" two_users).1
        ≡ (
          err username_taken,
          (register_user "cyd" "Cyd" "p5" "h9" 90 none 6 "o5" "s7" two_users).1,
        ))
unfolding serve_all serve register_user create_account_session get put
register_user-claims_example =
    register_user-claims "cyd" "Cyd" "p5" "h9" 90 none 6 "o5" "s7" two_users "C" "p6" "h10" 99 none
      7 "o6" "s8" refl

delete_owner-Erases_example :
    Erases "o1" two_users (delete_owner "o1" two_users)
    × AccountsValid (delete_owner "o1" two_users)
delete_owner-Erases_example =
    delete_owner-Erases "o1" two_users two_users-SessionsKeyed two_users-AccountsValid

abbrev matched_in : Option RefreshLookup → Option (String × Bool)
matched_in none = none
matched_in (some found) = some (found.session.session_id, found.matched_previous)

-- A refresh token that was just replaced is still found, within its grace period.
replaced_token :
    matched_in (find_refresh "h3" 30 (serve (rotate "s3" "h3" "h5" 60) two_users))
    ≡ some ("s3", true)
unfolding serve_all serve register_user create_account_session get put revoke_session rotate_refresh
    find_refresh find_among matches_previous
replaced_token = refl
