-- ===== src/Platform/Owners/Authorization.antt =====
-- What the deletion of an owner means for its runs, src/repo/inmemory/runs.py `authorize_run`.
use ven_agent.Prelude.{
  ℕ, ◌≡◌, refl, sym, ap, ◌∙◌, inl, inr, arith, true, false, some, String, List, text_has_eq,
  Option-cases, err,
}
use ven_agent.Prelude.Dict.{get}
use ven_agent.Ownership.{OwnerRecord, RunGrant}
use ven_agent.Run.{AgentRun}
use ven_agent.Platform.{PlatformState, run_authorization_invalid}
use ven_agent.Platform.Retry.{authorize_run, grant_forbids}
use ven_agent.Platform.Owners.{is_open, mark_owner_deleting}
use ven_agent.Platform.Owners.Calls.{OwnerCall, serve_all, AllMakeOther}
use ven_agent.Platform.Owners.Sessions.{SessionsKeyed}
use ven_agent.Platform.Owners.Marking.{marked_owner-IsClosed}

closed-grant_forbids :
    (run : AgentRun) (now : ℕ) (owner : OwnerRecord) (grant : RunGrant)
    → is_open (some owner) ≡ false
    → grant_forbids run now (some owner) grant ≡ true
unfolding grant_forbids
closed-grant_forbids run now owner grant closed = ground arith

closed-authorize_run :
    (s : PlatformState) (run_id : String) (now : ℕ) (run : AgentRun) (owner : OwnerRecord)
    → get s.runs run_id ≡ some run
    → get s.owners run.owner_id ≡ some owner
    → is_open (some owner) ≡ false
    → authorize_run s run_id now ≡ err run_authorization_invalid
unfolding authorize_run
closed-authorize_run s run_id now run owner run_found stored closed =
    elim (Option-cases (get s.grants run.grant_id)) [
      | inl absent ↦ rw (run_found, authorize_run, absent) refl
      | inr (grant, held) ↦
          rw
            (
              run_found,
              authorize_run,
              held,
              stored,
              closed-grant_forbids run now owner grant closed,
            )
            refl
    ]

-- After `mark_owner_deleting` on a stored owner, in a store whose sessions stand under their ids, and any
-- further calls of the ownership methods that make other owner ids, `authorize_run` refuses every run of
-- the owner, whatever its grant, while the owner's record is still stored.
pub marked_owner-authorize_run :
    (o : String) (now : ℕ) (s : PlatformState) (owner : OwnerRecord) (cs : List OwnerCall)
    (run_id : String) (later : ℕ) (run : AgentRun) (kept : OwnerRecord)
    → SessionsKeyed s.sessions
    → get s.owners o ≡ some owner
    → AllMakeOther o cs
    → get (serve_all cs (mark_owner_deleting o now s).1).runs run_id ≡ some run
    → run.owner_id ≡ o
    → get (serve_all cs (mark_owner_deleting o now s).1).owners o ≡ some kept
    → authorize_run (serve_all cs (mark_owner_deleting o now s).1) run_id later
      ≡ err run_authorization_invalid
marked_owner-authorize_run o now s owner cs run_id later run kept keyed found other run_found owned
      stored =
    closed-authorize_run _ run_id later run kept run_found (ap (get _) owned ∙ stored)
      (ap is_open (sym stored) ∙ (marked_owner-IsClosed o now s owner cs keyed found other).closed)
