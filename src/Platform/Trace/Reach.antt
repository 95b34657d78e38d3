-- ===== src/Platform/Trace/Reach.antt =====
-- Every sequence of calls takes the runs by steps of the abstract machine, and keeps its invariant.
use ven_agent.Prelude.{
  ℕ, ◌≡◌, ◌==◌, ◌||◌, leb, length, refl, sym, subst, inl, inr, Bool-cases, Option-cases, String,
  List, [], ◌∷◌, ◌++◌, text_has_eq, Occurs,
}
use ven_agent.Prelude.Dict.{get, values}
use ven_agent.Ownership.{Actor, user, kind_eq, is_active}
use ven_agent.Platform.{PlatformState, list_at}
use ven_agent.Platform.Runs.{append_run_event}
use ven_agent.Platform.Conversations.{
  create_conversation, rename_conversation, get_conversation, owner_is_deleting, live_conversations,
  drop_old, require_active_owner_if_known, admit_guest,
}
use ven_agent.Platform.Machine.{Scope, Steps, stay}
use ven_agent.Platform.Machine.Methods.{
  heartbeat-TakesSteps, request_cancel-TakesSteps, wait_approval_run-TakesSteps,
  resume_run-TakesSteps, set_run_skill-TakesSteps, cancel_waiting_approval-TakesSteps,
  fail_run-TakesSteps, cancel_run-TakesSteps, incompatible_run-TakesSteps,
}
use ven_agent.Platform.Machine.Endings.{
  claim_next-Steps, succeed_run-TakesSteps, mark_conversation_deleting-TakesSteps, Steps-append,
}
use ven_agent.Platform.Machine.Removals.{remove_conversation-Steps}
use ven_agent.Platform.Machine.Requests.{create_run-Steps, retry_run-Steps}
use ven_agent.Platform.Machine.Invariant.{RunsValid, Steps-RunsValid}
use ven_agent.Platform.Trace.{
  Call, claim, beat, ask_cancel, wait, resume, refuse, choose_skill, succeed, fail, cancel, reject,
  create, retry, mark, remove, perform, perform_all, run_ids, all_run_ids, removed_ids,
  all_removed_ids, open_conversation, rename, append_event, IsUnused, UsesNewIds,
}

create_conversation_keeps :
    (actor : Actor) (now : ℕ) (uuid : String) (s : PlatformState)
    → (create_conversation actor now uuid s).1.runs ≡ s.runs
unfolding create_conversation require_active_owner_if_known admit_guest
create_conversation_keeps actor now uuid s =
    elim (Bool-cases (owner_is_deleting s actor.owner_id)) [
      | inl closed ↦ rw closed refl
      | inr active ↦ elim (Bool-cases (actor.kind == user)) [
        | inl known ↦ rw (active, known) refl
        | inr guest ↦
            let live = live_conversations actor.owner_id (values s.conversations) in
            let attempts = drop_old now (list_at s.guest_creates actor.owner_id) in
            elim (Bool-cases (leb 10 live || leb 5 (length attempts))) [
              | inl full ↦ rw (active, guest, full) refl
              | inr room ↦ rw (active, guest, room) refl
            ]
      ]
    ]

rename_conversation_keeps :
    (owner id title : String) (now : ℕ) (s : PlatformState)
    → (rename_conversation owner id title now s).1.runs ≡ s.runs
unfolding rename_conversation
rename_conversation_keeps owner id title now s = elim (Option-cases (get_conversation s owner id)) [
  | inl e ↦ rw (e, rename_conversation) refl
  | inr (c, e) ↦ elim (Bool-cases (is_active c.lifecycle_state)) [
    | inl active ↦ rw (e, rename_conversation, active) refl
    | inr closed ↦ rw (e, rename_conversation, closed) refl
  ]
]

append_run_event_keeps :
    (id type payload : String) (now : ℕ) (s : PlatformState)
    → (append_run_event id type payload now s).1.runs ≡ s.runs
unfolding append_run_event
append_run_event_keeps id type payload now s = elim (Option-cases (get s.runs id)) [
  | inl e ↦ rw (e, append_run_event) refl
  | inr (run, e) ↦ rw (e, append_run_event) refl
]

pub perform-Steps :
    {scope : Scope} (c : Call) (s : PlatformState)
    → RunsValid s.runs
    → ((id : String) → Occurs id (run_ids c) → scope.new id)
    → ((id : String) → Occurs id (removed_ids c) → scope.ended id)
    → IsUnused s (run_ids c)
    → Steps scope s.runs (perform c s).runs
unfolding perform
perform-Steps (claim worker now lease token) s v n m u =
    claim_next-Steps worker now lease token s v.keyed
perform-Steps {scope} (beat id worker token attempt now lease) s v n m u =
    heartbeat-TakesSteps id worker token attempt now lease scope s
perform-Steps {scope} (ask_cancel owner id now) s v n m u =
    request_cancel-TakesSteps owner id now scope s
perform-Steps {scope} (wait id token attempt now) s v n m u =
    wait_approval_run-TakesSteps id token attempt now scope s
perform-Steps {scope} (resume id now) s v n m u = resume_run-TakesSteps id now scope s
perform-Steps {scope} (refuse owner id now) s v n m u =
    cancel_waiting_approval-TakesSteps owner id now scope s
perform-Steps {scope} (choose_skill owner id skill name now) s v n m u =
    set_run_skill-TakesSteps owner id skill name now scope s
perform-Steps {scope} (succeed id token attempt answer now blocks uuid) s v n m u =
    succeed_run-TakesSteps id token attempt answer now blocks uuid scope s
perform-Steps {scope} (fail id token attempt reason message now) s v n m u =
    fail_run-TakesSteps id token attempt reason message now scope s
perform-Steps {scope} (cancel id worker token attempt reason now) s v n m u =
    cancel_run-TakesSteps id worker token attempt reason now scope s
perform-Steps {scope} (reject id token attempt message now) s v n m u =
    incompatible_run-TakesSteps id token attempt message now scope s
perform-Steps (create actor id message request now message_uuid run_uuid grant_uuid) s v n m u =
    create_run-Steps actor id message request now message_uuid run_uuid grant_uuid s
      (n run_uuid (inl refl)) u.0
perform-Steps (retry actor source request now run_uuid grant_uuid) s v n m u =
    retry_run-Steps actor source request now run_uuid grant_uuid s (n run_uuid (inl refl)) u.0
perform-Steps {scope} (mark owner id now) s v n m u =
    mark_conversation_deleting-TakesSteps owner id now scope s
perform-Steps (remove owner id) s v n m u =
    remove_conversation-Steps owner id s (m id (inl refl)) v.keyed
perform-Steps (open_conversation actor now uuid) s v n m u =
    subst (Steps _ s.runs) (sym (create_conversation_keeps actor now uuid s)) stay
perform-Steps (rename owner id title now) s v n m u =
    subst (Steps _ s.runs) (sym (rename_conversation_keeps owner id title now s)) stay
perform-Steps (append_event id type payload now) s v n m u =
    subst (Steps _ s.runs) (sym (append_run_event_keeps id type payload now s)) stay

Occurs-append_left : (a : String) (xs ys : List String) → Occurs a xs → Occurs a (xs ++ ys)
Occurs-append_left a [] ys m = elim m [ ]
Occurs-append_left a (x ∷ xs) ys (inl e) = inl e
Occurs-append_left a (x ∷ xs) ys (inr m) = inr (Occurs-append_left a xs ys m)

Occurs-append_right : (a : String) (xs ys : List String) → Occurs a ys → Occurs a (xs ++ ys)
Occurs-append_right a [] ys m = m
Occurs-append_right a (x ∷ xs) ys m = inr (Occurs-append_right a xs ys m)

pub perform_all-Steps :
    {scope : Scope} (cs : List Call) (s : PlatformState)
    → RunsValid s.runs
    → ((id : String) → Occurs id (all_run_ids cs) → scope.new id)
    → ((id : String) → Occurs id (all_removed_ids cs) → scope.ended id)
    → UsesNewIds cs s
    → Steps scope s.runs (perform_all cs s).runs
unfolding perform_all
perform_all-Steps [] s v n m u = stay
perform_all-Steps (c ∷ cs) s v n m u =
    let first =
      perform-Steps c s v (λ id k. n id (Occurs-append_left id (run_ids c) (all_run_ids cs) k))
        (λ id k. m id (Occurs-append_left id (removed_ids c) (all_removed_ids cs) k)) u.0 in
    Steps-append first (
      perform_all-Steps cs (perform c s) (Steps-RunsValid first v)
        (λ id k. n id (Occurs-append_right id (run_ids c) (all_run_ids cs) k))
        (λ id k. m id (Occurs-append_right id (removed_ids c) (all_removed_ids cs) k)) u.1)

-- After any calls that start from a valid store, whatever they return or raise, every run stands once
-- under its own id; worker, token and lease are there exactly while a run is running, the completion
-- time exactly once it is over, the output exactly when it succeeded; and no conversation has two runs
-- that are queued, running or waiting for an approval. The ids that `uuid4` makes are new.
pub perform_all-RunsValid :
    (cs : List Call) (s : PlatformState)
    → RunsValid s.runs
    → UsesNewIds cs s
    → RunsValid (perform_all cs s).runs
perform_all-RunsValid cs s v u =
    Steps-RunsValid
      (perform_all-Steps {scope = record { new = λ id. Unit; ended = λ id. Unit }} cs s v
        (λ id m. tt) (λ id m. tt) u)
      v
