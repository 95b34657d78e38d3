-- ===== src/Platform/Tests.antt =====
-- A conversation of one guest, a worker that claims its run, and the theorems at these states.
use ven_agent.Prelude.{
  ◌≤◌, ◌≡◌, refl, ◌⊎◌, true, Option, none, some, String, List, [], ◌∷◌, arith, ok, err, text_has_eq,
  Occurs,
}
use ven_agent.Prelude.Dict.{get, put, pop, values}
use ven_agent.Ownership.{Actor, guest, temporary, active}
use ven_agent.Conversation.{Conversation, auto, user}
use ven_agent.Run.{AgentRun, RunStatus, queued, succeeded}
use ven_agent.Platform.{PlatformState, conversation_busy}
use ven_agent.Platform.Conversations.{
  require_conversation, require_active_owner_if_known, owner_is_deleting, max_sequence,
  next_sequence,
}
use ven_agent.Platform.Claims.{
  store_run, find_run, find_owned_run, is_stale, require_current_claim, is_leased, count_at, tally,
  is_candidate, sorts_before, insert_run, sort_runs, candidates, claimed, next_claim, claim_next,
  heartbeat,
}
use ven_agent.Platform.Runs.{
  RunCreation, create_run, start_run, new_run, new_grant, queued_run, require_no_active_run,
  has_active_run, creation, replay_create,
}
use ven_agent.Platform.Finish.{
  succeed_run, finalize, require_available, output_message, needs_title, success_title, finished,
}
use ven_agent.Platform.Trace.{
  Call, claim, create, succeed, beat, perform, perform_all, all_removed_ids, UsesNewIds,
}
use ven_agent.Platform.Trace.Reach.{perform_all-RunsValid}
use ven_agent.Platform.Trace.Fencing.{
  WritesNothing, lost_claim-WritesNothing, attempt_has_one_token, terminal_is_final,
}
use ven_agent.Platform.Claims.Choice.{IsClaimOf, claim_next-some, claim_next-none}
use ven_agent.Platform.Claims.Tally.{leased_count}
use ven_agent.Platform.Machine.Repeats.{create_run-once}
use ven_agent.Platform.Machine.Invariant.{RunsValid, RunsValid-nil}

abbrev alice : Actor
alice = record {
  owner_id = "alice";
  kind = guest;
  session_id = "s1";
  username = none;
  mode = temporary;
}

abbrev talk : Conversation
talk = record {
  conversation_id = "c1";
  owner_id = "alice";
  owner_kind = guest;
  lifecycle_state = active;
  title = "new";
  title_source = auto;
  created_at = 0;
  updated_at = 0;
  last_successful_at = none;
}

abbrev start : PlatformState
start = record {
  owners = [];
  users = [];
  users_by_name = [];
  sessions = [];
  conversations = ("c1", talk) ∷ [];
  messages = [];
  runs = [];
  run_events = [];
  grants = [];
  requests = [];
  guest_creates = [];
}

-- The run methods, opened.
methods : Unit {0}
unfolding get put pop store_run find_run find_owned_run is_stale require_current_claim is_leased
    count_at tally is_candidate sorts_before insert_run sort_runs candidates claimed next_claim
    claim_next heartbeat create_run start_run new_run new_grant queued_run require_no_active_run
    has_active_run creation replay_create succeed_run finalize require_available output_message
    needs_title success_title require_conversation require_active_owner_if_known owner_is_deleting
    max_sequence next_sequence perform perform_all
methods = tt

abbrev ask : Call
ask = create alice "c1" "hello there" "q1" 10 "m1" "r1" "g1"

abbrev ask_again : Call
ask_again = create alice "c1" "and now" "q2" 50 "m3" "r2" "g2"

abbrev script : List Call
script =
    ask
    ∷ claim "w1" 20 30 "t1"
    ∷ beat "r1" "w1" "t1" 1 25 30
    ∷ succeed "r1" "t1" 1 "hi" 40 [] "m2"
    ∷ ask_again
    ∷ []

abbrev status_of : PlatformState → String → Option RunStatus
status_of s id = elim (get s.runs id) [ none ↦ none | some run ↦ some run.status ]

script_ends :
    (status_of (perform_all script start) "r1" ≡ some succeeded)
    × (status_of (perform_all script start) "r2" ≡ some queued)
unfolding methods
script_ends = (refl, refl)

-- A second question waits for the first.
busy_conversation :
    (create_run alice "c1" "and now" "q2" 11 "m3" "r2" "g2" (perform ask start)).0
    ≡ err conversation_busy
unfolding methods
busy_conversation = refl

script_ids : UsesNewIds script start
unfolding methods
script_ids = ((refl, tt), (tt, (tt, (tt, ((refl, tt), tt)))))

start-RunsValid : RunsValid start.runs
start-RunsValid = RunsValid-nil

perform_all-RunsValid_example : RunsValid (perform_all script start).runs
perform_all-RunsValid_example = perform_all-RunsValid script start start-RunsValid script_ids

-- The lease of the first worker ends, and a second worker takes the run.
abbrev retaken : PlatformState
retaken = perform_all (ask ∷ claim "w1" 20 30 "t1" ∷ claim "w2" 60 30 "t2" ∷ []) start

abbrev first_claim : AgentRun
first_claim = claimed (queued_run alice "c1" "m1" 10 none "r1" "g1") "w1" "t1" 20 30

abbrev second_claim : AgentRun
second_claim = claimed first_claim "w2" "t2" 60 30

retaken-RunsValid : RunsValid retaken.runs
retaken-RunsValid =
    perform_all-RunsValid (ask ∷ claim "w1" 20 30 "t1" ∷ claim "w2" 60 30 "t2" ∷ []) start
      start-RunsValid (unfold methods in ((refl, tt), (tt, (tt, tt))))

retaken_run : get retaken.runs "r1" ≡ some second_claim
unfolding methods
retaken_run = refl

abbrev late : List Call
late = beat "r1" "w1" "t1" 1 61 30 ∷ succeed "r1" "t1" 1 "too late" 62 [] "m2" ∷ []

late_ids : UsesNewIds late retaken
late_ids = (tt, (tt, tt))

-- The first worker's token and attempt write nothing.
lost_claim-WritesNothing_example : WritesNothing "r1" "w1" "t1" 1 (perform_all late retaken)
lost_claim-WritesNothing_example =
    lost_claim-WritesNothing late retaken "r1" second_claim retaken-RunsValid late_ids (λ m. m)
      retaken_run "w1" "t1" 1 (unfold methods in omega arith)

late_accepts :
    require_current_claim "r1" "t2" 2 (some "w2") (perform_all late retaken)
    ≡ (ok second_claim, perform_all late retaken)
unfolding methods
late_accepts = refl

attempt_has_one_token_example : second_claim.claim_token ≡ some "t2"
unfolding methods
attempt_has_one_token_example =
    attempt_has_one_token late retaken "r1" second_claim retaken-RunsValid late_ids (λ m. m)
      retaken_run "t2" (some "w2") second_claim refl late_accepts

-- Once `r1` has succeeded, a question after it leaves it as it is.
abbrev answered : PlatformState
answered =
    perform_all (ask ∷ claim "w1" 20 30 "t1" ∷ succeed "r1" "t1" 1 "hi" 40 [] "m2" ∷ []) start

abbrev answered_run : AgentRun
answered_run = finished first_claim "m2" 40

answered-RunsValid : RunsValid answered.runs
answered-RunsValid =
    perform_all-RunsValid (ask ∷ claim "w1" 20 30 "t1" ∷ succeed "r1" "t1" 1 "hi" 40 [] "m2" ∷ [])
      start start-RunsValid (unfold methods in ((refl, tt), (tt, (tt, tt))))

answered_here : get answered.runs "r1" ≡ some answered_run
unfolding methods
answered_here = refl

terminal_is_final_example :
    ((get (perform_all late answered).runs "r1" ≡ none)
      × Occurs answered_run.conversation_id (all_removed_ids late))
    ⊎ ((b : AgentRun) × (get (perform_all late answered).runs "r1" ≡ some b)
        × (b.status ≡ answered_run.status)
        × (b.completed_at ≡ answered_run.completed_at)
        × (b.output_message_id ≡ answered_run.output_message_id)
        × (b.conversation_id ≡ answered_run.conversation_id)
        × (b.owner_id ≡ answered_run.owner_id))
terminal_is_final_example =
    terminal_is_final late answered "r1" answered_run answered-RunsValid (tt, (tt, tt)) (λ m. m)
      answered_here refl

abbrev asked : PlatformState
asked = perform ask start

asked_claim : (claim_next "w1" 20 30 "t1" asked).0 ≡ ok (some first_claim)
unfolding methods
asked_claim = refl

asked-RunsValid : RunsValid asked.runs
asked-RunsValid =
    unfold perform_all in
    perform_all-RunsValid (ask ∷ []) start start-RunsValid (unfold methods in ((refl, tt), tt))

claim_next-some_example :
    (before : AgentRun) × IsClaimOf asked
      (claim_next "w1" 20 30 "t1" asked).1
      "w1"
      "t1"
      20
      30
      before
      first_claim
claim_next-some_example =
    claim_next-some "w1" 20 30 "t1" asked first_claim asked-RunsValid.keyed asked_claim

-- While the lease of `r1` is live there is nothing to claim.
abbrev busy : PlatformState
busy = (claim_next "w1" 20 30 "t1" asked).1

busy_claim : (claim_next "w2" 30 30 "t2" busy).0 ≡ ok none
unfolding methods
busy_claim = refl

claim_next-none_example :
    ((claim_next "w2" 30 30 "t2" busy).1 ≡ busy)
    × ((b : AgentRun)
        → Occurs b (values busy.runs)
        → is_candidate 30 b ≡ true
        → 2 ≤ leased_count 30 b.owner_id (values busy.runs))
claim_next-none_example = claim_next-none "w2" 30 30 "t2" busy busy_claim

abbrev first_creation : RunCreation
first_creation = record {
  run = queued_run alice "c1" "m1" 10 none "r1" "g1";
  input_message = record {
    message_id = "m1";
    conversation_id = "c1";
    owner_id = "alice";
    role = user;
    content = "hello there";
    sequence = 1;
    created_at = 10;
    client_request_id = some "q1";
    source_run_id = none;
    reply_to_message_id = none;
    content_blocks = [];
  };
}

create_run-once_example :
    create_run alice "c1" "hello there" "q1" 12 "m3" "r2" "g2"
      (create_run alice "c1" "hello there" "q1" 10 "m1" "r1" "g1" start).1
    ≡ (ok first_creation, (create_run alice "c1" "hello there" "q1" 10 "m1" "r1" "g1" start).1)
unfolding methods
create_run-once_example =
    create_run-once alice "c1" "hello there" "q1" 10 "m1" "r1" "g1" start first_creation alice
      "hello there" 12 "m3" "r2" "g2" refl refl refl
