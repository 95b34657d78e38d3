-- ===== src/Platform/Claims.antt =====
-- src/repo/inmemory/runs.py: claims, leases, approvals and the ends of runs. A worker holds a run by
-- the claim token and the attempt number that `claim_next` gave it.
pub mod Order
pub mod Choice
pub mod Tally
use Prim.Native.String.{compare}
use text.Mathlib.Text.{is_lt}
use ven_agent.Prelude.{
  ℕ, ◌+◌, Bool, true, false, not, ◌&&◌, ◌||◌, Option, none, some, String, List, [], ◌∷◌, ◌==◌, ◌!=◌,
  text_has_eq, number_has_eq, option_eq, ok, raise_if, pure, or_raise, ◌>>=◌, ◌>>◌, if◌then◌else◌,
  ltb, leb, select, first,
}
use ven_agent.Prelude.Dict.{Dict, get, put, values}
use ven_agent.Run.{
  AgentRun, RunStatus, queued, running, waiting_approval, failed, cancelled, incompatible,
  status_eq, terminal,
}
use ven_agent.Platform.{Method, run_not_found, invalid_run_transition, or_else, text_or}

abbrev pub is_some : {A : Type 0} → Option A → Bool
is_some none = false
is_some (some a) = true

-- `self.state.runs[run_id] = run`, and the method returns the run.
unfoldable pub store_run : String → AgentRun → Method AgentRun
store_run run_id run s = (ok run, record s { runs = put s.runs run_id run })

unfoldable pub find_run : String → Method AgentRun
find_run run_id s = or_raise (get s.runs run_id) run_not_found s

-- `run is None or run.owner_id != owner_id`
unfoldable pub find_owned_run : String → String → Method AgentRun
unfolding find_run
find_owned_run owner_id run_id = do
  run ← find_run run_id
  raise_if (run.owner_id != owner_id) run_not_found
  pure run

-- The test of `_require_current_claim`; the worker is not compared where none is given.
unfoldable pub is_stale : AgentRun → String → ℕ → Option String → Bool
is_stale run claim_token execution_attempt worker_id =
    run.status != running
    || run.claim_token != some claim_token
    || run.execution_attempt != execution_attempt
    || elim worker_id [ none ↦ false | some w ↦ run.claimed_by != some w ]

unfoldable pub require_current_claim : String → String → ℕ → Option String → Method AgentRun
unfolding find_run
require_current_claim run_id claim_token execution_attempt worker_id = do
  run ← find_run run_id
  raise_if (is_stale run claim_token execution_attempt worker_id) invalid_run_transition
  pure run

-- A running run whose lease has not ended.
unfoldable pub is_leased : ℕ → AgentRun → Bool
is_leased now run =
    run.status == running && elim run.lease_expires_at [ none ↦ true | some t ↦ ltb now t ]

-- `owner_running`: how many leased runs each owner has.
unfoldable pub count_at : Dict String ℕ → String → ℕ
count_at d k = elim (get d k) [ none ↦ 0 | some n ↦ n ]

unfoldable pub tally : ℕ → Dict String ℕ → List AgentRun → Dict String ℕ
unfolding is_leased
tally now counts [] = counts
tally now counts (item ∷ items) =
    tally now
      (if is_leased now item
        then put counts item.owner_id (count_at counts item.owner_id + 1)
        else counts)
      items

-- A queued run, or a running one whose lease has ended.
unfoldable pub is_candidate : ℕ → AgentRun → Bool
is_candidate now run =
    run.status == queued
    || run.status == running && elim run.lease_expires_at [ none ↦ false | some t ↦ leb t now ]

-- `key=lambda item: (item.created_at, item.run_id)`: whether `a` sorts strictly before `b`.
unfoldable pub sorts_before : AgentRun → AgentRun → Bool
sorts_before a b =
    ltb a.created_at b.created_at
    || a.created_at == b.created_at && is_lt (compare a.run_id b.run_id)

-- Python's `sorted`: stable, by insertion from the right.
unfoldable pub insert_run : AgentRun → List AgentRun → List AgentRun
insert_run run [] = run ∷ []
insert_run run (r ∷ rs) = if sorts_before r run then r ∷ insert_run run rs else run ∷ r ∷ rs

unfoldable pub sort_runs : List AgentRun → List AgentRun
unfolding insert_run
sort_runs [] = []
sort_runs (r ∷ rs) = insert_run r (sort_runs rs)

unfoldable pub candidates : ℕ → List AgentRun → List AgentRun
candidates now runs = sort_runs (select (is_candidate now) runs)

-- What `claim_next` writes into the run that it takes.
unfoldable pub claimed : AgentRun → String → String → ℕ → ℕ → AgentRun
claimed run worker_id token now lease_duration = record run {
  status = running;
  started_at = some (or_else run.started_at now);
  updated_at = now;
  claimed_by = some worker_id;
  claim_token = some token;
  lease_expires_at = some (now + lease_duration);
  execution_attempt = run.execution_attempt + 1;
  phase = some (text_or run.phase "synthesizing");
}

-- The first candidate whose owner has fewer than two leased runs.
unfoldable pub next_claim : ℕ → List AgentRun → Option AgentRun
next_claim now runs =
    let owner_running = tally now [] runs in
    first (λ run. not (leb 2 (count_at owner_running run.owner_id))) (candidates now runs)

-- `token` is the `uuid4` of the claim.
unfoldable pub claim_next : String → ℕ → ℕ → String → Method (Option AgentRun)
claim_next worker_id now lease_duration token s = elim (next_claim now (values s.runs)) [
  | none ↦ (ok none, s)
  | some run ↦
      let taken = claimed run worker_id token now lease_duration in
      (ok (some taken), record s { runs = put s.runs run.run_id taken })
]

unfoldable pub heartbeat : String → String → String → ℕ → ℕ → ℕ → Method AgentRun
unfolding store_run
heartbeat run_id worker_id claim_token execution_attempt now lease_duration = do
  run ← require_current_claim run_id claim_token execution_attempt (some worker_id)
  store_run run_id (record run { updated_at = now; lease_expires_at = some (now + lease_duration) })

unfoldable pub request_cancel : String → String → ℕ → Method AgentRun
unfolding store_run terminal
request_cancel owner_id run_id now = do
  run ← find_owned_run owner_id run_id
  if terminal run || is_some run.cancel_requested_at
      then pure run
      else store_run run_id (record run { cancel_requested_at = some now; updated_at = now })

unfoldable pub wait_approval_run : String → String → ℕ → ℕ → Method AgentRun
unfolding store_run
wait_approval_run run_id claim_token execution_attempt now = do
  run ← require_current_claim run_id claim_token execution_attempt none
  store_run run_id (record run {
    status = waiting_approval;
    updated_at = now;
    phase = some "awaiting_approval";
    claimed_by = none;
    claim_token = none;
    lease_expires_at = none;
  })

unfoldable pub resume_run : String → ℕ → Method AgentRun
unfolding store_run
resume_run run_id now = do
  run ← find_run run_id
  raise_if (run.status != waiting_approval) invalid_run_transition
  store_run run_id (record run { status = queued; updated_at = now; phase = some "synthesizing" })

-- The fields that every end of a run writes.
abbrev pub ended : RunStatus → Option String → Option String → ℕ → AgentRun → AgentRun
ended status reason_code message now run = record run {
  status = status;
  completed_at = some now;
  updated_at = now;
  terminal_reason_code = reason_code;
  terminal_message = message;
  claimed_by = none;
  claim_token = none;
  lease_expires_at = none;
}

unfoldable pub cancel_waiting_approval : String → String → ℕ → Method AgentRun
unfolding store_run
cancel_waiting_approval owner_id run_id now = do
  run ← find_owned_run owner_id run_id
  if run.status == cancelled then pure run else do
    raise_if (run.status != waiting_approval) invalid_run_transition
    store_run run_id (ended cancelled (some "user_cancelled") (some "运行已取消") now run)

unfoldable pub set_run_skill : String → String → Option String → Option String → ℕ → Method AgentRun
unfolding store_run
set_run_skill owner_id run_id skill_id skill_name now = do
  run ← find_owned_run owner_id run_id
  store_run run_id (record run {
    selected_skill_id = skill_id;
    selected_skill_name = skill_name;
    updated_at = now;
  })

unfoldable pub fail_run : String → String → ℕ → String → String → ℕ → Method AgentRun
unfolding store_run
fail_run run_id claim_token execution_attempt reason_code message now = do
  existing ← find_run run_id
  if existing.status == failed then pure existing else do
    run ← require_current_claim run_id claim_token execution_attempt none
    store_run run_id (ended failed (some reason_code) (some message) now run)

unfoldable pub cancel_run : String → String → String → ℕ → String → ℕ → Method AgentRun
unfolding store_run
cancel_run run_id worker_id claim_token execution_attempt reason_code now = do
  existing ← find_run run_id
  if existing.status == cancelled then pure existing else do
    run ← require_current_claim run_id claim_token execution_attempt (some worker_id)
    store_run run_id (ended cancelled (some reason_code) (some "运行已取消") now run)

unfoldable pub incompatible_run : String → String → ℕ → String → ℕ → Method AgentRun
unfolding store_run
incompatible_run run_id claim_token execution_attempt message now = do
  run ← require_current_claim run_id claim_token execution_attempt none
  store_run run_id (ended incompatible (some "runtime_contract_mismatch") (some message) now run)
