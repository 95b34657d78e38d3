-- ===== src/Platform/Machine/Guards.antt =====
-- The reads that the methods of runs begin with: what they return, and that they write nothing.
use ven_agent.Prelude.{
  ℕ, ◌≡◌, ◌⊎◌, inl, inr, false, Option, some, String, arith, ok, err, ◌==◌, text_has_eq, Bool-cases,
  Option-cases, option_beq_iff,
}
use ven_agent.Prelude.Dict.{get}
use ven_agent.Run.{AgentRun, running, status_beq_iff}
use ven_agent.Platform.{PlatformState, PlatformError, Method, run_not_found, invalid_run_transition}
use ven_agent.Platform.Claims.{find_run, find_owned_run, require_current_claim, is_stale}

-- The call raised and wrote nothing.
abbrev pub Refuses : {A : Type 0} → Method A → PlatformState → Type 0
Refuses m s = (e : PlatformError) × (m s ≡ (err e, s))

-- The call returned the run of `id` and wrote nothing.
abbrev pub Returns : Method AgentRun → String → (AgentRun → Type 0) → PlatformState → Type 0
Returns m id P s = (run : AgentRun) × (m s ≡ (ok run, s)) × (get s.runs id ≡ some run) × P run

pub find_run_cases :
    (id : String) (s : PlatformState)
    → Refuses (find_run id) s ⊎ Returns (find_run id) id (λ run. Unit) s
unfolding find_run
find_run_cases id s = elim (Option-cases (get s.runs id)) [
  | inl e ↦ inl (run_not_found, rw e)
  | inr (run, e) ↦ inr (run, rw e, e, tt)
]

pub find_owned_run_cases :
    (owner id : String) (s : PlatformState)
    → Refuses (find_owned_run owner id) s
      ⊎ Returns (find_owned_run owner id) id (λ run. run.owner_id ≡ owner) s
unfolding find_owned_run
find_owned_run_cases owner id s = elim (find_run_cases id s) [
  | inl (e, q) ↦ inl (e, rw q)
  | inr (run, q, g, u) ↦ elim (Bool-cases (run.owner_id == owner)) [
    | inl o ↦ inr (run, rw (q, o), g, (text_has_eq.decides run.owner_id owner).0 o)
    | inr o ↦ inl (run_not_found, rw (q, o))
  ]
]

pub require_current_claim_cases :
    (id token : String) (attempt : ℕ) (worker : Option String) (s : PlatformState)
    → Refuses (require_current_claim id token attempt worker) s
      ⊎ Returns
          (require_current_claim id token attempt worker)
          id
          (λ run. is_stale run token attempt worker ≡ false)
          s
unfolding require_current_claim
require_current_claim_cases id token attempt worker s = elim (find_run_cases id s) [
  | inl (e, q) ↦ inl (e, rw q)
  | inr (run, q, g, u) ↦ elim (Bool-cases (is_stale run token attempt worker)) [
    | inl o ↦ inl (invalid_run_transition, rw (q, o))
    | inr o ↦ inr (run, rw (q, o), g, o)
  ]
]

-- A claim that is current is that of a running run, by its token and its attempt.
pub is_stale_lem :
    (run : AgentRun) (token : String) (attempt : ℕ) (worker : Option String)
    → is_stale run token attempt worker ≡ false
    → (run.status ≡ running) × (run.claim_token ≡ some token) × (run.execution_attempt ≡ attempt)
unfolding is_stale
is_stale_lem run token attempt worker h =
    ground (arith, status_beq_iff run.status running, option_beq_iff run.claim_token (some token))
