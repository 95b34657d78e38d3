-- ===== src/Platform/Machine/Endings.antt =====
-- `claim_next`, `succeed_run` and `mark_conversation_deleting` take steps of the abstract machine.
use ven_agent.Prelude.{
  ℕ, ◌≡◌, refl, ◌⊎◌, inl, inr, none, some, String, ok, ◌==◌, ◌++◌, text_has_eq, option_eq, pair_eq,
  Bool-cases, Option-cases, List, [], ◌∷◌, if◌then◌else◌, first,
}
use ven_agent.Prelude.Dict.{Dict, get, put, values, IsKeyed, get-name}
use ven_agent.Ownership.{is_active}
use ven_agent.Conversation.{Conversation, ConversationMessage, automatic_title}
use ven_agent.Run.{AgentRun, status_eq, succeeded}
use ven_agent.Platform.{PlatformState, list_at, invalid_run_transition, stop_iteration}
use ven_agent.Platform.Claims.{claim_next, next_claim, is_some}
use ven_agent.Platform.Claims.Order.{next_claim-some}
use ven_agent.Platform.Conversations.{
  mark_conversation_deleting, stop_runs, stops, request_stop, get_conversation, next_sequence,
}
use ven_agent.Platform.Finish.{
  succeed_run, finalize, require_available, output_message, success_title, finished, answer_message,
  answers, needs_title,
}
use ven_agent.Platform.Machine.{Scope, Moves, Steps, stay, next, mapped}
use ven_agent.Platform.Machine.Writes.{claimed-Moves, finished-Moves, stopped-Moves, Moves-refl}
use ven_agent.Platform.Machine.Guards.{
  Refuses, find_run_cases, require_current_claim_cases, is_stale_lem,
}
use ven_agent.Platform.Machine.Methods.{TakesSteps, one_move}

abbrev run_name : AgentRun → String
run_name run = run.run_id

-- A claim takes a step where the runs stand under their own ids.
pub claim_next-Steps :
    {scope : Scope} (worker : String) (now lease : ℕ) (token : String) (s : PlatformState)
    → IsKeyed run_name s.runs
    → Steps scope s.runs (claim_next worker now lease token s).1.runs
unfolding claim_next
claim_next-Steps worker now lease token s keyed =
    elim (Option-cases (next_claim now (values s.runs))) [
      | inl none_left ↦ rw (none_left, claim_next) stay
      | inr (run, taken) ↦
          let chosen = next_claim-some now (values s.runs) run taken in
          rw (taken, claim_next)
            (one_move run.run_id run _ (get-name run_name s.runs run keyed chosen.0)
              (claimed-Moves run worker token now lease chosen.1))
    ]

require_available_cases :
    (id : String) (s : PlatformState)
    → Refuses (require_available id) s ⊎ ((c : Conversation) × (require_available id s ≡ (ok c, s)))
unfolding require_available
require_available_cases id s = elim (Option-cases (get s.conversations id)) [
  | inl e ↦ inl (invalid_run_transition, rw (e, require_available))
  | inr (c, e) ↦ elim (Bool-cases (is_active c.lifecycle_state)) [
    | inl a ↦ inr (c, rw (e, require_available, a))
    | inr a ↦ inl (invalid_run_transition, rw (e, require_available, a))
  ]
]

-- The answer is written to the messages only.
output_message_cases :
    (id : String) (run : AgentRun) (answer : String) (blocks : List (List (String × String)))
    (now : ℕ) (uuid : String) (s : PlatformState)
    → (m : ConversationMessage) × (t : PlatformState) × (output_message id run answer blocks now
          uuid s
        ≡ (ok m, t))
      × (t.runs ≡ s.runs)
unfolding output_message
output_message_cases id run answer blocks now uuid s =
    elim (Option-cases (first (answers id run) (list_at s.messages run.conversation_id))) [
      | inl e ↦
          let output =
            answer_message id run answer blocks (next_sequence s run.conversation_id) now uuid in
          let items = list_at s.messages run.conversation_id in
          (
            output,
            record s { messages = put s.messages run.conversation_id (items ++ output ∷ []) },
            rw (e, output_message),
            refl,
          )
      | inr (m, e) ↦ (m, s, rw (e, output_message), refl)
    ]

success_title_cases :
    (run : AgentRun) (c : Conversation) (m : ConversationMessage) (s : PlatformState)
    → Refuses (success_title run c m) s
      ⊎ ((title : String) × (success_title run c m s ≡ (ok title, s)))
unfolding success_title
success_title_cases run c m s =
    let items = list_at s.messages run.conversation_id in
    elim (Bool-cases (needs_title c m items)) [
      | inl wanted ↦
          elim (Option-cases (first (λ item. item.message_id == run.input_message_id) items)) [
            | inl e ↦ inl (stop_iteration, rw (wanted, e, success_title))
            | inr (source, e) ↦ inr (automatic_title source.content, rw (wanted, e, success_title))
          ]
      | inr kept ↦ inr (c.title, rw (kept, success_title))
    ]

finalize-Steps :
    {scope : Scope} (id : String) (run : AgentRun) (answer : String)
    (blocks : List (List (String × String))) (now : ℕ) (uuid : String) (s : PlatformState)
    → get s.runs id ≡ some run
    → ((message_id : String) → Moves run (finished run message_id now))
    → Steps scope s.runs (finalize id run answer blocks now uuid s).1.runs
unfolding finalize
finalize-Steps id run answer blocks now uuid s g m =
    elim (Bool-cases (is_some run.cancel_requested_at)) [
      | inl stopped ↦ rw stopped stay
      | inr goes_on ↦ elim (require_available_cases run.conversation_id s) [
        | inl (e, q) ↦ rw (goes_on, q) stay
        | inr (c, q) ↦
            let (o, t, q', kept) = output_message_cases id run answer blocks now uuid s in
            elim (success_title_cases run c o t) [
              | inl (e, r) ↦ rw (goes_on, q, q', r, kept) stay
              | inr (title, r) ↦ rw (goes_on, q, q', r, kept) (one_move id run _ g (m o.message_id))
            ]
      ]
    ]

pub succeed_run-TakesSteps :
    (id token : String) (attempt : ℕ) (answer : String) (now : ℕ)
    (blocks : List (List (String × String))) (uuid : String)
    → TakesSteps (succeed_run id token attempt answer now blocks uuid)
unfolding succeed_run
succeed_run-TakesSteps id token attempt answer now blocks uuid scope s =
    elim (find_run_cases id s) [
      | inl (e, q) ↦ rw q stay
      | inr (existing, q, g, u) ↦ elim (Bool-cases (existing.status == succeeded)) [
        | inl f ↦ rw (q, f) stay
        | inr f ↦ elim (require_current_claim_cases id token attempt none s) [
          | inl (e, r) ↦ rw (q, f, r) stay
          | inr (run, r, g', h) ↦
              let held = is_stale_lem run token attempt none h in
              rw (q, f, r)
                (finalize-Steps id run answer blocks now uuid s g'
                  (λ message_id. finished-Moves run message_id now held.0))
        ]
      ]
    ]

stop_if-Moves :
    (conversation : String) (now : ℕ) (run : AgentRun)
    → Moves run (if stops conversation run then request_stop now run else run)
stop_if-Moves conversation now run = elim (Bool-cases (stops conversation run)) [
  | inl b ↦ rw b (stopped-Moves now run)
  | inr b ↦ rw b (Moves-refl run)
]

pub mark_conversation_deleting-TakesSteps :
    (owner id : String) (now : ℕ) → TakesSteps (mark_conversation_deleting owner id now)
unfolding mark_conversation_deleting stop_runs
mark_conversation_deleting-TakesSteps owner id now scope s =
    elim (Option-cases (get_conversation s owner id)) [
      | inl e ↦ rw (e, mark_conversation_deleting) stay
      | inr (c, e) ↦
          rw (e, mark_conversation_deleting) (next stay (mapped _ (stop_if-Moves id now) refl))
    ]

pub Steps-append :
    {scope : Scope} {d e f : Dict String AgentRun}
    → Steps scope d e
    → Steps scope e f
    → Steps scope d f
Steps-append p stay = p
Steps-append p (next q step) = next (Steps-append p q) step
