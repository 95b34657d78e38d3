-- ===== src/Approval/History.antt =====
-- Sequences of calls that ask for approval, answer and cancel, as the tool gateway, the HTTP routes
-- and the run's cancellation make them on the service of src/tools/approval.py.
pub mod Consent
pub mod Final
use ven_agent.Prelude.{
  ℕ, ◌≤◌, ◌≡◌, ◌≢◌, refl, sym, ap, subst, ◌∙◌, ◌⊎◌, inl, inr, Bool, true, false, Option, none, some,
  String, List, [], ◌∷◌, arith, text_has_eq, ◌==◌, if◌then◌else◌, Bool-cases, Option-cases, Occurs,
}
use ven_agent.Prelude.Dict.{Dict, get, put, values, put-IsKeyed, get-put, get-Occurs, get-name_eq}
use ven_agent.Approval.{
  ApprovalItem, ApprovalService, CallIdentity, approval_id_of, pending, find_or_create, create,
  store_item, new_item, resolve, decide_detailed, cancel_by_run,
}
use ven_agent.Approval.Deciding.{
  Outcome, unknown, not_owner, too_late, repeated, taken, decide_detailed-Outcome,
}
use ven_agent.Approval.Cancelling.{IsFiled, cancel_each-IsFiled}

pub data ApprovalCall : Type 0 where
  ask : (call : CallIdentity) (reason : String) (now : ℕ) → ApprovalCall
  request : (call : CallIdentity) (reason : String) (now : ℕ) → ApprovalCall
  answer : (id owner : String) (agreed : Bool) (reason : Option String) (now : ℕ) → ApprovalCall
  withdraw : (run owner : String) (now : ℕ) → ApprovalCall

unfoldable pub serve : ApprovalCall → ApprovalService → ApprovalService
serve (ask call reason now) s = (find_or_create call reason now s).1
serve (request call reason now) s = (create call reason now s).1
serve (answer id owner agreed reason now) s = (decide_detailed id owner agreed reason now s).1
serve (withdraw run owner now) s = (cancel_by_run run owner now s).1

unfoldable pub serve_all : List ApprovalCall → ApprovalService → ApprovalService
unfolding serve
serve_all [] s = s
serve_all (c ∷ cs) s = serve_all cs (serve c s)

-- The two ways of `find_or_create`.
pub find_or_create_cases :
    (call : CallIdentity) (reason : String) (now : ℕ) (s : ApprovalService)
    → ((find_or_create call reason now s).1 ≡ s)
      ⊎ ((resolve call.run_id call.tool_call_id s ≡ none)
          × ((find_or_create call reason now s).1.items
              ≡ put s.items
                  (approval_id_of call.run_id call.operation_id)
                  (new_item call reason now s.ttl)))
unfolding find_or_create create store_item
find_or_create_cases call reason now s =
    elim (Option-cases (resolve call.run_id call.tool_call_id s)) [
      | inl absent ↦ inr (absent, rw (absent, find_or_create))
      | inr (item, found) ↦ inl (rw (found, find_or_create))
    ]

pub serve-IsFiled :
    (c : ApprovalCall) (s : ApprovalService) → IsFiled s.items → IsFiled (serve c s).items
unfolding serve create store_item cancel_by_run
serve-IsFiled (ask call reason now) s h = elim (find_or_create_cases call reason now s) [
  | inl same ↦ rw same h
  | inr (absent, made) ↦ rw made (
      put-IsKeyed (λ i. i.approval_id) s.items (approval_id_of call.run_id call.operation_id)
        (new_item call reason now s.ttl) h refl)
]
serve-IsFiled (request call reason now) s h =
    put-IsKeyed (λ i. i.approval_id) s.items (approval_id_of call.run_id call.operation_id)
      (new_item call reason now s.ttl) h refl
serve-IsFiled (answer id owner agreed reason now) s h =
    elim (decide_detailed-Outcome s id owner agreed reason now) [
      | unknown e q ↦ rw (q, serve) h
      | not_owner item e o q ↦ rw (q, serve) h
      | too_late item e o p t q ↦ rw (q, serve) (filed item _ e refl)
      | repeated item e o p q ↦ rw (q, serve) h
      | taken item e o p t q ↦ rw (q, serve) (filed item _ e refl)
    ]
  where
    filed :
        (item b : ApprovalItem)
        → get s.items id ≡ some item
        → b.approval_id ≡ item.approval_id
        → IsFiled (put s.items id b)
    filed item b e q =
        put-IsKeyed (λ i. i.approval_id) s.items id b h
          (q ∙ get-name_eq (λ i. i.approval_id) s.items id item h e)
serve-IsFiled (withdraw run owner now) s h =
    cancel_each-IsFiled run owner now (values s.items) s.items h
