-- ===== src/Approval/Tests.antt =====
-- Runs of the approval service of src/tools/approval.py, and the theorems at them.
use ven_agent.Prelude.{◌≡◌, refl, ◌⊎◌, true, false, none, some, List, [], ◌∷◌, text_has_eq, ok, err}
use mathlib.Core.Option
use ven_agent.Prelude.Dict.{get, put}
use ven_agent.Approval.{
  ApprovalItem, ApprovalService, CallIdentity, new_item, approval_expired, find_or_create, create,
  store_item, resolve, find_item, put_item, decide_detailed, decide, cancel_each, cancel_by_run,
  resolve_identity, list_by_run, resolve_pending,
}
use ven_agent.Approval.Deciding.{answered}
use ven_agent.Approval.Cancelling.{IsFiled, after_cancel, get-cancel_by_run}
use ven_agent.Approval.Repeating.{find_or_create-find_or_create}
use ven_agent.Approval.History.{ApprovalCall, ask, answer, withdraw, serve, serve_all}
use ven_agent.Approval.History.Consent.{HasConsent, approved-HasConsent}
use ven_agent.Approval.History.Final.{Evolves, decision_is_final}

abbrev empty : ApprovalService
empty = record { items = []; ttl = 300 }

abbrev mail : CallIdentity
mail = record {
  run_id = "r1";
  owner_id = "alice";
  operation_id = "o1";
  tool_id = "mail.send";
  tool_call_id = "tc1";
}

approvals : Unit {0}
unfolding get put find_or_create create store_item resolve resolve_pending find_item put_item
    decide_detailed decide cancel_each cancel_by_run resolve_identity list_by_run serve serve_all
approvals = tt

abbrev asked : ApprovalService
asked = serve (ask mail "sends mail" 10) empty

abbrev script : List ApprovalCall
script =
    ask mail "sends mail" 10
    ∷ answer "ap-r1-o1" "bob" true none 15
    ∷ answer "ap-r1-o1" "alice" true none 20
    ∷ withdraw "r1" "alice" 30
    ∷ []

abbrev mail_item : ApprovalItem
mail_item = new_item mail "sends mail" 10 300

abbrev mail_approved : ApprovalItem
mail_approved = answered mail_item true none 20

script_ends : get (serve_all script empty).items "ap-r1-o1" ≡ some mail_approved
unfolding approvals
script_ends = refl

-- Another owner, a second decision that differs, and one after the expiry.
refused :
    ((decide "ap-r1-o1" "bob" true none 15 asked).0 ≡ err approval_expired)
    × ((decide_detailed "ap-r1-o1" "alice" false none 40 (serve_all script empty)).0
        ≡ ok (mail_approved, false, true))
    × ((decide "ap-r1-o1" "alice" true none 400 asked).0 ≡ err approval_expired)
unfolding approvals
refused = (refl, refl, refl)

found_again :
    (resolve_identity "ap-r1-o1" mail asked ≡ some mail_item)
    × (resolve_pending "r1" "tc1" asked ≡ some mail_item)
    × (resolve_pending "r1" "tc1" (serve_all script empty) ≡ none)
    × (list_by_run "r1" asked ≡ mail_item ∷ [])
unfolding approvals
found_again = (refl, refl, refl, refl)

asked-IsFiled : IsFiled asked.items
unfolding approvals
asked-IsFiled = (refl, refl, tt)

approved-HasConsent_example :
    (get empty.items "ap-r1-o1" ≡ some mail_approved) ⊎ HasConsent script "ap-r1-o1" mail_approved
approved-HasConsent_example =
    approved-HasConsent script empty "ap-r1-o1" mail_approved tt script_ends refl

abbrev late_calls : List ApprovalCall
late_calls = answer "ap-r1-o1" "alice" false (some "no") 40 ∷ withdraw "r1" "alice" 50 ∷ []

abbrev mail_rejected : ApprovalItem
mail_rejected = answered mail_item false (some "no") 40

decision_is_final_example :
    (b : ApprovalItem) × (get (serve_all late_calls asked).items "ap-r1-o1" ≡ some b)
    × Evolves mail_item b
unfolding approvals
decision_is_final_example =
    decision_is_final late_calls asked "ap-r1-o1" mail_item asked-IsFiled (tt, (tt, tt)) refl

get-cancel_by_run_example :
    get (cancel_by_run "r1" "alice" 30 asked).1.items "ap-r1-o1"
    ≡ Option.map (after_cancel "r1" "alice" 30) (get asked.items "ap-r1-o1")
get-cancel_by_run_example = get-cancel_by_run asked "r1" "alice" 30 "ap-r1-o1" asked-IsFiled

find_or_create-find_or_create_example :
    find_or_create
      (record mail { operation_id = "o2" })
      "again"
      60
      (find_or_create mail "sends mail" 10 empty).1
    ≡ find_or_create mail "sends mail" 10 empty
find_or_create-find_or_create_example =
    find_or_create-find_or_create mail "o2" "sends mail" "again" 10 60 empty
