-- ===== src/Approval.antt =====
-- src/tools/approval.py: the approval items of tool calls that need a person's consent. Each method
-- holds the service's lock where it reads or writes the items.
pub mod Cancelling
pub mod Deciding
pub mod Repeating
pub mod History
mod Tests
use Prim.Native.String.{◌++◌}
use ven_agent.Prelude.{
  ℕ, ◌+◌, ◌≡◌, ◌↔◌, Bool, true, false, ◌&&◌, Option, none, some, String, List, [], ◌∷◌, arith,
  HasEq, ◌==◌, ◌!=◌, text_has_eq, Action, Result, raise, raise_if, pure, ok, err, or_raise, ◌>>=◌,
  ◌>>◌, if◌then◌else◌, ltb, select, last,
}
use ven_agent.Prelude.Dict.{Dict, get, put, values}

pub data ApprovalStatus : Type 0 where
  pending approved rejected expired cancelled : ApprovalStatus

abbrev pub approval_status_equals : ApprovalStatus → ApprovalStatus → Bool
approval_status_equals pending pending = true
approval_status_equals approved approved = true
approval_status_equals rejected rejected = true
approval_status_equals expired expired = true
approval_status_equals cancelled cancelled = true
approval_status_equals _ _ = false

pub approval_status_decides : (a b : ApprovalStatus) → (approval_status_equals a b ≡ true) ↔ (a ≡ b)
approval_status_decides a b = ground arith

instance abbrev pub approval_status_has_eq : HasEq ApprovalStatus
approval_status_has_eq = record {
  equals = approval_status_equals;
  decides = approval_status_decides;
}

pub record ApprovalItem : Type 0 where
  pub approval_id : String
  pub run_id : String
  pub owner_id : String
  pub operation_id : String
  pub tool_id : String
  pub tool_call_id : String
  pub risk : String
  pub reason : String
  pub created_at : ℕ
  pub expires_at : ℕ
  pub status : ApprovalStatus
  pub decided_at : Option ℕ
  pub rejected_reason : Option String

pub record ApprovalService : Type 0 where
  pub items : Dict String ApprovalItem
  pub ttl : ℕ

pub data ApprovalError : Type 0 where
  approval_expired : ApprovalError

abbrev pub Approving : Type 0 → Type 0
Approving A = Action ApprovalService ApprovalError A

abbrev pub approval_id_of : String → String → String
approval_id_of run_id operation_id = "ap-" ++ run_id ++ "-" ++ operation_id

-- The tool call that an item is about, as `create` is told.
pub record CallIdentity : Type 0 where
  pub run_id : String
  pub owner_id : String
  pub operation_id : String
  pub tool_id : String
  pub tool_call_id : String

-- The item that `create` makes.
abbrev pub new_item : CallIdentity → String → ℕ → ℕ → ApprovalItem
new_item call reason now ttl = record {
  approval_id = approval_id_of call.run_id call.operation_id;
  run_id = call.run_id;
  owner_id = call.owner_id;
  operation_id = call.operation_id;
  tool_id = call.tool_id;
  tool_call_id = call.tool_call_id;
  risk = "warn";
  reason = reason;
  created_at = now;
  expires_at = now + ttl;
  status = pending;
  decided_at = none;
  rejected_reason = none;
}

-- `self._items[item.approval_id] = item`, and the method returns the item.
unfoldable pub store_item : ApprovalItem → Approving ApprovalItem
store_item item s = (ok item, record s { items = put s.items item.approval_id item })

unfoldable pub create : CallIdentity → String → ℕ → Approving ApprovalItem
unfolding store_item
create call reason now s = store_item (new_item call reason now s.ttl) s

-- The items of a tool call of a run, in the order of the dict.
abbrev pub is_of_call : String → String → ApprovalItem → Bool
is_of_call run_id tool_call_id item = item.run_id == run_id && item.tool_call_id == tool_call_id

unfoldable pub resolve : String → String → ApprovalService → Option ApprovalItem
resolve run_id tool_call_id s = last (select (is_of_call run_id tool_call_id) (values s.items))

unfoldable pub resolve_pending : String → String → ApprovalService → Option ApprovalItem
resolve_pending run_id tool_call_id s = last (
    select (λ item. is_of_call run_id tool_call_id item && item.status == pending) (values s.items))

unfoldable pub find_or_create : CallIdentity → String → ℕ → Approving ApprovalItem
unfolding create resolve
find_or_create call reason now s = elim (resolve call.run_id call.tool_call_id s) [
  | some existing ↦ (ok existing, s)
  | none ↦ create call reason now s
]

unfoldable pub find_item : String → Approving ApprovalItem
find_item approval_id s = or_raise (get s.items approval_id) approval_expired s

-- `_copy_approval` with a status and the time of the decision.
abbrev pub with_decision : ApprovalItem → ApprovalStatus → ℕ → Option String → ApprovalItem
with_decision item status now rejected_reason = record item {
  status = status;
  decided_at = some now;
  rejected_reason = rejected_reason;
}

abbrev pub desired : Bool → ApprovalStatus
desired agreed = if agreed then approved else rejected

-- `self._items[approval_id] = item`
unfoldable pub put_item : String → ApprovalItem → Approving (Unit {0})
put_item approval_id item s = (ok tt, record s { items = put s.items approval_id item })

-- The item, whether this call changed it, and whether an earlier decision was another one.
unfoldable pub decide_detailed :
    String → String → Bool → Option String → ℕ → Approving (ApprovalItem × Bool × Bool)
unfolding find_item put_item
decide_detailed approval_id owner_id agreed rejected_reason now = do
  current ← find_item approval_id
  raise_if (current.owner_id != owner_id) approval_expired
  if current.status == pending && ltb current.expires_at now
      then (do
        put_item approval_id (with_decision current expired now current.rejected_reason)
        raise approval_expired)
      else if current.status != pending
      then pure (current, false, current.status != desired agreed)
      else (do
        let item =
            with_decision current (desired agreed) now (if agreed then none else rejected_reason)
        put_item approval_id item
        pure (item, true, false))

unfoldable pub decide : String → String → Bool → Option String → ℕ → Approving ApprovalItem
unfolding decide_detailed
decide approval_id owner_id agreed rejected_reason now = do
  decision ← decide_detailed approval_id owner_id agreed rejected_reason now
  pure decision.0

-- The item under the id, where it is about this very call.
unfoldable pub resolve_identity : String → CallIdentity → ApprovalService → Option ApprovalItem
resolve_identity approval_id call s = elim (get s.items approval_id) [
  | none ↦ none
  | some item ↦
      if item.run_id == call.run_id
        && item.owner_id == call.owner_id
        && item.operation_id == call.operation_id
        && item.tool_id == call.tool_id
        && item.tool_call_id == call.tool_call_id
      then some item
      else none
]

-- A pending item of the run and the owner, which `cancel_by_run` cancels.
abbrev pub awaits_owner : String → String → ApprovalItem → Bool
awaits_owner run_id owner_id item =
    item.run_id == run_id && item.owner_id == owner_id && item.status == pending

abbrev pub withdrawn : ℕ → ApprovalItem → ApprovalItem
withdrawn now item = with_decision item cancelled now (some "用户取消")

-- The loop over the items as they stood, writing each under the id that it names.
unfoldable pub cancel_each :
    String → String → ℕ → List ApprovalItem → Dict String ApprovalItem → Dict String ApprovalItem
cancel_each run_id owner_id now [] items = items
cancel_each run_id owner_id now (item ∷ rest) items = cancel_each run_id owner_id now rest (
    if awaits_owner run_id owner_id item
    then put items item.approval_id (withdrawn now item)
    else items)

unfoldable pub cancel_by_run : String → String → ℕ → Approving (Unit {0})
unfolding cancel_each
cancel_by_run run_id owner_id now s =
    (ok tt, record s { items = cancel_each run_id owner_id now (values s.items) s.items })

unfoldable pub list_by_run : String → ApprovalService → List ApprovalItem
list_by_run run_id s = select (λ item. item.run_id == run_id) (values s.items)
