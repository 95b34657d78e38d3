-- ===== src/Approval/Deciding.antt =====
-- src/tools/approval.py: what `decide_detailed` returns and writes, on each of its branches.
use ven_agent.Prelude.{
  ℕ, ◌≤◌, ◌<◌, ◌≡◌, ◌≢◌, refl, inl, inr, Bool, true, false, Option, none, some, String, arith,
  text_has_eq, ◌==◌, ◌!=◌, Result, ok, err, if◌then◌else◌, Bool-cases, Option-cases, ltb, ◌&&◌,
}
use ven_agent.Prelude.Dict.{get, put}
use ven_agent.Approval.{
  ApprovalItem, ApprovalService, ApprovalError, pending, expired, approval_expired, find_item,
  put_item, with_decision, desired, decide_detailed, approval_status_has_eq,
}

-- The service after an item was written.
abbrev pub writing : String → ApprovalItem → ApprovalService → ApprovalService
writing approval_id item s = record s { items = put s.items approval_id item }

abbrev pub answered : ApprovalItem → Bool → Option String → ℕ → ApprovalItem
answered item agreed reason now =
    with_decision item (desired agreed) now (if agreed then none else reason)

abbrev pub lapsed : ApprovalItem → ℕ → ApprovalItem
lapsed item now = with_decision item expired now item.rejected_reason

-- What a decision may come to.
pub data Outcome (s : ApprovalService) (id owner : String) (agreed : Bool) (reason : Option String)
    (now : ℕ) (out : Result ApprovalError (ApprovalItem × Bool × Bool) × ApprovalService)
    : Type 0 where
  unknown :
      get s.items id ≡ none
      → out ≡ (err approval_expired, s)
      → Outcome s id owner agreed reason now out
  not_owner :
      (item : ApprovalItem)
      → get s.items id ≡ some item
      → item.owner_id ≢ owner
      → out ≡ (err approval_expired, s)
      → Outcome s id owner agreed reason now out
  too_late :
      (item : ApprovalItem)
      → get s.items id ≡ some item
      → item.owner_id ≡ owner
      → item.status ≡ pending
      → item.expires_at < now
      → out ≡ (err approval_expired, writing id (lapsed item now) s)
      → Outcome s id owner agreed reason now out
  repeated :
      (item : ApprovalItem)
      → get s.items id ≡ some item
      → item.owner_id ≡ owner
      → item.status ≢ pending
      → out ≡ (ok (item, false, item.status != desired agreed), s)
      → Outcome s id owner agreed reason now out
  taken :
      (item : ApprovalItem)
      → get s.items id ≡ some item
      → item.owner_id ≡ owner
      → item.status ≡ pending
      → now ≤ item.expires_at
      → out ≡ (
        ok (answered item agreed reason now, true, false),
        writing id (answered item agreed reason now) s,
      )
      → Outcome s id owner agreed reason now out

module _ (s : ApprovalService) (id owner : String) (agreed : Bool) (reason : Option String)
    (now : ℕ) where
  pub decide_detailed-Outcome :
      Outcome s id owner agreed reason now (decide_detailed id owner agreed reason now s)
  unfolding decide_detailed find_item put_item
  decide_detailed-Outcome = elim (Option-cases (get s.items id)) [
    | inl e ↦ rw e (unknown e refl)
    | inr (item, e) ↦ rw e (elim (Bool-cases (item.owner_id != owner)) [
      | inl other ↦
          rw other (not_owner item e (ground (arith, text_has_eq.decides item.owner_id owner)) refl)
      | inr mine ↦
          let owned : item.owner_id ≡ owner =
            ground (arith, text_has_eq.decides item.owner_id owner) in
          rw mine (elim (Bool-cases (item.status == pending && ltb item.expires_at now)) [
            | inl late ↦ rw late (too_late item e owned (ground arith) (ground arith) refl)
            | inr timely ↦ rw timely (elim (Bool-cases (item.status != pending)) [
              | inl old ↦ rw old (repeated item e owned (ground arith) refl)
              | inr new ↦ rw new (taken item e owned (ground arith) (ground arith) refl)
            ])
          ])
    ])
  ]
