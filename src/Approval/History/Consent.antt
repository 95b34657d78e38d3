-- ===== src/Approval/History/Consent.antt =====
-- An approved item of src/tools/approval.py was approved by its owner, in time.
use ven_agent.Prelude.{
  ℕ, ◌≤◌, ◌≡◌, sym, ap, subst, ◌∙◌, ◌⊎◌, inl, inr, Bool, true, false, Option, none, some, String,
  List, [], ◌∷◌, arith, text_has_eq, ◌==◌, Bool-cases, Option-cases, Occurs,
}
use mathlib.Core.Option
use ven_agent.Prelude.Dict.{get, put, get-put}
use ven_agent.Approval.{
  create, store_item, ApprovalItem, ApprovalService, approval_id_of, new_item, approved, pending,
  expired, rejected, cancelled, cancel_by_run, awaits_owner, withdrawn,
}
use ven_agent.Approval.Deciding.{
  answered, lapsed, unknown, not_owner, too_late, repeated, taken, decide_detailed-Outcome,
}
use ven_agent.Approval.Cancelling.{IsFiled, get-cancel_by_run, after_cancel}
use ven_agent.Approval.History.{
  ApprovalCall, ask, answer, withdraw, request, serve, serve_all, find_or_create_cases,
  serve-IsFiled,
}

-- The item's owner agreed, before the item expired, by one of the calls.
abbrev pub HasConsent : List ApprovalCall → String → ApprovalItem → Type 0
HasConsent calls k b =
    (now : ℕ) × (reason : Option String) × Occurs (answer k b.owner_id true reason now) calls
    × (b.decided_at ≡ some now)
    × (now ≤ b.expires_at)

-- After a write at one id, an approved item stands there already or is what was written.
after_put :
    (s : ApprovalService) (id k : String) (item b : ApprovalItem)
    → get (put s.items id item) k ≡ some b
    → (get s.items k ≡ some b) ⊎ ((id ≡ k) × (item ≡ b))
after_put s id k item b g = elim (Bool-cases (id == k)) [
  | inl same ↦
      let both : some item ≡ some b = ground (arith, get-put s.items id k item, g) in
      let item_is_b : item ≡ b = cc both in inr ((text_has_eq.decides id k).0 same, item_is_b)
  | inr other ↦ inl (ground (arith, get-put s.items id k item, g))
]

taken-HasConsent :
    (id owner k : String) (agreed : Bool) (reason : Option String) (now : ℕ) (item b : ApprovalItem)
    → item.owner_id ≡ owner
    → now ≤ item.expires_at
    → id ≡ k
    → answered item agreed reason now ≡ b
    → b.status ≡ approved
    → HasConsent (answer id owner agreed reason now ∷ []) k b
taken-HasConsent id owner k true reason now item b o t same q y =
    let owned : b.owner_id ≡ owner = ap (λ i. i.owner_id) (sym q) ∙ o in
    (
      now,
      reason,
      inl (rw (owned, same)),
      ap (λ i. i.decided_at) (sym q),
      subst (λ i. now ≤ i.expires_at) q t,
    )
taken-HasConsent id owner k false reason now item b o t same q y =
    let clash : rejected ≡ approved = ap (λ i. i.status) q ∙ y in absurd (cc clash)

serve-HasConsent :
    (c : ApprovalCall) (s : ApprovalService) (k : String) (b : ApprovalItem)
    → IsFiled s.items
    → get (serve c s).items k ≡ some b
    → b.status ≡ approved
    → (get s.items k ≡ some b) ⊎ HasConsent (c ∷ []) k b
unfolding serve create store_item
serve-HasConsent (ask call reason now) s k b h g y = elim (find_or_create_cases call reason now s) [
  | inl same ↦ inl (ap (λ t. get t.items k) (sym same) ∙ g)
  | inr (absent, made) ↦
      elim (after_put s (approval_id_of call.run_id call.operation_id) k
        (new_item call reason now s.ttl) b (ap (λ t. get t k) (sym made) ∙ g)) [
          | inl old ↦ inl old
          | inr (same, q) ↦
              let clash : pending ≡ approved = ap (λ i. i.status) q ∙ y in absurd (cc clash)
        ]
]
serve-HasConsent (request call reason now) s k b h g y =
    elim (after_put s (approval_id_of call.run_id call.operation_id) k
      (new_item call reason now s.ttl) b g) [
        | inl old ↦ inl old
        | inr (same, q) ↦
            let clash : pending ≡ approved = ap (λ i. i.status) q ∙ y in absurd (cc clash)
      ]
serve-HasConsent (answer id owner agreed reason now) s k b h g y =
    elim (decide_detailed-Outcome s id owner agreed reason now) [
      | unknown e q ↦ inl (ap (λ t. get t.1.items k) (sym q) ∙ g)
      | not_owner item e o q ↦ inl (ap (λ t. get t.1.items k) (sym q) ∙ g)
      | too_late item e o p t q ↦
          elim (after_put s id k (lapsed item now) b (ap (λ t. get t.1.items k) (sym q) ∙ g)) [
            | inl old ↦ inl old
            | inr (same, q') ↦
                let clash : expired ≡ approved = ap (λ i. i.status) q' ∙ y in absurd (cc clash)
          ]
      | repeated item e o p q ↦ inl (ap (λ t. get t.1.items k) (sym q) ∙ g)
      | taken item e o p t q ↦
          elim (after_put s id k (answered item agreed reason now) b
            (ap (λ t. get t.1.items k) (sym q) ∙ g)) [
              | inl old ↦ inl old
              | inr (same, q') ↦
                  inr (taken-HasConsent id owner k agreed reason now item b o t same q' y)
            ]
    ]
serve-HasConsent (withdraw run owner now) s k b h g y = elim (Option-cases (get s.items k)) [
  | inl gone ↦
      let clash : none ≡ some b =
        sym (changed ∙ ap (Option.map (after_cancel run owner now)) gone) ∙ g in
      absurd (cc clash)
  | inr (item, found) ↦
      let kept : some (after_cancel run owner now item) ≡ some b =
        sym (changed ∙ ap (Option.map (after_cancel run owner now)) found) ∙ g in
      elim (Bool-cases (awaits_owner run owner item)) [
        | inl waits ↦
            let cut : some (withdrawn now item) ≡ some b = rw waits at kept in
            let item_is_b : withdrawn now item ≡ b = cc cut in
            let clash : cancelled ≡ approved = ap (λ i. i.status) item_is_b ∙ y in absurd (cc clash)
        | inr decided ↦ let same : some item ≡ some b = rw decided at kept in inl (found ∙ same)
      ]
]
  where
    changed :
        get (cancel_by_run run owner now s).1.items k
        ≡ Option.map (after_cancel run owner now) (get s.items k)
    changed = get-cancel_by_run s run owner now k h

-- An item that is approved after any calls, on a service whose items stand under their ids, was the
-- same approved item before them, or the calls hold an approval of it by its owner, at the time it
-- names as decided, which is not after its expiry.
pub approved-HasConsent :
    (calls : List ApprovalCall) (s : ApprovalService) (k : String) (b : ApprovalItem)
    → IsFiled s.items
    → get (serve_all calls s).items k ≡ some b
    → b.status ≡ approved
    → (get s.items k ≡ some b) ⊎ HasConsent calls k b
unfolding serve_all
approved-HasConsent [] s k b h g y = inl g
approved-HasConsent (c ∷ calls) s k b h g y =
    elim (approved-HasConsent calls (serve c s) k b (serve-IsFiled c s h) g y) [
      | inr (now, reason, m, d, t) ↦ inr (now, reason, inr m, d, t)
      | inl now_there ↦ elim (serve-HasConsent c s k b h now_there y) [
        | inl before ↦ inl before
        | inr (now, reason, inl m, d, t) ↦ inr (now, reason, inl m, d, t)
        | inr (now, reason, inr m, d, t) ↦ elim m [ ]
      ]
    ]
