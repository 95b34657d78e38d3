-- ===== src/Approval/Repeating.antt =====
-- src/tools/approval.py: a run that is replayed asks for the same approval again.
use ven_agent.Prelude.{
  ℕ, ◌≡◌, refl, sym, ap, ◌∙◌, inl, inr, Bool, true, none, some, String, List, [], ◌∷◌, text_has_eq,
  beq_refl, ◌==◌, Bool-cases, Option-cases, ok, last, select,
}
use ven_agent.Prelude.Dict.{Dict, put, values}
use ven_agent.Approval.{
  ApprovalItem, ApprovalService, CallIdentity, approval_id_of, new_item, is_of_call, resolve,
  find_or_create, create, store_item,
}

last-nil : {A : Type 0} (xs : List A) → last xs ≡ none → xs ≡ []
last-nil [] h = refl
last-nil (x ∷ []) h = cc
last-nil (x ∷ y ∷ xs) h = let empty : y ∷ xs ≡ [] = last-nil (y ∷ xs) h in cc

-- Where no value passes the test, one that does is the only one after it is written.
select-put :
    {A : Type 0} (test : A → Bool) (d : Dict String A) (k : String) (a : A)
    → select test (values d) ≡ []
    → test a ≡ true
    → select test (values (put d k a)) ≡ a ∷ []
unfolding put
select-put test [] k a h t = rw t
select-put test ((j, x) ∷ d) k a h t = elim (Bool-cases (test x)) [
  | inl passes ↦ let clash : x ∷ select test (values d) ≡ [] = rw passes at h in absurd (cc clash)
  | inr fails ↦
      let rest : select test (values d) ≡ [] = rw fails at h in
      elim (Bool-cases (j == k)) [
        | inl same ↦ rw (same, t, rest)
        | inr other ↦ rw (other, fails) (select-put test d k a rest t)
      ]
]

resolve-create :
    (call : CallIdentity) (reason : String) (now : ℕ) (s : ApprovalService)
    → resolve call.run_id call.tool_call_id s ≡ none
    → resolve call.run_id call.tool_call_id (create call reason now s).1
      ≡ some (new_item call reason now s.ttl)
unfolding resolve create store_item
resolve-create call reason now s h = ap last (
    select-put (is_of_call call.run_id call.tool_call_id) s.items
      (approval_id_of call.run_id call.operation_id) (new_item call reason now s.ttl)
      (last-nil (select (is_of_call call.run_id call.tool_call_id) (values s.items)) h)
      (rw (beq_refl call.run_id, beq_refl call.tool_call_id)))

find_or_create-found :
    (call : CallIdentity) (reason : String) (now : ℕ) (s : ApprovalService) (item : ApprovalItem)
    → resolve call.run_id call.tool_call_id s ≡ some item
    → find_or_create call reason now s ≡ (ok item, s)
unfolding find_or_create
find_or_create-found call reason now s item found = rw (found, find_or_create)

find_or_create-absent :
    (call : CallIdentity) (reason : String) (now : ℕ) (s : ApprovalService)
    → resolve call.run_id call.tool_call_id s ≡ none
    → find_or_create call reason now s ≡ create call reason now s
unfolding find_or_create
find_or_create-absent call reason now s absent = rw (absent, find_or_create)

-- Asking again for the approval of a tool call, at any time, for any reason, and under another
-- operation, returns the item that the first call returned and leaves the service as the first call
-- left it.
pub find_or_create-find_or_create :
    (call : CallIdentity) (operation reason reason' : String) (now now' : ℕ) (s : ApprovalService)
    → find_or_create
        (record call { operation_id = operation })
        reason'
        now'
        (find_or_create call reason now s).1
      ≡ find_or_create call reason now s
unfolding create store_item
find_or_create-find_or_create call operation reason reason' now now' s =
    let again = record call { operation_id = operation } in
    elim (Option-cases (resolve call.run_id call.tool_call_id s)) [
      | inl absent ↦
          let made = find_or_create-absent call reason now s absent in
          ap (λ t. find_or_create again reason' now' t.1) made
          ∙ find_or_create-found again reason' now' (create call reason now s).1
              (new_item call reason now s.ttl) (resolve-create call reason now s absent)
          ∙ sym made
      | inr (item, found) ↦
          let kept = find_or_create-found call reason now s item found in
          ap (λ t. find_or_create again reason' now' t.1) kept
          ∙ find_or_create-found again reason' now' s item found
          ∙ sym kept
    ]
