-- ===== src/Approval/Cancelling.antt =====
-- src/tools/approval.py: what `cancel_by_run` leaves under each id.
use ven_agent.Prelude.{
  ℕ, ◌≡◌, refl, sym, ap, ◌∙◌, inl, inr, true, false, none, some, String, List, [], ◌∷◌, text_has_eq,
  ◌==◌, if◌then◌else◌, Bool-cases,
}
use mathlib.Core.Option
use ven_agent.Prelude.Dict.{Dict, get, put, get-put, values, IsKeyed, put-IsKeyed}
use ven_agent.Approval.{
  ApprovalItem, ApprovalService, awaits_owner, withdrawn, cancel_each, cancel_by_run,
}

-- Each item stands under the id that it names.
abbrev pub IsFiled : Dict String ApprovalItem → Type 0
IsFiled items = IsKeyed (λ (item : ApprovalItem). item.approval_id) items

module _ (run_id owner_id : String) (now : ℕ) where
  abbrev pub after_cancel : ApprovalItem → ApprovalItem
  after_cancel item = if awaits_owner run_id owner_id item then withdrawn now item else item

  abbrev cancel_one : ApprovalItem → Dict String ApprovalItem → Dict String ApprovalItem
  cancel_one item items =
      if awaits_owner run_id owner_id item
      then put items item.approval_id (withdrawn now item)
      else items

  -- What stands under `k` after the loop, given what stood there in the values that it went over.
  abbrev outcome :
      Option.Option ApprovalItem → Option.Option ApprovalItem → Option.Option ApprovalItem
  outcome none kept = kept
  outcome (some item) kept =
      if awaits_owner run_id owner_id item then some (withdrawn now item) else kept

  get-cancel_one :
      (item : ApprovalItem) (items : Dict String ApprovalItem) (k : String)
      → get (cancel_one item items) k
        ≡ outcome (if item.approval_id == k then some item else none) (get items k)
  get-cancel_one item items k = elim (Bool-cases (awaits_owner run_id owner_id item)) [
    | inl waits ↦ rw waits (
        get-put items item.approval_id k (withdrawn now item)
        ∙ elim (Bool-cases (item.approval_id == k)) [
          | inl same ↦ rw (same, waits)
          | inr other ↦ rw other
        ])
    | inr decided ↦ rw decided (elim (Bool-cases (item.approval_id == k)) [
      | inl same ↦ rw (same, decided)
      | inr other ↦ rw other
    ])
  ]

  get-cancel_each :
      (old items : Dict String ApprovalItem) (k : String)
      → IsFiled old
      → get (cancel_each run_id owner_id now (values old) items) k
        ≡ outcome (get old k) (get items k)
  unfolding cancel_each get
  get-cancel_each [] items k h = refl
  get-cancel_each ((j, item) ∷ old) items k h =
      get-cancel_each old (cancel_one item items) k h.2
      ∙ ap (outcome (get old k)) (get-cancel_one item items k)
      ∙ elim (Bool-cases (j == k)) [
        | inl same ↦
            let named : item.approval_id == k ≡ true = rw h.0 same in
            let absent : get old k ≡ none =
              ap (get old) (sym ((text_has_eq.decides j k).0 same)) ∙ h.1 in
            rw (same, named, absent)
        | inr other ↦ let named : item.approval_id == k ≡ false = rw h.0 other in rw (other, named)
      ]

  pub cancel_each-IsFiled :
      (old : List ApprovalItem) (items : Dict String ApprovalItem)
      → IsFiled items
      → IsFiled (cancel_each run_id owner_id now old items)
  unfolding cancel_each
  cancel_each-IsFiled [] items h = h
  cancel_each-IsFiled (item ∷ old) items h =
      cancel_each-IsFiled old (cancel_one item items)
        (elim (Bool-cases (awaits_owner run_id owner_id item)) [
          | inl waits ↦
              rw waits (
                put-IsKeyed (λ i. i.approval_id) items item.approval_id (withdrawn now item) h refl)
          | inr decided ↦ rw decided h
        ])

-- In a service whose items stand under their ids, cancelling by run cancels, under every id, the
-- item of that run and that owner if it is pending, and leaves every other item as it was.
pub get-cancel_by_run :
    (s : ApprovalService) (run_id owner_id : String) (now : ℕ) (k : String)
    → IsFiled s.items
    → get (cancel_by_run run_id owner_id now s).1.items k
      ≡ Option.map (after_cancel run_id owner_id now) (get s.items k)
unfolding cancel_by_run
get-cancel_by_run s run_id owner_id now k h =
    get-cancel_each run_id owner_id now s.items s.items k h ∙ map_outcome (get s.items k)
  where
    map_outcome :
        (o : Option.Option ApprovalItem)
        → outcome run_id owner_id now o o ≡ Option.map (after_cancel run_id owner_id now) o
    map_outcome none = refl
    map_outcome (some item) = elim (Bool-cases (awaits_owner run_id owner_id item)) [
      | inl waits ↦ rw waits
      | inr decided ↦ rw decided
    ]
