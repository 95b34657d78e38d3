-- ===== src/Approval/History/Final.antt =====
-- A decision of src/tools/approval.py is made once.
use ven_agent.Prelude.{
  ◌≡◌, ◌≢◌, refl, sym, ap, ◌∙◌, inl, inr, true, none, some, String, List, [], ◌∷◌, arith,
  text_has_eq, ◌==◌, Bool-cases, Occurs, last, select, subst, select-Occurs,
}
use mathlib.Core.Option
use ven_agent.Prelude.Dict.{get, put, get-put, get-Occurs, values}
use ven_agent.Approval.{
  create, store_item, ApprovalItem, ApprovalService, CallIdentity, approval_id_of, new_item,
  pending, is_of_call, awaits_owner, resolve,
}
use ven_agent.Approval.Deciding.{
  answered, lapsed, unknown, not_owner, too_late, repeated, taken, decide_detailed-Outcome,
}
use ven_agent.Approval.Cancelling.{IsFiled, get-cancel_by_run, after_cancel}
use ven_agent.Approval.History.{
  ApprovalCall, ask, answer, withdraw, request, serve, serve_all, find_or_create_cases,
  serve-IsFiled,
}

abbrev pub identity : ApprovalItem → CallIdentity
identity item = record {
  run_id = item.run_id;
  owner_id = item.owner_id;
  operation_id = item.operation_id;
  tool_id = item.tool_id;
  tool_call_id = item.tool_call_id;
}

-- `b` is what became of `a`: it is about the same call and expires at the same time, and where `a`
-- was decided it is `a`.
abbrev pub Evolves : ApprovalItem → ApprovalItem → Type 0
Evolves a b =
    (identity b ≡ identity a) × (b.expires_at ≡ a.expires_at) × (a.status ≢ pending → b ≡ a)

Evolves-refl : (a : ApprovalItem) → Evolves a a
Evolves-refl a = (refl, refl, λ _. refl)

Evolves-trans : (a b c : ApprovalItem) → Evolves a b → Evolves b c → Evolves a c
Evolves-trans a b c f g = (
  g.0 ∙ f.0,
  g.1 ∙ f.1,
  λ decided. g.2 (λ p. decided (ap (λ i. i.status) (sym (f.2 decided)) ∙ p)) ∙ f.2 decided,
)

-- `ask` names an operation only for the tool call that its item is about, and `request` one that has
-- no item: the gateway draws an operation's id for each tool call, and requests its item once.
abbrev pub NamesItsCall : ApprovalCall → ApprovalService → Type 0
NamesItsCall (ask call reason now) s =
    (item : ApprovalItem)
    → get s.items (approval_id_of call.run_id call.operation_id) ≡ some item
    → is_of_call call.run_id call.tool_call_id item ≡ true
NamesItsCall (request call reason now) s =
    get s.items (approval_id_of call.run_id call.operation_id) ≡ none
NamesItsCall _ s = Unit

abbrev pub NameTheirCalls : List ApprovalCall → ApprovalService → Type 0
NameTheirCalls [] s = Unit
NameTheirCalls (c ∷ calls) s = NamesItsCall c s × NameTheirCalls calls (serve c s)

last-none : {A : Type 0} (a : A) (xs : List A) → last xs ≡ none → ¬ Occurs a xs
last-none a [] h m = elim m [ ]
last-none a (x ∷ []) h m = cc
last-none a (x ∷ y ∷ xs) h m = last-none y (y ∷ xs) h (inl refl)

-- The item under `k` after the call is what became of the one before it.
abbrev Became : ApprovalService → String → ApprovalItem → Type 0
Became s k a = (b : ApprovalItem) × (get s.items k ≡ some b) × Evolves a b

after_write :
    (s : ApprovalService) (id k : String) (item a b : ApprovalItem)
    → get s.items id ≡ some item
    → Evolves item b
    → get s.items k ≡ some a
    → Became (record s { items = put s.items id b }) k a
after_write s id k item a b e v g = elim (Bool-cases (id == k)) [
  | inl same ↦
      let both : some item ≡ some a =
        sym e ∙ ap (get s.items) ((text_has_eq.decides id k).0 same) ∙ g in
      let item_is_a : item ≡ a = cc both in
      (b, ground (arith, get-put s.items id k b), subst (λ i. Evolves i b) item_is_a v)
  | inr other ↦ (a, ground (arith, get-put s.items id k b, g), Evolves-refl a)
]

resolve-none :
    (s : ApprovalService) (call : CallIdentity) (k : String) (a : ApprovalItem)
    → resolve call.run_id call.tool_call_id s ≡ none
    → get s.items k ≡ some a
    → ¬ (is_of_call call.run_id call.tool_call_id a ≡ true)
unfolding resolve
resolve-none s call k a h g t =
    last-none a (select (is_of_call call.run_id call.tool_call_id) (values s.items)) h (
      select-Occurs (is_of_call call.run_id call.tool_call_id) (values s.items)
        (get-Occurs s.items k a g) t)

serve-Became :
    (c : ApprovalCall) (s : ApprovalService) (k : String) (a : ApprovalItem)
    → IsFiled s.items
    → NamesItsCall c s
    → get s.items k ≡ some a
    → Became (serve c s) k a
unfolding serve create store_item
serve-Became (ask call reason now) s k a h u g = elim (find_or_create_cases call reason now s) [
  | inl same ↦ (a, ap (λ t. get t.items k) same ∙ g, Evolves-refl a)
  | inr (absent, made) ↦
      let id = approval_id_of call.run_id call.operation_id in
      elim (Bool-cases (id == k)) [
        | inl same ↦ absurd (
            resolve-none s call k a absent g
              (u a (ap (get s.items) ((text_has_eq.decides id k).0 same) ∙ g)))
        | inr other ↦ (
          a,
          ap (λ t. get t k) made
              ∙ ground (arith, get-put s.items id k (new_item call reason now s.ttl), g),
          Evolves-refl a,
        )
      ]
]
serve-Became (request call reason now) s k a h u g =
    let id = approval_id_of call.run_id call.operation_id in
    elim (Bool-cases (id == k)) [
      | inl same ↦
          let clash : none ≡ some a =
            sym u ∙ ap (get s.items) ((text_has_eq.decides id k).0 same) ∙ g in
          absurd (cc clash)
      | inr other ↦ (
        a,
        ground (arith, get-put s.items id k (new_item call reason now s.ttl), g),
        Evolves-refl a,
      )
    ]
serve-Became (answer id owner agreed reason now) s k a h u g =
    elim (decide_detailed-Outcome s id owner agreed reason now) [
      | unknown e q ↦ rw (q, serve) (a, g, Evolves-refl a)
      | not_owner item e o q ↦ rw (q, serve) (a, g, Evolves-refl a)
      | too_late item e o p t q ↦
          rw (q, serve)
            (after_write s id k item a (lapsed item now) e (refl, refl, λ d. absurd (d p)) g)
      | repeated item e o p q ↦ rw (q, serve) (a, g, Evolves-refl a)
      | taken item e o p t q ↦
          rw (q, serve)
            (after_write s id k item a (answered item agreed reason now) e
              (refl, refl, λ d. absurd (d p)) g)
    ]
serve-Became (withdraw run owner now) s k a h u g = (
  after_cancel run owner now a,
  get-cancel_by_run s run owner now k h ∙ ap (Option.map (after_cancel run owner now)) g,
  evolves a,
)
  where
    evolves : (a : ApprovalItem) → Evolves a (after_cancel run owner now a)
    evolves a = elim (Bool-cases (awaits_owner run owner a)) [
      | inl waits ↦ rw waits (refl, refl, λ d. absurd (d (ground arith)))
      | inr decided ↦ rw decided (Evolves-refl a)
    ]

-- Over any calls on a service whose items stand under their ids, in which an operation is named only
-- for one tool call and has its item requested only once, an item stays under its id, keeps its run, owner, operation, tool, tool call and
-- expiry, and, once it is not pending, does not change at all.
pub decision_is_final :
    (calls : List ApprovalCall) (s : ApprovalService) (k : String) (a : ApprovalItem)
    → IsFiled s.items
    → NameTheirCalls calls s
    → get s.items k ≡ some a
    → (b : ApprovalItem) × (get (serve_all calls s).items k ≡ some b) × Evolves a b
unfolding serve_all
decision_is_final [] s k a h u g = (a, g, Evolves-refl a)
decision_is_final (c ∷ calls) s k a h u g =
    let (b, g', v) = serve-Became c s k a h u.0 g in
    let (d, g'', v') = decision_is_final calls (serve c s) k b (serve-IsFiled c s h) u.1 g' in
    (d, g'', Evolves-trans a b d v v')
