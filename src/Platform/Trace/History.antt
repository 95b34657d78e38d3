-- ===== src/Platform/Trace/History.antt =====
-- What later calls can do to one run: a run that is over stays as it is, attempts only grow, and an
-- attempt belongs to one token.
use ven_agent.Prelude.{
  ◌≤◌, ◌<◌, ◌≡◌, sym, ◌∙◌, ap, subst, ◌⊎◌, inl, inr, true, none, some, String, arith, text_has_eq,
  Bool-cases, ◌==◌,
}
use mathlib.Core.Option
use ven_agent.Prelude.Dict.{Dict, get, get-put, get-pop, get-map_values}
use ven_agent.Run.{AgentRun, running, is_terminal_status}
use ven_agent.Platform.Machine.{
  Scope, Moves, Step, moved, created, mapped, removed, Steps, stay, next,
}

-- `b` is a later state of the run `a`.
pub record Follows (a b : AgentRun) : Type 0 where
  pub conversation : b.conversation_id ≡ a.conversation_id
  pub owner : b.owner_id ≡ a.owner_id
  pub final :
      is_terminal_status a.status ≡ true
      → (b.status ≡ a.status)
        × (b.completed_at ≡ a.completed_at)
        × (b.output_message_id ≡ a.output_message_id)
  pub attempts : a.execution_attempt ≤ b.execution_attempt
  pub fenced :
      b.status ≡ running
      → ((a.status ≡ running)
          × (b.claim_token ≡ a.claim_token)
          × (b.execution_attempt ≡ a.execution_attempt))
        ⊎ (a.execution_attempt < b.execution_attempt)

Follows-refl : (a : AgentRun) → Follows a a
Follows-refl a = ground arith

Moves-Follows : {a b : AgentRun} → Moves a b → Follows a b
Moves-Follows m = ground arith

Follows-trans : {a b c : AgentRun} → Follows a b → Follows b c → Follows a c
Follows-trans f g = ground arith

-- The run under `k` is gone and its conversation is one that may be removed, or it is a later state
-- of `a`.
abbrev pub Later : (String → Type 0) → Dict String AgentRun → String → AgentRun → Type 0
Later ended e k a =
    ((get e k ≡ none) × ended a.conversation_id)
    ⊎ ((b : AgentRun) × (get e k ≡ some b) × Follows a b)

Step-Later :
    {scope : Scope} {d e : Dict String AgentRun} (k : String) (a : AgentRun)
    → ¬ scope.new k
    → Step scope d e
    → get d k ≡ some a
    → Later scope.ended e k a
Step-Later {d = d} k a old (moved j x y g m q) h = elim (Bool-cases (j == k)) [
  | inl same ↦
      let j_is_k = (text_has_eq.decides j k).0 same in
      let both : some x ≡ some a = sym g ∙ ap (get d) j_is_k ∙ h in
      let x_is_a : x ≡ a = cc both in
      inr (
        y,
        ap (λ t. get t k) q ∙ ground (arith, get-put d j k y),
        subst (λ z. Follows z y) x_is_a (Moves-Follows m),
      )
  | inr other ↦ inr (a, ap (λ t. get t k) q ∙ ground (arith, get-put d j k y), Follows-refl a)
]
Step-Later {scope} {d = d} k a old (created b n absent starts s idle q) h =
    elim (Bool-cases (b.run_id == k)) [
      | inl same ↦ absurd (old (subst scope.new ((text_has_eq.decides b.run_id k).0 same) n))
      | inr other ↦
          inr (a, ap (λ t. get t k) q ∙ ground (arith, get-put d b.run_id k b), Follows-refl a)
    ]
Step-Later {d = d} k a old (mapped f m q) h =
    inr (f a, ap (λ t. get t k) q ∙ get-map_values f d k ∙ ap (Option.map f) h, Moves-Follows (m a))
Step-Later {scope} {d = d} k a old (removed j x g gone q) h = elim (Bool-cases (j == k)) [
  | inl same ↦
      let both : some x ≡ some a = sym g ∙ ap (get d) ((text_has_eq.decides j k).0 same) ∙ h in
      let x_is_a : x ≡ a = cc both in
      inl (
        ap (λ t. get t k) q ∙ ground (arith, get-pop d j k),
        subst (λ z. scope.ended z.conversation_id) x_is_a gone,
      )
  | inr other ↦ inr (a, ap (λ t. get t k) q ∙ ground (arith, get-pop d j k), Follows-refl a)
]

-- What is gone does not come back under the same id.
Step-none :
    {scope : Scope} {d e : Dict String AgentRun} (k : String)
    → ¬ scope.new k
    → Step scope d e
    → get d k ≡ none
    → get e k ≡ none
Step-none {d = d} k old (moved j x y g m q) h = elim (Bool-cases (j == k)) [
  | inl same ↦
      let clash : some x ≡ none = sym g ∙ ap (get d) ((text_has_eq.decides j k).0 same) ∙ h in
      absurd (cc clash)
  | inr other ↦ ap (λ t. get t k) q ∙ ground (arith, get-put d j k y)
]
Step-none {scope} {d = d} k old (created b n absent starts s idle q) h =
    elim (Bool-cases (b.run_id == k)) [
      | inl same ↦ absurd (old (subst scope.new ((text_has_eq.decides b.run_id k).0 same) n))
      | inr other ↦ ap (λ t. get t k) q ∙ ground (arith, get-put d b.run_id k b)
    ]
Step-none {d = d} k old (mapped f m q) h =
    ap (λ t. get t k) q ∙ get-map_values f d k ∙ ap (Option.map f) h
Step-none {d = d} k old (removed j x g gone q) h =
    ap (λ t. get t k) q ∙ ground (arith, get-pop d j k)

pub Steps-Later :
    {scope : Scope} {d e : Dict String AgentRun} (k : String) (a : AgentRun)
    → ¬ scope.new k
    → Steps scope d e
    → get d k ≡ some a
    → Later scope.ended e k a
Steps-Later k a old stay h = inr (a, h, Follows-refl a)
Steps-Later {scope} k a old (next steps step) h = elim (Steps-Later k a old steps h) [
  | inl (gone, ended) ↦ inl (Step-none k old step gone, ended)
  | inr (b, g, f) ↦ elim (Step-Later k b old step g) [
    | inl (gone, ended) ↦ inl (gone, subst scope.ended f.conversation ended)
    | inr (c, g', f') ↦ inr (c, g', Follows-trans f f')
  ]
]
