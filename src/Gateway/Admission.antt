-- ===== src/Gateway/Admission.antt =====
-- src/tools/gateway.py: when `invoke` calls the executor.
pub mod Quiet
pub mod Retries
pub mod Executor
use ven_agent.Prelude.{
  ℕ, ◌≤◌, ◌<◌, ◌≡◌, ◌≢◌, refl, sym, ap, subst, ◌∙◌, ◌⊎◌, inl, inr, Bool, true, false, not, Option,
  none, some, String, List, [], ◌∷◌, arith, ◌==◌, ◌!=◌, ◌&&◌, text_has_eq, Result, ok, err,
  and_then, if◌then◌else◌, Bool-cases, Option-cases,
}
use ven_agent.Prelude.Dict.{get}
use ven_agent.Approval.{
  ApprovalItem, ApprovalService, ApprovalStatus, CallIdentity, pending, approved, rejected, expired,
  cancelled, resolve_identity, approval_id_of, create,
}
use ven_agent.Approval.History.Final.{identity}
use ven_agent.Gateway.{
  RiskLevel, safe, warn, block, ToolDescriptor, ToolCatalogSnapshot, Operation, by_id,
  find_duplicate,
}
use ven_agent.Gateway.Admission.Quiet.{
  Result-cases, after, reach_after, Calls, update_operation-Calls, record_terminal_result-Calls,
  unconsented-Calls, settle-Calls, find_or_save-Calls,
}
use ven_agent.Gateway.Admission.Retries.{repeated, run_attempts-Tried}
use ven_agent.Gateway.Invoke.{
  Execution, GatewayState, GatewayError, Invoking, Ending, Endings, is_retryable, run_attempts,
  execution_of, log_call, Gateway, Invocation, update_operation, emit, find_or_save, settle,
  call_key, call_identity, unconsented, execute, with_consent, dispatch, invoke_new, invoke,
  resolve_approval, resolve_of, if_decided, consent_reason,
}

-- An approved item about this very call of the operation.
abbrev pub IsConsented : Invocation → String → ApprovalService → Type 0
IsConsented inv operation_id approvals =
    (id : String) × (item : ApprovalItem) × (get approvals.items id ≡ some item)
    × (item.status ≡ approved)
    × (identity item ≡ record {
      run_id = inv.run_id;
      owner_id = inv.owner_id;
      operation_id = operation_id;
      tool_id = inv.tool_id;
      tool_call_id = inv.tool_call_id;
    })

resolve_identity-some :
    (id : String) (call : CallIdentity) (approvals : ApprovalService) (item : ApprovalItem)
    → resolve_identity id call approvals ≡ some item
    → (get approvals.items id ≡ some item) × (identity item ≡ call)
unfolding resolve_identity
resolve_identity-some id call approvals item h = elim (Option-cases (get approvals.items id)) [
  | inl gone ↦ let clash : none ≡ some item = rw (gone, resolve_identity) at h in absurd (cc clash)
  | inr (x, found) ↦
      let both : (if x.run_id == call.run_id
              && x.owner_id == call.owner_id
              && x.operation_id == call.operation_id
              && x.tool_id == call.tool_id
              && x.tool_call_id == call.tool_call_id
            then some x
            else none)
          ≡ some item =
        rw (found, resolve_identity) at h in
      elim (Bool-cases (
        x.run_id == call.run_id
        && x.owner_id == call.owner_id
        && x.operation_id == call.operation_id
        && x.tool_id == call.tool_id
        && x.tool_call_id == call.tool_call_id)) [
          | inr other ↦ let clash : none ≡ some item = rw other at both in absurd (cc clash)
          | inl same ↦
              let kept : some x ≡ some item = rw same at both in
              let x_is_item : x ≡ item = cc kept in
              (
                found ∙ kept,
                subst (λ i. identity i ≡ call) x_is_item
                    (ground (
                      arith,
                      text_has_eq.decides x.run_id call.run_id,
                      text_has_eq.decides x.owner_id call.owner_id,
                      text_has_eq.decides x.operation_id call.operation_id,
                      text_has_eq.decides x.tool_id call.tool_id,
                      text_has_eq.decides x.tool_call_id call.tool_call_id,
                    )),
              )
        ]
]

weaken : {A B P Q : Type 0} → (P → Q) → A ⊎ (B × P) → A ⊎ (B × Q)
weaken f (inl same) = inl same
weaken f (inr (ran, p)) = inr (ran, f p)

module _ (g : Gateway) (inv : Invocation) (d : ToolDescriptor) (endings : Endings)
    (finish elapsed : ℕ) where
  abbrev pub call_of : Operation → Execution
  call_of o = execution_of inv d o

  -- The executor was called once, and again only as often as the gateway retries, each time after an
  -- attempt that ended with a transient error of a safe tool of MCP.
  pub record Ran (call : Execution) (E : List Execution) (t : GatewayState) : Type 0 where
    pub retries : ℕ
    pub calls : t.executions ≡ call ∷ repeated retries call E
    pub limit : retries ≤ g.retry_attempts
    pub retried : (k : ℕ) → k < retries → is_retryable d (endings k) ≡ true

  -- The executor was not called, or it ran and then `P` holds.
  abbrev pub MayRun : Operation → List Execution → Type 0 → GatewayState → Type 0
  MayRun o E P t = (t.executions ≡ E) ⊎ (Ran (call_of o) E t × P)

  execute-MayRun :
      (E : List Execution) (o : Operation) (s : GatewayState)
      → Calls E s
      → MayRun o E Unit (execute g inv d o endings finish elapsed s).1
  unfolding execute emit
  execute-MayRun E o s h = elim (Bool-cases g.has_executor) [
    | inl bound ↦
        let tried =
          run_attempts-Tried (call_of o) endings 0 g.retry_attempts (emit o "started" s).1 in
        let ran : (t : GatewayState)
            → Calls (call_of o ∷ repeated tried.retries (call_of o) E) t
            → MayRun o E Unit t =
          λ t k. inr (
            record {
              retries = tried.retries;
              calls = k;
              limit = tried.limit;
              retried = λ i h.
                  subst (λ n. is_retryable d (endings n) ≡ true) (omega arith) (tried.retried i h);
            },
            tt,
          ) in
        simp (bound, execute)
          (reach_after (Calls (call_of o ∷ repeated tried.retries (call_of o) E)) (MayRun o E Unit)
            (run_attempts (call_of o) endings 0 g.retry_attempts (emit o "started" s).1) _
            (tried.calls ∙ ap (λ t. call_of o ∷ repeated tried.retries (call_of o) t) h) ran
            (λ ending t k. ran _ (settle-Calls _ g inv o ending finish elapsed t k)))
    | inr unbound ↦ simp (unbound, execute) (inl h)
  ]

  consented-MayRun :
      (item : ApprovalItem) (o : Operation) (s : GatewayState)
      → item.status ≡ approved
      → MayRun o s.executions Unit (with_consent g inv d (some item) o endings finish elapsed s).1
  unfolding with_consent
  consented-MayRun item o s y =
      rw (y, with_consent)
        (reach_after (Calls s.executions) (MayRun o s.executions Unit) (update_operation _ s) _
          (update_operation-Calls s.executions _ s refl) (λ t k. inl k)
          (λ a t k. execute-MayRun s.executions _ t k))

  refused-Calls :
      (item : ApprovalItem) (o : Operation) (s : GatewayState)
      → item.status ≡ rejected
      → (with_consent g inv d (some item) o endings finish elapsed s).1.executions ≡ s.executions
  unfolding with_consent
  refused-Calls item o s y =
      rw (y, with_consent) (record_terminal_result-Calls s.executions o _ finish s refl)

  unheard-Calls :
      (o : Operation) (s : GatewayState)
      → (with_consent g inv d none o endings finish elapsed s).1.executions ≡ s.executions
  unfolding with_consent
  unheard-Calls o s = unconsented-Calls s.executions g inv o _ finish s refl

  -- An approval that was looked up and is about the call.
  decided-MayRun :
      (item : ApprovalItem) (o : Operation) (s : GatewayState) (status : ApprovalStatus)
      → item.status ≡ status
      → MayRun o s.executions
          (item.status ≡ approved)
          (with_consent g inv d (if_decided (some item)) o endings finish elapsed s).1
  decided-MayRun item o s approved y =
      rw (y) (elim (consented-MayRun item o s y) [
        | inl same ↦ inl same
        | inr (ran, _) ↦ inr (ran, refl)
      ])
  decided-MayRun item o s rejected y = rw y (inl (refused-Calls item o s y))
  decided-MayRun item o s pending y = rw y (inl (unheard-Calls o s))
  decided-MayRun item o s expired y = rw y (inl (unheard-Calls o s))
  decided-MayRun item o s cancelled y = rw y (inl (unheard-Calls o s))

  resolve_of-some :
      (o : Operation) (approvals : ApprovalService) (item : ApprovalItem)
      → resolve_of inv o approvals ≡ some item
      → item.status ≡ approved
      → IsConsented inv o.operation_id approvals
  resolve_of-some o approvals item h y = elim (Option-cases o.approval_id) [
    | inl unasked ↦ let clash : none ≡ some item = rw unasked at h in absurd (cc clash)
    | inr (id, asked) ↦
        let found = resolve_identity-some id (call_identity inv o) approvals item (rw asked at h) in
        (id, item, found.0, y, found.1)
  ]

  module _ (now : ℕ) (o : Operation) (s : GatewayState)
      (unasked : resolve_of inv o s.approvals ≡ none) where
    resolve_approval-named :
        (id : String) (r : Option ApprovalItem)
        → inv.approval_id ≡ some id
        → resolve_identity id (call_identity inv o) s.approvals ≡ r
        → resolve_approval inv d now o s ≡ (ok (if_decided r, o), s)
    unfolding resolve_approval
    resolve_approval-named id r named found = simp (unasked, named, found, resolve_approval)

    abbrev asked : Operation
    asked = record o { approval_id = some (approval_id_of inv.run_id o.operation_id) }

    abbrev asking : Result GatewayError (Unit {0}) × GatewayState
    asking = update_operation asked (record s {
      approvals = (create (call_identity inv o) (consent_reason d) now s.approvals).1;
    })

    resolve_approval-asked :
        inv.approval_id ≡ none
        → resolve_approval inv d now o s ≡ and_then asking.0 (λ _ t. (ok (none, asked), t)) asking.1
    unfolding resolve_approval
    resolve_approval-asked unnamed = simp (unasked, unnamed, resolve_approval)

  warn-MayRun :
      (now : ℕ) (o : Operation) (s : GatewayState)
      → MayRun o s.executions
          (IsConsented inv o.operation_id s.approvals)
          (dispatch g inv d warn o endings now finish elapsed s).1
  unfolding dispatch resolve_approval
  warn-MayRun now o s = elim (Option-cases (resolve_of inv o s.approvals)) [
    | inr (item, found) ↦
        rw (found, dispatch, resolve_approval)
          (weaken (resolve_of-some o s.approvals item found)
            (decided-MayRun item o s item.status refl))
    | inl unasked ↦ elim (Option-cases inv.approval_id) [
      | inr (id, named) ↦
          elim (Option-cases (resolve_identity id (call_identity inv o) s.approvals)) [
            | inr (item, found) ↦
                let about = resolve_identity-some id (call_identity inv o) s.approvals item found in
                rw (resolve_approval-named now o s unasked id (some item) named found, dispatch)
                  (weaken (λ y. (id, item, about.0, y, about.1))
                    (decided-MayRun item o s item.status refl))
            | inl other ↦
                rw (resolve_approval-named now o s unasked id none named other, dispatch)
                  (inl (unheard-Calls o s))
          ]
      | inl unnamed ↦
          let u = asking now o s unasked in
          let kept = update_operation-Calls s.executions (asked now o s unasked) _ refl in
          elim (Result-cases u.0) [
            | inl (_, q) ↦
                rw (resolve_approval-asked now o s unasked unnamed, q, dispatch)
                  (inl (unheard-Calls (asked now o s unasked) u.1 ∙ kept))
            | inr (e, q) ↦
                rw (resolve_approval-asked now o s unasked unnamed, q, dispatch) (inl kept)
          ]
    ]
  ]

  pub dispatch-MayRun :
      (risk : RiskLevel) (now : ℕ) (o : Operation) (s : GatewayState)
      → MayRun o s.executions
          ((risk ≢ block) × (risk ≡ warn → IsConsented inv o.operation_id s.approvals))
          (dispatch g inv d risk o endings now finish elapsed s).1
  unfolding dispatch
  dispatch-MayRun safe now o s =
      weaken (λ _. ((λ q. cc q), λ q. cc q)) (execute-MayRun s.executions o s refl)
  dispatch-MayRun block now o s = inl (record_terminal_result-Calls s.executions o _ finish s refl)
  dispatch-MayRun warn now o s = weaken (λ c. ((λ q. cc q), λ _. c)) (warn-MayRun now o s)
