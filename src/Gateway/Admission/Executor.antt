-- ===== src/Gateway/Admission/Executor.antt =====
-- src/tools/gateway.py: the guards before the executor, together.
use ven_agent.Prelude.{
  ℕ, ◌≤◌, ◌<◌, ◌≡◌, ◌≢◌, refl, ap, subst, ◌∙◌, ◌⊎◌, inl, inr, Bool, true, false, not, none, some,
  String, List, [], ◌∷◌, Occurs, arith, ◌!=◌, text_has_eq, and_then, Bool-cases, Option-cases,
}
use ven_agent.Gateway.{
  safe, block, warn, ToolDescriptor, ToolCatalogSnapshot, by_id, find_duplicate,
}
use ven_agent.Gateway.Invoke.{
  Execution, GatewayState, Endings, raised, finished, stopped, timed_out, Ending, is_retryable,
  is_transient, Gateway, Invocation, call_key, invoke, is_of_other_run, is_unauthorized, invoke_new,
  find_or_save, dispatch,
}
use ven_agent.Gateway.Admission.{IsConsented, dispatch-MayRun, call_of}
use ven_agent.Gateway.Admission.Retries.{repeated}
use ven_agent.Gateway.Admission.Quiet.{reach_after, find_or_save-Calls}

-- Too many requests, bad gateway, service unavailable, gateway time-out, no connection, no answer in time.
abbrev pub transient_codes : List String
transient_codes =
    "mcp_http_429" ∷ "mcp_http_502" ∷ "mcp_http_503" ∷ "mcp_http_504" ∷ "mcp_http_unreachable"
    ∷ "mcp_request_timeout" ∷ []

transient-Occurs : (code : String) → is_transient code ≡ true → Occurs code transient_codes
transient-Occurs code h = ground (
  arith,
  text_has_eq.decides code "mcp_http_429",
  text_has_eq.decides code "mcp_http_502",
  text_has_eq.decides code "mcp_http_503",
  text_has_eq.decides code "mcp_http_504",
  text_has_eq.decides code "mcp_http_unreachable",
  text_has_eq.decides code "mcp_request_timeout",
)

is_retryable-some :
    (d : ToolDescriptor) (ending : Ending)
    → is_retryable d ending ≡ true
    → (code : String) × (ending ≡ raised code)
      × Occurs code transient_codes
      × (d.source ≡ "mcp")
      × (d.risk ≡ safe)
unfolding is_retryable
is_retryable-some d (raised code) h = (
  code,
  refl,
  transient-Occurs code (ground arith),
  ground (arith, text_has_eq.decides d.source "mcp"),
  ground arith,
)
is_retryable-some d (finished result) h = absurd (ground arith)
is_retryable-some d stopped h = absurd (ground arith)
is_retryable-some d timed_out h = absurd (ground arith)

module _ (g : Gateway) (snapshot : ToolCatalogSnapshot) (inv : Invocation) (s : GatewayState) where
  -- The tool is exposed and takes the arguments, it is not blocked, and if it needs consent, an
  -- approval of this very call of the operation stands in the service.
  abbrev pub IsCleared : Execution → Type 0
  IsCleared call =
      (by_id snapshot inv.tool_id ≡ some call.descriptor)
      × (call.descriptor.exposed ≡ true)
      × (inv.accepts call.descriptor ≡ true)
      × (call.run_id ≡ inv.run_id)
      × (call.owner_id ≡ inv.owner_id)
      × (call.descriptor.risk ≢ block)
      × (call.descriptor.risk ≡ warn → IsConsented inv call.operation_id s.approvals)

  -- The snapshot is of this run or of none, the run is authorized, and the call has no result.
  abbrev pub IsFresh : Type 0
  IsFresh =
      ((run_id : String) → snapshot.run_id ≡ some run_id → run_id ≡ inv.run_id)
      × ((allows : String → String → Bool)
          → g.run_authorizer ≡ some allows
          → allows inv.run_id inv.owner_id ≡ true)
      × (find_duplicate (call_key inv) s.operations ≡ none)

  -- The calls beyond the first one: as many as the gateway retries at most, and each after an attempt at
  -- a safe tool of MCP that ended with a transient error.
  abbrev pub AreRetries : Endings → Execution → ℕ → Type 0
  AreRetries endings call n =
      (n ≤ g.retry_attempts)
      × ((k : ℕ)
          → k < n
          → (code : String) × (endings k ≡ raised code)
            × Occurs code transient_codes
            × (call.descriptor.source ≡ "mcp")
            × (call.descriptor.risk ≡ safe))

  -- The executor was not called, or once and again for retries only, and then `P` holds of the call.
  abbrev pub CallsOnlyIf : Endings → (Execution → Type 0) → GatewayState → Type 0
  CallsOnlyIf endings P t =
      (t.executions ≡ s.executions)
      ⊎ ((call : Execution) × (n : ℕ) × (t.executions ≡ call ∷ repeated n call s.executions)
          × AreRetries endings call n
          × P call)

  module _ (now : ℕ) (uuid : String) (endings : Endings) (finish elapsed : ℕ) where
    -- Beyond its guards, `invoke_new` finds the operation and goes on by the tool's risk.
    invoke_new-accepted :
        (d : ToolDescriptor)
        → by_id snapshot inv.tool_id ≡ some d
        → d.exposed ≡ true
        → inv.accepts d ≡ true
        → invoke_new g snapshot inv now uuid endings finish elapsed s
          ≡ and_then
              (find_or_save inv d now uuid s).0
              (λ o. dispatch g inv d d.risk o endings now finish elapsed)
              (find_or_save inv d now uuid s).1
    unfolding invoke_new
    invoke_new-accepted d found shown accepted = simp (found, shown, accepted, invoke_new)

    accepted-CallsOnlyIf :
        (d : ToolDescriptor)
        → by_id snapshot inv.tool_id ≡ some d
        → d.exposed ≡ true
        → inv.accepts d ≡ true
        → CallsOnlyIf endings IsCleared
            (invoke_new g snapshot inv now uuid endings finish elapsed s).1
    accepted-CallsOnlyIf d found shown accepted = rw (invoke_new-accepted d found shown accepted) (
        reach_after (λ t. (t.executions ≡ s.executions) × (t.approvals ≡ s.approvals))
          (CallsOnlyIf endings IsCleared) (find_or_save inv d now uuid s) _
          (find_or_save-Calls s.executions inv d now uuid s refl) (λ t k. inl k.0)
          (λ o t k. elim (dispatch-MayRun g inv d endings finish elapsed d.risk now o t) [
            | inl same ↦ inl (same ∙ k.0)
            | inr (ran, passed) ↦ inr (
              call_of g inv d endings finish elapsed o,
              ran.retries,
              ran.calls
                  ∙ ap
                      (λ E.
                        call_of g inv d endings finish elapsed o
                        ∷ repeated ran.retries (call_of g inv d endings finish elapsed o) E)
                      k.0,
              (ran.limit, λ i h. is_retryable-some d (endings i) (ran.retried i h)),
              (
                found,
                shown,
                accepted,
                refl,
                refl,
                passed.0,
                λ q. subst (IsConsented inv o.operation_id) k.1 (passed.1 q),
              ),
            )
          ]))

    invoke_new-CallsOnlyIf :
        CallsOnlyIf endings IsCleared
          (invoke_new g snapshot inv now uuid endings finish elapsed s).1
    unfolding invoke_new
    invoke_new-CallsOnlyIf = elim (Option-cases (by_id snapshot inv.tool_id)) [
      | inl unknown ↦ inl (simp (unknown, invoke_new))
      | inr (d, found) ↦ elim (Bool-cases d.exposed) [
        | inr hidden ↦ inl (simp (found, hidden, invoke_new))
        | inl shown ↦ elim (Bool-cases (inv.accepts d)) [
          | inr refused ↦ inl (simp (found, shown, refused, invoke_new))
          | inl accepted ↦ accepted-CallsOnlyIf d found shown accepted
        ]
      ]
    ]

    -- Beyond its own guards, `invoke` goes on with `invoke_new`.
    invoke-fresh :
        is_of_other_run g snapshot inv ≡ false
        → is_unauthorized g inv ≡ false
        → find_duplicate (call_key inv) s.operations ≡ none
        → invoke g snapshot inv now uuid endings finish elapsed s
          ≡ invoke_new g snapshot inv now uuid endings finish elapsed s
    unfolding invoke
    invoke-fresh ours allowed new = simp (ours, allowed, new, invoke)

    own_run :
        is_of_other_run g snapshot inv ≡ false
        → (run_id : String) → snapshot.run_id ≡ some run_id
        → run_id ≡ inv.run_id
    unfolding is_of_other_run
    own_run ours run_id e =
        let same : run_id != inv.run_id ≡ false = rw (e, is_of_other_run) at ours in
        ground (arith, text_has_eq.decides run_id inv.run_id)

    authorized :
        is_unauthorized g inv ≡ false
        → (allows : String → String → Bool) → g.run_authorizer ≡ some allows
        → allows inv.run_id inv.owner_id ≡ true
    unfolding is_unauthorized
    authorized allowed allows e =
        let agreed : not (allows inv.run_id inv.owner_id) ≡ false =
          rw (e, is_unauthorized) at allowed in
        ground arith

    -- A call of `invoke` calls the executor only for a tool of the snapshot that is exposed, takes the
    -- arguments and is not blocked, for the run and the owner of the call, where the snapshot is of the
    -- run, the run is authorized and the call has no result yet; a tool that needs consent runs only where
    -- the service has an approved item of this very call of the operation. Where it calls the executor,
    -- it does so once, and again at most `retry_attempts` times for the same tool, run, owner and
    -- operation, each time after an attempt at a safe tool of MCP that raised one of the transient codes:
    -- any other tool runs at most once.
    pub invoke-IsCleared :
        CallsOnlyIf endings
          (λ call. IsFresh × IsCleared call)
          (invoke g snapshot inv now uuid endings finish elapsed s).1
    unfolding invoke
    invoke-IsCleared = elim (Bool-cases (is_of_other_run g snapshot inv)) [
      | inl other ↦ inl (simp (other, invoke))
      | inr ours ↦ elim (Bool-cases (is_unauthorized g inv)) [
        | inl denied ↦ inl (simp (ours, denied, invoke))
        | inr allowed ↦ elim (Option-cases (find_duplicate (call_key inv) s.operations)) [
          | inr (result, old) ↦ inl (simp (ours, allowed, old, invoke))
          | inl new ↦ rw (invoke-fresh ours allowed new) (elim invoke_new-CallsOnlyIf [
            | inl same ↦ inl same
            | inr (call, n, ran, retries, cleared) ↦
                inr (call, n, ran, retries, ((own_run ours, authorized allowed, new), cleared))
          ])
        ]
      ]
    ]
