-- ===== src/Gateway/Invoke.antt =====
-- src/tools/gateway.py: `ToolGateway.invoke`, the only way to a tool.
mod Steps
unfoldable pub use Steps.*
use ven_agent.Prelude.{
  ℕ, zero, suc, ◌+◌, Bool, true, false, not, Option, none, some, String, List, [], ◌∷◌, ◌++◌, ◌==◌,
  ◌!=◌, ◌&&◌, ◌||◌, text_has_eq, Action, Result, ok, err, raise, raise_if, pure, modify, gets,
  or_raise, ◌>>=◌, ◌>>◌, if◌then◌else◌,
}
use Prim.Native.String.{◌++◌ as ◌+++◌}
use ven_agent.Approval.{
  ApprovalItem, ApprovalService, ApprovalStatus, CallIdentity, approved, rejected, approval_id_of,
  create, resolve_identity,
}
use ven_agent.Gateway.{
  RiskLevel, safe, warn, block, OperationStatus, ToolResultStatus, blocked, success, error, running,
  failed, succeeded, ArtifactRef, ToolDescriptor, ToolCatalogSnapshot, by_id, Operation, ToolResult,
  OperationStore, save, update, save_result, append_event, find_duplicate, find_operation, CallKey,
}

abbrev pub execution_of : Invocation → ToolDescriptor → Operation → Execution
execution_of inv descriptor operation = record {
  descriptor = descriptor;
  run_id = inv.run_id;
  owner_id = inv.owner_id;
  operation_id = operation.operation_id;
}

-- The codes after which `_execute` tries again.
abbrev pub is_transient : String → Bool
is_transient code =
    code == "mcp_http_429"
    || code == "mcp_http_502"
    || code == "mcp_http_503"
    || code == "mcp_http_504"
    || code == "mcp_http_unreachable"
    || code == "mcp_request_timeout"

abbrev pub is_safe : RiskLevel → Bool
is_safe safe = true
is_safe _ = false

-- `retryable`, of the exception that an attempt ended with.
unfoldable pub is_retryable : ToolDescriptor → Ending → Bool
is_retryable descriptor (raised code) =
    descriptor.source == "mcp" && is_safe descriptor.risk && is_transient code
is_retryable descriptor _ = false

-- The call of the executor that each round of `_execute` makes.
abbrev pub log_call : Execution → GatewayState → GatewayState
log_call call s = record s { executions = call ∷ s.executions }

-- The loop of `_execute`, with how many attempts may follow this one.
unfoldable pub run_attempts : Execution → Endings → ℕ → ℕ → Invoking Ending
unfolding is_retryable
run_attempts call endings attempt zero s = (ok (endings attempt), log_call call s)
run_attempts call endings attempt (suc left) s =
    elim (is_retryable call.descriptor (endings attempt)) [
      | true ↦ run_attempts call endings (attempt + 1) left (log_call call s)
      | false ↦ (ok (endings attempt), log_call call s)
    ]

module _ (g : Gateway) where
  unfoldable pub sanitize_result : ToolResult → ℕ → Invocation → Operation → ToolResult
  sanitize_result result elapsed_ms inv operation =
      let full_content = g.redact_text result.content in
      record {
        tool_call_id = inv.tool_call_id;
        operation_id = operation.operation_id;
        status = result.status;
        summary = g.truncate_content (g.redact_text result.summary) 1_024;
        content = g.truncate_content full_content 4_096;
        artifacts = elim g.save_text [
          | none ↦ result.artifacts
          | some save_text ↦
              if full_content != ""
              then result.artifacts ++ save_text ("tool:" +++ inv.tool_id) full_content ∷ []
              else result.artifacts
        ];
        error = elim result.error [
          | none ↦ none
          | some text ↦ if text != "" then some (g.redact_text text) else none
        ];
        timing_ms = elapsed_ms;
        approval_id = result.approval_id;
      }

  -- What follows the executor's call.
  unfoldable pub settle : Invocation → Operation → Ending → ℕ → ℕ → Invoking ToolResult
  settle inv operation stopped now elapsed_ms = do
    emit operation "cancelled"
    record_terminal_result operation
        (ended_result inv operation ToolResultStatus.cancelled "工具调用已取消。" "tool_cancelled") now
  settle inv operation timed_out now elapsed_ms = do
    emit operation "failed"
    record_terminal_result operation (ended_result inv operation error "工具调用超时。" "tool_timeout") now
  settle inv operation (raised code) now elapsed_ms = do
    update_operation
        (record operation { status = failed; error_code = some code; updated_at = now })
    emit operation "failed"
    raise (executor_error code)
  settle inv operation (finished result) now elapsed_ms =
      let clean = sanitize_result result elapsed_ms inv operation in
      (do
        update_operation (record operation {
          status = elim clean.status [ success ↦ succeeded | _ ↦ failed ];
          result_summary = some clean.summary;
          timing_ms = clean.timing_ms;
          artifacts = clean.artifacts;
          updated_at = now;
        })
        modify (λ (s : GatewayState). record s {
          operations = save_result operation.operation_id clean s.operations;
        })
        emit operation "completed"
        pure clean)

  unfoldable pub execute :
      Invocation → ToolDescriptor → Operation → Endings → ℕ → ℕ → Invoking ToolResult
  unfolding settle run_attempts
  execute inv descriptor operation endings finish elapsed_ms = do
    emit operation "started"
    raise_if (not g.has_executor) tool_unavailable
    ending ← run_attempts (execution_of inv descriptor operation) endings 0 g.retry_attempts
    settle inv operation ending finish elapsed_ms

  -- The call of a tool whose consent is not decided, or was refused.
  unfoldable pub unconsented :
      Invocation → Operation → Option ApprovalItem → ℕ → Invoking ToolResult
  unconsented inv operation latest finish =
      if is_refused latest
      then record_terminal_result operation
          (ended_result inv operation blocked (text_or_else (refusal latest) "该工具调用已被拒绝。")
            "approval_rejected")
          finish
      else (do emit operation "awaiting_approval"; pure (awaiting inv operation))

  -- The call of a tool that needs consent, once its approval was looked up.
  unfoldable pub with_consent :
      Invocation
      → ToolDescriptor
      → Option ApprovalItem
      → Operation
      → Endings
      → ℕ
      → ℕ
      → Invoking ToolResult
  unfolding execute unconsented
  with_consent inv descriptor none operation endings finish elapsed_ms = do
    latest ← gets (λ (s : GatewayState). resolve_of inv operation s.approvals)
    unconsented inv operation latest finish
  with_consent inv descriptor (some approval) operation endings finish elapsed_ms =
      elim approval.status [
        | rejected ↦
            record_terminal_result operation
              (ended_result inv operation blocked
                (text_or_else approval.rejected_reason "该工具调用已被拒绝。") "approval_rejected")
              finish
        | _ ↦
            let agreed = record operation {
              approval_id = some approval.approval_id;
              status = running;
            } in
            (do update_operation agreed; execute inv descriptor agreed endings finish elapsed_ms)
      ]

  unfoldable pub dispatch :
      Invocation
      → ToolDescriptor
      → RiskLevel
      → Operation
      → Endings
      → ℕ
      → ℕ
      → ℕ
      → Invoking ToolResult
  unfolding with_consent
  dispatch inv descriptor safe operation endings now finish elapsed_ms =
      execute inv descriptor operation endings finish elapsed_ms
  dispatch inv descriptor block operation endings now finish elapsed_ms =
      record_terminal_result operation
        (ended_result inv operation blocked "该工具被本地策略禁止执行。" "tool_blocked") finish
  dispatch inv descriptor warn operation endings now finish elapsed_ms = do
    resolved ← resolve_approval inv descriptor now operation
    with_consent inv descriptor resolved.0 resolved.1 endings finish elapsed_ms

  -- The call beyond the test for an earlier result.
  unfoldable pub invoke_new :
      ToolCatalogSnapshot → Invocation → ℕ → String → Endings → ℕ → ℕ → Invoking ToolResult
  unfolding dispatch
  invoke_new snapshot inv now uuid endings finish elapsed_ms = do
    descriptor ← or_raise (by_id snapshot inv.tool_id) tool_not_found
    raise_if (not descriptor.exposed) tool_not_exposed
    raise_if (not (inv.accepts descriptor)) tool_schema_invalid
    operation ← find_or_save inv descriptor now uuid
    dispatch inv descriptor descriptor.risk operation endings now finish elapsed_ms

  -- `snapshot.run_id is not None and snapshot.run_id != run_id`
  unfoldable pub is_of_other_run : ToolCatalogSnapshot → Invocation → Bool
  is_of_other_run snapshot inv = elim snapshot.run_id [
    | none ↦ false
    | some run_id ↦ run_id != inv.run_id
  ]

  unfoldable pub is_unauthorized : Invocation → Bool
  is_unauthorized inv = elim g.run_authorizer [
    | none ↦ false
    | some allows ↦ not (allows inv.run_id inv.owner_id)
  ]

  -- `uuid` is the id of a new operation, `finish` the time after the executor, and `endings` what its
  -- attempts come to, where they are made.
  unfoldable pub invoke :
      ToolCatalogSnapshot → Invocation → ℕ → String → Endings → ℕ → ℕ → Invoking ToolResult
  unfolding invoke_new
  invoke snapshot inv now uuid endings finish elapsed_ms = do
    raise_if (is_of_other_run snapshot inv) run_grant_invalid
    raise_if (is_unauthorized inv) run_grant_invalid
    duplicate ← gets (λ (s : GatewayState). find_duplicate (call_key inv) s.operations)
    elim duplicate [
      | some result ↦ pure result
      | none ↦ invoke_new snapshot inv now uuid endings finish elapsed_ms
    ]
