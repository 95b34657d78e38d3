-- ===== src/Gateway/Invoke/Steps.antt =====
-- src/tools/gateway.py: the state of the gateway, and what `invoke` does short of the executor.
use ven_agent.Prelude.{
  ℕ, Bool, true, false, Option, none, some, String, List, [], ◌!=◌, text_has_eq, Action, ok, err,
  pure, modify, ◌>>◌, if◌then◌else◌,
}
use Prim.Native.String.{◌++◌ as ◌+++◌}
use ven_agent.Approval.{
  ApprovalItem, ApprovalService, CallIdentity, approved, rejected, approval_id_of, create,
  resolve_identity,
}
use ven_agent.Gateway.{
  safe, warn, OperationStatus, ToolResultStatus, success, running, failed, succeeded, ArtifactRef,
  ToolDescriptor, Operation, ToolResult, OperationStore, save, update, save_result, append_event,
  find_operation, CallKey,
}

-- One call of the executor: the tool, the run, the owner and the operation.
pub record Execution : Type 0 where
  pub descriptor : ToolDescriptor
  pub run_id : String
  pub owner_id : String
  pub operation_id : String

-- The stores that the gateway shares, and the calls of the executor so far, the last one first.
pub record GatewayState : Type 0 where
  pub operations : OperationStore
  pub approvals : ApprovalService
  pub executions : List Execution

pub data GatewayError : Type 0 where
  run_grant_invalid tool_not_found tool_not_exposed tool_schema_invalid tool_unavailable :
      GatewayError
  gateway_operation_not_found gateway_operation_duplicate : GatewayError
  executor_error : (code : String) → GatewayError

abbrev pub Invoking : Type 0 → Type 0
Invoking A = Action GatewayState GatewayError A

-- How one attempt of `_execute` ended. A time-out of the gateway carries no code.
pub data Ending : Type 0 where
  finished : (result : ToolResult) → Ending
  stopped timed_out : Ending
  raised : (code : String) → Ending

-- How each attempt of `_execute` ends, from attempt 0 on, where it is made.
abbrev pub Endings : Type 0
Endings = ℕ → Ending

-- What the gateway was built with; `retry_attempts` is `max(0, retry_attempts)`. Redaction, truncation
-- and the artifact files are its parameters.
pub record Gateway : Type 0 where
  pub has_executor : Bool
  pub retry_attempts : ℕ
  pub run_authorizer : Option (String → String → Bool)
  pub redact_text : String → String
  pub truncate_content : String → ℕ → String
  pub save_text : Option (String → String → ArtifactRef)

-- The arguments of `invoke`. `accepts` is whether `validate_arguments` returns for a tool's schema,
-- `arguments_summary` is the redacted JSON of the arguments.
pub record Invocation : Type 0 where
  pub run_id : String
  pub owner_id : String
  pub tool_call_id : String
  pub operation_key : String
  pub tool_id : String
  pub accepts : ToolDescriptor → Bool
  pub arguments_summary : String
  pub approval_id : Option String

abbrev pub call_key : Invocation → CallKey
call_key inv = (inv.run_id, (inv.tool_call_id, inv.operation_key))

abbrev pub call_identity : Invocation → Operation → CallIdentity
call_identity inv operation = record {
  run_id = inv.run_id;
  owner_id = inv.owner_id;
  operation_id = operation.operation_id;
  tool_id = inv.tool_id;
  tool_call_id = inv.tool_call_id;
}

unfoldable pub emit : Operation → String → Invoking (Unit {0})
emit operation kind = modify (λ (s : GatewayState). record s {
  operations = append_event operation.operation_id kind s.operations;
})

unfoldable pub update_operation : Operation → Invoking (Unit {0})
update_operation operation s =
    let (updated, store) = update operation s.operations in
    elim updated [
      | ok o ↦ (ok tt, record s { operations = store })
      | err e ↦ (err gateway_operation_not_found, record s { operations = store })
    ]

abbrev pub terminal_status : ToolResultStatus → OperationStatus
terminal_status ToolResultStatus.cancelled = OperationStatus.cancelled
terminal_status success = succeeded
terminal_status _ = failed

unfoldable pub record_terminal_result : Operation → ToolResult → ℕ → Invoking ToolResult
record_terminal_result operation result now = do
  update_operation (record operation {
    status = terminal_status result.status;
    error_code = result.error;
    result_summary = some result.summary;
    timing_ms = result.timing_ms;
    artifacts = result.artifacts;
    updated_at = now;
  })
  modify (λ (s : GatewayState). record s {
    operations = save_result operation.operation_id result s.operations;
  })
  pure result

abbrev pub ended_result : Invocation → Operation → ToolResultStatus → String → String → ToolResult
ended_result inv operation status summary code = record {
  tool_call_id = inv.tool_call_id;
  operation_id = operation.operation_id;
  status = status;
  summary = summary;
  content = "";
  artifacts = [];
  error = some code;
  timing_ms = 0;
  approval_id = none;
}

abbrev pub awaiting : Invocation → Operation → ToolResult
awaiting inv operation = record {
  tool_call_id = inv.tool_call_id;
  operation_id = operation.operation_id;
  status = ToolResultStatus.awaiting_approval;
  summary = "该工具调用等待用户审批。";
  content = "";
  artifacts = [];
  error = none;
  timing_ms = 0;
  approval_id = operation.approval_id;
}

-- `option or default`, where an empty text counts as none.
abbrev pub text_or_else : Option String → String → String
text_or_else none text = text
text_or_else (some other) text = if other != "" then other else text

abbrev pub consent_reason : ToolDescriptor → String
consent_reason descriptor = descriptor.public_name +++ " 属于需审批工具。"

abbrev pub new_operation : Invocation → ToolDescriptor → ℕ → String → Operation
new_operation inv descriptor now uuid = record {
  operation_id = uuid;
  run_id = inv.run_id;
  owner_id = inv.owner_id;
  tool_call_id = inv.tool_call_id;
  operation_key = inv.operation_key;
  tool_id = inv.tool_id;
  status = elim descriptor.risk [ safe ↦ running | _ ↦ OperationStatus.awaiting_approval ];
  risk = descriptor.risk;
  created_at = now;
  updated_at = now;
  approval_id = none;
  error_code = none;
  result_summary = none;
  source = descriptor.source;
  server_id = descriptor.server_id;
  arguments_summary = inv.arguments_summary;
  risk_reason = elim descriptor.risk [ warn ↦ some (consent_reason descriptor) | _ ↦ none ];
  timing_ms = 0;
  artifacts = [];
  sandbox_generation_id = none;
  sandbox_state = "not_requested";
}

-- The call's operation, which is saved where there is none; one that another call saved in the
-- meantime is taken.
unfoldable pub find_or_save : Invocation → ToolDescriptor → ℕ → String → Invoking Operation
find_or_save inv descriptor now uuid s = elim (find_operation (call_key inv) s.operations) [
  | some existing ↦ (ok existing, s)
  | none ↦
      let (saved, store) = save (new_operation inv descriptor now uuid) s.operations in
      elim saved [
        | ok operation ↦ (ok operation, record s { operations = store })
        | err e ↦ elim (find_operation (call_key inv) store) [
          | some existing ↦ (ok existing, s)
          | none ↦ (err gateway_operation_duplicate, s)
        ]
      ]
]

-- `approval if approval.status in {"approved", "rejected"} else None`
abbrev pub if_decided : Option ApprovalItem → Option ApprovalItem
if_decided none = none
if_decided (some item) = elim item.status [ approved ↦ some item | rejected ↦ some item | _ ↦ none ]

abbrev pub resolve_of : Invocation → Operation → ApprovalService → Option ApprovalItem
resolve_of inv operation approvals = elim operation.approval_id [
  | none ↦ none
  | some id ↦ resolve_identity id (call_identity inv operation) approvals
]

-- `_resolve_approval`, and the operation as it leaves it.
unfoldable pub resolve_approval :
    Invocation → ToolDescriptor → ℕ → Operation → Invoking (Option ApprovalItem × Operation)
resolve_approval inv descriptor now operation s = elim (resolve_of inv operation s.approvals) [
  | some latest ↦ (ok (if_decided (some latest), operation), s)
  | none ↦ elim inv.approval_id [
    | some id ↦ (
      ok (if_decided (resolve_identity id (call_identity inv operation) s.approvals), operation),
      s,
    )
    | none ↦
        let (_, approvals) =
          create (call_identity inv operation) (consent_reason descriptor) now s.approvals in
        let asked = record operation {
          approval_id = some (approval_id_of inv.run_id operation.operation_id);
        } in
        (do update_operation asked; pure (none, asked)) (record s { approvals = approvals })
  ]
]

abbrev pub is_refused : Option ApprovalItem → Bool
is_refused none = false
is_refused (some item) = elim item.status [ rejected ↦ true | _ ↦ false ]

abbrev pub refusal : Option ApprovalItem → Option String
refusal none = none
refusal (some item) = item.rejected_reason
