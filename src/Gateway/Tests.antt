-- ===== src/Gateway/Tests.antt =====
-- Calls of the tool gateway of src/tools/gateway.py, and the theorems at them.
use ven_agent.Prelude.{◌≡◌, refl, true, none, some, String, [], ◌∷◌, err, text_has_eq, ◌==◌}
use ven_agent.Prelude.Dict.{get, put, pop}
use ven_agent.Approval.{create, store_item, find_item, put_item, decide_detailed, resolve_identity}
use ven_agent.Gateway.{
  RiskLevel, safe, warn, block, success, ToolDescriptor, ToolCatalogSnapshot, by_id, exposed_tools,
  save, update, save_result, append_event, find_duplicate, find_operation, get_operation,
  list_by_owner, compare_and_set_sandbox_state,
}
use ven_agent.Gateway.Invoke.{
  GatewayState, Gateway, Invocation, Execution, Endings, raised, is_retryable, run_attempts,
  finished, emit, update_operation, record_terminal_result, find_or_save, resolve_approval,
  sanitize_result, settle, execute, unconsented, with_consent, dispatch, invoke_new,
  is_of_other_run, is_unauthorized, invoke, run_grant_invalid,
}
use ven_agent.Gateway.Admission.Executor.{CallsOnlyIf, IsFresh, IsCleared, invoke-IsCleared}

calls : Unit {0}
unfolding get put pop create store_item find_item put_item decide_detailed resolve_identity by_id
    exposed_tools save update save_result append_event find_duplicate find_operation get_operation
    list_by_owner compare_and_set_sandbox_state emit update_operation record_terminal_result
    find_or_save resolve_approval sanitize_result settle is_retryable run_attempts execute
    unconsented with_consent dispatch invoke_new is_of_other_run is_unauthorized invoke
calls = tt

abbrev tool : String → RiskLevel → ToolDescriptor
tool id risk = record {
  tool_id = id;
  public_name = id;
  source = "native";
  description = "";
  server_id = none;
  risk = risk;
  version = "1";
  exposed = true;
  unavailable_reason = none;
  metadata = [];
}

-- A safe tool of MCP.
abbrev remote : ToolDescriptor
remote = record (tool "feed" safe) { source = "mcp" }

abbrev catalog : ToolCatalogSnapshot
catalog = record {
  snapshot_id = "s1";
  created_at = "";
  policy_version = "v1";
  catalog_revision = 1;
  sandbox_state = "ready";
  tools = tool "look" safe ∷ tool "mail" warn ∷ tool "wipe" block ∷ remote ∷ [];
  run_id = some "r1";
}

abbrev gateway : Gateway
gateway = record {
  has_executor = true;
  retry_attempts = 1;
  run_authorizer = some (λ run_id owner_id. owner_id == "alice");
  redact_text = λ text. text;
  truncate_content = λ text n. text;
  save_text = none;
}

abbrev call : String → String → Invocation
call owner_id tool_id = record {
  run_id = "r1";
  owner_id = owner_id;
  tool_call_id = "tc1";
  operation_key = "k1";
  tool_id = tool_id;
  accepts = λ descriptor. true;
  arguments_summary = "{}";
  approval_id = none;
}

abbrev idle : GatewayState
idle = record {
  operations = record { operations = []; duplicate_keys = []; results = []; events = [] };
  approvals = record { items = []; ttl = 300 };
  executions = [];
}

abbrev sent : Endings
sent attempt = finished (record {
  tool_call_id = "";
  operation_id = "";
  status = success;
  summary = "sent";
  content = "ok";
  artifacts = [];
  error = none;
  timing_ms = 0;
  approval_id = none;
})

-- The mail tool is asked for; alice agrees; it is asked for again, and once more.
abbrev asked : GatewayState
asked = (invoke gateway catalog (call "alice" "mail") 10 "o1" sent 11 1 idle).1

abbrev agreed : GatewayState
agreed = record asked {
  approvals = (decide_detailed "ap-r1-o1" "alice" true none 20 asked.approvals).1;
}

abbrev mailed : GatewayState
mailed = (invoke gateway catalog (call "alice" "mail") 30 "o2" sent 31 1 agreed).1

abbrev the_mail : Execution
the_mail = record {
  descriptor = tool "mail" warn;
  run_id = "r1";
  owner_id = "alice";
  operation_id = "o1";
}

mail_runs_once :
    (asked.executions ≡ [])
    × (mailed.executions ≡ the_mail ∷ [])
    × ((invoke gateway catalog (call "alice" "mail") 40 "o3" sent 41 1 mailed).1 ≡ mailed)
unfolding calls
mail_runs_once = (refl, refl, refl)

others_do_not_run :
    ((invoke gateway catalog (call "bob" "look") 10 "o1" sent 11 1 idle).0 ≡ err run_grant_invalid)
    × ((invoke gateway catalog (call "alice" "wipe") 10 "o1" sent 11 1 idle).1.executions ≡ [])
unfolding calls
others_do_not_run = (refl, refl)

-- The server answers 503 each time: the tool is tried once more, and only if it is MCP's.
abbrev unavailable : Endings
unavailable attempt = raised "mcp_http_503"

abbrev the_feed : Execution
the_feed = record { descriptor = remote; run_id = "r1"; owner_id = "alice"; operation_id = "o1" }

safe_calls_are_retried :
    ((invoke gateway catalog (call "alice" "feed") 10 "o1" unavailable 11 1 idle).1.executions
      ≡ the_feed ∷ the_feed ∷ [])
    × ((invoke gateway catalog (call "alice" "look") 10 "o1" unavailable 11 1 idle).1.executions
        ≡ (record the_feed { descriptor = tool "look" safe }) ∷ [])
unfolding calls
safe_calls_are_retried = (refl, refl)

invoke-IsCleared_example :
    CallsOnlyIf gateway catalog
      (call "alice" "mail")
      agreed
      sent
      (λ e.
        IsFresh gateway catalog (call "alice" "mail") agreed
        × IsCleared gateway catalog (call "alice" "mail") agreed e)
      mailed
invoke-IsCleared_example =
    invoke-IsCleared gateway catalog (call "alice" "mail") agreed 30 "o2" sent 31 1
