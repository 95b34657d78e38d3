-- ===== src/Gateway.antt =====
-- src/tools/models.py and src/tools/operation_store.py: tools, their calls' operations and results,
-- and the store of the operations. Each method of the store holds its lock.
pub mod Invoke
pub mod Admission
mod Tests
use ven_agent.Prelude.{
  ℕ, ◌≡◌, ◌↔◌, Bool, true, false, Option, none, some, String, List, [], ◌∷◌, ◌++◌, arith, ◌==◌,
  ◌!=◌, ◌&&◌, ◌||◌, HasEq, text_has_eq, pair_eq, option_eq, Action, Result, ok, err, raise,
  raise_if, pure, ◌>>=◌, ◌>>◌, first, select, if◌then◌else◌,
}
use ven_agent.Prelude.Dict.{Dict, get, put, values}

pub data RiskLevel : Type 0 where
  safe warn block : RiskLevel

pub data OperationStatus : Type 0 where
  queued running awaiting_approval succeeded failed cancelled : OperationStatus

pub data ToolResultStatus : Type 0 where
  success error blocked cancelled awaiting_approval : ToolResultStatus

pub record ArtifactRef : Type 0 where
  pub artifact_id : String
  pub source : String
  pub size_bytes : ℕ
  pub content_type : String
  pub checksum_sha256 : Option String

-- The schema of a tool's arguments, which is read by `validate_arguments` only, is left out.
pub record ToolDescriptor : Type 0 where
  pub tool_id : String
  pub public_name : String
  pub source : String
  pub description : String
  pub server_id : Option String
  pub risk : RiskLevel
  pub version : String
  pub exposed : Bool
  pub unavailable_reason : Option String
  pub metadata : List (String × String)

pub record ToolCatalogSnapshot : Type 0 where
  pub snapshot_id : String
  pub created_at : String
  pub policy_version : String
  pub catalog_revision : ℕ
  pub sandbox_state : String
  pub tools : List ToolDescriptor
  pub run_id : Option String

unfoldable pub exposed_tools : ToolCatalogSnapshot → List ToolDescriptor
exposed_tools snapshot = select (λ tool. tool.exposed) snapshot.tools

unfoldable pub by_id : ToolCatalogSnapshot → String → Option ToolDescriptor
by_id snapshot tool_id = first (λ item. item.tool_id == tool_id) snapshot.tools

pub record Operation : Type 0 where
  pub operation_id : String
  pub run_id : String
  pub owner_id : String
  pub tool_call_id : String
  pub operation_key : String
  pub tool_id : String
  pub status : OperationStatus
  pub risk : RiskLevel
  pub created_at : ℕ
  pub updated_at : ℕ
  pub approval_id : Option String
  pub error_code : Option String
  pub result_summary : Option String
  pub source : String
  pub server_id : Option String
  pub arguments_summary : String
  pub risk_reason : Option String
  pub timing_ms : ℕ
  pub artifacts : List ArtifactRef
  pub sandbox_generation_id : Option String
  pub sandbox_state : String

pub record ToolResult : Type 0 where
  pub tool_call_id : String
  pub operation_id : String
  pub status : ToolResultStatus
  pub summary : String
  pub content : String
  pub artifacts : List ArtifactRef
  pub error : Option String
  pub timing_ms : ℕ
  pub approval_id : Option String

-- `(run_id, tool_call_id, operation_key)`
abbrev pub CallKey : Type 0
CallKey = String × (String × String)

-- Of an event its kind is kept: the payload repeats fields of the operation and its result.
pub record OperationStore : Type 0 where
  pub operations : Dict String Operation
  pub duplicate_keys : Dict CallKey String
  pub results : Dict String ToolResult
  pub events : Dict String (List String)

pub data StoreError : Type 0 where
  operation_not_found operation_duplicate : StoreError

abbrev pub Storing : Type 0 → Type 0
Storing A = Action OperationStore StoreError A

abbrev pub key_of : Operation → CallKey
key_of operation = (operation.run_id, (operation.tool_call_id, operation.operation_key))

abbrev pub is_present : {A : Type 0} → Option A → Bool
is_present none = false
is_present (some a) = true

-- An operation whose id is taken, or whose call has another operation, is a duplicate.
unfoldable pub save : Operation → Storing Operation
save operation s =
    if is_present (get s.operations operation.operation_id)
      || elim (get s.duplicate_keys (key_of operation)) [
        | none ↦ false
        | some existing ↦ existing != operation.operation_id
      ]
    then (err operation_duplicate, s)
    else (
      ok operation,
      record s {
        operations = put s.operations operation.operation_id operation;
        duplicate_keys = put s.duplicate_keys (key_of operation) operation.operation_id;
      },
    )

unfoldable pub get_operation : String → Storing Operation
get_operation operation_id s = elim (get s.operations operation_id) [
  | none ↦ (err operation_not_found, s)
  | some item ↦ (ok item, s)
]

unfoldable pub update : Operation → Storing Operation
update operation s =
    if is_present (get s.operations operation.operation_id)
    then (ok operation, record s { operations = put s.operations operation.operation_id operation })
    else (err operation_not_found, s)

unfoldable pub save_result : String → ToolResult → OperationStore → OperationStore
save_result operation_id result s = record s { results = put s.results operation_id result }

unfoldable pub append_event : String → String → OperationStore → OperationStore
append_event operation_id kind s =
    let events : List String = elim (get s.events operation_id) [
      | none ↦ []
      | some kinds ↦ kinds
    ] in
    record s { events = put s.events operation_id (events ++ kind ∷ []) }

unfoldable pub find_duplicate : CallKey → OperationStore → Option ToolResult
find_duplicate key s = elim (get s.duplicate_keys key) [
  | none ↦ none
  | some operation_id ↦ get s.results operation_id
]

unfoldable pub find_operation : CallKey → OperationStore → Option Operation
find_operation key s = elim (get s.duplicate_keys key) [
  | none ↦ none
  | some operation_id ↦ get s.operations operation_id
]

unfoldable pub list_by_owner : String → Option String → OperationStore → List Operation
list_by_owner owner_id run_id s =
    select
      (λ item. item.owner_id == owner_id && elim run_id [ none ↦ true | some r ↦ item.run_id == r ])
      (values s.operations)

-- Whether the state was the expected one, and the store after it was set.
unfoldable pub compare_and_set_sandbox_state :
    String → String → String → Option String → ℕ → OperationStore → Bool × OperationStore
compare_and_set_sandbox_state operation_id expected next_state generation_id now s =
    elim (get s.operations operation_id) [
      | none ↦ (false, s)
      | some operation ↦ if operation.sandbox_state != expected then (false, s) else (
        true,
        record s {
          operations = put s.operations operation_id (record operation {
            sandbox_state = next_state;
            sandbox_generation_id = generation_id;
            updated_at = now;
          });
        },
      )
    ]
