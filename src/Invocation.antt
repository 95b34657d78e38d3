-- ===== src/Invocation.antt =====
-- src/tools/invocation_store.py: InMemoryInvocationStore, the private arguments of the tool calls.
-- `Arguments` is Python's `dict[str, Any]`; the copies that `dict(…)` makes are the value itself.
pub mod Refinement
pub mod Sequences
mod Tests
use ven_agent.Prelude.{
  ℕ, Bool, false, Option, none, some, String, List, [], ◌∷◌, ◌==◌, ◌!=◌, text_has_eq, option_eq,
  pair_eq, if◌then◌else◌, leb, Result, ok, err,
}
use ven_agent.Prelude.Dict.{Dict, get, put, pop}

-- The run, the tool call and the operation key.
abbrev pub Key : Type 0
Key = String × (String × String)

pub record InvocationStore (Arguments : Type 0) : Type 0 where
  pub items : Dict Key Arguments
  pub owners : Dict Key String
  pub operations : Dict Key String
  pub expires : Dict Key (Option ℕ)

pub data InvocationError : Type 0 where
  invocation_payload_not_found : InvocationError

-- `d.get(key)` of a dict whose values may be None.
abbrev pub get_time : Dict Key (Option ℕ) → Key → Option ℕ
get_time d key = elim (get d key) [ none ↦ none | some t ↦ t ]

abbrev pub is_past : Option ℕ → ℕ → Bool
is_past none now = false
is_past (some t) now = leb t now

module _ {Arguments : Type 0} where
  unfoldable pub delete_locked : Key → InvocationStore Arguments → InvocationStore Arguments
  delete_locked key s = record {
    items = pop s.items key;
    owners = pop s.owners key;
    operations = pop s.operations key;
    expires = pop s.expires key;
  }

  unfoldable pub save :
      Key
      → String
      → String
      → Arguments
      → Option ℕ
      → InvocationStore Arguments
      → InvocationStore Arguments
  save key owner_id operation_id arguments expires_at s = record {
    items = put s.items key arguments;
    owners = put s.owners key owner_id;
    operations = put s.operations key operation_id;
    expires = put s.expires key expires_at;
  }

  unfoldable pub get_payload :
      Key
      → String
      → ℕ
      → InvocationStore Arguments
      → Result InvocationError Arguments × InvocationStore Arguments
  unfolding delete_locked
  get_payload key owner_id now s = elim (get s.items key) [
    | none ↦ (err invocation_payload_not_found, s)
    | some arguments ↦
        if get s.owners key != some owner_id
        then (err invocation_payload_not_found, s)
        else if is_past (get_time s.expires key) now
        then (err invocation_payload_not_found, delete_locked key s)
        else (ok arguments, s)
  ]

  unfoldable pub delete : Key → String → InvocationStore Arguments → InvocationStore Arguments
  unfolding delete_locked
  delete key owner_id s = if get s.owners key == some owner_id then delete_locked key s else s

  -- `[key for key in self._items if key[0] == run_id]`
  unfoldable pub keys_of_run : String → Dict Key Arguments → List Key
  keys_of_run run_id [] = []
  keys_of_run run_id ((key, arguments) ∷ entries) =
      let rest = keys_of_run run_id entries in if key.0 == run_id then key ∷ rest else rest

  unfoldable pub delete_each : List Key → InvocationStore Arguments → InvocationStore Arguments
  unfolding delete_locked
  delete_each [] s = s
  delete_each (key ∷ keys) s = delete_each keys (delete_locked key s)

  unfoldable pub delete_run : String → InvocationStore Arguments → InvocationStore Arguments
  unfolding keys_of_run delete_each
  delete_run run_id s = delete_each (keys_of_run run_id s.items) s

  unfoldable pub operation_id : Key → String → InvocationStore Arguments → Option String
  operation_id key owner_id s = elim (get s.items key) [
    | none ↦ none
    | some arguments ↦ if get s.owners key != some owner_id then none else get s.operations key
  ]
