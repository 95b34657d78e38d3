-- ===== src/Invocation/Tests.antt =====
-- Payloads of two runs, and the theorem at these calls.
use ven_agent.Prelude.{ℕ, ◌≡◌, refl, none, some, List, [], ◌∷◌, ok, err}
use ven_agent.Prelude.Dict.{get, put, pop}
use ven_agent.Invocation.{
  Key, InvocationStore, invocation_payload_not_found, delete_locked, save, get_payload, delete,
  keys_of_run, delete_each, delete_run, operation_id,
}
use ven_agent.Invocation.Refinement.{View, Represents}
use ven_agent.Invocation.Sequences.{
  InvocationCall, saves, gets_at, deletes, deletes_run, asks_operation, nothing, payload, operation,
  replies, answers, replies-refine,
}

abbrev empty : InvocationStore ℕ
empty = record { items = []; owners = []; operations = []; expires = [] }

abbrev no_payload : View ℕ
no_payload key = none

empty-Represents : Represents no_payload empty
unfolding get
empty-Represents = record {
  items = λ k. refl;
  owners = λ k. refl;
  operations = λ k. refl;
  expires = λ k. refl;
}

abbrev first : Key
first = ("r1", ("t1", "k1"))

abbrev second : Key
second = ("r2", ("t1", "k1"))

abbrev script : List (InvocationCall ℕ)
script =
    saves first "ann" "o1" 7 (some 50)
    ∷ saves second "bob" "o2" 8 none
    ∷ gets_at first "bob" 10
    ∷ gets_at first "ann" 10
    ∷ gets_at first "ann" 50
    ∷ asks_operation first "ann"
    ∷ deletes_run "r1"
    ∷ deletes second "ann"
    ∷ asks_operation second "bob"
    ∷ []

replies-refine_example : replies script empty ≡ answers script no_payload
replies-refine_example = replies-refine script no_payload empty empty-Represents

replies_seen :
    replies script empty
    ≡ nothing
      ∷ nothing
      ∷ payload (err invocation_payload_not_found)
      ∷ payload (ok 7)
      ∷ payload (err invocation_payload_not_found)
      ∷ operation none
      ∷ nothing
      ∷ nothing
      ∷ operation (some "o2")
      ∷ []
unfolding replies save get_payload delete delete_run operation_id keys_of_run delete_each
    delete_locked get put pop
replies_seen = refl
