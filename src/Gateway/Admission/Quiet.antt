-- ===== src/Gateway/Admission/Quiet.antt =====
-- src/tools/gateway.py: the steps of `invoke` that do not call the executor.
use ven_agent.Prelude.{
  ℕ, ◌≡◌, refl, ◌⊎◌, inl, inr, Option, String, List, Result, ok, err, and_then, Option-cases,
  Bool-cases,
}
use ven_agent.Approval.{ApprovalItem}
use ven_agent.Gateway.{Operation, ToolDescriptor, ToolResult, save, update, find_operation}
use ven_agent.Gateway.Invoke.{
  Execution, GatewayState, GatewayError, Invoking, Ending, finished, stopped, timed_out, raised,
  Gateway, Invocation, emit, update_operation, record_terminal_result, find_or_save, settle,
  unconsented, is_refused, call_key, new_operation,
}

-- What holds of the state after the first step, and is kept by the second, holds after both.
pub after :
    {A B : Type 0} (P : GatewayState → Type 0) (x : Result GatewayError A × GatewayState)
    (f : A → Invoking B)
    → P x.1
    → ((a : A) (t : GatewayState) → P t → P (f a t).1)
    → P (and_then x.0 f x.1).1
after P (ok a, t) f h k = k a t h
after P (err e, t) f h k = h

pub Result-cases :
    {E A : Type 0} (r : Result E A) → ((a : A) × (r ≡ ok a)) ⊎ ((e : E) × (r ≡ err e))
Result-cases (ok a) = inl (a, refl)
Result-cases (err e) = inr (e, refl)

-- What follows from `Q`, and what the second step reaches from `Q`, is reached by both steps.
pub reach_after :
    {A B : Type 0} (Q R : GatewayState → Type 0) (x : Result GatewayError A × GatewayState)
    (f : A → Invoking B)
    → Q x.1
    → ((t : GatewayState) → Q t → R t)
    → ((a : A) (t : GatewayState) → Q t → R (f a t).1)
    → R (and_then x.0 f x.1).1
reach_after Q R (ok a, t) f h j k = k a t h
reach_after Q R (err e, t) f h j k = j t h

module _ (E : List Execution) where
  -- The executor's calls are those of `E`.
  abbrev pub Calls : GatewayState → Type 0
  Calls s = s.executions ≡ E

  pub emit-Calls :
      (o : Operation) (kind : String) (s : GatewayState) → Calls s → Calls (emit o kind s).1
  unfolding emit
  emit-Calls o kind s h = h

  pub update_operation-Calls :
      (o : Operation) (s : GatewayState) → Calls s → Calls (update_operation o s).1
  unfolding update_operation
  update_operation-Calls o s h = elim (Result-cases (update o s.operations).0) [
    | inl (a, q) ↦ rw (q, update_operation) h
    | inr (e, q) ↦ rw (q, update_operation) h
  ]

  pub record_terminal_result-Calls :
      (o : Operation) (result : ToolResult) (now : ℕ) (s : GatewayState)
      → Calls s
      → Calls (record_terminal_result o result now s).1
  unfolding record_terminal_result
  record_terminal_result-Calls o result now s h =
      after Calls (update_operation _ s) _ (update_operation-Calls _ s h) (λ a t k. k)

  pub unconsented-Calls :
      (g : Gateway) (inv : Invocation) (o : Operation) (latest : Option ApprovalItem) (finish : ℕ)
      (s : GatewayState)
      → Calls s
      → Calls (unconsented g inv o latest finish s).1
  unfolding unconsented emit
  unconsented-Calls g inv o latest finish s h = elim (Bool-cases (is_refused latest)) [
    | inl refused ↦ rw (refused, unconsented) (record_terminal_result-Calls o _ finish s h)
    | inr unheard ↦ rw (unheard, unconsented) h
  ]

  pub settle-Calls :
      (g : Gateway) (inv : Invocation) (o : Operation) (ending : Ending) (now elapsed : ℕ)
      (s : GatewayState)
      → Calls s
      → Calls (settle g inv o ending now elapsed s).1
  unfolding settle emit
  settle-Calls g inv o stopped now elapsed s h = record_terminal_result-Calls o _ now _ h
  settle-Calls g inv o timed_out now elapsed s h = record_terminal_result-Calls o _ now _ h
  settle-Calls g inv o (raised code) now elapsed s h =
      after Calls (update_operation _ s) _ (update_operation-Calls _ s h) (λ a t k. k)
  settle-Calls g inv o (finished result) now elapsed s h =
      after Calls (update_operation _ s) _ (update_operation-Calls _ s h) (λ a t k. k)

  pub find_or_save-Calls :
      (inv : Invocation) (d : ToolDescriptor) (now : ℕ) (uuid : String) (s : GatewayState)
      → Calls s
      → Calls (find_or_save inv d now uuid s).1
        × ((find_or_save inv d now uuid s).1.approvals ≡ s.approvals)
  unfolding find_or_save
  find_or_save-Calls inv d now uuid s h =
      elim (Option-cases (find_operation (call_key inv) s.operations)) [
        | inr (o, found) ↦ rw (found, find_or_save) (h, refl)
        | inl absent ↦
            let (saved, store) = save (new_operation inv d now uuid) s.operations in
            elim (Result-cases (save (new_operation inv d now uuid) s.operations).0) [
              | inl (o, q) ↦ rw (absent, q, find_or_save) (h, refl)
              | inr (e, q) ↦
                  elim (Option-cases (
                    find_operation (call_key inv)
                      (save (new_operation inv d now uuid) s.operations).1)) [
                        | inl none_there ↦ rw (absent, q, none_there, find_or_save) (h, refl)
                        | inr (o, there) ↦ rw (absent, q, there, find_or_save) (h, refl)
                      ]
            ]
      ]
