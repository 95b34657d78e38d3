-- ===== src/Gateway/Admission/Retries.antt =====
-- src/tools/gateway.py `_execute`: how often the executor is called.
use ven_agent.Prelude.{
  ℕ, zero, suc, ◌+◌, ◌≤◌, ◌<◌, ◌≡◌, refl, ap, subst, ◌∙◌, inl, inr, true, false, List, ◌∷◌, arith,
  ok, Bool-cases,
}
use ven_agent.Gateway.Invoke.{
  Execution, GatewayState, Endings, is_retryable, log_call, run_attempts,
}

abbrev pub repeated : ℕ → Execution → List Execution → List Execution
repeated zero call E = E
repeated (suc n) call E = call ∷ repeated n call E

repeated-cons :
    (n : ℕ) (call : Execution) (E : List Execution)
    → repeated n call (call ∷ E) ≡ call ∷ repeated n call E
repeated-cons zero call E = refl
repeated-cons (suc n) call E = ap (λ t. call ∷ t) (repeated-cons n call E)

-- What the loop of `_execute` does from an attempt on: it calls the executor for that attempt, and for some
-- that follow it, each after a retryable end of the one before.
pub record Tried (call : Execution) (endings : Endings) (attempt left : ℕ) (s : GatewayState)
    : Type 0 where
  pub retries : ℕ
  pub calls :
      (run_attempts call endings attempt left s).1.executions
      ≡ call ∷ repeated retries call s.executions
  pub limit : retries ≤ left
  pub retried : (k : ℕ) → k < retries → is_retryable call.descriptor (endings (attempt + k)) ≡ true

module _ (call : Execution) (endings : Endings) (attempt left : ℕ) (s : GatewayState) where
  run_attempts-again :
      is_retryable call.descriptor (endings attempt) ≡ true
      → run_attempts call endings attempt (suc left) s
        ≡ run_attempts call endings (attempt + 1) left (log_call call s)
  unfolding run_attempts
  run_attempts-again again =
      ap
        (λ b. elim b [
          | true ↦ run_attempts call endings (attempt + 1) left (log_call call s)
          | false ↦ (ok (endings attempt), log_call call s)
        ])
        again

  run_attempts-ended :
      is_retryable call.descriptor (endings attempt) ≡ false
      → run_attempts call endings attempt (suc left) s ≡ (ok (endings attempt), log_call call s)
  unfolding run_attempts
  run_attempts-ended ended =
      ap
        (λ b. elim b [
          | true ↦ run_attempts call endings (attempt + 1) left (log_call call s)
          | false ↦ (ok (endings attempt), log_call call s)
        ])
        ended

pub run_attempts-Tried :
    (call : Execution) (endings : Endings) (attempt left : ℕ) (s : GatewayState)
    → Tried call endings attempt left s
unfolding run_attempts
run_attempts-Tried call endings attempt zero s = record {
  retries = 0;
  calls = refl;
  limit = omega arith;
  retried = λ k h. absurd (omega (arith, h));
}
run_attempts-Tried call endings attempt (suc left) s =
    elim (Bool-cases (is_retryable call.descriptor (endings attempt))) [
      | inr ended ↦ record {
        retries = 0;
        calls = ap (λ r. r.1.executions) (run_attempts-ended call endings attempt left s ended);
        limit = omega arith;
        retried = λ k h. absurd (omega (arith, h));
      }
      | inl again ↦
          let rest = run_attempts-Tried call endings (attempt + 1) left (log_call call s) in
          record {
            retries = suc rest.retries;
            calls =
                ap (λ r. r.1.executions) (run_attempts-again call endings attempt left s again)
                ∙ rest.calls
                ∙ ap (λ t. call ∷ t) (repeated-cons rest.retries call s.executions);
            limit = omega (arith, rest.limit);
            retried = λ k h. earlier again rest.retries rest.retried k h;
          }
    ]
  where
    earlier :
        is_retryable call.descriptor (endings attempt) ≡ true
        → (n : ℕ)
        → ((k : ℕ) → k < n → is_retryable call.descriptor (endings (attempt + 1 + k)) ≡ true)
        → (k : ℕ) → k < suc n
        → is_retryable call.descriptor (endings (attempt + k)) ≡ true
    earlier again n later zero h =
        subst (λ i. is_retryable call.descriptor (endings i) ≡ true) (omega arith) again
    earlier again n later (suc k) h =
        subst (λ i. is_retryable call.descriptor (endings i) ≡ true) (omega arith)
          (later k (omega (arith, h)))
