-- ===== src/Platform/Machine/Removals.antt =====
-- src/repo/inmemory/conversations.py `remove_conversation` takes steps of the abstract machine, and
-- removes runs of its own conversation only.
use ven_agent.Prelude.{
  ◌≡◌, refl, sym, ap, ◌∙◌, ◌⊎◌, inl, inr, some, String, ok, err, ◌==◌, arith, subst, Result,
  and_then, modify, text_has_eq, Bool-cases, Option-cases, List, [], ◌∷◌, any, Occurs,
}
use ven_agent.Prelude.Dict.{Dict, get, pop, values, IsKeyed, get-name, get-pop}
use ven_agent.Run.{AgentRun}
use ven_agent.Platform.{PlatformState, PlatformError, key_error}
use ven_agent.Platform.Removal.{
  remove_requests, remove_run, remove_runs, remove_conversation, unique, ids_of,
}
use ven_agent.Platform.Machine.{Scope, Steps, stay, next, removed}
use ven_agent.Platform.Machine.Guards.{Refuses}
use ven_agent.Platform.Machine.Endings.{Steps-append}

remove_run_cases :
    (id : String) (s : PlatformState)
    → Refuses (remove_run id) s
      ⊎ ((t : PlatformState) × (remove_run id s ≡ (ok tt, t))
          × (t.runs ≡ pop s.runs id)
          × (run : AgentRun) × (get s.runs id ≡ some run))
unfolding remove_run
remove_run_cases id s = elim (Option-cases (get s.runs id)) [
  | inl e ↦ inl (key_error, rw (e, remove_run))
  | inr (run, e) ↦ inr (
    record s { runs = pop s.runs id; grants = pop s.grants run.grant_id },
    rw (e, remove_run),
    refl,
    run,
    e,
  )
]

-- Every run that has one of the ids is of the conversation.
abbrev AllOf : String → List String → Dict String AgentRun → Type 0
AllOf conversation ids d =
    (id : String) (run : AgentRun)
    → Occurs id ids
    → get d id ≡ some run
    → run.conversation_id ≡ conversation

remove_runs-Steps :
    {scope : Scope} (conversation : String) (ids : List String) (s : PlatformState)
    → scope.ended conversation
    → AllOf conversation ids s.runs
    → Steps scope s.runs (remove_runs ids s).1.runs
unfolding remove_runs
remove_runs-Steps conversation [] s ended all = stay
remove_runs-Steps {scope} conversation (id ∷ ids) s ended all = elim (remove_run_cases id s) [
  | inl (e, q) ↦ rw q stay
  | inr (t, q, gone, run, g) ↦
      let of_it = subst scope.ended (sym (all id run (inl refl) g)) ended in
      rw q (
        Steps-append (next stay (removed id run g of_it gone)) (
          remove_runs-Steps conversation ids t ended (λ j other m h.
            all j other (inr m) (ground (arith, get-pop s.runs id j, ap (λ d. get d j) gone, h)))))
]

unique-Occurs : (id : String) (ids : List String) → Occurs id (unique ids) → Occurs id ids
unfolding unique
unique-Occurs id [] m = elim m [ ]
unique-Occurs id (x ∷ xs) m = elim (Bool-cases (any (λ y. x == y) (unique xs))) [
  | inl again ↦ inr (unique-Occurs id xs (rw again at m))
  | inr new ↦ elim (rw new at m) [ inl e ↦ inl e | inr m' ↦ inr (unique-Occurs id xs m') ]
]

ids_of-Occurs :
    (conversation id : String) (runs : List AgentRun)
    → Occurs id (ids_of conversation runs)
    → (run : AgentRun) × Occurs run runs × (run.run_id ≡ id) × (run.conversation_id ≡ conversation)
unfolding ids_of
ids_of-Occurs conversation id [] m = elim m [ ]
ids_of-Occurs conversation id (run ∷ runs) m =
    elim (Bool-cases (run.conversation_id == conversation)) [
      | inr other ↦
          let (r, m', named, here) = ids_of-Occurs conversation id runs (rw other at m) in
          (r, inr m', named, here)
      | inl here ↦ elim (rw here at m) [
        | inl e ↦
            (run, inl refl, sym e, (text_has_eq.decides run.conversation_id conversation).0 here)
        | inr m' ↦
            let (r, m'', named, of_it) = ids_of-Occurs conversation id runs m' in
            (r, inr m'', named, of_it)
      ]
    ]

ids_of-AllOf :
    (conversation : String) (d : Dict String AgentRun)
    → IsKeyed (λ (run : AgentRun). run.run_id) d
    → AllOf conversation (unique (ids_of conversation (values d))) d
ids_of-AllOf conversation d keyed id run m g =
    let (r, m', named, here) = ids_of-Occurs conversation id (values d) (unique-Occurs id _ m) in
    let stored = get-name (λ (x : AgentRun). x.run_id) d r keyed m' in
    let same : some r ≡ some run = sym stored ∙ ap (get d) named ∙ g in
    let same_run : r ≡ run = cc same in ap (λ x. x.conversation_id) (sym same_run) ∙ here

-- The rest of `remove_conversation` leaves the runs alone, whether the removals raised or not.
remove_rest :
    (id : String) (r : Result PlatformError (Unit {0})) (t : PlatformState)
    → (and_then r
        (λ _. modify (λ u. record u {
          requests = remove_requests id u.requests;
          messages = pop u.messages id;
          conversations = pop u.conversations id;
        }))
        t).1.runs
      ≡ t.runs
remove_rest id (ok u) t = refl
remove_rest id (err e) t = refl

pub remove_conversation-Steps :
    {scope : Scope} (owner id : String) (s : PlatformState)
    → scope.ended id
    → IsKeyed (λ (run : AgentRun). run.run_id) s.runs
    → Steps scope s.runs (remove_conversation owner id s).1.runs
unfolding remove_conversation
remove_conversation-Steps {scope} owner id s ended keyed =
    elim (Option-cases (get s.conversations id)) [
      | inl e ↦ rw (e, remove_conversation) stay
      | inr (c, e) ↦ elim (Bool-cases (c.owner_id == owner)) [
        | inr other ↦ rw (e, remove_conversation, other) stay
        | inl own ↦
            let ids = unique (ids_of id (values s.runs)) in
            let (r, t) = remove_runs ids s in
            rw (e, remove_conversation, own)
              (subst (Steps scope s.runs) (sym (remove_rest id r t))
                (remove_runs-Steps id ids s ended (ids_of-AllOf id s.runs keyed)))
      ]
    ]
