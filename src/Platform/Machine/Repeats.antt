-- ===== src/Platform/Machine/Repeats.antt =====
-- src/repo/inmemory/runs.py `create_run`: a request that is sent again creates nothing.
use ven_agent.Prelude.{
  ℕ, ◌≡◌, refl, sym, ap, subst, ◌∙◌, inl, inr, true, false, none, some, String, List, arith, ok,
  err, Result, Bool-cases, Option-cases, text_has_eq, pair_eq, ◌==◌, ◌!=◌, ◌||◌, if◌then◌else◌,
  first, first-append_last,
}
use ven_agent.Prelude.Dict.{get, values, get-put_self}
use ven_agent.Ownership.{Actor, is_active}
use ven_agent.Conversation.{Conversation, ConversationMessage}
use ven_agent.Run.{AgentRun}
use ven_agent.Platform.{PlatformState, PlatformError, RequestRecord, idempotency_conflict, list_at}
use ven_agent.Platform.Conversations.{
  require_conversation, require_active_owner_if_known, owner_is_deleting,
}
use ven_agent.Platform.Runs.{
  RunCreation, create_run, start_run, new_run, require_no_active_run, has_active_run, queued_run,
  replay_create, creation,
}
use ven_agent.Platform.Machine.Requests.{
  require_conversation_cases, creation_reads, replay_create_reads,
}

-- The request is stored for `made`, and its conversation is open to its owner.
record Answers (owner id message request : String) (made : RunCreation) (s : PlatformState)
    : Type 0 where
  conversation : Conversation
  found : get s.conversations id ≡ some conversation
  owned : conversation.owner_id ≡ owner
  active_owner : owner_is_deleting s owner ≡ false
  replay : RequestRecord
  stored : get s.requests (id, request) ≡ some replay
  creates : replay.operation ≡ "create"
  payload : replay.payload ≡ message
  created : (creation replay.run_id replay.input_message_id s).0 ≡ ok made

refused_not_ok :
    {e : PlatformError} {made : RunCreation}
    → ◌≡◌ {A = Result PlatformError RunCreation} (err e) (ok made)
    → ⊥
refused_not_ok h = cc

-- What is stored for a request answers it again, and for no other message.
served_again :
    (actor : Actor) (id message request : String) (now : ℕ)
    (message_uuid run_uuid grant_uuid : String) (made : RunCreation) (sent : String)
    (s : PlatformState)
    → Answers actor.owner_id id sent request made s
    → create_run actor id message request now message_uuid run_uuid grant_uuid s
      ≡ (if message == sent then ok made else err idempotency_conflict, s)
unfolding create_run require_conversation require_active_owner_if_known replay_create
served_again actor id message request now message_uuid run_uuid grant_uuid made sent s a =
    let mine : (a.conversation.owner_id == actor.owner_id) ≡ true =
      (text_has_eq.decides a.conversation.owner_id actor.owner_id).1 a.owned in
    let creating : (a.replay.operation == "create") ≡ true =
      (text_has_eq.decides a.replay.operation "create").1 a.creates in
    let reads : creation a.replay.run_id a.replay.input_message_id s ≡ (ok made, s) =
      ap (λ x. (x, (creation a.replay.run_id a.replay.input_message_id s).1)) a.created
      ∙ ap (λ t. (ok made, t)) (creation_reads a.replay.run_id a.replay.input_message_id s) in
    elim (Bool-cases (message == sent)) [
      | inl same ↦
          let again : (a.replay.payload == message) ≡ true =
            (text_has_eq.decides a.replay.payload message).1
              (a.payload ∙ sym ((text_has_eq.decides message sent).0 same)) in
          simp (a.found, mine, a.active_owner, a.stored, creating, again, same, reads)
      | inr other ↦
          let again : (a.replay.payload == message) ≡ false = ground (
            arith,
            other,
            a.payload,
            text_has_eq.decides a.replay.payload message,
            text_has_eq.decides message sent,
          ) in
          simp (a.found, mine, a.active_owner, a.stored, creating, again, other)
    ]

creation-found :
    (run_id message_id : String) (run : AgentRun) (ms : List ConversationMessage)
    (m : ConversationMessage) (s : PlatformState)
    → get s.runs run_id ≡ some run
    → get s.messages run.conversation_id ≡ some ms
    → first (λ item. item.message_id == message_id) ms ≡ some m
    → creation run_id message_id s ≡ (ok (record { run = run; input_message = m }), s)
unfolding creation get
creation-found run_id message_id run ms m s stored kept found = rw (stored, kept, found) refl

module _ (actor : Actor) (id message request : String) (now : ℕ)
    (message_uuid run_uuid grant_uuid : String) (s : PlatformState) (made : RunCreation)
    (c : Conversation) (found : get s.conversations id ≡ some c)
    (owned : c.owner_id ≡ actor.owner_id)
    (active : owner_is_deleting s actor.owner_id ≡ false) where
  replay_create-Answers :
      (r : RequestRecord)
      → get s.requests (id, request) ≡ some r
      → (replay_create message r s).0 ≡ ok made
      → Answers actor.owner_id id message request made s
  unfolding replay_create
  replay_create-Answers r stored done =
      elim (Bool-cases (r.operation != "create" || r.payload != message)) [
        | inl b ↦ absurd (refused_not_ok (rw b at done))
        | inr b ↦
            let returned : (creation r.run_id r.input_message_id s).0 ≡ ok made = rw b at done in
            record {
              conversation = c;
              found = found;
              owned = owned;
              active_owner = active;
              replay = r;
              stored = stored;
              creates = ground (arith, b, text_has_eq.decides r.operation "create");
              payload = ground (arith, b, text_has_eq.decides r.payload message);
              created = returned;
            }
      ]

  start_run-Answers :
      first (λ item. item.message_id == message_uuid) (list_at s.messages id) ≡ none
      → (start_run actor c id message request now message_uuid run_uuid grant_uuid s).0 ≡ ok made
      → Answers actor.owner_id id message request made
          (start_run actor c id message request now message_uuid run_uuid grant_uuid s).1
  unfolding start_run new_run require_no_active_run queued_run owner_is_deleting
  start_run-Answers unused done = elim (Bool-cases (is_active c.lifecycle_state)) [
    | inr gone ↦ absurd (refused_not_ok (rw gone at done))
    | inl open_one ↦ elim (Bool-cases (has_active_run id (values s.runs))) [
      | inl busy ↦ absurd (refused_not_ok (rw (open_one, busy) at done))
      | inr idle ↦
          let first_done = rw (open_one, idle) at done in
          rw (open_one, idle)
            (record {
              conversation = record c { updated_at = now };
              found = get-put_self s.conversations id _;
              owned = owned;
              active_owner = active;
              replay = record {
                operation = "create";
                payload = message;
                run_id = run_uuid;
                input_message_id = message_uuid;
              };
              stored = get-put_self s.requests (id, request) _;
              creates = refl;
              payload = refl;
              created =
                  ap (λ p. p.0)
                    (creation-found run_uuid message_uuid
                      (queued_run actor id message_uuid now none run_uuid grant_uuid) _ _ _
                      (get-put_self s.runs run_uuid _) (get-put_self s.messages id _)
                      (first-append_last _ _ (list_at s.messages id) unused
                        ((text_has_eq.decides message_uuid message_uuid).1 refl)))
                  ∙ first_done;
            })
    ]
  ]

create_run-Answers :
    (actor : Actor) (id message request : String) (now : ℕ)
    (message_uuid run_uuid grant_uuid : String) (s : PlatformState) (made : RunCreation)
    → first (λ item. item.message_id == message_uuid) (list_at s.messages id) ≡ none
    → (create_run actor id message request now message_uuid run_uuid grant_uuid s).0 ≡ ok made
    → Answers actor.owner_id id message request made
        (create_run actor id message request now message_uuid run_uuid grant_uuid s).1
unfolding create_run require_active_owner_if_known
create_run-Answers actor id message request now message_uuid run_uuid grant_uuid s made unused
      done =
    elim (require_conversation_cases actor.owner_id id s) [
      | inl (e, q) ↦ absurd (refused_not_ok (rw q at done))
      | inr (c, q, g, o) ↦ elim (Bool-cases (owner_is_deleting s actor.owner_id)) [
        | inl d ↦ absurd (refused_not_ok (rw (q, d) at done))
        | inr d ↦ elim (Option-cases (get s.requests (id, request))) [
          | inl n ↦
              rw (q, d, n)
                (start_run-Answers actor id message request now message_uuid run_uuid grant_uuid s
                  made c g o d unused (rw (q, d, n) at done))
          | inr (r, n) ↦
              let replayed : (replay_create message r s).0 ≡ ok made = rw (q, d, n) at done in
              rw (q, d, n, replay_create_reads message r s)
                (replay_create-Answers actor id message request now message_uuid run_uuid grant_uuid
                  s made c g o d r n replayed)
        ]
      ]
    ]

-- After `create_run` has returned a run and its message for a request of a conversation, with a new
-- `uuid4` for the message, a second `create_run` of the same owner with the same conversation and request
-- id, whatever its other arguments, writes nothing: for the same message it returns the very run and
-- message of the first call, and for another one it raises `IdempotencyConflict`.
pub create_run-once :
    (actor : Actor) (id message request : String) (now : ℕ)
    (message_uuid run_uuid grant_uuid : String) (s : PlatformState) (made : RunCreation)
    (actor' : Actor) (message' : String) (now' : ℕ) (message_uuid' run_uuid' grant_uuid' : String)
    → first (λ item. item.message_id == message_uuid) (list_at s.messages id) ≡ none
    → (create_run actor id message request now message_uuid run_uuid grant_uuid s).0 ≡ ok made
    → actor.owner_id ≡ actor'.owner_id
    → create_run actor' id message' request now' message_uuid' run_uuid' grant_uuid'
        (create_run actor id message request now message_uuid run_uuid grant_uuid s).1
      ≡ (
        if message' == message then ok made else err idempotency_conflict,
        (create_run actor id message request now message_uuid run_uuid grant_uuid s).1,
      )
create_run-once actor id message request now message_uuid run_uuid grant_uuid s made actor' message'
      now' message_uuid' run_uuid' grant_uuid' unused done same =
    let answers =
      create_run-Answers actor id message request now message_uuid run_uuid grant_uuid s made unused
        done in
    served_again actor' id message' request now' message_uuid' run_uuid' grant_uuid' made message
      (create_run actor id message request now message_uuid run_uuid grant_uuid s).1
      (subst
        (λ o.
          Answers o id message request made
            (create_run actor id message request now message_uuid run_uuid grant_uuid s).1)
        same answers)
