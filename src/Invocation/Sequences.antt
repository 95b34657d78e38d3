-- ===== src/Invocation/Sequences.antt =====
-- Sequences of calls of InMemoryInvocationStore, and the same calls on the one map that it stands for.
use mathlib.Core.Option
use ven_agent.Prelude.{
  ℕ, ◌≡◌, refl, ap, ◌∙◌, inl, inr, Option, none, some, String, List, [], ◌∷◌, ◌==◌, text_has_eq,
  option_eq, pair_eq, if◌then◌else◌, Bool-cases, Option-cases, Result, ok, err,
}
use ven_agent.Prelude.Dict.{get}
use ven_agent.Invocation.{
  Key, InvocationStore, InvocationError, invocation_payload_not_found, get_time, is_past, save,
  get_payload, delete, delete_run, operation_id,
}
use ven_agent.Invocation.Refinement.{
  View, Payload, without, with_payload, without_run, Represents, save-Represents,
  delete_locked-Represents, delete_run-Represents,
}

pub data InvocationCall (Arguments : Type 0) : Type 0 where
  saves :
      (key : Key) (owner operation : String) (arguments : Arguments) (expires : Option ℕ)
      → InvocationCall Arguments
  gets_at : (key : Key) (owner : String) (now : ℕ) → InvocationCall Arguments
  deletes : (key : Key) (owner : String) → InvocationCall Arguments
  deletes_run : (run : String) → InvocationCall Arguments
  asks_operation : (key : Key) (owner : String) → InvocationCall Arguments

-- What a call returns or raises.
pub data Reply (Arguments : Type 0) : Type 0 where
  nothing : Reply Arguments
  payload : Result InvocationError Arguments → Reply Arguments
  operation : Option String → Reply Arguments

module _ {Arguments : Type 0} where
  abbrev pub reply :
      InvocationCall Arguments
      → InvocationStore Arguments
      → Reply Arguments × InvocationStore Arguments
  reply (saves key owner id arguments expires) s = (nothing, save key owner id arguments expires s)
  reply (gets_at key owner now) s = let r = get_payload key owner now s in (payload r.0, r.1)
  reply (deletes key owner) s = (nothing, delete key owner s)
  reply (deletes_run run) s = (nothing, delete_run run s)
  reply (asks_operation key owner) s = (operation (operation_id key owner s), s)

  unfoldable pub replies :
      List (InvocationCall Arguments) → InvocationStore Arguments → List (Reply Arguments)
  unfolding save get_payload delete delete_run operation_id
  replies [] s = []
  replies (c ∷ cs) s = (reply c s).0 ∷ replies cs (reply c s).1

  -- The payload of a call, for its owner only.
  abbrev pub owned : Option (Payload Arguments) → String → Option (Payload Arguments)
  owned none owner = none
  owned (some p) owner = if p.owner_id == owner then some p else none

  abbrev pub if_owned : {A : Type 0} → Option (Payload Arguments) → A → (Payload Arguments → A) → A
  if_owned none a f = a
  if_owned (some p) a f = f p

  -- The same call on the map: only the owner of a payload that has not expired reads it.
  abbrev pub answer : InvocationCall Arguments → View Arguments → Reply Arguments × View Arguments
  answer (saves key owner id arguments expires) m = (
    nothing,
    with_payload key
        (record {
          arguments = arguments;
          owner_id = owner;
          operation_id = id;
          expires_at = expires;
        })
        m,
  )
  answer (gets_at key owner now) m =
      if_owned (owned (m key) owner) (payload (err invocation_payload_not_found), m)
        (λ p.
          if is_past p.expires_at now
          then (payload (err invocation_payload_not_found), without key m)
          else (payload (ok p.arguments), m))
  answer (deletes key owner) m = (nothing, if_owned (owned (m key) owner) m (λ p. without key m))
  answer (deletes_run run) m = (nothing, without_run run m)
  answer (asks_operation key owner) m =
      (operation (if_owned (owned (m key) owner) none (λ p. some p.operation_id)), m)

  unfoldable pub answers : List (InvocationCall Arguments) → View Arguments → List (Reply Arguments)
  answers [] m = []
  answers (c ∷ cs) m = (answer c m).0 ∷ answers cs (answer c m).1

  -- The call gives the same reply on both, and leaves a store that represents the map.
  abbrev Agrees : InvocationCall Arguments → View Arguments → InvocationStore Arguments → Type 0
  Agrees c m s = ((reply c s).0 ≡ (answer c m).0) × Represents (answer c m).1 (reply c s).1

  gets-Agrees :
      (key : Key) (owner : String) (now : ℕ) (m : View Arguments) (s : InvocationStore Arguments)
      → Represents m s
      → Agrees (gets_at key owner now) m s
  unfolding get_payload
  gets-Agrees key owner now m s h = elim (Option-cases (m key)) [
    | inl absent ↦
        let item : get s.items key ≡ none = h.items key ∙ ap (Option.map _) absent in
        rw (item, absent, get_payload) (refl, h)
    | inr (p, present) ↦
        let item : get s.items key ≡ some p.arguments = h.items key ∙ ap (Option.map _) present in
        let holder : get s.owners key ≡ some p.owner_id =
          h.owners key ∙ ap (Option.map _) present in
        let stored : get s.expires key ≡ some p.expires_at =
          h.expires key ∙ ap (Option.map _) present in
        let time : get_time s.expires key ≡ p.expires_at = rw (get_time, stored) refl in
        elim (Bool-cases (p.owner_id == owner)) [
          | inr other ↦ rw (item, get_payload, holder, present, other) (refl, h)
          | inl mine ↦ elim (Bool-cases (is_past p.expires_at now)) [
            | inl past ↦
                rw (item, get_payload, holder, time, present, mine, past)
                  (refl, delete_locked-Represents m s key h)
            | inr still ↦ rw (item, get_payload, holder, time, present, mine, still) (refl, h)
          ]
        ]
  ]

  deletes-Agrees :
      (key : Key) (owner : String) (m : View Arguments) (s : InvocationStore Arguments)
      → Represents m s
      → Agrees (deletes key owner) m s
  unfolding delete
  deletes-Agrees key owner m s h = elim (Option-cases (m key)) [
    | inl absent ↦
        let holder : get s.owners key ≡ none = h.owners key ∙ ap (Option.map _) absent in
        rw (holder, absent, delete) (refl, h)
    | inr (p, present) ↦
        let holder : get s.owners key ≡ some p.owner_id =
          h.owners key ∙ ap (Option.map _) present in
        elim (Bool-cases (p.owner_id == owner)) [
          | inl mine ↦ rw (holder, delete, present, mine) (refl, delete_locked-Represents m s key h)
          | inr other ↦ rw (holder, delete, present, other) (refl, h)
        ]
  ]

  asks-Agrees :
      (key : Key) (owner : String) (m : View Arguments) (s : InvocationStore Arguments)
      → Represents m s
      → Agrees (asks_operation key owner) m s
  unfolding operation_id
  asks-Agrees key owner m s h = elim (Option-cases (m key)) [
    | inl absent ↦
        let item : get s.items key ≡ none = h.items key ∙ ap (Option.map _) absent in
        rw (item, absent, operation_id) (refl, h)
    | inr (p, present) ↦
        let item : get s.items key ≡ some p.arguments = h.items key ∙ ap (Option.map _) present in
        let holder : get s.owners key ≡ some p.owner_id =
          h.owners key ∙ ap (Option.map _) present in
        let id : get s.operations key ≡ some p.operation_id =
          h.operations key ∙ ap (Option.map _) present in
        elim (Bool-cases (p.owner_id == owner)) [
          | inl mine ↦ rw (item, operation_id, holder, id, present, mine) (refl, h)
          | inr other ↦ rw (item, operation_id, holder, present, other) (refl, h)
        ]
  ]

  reply-Agrees :
      (c : InvocationCall Arguments) (m : View Arguments) (s : InvocationStore Arguments)
      → Represents m s
      → Agrees c m s
  reply-Agrees (saves key owner id arguments expires) m s h = (refl, save-Represents m s key _ h)
  reply-Agrees (gets_at key owner now) m s h = gets-Agrees key owner now m s h
  reply-Agrees (deletes key owner) m s h = deletes-Agrees key owner m s h
  reply-Agrees (deletes_run run) m s h = (refl, delete_run-Represents m s run h)
  reply-Agrees (asks_operation key owner) m s h = asks-Agrees key owner m s h

  -- A store whose four dicts represent a map from calls to payloads gives, to any sequence of calls, the
  -- replies that the map gives: a payload is read only by its owner and before it expires, a payload that
  -- has expired goes when its owner reads it, and the end of a run removes the payloads of that run only.
  pub replies-refine :
      (cs : List (InvocationCall Arguments)) (m : View Arguments) (s : InvocationStore Arguments)
      → Represents m s
      → replies cs s ≡ answers cs m
  unfolding replies answers
  replies-refine [] m s h = refl
  replies-refine (c ∷ cs) m s h =
      let (same, next) = reply-Agrees c m s h in
      ap (λ r. r ∷ replies cs (reply c s).1) same
      ∙ ap (λ rs. (answer c m).0 ∷ rs) (replies-refine cs _ _ next)
