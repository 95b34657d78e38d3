-- ===== src/Invocation/Refinement.antt =====
-- What InMemoryInvocationStore promises: one map from a call to its payload. Its four dicts implement it.
use mathlib.Core.Option
use ven_agent.Prelude.{
  ℕ, ◌≡◌, refl, sym, ap, ◌∙◌, inl, inr, arith, true, false, Option, none, some, String, List, [],
  ◌∷◌, ◌==◌, text_has_eq, option_eq, pair_eq, if◌then◌else◌, Bool-cases,
}
use ven_agent.Prelude.Dict.{Dict, get, put, pop, get-put, get-pop}
use ven_agent.Invocation.{
  Key, InvocationStore, delete_locked, save, keys_of_run, delete_each, delete_run,
}

pub record Payload (Arguments : Type 0) : Type 0 where
  pub arguments : Arguments
  pub owner_id : String
  pub operation_id : String
  pub expires_at : Option ℕ

abbrev pub View : Type 0 → Type 0
View Arguments = Key → Option (Payload Arguments)

module _ {Arguments : Type 0} where
  abbrev pub without : Key → View Arguments → View Arguments
  without key m j = if key == j then none else m j

  abbrev pub with_payload : Key → Payload Arguments → View Arguments → View Arguments
  with_payload key payload m j = if key == j then some payload else m j

  -- The four dicts have the keys of the map, each with its part of the payload.
  pub record Represents (m : View Arguments) (s : InvocationStore Arguments) : Type 0 where
    pub items : (k : Key) → get s.items k ≡ Option.map (λ p. p.arguments) (m k)
    pub owners : (k : Key) → get s.owners k ≡ Option.map (λ p. p.owner_id) (m k)
    pub operations : (k : Key) → get s.operations k ≡ Option.map (λ p. p.operation_id) (m k)
    pub expires : (k : Key) → get s.expires k ≡ Option.map (λ p. p.expires_at) (m k)

  pop-view :
      {V : Type 0} (f : Payload Arguments → V) (d : Dict Key V) (m : View Arguments) (key k : Key)
      → get d k ≡ Option.map f (m k)
      → get (pop d key) k ≡ Option.map f (without key m k)
  pop-view f d m key k h =
      get-pop d key k
      ∙ elim (Bool-cases (key == k)) [ inl same ↦ rw same refl | inr other ↦ rw other h ]

  put-view :
      {V : Type 0} (f : Payload Arguments → V) (d : Dict Key V) (m : View Arguments)
      (p : Payload Arguments) (key k : Key)
      → get d k ≡ Option.map f (m k)
      → get (put d key (f p)) k ≡ Option.map f (with_payload key p m k)
  put-view f d m p key k h =
      get-put d key k (f p)
      ∙ elim (Bool-cases (key == k)) [ inl same ↦ rw same refl | inr other ↦ rw other h ]

  pub delete_locked-Represents :
      (m : View Arguments) (s : InvocationStore Arguments) (key : Key)
      → Represents m s
      → Represents (without key m) (delete_locked key s)
  unfolding delete_locked
  delete_locked-Represents m s key h = record {
    items = λ k. pop-view (λ p. p.arguments) s.items m key k (h.items k);
    owners = λ k. pop-view (λ p. p.owner_id) s.owners m key k (h.owners k);
    operations = λ k. pop-view (λ p. p.operation_id) s.operations m key k (h.operations k);
    expires = λ k. pop-view (λ p. p.expires_at) s.expires m key k (h.expires k);
  }

  pub save-Represents :
      (m : View Arguments) (s : InvocationStore Arguments) (key : Key) (p : Payload Arguments)
      → Represents m s
      → Represents
          (with_payload key p m)
          (save key p.owner_id p.operation_id p.arguments p.expires_at s)
  unfolding save
  save-Represents m s key p h = record {
    items = λ k. put-view (λ i. i.arguments) s.items m p key k (h.items k);
    owners = λ k. put-view (λ i. i.owner_id) s.owners m p key k (h.owners k);
    operations = λ k. put-view (λ i. i.operation_id) s.operations m p key k (h.operations k);
    expires = λ k. put-view (λ i. i.expires_at) s.expires m p key k (h.expires k);
  }

  -- The map without the calls of a run.
  abbrev pub without_run : String → View Arguments → View Arguments
  without_run run_id m j = if j.0 == run_id then none else m j

  abbrev without_each : List Key → View Arguments → View Arguments
  without_each [] m = m
  without_each (key ∷ keys) m = without_each keys (without key m)

  delete_each-Represents :
      (keys : List Key) (m : View Arguments) (s : InvocationStore Arguments)
      → Represents m s
      → Represents (without_each keys m) (delete_each keys s)
  unfolding delete_each
  delete_each-Represents [] m s h = h
  delete_each-Represents (key ∷ keys) m s h =
      delete_each-Represents keys _ _ (delete_locked-Represents m s key h)

  other_run_kept :
      (run_id : String) (entries : Dict Key Arguments) (m : View Arguments) (j : Key)
      → (j.0 == run_id) ≡ false
      → without_each (keys_of_run run_id entries) m j ≡ m j
  unfolding keys_of_run
  other_run_kept run_id [] m j other = refl
  other_run_kept run_id ((key, a) ∷ entries) m j other = elim (Bool-cases (key.0 == run_id)) [
    | inl same ↦
        let apart : (key == j) ≡ false = ground (
          arith,
          same,
          other,
          text_has_eq.decides key.0 run_id,
          text_has_eq.decides j.0 run_id,
          text_has_eq.decides key.0 j.0,
        ) in
        rw same (other_run_kept run_id entries (without key m) j other ∙ rw apart refl)
    | inr kept ↦ rw kept (other_run_kept run_id entries m j other)
  ]

  run_dropped :
      (run_id : String) (entries : Dict Key Arguments) (m : View Arguments) (j : Key)
      → (j.0 == run_id) ≡ true
      → (get entries j ≡ none → m j ≡ none)
      → without_each (keys_of_run run_id entries) m j ≡ none
  unfolding keys_of_run get
  run_dropped run_id [] m j mine absent = absent refl
  run_dropped run_id ((key, a) ∷ entries) m j mine absent = elim (Bool-cases (key == j)) [
    | inl same ↦
        let key_is_j = (pair_eq.decides key j).0 same in
        let mine' : (key.0 == run_id) ≡ true = ap (λ i. i.0 == run_id) key_is_j ∙ mine in
        rw mine' (run_dropped run_id entries (without key m) j mine (λ gone. rw same refl))
    | inr other ↦ elim (Bool-cases (key.0 == run_id)) [
      | inl same_run ↦ rw same_run (
          run_dropped run_id entries (without key m) j mine
            (λ gone. rw other (absent (rw other gone))))
      | inr other_run ↦
          rw other_run (run_dropped run_id entries m j mine (λ gone. absent (rw other gone)))
    ]
  ]

  pub delete_run-Represents :
      (m : View Arguments) (s : InvocationStore Arguments) (run_id : String)
      → Represents m s
      → Represents (without_run run_id m) (delete_run run_id s)
  unfolding delete_run
  delete_run-Represents m s run_id h =
      let dropped = delete_each-Represents (keys_of_run run_id s.items) m s h in
      let agrees : (k : Key)
          → without_each (keys_of_run run_id s.items) m k ≡ without_run run_id m k =
        λ k. elim (Bool-cases (k.0 == run_id)) [
          | inl mine ↦
              rw mine (
                run_dropped run_id s.items m k mine
                  (λ gone. ground (arith, sym (h.items k) ∙ gone)))
          | inr other ↦ rw other (other_run_kept run_id s.items m k other)
        ] in
      record {
        items = λ k. dropped.items k ∙ ap (Option.map _) (agrees k);
        owners = λ k. dropped.owners k ∙ ap (Option.map _) (agrees k);
        operations = λ k. dropped.operations k ∙ ap (Option.map _) (agrees k);
        expires = λ k. dropped.expires k ∙ ap (Option.map _) (agrees k);
      }
