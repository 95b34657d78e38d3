-- ===== src/Platform/Owners/Sessions.antt =====
-- The sessions of a closed owner: what each ownership method leaves of them.
use ven_agent.Prelude.{
  ◌≡◌, refl, sym, ap, ◌∙◌, inl, inr, arith, Bool, true, Option, none, some, String, ◌==◌,
  text_has_eq, Bool-cases, Option-cases,
}
use ven_agent.Prelude.Dict.{Dict, get, put, IsKeyed, get-put, put-IsKeyed}
use ven_agent.Prelude.DictLoops.{
  update_each, pop_each, get-update_each, get-pop_each, update_each-IsKeyed, pop_each-IsKeyed,
  updated,
}
use ven_agent.Ownership.{SessionRecord}
use ven_agent.Platform.Owners.{is_revoked}

abbrev pub SessionsKeyed : Dict String SessionRecord → Type 0
SessionsKeyed = IsKeyed (λ (v : SessionRecord). v.session_id)

-- If the session is the owner's, it is revoked.
abbrev pub IsShut : String → SessionRecord → Type 0
IsShut owner_id v = v.owner_id ≡ owner_id → is_revoked v ≡ true

-- The sessions stand under their ids, and none of the owner's is live.
pub record SessionsShut (owner_id : String) (d : Dict String SessionRecord) : Type 0 where
  pub keyed : SessionsKeyed d
  pub shut : (k : String) (v : SessionRecord) → get d k ≡ some v → IsShut owner_id v

pub put-SessionsShut :
    {o : String} (d : Dict String SessionRecord) (k : String) (v : SessionRecord)
    → SessionsShut o d
    → v.session_id ≡ k
    → IsShut o v
    → SessionsShut o (put d k v)
put-SessionsShut d k v h name is_shut = record {
  keyed = put-IsKeyed _ d k v h.keyed name;
  shut = λ j w found. elim (Bool-cases (k == j)) [
    | inl same ↦
        let is_v : some v ≡ some w = sym (get-put d k j v ∙ rw same refl) ∙ found in
        λ owner. ground (arith, is_v, is_shut, owner)
    | inr other ↦ h.shut j w (sym (get-put d k j v ∙ rw other refl) ∙ found)
  ];
}

-- A loop over the sessions that keeps their ids, and writes no live session of the owner.
pub update_each-SessionsShut :
    {o : String} (body : String → SessionRecord → Option SessionRecord)
    (d : Dict String SessionRecord)
    → SessionsKeyed d
    → ((k : String) (v w : SessionRecord) → body k v ≡ some w → w.session_id ≡ v.session_id)
    → ((k : String) (v w : SessionRecord) → get d k ≡ some v → body k v ≡ some w → IsShut o w)
    → ((k : String) (v : SessionRecord) → get d k ≡ some v → body k v ≡ none → IsShut o v)
    → SessionsShut o (update_each body d d)
update_each-SessionsShut {o} body d h names written kept = record {
  keyed = update_each-IsKeyed _ body d d names h h;
  shut = λ k w found.
      let split : updated body k (get d k) (get d k) ≡ some w =
        sym (get-update_each _ body d d k h) ∙ found in
      elim (Option-cases (get d k)) [
        | inl absent ↦
            let impossible : none ≡ some w = sym (ap (λ i. updated body k i i) absent) ∙ split in
            absurd (cc)
        | inr (v, present) ↦
            let split' = sym (ap (λ i. updated body k i i) present) ∙ split in
            elim (Option-cases (body k v)) [
              | inl none_written ↦
                  let same : some v ≡ some w = ground (arith, none_written, split') in
                  λ owner. ground (arith, same, kept k v present none_written, owner)
              | inr (x, one_written) ↦
                  let same : some x ≡ some w = ground (arith, one_written, split') in
                  λ owner. ground (arith, same, written k v x present one_written, owner)
            ]
      ];
}

pub pop_each-SessionsShut :
    {o : String} (test : SessionRecord → Bool) (d : Dict String SessionRecord)
    → SessionsShut o d
    → SessionsShut o (pop_each test d d)
pop_each-SessionsShut test d h = record {
  keyed = pop_each-IsKeyed _ test d d h.keyed;
  shut = λ k w found.
      let split = sym (get-pop_each _ test d d k h.keyed) ∙ found in
      elim (Option-cases (get d k)) [
        | inl absent ↦ ground (absent, split, arith)
        | inr (v, present) ↦ ground (arith, present, split, h.shut k v present, test v)
      ];
}
