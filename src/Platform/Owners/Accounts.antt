-- ===== src/Platform/Owners/Accounts.antt =====
-- The accounts of src/repo/inmemory/ownership.py: the users and the index of their names.
use ven_agent.Prelude.{
  ◌≡◌, ◌≢◌, refl, sym, ◌∙◌, inl, inr, arith, none, some, String, ◌==◌, text_has_eq, Bool-cases,
}
use ven_agent.Prelude.Dict.{Dict, get, put, pop, get-put, get-pop, get-put_self, get-pop_self}
use ven_agent.Ownership.{UserRecord}

-- A name leads to the account that has it, and each account, under its owner's id, is found by its name.
pub record AccountsMatch (users : Dict String UserRecord) (names : Dict String String)
    : Type 0 where
  pub named :
      (name id : String)
      → get names name ≡ some id
      → (u : UserRecord) × (get users id ≡ some u) × (u.username_normalized ≡ name)
  pub stored :
      (id : String) (u : UserRecord)
      → get users id ≡ some u
      → (u.owner_id ≡ id) × (get names u.username_normalized ≡ some id)

get-pop_ne :
    {V : Type 0} (d : Dict String V) (gone key : String)
    → gone ≢ key
    → get (pop d gone) key ≡ get d key
get-pop_ne d gone key other = ground (arith, get-pop d gone key, text_has_eq.decides gone key)

pub add-AccountsMatch :
    (users : Dict String UserRecord) (names : Dict String String) (id : String) (u : UserRecord)
    → AccountsMatch users names
    → get users id ≡ none
    → get names u.username_normalized ≡ none
    → u.owner_id ≡ id
    → AccountsMatch (put users id u) (put names u.username_normalized id)
add-AccountsMatch users names id u h new free owner = record {
  named = λ n i at. elim (Bool-cases (u.username_normalized == n)) [
    | inl same ↦
        let is_id : some id ≡ some i =
          sym (get-put names u.username_normalized n id ∙ rw same refl) ∙ at in
        (
          u,
          ground (arith, is_id, get-put_self users id u),
          (text_has_eq.decides u.username_normalized n).0 same,
        )
    | inr other ↦
        let (w, at_w, name_w) =
          h.named n i (sym (get-put names u.username_normalized n id ∙ rw other refl) ∙ at) in
        (w, ground (arith, new, at_w, get-put users id i u, text_has_eq.decides id i), name_w)
  ];
  stored = λ i w at. elim (Bool-cases (id == i)) [
    | inl same ↦
        let is_u : some u ≡ some w = sym (get-put users id i u ∙ rw same refl) ∙ at in
        let id_is_i = (text_has_eq.decides id i).0 same in
        ground (arith, is_u, id_is_i, owner, get-put_self names u.username_normalized id)
    | inr other ↦
        let (owner_w, at_name) = h.stored i w (sym (get-put users id i u ∙ rw other refl) ∙ at) in
        (
          owner_w,
          ground (
            arith,
            free,
            at_name,
            get-put names u.username_normalized w.username_normalized id,
            text_has_eq.decides u.username_normalized w.username_normalized,
          ),
        )
  ];
}

-- An account is rewritten under its owner's id, with the same name.
pub rewrite-AccountsMatch :
    (users : Dict String UserRecord) (names : Dict String String) (id : String) (u w : UserRecord)
    → AccountsMatch users names
    → get users id ≡ some u
    → w.owner_id ≡ u.owner_id
    → w.username_normalized ≡ u.username_normalized
    → AccountsMatch (put users id w) names
rewrite-AccountsMatch users names id u w h present owner name = record {
  named = λ n i at.
      let (x, at_x, name_x) = h.named n i at in
      elim (Bool-cases (id == i)) [
        | inl same ↦ (
          w,
          get-put users id i w ∙ rw same refl,
          ground (arith, (text_has_eq.decides id i).0 same, present, at_x, name_x, name),
        )
        | inr other ↦ (x, get-put users id i w ∙ rw other at_x, name_x)
      ];
  stored = λ i x at. elim (Bool-cases (id == i)) [
    | inl same ↦
        let is_w : some w ≡ some x = sym (get-put users id i w ∙ rw same refl) ∙ at in
        let id_is_i = (text_has_eq.decides id i).0 same in
        let (owner_u, at_name) = h.stored id u present in
        ground (arith, is_w, id_is_i, owner, name, owner_u, at_name)
    | inr other ↦ h.stored i x (sym (get-put users id i w ∙ rw other refl) ∙ at)
  ];
}

pub remove-AccountsMatch :
    (users : Dict String UserRecord) (names : Dict String String) (id : String) (u : UserRecord)
    → AccountsMatch users names
    → get users id ≡ some u
    → AccountsMatch (pop users id) (pop names u.username_normalized)
remove-AccountsMatch users names id u h present = record {
  named = λ n i at.
      let apart : u.username_normalized ≢ n =
        λ same. ground (arith, get-pop_self names u.username_normalized, same, at) in
      let (x, at_x, name_x) =
        h.named n i (sym (get-pop_ne names u.username_normalized n apart) ∙ at) in
      let other : id ≢ i = λ same. ground (arith, same, present, at_x, name_x, apart) in
      (x, get-pop_ne users id i other ∙ at_x, name_x);
  stored = λ i x at.
      let other : id ≢ i = λ same. ground (arith, get-pop_self users id, same, at) in
      let (owner_x, at_name) = h.stored i x (sym (get-pop_ne users id i other) ∙ at) in
      let apart : u.username_normalized ≢ x.username_normalized =
        λ same. ground (arith, (h.stored id u present).1, same, at_name, other) in
      (owner_x, get-pop_ne names u.username_normalized x.username_normalized apart ∙ at_name);
}
