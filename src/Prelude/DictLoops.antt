-- ===== src/Prelude/DictLoops.antt =====
-- Python's `for key, value in tuple(d.items()): …`, where the body writes or drops that key of `d`.
use mathlib.Core.Path.{◌≡◌, refl, sym, ap, ◌∙◌}
use mathlib.Core.Logic.{inl, inr}
use mathlib.Core.Bool.{Bool, true}
use mathlib.Core.Option.{Option, none, some}
use mathlib.Core.List.{List, [], ◌∷◌}
use Prim.Native.String.{String}
use ven_agent.Prelude.Tests.{if◌then◌else◌, Bool-cases, Option-cases}
use ven_agent.Prelude.Equality.{◌==◌, text_has_eq}
use ven_agent.Prelude.Dict.{
  Dict, get, put, pop, get-put, get-pop, put-IsKeyed, pop-IsKeyed, IsKeyed,
}

module _ {V : Type 0} where
  -- What the body writes under the key, or nothing.
  unfoldable pub update_each :
      (String → V → Option V) → List (String × V) → Dict String V → Dict String V
  update_each body [] d = d
  update_each body ((k, v) ∷ entries) d =
      update_each body entries (elim (body k v) [ none ↦ d | some w ↦ put d k w ])

  -- Whether the body drops the key.
  unfoldable pub pop_each : (V → Bool) → List (String × V) → Dict String V → Dict String V
  pop_each test [] d = d
  pop_each test ((k, v) ∷ entries) d = pop_each test entries (if test v then pop d k else d)

  abbrev pub or_kept : Option V → Option V → Option V
  or_kept none kept = kept
  or_kept (some w) kept = some w

  -- What stands under `k` after the loop, given the value that the loop saw there.
  abbrev pub updated : (String → V → Option V) → String → Option V → Option V → Option V
  updated body k none kept = kept
  updated body k (some v) kept = or_kept (body k v) kept

  abbrev pub dropped : (V → Bool) → Option V → Option V → Option V
  dropped test none kept = kept
  dropped test (some v) kept = if test v then none else kept

  module _ (name : V → String) where
    absent_rest :
        (j k : String) (v : V) (old : Dict String V)
        → IsKeyed name ((j, v) ∷ old)
        → j == k ≡ true
        → get old k ≡ none
    absent_rest j k v old h same = ap (get old) (sym ((text_has_eq.decides j k).0 same)) ∙ h.1

    -- One round of the loop, at the key `j`.
    body_step :
        (body : String → V → Option V) (j k : String) (v : V) (old d : Dict String V)
        → IsKeyed name ((j, v) ∷ old)
        → updated body k (get old k) (get (elim (body j v) [ none ↦ d | some w ↦ put d j w ]) k)
          ≡ updated body k (get ((j, v) ∷ old) k) (get d k)
    unfolding get
    body_step body j k v old d h = elim (Bool-cases (j == k)) [
      | inl same ↦
          let j_is_k = (text_has_eq.decides j k).0 same in
          elim (Option-cases (body j v)) [
            | inl kept ↦
                let kept' : body k v ≡ none = ap (λ i. body i v) (sym j_is_k) ∙ kept in
                rw (absent_rest j k v old h same, same, kept, kept')
            | inr (w, written) ↦
                let written' : body k v ≡ some w = ap (λ i. body i v) (sym j_is_k) ∙ written in
                rw (absent_rest j k v old h same, same, written, written')
                  (get-put d j k w ∙ rw same)
          ]
      | inr other ↦ elim (Option-cases (body j v)) [
        | inl kept ↦ rw (other, kept)
        | inr (w, written) ↦ rw (other, written, get-put d j k w, other)
      ]
    ]

    pub get-update_each :
        (body : String → V → Option V) (old d : Dict String V) (k : String)
        → IsKeyed name old
        → get (update_each body old d) k ≡ updated body k (get old k) (get d k)
    unfolding update_each get
    get-update_each body [] d k h = refl
    get-update_each body ((j, v) ∷ old) d k h =
        get-update_each body old _ k h.2 ∙ body_step body j k v old d h

    pub get-pop_each :
        (test : V → Bool) (old d : Dict String V) (k : String)
        → IsKeyed name old
        → get (pop_each test old d) k ≡ dropped test (get old k) (get d k)
    unfolding pop_each get
    get-pop_each test [] d k h = refl
    get-pop_each test ((j, v) ∷ old) d k h =
        get-pop_each test old _ k h.2 ∙ elim (Bool-cases (j == k)) [
          | inl same ↦ elim (Bool-cases (test v)) [
            | inl passes ↦ rw (absent_rest j k v old h same, same, passes, get-pop d j k, same)
            | inr fails ↦ rw (absent_rest j k v old h same, same, fails)
          ]
          | inr other ↦ elim (Bool-cases (test v)) [
            | inl passes ↦ rw (other, passes, get-pop d j k, other)
            | inr fails ↦ rw (other, fails)
          ]
        ]

    pub update_each-IsKeyed :
        (body : String → V → Option V) (entries d : Dict String V)
        → ((k : String) (v w : V) → body k v ≡ some w → name w ≡ name v)
        → IsKeyed name entries
        → IsKeyed name d
        → IsKeyed name (update_each body entries d)
    unfolding update_each
    update_each-IsKeyed body [] d keeps e h = h
    update_each-IsKeyed body ((j, v) ∷ entries) d keeps e h =
        update_each-IsKeyed body entries _ keeps e.2 (elim (Option-cases (body j v)) [
          | inl kept ↦ rw kept h
          | inr (w, written) ↦ rw written (put-IsKeyed name d j w h (keeps j v w written ∙ e.0))
        ])

    pub pop_each-IsKeyed :
        (test : V → Bool) (entries d : Dict String V)
        → IsKeyed name d
        → IsKeyed name (pop_each test entries d)
    unfolding pop_each
    pop_each-IsKeyed test [] d h = h
    pop_each-IsKeyed test ((j, v) ∷ entries) d h =
        pop_each-IsKeyed test entries _ (elim (Bool-cases (test v)) [
          | inl passes ↦ rw passes (pop-IsKeyed name d j h)
          | inr fails ↦ rw fails h
        ])
