-- ===== src/Platform/Machine/Invariant.antt =====
-- What holds of the runs of the store after any steps of the abstract machine.
use mathlib.Core.Option
use ven_agent.Prelude.{
  ◌≡◌, refl, sym, ap, subst, ◌⊎◌, ◌∙◌, inl, inr, true, false, none, some, String, [], ◌==◌, ◌&&◌,
  arith, text_has_eq, Bool-cases, Option-cases, any-Occurs,
}
use ven_agent.Prelude.Dict.{
  Dict, get, put, pop, values, map_values, IsKeyed, get-put, get-pop, get-map_values, get-Occurs,
  get-name_eq, put-IsKeyed, pop-IsKeyed, map_values-IsKeyed,
}
use ven_agent.Run.{AgentRun, RunStatus, is_active_status}
use ven_agent.Platform.Runs.{has_active_run}
use ven_agent.Platform.Machine.{
  Scope, IsSound, Moves, may_become, Step, moved, created, mapped, removed, Steps, stay, next,
}

abbrev pub Active : AgentRun → Type 0
Active run = is_active_status run.status ≡ true

-- Every run stands once, under its own id; the optional fields fit the states; and no conversation
-- has two runs that are queued, running or waiting.
pub record RunsValid (d : Dict String AgentRun) : Type 0 where
  pub keyed : IsKeyed (λ run. run.run_id) d
  pub sound : (k : String) (a : AgentRun) → get d k ≡ some a → IsSound a
  pub single :
      (j k : String) (a b : AgentRun)
      → get d j ≡ some a
      → get d k ≡ some b
      → a.conversation_id ≡ b.conversation_id
      → Active a
      → Active b
      → j ≡ k

-- A run of `e` that is active was an active run of `d`, under the same key.
abbrev Reflects : Dict String AgentRun → Dict String AgentRun → Type 0
Reflects d e =
    (j : String) (x : AgentRun)
    → get e j ≡ some x
    → (y : AgentRun) × (get d j ≡ some y)
      × (y.conversation_id ≡ x.conversation_id)
      × (Active x → Active y)
      × (IsSound y → IsSound x)

Reflects-RunsValid :
    {d e : Dict String AgentRun}
    → Reflects d e
    → IsKeyed (λ run. run.run_id) e
    → RunsValid d
    → RunsValid e
Reflects-RunsValid r keyed v = record {
  keyed = keyed;
  sound = λ k a g. let (y, h, c, act, s) = r k a g in s (v.sound k y h);
  single = λ j k a b g h c act_a act_b.
      let (y, hy, cy, ay, sy) = r j a g in
      let (z, hz, cz, az, sz) = r k b h in
      v.single j k y z hy hz (cy ∙ c ∙ sym cz) (ay act_a) (az act_b);
}

-- An edge of the machine leads to an active state only from one.
active_edge :
    (s t : RunStatus)
    → may_become s t ≡ true
    → is_active_status t ≡ true
    → is_active_status s ≡ true
active_edge s t h a = ground arith

-- A run that made a move carries over what `Reflects` asks.
carried :
    (d : Dict String AgentRun) (j : String) (a b x : AgentRun)
    → get d j ≡ some a
    → Moves a b
    → b ≡ x
    → (y : AgentRun) × (get d j ≡ some y)
      × (y.conversation_id ≡ x.conversation_id)
      × (Active x → Active y)
      × (IsSound y → IsSound x)
carried d j a b x g m e = (
  a,
  g,
  sym m.same_conversation ∙ ap (λ (r : AgentRun). r.conversation_id) e,
  λ act. active_edge a.status b.status m.edge (subst Active (sym e) act),
  λ s. subst IsSound e (m.sound s),
)

moved-Reflects :
    (d : Dict String AgentRun) (k : String) (a b : AgentRun)
    → get d k ≡ some a
    → Moves a b
    → Reflects d (put d k b)
moved-Reflects d k a b g m j x h = elim (Bool-cases (k == j)) [
  | inl same ↦
      let k_is_j = (text_has_eq.decides k j).0 same in
      carried d j a b x (rw k_is_j at g) m (ground (arith, get-put d k j b))
  | inr other ↦ (x, ground (arith, get-put d k j b), refl, λ act. act, λ s. s)
]

mapped-Reflects :
    (d : Dict String AgentRun) (f : AgentRun → AgentRun)
    → ((a : AgentRun) → Moves a (f a))
    → Reflects d (map_values f d)
mapped-Reflects d f m j x h = elim (Option-cases (get d j)) [
  | inl absent ↦
      let none_is_some : none ≡ some x =
        ap (Option.map f) (sym absent) ∙ sym (get-map_values f d j) ∙ h in
      absurd (cc none_is_some)
  | inr (a, g) ↦
      let image : some (f a) ≡ some x =
        ap (Option.map f) (sym g) ∙ sym (get-map_values f d j) ∙ h in
      carried d j a (f a) x g (m a) (cc image)
]

removed-Reflects : (d : Dict String AgentRun) (k : String) → Reflects d (pop d k)
removed-Reflects d k j x h = (x, ground (arith, get-pop d k j), refl, λ a. a, λ s. s)

-- In a conversation with no active run, no run that is found is active.
inactive_of_found :
    (d : Dict String AgentRun) (k : String) (a : AgentRun) (conversation : String)
    → has_active_run conversation (values d) ≡ false
    → get d k ≡ some a
    → a.conversation_id ≡ conversation
    → ¬ Active a
unfolding has_active_run
inactive_of_found d k a conversation idle g c act =
    let quiet =
      any-Occurs (λ run. run.conversation_id == conversation && is_active_status run.status)
        (values d) idle (get-Occurs d k a g) in
    ground (arith, text_has_eq.decides a.conversation_id conversation)

module _ (d : Dict String AgentRun) (b : AgentRun) (v : RunsValid d)
    (idle : has_active_run b.conversation_id (values d) ≡ false) where
  found :
      (k : String) (x : AgentRun)
      → get (put d b.run_id b) k ≡ some x
      → ((b.run_id ≡ k) × (b ≡ x)) ⊎ (get d k ≡ some x)
  found k x h = elim (Bool-cases (b.run_id == k)) [
    | inl same ↦
        inl ((text_has_eq.decides b.run_id k).0 same, ground (arith, get-put d b.run_id k b))
    | inr other ↦ inr (ground (arith, get-put d b.run_id k b))
  ]

  created-RunsValid : IsSound b → RunsValid (put d b.run_id b)
  created-RunsValid sound_b = record {
    keyed = put-IsKeyed (λ run. run.run_id) d b.run_id b v.keyed refl;
    sound = λ k x h. elim (found k x h) [
      | inl (same, e) ↦ subst IsSound e sound_b
      | inr old ↦ v.sound k x old
    ];
    single = λ j k x y g h c act_x act_y. elim (found j x g) [
      | inl (same, e) ↦ elim (found k y h) [
        | inl (same', e') ↦ sym same ∙ same'
        | inr old ↦ absurd (inactive_of_found d k y b.conversation_id idle old (ground arith) act_y)
      ]
      | inr old ↦ elim (found k y h) [
        | inl (same', e') ↦
            absurd (inactive_of_found d j x b.conversation_id idle old (ground arith) act_x)
        | inr old' ↦ v.single j k x y old old' c act_x act_y
      ]
    ];
  }

pub Step-RunsValid :
    {scope : Scope} {d e : Dict String AgentRun} → Step scope d e → RunsValid d → RunsValid e
Step-RunsValid {d} (moved k a b g m q) v =
    let named = get-name_eq (λ run. run.run_id) d k a v.keyed g in
    subst RunsValid (sym q) (
      Reflects-RunsValid (moved-Reflects d k a b g m)
        (put-IsKeyed (λ run. run.run_id) d k b v.keyed (m.same_id ∙ named)) v)
Step-RunsValid {d} (created b is_new absent starts s idle q) v =
    subst RunsValid (sym q) (created-RunsValid d b v idle s)
Step-RunsValid {d} (mapped f m q) v = subst RunsValid (sym q) (
    Reflects-RunsValid (mapped-Reflects d f m)
      (map_values-IsKeyed (λ run. run.run_id) f d (λ a. (m a).same_id) v.keyed) v)
Step-RunsValid {d} (removed k a g gone q) v =
    subst RunsValid (sym q)
      (Reflects-RunsValid (removed-Reflects d k) (pop-IsKeyed (λ run. run.run_id) d k v.keyed) v)

pub Steps-RunsValid :
    {scope : Scope} {d e : Dict String AgentRun} → Steps scope d e → RunsValid d → RunsValid e
Steps-RunsValid stay v = v
Steps-RunsValid (next steps step) v = Step-RunsValid step (Steps-RunsValid steps v)

pub RunsValid-nil : RunsValid []
unfolding get
RunsValid-nil = record {
  keyed = tt;
  sound = λ k a h. absurd (cc h);
  single = λ j k a b g h c p q. absurd (cc g);
}
