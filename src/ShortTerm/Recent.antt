-- ===== src/ShortTerm/Recent.antt =====
-- src/memory/short_term.py `select_recent_turns`: which turns it keeps.
use ven_agent.Prelude.{
  ℕ, ◌+◌, ◌≤◌, ◌<◌, ◌≡◌, ◌⊎◌, refl, sym, ap, subst, ◌∙◌, inl, inr, List, [], ◌∷◌, ◌++◌, arith,
  Bool-cases, ltb, concat, append-nil, append_assoc,
}
use ven_agent.Conversation.{ConversationMessage}
use ven_agent.ShortTerm.{Turn, turns_of, token_count, reversed, select_until, select_recent_turns}

abbrev pub tokens_of : List Turn → ℕ
tokens_of [] = 0
tokens_of (turn ∷ turns) = token_count turn + tokens_of turns

reversed-append : (xs ys : List Turn) → reversed (xs ++ ys) ≡ reversed ys ++ reversed xs
reversed-append [] ys = sym (append-nil (reversed ys))
reversed-append (x ∷ xs) ys =
    ap (λ t. t ++ (x ∷ [])) (reversed-append xs ys)
    ∙ append_assoc (reversed ys) (reversed xs) (x ∷ [])

reversed-reversed : (xs : List Turn) → reversed (reversed xs) ≡ xs
reversed-reversed [] = refl
reversed-reversed (x ∷ xs) =
    reversed-append (reversed xs) (x ∷ []) ∙ ap (λ t. x ∷ t) (reversed-reversed xs)

tokens_of-append : (xs ys : List Turn) → tokens_of (xs ++ ys) ≡ tokens_of xs + tokens_of ys
tokens_of-append [] ys = omega arith
tokens_of-append (x ∷ xs) ys = omega (arith, tokens_of-append xs ys)

tokens_of-reversed : (xs : List Turn) → tokens_of (reversed xs) ≡ tokens_of xs
tokens_of-reversed [] = refl
tokens_of-reversed (x ∷ xs) =
    omega (arith, tokens_of-append (reversed xs) (x ∷ []), tokens_of-reversed xs)

-- What the loop leaves: nothing, or turns of which the first one no longer fits.
abbrev Stops : ℕ → ℕ → List Turn → Type 0
Stops token_budget total [] = Unit
Stops token_budget total (turn ∷ turns) = token_budget < total + token_count turn

select_until-prefix :
    (token_budget total : ℕ) (turns : List Turn)
    → total ≤ token_budget
    → (left : List Turn) × (turns ≡ select_until token_budget total turns ++ left)
      × (total + tokens_of (select_until token_budget total turns) ≤ token_budget)
      × Stops token_budget (total + tokens_of (select_until token_budget total turns)) left
unfolding select_until
select_until-prefix token_budget total [] h = ([], refl, omega (arith, h), tt)
select_until-prefix token_budget total (turn ∷ turns) h =
    elim (Bool-cases (ltb token_budget (total + token_count turn))) [
      | inl over ↦ rw over (turn ∷ turns, refl, omega (arith, h), ground arith)
      | inr fits ↦
          let (left, cut, within, stops) =
            select_until-prefix token_budget (total + token_count turn) turns (ground arith) in
          let same : total
                + token_count turn
                + tokens_of (select_until token_budget (total + token_count turn) turns)
              ≡ total
                + (token_count turn
                    + tokens_of (select_until token_budget (total + token_count turn) turns)) =
            omega arith in
          rw fits (
            left,
            ap (λ t. turn ∷ t) cut,
            omega (arith, within),
            subst (λ n. Stops token_budget n left) same stops,
          )
    ]

-- Where a list of turns ends, the turn that stands there, if any, does not fit with what follows it.
pub record IsRecent (turns : List Turn) (token_budget : ℕ) (messages : List ConversationMessage)
    : Type 0 where
  pub before : List Turn
  pub recent : List Turn
  pub cut : turns ≡ before ++ recent
  pub whole : messages ≡ concat recent
  pub within : tokens_of recent ≤ token_budget
  pub longest :
      (before ≡ [])
      ⊎ ((earlier : List Turn) × (turn : Turn) × (before ≡ earlier ++ (turn ∷ []))
          × (token_budget < token_count turn + tokens_of recent))

-- `select_recent_turns` keeps whole turns only, the last ones of the conversation, within the token
-- budget; and it keeps all turns, or the turn before the first kept one would exceed the budget.
pub select_recent_turns-IsRecent :
    (messages : List ConversationMessage) (token_budget : ℕ)
    → IsRecent (turns_of messages) token_budget (select_recent_turns messages token_budget)
unfolding select_recent_turns
select_recent_turns-IsRecent messages token_budget =
    let turns = turns_of messages in
    let chosen = select_until token_budget 0 (reversed turns) in
    let (left, cut, within, stops) =
      select_until-prefix token_budget 0 (reversed turns) (omega arith) in
    record {
      before = reversed left;
      recent = reversed chosen;
      cut = sym (reversed-reversed turns) ∙ ap reversed cut ∙ reversed-append chosen left;
      whole = refl;
      within = omega (arith, within, tokens_of-reversed chosen);
      longest = ended left chosen stops;
    }
  where
    ended :
        (left chosen : List Turn)
        → Stops token_budget (0 + tokens_of chosen) left
        → (reversed left ≡ [])
          ⊎ ((earlier : List Turn) × (turn : Turn) × (reversed left ≡ earlier ++ (turn ∷ []))
              × (token_budget < token_count turn + tokens_of (reversed chosen)))
    ended [] chosen h = inl refl
    ended (turn ∷ left) chosen h =
        inr (reversed left, turn, refl, omega (arith, h, tokens_of-reversed chosen))
