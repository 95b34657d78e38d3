-- ===== src/Platform/Claims/Tally.antt =====
-- The counts of `owner_running` against their plain definition.
use ven_agent.Prelude.{
  ℕ, suc, ◌+◌, ◌≤◌, ◌≡◌, ◌∙◌, String, List, [], ◌∷◌, ◌==◌, arith, text_has_eq, if◌then◌else◌, ◌&&◌,
}
use ven_agent.Prelude.Dict.{Dict, get, put, values, get-put}
use ven_agent.Run.{AgentRun}
use ven_agent.Platform.Claims.{is_leased, tally, count_at}

-- How many leased runs the owner has.
abbrev pub leased_count : ℕ → String → List AgentRun → ℕ
leased_count now owner [] = 0
leased_count now owner (r ∷ rs) =
    let rest = leased_count now owner rs in
    if is_leased now r && r.owner_id == owner then suc rest else rest

count_at-put :
    (d : Dict String ℕ) (k j : String) (n : ℕ)
    → count_at (put d k n) j ≡ (if k == j then n else count_at d j)
unfolding count_at
count_at-put d k j n = ground (arith, get-put d k j n)

tally_from :
    (now : ℕ) (owner : String) (counts : Dict String ℕ) (rs : List AgentRun)
    → count_at (tally now counts rs) owner ≡ count_at counts owner + leased_count now owner rs
unfolding tally
tally_from now owner counts [] = omega arith
tally_from now owner counts (r ∷ rs) =
    let n = count_at counts r.owner_id + 1 in
    ground (
      arith,
      tally_from now owner counts rs,
      tally_from now owner (put counts r.owner_id n) rs,
      count_at-put counts r.owner_id owner n,
      text_has_eq.decides r.owner_id owner,
    )

pub count_at-tally :
    (now : ℕ) (owner : String) (rs : List AgentRun)
    → count_at (tally now [] rs) owner ≡ leased_count now owner rs
unfolding get count_at
count_at-tally now owner rs = tally_from now owner [] rs ∙ omega arith

-- A write of one run adds at most one leased run to an owner.
pub leased_count-put :
    (now : ℕ) (owner k : String) (run : AgentRun) (d : Dict String AgentRun)
    → leased_count now owner (values (put d k run)) ≤ leased_count now owner (values d) + 1
unfolding put
leased_count-put now owner k run [] = ground arith
leased_count-put now owner k run ((j, r) ∷ d) = ground (arith, leased_count-put now owner k run d)
