-- ===== src/Obs/Tests.antt =====
-- Runs of the counters, and the theorems on them.
use coen.Base.{
  some, none, codes, ℕ, ◌<◌, ◌≡◌, refl, true, false, List, [], ◌∷◌, arith, if◌then◌else◌, ◌==◌, All,
}
use coen.Base.Int.{pos}
use coen.Obs.Opening.{Pc, opens_route, reads_h3, has_read, advance, zero_counters}
use coen.Obs.Routes.Totals
use coen.Obs.Routes.Totals.{
  RouteOp, opens, gets_bytes, carries_in, carries_out, fails, Counts, run-Counts,
}
use coen.Obs.State.Agreement
use coen.Obs.State.Agreement.{StateOp, gets_route, news_session, adds_agent, unrouted_opens, Agrees}
use coen.Obs.State.Views.{detail}
use coen.Obs.State.Views.Shown.{Shows, detail-Shows}
use coen.Obs.Opening.Peak.{System, step, Starts, Reach, start, later, IsCounted, Reach-IsCounted}

abbrev two_streams : ℕ → Pc
two_streams i = if i == 2 then reads_h3 else opens_route true true

abbrev at_start : System
at_start = record { mem = zero_counters; pc = two_streams; peak = 0 }

abbrev steps : System → List ℕ → System
steps s [] = s
steps s (i ∷ is) = steps (step i s) is

steps-Reach :
    (n : ℕ) (s : System) (is : List ℕ) → All (λ i. i < n) is → Reach n s → Reach n (steps s is)
steps-Reach n s [] h r = r
steps-Reach n s (i ∷ is) h r = steps-Reach n (step i s) is h.1 (later r i h.0)

two_streams-Starts : (i : ℕ) → Starts (two_streams i)
two_streams-Starts i = ground arith

-- Both streams count before either compares; the second to swap fails once, and tries again.
abbrev contended : List ℕ
contended = 0 ∷ 0 ∷ 0 ∷ 1 ∷ 1 ∷ 1 ∷ 0 ∷ 1 ∷ 0 ∷ 1 ∷ 0 ∷ 1 ∷ 2 ∷ 0 ∷ 1 ∷ 1 ∷ 1 ∷ 2 ∷ []

contended_result :
    ((steps at_start contended).mem.max_streams ≡ pos 2)
    × ((steps at_start contended).mem.active_streams ≡ pos 2)
    × ((steps at_start contended).pc 2 ≡ has_read 2 2)
unfolding advance
contended_result = (refl, refl, refl)

contended-Reach : Reach 3 (steps at_start contended)
contended-Reach =
    steps-Reach 3 at_start contended (omega arith) (start two_streams two_streams-Starts)

Reach-IsCounted_example : IsCounted 3 (steps at_start contended)
Reach-IsCounted_example = Reach-IsCounted contended-Reach

abbrev a_route : List RouteOp
a_route =
    carries_out 0 7
    ∷ carries_in 1 5
    ∷ carries_in 0 3
    ∷ fails 7
    ∷ gets_bytes
    ∷ opens true
    ∷ gets_bytes
    ∷ opens false
    ∷ []

run-Counts_example : Counts a_route (Totals.run (codes "app") a_route)
run-Counts_example = run-Counts (codes "app") a_route

abbrev a_day : List StateOp
a_day =
    StateOp.opens (some (codes "b")) true
    ∷ StateOp.opens none false
    ∷ adds_agent 1
    ∷ adds_agent 1
    ∷ news_session 1 (codes "aa") (codes "192.0.2.1") 3
    ∷ gets_route (codes "a")
    ∷ gets_route (codes "b")
    ∷ gets_route (codes "a")
    ∷ []

detail-Shows_example :
    Agrees (unrouted_opens (codes "edge") 1 a_day) (Agreement.run (codes "edge") 1 a_day)
    × Shows
        (unrouted_opens (codes "edge") 1 a_day)
        (Agreement.run (codes "edge") 1 a_day)
        (detail (Agreement.run (codes "edge") 1 a_day))
detail-Shows_example = detail-Shows (codes "edge") 1 a_day
