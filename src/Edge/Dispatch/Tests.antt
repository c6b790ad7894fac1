-- ===== src/Edge/Dispatch/Tests.antt =====
-- Tests of dispatchOnce of internal/edge/edge.go, and its theorem at a concrete input.
use coen.Base.{
  ℕ, ◌+◌, ◌*◌, ◌≡◌, refl, Bool, true, false, Option, none, some, List, [], ◌∷◌, here, there, length,
  codes,
}
use coen.Edge.Attempt.{Replies, accept_refused}
use coen.Edge.Dispatch.{World, Outcome, dispatch_once}
use coen.Edge.Dispatch.Finish.{Answers, dispatch_once-Ends}

abbrev refuses : Replies
refuses = record {
  v2 = true;
  open_failure = none;
  gone = false;
  preamble_failure = none;
  window = 9;
  accept_failure = some accept_refused;
  head_fails = false;
}

abbrev both : List ℕ
both = 1 ∷ 2 ∷ []

-- Session 1 refuses; session 2, which joins meanwhile, takes the request.
abbrev world : World
world = record {
  wait = λ n. 100;
  now = λ n. n;
  cool_until = λ n i. 0;
  active = λ n i. 0;
  live = λ n. 1 ∷ 2 ∷ [];
  dead = λ n. [];
  rests = λ n i. true;
  live_before = λ n. 1 ∷ [];
  dead_before = λ n. [];
  replies = λ n i wait.
      coen.Base.if◌then◌else◌ (coen.Base.◌==◌ i 1) refuses
        (record refuses { accept_failure = none });
}

dispatch_once-Ends_example :
    (o : Outcome) × (dispatch_once
        (2 * length both + 2)
        world
        (codes "round_robin")
        0
        true
        (1 ∷ [])
        []
      ≡ some o)
    × Answers (1 ∷ []) true o
dispatch_once-Ends_example =
    dispatch_once-Ends both world (codes "round_robin") 0 true (1 ∷ []) []
      (record { live_known = λ n. (here, (there here, tt)); live_before_known = λ n. (here, tt) })
      (here, tt)
