-- ===== src/Edge/Balance/Tests.antt =====
-- Tests of routeState.pick of internal/edge/edge.go, and its theorems at concrete inputs.
use coen.Base.{◌≡◌, refl, some, List, [], ◌∷◌, codes, bytes_eq}
use coen.Edge.Balance.{
  Candidate, pick, two_passes, one_pass, round_robin_pass, least_conn_pass, least_conn_from, better,
  nth_eligible, next_turn,
}
use coen.Edge.Balance.Choice.{Pick, pick-Pick}

abbrev busy : Candidate
busy = record { id = 1; cool_until = 0; active = 5 }

abbrev calm : Candidate
calm = record { id = 2; cool_until = 0; active = 1 }

abbrev cooling : Candidate
cooling = record { id = 3; cool_until = 90; active = 0 }

abbrev three : List Candidate
three = busy ∷ calm ∷ cooling ∷ []

-- The least busy session that is not cooling down.
least_busy : pick (codes "least_conn") 50 [] three 4 ≡ (some calm, 2 ∷ [])
unfolding pick two_passes one_pass least_conn_pass least_conn_from better bytes_eq
least_busy = refl

-- A session that is cooling down is the last resort.
last_resort : pick (codes "round_robin") 50 (1 ∷ 2 ∷ []) three 4 ≡ (some cooling, 3 ∷ 1 ∷ 2 ∷ [])
unfolding pick two_passes one_pass round_robin_pass nth_eligible bytes_eq
last_resort = refl

-- The first turn of a counter that has wrapped around.
wrapped_turn : (next_turn 18446744073709551615).1 ≡ 18446744073709551615
unfolding next_turn
wrapped_turn = refl

pick-Pick_example : Pick (codes "least_conn") 50 [] three (pick (codes "least_conn") 50 [] three 4)
pick-Pick_example = pick-Pick (codes "least_conn") 50 [] three 4
