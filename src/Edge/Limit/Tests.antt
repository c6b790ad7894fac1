-- ===== src/Edge/Limit/Tests.antt =====
-- Tests of internal/edge/limit.go, and its theorem at a concrete input.
use coen.Base.{◌≤◌, ◌<◌, ◌≡◌, refl, Option, none, some, ltb}
use coen.Base.Int.{pos, negsuc}
use coen.Edge.Limit.{Slots, new_semaphore, try_acquire, release}
use coen.Edge.Limit.Holders.{made, took, Holds-bounded}

-- A cap below zero is no cap.
no_cap : new_semaphore (negsuc 4) ≡ none
unfolding new_semaphore
no_cap = refl

abbrev used_one : Option Slots
used_one = (try_acquire (new_semaphore (pos 2))).0

Holds-bounded_example :
    (1 ≤ 2)
    × ((try_acquire used_one).1 ≡ ltb 1 2)
    × (0 < 1 → (t : Option Slots) × (release used_one ≡ some t))
Holds-bounded_example = Holds-bounded 1 (took made (unfold new_semaphore try_acquire in refl))
