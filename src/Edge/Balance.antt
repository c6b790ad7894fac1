-- ===== src/Edge/Balance.antt =====
-- internal/edge/edge.go, routeState.pick: which of a route's sessions takes a request.
-- A candidate is what pick reads of an *agentConn: its identity `id`, its cooldown and the number of
-- its active streams. `tried` is the set of identities that the request has tried. A turn is a uint64.
pub mod RoundRobin
pub mod LeastConn
pub mod Choice
mod Tests
use coen.Base.{
  ℕ, zero, suc, ◌+◌, ◌-◌, ◌*◌, ◌%◌, ◌^◌, ◌≡◌, refl, Bool, true, false, not, ◌&&◌, ◌||◌, Option,
  none, some, List, [], ◌∷◌, length, count, exists, get_elem?, if◌then◌else◌, ltb, leb, ◌==◌, Bytes,
  codes, bytes_eq,
}

pub record Candidate : Type 0 where
  pub id : ℕ
  pub cool_until : ℕ
  pub active : ℕ

abbrev pub round_robin : Bytes
round_robin = codes "round_robin"

abbrev pub is_tried : List ℕ → Candidate → Bool
is_tried tried c = exists (λ t. t == c.id) tried

-- The closure `eligible`; `last` is `pass == 1`.
abbrev pub eligible : ℕ → List ℕ → Bool → Candidate → Bool
eligible now tried last c = not (is_tried tried c) && (last || leb c.cool_until now)

-- The second loop of a round_robin pass: the k-th eligible candidate.
pub nth_eligible : (Candidate → Bool) → List Candidate → ℕ → Option Candidate
nth_eligible ok [] k = none
nth_eligible ok (c ∷ cs) zero = let rest = nth_eligible ok cs zero in if ok c then some c else rest
nth_eligible ok (c ∷ cs) (suc k) =
    let rest = nth_eligible ok cs (suc k) in
    let passed = nth_eligible ok cs k in if ok c then passed else rest

pub round_robin_pass : (Candidate → Bool) → List Candidate → ℕ → Option Candidate
unfolding nth_eligible
round_robin_pass ok cands turn =
    let n = count ok cands in if n == 0 then none else nth_eligible ok cands (turn % n)

-- The body of the loop of a least_conn pass: whether candidate `c` replaces the best one so far.
pub better : (Candidate → Bool) → Option Candidate → Candidate → Option Candidate
better ok none c = if ok c then some c else none
better ok (some b) c = if ok c && ltb c.active b.active then some c else some b

abbrev pub visit : (Candidate → Bool) → Option Candidate → Option Candidate → Option Candidate
visit ok best none = best
visit ok best (some c) = better ok best c

-- The loop: `left` rounds from `j`, over the candidates from `start` on and round to it again.
pub least_conn_from :
    (Candidate → Bool) → List Candidate → ℕ → ℕ → ℕ → Option Candidate → Option Candidate
unfolding better
least_conn_from ok cands start zero j best = best
least_conn_from ok cands start (suc left) j best =
    least_conn_from ok cands start left (j + 1)
      (visit ok best (get_elem? cands ((start + j) % length cands)))

pub least_conn_pass : (Candidate → Bool) → List Candidate → ℕ → Option Candidate
unfolding least_conn_from
least_conn_pass ok cands turn = least_conn_from ok cands (turn % length cands) (length cands) 0 none

pub one_pass : Bytes → (Candidate → Bool) → List Candidate → ℕ → Option Candidate
unfolding round_robin_pass least_conn_pass bytes_eq
one_pass balance ok cands turn =
    if bytes_eq balance round_robin
    then round_robin_pass ok cands turn
    else least_conn_pass ok cands turn

-- The loop over the two passes: the second only if the first found none.
pub two_passes : Bytes → ℕ → List ℕ → List Candidate → ℕ → Option Candidate
unfolding one_pass
two_passes balance now tried cands turn =
    elim (one_pass balance (eligible now tried false) cands turn) [
      | some c ↦ some c
      | none ↦ one_pass balance (eligible now tried true) cands turn
    ]

-- pick: the choice, and the set of tried sessions with it.
pub pick : Bytes → ℕ → List ℕ → List Candidate → ℕ → Option Candidate × List ℕ
unfolding two_passes
pick balance now tried cands turn = elim (two_passes balance now tried cands turn) [
  | none ↦ (none, tried)
  | some c ↦ (some c, c.id ∷ tried)
]

-- pickReserve: also the session whose count of streams it raises. The lock makes it one step.
pub pick_reserve : Bytes → ℕ → List ℕ → List Candidate → ℕ → Option Candidate × List ℕ × Option ℕ
unfolding pick
pick_reserve balance now tried cands turn =
    let (choice, tried') = pick balance now tried cands turn in
    (choice, tried', elim choice [ none ↦ none | some c ↦ some c.id ])

-- nextTurn: `rr.Add(1) - 1` on a uint64, with the new counter.
pub next_turn : ℕ → ℕ × ℕ
next_turn rr = let added = (rr + 1) % 2 ^ 64 in (added, (added + 2 ^ 64 - 1) % 2 ^ 64)
