-- ===== src/Edge/Dispatch.antt =====
-- internal/edge/edge.go, dispatchOnce and dispatch: how a request is handed to an agent session.
-- A session is its identity. What a round reads of the clock, the registry and the sessions is in a
-- World, by the number of the round of the loop; a time span that has passed is 0. Logging is left out,
-- and the counters are in the result. The loop has fuel.
pub mod Once
pub mod Round
pub mod Finish
pub mod Waiting
mod Tests
use coen.Base.{
  ℕ, zero, suc, ◌+◌, ◌*◌, ◌≡◌, refl, Bool, true, false, not, ◌&&◌, Option, none, some, List, [],
  ◌∷◌, ◌++◌, map, exists, keep, if◌then◌else◌, ltb, ◌==◌, Bytes, min,
}
use coen.Edge.Attempt.{
  Attempt, attempt_ok, attempt_unavailable, attempt_failed, attempt_unknown, Effect, Replies,
  accept_wait, try_agent,
}
use coen.Edge.Balance.{Candidate, pick}

pub record World : Type 0 where
  pub wait : ℕ → ℕ  -- time.Until(deadline)
  pub now : ℕ → ℕ  -- for pick
  pub cool_until : ℕ → ℕ → ℕ
  pub active : ℕ → ℕ → ℕ
  pub live : ℕ → List ℕ  -- e.reg.candidates, when pick has found none
  pub dead : ℕ → List ℕ
  pub rests : ℕ → ℕ → Bool  -- c.coolUntil.Load() <= now, before the try
  pub live_before : ℕ → List ℕ  -- e.reg.candidates, before the try
  pub dead_before : ℕ → List ℕ
  pub replies : ℕ → ℕ → ℕ → Replies  -- by round, session and the wait of the try

pub data Why : Type 0 where
  handed no_session_why no_agent_why preamble_error stream_error send_error : Why

-- One try: the session, the time that it may take, and how it went.
pub record Try : Type 0 where
  pub session : ℕ
  pub allowed : ℕ
  pub outcome : Attempt
  pub effects : List Effect

-- The variables of the loop; the latest try stands first.
pub record Loop : Type 0 where
  pub cands : List ℕ
  pub tried : List ℕ
  pub attempts : ℕ
  pub unavailable : ℕ
  pub tries : List Try
  pub evicted : List ℕ

-- What dispatchOnce returns, whether it has counted a stream error, and whether the session that it
-- chose is put back into normal picks.
pub record Outcome : Type 0 where
  pub chosen : Option ℕ
  pub why : Why
  pub counted : Bool
  pub warmed : Bool
  pub last : Loop

abbrev pub is_attempted : List ℕ → ℕ → Bool
is_attempted attempted i = exists (λ t. t == i) attempted

-- untried: the live sessions that are left; it evicts the dead ones.
abbrev pub untried : List ℕ → List ℕ → List ℕ
untried live attempted = keep (λ i. not (is_attempted attempted i)) live

abbrev pub look : World → ℕ → ℕ → Candidate
look w n i = record { id = i; cool_until = w.cool_until n i; active = w.active n i }

pub data Decision : Type 0 where
  tries_one : ℕ → List ℕ → Decision
  looks_again : List ℕ → List ℕ → Decision
  gives_up : List ℕ → Decision

abbrev pub look_again : List ℕ → List ℕ → Decision
look_again [] dead = gives_up dead
look_again (c ∷ cs) dead = looks_again (c ∷ cs) dead

abbrev pub after_pick : World → ℕ → Loop → Option Candidate × List ℕ → Decision
after_pick w n st (some c, tried) = tries_one c.id tried
after_pick w n st (none, tried) = look_again (untried (w.live n) st.tried) (w.dead n)

-- The first half of the loop's body.
pub decide : World → Bytes → ℕ → ℕ → Loop → Decision
decide w balance turn n st =
    if ltb 0 (w.wait n)
    then after_pick w n st (pick balance (w.now n) st.tried (map (look w n) st.cands) turn)
    else gives_up []

pub give_up : Loop → List ℕ → Outcome
give_up st dead =
    let last = record st { evicted = st.evicted ++ dead } in
    if st.unavailable == st.attempts
    then record { chosen = none; why = no_agent_why; counted = false; warmed = false; last = last }
    else record { chosen = none; why = stream_error; counted = true; warmed = false; last = last }

-- With no other listed session left: sessions that have joined since are listed too, or else the try
-- gets all the time that is left.
abbrev pub with_fresh : ℕ → List ℕ → List ℕ → ℕ × List ℕ
with_fresh wait cands [] = (wait, cands)
with_fresh wait cands (f ∷ fs) = (min wait accept_wait, cands ++ f ∷ fs)

-- The wait of a try, the candidates from then on, and the dead sessions that it evicts.
pub plan_try : World → ℕ → ℕ → ℕ → List ℕ → List ℕ → (ℕ × List ℕ) × List ℕ
plan_try w n c attempts cands tried =
    if w.rests n c && not (exists (λ o. not (is_attempted tried o)) cands)
    then (if ltb 1 attempts
        then (with_fresh (w.wait n) cands (untried (w.live_before n) tried), w.dead_before n)
        else (with_fresh (w.wait n) cands [], []))
    else ((min (w.wait n) accept_wait, cands), [])

pub data After : Type 0 where
  continues : Loop → After
  ends : Outcome → After

-- The switch on the outcome of a try, whose entry is in `st.tries`.
pub after_try : Attempt → ℕ → Loop → After
after_try attempt_ok c st =
    ends (record { chosen = some c; why = handed; counted = false; warmed = true; last = st })
after_try attempt_unavailable c st = continues (record st { unavailable = st.unavailable + 1 })
after_try attempt_failed c st = continues st
after_try attempt_unknown c st =
    ends (record { chosen = none; why = send_error; counted = true; warmed = false; last = st })

-- The second half of the loop's body.
pub try_one : World → ℕ → ℕ → List ℕ → Loop → After
unfolding plan_try after_try
try_one w n c tried st =
    let attempts = st.attempts + 1 in
    let ((wait, cands), dead) = plan_try w n c attempts st.cands tried in
    let (outcome, effects) = try_agent (w.replies n c wait) in
    after_try outcome c (record {
      cands = cands;
      tried = tried;
      attempts = attempts;
      unavailable = st.unavailable;
      tries =
          record { session = c; allowed = wait; outcome = outcome; effects = effects } ∷ st.tries;
      evicted = st.evicted ++ dead;
    })

pub once_loop : ℕ → World → Bytes → ℕ → ℕ → Loop → Option Outcome
unfolding decide give_up try_one
once_loop zero w balance turn n st = none
once_loop (suc fuel) w balance turn n st = elim (decide w balance turn n st) [
  | gives_up dead ↦ some (give_up st dead)
  | looks_again cs dead ↦
      once_loop fuel w balance turn (n + 1) (record st { cands = cs; evicted = st.evicted ++ dead })
  | tries_one c tried ↦ elim (try_one w n c tried st) [
    | ends o ↦ some o
    | continues st' ↦ once_loop fuel w balance turn (n + 1) st'
  ]
]

abbrev pub start : List ℕ → List ℕ → Loop
start live dead = record {
  cands = live;
  tried = [];
  attempts = 0;
  unavailable = 0;
  tries = [];
  evicted = dead;
}

-- dispatchOnce with the live and the dead sessions of its first look; `encodes` says whether
-- EncodePreamble succeeds.
pub dispatch_once : ℕ → World → Bytes → ℕ → Bool → List ℕ → List ℕ → Option Outcome
unfolding once_loop
dispatch_once fuel w balance turn encodes [] dead = some (record {
  chosen = none;
  why = no_session_why;
  counted = false;
  warmed = false;
  last = start [] dead;
})
dispatch_once fuel w balance turn encodes (c ∷ cs) dead =
    let loop = once_loop fuel w balance turn 0 (start (c ∷ cs) dead) in
    if encodes
    then loop
    else some (record {
      chosen = none;
      why = preamble_error;
      counted = true;
      warmed = false;
      last = start (c ∷ cs) dead;
    })
