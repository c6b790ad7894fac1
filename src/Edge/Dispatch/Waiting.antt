-- ===== src/Edge/Dispatch/Waiting.antt =====
-- internal/edge/edge.go, dispatch: the wait for an agent.
-- What a round answers and what ends a pause is in a record, by the number of the round. `until` is
-- none for the zero time; agent_wait is 0 when it is off. A joined session and the timer both end a
-- pause with another round, and the end of the context and of the edge both with the answer.
pub mod Replies
mod Tests
use coen.Base.{
  ℕ, zero, suc, ◌+◌, ◌-◌, ◌≤◌, ◌<◌, ◌≡◌, refl, Bool, true, false, Option, none, some, arith,
  if◌then◌else◌, ltb, Bool-cases, Option-cases, inl, inr, ◌⊎◌, ap, sym, ◌∙◌, subst,
}
use coen.Edge.Dispatch.{
  Why, handed, no_session_why, no_agent_why, preamble_error, stream_error, send_error,
}

pub data Wake : Type 0 where
  session_joined timer_ran_out context_ended edge_stopping : Wake

pub record Course : Type 0 where
  pub agent_wait : ℕ
  pub answers : ℕ → Why  -- of dispatchOnce
  pub started : ℕ → ℕ  -- time.Now() where the wait is set
  pub checked : ℕ → ℕ  -- the time in time.Until
  pub wakes : ℕ → Wake

pub data Reply : Type 0 where
  has_stream stream_failed no_agent : Reply

-- The answer, the round of it, the number of calls of AgentWait, and whether no_agent is counted.
pub record Dispatched : Type 0 where
  pub reply : Reply
  pub round : ℕ
  pub waits : ℕ
  pub counted : Bool

-- `until` and the calls of AgentWait after a round that waiting may help.
pub set_until : Course → ℕ → Option ℕ → ℕ → Option ℕ × ℕ
set_until d n none waits =
    if ltb 0 d.agent_wait then (some (d.started n + d.agent_wait), waits + 1) else (none, waits)
set_until d n (some until) waits = (some until, waits)

abbrev pub time_left : Option ℕ → ℕ → ℕ
time_left none now = 0
time_left (some until) now = until - now

abbrev pub goes_on : Wake → Bool
goes_on session_joined = true
goes_on timer_ran_out = true
goes_on context_ended = false
goes_on edge_stopping = false

abbrev pub may_wait : Why → Bool
may_wait no_session_why = true
may_wait no_agent_why = true
may_wait _ = false

abbrev pub is_handed : Why → Bool
is_handed handed = true
is_handed _ = false

pub dispatch : ℕ → Course → ℕ → Option ℕ → ℕ → Option Dispatched
unfolding set_until
dispatch zero d n until waits = none
dispatch (suc fuel) d n until waits =
    let (until', waits') = set_until d n until waits in
    let next = dispatch fuel d (n + 1) until' waits' in
    if is_handed (d.answers n)
    then some (record { reply = has_stream; round = n; waits = waits; counted = false })
    else if may_wait (d.answers n)
    then (if ltb 0 (time_left until' (d.checked n))
        then (if goes_on (d.wakes n)
            then next
            else some (record { reply = no_agent; round = n; waits = waits'; counted = true }))
        else some (record { reply = no_agent; round = n; waits = waits'; counted = true }))
    else some (record { reply = stream_failed; round = n; waits = waits; counted = false })
