-- ===== src/Edge/Dispatch/Waiting/Tests.antt =====
-- Tests of dispatch of internal/edge/edge.go, and its theorem at a concrete input.
use coen.Base.{ℕ, ◌+◌, ◌*◌, ◌≡◌, refl, false, Option, none, some}
use coen.Edge.Dispatch.{no_agent_why, handed}
use coen.Edge.Dispatch.Waiting.{Course, Dispatched, dispatch, set_until, has_stream, timer_ran_out}
use coen.Edge.Dispatch.Waiting.Replies.{IsDispatched, dispatch_returns}

-- An agent joins in the third round.
abbrev course : Course
course = record {
  agent_wait = 20;
  answers = λ n. coen.Base.if◌then◌else◌ (coen.Base.ltb n 2) no_agent_why handed;
  started = λ n. 10 * n;
  checked = λ n. 10 * n + 1;
  wakes = λ n. timer_ran_out;
}

waits_for_agent :
    dispatch 4 course 0 none 0
    ≡ some (record { reply = has_stream; round = 2; waits = 1; counted = false })
unfolding dispatch set_until
waits_for_agent = refl

dispatch_returns_example :
    (o : Dispatched) × (dispatch (3 + 1) course 0 none 0 ≡ some o) × IsDispatched course o
dispatch_returns_example = dispatch_returns course 3 (omega coen.Base.arith)
