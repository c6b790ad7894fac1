-- ===== src/Edge/Attempt/Tests.antt =====
-- Tests of tryAgent of internal/edge/edge.go, and its theorem at a concrete input.
use coen.Base.{◌≡◌, refl, true, false, none, some, [], ◌∷◌}
use coen.Edge.Attempt.{
  accept_other, attempt_failed, reserve_released, stream_closed, awaited_accept, cools, Replies,
  try_agent, tries_v2, accept_fails, sends_head,
}
use coen.Edge.Attempt.Accept.{got_byte, accept_byte, await_accept, try_agent_waits}
use coen.Edge.Attempt.Effects.{Leaves, try_agent-Leaves}

-- A version 2 agent that stays silent for eight seconds.
abbrev silent : Replies
silent = record {
  v2 = true;
  open_failure = none;
  gone = false;
  preamble_failure = none;
  window = 8000000000;
  accept_failure = some accept_other;
  head_fails = false;
}

stalls :
    try_agent silent
    ≡ (attempt_failed, awaited_accept ∷ reserve_released ∷ stream_closed ∷ cools 30000000000 ∷ [])
unfolding try_agent tries_v2 accept_fails
stalls = refl

try_agent-Leaves_example : Leaves silent (try_agent silent)
try_agent-Leaves_example = try_agent-Leaves silent

-- An agent that accepts.
abbrev accepting : Replies
accepting = record silent { accept_failure = none }

try_agent_waits_example : (got_byte accept_byte ≡ got_byte accept_byte) × (accepting.v2 ≡ true)
try_agent_waits_example =
    try_agent_waits accepting (got_byte accept_byte) (unfold await_accept in refl)
      (unfold try_agent tries_v2 sends_head in refl)
