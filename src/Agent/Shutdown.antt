-- ===== src/Agent/Shutdown.antt =====
-- internal/agent/agent.go, shutdownSession and drainStreamsFor: how the agent takes leave of a session. A
-- duration is a number of nanoseconds; a drain time below zero acts as zero. What the session, the
-- edge and the clock answer is a record. The queued streams come with the time since the start; after
-- the last, the queue stays empty or the session has closed. What serveStream does is in Streams.
pub mod Order
pub mod Handoff
use coen.Base.{
  ℕ, zero, suc, ◌+◌, ◌-◌, ◌*◌, ◌/◌, ◌<◌, Bool, true, false, not, ◌&&◌, ◌||◌, List, [], ◌∷◌, ◌++◌,
  if◌then◌else◌, ltb, leb, min,
}

abbrev pub millisecond : ℕ
millisecond = 1000000

abbrev pub retire_wait : ℕ
retire_wait = 500 * millisecond

abbrev pub min_ack_wait : ℕ
min_ack_wait = 2 * retire_wait

abbrev pub drain_ack_timeout : ℕ
drain_ack_timeout = 3000 * millisecond

abbrev pub go_away_wait : ℕ
go_away_wait = 1000 * millisecond

-- How much longer than its wait for the reply tunnel.RequestDrain may block.
abbrev pub bound_grace : ℕ
bound_grace = 100 * millisecond

abbrev pub min_handoff : ℕ
min_handoff = 2 * min_ack_wait

abbrev pub min_serve : ℕ
min_serve = 500 * millisecond

pub record Session : Type 0 where
  pub v2 : Bool
  pub budget : ℕ
  pub is_closed : Bool
  pub queued : List ℕ
  pub elapsed : ℕ  -- at the last look on the clock

pub data Event : Type 0 where
  refuses_new retires stops_accept waits_stopped closes_session : Event
  requests_drain : (wait bound : ℕ) → Event
  sends_drain goes_away_later : Event
  goes_away : (bound : ℕ) → Event
  serves refuses : (at : ℕ) → Event
  drains : (wait : ℕ) → Event

-- The loop over the queued streams.
pub serve_queued : ℕ → List ℕ → List Event
serve_queued budget [] = []
serve_queued budget (at ∷ rest) =
    (if ltb (budget - at) min_serve then refuses at else serves at) ∷ serve_queued budget rest

pub hand_off : Session → List Event
unfolding serve_queued
hand_off s =
    let ack_wait = min drain_ack_timeout (s.budget / 2) in
    requests_drain ack_wait (ack_wait + bound_grace)
    ∷ retires
    ∷ goes_away (min go_away_wait (s.budget / 4))
    ∷ stops_accept
    ∷ waits_stopped
    ∷ serve_queued s.budget s.queued

-- The drain time left, at least a millisecond if there was any.
pub remaining : Session → ℕ
remaining s = if ltb 0 s.budget && leb s.budget s.elapsed then millisecond else s.budget - s.elapsed

pub drain_and_close : Session → List Event
unfolding remaining
drain_and_close s = refuses_new ∷ drains (remaining s) ∷ closes_session ∷ []

unfoldable pub shutdown_session : Session → List Event
unfolding hand_off drain_and_close
shutdown_session s =
    if not s.v2
    then drain_and_close s ++ (retires ∷ [])
    else if leb s.budget 0 || s.is_closed
    then retires ∷ drain_and_close s
    else if ltb s.budget min_handoff
    then refuses_new ∷ sends_drain ∷ goes_away_later ∷ retires ∷ drain_and_close s
    else hand_off s ++ drain_and_close s
