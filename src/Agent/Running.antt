-- ===== src/Agent/Running.antt =====
-- internal/agent/agent.go, Run, connectOnce and withJitter: the agent connects until it is stopped. What
-- the dial, TLS and the session answer is a record for each attempt; a duration is a number of
-- nanoseconds. How a session is served is in Streams, and how it is shut down in Shutdown.
pub mod Calls
pub mod Backoff
use coen.Base.{
  ℕ, ◌+◌, ◌*◌, ◌/◌, ◌%◌, Bool, true, false, not, ◌&&◌, Option, none, some, List, [], ◌∷◌, ◌++◌,
  if◌then◌else◌, ltb, leb, ◌==◌, Bytes, bytes_eq, exists,
}
use coen.Agent.Shutdown.{Session, shutdown_session}
use coen.Agent.Shutdown.Order.{is_retire}

pub record Dialing : Type 0 where
  pub dial_fails : Bool
  pub handshake_fails : Bool
  pub peer_fp : Bytes
  pub session_fails : Bool
  pub lived : ℕ  -- from the handshake to the end of the session

pub data ConnectError : Type 0 where
  dial_error handshake_error pin_mismatch session_error accept_error : ConnectError

pub data Event : Type 0 where
  counts_handshake_fail counts_handshake_ok : Event
  closes_raw closes_conn closes_session serves : Event
  sets_connected : Bytes → Event
  sets_disconnected counts_reconnect : Event
  retires : Event  -- the callback runs as Run returns
  sets_error : ConnectError → Event
  waits : ℕ → Event
  shuts_down : List coen.Agent.Shutdown.Event → Event  -- shutdownSession

pub record Settings : Type 0 where
  pub min_backoff : ℕ
  pub max_backoff : ℕ
  pub edge_fingerprint : Bytes

abbrev is_empty : Bytes → Bool
is_empty [] = true
is_empty _ = false

pub record Connected : Type 0 where
  pub stable : Bool
  pub error : ConnectError
  pub events : List Event

-- The session is served until it ends, or until it has been shut down.
abbrev pub serve_session : Option Session → List Event
serve_session none = serves ∷ closes_session ∷ []
serve_session (some s) = serves ∷ shuts_down (shutdown_session s) ∷ closes_session ∷ []

-- connectOnce always ends with an error. With a session, `leave` is what shutdownSession finds, if the
-- context ends before the session.
pub connect_once : Settings → Dialing → (leave : Option Session) → Connected
connect_once c a leave =
    if a.dial_fails
    then record { stable = false; error = dial_error; events = counts_handshake_fail ∷ [] }
    else if a.handshake_fails
    then record {
      stable = false;
      error = handshake_error;
      events = counts_handshake_fail ∷ closes_raw ∷ [];
    }
    else if not (is_empty c.edge_fingerprint) && not (bytes_eq c.edge_fingerprint a.peer_fp)
    then record {
      stable = false;
      error = pin_mismatch;
      events = closes_conn ∷ counts_handshake_fail ∷ [];
    }
    else if a.session_fails
    then record {
      stable = leb c.min_backoff a.lived;
      error = session_error;
      events = counts_handshake_ok ∷ sets_connected a.peer_fp ∷ closes_conn ∷ [];
    }
    else record {
      stable = leb c.min_backoff a.lived;
      error = accept_error;
      events = counts_handshake_ok ∷ sets_connected a.peer_fp ∷ serve_session leave;
    }

-- `seed` is what rand.Int63n draws its number below `d` from.
pub with_jitter : ℕ → ℕ → ℕ
with_jitter seed d = if d == 0 then d else d / 2 + seed % d

pub next_backoff : ℕ → ℕ → ℕ
next_backoff max backoff = if ltb max (backoff * 2) then max else backoff * 2

-- When the context ends: before a round, in its connection, in its wait, or later.
pub data Life : Type 0 where
  ended : Life
  ends_connected : Dialing → (leave : Option Session) → Life
  ends_waiting : Dialing → (seed : ℕ) → Life
  goes_on : Dialing → (seed : ℕ) → Life → Life

-- What a round does until its wait.
pub round_events : Connected → (wait : ℕ) → List Event
round_events c wait = c.events ++ (sets_disconnected ∷ sets_error c.error ∷ waits wait ∷ [])

abbrev pub backoff_after : Settings → ℕ → Connected → ℕ
backoff_after c backoff a = if a.stable then c.min_backoff else backoff

pub run_loop : Settings → ℕ → Life → List Event
unfolding connect_once with_jitter next_backoff round_events
run_loop c backoff ended = []
run_loop c backoff (ends_connected a leave) = (connect_once c a leave).events
run_loop c backoff (ends_waiting a seed) =
    let r = connect_once c a none in round_events r (with_jitter seed (backoff_after c backoff r))
run_loop c backoff (goes_on a seed rest) =
    let r = connect_once c a none in
    let b = backoff_after c backoff r in
    round_events r (with_jitter seed b)
    ++ (counts_reconnect ∷ run_loop c (next_backoff c.max_backoff b) rest)

-- The callback has run: retired() runs it at its first call only.
abbrev pub runs_callback : Event → Bool
runs_callback retires = true
runs_callback (shuts_down es) = exists is_retire es
runs_callback _ = false

-- The deferred retired() as Run returns.
pub deferred_retired : List Event → List Event
deferred_retired es = if exists runs_callback es then [] else retires ∷ []

unfoldable pub run : Settings → Life → List Event
unfolding run_loop deferred_retired
run c life = let es = run_loop c c.min_backoff life in es ++ deferred_retired es
