-- ===== src/Agent/Streams.antt =====
-- internal/agent/agent.go, serveStream and handleStream, and internal/tunnel/session.go, IsTeardown: what
-- the agent does with a stream of the edge. The counters and the effects are events, in order. The
-- streams in flight and `draining` are the fields that Agent.mu guards.
pub mod Handled
pub mod Flight
use coen.Base.{
  ℕ, suc, ◌-◌, Bool, true, false, not, Option, none, some, List, [], ◌∷◌, ◌++◌, if◌then◌else◌,
  Bytes, bytes_eq,
}
use coen.Route.{Entry, Matcher, build, match_host}
use coen.Tunnel.Preamble.{
  Json, Reader, ReadError, eof, unexpected_eof, other_read_error, PreambleError, json_error,
  too_large, read_error, Preamble, Result, fails, reads, read_preamble,
}

-- The counters of a route are known by its pattern.
pub record AgentRoute : Type 0 where
  pub service : Bytes
  pub stats : Bytes

pub record Agent : Type 0 where
  pub json : Json
  pub routes : Matcher AgentRoute
  pub version : Bytes

pub data Event : Type 0 where
  sends_accept closes_stream counts_preamble_error counts_no_route warns_version : Event
  counts_dial_error : (stats : Bytes) → Event
  writes_page : (status : ℕ) → Event
  dials : (service : Bytes) → Event
  counts_opened counts_closed : (stats : Bytes) → Event
  pipes : (service : Bytes) → Event

-- A stream as the agent finds it: `accept` is whether the session is of version 2.
pub record Incoming : Type 0 where
  pub accept : Bool
  pub accept_fails : Bool
  pub reader : Reader
  pub other_is_teardown : Bool  -- net.ErrClosed or one of yamux's errors
  pub warned : Bool  -- versionWarn has run
  pub dial_fails : Bool

pub is_teardown : Bool → PreambleError → Bool
is_teardown other json_error = false
is_teardown other too_large = false
is_teardown other (read_error eof) = true
is_teardown other (read_error unexpected_eof) = false
is_teardown other (read_error other_read_error) = other

pub to_service : Incoming → Option AgentRoute → List Event
to_service i none = counts_no_route ∷ writes_page 502 ∷ []
to_service i (some rt) =
    dials rt.service
    ∷ (if i.dial_fails
        then counts_dial_error rt.stats ∷ writes_page 502 ∷ []
        else counts_opened rt.stats ∷ pipes rt.service ∷ counts_closed rt.stats ∷ [])

pub version_warning : Agent → Incoming → Preamble → List Event
version_warning a i p =
    if bytes_eq p.edge_version a.version then [] else if i.warned then [] else warns_version ∷ []

pub after_preamble : Agent → Incoming → Result → List Event
unfolding is_teardown to_service version_warning
after_preamble a i (fails e) =
    if is_teardown i.other_is_teardown e then [] else counts_preamble_error ∷ []
after_preamble a i (reads p) = version_warning a i p ++ to_service i (match_host a.routes p.host)

pub accepted : Agent → Incoming → List Event
unfolding after_preamble
accepted a i = after_preamble a i (read_preamble a.json i.reader).1

-- The stream is closed at the end.
unfoldable pub handle_stream : Agent → Incoming → List Event
unfolding accepted
handle_stream a i =
    if i.accept
    then (if i.accept_fails
        then closes_stream ∷ []
        else sends_accept ∷ (accepted a i ++ (closes_stream ∷ [])))
    else accepted a i ++ (closes_stream ∷ [])

pub record Serving : Type 0 where
  pub is_draining : Bool
  pub inflight : ℕ

-- Whether the stream is handled, on its own goroutine; else it is closed at once.
unfoldable pub serve_stream : Serving → Serving × Bool
serve_stream s =
    if s.is_draining then (s, false) else (record s { inflight = suc s.inflight }, true)

-- The end of that goroutine.
unfoldable pub stream_done : Serving → Serving
stream_done s = record s { inflight = s.inflight - 1 }

unfoldable pub refuse_new : Serving → Serving
refuse_new s = record s { is_draining = true }

abbrev pub new_serving : Serving
new_serving = record { is_draining = false; inflight = 0 }

-- The routes of a new agent, from its configuration: hosts with their services.
pub agent_entries : (Bytes → Bytes) → List (Bytes × Bytes) → List (Entry AgentRoute)
agent_entries normalize [] = []
agent_entries normalize ((host, service) ∷ rest) =
    record { pattern_text = host; value = record { service = service; stats = normalize host } }
    ∷ agent_entries normalize rest

pub agent_routes : (Bytes → Bytes) → List (Bytes × Bytes) → Matcher AgentRoute
unfolding agent_entries
agent_routes normalize routes = build (agent_entries normalize routes)
