-- ===== src/Edge/Ingress.antt =====
-- internal/edge/edge.go, handleIngress: a TCP connection on the public listener. What the connection, the
-- caps, the routes and the dispatch answer is a record; what the handler does is a list of events in
-- their order, deferred calls last. A route is an identity. Durations are in nanoseconds.
pub mod Balance
mod Tests
use coen.Base.{
  ℕ, zero, suc, ◌+◌, ◌≡◌, refl, Bool, true, false, not, ◌&&◌, ◌||◌, Option, none, some, List, [],
  ◌∷◌, ◌++◌, length, if◌then◌else◌, Bytes, codes, ◌⊎◌, inl, inr,
}
use coen.Base.Int.{ℤ, pos, negsuc}
use coen.Edge.Head.{
  ConnError, conn_deadline, HeadError, no_request, bad_host, head_too_long, incomplete_head,
  read_failed,
}

pub data Event : Type 0 where
  takes_edge_slot releases_edge_slot takes_route_slot releases_route_slot : Event
  starts_waiting stops_waiting serves_agent header_timeout closes_conn : Event
  fails_max_connections fails_bad_request fails_no_route fails_route_max_connections : Event
  commits opens_stream closes_stream pipes stream_closed : Event
  answers : ℕ → Event
  sends_first : Bytes → Event  -- through the pipe, before what the client sends
  counts_sent : ℕ → Event
  adds_alt_svc : Bytes → Bool → Event

-- What dispatch returns: the session's protocol, or the status code of the refusal.
pub data Dispatch : Type 0 where
  dispatched : Bool → Dispatch
  refused_with : ℕ → Dispatch

-- What takeAgent and closedWithoutRequest look at: whether the tunnel shares the ingress, the kind of
-- the connection, and what its first bytes were.
pub data ConnKind : Type 0 where
  plain_tcp tls_over_wire tls_over_other other_conn : ConnKind

pub record Wire : Type 0 where
  pub share_ingress : Bool
  pub kind : ConnKind
  pub offers_tunnel : Bool  -- wc.tunnel, after the handshake
  pub handshake_complete : Bool
  pub saw_bytes : Bool

pub take_agent : Wire → Bool
take_agent w = w.share_ingress && elim w.kind [ tls_over_wire ↦ w.offers_tunnel | _ ↦ false ]

pub closed_without_request : Wire → Bool
closed_without_request w = elim w.kind [
  | tls_over_wire ↦ w.handshake_complete || not w.saw_bytes
  | tls_over_other ↦ w.handshake_complete
  | plain_tcp ↦ true
  | other_conn ↦ false
]

pub record Client : Type 0 where
  pub edge_slot : Bool  -- e.sem.tryAcquire
  pub wire : Wire
  pub head : HeadError ⊎ (Bytes × Bytes)
  pub route : Bytes → Option ℕ  -- e.routes.Match
  pub route_slot : ℕ → Bool  -- rs.sem.tryAcquire
  pub kept_slot : ℕ → Bool  -- slotFromKept
  pub dispatch : ℕ → Dispatch
  pub no_http3 : ℕ → Bool
  pub http3_enabled : Bool
  pub alt_svc : Bytes  -- e.altSvc, or empty

abbrev pub default_read_header_timeout : ℕ
default_read_header_timeout = 10000000000

pub read_header_deadline : ℤ → ℕ
read_header_deadline (pos zero) = default_read_header_timeout
read_header_deadline (pos (suc n)) = suc n
read_header_deadline (negsuc n) = default_read_header_timeout

pub alt_svc_for : Client → ℕ → Bytes
alt_svc_for c r = if c.no_http3 r && c.http3_enabled then codes "clear" else c.alt_svc

abbrev alt_svc_events : Bytes → Bool → List Event
alt_svc_events [] replace = []
alt_svc_events (b ∷ v) replace = adds_alt_svc (b ∷ v) replace ∷ []

-- The head goes through the pipe, unless it went with the preamble.
abbrev head_events : Bool → Bytes → List Event
head_events true head = counts_sent (length head) ∷ []
head_events false [] = []
head_events false (b ∷ head) = sends_first (b ∷ head) ∷ []

abbrev pub streams : Bytes → Bool → Bool → Bytes → List Event
streams value replace v2 head =
    commits ∷ opens_stream ∷ alt_svc_events value replace
    ++ head_events v2 head
    ++ pipes ∷ closes_stream ∷ stream_closed ∷ releases_route_slot ∷ releases_edge_slot ∷ []

-- From the result of dispatch on; the route's slot is released by a deferred call.
pub after_dispatch : Client → ℕ → Bytes → Dispatch → List Event
unfolding alt_svc_for
after_dispatch c r head (refused_with code) =
    answers code ∷ closes_conn ∷ releases_route_slot ∷ releases_edge_slot ∷ []
after_dispatch c r head (dispatched v2) = streams (alt_svc_for c r) (c.no_http3 r) v2 head

-- tcpRouteSlot: whether a slot is taken, and the events.
pub tcp_route_slot : Client → ℕ → Bool × List Event
tcp_route_slot c r =
    if c.route_slot r
    then (true, takes_route_slot ∷ [])
    else if c.kept_slot r
    then (true, starts_waiting ∷ takes_route_slot ∷ stops_waiting ∷ [])
    else (false, starts_waiting ∷ stops_waiting ∷ [])

abbrev after_slot : Client → ℕ → Bytes → Bool × List Event → List Event
after_slot c r head (true, events) = events ++ after_dispatch c r head (c.dispatch r)
after_slot c r head (false, events) =
    events ++ fails_route_max_connections ∷ answers 503 ∷ closes_conn ∷ releases_edge_slot ∷ []

pub after_match : Client → Bytes → Option ℕ → List Event
unfolding tcp_route_slot after_dispatch
after_match c head none = fails_no_route ∷ answers 404 ∷ closes_conn ∷ releases_edge_slot ∷ []
after_match c head (some r) = after_slot c r head (tcp_route_slot c r)

abbrev pub bad_request : List Event
bad_request = fails_bad_request ∷ answers 400 ∷ closes_conn ∷ releases_edge_slot ∷ []

abbrev pub times_out : ConnError → List Event
times_out conn_deadline = header_timeout ∷ []
times_out _ = []

pub after_head : Client → HeadError ⊎ (Bytes × Bytes) → List Event
unfolding after_match closed_without_request
after_head c (inl (no_request e)) =
    if closed_without_request c.wire
    then times_out e ++ closes_conn ∷ releases_edge_slot ∷ []
    else bad_request
after_head c (inl (bad_host e)) = bad_request
after_head c (inl head_too_long) = bad_request
after_head c (inl incomplete_head) = bad_request
after_head c (inl (read_failed e)) = bad_request
after_head c (inr (head, host)) = after_match c head (c.route host)

pub handle_ingress : Client → List Event
unfolding after_head take_agent
handle_ingress c =
    if c.edge_slot
    then (if take_agent c.wire
        then takes_edge_slot ∷ serves_agent ∷ releases_edge_slot ∷ []
        else takes_edge_slot ∷ after_head c c.head)
    else if take_agent c.wire
    then serves_agent ∷ []
    else fails_max_connections ∷ answers 503 ∷ closes_conn ∷ []
