-- ===== src/Edge/Ingress/Balance.antt =====
-- internal/edge/edge.go, handleIngress: slots are given back, and every connection ends in one way.
use coen.Base.{
  ℕ, ◌≤◌, ◌≡◌, Bool, true, false, Option, none, some, List, [], ◌∷◌, ◌++◌, arith, count, Bytes, ◌⊎◌,
  inl, inr, Bool-cases,
}
use coen.Edge.Head.{
  ConnError, conn_eof, conn_teardown, conn_reset, conn_deadline, conn_other, HeadError, no_request,
  bad_host, head_too_long, incomplete_head, read_failed,
}
use coen.Edge.Ingress.{
  take_agent, closed_without_request, Event, takes_edge_slot, releases_edge_slot, takes_route_slot,
  releases_route_slot, starts_waiting, stops_waiting, serves_agent, header_timeout, closes_conn,
  fails_max_connections, fails_bad_request, fails_no_route, fails_route_max_connections, commits,
  opens_stream, closes_stream, pipes, stream_closed, answers, sends_first, counts_sent,
  adds_alt_svc, Dispatch, dispatched, refused_with, Client, alt_svc_for, after_dispatch,
  tcp_route_slot, after_match, times_out, after_head, handle_ingress,
}

abbrev pub takes_edge : Event → Bool
takes_edge takes_edge_slot = true
takes_edge _ = false

abbrev pub releases_edge : Event → Bool
releases_edge releases_edge_slot = true
releases_edge _ = false

abbrev pub takes_route : Event → Bool
takes_route takes_route_slot = true
takes_route _ = false

abbrev pub releases_route : Event → Bool
releases_route releases_route_slot = true
releases_route _ = false

abbrev pub starts : Event → Bool
starts starts_waiting = true
starts _ = false

abbrev pub stops : Event → Bool
stops stops_waiting = true
stops _ = false

abbrev pub is_answer : Event → Bool
is_answer (answers code) = true
is_answer _ = false

abbrev pub is_close : Event → Bool
is_close closes_conn = true
is_close _ = false

-- The ways in which a connection is dealt with for good.
abbrev pub is_end : Event → Bool
is_end closes_conn = true
is_end serves_agent = true
is_end pipes = true
is_end _ = false

abbrev pub opens : Event → Bool
opens opens_stream = true
opens _ = false

abbrev pub shuts : Event → Bool
shuts closes_stream = true
shuts _ = false

-- What holds once the slot of the edge is taken, of the events from there on.
pub record Rest (l : List Event) : Type 0 where
  pub edge_taken : count takes_edge l ≡ 0
  pub edge_back : count releases_edge l ≡ 1
  pub route_back : count releases_route l ≡ count takes_route l
  pub waiting_ends : count stops l ≡ count starts l
  pub one_answer : count is_answer l ≤ count is_close l
  pub one_end : count is_end l ≡ 1
  pub stream_ends : count shuts l ≡ count opens l

-- The same of the events after the slot of the route is taken.
record Tail (l : List Event) : Type 0 where
  no_edge_taken : count takes_edge l ≡ 0
  edge_released : count releases_edge l ≡ 1
  no_route_taken : count takes_route l ≡ 0
  route_released : count releases_route l ≡ 1
  no_wait : (count starts l ≡ 0) × (count stops l ≡ 0)
  answered_once : count is_answer l ≤ count is_close l
  ended_once : count is_end l ≡ 1
  stream_shut : count shuts l ≡ count opens l

streams-Tail :
    (value head : Bytes) (replace v2 : Bool)
    → Tail (coen.Edge.Ingress.streams value replace v2 head)
streams-Tail [] head replace true = ground arith
streams-Tail [] [] replace false = ground arith
streams-Tail [] (b ∷ head) replace false = ground arith
streams-Tail (b ∷ value) head replace true = ground arith
streams-Tail (b ∷ value) [] replace false = ground arith
streams-Tail (b ∷ value) (c ∷ head) replace false = ground arith

after_dispatch-Tail :
    (c : Client) (r : ℕ) (head : Bytes) (d : Dispatch) → Tail (after_dispatch c r head d)
unfolding after_dispatch
after_dispatch-Tail c r head (refused_with code) = ground arith
after_dispatch-Tail c r head (dispatched v2) = streams-Tail (alt_svc_for c r) head (c.no_http3 r) v2

-- What comes before it.
takes-Rest : (l : List Event) → Tail l → Rest (takes_route_slot ∷ l)
takes-Rest l t = ground (arith, t.no_wait)

waits-Rest :
    (l : List Event) → Tail l → Rest (starts_waiting ∷ takes_route_slot ∷ stops_waiting ∷ l)
waits-Rest l t = ground (arith, t.no_wait)

after_match-Rest : (c : Client) (head : Bytes) (m : Option ℕ) → Rest (after_match c head m)
unfolding after_match tcp_route_slot
after_match-Rest c head none = ground arith
after_match-Rest c head (some r) = elim (Bool-cases (c.route_slot r)) [
  | inl e ↦ simp e (takes-Rest _ (after_dispatch-Tail c r head (c.dispatch r)))
  | inr e ↦ elim (Bool-cases (c.kept_slot r)) [
    | inl k ↦ simp (e, k) (waits-Rest _ (after_dispatch-Tail c r head (c.dispatch r)))
    | inr k ↦ simp (e, k) (ground arith)
  ]
]

times_out-Rest : (e : ConnError) → Rest (times_out e ++ closes_conn ∷ releases_edge_slot ∷ [])
times_out-Rest conn_eof = ground arith
times_out-Rest conn_teardown = ground arith
times_out-Rest conn_reset = ground arith
times_out-Rest conn_deadline = ground arith
times_out-Rest conn_other = ground arith

after_head-Rest : (c : Client) (h : HeadError ⊎ (Bytes × Bytes)) → Rest (after_head c h)
unfolding after_head
after_head-Rest c (inl (no_request e)) = elim (Bool-cases (closed_without_request c.wire)) [
  | inl q ↦ simp q (times_out-Rest e)
  | inr q ↦ simp q (ground arith)
]
after_head-Rest c (inl (bad_host e)) = ground arith
after_head-Rest c (inl head_too_long) = ground arith
after_head-Rest c (inl incomplete_head) = ground arith
after_head-Rest c (inl (read_failed e)) = ground arith
after_head-Rest c (inr (head, host)) = after_match-Rest c head (c.route host)

-- The whole of a connection.
pub record IsHandled (l : List Event) : Type 0 where
  pub edge_slots : count releases_edge l ≡ count takes_edge l
  pub route_slots : count releases_route l ≡ count takes_route l
  pub waiters : count stops l ≡ count starts l
  pub answers_close : count is_answer l ≤ count is_close l
  pub ends_once : count is_end l ≡ 1
  pub streams_end : count shuts l ≡ count opens l

-- Whatever the client, the caps, the routes and the dispatch do, handleIngress gives back every slot of
-- the edge's and of the route's cap that it takes, and ends every wait for a slot that it has
-- announced; it deals with the connection in exactly one way: it hands it to the tunnel as an agent's,
-- or closes it, or pipes it to a stream; it closes it whenever it has answered it; and a stream that
-- it counts as opened it also counts as closed.
pub handle_ingress-IsHandled : (c : Client) → IsHandled (handle_ingress c)
unfolding handle_ingress
handle_ingress-IsHandled c = elim (Bool-cases c.edge_slot) [
  | inl e ↦ elim (Bool-cases (take_agent c.wire)) [
    | inl a ↦ simp (e, a) (ground arith)
    | inr a ↦ simp (e, a) (with_slot (after_head c c.head) (after_head-Rest c c.head))
  ]
  | inr e ↦ elim (Bool-cases (take_agent c.wire)) [
    | inl a ↦ simp (e, a) (ground arith)
    | inr a ↦ simp (e, a) (ground arith)
  ]
]
  where
    with_slot : (l : List Event) → Rest l → IsHandled (takes_edge_slot ∷ l)
    with_slot l r = ground arith
