-- ===== src/Edge/Http3.antt =====
-- internal/edge/http3.go and http3ws.go: one HTTP/3 request as the edge handles it (serveHTTP3,
-- openH3Stream, h3Exchange, serveHTTP3WebSocket), as events in order. What the client, the pool of kept
-- streams, dispatch, the tunnel stream and the service answer is a record for the request and one for
-- each time that it is sent. The heads and bodies are in Heads and Bodies.
pub mod Exchange
pub mod Outcome
pub mod Heads
pub mod Bodies
pub mod Responses
pub mod Activity
pub mod Serving
mod Tests
use coen.Base.{
  ℕ, zero, suc, ◌*◌, Bool, true, false, not, ◌&&◌, ◌||◌, Option, none, some, List, [], ◌∷◌, ◌++◌,
  if◌then◌else◌, ltb,
}
use coen.Base.Int.{ℤ, pos, negsuc}
use coen.Edge.Http3.Exchange.{
  Event, begins, ends, closes_body, answers, aborts, fails_bad_request, fails_no_route,
  fails_http3_off, Send, Round, send_round, web_socket, WebSocket,
}

pub data Found : Type 0 where
  no_route http3_off routed : Found

-- The first read of a body of unknown length.
pub data Peek : Type 0 where
  pending more broken : Peek
  whole : (len : ℕ) → Peek

pub record Request : Type 0 where
  pub is_connect : Bool
  pub is_web_socket : Bool
  pub head_is_valid : Bool
  pub found : Found
  pub content_length : ℤ
  pub has_trailers : Bool
  pub expects_continue : Bool
  pub peeked : Peek
  pub sets_deadline : Bool  -- SetReadDeadline is supported
  pub body_reads : Bool  -- io.ReadFull of the body succeeds
  pub is_idempotent : Bool
  pub has_streams : Bool  -- connStreamsOf is not nil
  pub sends : ℕ → Send  -- by how often the request has been sent before
  pub upgrade : WebSocket

abbrev pub max_held_body : ℕ
max_held_body = 64 * 1024

pub data Held : Type 0 where
  not_held held hold_fails : Held

pub hold_body : Request → ℤ → Held
hold_body q (negsuc n) = not_held
hold_body q (pos len) =
    if q.has_trailers || (q.expects_continue || ltb max_held_body len)
    then not_held
    else if not (ltb 0 len)
    then held
    else if not q.sets_deadline
    then not_held
    else if q.body_reads
    then held
    else hold_fails

-- The loop that sends the request, at most twice; `none` would be a third time.
pub send_loop : ℕ → ℕ → Bool → Bool → Request → Option (List Event)
send_loop zero sent reuse in_memory q = none
send_loop (suc fuel) sent reuse in_memory q =
    let r = send_round (q.sends sent) (not (ltb 0 sent)) reuse in_memory q.has_streams in
    let rest = send_loop fuel (suc sent) false in_memory q in
    if Round.retries r
    then elim rest [ none ↦ none | some events ↦ some (Round.events r ++ events) ]
    else some (Round.events r)

abbrev pub fuel_sends : ℕ
fuel_sends = 2

pub with_body : Request → Held → Option (List Event)
unfolding send_loop
with_body q hold_fails = some (aborts ∷ [])
with_body q held = send_loop fuel_sends 0 (q.is_idempotent && q.has_streams) true q
with_body q not_held = send_loop fuel_sends 0 false false q

abbrev pub peeks : Request → Bool
peeks q = elim q.content_length [
  | pos n ↦ false
  | negsuc n ↦ not q.has_trailers && not q.expects_continue
]

pub peeked_length : Peek → ℤ
peeked_length (whole len) = pos len
peeked_length _ = negsuc 0

pub after_peek : Request → Peek → Option (List Event)
unfolding with_body hold_body peeked_length
after_peek q broken = some (aborts ∷ [])
after_peek q p = with_body q (hold_body q (peeked_length p))

pub to_route : Request → Found → Option (List Event)
unfolding after_peek with_body hold_body
to_route q no_route = some (fails_no_route ∷ answers 404 ∷ [])
to_route q http3_off = some (fails_http3_off ∷ answers 421 ∷ [])
to_route q routed =
    if q.is_web_socket
    then some (web_socket (q.sends 0) q.upgrade)
    else if peeks q
    then after_peek q q.peeked
    else with_body q (hold_body q q.content_length)

pub handle : Request → Option (List Event)
unfolding to_route
handle q =
    if q.is_connect && not q.is_web_socket
    then some (answers 501 ∷ [])
    else if not q.head_is_valid
    then some (fails_bad_request ∷ answers 400 ∷ [])
    else to_route q q.found

-- The deferred calls run in any case.
unfoldable pub serve_http3 : Request → Option (List Event)
unfolding handle
serve_http3 q = elim (handle q) [
  | none ↦ none
  | some events ↦ some (begins ∷ (events ++ (ends ∷ closes_body ∷ [])))
]
