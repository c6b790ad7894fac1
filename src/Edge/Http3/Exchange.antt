-- ===== src/Edge/Http3/Exchange.antt =====
-- internal/edge/http3.go and http3ws.go: one time of sending an HTTP/3 request, with the answers of the
-- pool, the route's cap, dispatch, the tunnel stream and the service.
pub mod Counts
pub mod Rounds
use coen.Base.{
  ℕ, Bool, true, false, not, ◌&&◌, ◌||◌, Option, none, some, List, [], ◌∷◌, ◌++◌, if◌then◌else◌,
  ltb, ◌==◌,
}

pub data Event : Type 0 where
  begins ends closes_body : Event  -- connActivity and the request's body
  answers : (code : ℕ) → Event
  aborts cuts_answer : Event  -- the panic that resets the request's stream, before or after its answer
  takes_slot releases_slot : Event
  reserves commits releases_reservation : Event
  opens_stream closes_unsent counts_opened takes_kept : Event
  counts_request : Event
  closes_stream keeps_stream : Event  -- tunnelStream.close, h3Pool.put
  fails_bad_request fails_no_route fails_http3_off fails_route_max_connections : Event
  fails_stream_error fails_response_timeout fails_bad_response : Event

pub data SlotAnswer : Type 0 where
  got_slot slot_full client_gave_up : SlotAnswer

-- What the read of the response met.
pub record ReadFailure : Type 0 where
  pub nothing_back : Bool
  pub tunnel_gone : Bool
  pub client_gone : Bool
  pub client_body_failed : Bool
  pub is_timeout : Bool
  pub waits_on_client : Bool

pub record Response : Type 0 where
  pub status : ℕ
  pub copy_fails : Bool
  pub closes : Bool
  pub nothing_buffered : Bool
  pub client_stays : Bool  -- stopAbort stops the abort in time

pub record Send : Type 0 where
  pub kept : Bool  -- the pool has a stream, if it is asked
  pub slot : SlotAnswer
  pub refused : Option ℕ  -- dispatch's refusal
  pub v2 : Bool
  pub head_fails : Bool
  pub rewrite_fails : Bool  -- the write of the head on a kept stream
  pub body_fails : Bool
  pub upload_done : Bool  -- when the response has been read, or at its end
  pub read_failure : Option ReadFailure
  pub response : Response

-- openH3Stream, and whether it has a stream.
pub record Opened : Type 0 where
  pub events : List Event
  pub has_stream : Bool

pub send_head : Send → Opened
send_head s =
    if not s.v2 && s.head_fails
    then record {
      events =
          takes_slot
          ∷ reserves
          ∷ opens_stream
          ∷ closes_unsent
          ∷ releases_reservation
          ∷ releases_slot
          ∷ fails_stream_error
          ∷ answers 502
          ∷ [];
      has_stream = false;
    }
    else record {
      events = takes_slot ∷ reserves ∷ opens_stream ∷ commits ∷ counts_opened ∷ [];
      has_stream = true;
    }

pub dispatched : Send → Option ℕ → Opened
unfolding send_head
dispatched s (some code) = record {
  events = takes_slot ∷ releases_slot ∷ answers code ∷ [];
  has_stream = false;
}
dispatched s none = send_head s

pub after_route_slot : Send → SlotAnswer → Opened
unfolding dispatched
after_route_slot s client_gave_up = record { events = aborts ∷ []; has_stream = false }
after_route_slot s slot_full = record {
  events = fails_route_max_connections ∷ answers 503 ∷ [];
  has_stream = false;
}
after_route_slot s got_slot = dispatched s s.refused

pub open_h3_stream : Send → Opened
unfolding after_route_slot
open_h3_stream s = after_route_slot s s.slot

-- A round of the loop, with whether the request is sent again.
pub record Round : Type 0 where
  pub events : List Event
  pub retries : Bool

abbrev pub stops_with : List Event → Round
stops_with events = record { events = events; retries = false }

abbrev pub tries_again : Round
tries_again = record { events = closes_stream ∷ []; retries = true }

-- The switch on the error of the read.
pub failed_read : Bool → Bool → ReadFailure → Round
failed_read reused upload_done f =
    if reused && (f.nothing_back && (f.tunnel_gone && not f.client_gone))
    then tries_again
    else if f.client_gone || f.client_body_failed
    then stops_with (closes_stream ∷ aborts ∷ [])
    else if f.is_timeout && (not upload_done && f.waits_on_client)
    then stops_with (closes_stream ∷ aborts ∷ [])
    else if f.is_timeout
    then stops_with (fails_response_timeout ∷ answers 504 ∷ closes_stream ∷ [])
    else if f.tunnel_gone
    then stops_with (fails_stream_error ∷ answers 502 ∷ closes_stream ∷ [])
    else stops_with (fails_bad_response ∷ answers 502 ∷ closes_stream ∷ [])

pub relays : Bool → Bool → Bool → Response → Round
relays has_streams upload_done upload_fails p =
    if p.copy_fails
    then stops_with (answers p.status ∷ cuts_answer ∷ closes_stream ∷ [])
    else if has_streams
        && (not p.closes
            && (upload_done && (not upload_fails && (p.nothing_buffered && p.client_stays))))
    then stops_with (answers p.status ∷ keeps_stream ∷ [])
    else stops_with (answers p.status ∷ closes_stream ∷ [])

pub reads_response : Send → Bool → Bool → Bool → Option ReadFailure → Round
unfolding failed_read relays
reads_response s reused in_memory has_streams (some f) =
    failed_read reused (in_memory || s.upload_done) f
reads_response s reused in_memory has_streams none =
    relays has_streams (in_memory || s.upload_done) s.body_fails s.response

pub h3_exchange : Send → Bool → Bool → Bool → Round
unfolding reads_response
h3_exchange s reused in_memory has_streams =
    if reused && s.rewrite_fails
    then tries_again
    else if in_memory && (s.body_fails && reused)
    then tries_again
    else reads_response s reused in_memory has_streams s.read_failure

abbrev pub counts_first : Bool → List Event
counts_first first = if first then counts_request ∷ [] else []

abbrev pub then_exchange : Bool → List Event → Round → Round
then_exchange first events r = record {
  events = events ++ (counts_first first ++ r.events);
  retries = r.retries;
}

pub on_fresh : Send → Bool → Bool → Bool → Opened → Round
unfolding h3_exchange
on_fresh s first in_memory has_streams o =
    if o.has_stream
    then then_exchange first o.events (h3_exchange s false in_memory has_streams)
    else stops_with o.events

-- `first`: the request has not been sent before.
unfoldable pub send_round : Send → Bool → Bool → Bool → Bool → Round
unfolding h3_exchange on_fresh open_h3_stream
send_round s first reuse in_memory has_streams =
    if reuse && s.kept
    then then_exchange first (takes_kept ∷ []) (h3_exchange s true in_memory has_streams)
    else on_fresh s first in_memory has_streams (open_h3_stream s)

-- The answers of a service that is asked for an upgrade.
pub record WebSocket : Type 0 where
  pub read_failure : Option ReadFailure
  pub status : ℕ
  pub copy_fails : Bool
  pub accept_is_right : Bool

pub upgraded : WebSocket → Option ReadFailure → List Event
upgraded u (some f) =
    if f.client_gone
    then aborts ∷ []
    else (if f.tunnel_gone then fails_stream_error else fails_bad_response) ∷ answers 502 ∷ []
upgraded u none =
    if u.status == 101
    then (if u.accept_is_right then answers 200 ∷ [] else fails_bad_response ∷ answers 502 ∷ [])
    else if ltb u.status 300
    then fails_bad_response ∷ answers 502 ∷ []
    else if u.copy_fails
    then answers u.status ∷ cuts_answer ∷ []
    else answers u.status ∷ []

-- An upgraded stream is never kept.
pub on_upgrade : WebSocket → Opened → List Event
unfolding upgraded
on_upgrade u o =
    if o.has_stream
    then o.events ++ (counts_request ∷ (upgraded u u.read_failure ++ (closes_stream ∷ [])))
    else o.events

pub web_socket : Send → WebSocket → List Event
unfolding on_upgrade open_h3_stream
web_socket s u = on_upgrade u (open_h3_stream s)
