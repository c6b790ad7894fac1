-- ===== src/Edge/Http3/Exchange/Rounds.antt =====
-- internal/edge/http3.go and http3ws.go: what one round of sending a request did.
use coen.Base.{
  ℕ, suc, ◌≡◌, refl, ap, Bool, true, false, not, ◌&&◌, ◌||◌, Option, none, some, List, [], ◌∷◌,
  ◌++◌, if◌then◌else◌, arith, inl, inr, Bool-cases,
}
use coen.Edge.Http3.Exchange.{
  Event, takes_kept, counts_request, closes_stream, SlotAnswer, got_slot, slot_full, client_gave_up,
  ReadFailure, Response, Send, Opened, send_head, after_route_slot, open_h3_stream, Round,
  failed_read, relays, reads_response, h3_exchange, stops_with, then_exchange, on_fresh, send_round,
  WebSocket, upgraded, on_upgrade, web_socket,
}
use coen.Edge.Http3.Exchange.Counts.{Adds, append-Adds, one_if}

abbrev OpenedAdds : Opened → Type 0
OpenedAdds o = Adds (one_if (not o.has_stream)) 0 (one_if o.has_stream) 0 o.events

send_head-Adds : (s : Send) → OpenedAdds (send_head s)
unfolding send_head
send_head-Adds s = elim (Bool-cases (not s.v2 && s.head_fails)) [
  | inl e ↦ rw e (ground arith)
  | inr e ↦ rw e (ground arith)
]

after_route_slot-Adds :
    (s : Send) (a : SlotAnswer) (r : Option ℕ) → s.refused ≡ r → OpenedAdds (after_route_slot s a)
unfolding after_route_slot
after_route_slot-Adds s client_gave_up r e = ground arith
after_route_slot-Adds s slot_full r e = ground arith
after_route_slot-Adds s got_slot none e = rw e (send_head-Adds s)
after_route_slot-Adds s got_slot (some code) e = rw e (ground arith)

open_h3_stream-Adds : (s : Send) → OpenedAdds (open_h3_stream s)
unfolding open_h3_stream
open_h3_stream-Adds s = after_route_slot-Adds s s.slot s.refused refl

-- An exchange ends the request unless it is to be sent again, and gives its stream up.
abbrev ExchangeAdds : Round → Type 0
ExchangeAdds r = Adds (one_if (not r.retries)) 0 0 1 r.events

if-Adds :
    (b : Bool) (x y : Round) → ExchangeAdds x → ExchangeAdds y → ExchangeAdds (if b then x else y)
if-Adds true x y h k = h
if-Adds false x y h k = k

failed_read-Adds : (reused done : Bool) (f : ReadFailure) → ExchangeAdds (failed_read reused done f)
unfolding failed_read
failed_read-Adds reused done f =
    if-Adds (reused && (f.nothing_back && (f.tunnel_gone && not f.client_gone))) _ _ (ground arith)
      (if-Adds (f.client_gone || f.client_body_failed) _ _ (ground arith) (
        if-Adds (f.is_timeout && (not done && f.waits_on_client)) _ _ (ground arith) (
          if-Adds f.is_timeout _ _ (ground arith)
            (if-Adds f.tunnel_gone _ _ (ground arith) (ground arith)))))

relays-Adds : (has done fails : Bool) (p : Response) → ExchangeAdds (relays has done fails p)
unfolding relays
relays-Adds has done fails p = if-Adds p.copy_fails _ _ (ground arith) (
    if-Adds
      (has && (not p.closes && (done && (not fails && (p.nothing_buffered && p.client_stays))))) _ _
      (ground arith) (ground arith))

reads_response-Adds :
    (s : Send) (reused in_memory has : Bool) (f : Option ReadFailure)
    → ExchangeAdds (reads_response s reused in_memory has f)
unfolding reads_response
reads_response-Adds s reused in_memory has (some f) =
    failed_read-Adds reused (in_memory || s.upload_done) f
reads_response-Adds s reused in_memory has none =
    relays-Adds has (in_memory || s.upload_done) s.body_fails s.response

h3_exchange-Adds :
    (s : Send) (reused in_memory has : Bool) → ExchangeAdds (h3_exchange s reused in_memory has)
unfolding h3_exchange
h3_exchange-Adds s reused in_memory has = if-Adds (reused && s.rewrite_fails) _ _ (ground arith) (
    if-Adds (in_memory && (s.body_fails && reused)) _ _ (ground arith)
      (reads_response-Adds s reused in_memory has s.read_failure))

-- A round that takes `n` streams gives them all up, ends the request unless it is to be sent again, and
-- counts the request when it is the first to take one.
abbrev pub RoundAdds : Bool → ℕ → Round → Type 0
RoundAdds first n r = Adds (one_if (not r.retries)) (if first then n else 0) n n r.events

counted-Adds : (e o g : ℕ) (es : List Event) → Adds e 0 o g es → Adds e 1 o g (counts_request ∷ es)
counted-Adds e o g es b = record {
  ends_of = b.ends_of;
  requests_of = ap suc b.requests_of;
  obtained_of = b.obtained_of;
  given_of = b.given_of;
  fails_once = b.fails_once;
  slots = b.slots;
  reservations = b.reservations;
  committed = b.committed;
  opened = b.opened;
}

then_exchange-Adds :
    (first : Bool) (es : List Event) (r : Round)
    → Adds 0 0 1 0 es
    → ExchangeAdds r
    → RoundAdds first 1 (then_exchange first es r)
then_exchange-Adds true es r a b =
    append-Adds (one_if (not r.retries)) 1 1 1 es (counts_request ∷ r.events) a
      (counted-Adds _ _ _ r.events b) (omega arith)
then_exchange-Adds false es r a b =
    append-Adds (one_if (not r.retries)) 0 1 1 es r.events a b (omega arith)

unopened-Adds :
    (first : Bool) (es : List Event) → Adds 1 0 0 0 es → RoundAdds first 0 (stops_with es)
unopened-Adds true es a = a
unopened-Adds false es a = a

-- How many streams a round takes.
abbrev pub takes_of : Send → Bool → ℕ
takes_of s reuse = if reuse && s.kept then 1 else one_if (open_h3_stream s).has_stream

on_fresh-Adds :
    (s : Send) (first in_memory has : Bool) (o : Opened)
    → OpenedAdds o
    → RoundAdds first (one_if o.has_stream) (on_fresh s first in_memory has o)
unfolding on_fresh
on_fresh-Adds s first in_memory has o a = elim (Bool-cases o.has_stream) [
  | inl e ↦
      simp e
        (then_exchange-Adds first o.events _ (simp e at a) (h3_exchange-Adds s false in_memory has))
  | inr e ↦ simp e (unopened-Adds first o.events (simp e at a))
]

pub send_round-Adds :
    (s : Send) (first reuse in_memory has : Bool)
    → RoundAdds first (takes_of s reuse) (send_round s first reuse in_memory has)
unfolding send_round
send_round-Adds s first reuse in_memory has = elim (Bool-cases (reuse && s.kept)) [
  | inl e ↦ rw e (
      then_exchange-Adds first (takes_kept ∷ []) _ (ground arith)
        (h3_exchange-Adds s true in_memory has))
  | inr e ↦ rw e (on_fresh-Adds s first in_memory has (open_h3_stream s) (open_h3_stream-Adds s))
]

-- A round on a fresh stream is the last, and so is one that finds none.
h3_exchange-fresh :
    (s : Send) (in_memory has : Bool) → (h3_exchange s false in_memory has).retries ≡ false
unfolding h3_exchange reads_response failed_read relays
h3_exchange-fresh s in_memory has = ground arith

on_fresh_ends :
    (s : Send) (first in_memory has : Bool) (o : Opened)
    → (on_fresh s first in_memory has o).retries ≡ false
unfolding on_fresh
on_fresh_ends s first in_memory has o = elim (Bool-cases o.has_stream) [
  | inl e ↦ simp e (h3_exchange-fresh s in_memory has)
  | inr e ↦ simp e refl
]

pub send_round_ends :
    (s : Send) (first reuse in_memory has : Bool)
    → (reuse && s.kept) ≡ false
    → (send_round s first reuse in_memory has).retries ≡ false
unfolding send_round
send_round_ends s first reuse in_memory has e =
    rw e (on_fresh_ends s first in_memory has (open_h3_stream s))

upgraded-Adds : (u : WebSocket) (f : Option ReadFailure) → Adds 1 0 0 0 (upgraded u f)
unfolding upgraded
upgraded-Adds u (some f) = ground arith
upgraded-Adds u none = ground arith

-- An upgraded stream is given up in any case.
abbrev pub WebSocketAdds : List Event → ℕ → Type 0
WebSocketAdds es n = Adds 1 n n n es

on_upgrade-Adds :
    (u : WebSocket) (o : Opened)
    → OpenedAdds o
    → WebSocketAdds (on_upgrade u o) (one_if o.has_stream)
unfolding on_upgrade
on_upgrade-Adds u o a = elim (Bool-cases o.has_stream) [
  | inl e ↦
      let relayed : Adds 1 0 0 1 (upgraded u u.read_failure ++ (closes_stream ∷ [])) =
        append-Adds 1 0 0 1 (upgraded u u.read_failure) (closes_stream ∷ [])
          (upgraded-Adds u u.read_failure)
          (let c : Adds 0 0 0 1 (closes_stream ∷ []) = ground arith in c) (omega arith) in
      simp e (
        append-Adds 1 1 1 1 o.events
          (counts_request ∷ (upgraded u u.read_failure ++ (closes_stream ∷ []))) (simp e at a)
          (counted-Adds 1 0 1 _ relayed) (omega arith))
  | inr e ↦ simp e (simp e at a)
]

pub web_socket-Adds :
    (s : Send) (u : WebSocket)
    → WebSocketAdds (web_socket s u) (one_if (open_h3_stream s).has_stream)
unfolding web_socket
web_socket-Adds s u = on_upgrade-Adds u (open_h3_stream s) (open_h3_stream-Adds s)
