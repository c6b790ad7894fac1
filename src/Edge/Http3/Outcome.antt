-- ===== src/Edge/Http3/Outcome.antt =====
-- internal/edge/http3.go: what every way through serveHTTP3 leaves: its answer, its slots and streams.
use coen.Base.{
  ℕ, suc, ◌+◌, ◌≤◌, ◌≡◌, refl, sym, ap, ◌∙◌, Bool, true, false, not, ◌&&◌, Option, some, List, [],
  ◌∷◌, ◌++◌, if◌then◌else◌, arith, min, inl, inr, Bool-cases, count,
}
use coen.Edge.Http3.Exchange.{
  Event, begins, ends, closes_body, answers, aborts, Send, Round, send_round, open_h3_stream,
  web_socket,
}
use coen.Edge.Http3.Exchange.Counts.{
  is_end, is_failure, takes, releases, is_reserve, is_commit, unreserves, is_open, is_unsent,
  is_counted, is_obtained, is_given_up, is_request, Adds, append-Adds, one_if,
}
use coen.Edge.Http3.Exchange.Rounds.{takes_of, send_round-Adds, send_round_ends, web_socket-Adds}
use coen.Edge.Http3.{
  Request, Found, no_route, http3_off, routed, Peek, pending, more, broken, whole, Held, not_held,
  held, hold_fails, hold_body, send_loop, fuel_sends, with_body, peeks, peeked_length, after_peek,
  to_route, handle, serve_http3,
}

-- A result that sends the request `times` times, at most `most`, and counts it when it does.
record Sends (most : ℕ) (out : Option (List Event)) : Type 0 where
  events : List Event
  returns : out ≡ some events
  times : ℕ
  counted : ℕ
  at_most : times ≤ most
  counted_if : counted ≡ min times 1
  adds : Adds 1 counted times times events

takes_of-le : (s : Send) (reuse : Bool) → takes_of s reuse ≤ 1
takes_of-le s reuse = ground arith

one_if-le : (b : Bool) → one_if b ≤ 1
one_if-le b = ground arith

-- The second time is the last, on a fresh stream.
record SendsAgain (out : Option (List Event)) : Type 0 where
  events : List Event
  returns : out ≡ some events
  times : ℕ
  at_most : times ≤ 1
  adds : Adds 1 0 times times events

send_again : (in_memory : Bool) (q : Request) → SendsAgain (send_loop 1 1 false in_memory q)
unfolding send_loop
send_again in_memory q =
    let r = send_round (q.sends 1) false false in_memory q.has_streams in
    let last = send_round_ends (q.sends 1) false false in_memory q.has_streams refl in
    record {
      events = r.events;
      returns = rw last refl;
      times = takes_of (q.sends 1) false;
      at_most = takes_of-le (q.sends 1) false;
      adds = rw last at (send_round-Adds (q.sends 1) false false in_memory q.has_streams);
    }

send_first :
    (reuse in_memory : Bool) (q : Request)
    → Sends (if reuse then 2 else 1) (send_loop fuel_sends 0 reuse in_memory q)
unfolding send_loop
send_first reuse in_memory q = elim (Bool-cases r.retries) [
  | inr e ↦ record {
    events = r.events;
    returns = rw e refl;
    times = takes_of (q.sends 0) reuse;
    counted = takes_of (q.sends 0) reuse;
    at_most = ground (arith, takes_of-le (q.sends 0) reuse);
    counted_if = ground (arith, takes_of-le (q.sends 0) reuse);
    adds = rw e at (send_round-Adds (q.sends 0) true reuse in_memory q.has_streams);
  }
  | inl e ↦ elim (Bool-cases (reuse && (q.sends 0).kept)) [
    | inr f ↦
        absurd (ground (arith, e, send_round_ends (q.sends 0) true reuse in_memory q.has_streams f))
    | inl f ↦
        let again = send_again in_memory q in
        let once : Adds 0 1 1 1 r.events =
          rw (e, f) at (send_round-Adds (q.sends 0) true reuse in_memory q.has_streams) in
        record {
          events = r.events ++ again.events;
          returns = rw (e, again.returns) refl;
          times = suc again.times;
          counted = 1;
          at_most = ground (arith, again.at_most);
          counted_if = omega arith;
          adds =
              append-Adds 1 1 (suc again.times) (suc again.times) r.events again.events once
                again.adds (omega arith);
        }
  ]
]
  where
    r : Round
    r = send_round (q.sends 0) true reuse in_memory q.has_streams

abbrev pub most_sends : Request → ℕ
most_sends q = if q.is_idempotent then 2 else 1

Sends-weaker : (m n : ℕ) (o : Option (List Event)) → m ≤ n → Sends m o → Sends n o
Sends-weaker m n o h s = record {
  events = s.events;
  returns = s.returns;
  times = s.times;
  counted = s.counted;
  at_most = omega (arith, s.at_most);
  counted_if = s.counted_if;
  adds = s.adds;
}

-- A result that takes no stream.
Sends-none : (n : ℕ) (es : List Event) → Adds 1 0 0 0 es → Sends n (some es)
Sends-none n es a = record {
  events = es;
  returns = refl;
  times = 0;
  counted = 0;
  at_most = omega arith;
  counted_if = refl;
  adds = a;
}

with_body-Sends : (q : Request) (h : Held) → Sends (most_sends q) (with_body q h)
unfolding with_body
with_body-Sends q hold_fails = Sends-none _ (aborts ∷ []) (ground arith)
with_body-Sends q not_held = Sends-weaker _ _ _ (ground arith) (send_first false false q)
with_body-Sends q held =
    Sends-weaker _ _ _ (ground arith) (send_first (q.is_idempotent && q.has_streams) true q)

after_peek-Sends : (q : Request) (p : Peek) → Sends (most_sends q) (after_peek q p)
unfolding after_peek
after_peek-Sends q broken = Sends-none _ (aborts ∷ []) (ground arith)
after_peek-Sends q pending = with_body-Sends q (hold_body q (peeked_length pending))
after_peek-Sends q more = with_body-Sends q (hold_body q (peeked_length more))
after_peek-Sends q (whole len) = with_body-Sends q (hold_body q (peeked_length (whole len)))

upgrades : (q : Request) → Sends (most_sends q) (some (web_socket (q.sends 0) q.upgrade))
upgrades q = record {
  events = web_socket (q.sends 0) q.upgrade;
  returns = refl;
  times = one_if (open_h3_stream (q.sends 0)).has_stream;
  counted = one_if (open_h3_stream (q.sends 0)).has_stream;
  at_most = ground (arith, one_if-le (open_h3_stream (q.sends 0)).has_stream);
  counted_if = ground (arith, one_if-le (open_h3_stream (q.sends 0)).has_stream);
  adds = web_socket-Adds (q.sends 0) q.upgrade;
}

to_route-Sends : (q : Request) (f : Found) → Sends (most_sends q) (to_route q f)
unfolding to_route
to_route-Sends q no_route = Sends-none _ _ (ground arith)
to_route-Sends q http3_off = Sends-none _ _ (ground arith)
to_route-Sends q routed = elim (Bool-cases q.is_web_socket) [
  | inl e ↦ simp e (upgrades q)
  | inr e ↦ elim (Bool-cases (peeks q)) [
    | inl f ↦ simp (e, f) (after_peek-Sends q q.peeked)
    | inr f ↦ simp (e, f) (with_body-Sends q (hold_body q q.content_length))
  ]
]

handle-Sends : (q : Request) → Sends (most_sends q) (handle q)
unfolding handle
handle-Sends q = elim (Bool-cases (q.is_connect && not q.is_web_socket)) [
  | inl e ↦ rw e (Sends-none _ (answers 501 ∷ []) (ground arith))
  | inr e ↦ elim (Bool-cases q.head_is_valid) [
    | inl f ↦ rw e (simp f (to_route-Sends q q.found))
    | inr f ↦ rw e (simp f (Sends-none _ _ (ground arith)))
  ]
]

pub record IsServed (q : Request) (out : Option (List Event)) : Type 0 where
  pub events : List Event
  pub returns : out ≡ some events
  pub ended_once : count is_end events ≡ 1
  pub fails_once : count is_failure events ≤ 1
  pub slots : count takes events ≡ count is_counted events + count releases events
  pub reservations : count is_reserve events ≡ count is_commit events + count unreserves events
  pub committed : count is_commit events ≡ count is_counted events
  pub opened : count is_open events ≡ count is_counted events + count is_unsent events
  pub streams : count is_obtained events ≡ count is_given_up events
  pub sent : count is_obtained events ≤ most_sends q
  pub requests : count is_request events ≡ min (count is_obtained events) 1

-- Whatever the client, the pool, dispatch, the tunnel and the service answer, serveHTTP3 returns: the
-- request is answered or given up on, once, with at most one failure counted. Every slot of the route
-- that it takes becomes a counted stream or is released; every reservation of a session is committed,
-- with a stream counted as open, or released; every stream that dispatch opened is counted or closed;
-- and every stream that it takes, fresh or kept, it closes or keeps. A request that is not idempotent
-- goes out at most once, any other at most twice, and it is counted once when it goes out at all.
pub serve_http3-IsServed : (q : Request) → IsServed q (serve_http3 q)
unfolding serve_http3
serve_http3-IsServed q =
    let v = handle-Sends q in
    let tail : List Event = ends ∷ closes_body ∷ [] in
    let quiet : Adds 0 0 0 0 tail = ground arith in
    let a : Adds 1 v.counted v.times v.times (v.events ++ tail) =
      append-Adds 1 v.counted v.times v.times v.events tail v.adds quiet (omega arith) in
    record {
      events = begins ∷ (v.events ++ tail);
      returns = rw (v.returns, serve_http3) refl;
      ended_once = a.ends_of;
      fails_once = a.fails_once;
      slots = a.slots;
      reservations = a.reservations;
      committed = a.committed;
      opened = a.opened;
      streams = a.obtained_of ∙ sym a.given_of;
      sent = omega (arith, a.obtained_of, v.at_most);
      requests = a.requests_of ∙ v.counted_if ∙ ap (λ n. min n 1) (sym a.obtained_of);
    }
