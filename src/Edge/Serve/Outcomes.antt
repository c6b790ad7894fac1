-- ===== src/Edge/Serve/Outcomes.antt =====
-- internal/edge/edge.go, serveAgent: how each way through it ends.
use coen.Base.{
  ◌+◌, ◌≤◌, ◌≡◌, Bool, true, false, not, ◌&&◌, Option, none, some, List, arith, count, Bool-cases,
  inl, inr,
}
use coen.Edge.Registry.{
  Registry, Registration, registered, refused_duplicate, refused_cap, refused_gone,
  has_live_exclusive, register_conn, track,
}
use coen.Edge.Registry.Sessions.{find}
use coen.Edge.Registry.Tracking.{track-cases, find-drop}
use coen.Edge.Serve.{
  HandshakeError, peer_left, peer_rejected, PingError, ping_shutdown, ping_other, Event,
  closes_conn, closes_session, lists, unlists, counts_rejected, counts_fail, counts_capped,
  counts_duplicate, counts_ok, Arrival, conn_of, duplicate_after_probe, after_register,
  is_duplicate, register_again, join, after_ping, after_probe, after_check, after_track, is_allowed,
  after_handshake, serve_agent,
}

abbrev pub is_close : Event → Bool
is_close closes_conn = true
is_close closes_session = true
is_close _ = false

abbrev pub is_list : Event → Bool
is_list lists = true
is_list _ = false

abbrev pub is_unlist : Event → Bool
is_unlist unlists = true
is_unlist _ = false

abbrev pub is_count : Event → Bool
is_count counts_rejected = true
is_count counts_fail = true
is_count counts_capped = true
is_count counts_duplicate = true
is_count counts_ok = true
is_count _ = false

abbrev pub is_success : Event → Bool
is_success counts_ok = true
is_success _ = false

pub record IsServed (events : List Event) : Type 0 where
  pub ended_once : count is_close events + count is_success events ≡ 1
  pub counted_once : count is_count events ≤ 1
  pub unlisted : count is_unlist events ≡ count is_list events
  pub listed_once : count is_list events ≤ 1

after_register-IsServed :
    (a : Arrival) (g : Registration) (r : Registry) → IsServed (after_register a g r).1
unfolding after_register
after_register-IsServed a registered r = ground arith
after_register-IsServed a refused_gone r = ground arith
after_register-IsServed a refused_cap r = ground arith
after_register-IsServed a refused_duplicate r = ground arith

register_again-IsServed : (a : Arrival) (p : Registry × Bool) → IsServed (register_again a p).1
unfolding register_again
register_again-IsServed a (r, true) = after_register-IsServed a refused_duplicate r
register_again-IsServed a (r, false) = after_register-IsServed a _ _

join-IsServed : (a : Arrival) (probed : Bool) (r : Registry) → IsServed (join a probed r).1
unfolding join
join-IsServed a probed r =
    elim (Bool-cases
      (is_duplicate (register_conn (a.closed 3) a.fp (conn_of a) r).1 && not probed)) [
        | inl e ↦ rw e (register_again-IsServed a _)
        | inr e ↦ rw e (after_register-IsServed a _ _)
      ]

after_ping-IsServed :
    (a : Arrival) (probed : Bool) (p : Option PingError) (r : Registry)
    → IsServed (after_ping a probed p r).1
unfolding after_ping
after_ping-IsServed a probed (some ping_shutdown) r = ground arith
after_ping-IsServed a probed (some ping_other) r = ground arith
after_ping-IsServed a probed none r = join-IsServed a probed _

after_check-IsServed : (a : Arrival) (p : Registry × Bool) → IsServed (after_check a p).1
unfolding after_check after_probe
after_check-IsServed a (r, true) = probed (duplicate_after_probe a 1 (a.between 1 r))
  where
    probed : (p : Registry × Bool) → IsServed (after_probe a p).1
    probed (r, true) = ground arith
    probed (r, false) = after_ping-IsServed a true a.ping_error _
after_check-IsServed a (r, false) = after_ping-IsServed a false a.ping_error _

-- What serveAgent leaves.
pub record Ends (a : Arrival) (out : Registry × List Event) : Type 0 where
  pub served : IsServed out.1
  pub untracked : find a.sess out.0.all ≡ none

after_track-Ends :
    (a : Arrival) (r : Registry)
    → find a.sess r.all ≡ none
    → Ends a (after_track a (track a.fp a.sess r))
unfolding after_track
after_track-Ends a r h = elim (track-cases a.fp a.sess r) [
  | inl e ↦ rw e (record { served = ground arith; untracked = h })
  | inr c ↦ elim c [
    | inl e ↦ rw e (record { served = ground arith; untracked = h })
    | inr (q, e) ↦ rw e (record {
      served = after_check-IsServed a (has_live_exclusive (a.closed 0) a.fp (a.between 0 q));
      untracked = find-drop a.sess _;
    })
  ]
]

after_handshake-Ends :
    (a : Arrival) (e : Option HandshakeError) (r : Registry)
    → find a.sess r.all ≡ none
    → Ends a (after_handshake a e r)
unfolding after_handshake
after_handshake-Ends a (some peer_left) r h = record { served = ground arith; untracked = h }
after_handshake-Ends a (some peer_rejected) r h = record { served = ground arith; untracked = h }
after_handshake-Ends a none r h = elim (Bool-cases (is_allowed a.allowed a.fp)) [
  | inr e ↦ rw e (record { served = ground arith; untracked = h })
  | inl e ↦ elim (Bool-cases a.session_starts) [
    | inr f ↦ simp (e, f) (record { served = ground arith; untracked = h })
    | inl f ↦ simp (e, f) (after_track-Ends a r h)
  ]
]

-- Whatever TLS, yamux, the agent and the other users of the registry do, serveAgent for a connection
-- whose session is not tracked yet either serves the session until it has closed, or closes the
-- connection or the session itself, once; it counts at most one outcome of the handshake; a session
-- that it lists, at most once, it also takes off the list; and when it returns, the session is not
-- tracked by the registry.
pub serve_agent-Ends :
    (a : Arrival) (r : Registry) → find a.sess r.all ≡ none → Ends a (serve_agent a r)
unfolding serve_agent
serve_agent-Ends a r h = elim (Bool-cases a.is_tls) [
  | inl e ↦ simp e (after_handshake-Ends a a.handshake_error r h)
  | inr e ↦ simp e (record { served = ground arith; untracked = h })
]
