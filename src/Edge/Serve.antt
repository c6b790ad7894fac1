-- ===== src/Edge/Serve.antt =====
-- internal/edge/edge.go, serveAgent: the life of an agent's connection, on the registry. What TLS, yamux
-- and the session answer is a record. Between two calls of the registry other goroutines use it too:
-- `between k` is what they do before the k-th step. The result is the registry when serveAgent
-- returns, with what it did besides, in order. The control stream of a version 2 agent (ServeControl),
-- which runs on its own, is not in it. openUnlessRetired is in Edge/Conn; here `going_away` answers
-- whether a probe finds that the agent is going away and that retire has not run before.
pub mod Outcomes
mod Tests
use coen.Base.{
  ℕ, suc, ◌+◌, ◌≡◌, refl, Bool, true, false, not, ◌&&◌, ◌||◌, Option, none, some, List, [], ◌∷◌,
  ◌++◌, exists, if◌then◌else◌, Bytes, bytes_eq,
}
use coen.Edge.Registry.{
  AgentConn, Registry, Registration, registered, refused_duplicate, refused_cap, refused_gone,
  TrackResult, track_ok, track_closing, track_capped, register_conn, has_live_exclusive, track,
  take, drop, live_candidates,
}

pub data HandshakeError : Type 0 where
  peer_left peer_rejected : HandshakeError

pub data PingError : Type 0 where
  ping_shutdown ping_other : PingError

pub data Event : Type 0 where
  closes_conn closes_session lists unlists : Event
  counts_rejected counts_fail counts_capped counts_duplicate counts_ok : Event

pub record Arrival : Type 0 where
  pub is_tls : Bool
  pub handshake_error : Option HandshakeError
  pub allowed : List Bytes
  pub fp : Bytes
  pub session_starts : Bool
  pub sess : ℕ
  pub ping_error : Option PingError
  pub v2 : Bool
  pub closed : ℕ → ℕ → Bool  -- IsClosed, by step and session
  pub going_away : ℕ → Bool
  pub between : ℕ → Registry → Registry

abbrev pub conn_of : Arrival → AgentConn
conn_of a = record { fp = a.fp; sess = a.sess; v2 = a.v2 }

-- retireGoingAway: each version 2 session is probed.
pub retire_each : (ℕ → Bool) → List AgentConn → Registry → Registry
retire_each going_away [] r = r
retire_each going_away (c ∷ cs) r =
    retire_each going_away cs (if c.v2 && going_away c.sess then take c.fp c.sess r else r)

pub retire_going_away : Arrival → ℕ → Registry → Registry
unfolding retire_each
retire_going_away a k r = retire_each a.going_away (live_candidates (a.closed k) (a.fp ∷ []) r) r

pub duplicate_after_probe : Arrival → ℕ → Registry → Registry × Bool
unfolding retire_going_away
duplicate_after_probe a k r = has_live_exclusive (a.closed k) a.fp (retire_going_away a k r)

abbrev pub refuse_duplicate : List Event
refuse_duplicate = counts_duplicate ∷ closes_session ∷ []

-- What follows the last result of registerConn; a registered session is served until it closes.
pub after_register : Arrival → Registration → Registry → Registry × List Event
after_register a registered r = (a.between 6 r, lists ∷ counts_ok ∷ unlists ∷ [])
after_register a refused_gone r = (r, lists ∷ unlists ∷ closes_session ∷ [])
after_register a refused_cap r = (r, lists ∷ unlists ∷ counts_capped ∷ closes_session ∷ [])
after_register a refused_duplicate r = (r, lists ∷ unlists ∷ refuse_duplicate)

abbrev pub is_duplicate : Registration → Bool
is_duplicate refused_duplicate = true
is_duplicate _ = false

-- A newcomer that was refused as a duplicate without a probe tries once more after it.
pub register_again : Arrival → Registry × Bool → Registry × List Event
unfolding after_register
register_again a (r, true) = after_register a refused_duplicate r
register_again a (r, false) =
    let (r', result, pooled) = register_conn (a.closed 5) a.fp (conn_of a) (a.between 5 r) in
    after_register a result r'

pub join : Arrival → Bool → Registry → Registry × List Event
unfolding after_register register_again duplicate_after_probe
join a probed r =
    let (r', result, pooled) = register_conn (a.closed 3) a.fp (conn_of a) r in
    if is_duplicate result && not probed
    then register_again a (duplicate_after_probe a 4 (a.between 4 r'))
    else after_register a result r'

pub after_ping : Arrival → Bool → Option PingError → Registry → Registry × List Event
unfolding join
after_ping a probed (some ping_shutdown) r = (r, closes_session ∷ [])
after_ping a probed (some ping_other) r = (r, counts_fail ∷ closes_session ∷ [])
after_ping a probed none r = join a probed (a.between 3 r)

pub after_probe : Arrival → Registry × Bool → Registry × List Event
unfolding after_ping
after_probe a (r, true) = (r, refuse_duplicate)
after_probe a (r, false) = after_ping a true a.ping_error (a.between 2 r)

pub after_check : Arrival → Registry × Bool → Registry × List Event
unfolding after_probe after_ping duplicate_after_probe
after_check a (r, true) = after_probe a (duplicate_after_probe a 1 (a.between 1 r))
after_check a (r, false) = after_ping a false a.ping_error (a.between 1 r)

-- The switch on the result of track; the deferred drop runs at the end.
pub after_track : Arrival → Registry × TrackResult → Registry × List Event
unfolding after_check
after_track a (r, track_closing) = (r, closes_session ∷ [])
after_track a (r, track_capped) = (r, counts_capped ∷ closes_session ∷ [])
after_track a (r, track_ok) =
    let (r', events) = after_check a (has_live_exclusive (a.closed 0) a.fp (a.between 0 r)) in
    (drop a.sess r', events)

abbrev pub is_allowed : List Bytes → Bytes → Bool
is_allowed [] fp = true
is_allowed (x ∷ xs) fp = exists (λ y. bytes_eq y fp) (x ∷ xs)

pub after_handshake : Arrival → Option HandshakeError → Registry → Registry × List Event
unfolding after_track
after_handshake a (some peer_left) r = (r, closes_conn ∷ [])
after_handshake a (some peer_rejected) r = (r, counts_rejected ∷ closes_conn ∷ [])
after_handshake a none r =
    if is_allowed a.allowed a.fp
    then (if a.session_starts then after_track a (track a.fp a.sess r) else (r, closes_conn ∷ []))
    else (r, counts_fail ∷ closes_conn ∷ [])

pub serve_agent : Arrival → Registry → Registry × List Event
unfolding after_handshake
serve_agent a r = if a.is_tls then after_handshake a a.handshake_error r else (r, closes_conn ∷ [])
