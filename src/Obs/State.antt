-- ===== src/Obs/State.antt =====
-- internal/obs/state.go and routes.go: the counters of the daemon, the sessions of agents and the
-- routes. A route is known by its pattern and a session by a number, which stand for the pointers;
-- `sessions` is the memory that they point to. Maps that the code ranges over are lists. Snapshot
-- and Detail are in Snapshot.
pub mod Views
pub mod Agreement
use coen.Base.{
  ℕ, suc, ◌+◌, Bool, true, false, not, Option, none, some, List, [], ◌∷◌, ◌++◌, map, if◌then◌else◌,
  ◌==◌, Bytes, bytes_eq, exists, keep,
}
use coen.Base.Int.{ℤ, pos, plus_one, minus_one}
use coen.Base.Threads.{put_at}
use coen.Obs.Opening.{le_int}
use coen.Obs.Routes.{RouteStats, new_route_stats, inc, opened, closed}

pub record AgentSession : Type 0 where
  pub fp : Bytes
  pub addr : Bytes
  pub since : ℕ
  pub active : ℤ
  pub is_draining : Bool

pub record State : Type 0 where
  pub role : Bytes
  pub is_connected : Bool
  pub connected_nano : ℕ
  pub active_streams : ℤ
  pub total_streams : ℕ
  pub max_streams : ℤ
  pub reconnects : ℕ
  pub handshake_ok : ℕ
  pub handshake_fail : ℕ
  pub handshake_rejected : ℕ
  pub handshake_dup : ℕ
  pub handshake_capped : ℕ
  pub last_error : Option Bytes
  pub peer_fp : Option Bytes
  pub self_fp : Option Bytes
  pub http3_listen : Option Bytes
  pub sessions : ℕ → AgentSession
  pub agents : List ℕ
  pub expected : List Bytes
  pub agent_totals : List (Bytes × ℕ)
  pub routes : List RouteStats
  pub unrouted : ℕ → ℕ
  pub header_timeouts : ℕ
  pub is_draining : Bool
  pub started : ℕ

abbrev no_session : AgentSession
no_session = record { fp = []; addr = []; since = 0; active = pos 0; is_draining = false }

pub new_state : Bytes → ℕ → State
new_state role now = record {
  role = role;
  is_connected = false;
  connected_nano = 0;
  active_streams = pos 0;
  total_streams = 0;
  max_streams = pos 0;
  reconnects = 0;
  handshake_ok = 0;
  handshake_fail = 0;
  handshake_rejected = 0;
  handshake_dup = 0;
  handshake_capped = 0;
  last_error = none;
  peer_fp = none;
  self_fp = none;
  http3_listen = none;
  sessions = λ _. no_session;
  agents = [];
  expected = [];
  agent_totals = [];
  routes = [];
  unrouted = λ _. 0;
  header_timeouts = 0;
  is_draining = false;
  started = now;
}

-- The operations of a session; a nil session, `none`, has none of them.
pub active_of : Option ℕ → State → ℤ
active_of none s = pos 0
active_of (some a) s = (s.sessions a).active

abbrev pub with_session : ℕ → AgentSession → State → State
with_session a x s = record s { sessions = put_at s.sessions a x }

pub reserve : Option ℕ → State → State
reserve none s = s
reserve (some a) s =
    let x = s.sessions a in with_session a (record x { active = plus_one x.active }) s

-- The lifetime tally that sessions of a certificate share.
pub add_total : Bytes → List (Bytes × ℕ) → List (Bytes × ℕ)
add_total fp [] = []
add_total fp ((k, n) ∷ totals) =
    if bytes_eq k fp then (k, suc n) ∷ totals else (k, n) ∷ add_total fp totals

pub commit : Option ℕ → State → State
unfolding add_total
commit none s = s
commit (some a) s = record s { agent_totals = add_total (s.sessions a).fp s.agent_totals }

pub session_stream_closed : Option ℕ → State → State
session_stream_closed none s = s
session_stream_closed (some a) s =
    let x = s.sessions a in with_session a (record x { active = minus_one x.active }) s

pub set_session_draining : Option ℕ → State → State
set_session_draining none s = s
set_session_draining (some a) s =
    let x = s.sessions a in with_session a (record x { is_draining = true }) s

pub has_total : Bytes → List (Bytes × ℕ) → Bool
has_total fp totals = exists (λ p. bytes_eq p.0 fp) totals

-- `a` is the new pointer.
pub new_agent_session : ℕ → Bytes → Bytes → ℕ → State → State
unfolding has_total
new_agent_session a fp addr now s =
    let totals = if has_total fp s.agent_totals then s.agent_totals else (fp, 0) ∷ s.agent_totals in
    with_session a
      (record { fp = fp; addr = addr; since = now; active = pos 0; is_draining = false })
      (record s { agent_totals = totals })

pub add_agent : ℕ → State → State
add_agent a s = if exists (λ b. b == a) s.agents then s else record s { agents = a ∷ s.agents }

pub agent_disconnected : ℕ → State → State
agent_disconnected a s = record s { agents = keep (λ b. not (b == a)) s.agents }

pub set_connected : Bytes → ℕ → State → State
set_connected fp now s = record s { connected_nano = now; peer_fp = some fp; is_connected = true }

pub set_disconnected : State → State
set_disconnected s = record s { is_connected = false; peer_fp = some [] }

-- A route by its pattern.
pub on_route : (RouteStats → RouteStats) → Bytes → List RouteStats → List RouteStats
on_route f p [] = []
on_route f p (r ∷ rs) = if bytes_eq r.pattern_text p then f r ∷ rs else r ∷ on_route f p rs

pub has_route : Bytes → List RouteStats → Bool
has_route p rs = exists (λ r. bytes_eq r.pattern_text p) rs

pub get_route : Bytes → State → State
unfolding has_route
get_route p s =
    if has_route p s.routes then s else record s { routes = new_route_stats p ∷ s.routes }

abbrev pub on_route_of :
    (RouteStats → RouteStats) → Option Bytes → List RouteStats → List RouteStats
on_route_of f none rs = rs
on_route_of f (some p) rs = on_route f p rs

-- streamOpened by a goroutine alone.
pub stream_opened : Option Bytes → Bool → State → State
unfolding le_int
stream_opened r h3 s =
    let n = plus_one s.active_streams in
    record s {
      routes = on_route_of (opened h3) r s.routes;
      active_streams = n;
      total_streams = suc s.total_streams;
      max_streams = if le_int n s.max_streams then s.max_streams else n;
    }

pub stream_closed : Option Bytes → State → State
stream_closed r s = record s {
  routes = on_route_of closed r s.routes;
  active_streams = minus_one s.active_streams;
}

pub count_reconnect : State → State
count_reconnect s = record s { reconnects = suc s.reconnects }

pub count_handshake_ok : State → State
count_handshake_ok s = record s { handshake_ok = suc s.handshake_ok }

pub count_handshake_fail : State → State
count_handshake_fail s = record s { handshake_fail = suc s.handshake_fail }

pub count_handshake_rejected : State → State
count_handshake_rejected s = record s { handshake_rejected = suc s.handshake_rejected }

pub count_handshake_duplicate : State → State
count_handshake_duplicate s = record s { handshake_dup = suc s.handshake_dup }

pub count_handshake_capped : State → State
count_handshake_capped s = record s { handshake_capped = suc s.handshake_capped }

pub count_header_timeout : State → State
count_header_timeout s = record s { header_timeouts = suc s.header_timeouts }

pub set_error : Bytes → State → State
set_error e s = record s { last_error = some e }

pub set_self_fingerprint : Bytes → State → State
set_self_fingerprint fp s = record s { self_fp = some fp }

pub set_http3_listen : Bytes → State → State
set_http3_listen addr s = record s { http3_listen = some addr }

pub set_draining : State → State
set_draining s = record s { is_draining = true }

pub state_failure : ℕ → State → State
unfolding inc
state_failure reason s = record s { unrouted = inc reason s.unrouted }

-- The allowed fingerprints, of a Go map, with their values.
pub expect_agents : List (Bytes × Bool) → State → State
expect_agents [] s = s
expect_agents ((fp, allowed) ∷ rest) s = expect_agents rest (
    if allowed
    then (if exists (λ k. bytes_eq k fp) s.expected
        then s
        else record s { expected = fp ∷ s.expected })
    else s)
