-- ===== src/Obs/State/Views.antt =====
-- internal/obs/state.go and routes.go: Snapshot and Detail, with no other goroutine running.
pub mod Shown
use coen.Base.{
  ℕ, ◌+◌, Bool, true, false, Option, none, some, List, [], ◌∷◌, map, if◌then◌else◌, ltb, Bytes,
  bytes_eq,
}
use coen.Base.Int.{ℤ}
use coen.Base.Sorting.{bytes_lt, sort_by}
use coen.Obs.Routes.{RouteStats, get_count, byte_totals}
use coen.Obs.State.{AgentSession, State}

pub record AgentInfo : Type 0 where
  pub fingerprint : Bytes
  pub remote_addr : Bytes
  pub connected_since : ℕ
  pub active : ℤ
  pub info_draining : Bool

pub record RouteSnapshot : Type 0 where
  pub pattern_text : Bytes
  pub active : ℤ
  pub all_streams : ℕ
  pub total_h3 : ℕ
  pub req_h3 : ℕ
  pub waits : ℕ
  pub bytes_in : ℕ
  pub bytes_out : ℕ
  pub failures : ℕ → ℕ

-- `none` is the zero time.
pub record Snapshot : Type 0 where
  pub role : Bytes
  pub tunnel_connected : Bool
  pub connected_since : Option ℕ
  pub active_streams : ℤ
  pub max_streams : ℤ
  pub total_streams : ℕ
  pub bytes_in : ℕ
  pub bytes_out : ℕ
  pub reconnects : ℕ
  pub handshake_ok : ℕ
  pub handshake_fail : ℕ
  pub handshake_rejected : ℕ
  pub handshake_dup : ℕ
  pub handshake_capped : ℕ
  pub last_error : Bytes
  pub self_fingerprint : Bytes
  pub peer_fingerprint : Bytes
  pub agents : List AgentInfo
  pub http3_listen : Bytes

abbrev pub load_str : Option Bytes → Bytes
load_str none = []
load_str (some x) = x

pub route_snapshot : RouteStats → RouteSnapshot
route_snapshot r =
    let sums = byte_totals r in
    record {
      pattern_text = r.pattern_text;
      active = r.active;
      all_streams = r.all_streams;
      total_h3 = r.total_h3;
      req_h3 = r.req_h3;
      waits = r.waits;
      bytes_in = sums.0;
      bytes_out = sums.1;
      failures = get_count r.failures;
    }

abbrev pub pattern_less : RouteSnapshot → RouteSnapshot → Bool
pattern_less a b = bytes_lt a.pattern_text b.pattern_text

pub route_snapshots : State → List RouteSnapshot
unfolding route_snapshot
route_snapshots s = sort_by pattern_less (map route_snapshot s.routes)

pub sum_of : (RouteSnapshot → ℕ) → List RouteSnapshot → ℕ
sum_of f [] = 0
sum_of f (r ∷ rs) = f r + sum_of f rs

pub agent_info : AgentSession → AgentInfo
agent_info a = record {
  fingerprint = a.fp;
  remote_addr = a.addr;
  connected_since = a.since;
  active = a.active;
  info_draining = a.is_draining;
}

abbrev pub agent_less : AgentInfo → AgentInfo → Bool
agent_less a b =
    if bytes_eq a.fingerprint b.fingerprint
    then ltb a.connected_since b.connected_since
    else bytes_lt a.fingerprint b.fingerprint

pub snapshot_of : List RouteSnapshot → State → Snapshot
unfolding sum_of agent_info
snapshot_of routes s = record {
  role = s.role;
  tunnel_connected = s.is_connected;
  connected_since = if s.is_connected then some s.connected_nano else none;
  active_streams = s.active_streams;
  max_streams = s.max_streams;
  total_streams = s.total_streams;
  bytes_in = sum_of (λ r. r.bytes_in) routes;
  bytes_out = sum_of (λ r. r.bytes_out) routes;
  reconnects = s.reconnects;
  handshake_ok = s.handshake_ok;
  handshake_fail = s.handshake_fail;
  handshake_rejected = s.handshake_rejected;
  handshake_dup = s.handshake_dup;
  handshake_capped = s.handshake_capped;
  last_error = load_str s.last_error;
  self_fingerprint = load_str s.self_fp;
  peer_fingerprint = load_str s.peer_fp;
  agents = sort_by agent_less (map (λ a. agent_info (s.sessions a)) s.agents);
  http3_listen = load_str s.http3_listen;
}

pub snapshot : State → Snapshot
unfolding snapshot_of route_snapshots
snapshot s = snapshot_of (route_snapshots s) s

pub record Detail : Type 0 where
  pub view : Snapshot
  pub routes : List RouteSnapshot
  pub unrouted_failures : ℕ → ℕ
  pub header_timeouts : ℕ
  pub is_draining : Bool
  pub expected_agents : List Bytes
  pub agent_streams : List (Bytes × ℕ)
  pub start_time : ℕ

pub detail : State → Detail
unfolding snapshot_of route_snapshots
detail s =
    let routes = route_snapshots s in
    record {
      view = snapshot_of routes s;
      routes = routes;
      unrouted_failures = get_count s.unrouted;
      header_timeouts = s.header_timeouts;
      is_draining = s.is_draining;
      expected_agents = sort_by bytes_lt s.expected;
      agent_streams = s.agent_totals;
      start_time = s.started;
    }
