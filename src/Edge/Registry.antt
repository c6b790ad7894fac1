-- ===== src/Edge/Registry.antt =====
-- internal/edge/registry.go: the pooled sessions of each agent certificate, and all open sessions.
-- A *yamux.Session is its identity, a number. Whether yamux has closed it is what IsClosed answers
-- during the call: an argument `closed`. A fingerprint is a list of bytes. `by_fp`, `joined` and
-- `pending` read a missing key as the empty slice or 0, as the source does, and deleting a key is
-- writing that value; so `pending - 1`, which stops at 0, is the decrement with its deletion.
pub mod Sessions
pub mod Invariant
pub mod Operations
pub mod Tracking
pub mod Steps
pub mod Shutdown
pub mod Admission
mod Tests
use coen.Base.{
  ℕ, zero, suc, ◌+◌, ◌-◌, ◌≡◌, refl, Bool, true, false, not, ◌&&◌, ◌||◌, Option, none, some, List,
  [], ◌∷◌, ◌++◌, length, keep, if◌then◌else◌, ltb, leb, ◌==◌, Bytes, bytes_eq, update, map,
}
use Sessions.{Tracked, find, put, erase, mark_joined}

-- The fields of agentConn that never change.
pub record AgentConn : Type 0 where
  pub fp : Bytes
  pub sess : ℕ
  pub v2 : Bool

-- `joins` counts the channels that joinedCh has been: a channel taken at a lower count is closed.
pub record Registry : Type 0 where
  pub by_fp : Bytes → List AgentConn
  pub all : List (ℕ × Tracked)
  pub joined : Bytes → ℕ
  pub pending : Bytes → ℕ
  pub shared : Bytes → Bool
  pub closing : Bool
  pub joins : ℕ

abbrev pub max_shared_sessions : ℕ
max_shared_sessions = 256

unfoldable pub new_registry : (Bytes → Bool) → Registry
new_registry shared = record {
  by_fp = λ _. [];
  all = [];
  joined = λ _. 0;
  pending = λ _. 0;
  shared = shared;
  closing = false;
  joins = 0;
}

pub data Registration : Type 0 where
  registered refused_duplicate refused_cap refused_gone : Registration

pub data TrackResult : Type 0 where
  track_ok track_closing track_capped : TrackResult

-- The sessions of a pool that are still open.
abbrev pub open_conns : (ℕ → Bool) → List AgentConn → List AgentConn
open_conns closed = keep (λ c. not (closed c.sess))

-- liveLocked: also drops the others from the pool.
pub live_locked : (ℕ → Bool) → Bytes → Registry → Registry × List AgentConn
live_locked closed fp r =
    let live = open_conns closed (r.by_fp fp) in (record r { by_fp = update r.by_fp fp live }, live)

pub is_nil : List AgentConn → Bool
is_nil [] = true
is_nil (c ∷ cs) = false

pub duplicate_locked : Registry → Bytes → List AgentConn → Bool
unfolding is_nil
duplicate_locked r fp live = not (r.shared fp) && not (is_nil live)

pub unpend_locked : Registry → Bytes → Registry
unpend_locked r fp = record r { pending = update r.pending fp (r.pending fp - 1) }

-- The end of registerConn: the tracked session is counted as joined, the first time.
pub join_tracked : Registry → Bytes → ℕ → Option Tracked → Registry
unfolding unpend_locked
join_tracked r fp s none = r
join_tracked r fp s (some t) =
    if t.joined
    then r
    else unpend_locked
        (record r { all = mark_joined s r.all; joined = update r.joined fp (r.joined fp + 1) }) fp

pub pool_conn : Registry → Bytes → List AgentConn → AgentConn → Registry
unfolding join_tracked
pool_conn r fp live c =
    join_tracked (record r { by_fp = update r.by_fp fp (live ++ c ∷ []); joins = r.joins + 1 }) fp
      c.sess (find c.sess r.all)

-- The switch of registerConn, with `live` from liveLocked.
pub register_live :
    (ℕ → Bool) → Bytes → AgentConn → Registry → List AgentConn → Registry × Registration × ℕ
unfolding duplicate_locked pool_conn
register_live closed fp c r live =
    if r.closing || closed c.sess
    then (r, refused_gone, 0)
    else if duplicate_locked r fp live
    then (r, refused_duplicate, 0)
    else if leb max_shared_sessions (r.joined fp)
    then (r, refused_cap, 0)
    else (let r' = pool_conn r fp live c in (r', registered, length (r'.by_fp fp)))

pub register_conn : (ℕ → Bool) → Bytes → AgentConn → Registry → Registry × Registration × ℕ
unfolding live_locked register_live
register_conn closed fp c r =
    let (r', live) = live_locked closed fp r in register_live closed fp c r' live

pub has_live_exclusive : (ℕ → Bool) → Bytes → Registry → Registry × Bool
unfolding live_locked duplicate_locked
has_live_exclusive closed fp r =
    let (r', live) = live_locked closed fp r in (r', duplicate_locked r' fp live)

pub track : Bytes → ℕ → Registry → Registry × TrackResult
track fp s r =
    if r.closing
    then (r, track_closing)
    else if leb max_shared_sessions (r.pending fp)
    then (r, track_capped)
    else (
      record r {
        all = put s (record { fp = fp; joined = false }) r.all;
        pending = update r.pending fp (r.pending fp + 1);
      },
      track_ok,
    )

-- The loop of removeLocked: drops the first entry of the session.
pub remove_conn : ℕ → List AgentConn → List AgentConn
remove_conn s [] = []
remove_conn s (c ∷ cs) = if c.sess == s then cs else c ∷ remove_conn s cs

pub remove_locked : Bytes → ℕ → Registry → Registry
unfolding remove_conn
remove_locked fp s r = record r { by_fp = update r.by_fp fp (remove_conn s (r.by_fp fp)) }

pub take : Bytes → ℕ → Registry → Registry
unfolding remove_locked
take = remove_locked

-- The counter that a dropped session leaves.
pub uncount : Tracked → Registry → Registry
unfolding unpend_locked
uncount t r =
    if t.joined
    then record r { joined = update r.joined t.fp (r.joined t.fp - 1) }
    else unpend_locked r t.fp

pub forget : ℕ → Registry → Registry
forget s r = record r { all = erase s r.all }

pub drop_tracked : ℕ → Registry → Option Tracked → Registry
unfolding remove_locked uncount forget
drop_tracked s r none = r
drop_tracked s r (some t) = forget s (uncount t (remove_locked t.fp s r))

pub drop : ℕ → Registry → Registry
unfolding drop_tracked
drop s r = drop_tracked s r (find s r.all)

-- The two results of candidates.
pub live_candidates : (ℕ → Bool) → List Bytes → Registry → List AgentConn
live_candidates closed [] r = []
live_candidates closed (fp ∷ fps) r = open_conns closed (r.by_fp fp) ++ live_candidates closed fps r

pub dead_candidates : (ℕ → Bool) → List Bytes → Registry → List AgentConn
dead_candidates closed [] r = []
dead_candidates closed (fp ∷ fps) r =
    keep (λ c. closed c.sess) (r.by_fp fp) ++ dead_candidates closed fps r

-- closeAll: the new state, and the sessions that it closes.
pub close_all : Registry → Registry × List ℕ
close_all r = (record r { closing = true }, map (λ e. e.0) r.all)
