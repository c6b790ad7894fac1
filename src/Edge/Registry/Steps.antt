-- ===== src/Edge/Registry/Steps.antt =====
-- internal/edge/registry.go: the registry over any sequence of the edge's calls. Each call holds the
-- registry's lock, so calls happen one after another.
use coen.Base.{
  ℕ, suc, ◌+◌, ◌*◌, ◌≤◌, ◌≡◌, refl, Bool, true, false, none, some, List, [], ◌∷◌, arith,
  if◌then◌else◌, Bytes, bytes_eq,
}
use coen.Edge.Registry.{
  AgentConn, Registry, max_shared_sessions, new_registry, register_conn, has_live_exclusive, track,
  take, drop, close_all,
}
use coen.Edge.Registry.Sessions.{Tracked, find, tally}
use coen.Edge.Registry.Invariant.{Inv, new_registry-Inv, live_locked-Inv, remove_locked-Inv}
use coen.Edge.Registry.Operations.{track-Inv, register_conn-Inv, drop-Inv}

-- What the edge does: it tracks a session that is new, and offers a connection for the pool under
-- its own fingerprint while its session is tracked and has not joined (serveAgent); the other calls
-- have no condition.
pub data Step (r : Registry) : Registry → Type 0 where
  tracks : (fp : Bytes) (s : ℕ) → find s r.all ≡ none → Step r (track fp s r).0
  registers :
      (closed : ℕ → Bool) (c : AgentConn)
      → find c.sess r.all ≡ some (record { fp = c.fp; joined = false })
      → Step r (register_conn closed c.fp c r).0
  checks : (closed : ℕ → Bool) (fp : Bytes) → Step r (has_live_exclusive closed fp r).0
  takes : (fp : Bytes) (s : ℕ) → Step r (take fp s r)
  drops : (s : ℕ) → Step r (drop s r)
  closes : Step r (close_all r).0

pub data Reach (r : Registry) : Registry → Type 0 where
  at_start : Reach r r
  after : {s t : Registry} → Reach r s → Step s t → Reach r t

close_all-Inv : (r : Registry) → Inv r → Inv (close_all r).0
unfolding close_all
close_all-Inv r v = record {
  keys = v.keys;
  pending_count = v.pending_count;
  joined_count = v.joined_count;
  pending_cap = v.pending_cap;
  joined_cap = v.joined_cap;
  pools = v.pools;
}

Step-Inv : {r s : Registry} → Step r s → Inv r → Inv s
unfolding has_live_exclusive take
Step-Inv {r} (tracks fp s fresh) v = track-Inv fp s r fresh v
Step-Inv {r} (registers closed c waiting) v = register_conn-Inv closed c.fp c r v refl waiting
Step-Inv {r} (checks closed fp) v = live_locked-Inv closed fp r v
Step-Inv {r} (takes fp s) v = remove_locked-Inv fp s r v
Step-Inv {r} (drops s) v = drop-Inv s r v
Step-Inv {r} closes v = close_all-Inv r v

-- Whatever calls the edge makes from a new registry, in any order and with any answers of IsClosed:
-- the counters `joined` and `pending` are the numbers of tracked sessions that have, and have not,
-- joined; neither passes 256; every pooled session is tracked as joined under its pool's fingerprint,
-- and stands in the pool once; and a fingerprint that is not shared has at most one pooled session.
pub Reach-Inv : (shared : Bytes → Bool) {r : Registry} → Reach (new_registry shared) r → Inv r
Reach-Inv shared at_start = new_registry-Inv shared
Reach-Inv shared (after h s) = Step-Inv s (Reach-Inv shared h)

-- The open sessions of a fingerprint.
pub sessions_of : Bytes → List (ℕ × Tracked) → ℕ
sessions_of fp [] = 0
sessions_of fp ((s, t) ∷ m) =
    let rest = sessions_of fp m in if bytes_eq t.fp fp then suc rest else rest

sessions_of-tally :
    (fp : Bytes) (m : List (ℕ × Tracked)) → sessions_of fp m ≡ tally fp true m + tally fp false m
unfolding sessions_of tally
sessions_of-tally fp [] = refl
sessions_of-tally fp ((s, t) ∷ m) = ground (arith, sessions_of-tally fp m)

-- In every registry that the edge's calls reach, a fingerprint has at most twice 256 open sessions,
-- pooled, retired and connecting ones together.
pub sessions_of-le :
    (shared : Bytes → Bool) {r : Registry} (fp : Bytes)
    → Reach (new_registry shared) r
    → sessions_of fp r.all ≤ 2 * max_shared_sessions
sessions_of-le shared {r} fp h =
    let v = Reach-Inv shared h in
    omega (
      arith,
      sessions_of-tally fp r.all,
      v.joined_count fp,
      v.pending_count fp,
      v.joined_cap fp,
      v.pending_cap fp,
    )
