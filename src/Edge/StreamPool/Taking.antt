-- ===== src/Edge/StreamPool/Taking.antt =====
-- internal/edge/h3pool.go, take: it ends, and what it hands out.
use coen.Base.{
  ℕ, zero, suc, ◌+◌, ◌-◌, ◌≤◌, ◌≡◌, sym, ap, ◌∙◌, Bool, true, false, not, ◌&&◌, ◌||◌, Option, none,
  some, List, All, All-map, [], ◌++◌, length, count, count-append_one, keep, In, if◌then◌else◌,
  Bytes, bytes_eq, bytes_eq_refl, update, ◌⊎◌, subst,
}
use coen.Edge.StreamPool.{IdleStream, StreamPool, remove_locked, last_of, Watched, is_usable}
use coen.Edge.StreamPool.Removal.{Lacks}
use coen.Edge.StreamPool.Invariant.{of_host}
use coen.Edge.StreamPool.Clearing.{remove_locked-Lacks}
use coen.Edge.StreamPool.Closing.{last_of_host}
use coen.Edge.StreamPool.Steps.{Reach, Reach-PoolInv}
use coen.Edge.StreamPool.Moves.{Moves}

-- The sum over `count` rounds from round `n` on.
unfoldable pub sum_from : (ℕ → ℕ) → ℕ → ℕ → ℕ
sum_from f n zero = 0
sum_from f n (suc count) = f n + sum_from f (n + 1) count

module _ (w : ℕ → Watched) (others : ℕ → StreamPool → StreamPool) (k : ℕ) (host : Bytes)
    (r : ℕ) where
  -- A stream that take has taken out of the pool in round `n`.
  pub record Popped (n : ℕ) (s : IdleStream) : Type 0 where
    pub pool : StreamPool
    pub reached : Reach pool
    pub latest : last_of ((pool.conns k).idle host) ≡ some s
    pub mine : of_host k host s ≡ true
    pub was_in : In s pool.all
    pub is_out : Lacks s.id (remove_locked s pool).all

  -- What take hands out, and the pool then.
  pub data Taken : Option IdleStream → StreamPool → Type 0 where
    emptied : (p : StreamPool) → (p.conns k).idle host ≡ [] → Taken none p
    handed :
        (n : ℕ) (s : IdleStream) (o : Popped n s)
        → (w n).live s ≡ true
        → s.route ≡ r
        → (w n).sess_closed s.agent ≡ false
        → (w n).agent_retired s.agent ≡ false
        → Taken (some s) (others n (remove_locked s o.pool))

  -- A stream closed on the way.
  pub record Skipped (s : IdleStream) : Type 0 where
    pub round : ℕ
    pub popped : Popped round s
    pub unfit : is_usable (w round) r s ≡ false

  -- A run of take's loop.
  pub record LoopRun (result : Option (StreamPool × Option IdleStream × List IdleStream))
      : Type 0 where
    pub after : StreamPool
    pub found : Option IdleStream
    pub closed : List IdleStream
    pub returns : result ≡ some (after, found, closed)
    pub reached : Reach after
    pub taken : Taken found after
    pub skipped : All Skipped closed

  popped_now :
      (n : ℕ) (p : StreamPool) (s : IdleStream)
      → Reach p
      → last_of ((p.conns k).idle host) ≡ some s
      → Popped n s
  popped_now n p s reach e =
      let v = Reach-PoolInv reach in
      let (m, mine) = last_of_host p k host v.sound e in
      record {
        pool = p;
        reached = reach;
        latest = e;
        mine = mine;
        was_in = m;
        is_out = remove_locked-Lacks s p v.sound.distinct;
      }
