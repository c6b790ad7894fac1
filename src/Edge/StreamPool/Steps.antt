-- ===== src/Edge/StreamPool/Steps.antt =====
-- internal/edge/h3pool.go: the pool over any interleaving of its users. Each critical section of
-- p.mu is one step.
use coen.Base.{
  ℕ, ◌≡◌, ◌↔◌, ◌⊎◌, refl, sym, ◌∙◌, ap, Bool, true, false, Option, none, some, List, [], ◌∷◌, arith,
  keep, In, In-keep, keep-In, ◌==◌, Bytes, Bool-cases, Option-cases, inl, inr,
}
use coen.Edge.StreamPool.{
  IdleStream, StreamPool, Pressure, new_pool, put, remove_locked, watch, close_conn, close_agent,
  close_all, find_route, evict_route, last_of,
}
use coen.Edge.StreamPool.Removal.{Lacks, Owns, In-Owns}
use coen.Edge.StreamPool.Invariant.{
  of_conn, PoolInv, new_pool-PoolInv, put-PoolInv, remove_locked-PoolInv,
}
use coen.Edge.StreamPool.Clearing.{
  Clears, remove_where-Clears, remove_locked-In, remove_locked-Lacks,
}
use coen.Edge.StreamPool.Closing.{
  close_conn-PoolInv, close_agent-PoolInv, close_all-PoolInv, evict_route-PoolInv, find_route-In,
  last_of_host, mark_ended, mark_ended-IsSound,
}

-- A put brings in a stream with an identity of its own, and a watcher's stream shares its identity
-- with no other.
pub data Step (p : StreamPool) : StreamPool → Type 0 where
  puts : (s : IdleStream) (w : Pressure) → Lacks s.id p.all → Step p (put s w p).0
  watches : (s : IdleStream) (timed_out : Bool) → Owns s p.all → Step p (watch s timed_out p).0
  pops :
      (k : ℕ) (host : Bytes) (s : IdleStream)
      → last_of ((p.conns k).idle host) ≡ some s
      → Step p (remove_locked s p)
  ends : (k : ℕ) → Step p (close_conn k p).0
  drains : (a : ℕ) → Step p (close_agent a p).0
  closes : Step p (close_all p).0
  evicts : (r : ℕ) → Step p (evict_route r p).0

pub data Reach : StreamPool → Type 0 where
  created : Reach new_pool
  stepped : {p q : StreamPool} → Reach p → Step p q → Reach q

Step-PoolInv : {p q : StreamPool} → Step p q → PoolInv p → PoolInv q
unfolding watch
Step-PoolInv {p} (puts s w new) v = put-PoolInv s w p new v
Step-PoolInv {p} (watches s t o) v = remove_locked-PoolInv s p o v
Step-PoolInv {p} (pops k host s e) v =
    remove_locked-PoolInv s p (In-Owns (last_of_host p k host v.sound e).0 v.sound.distinct) v
Step-PoolInv {p} (ends k) v = close_conn-PoolInv k p v
Step-PoolInv {p} (drains a) v = close_agent-PoolInv a p v
Step-PoolInv {p} closes v = close_all-PoolInv p v
Step-PoolInv {p} (evicts r) v = evict_route-PoolInv r p v

-- Whatever puts, watchers, takes, evictions and closings do to the pool, in any order: no stream is in
-- it twice; a connection's list for a host has exactly the connection's pooled streams for that host,
-- in the order of the inserts; its counter is their number over all hosts, and at most 32; a
-- connection that has ended keeps none; and a closed pool is empty.
pub Reach-PoolInv : {p : StreamPool} → Reach p → PoolInv p
Reach-PoolInv created = new_pool-PoolInv
Reach-PoolInv (stepped r s) = Step-PoolInv s (Reach-PoolInv r)

-- The closings take out the streams that match, and those only.
abbrev pub TakesOut : (IdleStream → Bool) → StreamPool → StreamPool × List IdleStream → Type 0
TakesOut ok p out =
    ((x : IdleStream) → In x out.0.all ↔ (In x p.all × (ok x ≡ false)))
    × ((x : IdleStream) → In x out.1 ↔ (In x p.all × (ok x ≡ true)))

Clears-TakesOut :
    (ok : IdleStream → Bool) (p : StreamPool) (out : StreamPool × List IdleStream)
    → Clears ok p out
    → TakesOut ok p out
Clears-TakesOut ok p out c = (
  c.left,
  λ x. (
    λ m. In-keep ok p.all (coen.Base.subst (In x) c.removed m),
    λ m. coen.Base.subst (In x) (sym c.removed) (keep-In ok m.0 m.1),
  ),
)

-- When a connection ends, when an agent drains, and when the edge drains, exactly the streams of that
-- connection, those of that agent, and all streams are closed, and the others stay in the pool. This
-- holds in every state that the pool can reach.
pub closings_TakesOut :
    {p : StreamPool} (k a : ℕ)
    → Reach p
    → TakesOut (of_conn k) p (close_conn k p)
      × TakesOut (λ s. s.agent == a) p (close_agent a p)
      × TakesOut (λ _. true) p (close_all p)
unfolding close_conn close_agent close_all
closings_TakesOut {p} k a r =
    let v = (Reach-PoolInv r).sound in
    (
      Clears-TakesOut (of_conn k) (mark_ended k p) _
          (remove_where-Clears (of_conn k) (mark_ended k p) (mark_ended-IsSound k p v)),
      Clears-TakesOut (λ s. s.agent == a) p _ (remove_where-Clears (λ s. s.agent == a) p v),
      Clears-TakesOut (λ _. true) (record p { closed = true }) _
          (remove_where-Clears (λ _. true) (record p { closed = true })
            (record { distinct = v.distinct; shares = v.shares })),
    )

pub find_route-none :
    (r : ℕ) (l : List IdleStream) {x : IdleStream}
    → find_route r l ≡ none
    → In x l
    → (x.route == r) ≡ false
unfolding find_route
find_route-none r [] e m = elim m [ ]
find_route-none r (s ∷ ss) e coen.Base.here = ground arith
find_route-none r (s ∷ ss) e (coen.Base.there m) = find_route-none r ss (ground arith) m

-- What evictRoute does.
pub data Evicts (r : ℕ) (p : StreamPool) : StreamPool × Option IdleStream → Type 0 where
  nothing_kept : ((x : IdleStream) → In x p.all → (x.route == r) ≡ false) → Evicts r p (p, none)
  one_closed :
      (q : StreamPool) (s : IdleStream)
      → In s p.all
      → s.route ≡ r
      → Lacks s.id q.all
      → ((x : IdleStream) → In x q.all → In x p.all)
      → Evicts r p (q, some s)

-- evictRoute closes nothing only if the pool, in a state that it can reach, keeps no stream of the
-- route. Else it closes one stream of the route, which is then out of the pool, and adds none.
pub evict_route-Evicts : {p : StreamPool} (r : ℕ) → Reach p → Evicts r p (evict_route r p)
unfolding evict_route
evict_route-Evicts {p} r reach = elim (Option-cases (find_route r p.all)) [
  | inl e ↦ rw (e, evict_route) (nothing_kept (λ x m. find_route-none r p.all e m))
  | inr (s, e) ↦
      let f = find_route-In r p.all e in
      rw (e, evict_route)
        (one_closed (remove_locked s p) s f.0 f.1
          (remove_locked-Lacks s p (Reach-PoolInv reach).sound.distinct)
          (λ x m. remove_locked-In x s p m))
]
