-- ===== src/Edge/StreamPool/Moves.antt =====
-- internal/edge/h3pool.go: what the users of the pool do to the number of a connection's streams.
use coen.Base.{
  ℕ, ◌+◌, ◌≤◌, Bool, List, [], ◌∷◌, arith, count, count-append_one, if◌then◌else◌, Bool-cases,
  Option-cases, inl, inr,
}
use coen.Edge.StreamPool.{
  IdleStream, StreamPool, Pressure, put, is_pooled, take_out, remove_id, remove_locked, watch,
  remove_each, remove_where, close_conn, close_agent, close_all, find_route, evict_route,
}
use coen.Edge.StreamPool.Invariant.{of_conn}
use coen.Edge.StreamPool.Steps.{
  Step, puts, watches, pops, ends, drains, closes, evicts, Reach, stepped,
}

-- The streams that are left in the pool for connection `k`.
abbrev pub left_of : ℕ → StreamPool → ℕ
left_of k p = count (of_conn k) p.all

remove_id-count :
    (q : IdleStream → Bool) (i : ℕ) (l : List IdleStream) → count q (remove_id i l) ≤ count q l
unfolding remove_id
remove_id-count q i [] = omega arith
remove_id-count q i (s ∷ l) = ground (arith, remove_id-count q i l)

remove_locked-left_of :
    (k : ℕ) (s : IdleStream) (p : StreamPool) → left_of k (remove_locked s p) ≤ left_of k p
unfolding remove_locked take_out
remove_locked-left_of k s p = elim (Bool-cases (is_pooled p s.id)) [
  | inl e ↦ simp e (remove_id-count (of_conn k) s.id p.all)
  | inr e ↦ simp e (omega arith)
]

remove_each-left_of :
    (k : ℕ) (ok : IdleStream → Bool) (l : List IdleStream) (p : StreamPool)
    → left_of k (remove_each ok l p).0 ≤ left_of k p
unfolding remove_each
remove_each-left_of k ok [] p = omega arith
remove_each-left_of k ok (s ∷ l) p = elim (Bool-cases (ok s)) [
  | inl e ↦
      simp e
        (omega (arith, remove_each-left_of k ok l (remove_locked s p), remove_locked-left_of k s p))
  | inr e ↦ simp e (remove_each-left_of k ok l p)
]

evict_route-left_of : (k r : ℕ) (p : StreamPool) → left_of k (evict_route r p).0 ≤ left_of k p
unfolding evict_route
evict_route-left_of k r p = elim (Option-cases (find_route r p.all)) [
  | inl e ↦ rw (e, evict_route) (omega arith)
  | inr (s, e) ↦ rw (e, evict_route) (remove_locked-left_of k s p)
]

put-left_of :
    (k : ℕ) (s : IdleStream) (w : Pressure) (p : StreamPool)
    → left_of k (put s w p).0 ≤ left_of k p + (if of_conn k s then 1 else 0)
unfolding put
put-left_of k s w p = ground (arith, count-append_one (of_conn k) p.all s)

-- How many streams of the connection a step brings into the pool, at most.
abbrev pub brings : ℕ → {p q : StreamPool} → Step p q → ℕ
brings k (puts s w new) = if of_conn k s then 1 else 0
brings k _ = 0

Step-left_of : (k : ℕ) {p q : StreamPool} (st : Step p q) → left_of k q ≤ left_of k p + brings k st
unfolding watch close_conn close_agent close_all remove_where
Step-left_of k {p} (puts s w new) = put-left_of k s w p
Step-left_of k {p} (watches s t o) = omega (arith, remove_locked-left_of k s p)
Step-left_of k {p} (pops c host s e) = omega (arith, remove_locked-left_of k s p)
Step-left_of k {p} (ends c) = omega (arith, remove_each-left_of k _ p.all _)
Step-left_of k {p} (drains a) = omega (arith, remove_each-left_of k _ p.all p)
Step-left_of k {p} closes = omega (arith, remove_each-left_of k _ p.all _)
Step-left_of k {p} (evicts r) = omega (arith, evict_route-left_of k r p)

-- Steps of any users, which bring at most `m` streams of connection `k`.
pub data Moves (k : ℕ) (p : StreamPool) : ℕ → StreamPool → Type 0 where
  rests : (m : ℕ) → Moves k p m p
  moves :
      {m : ℕ} {q q' : StreamPool}
      → Moves k p m q
      → (st : Step q q') → Moves k p (m + brings k st) q'

pub Moves-Reach :
    {k : ℕ} {p : StreamPool} {m : ℕ} {q : StreamPool} → Moves k p m q → Reach p → Reach q
Moves-Reach (rests m) r = r
Moves-Reach (moves ms st) r = stepped (Moves-Reach ms r) st

pub Moves-left_of :
    {k : ℕ} {p : StreamPool} {m : ℕ} {q : StreamPool}
    → Moves k p m q
    → left_of k q ≤ left_of k p + m
Moves-left_of (rests m) = omega arith
Moves-left_of {k} (moves ms st) = omega (arith, Moves-left_of ms, Step-left_of k st)
