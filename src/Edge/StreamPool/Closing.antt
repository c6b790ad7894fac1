-- ===== src/Edge/StreamPool/Closing.antt =====
-- internal/edge/h3pool.go: closing keeps what holds of the pool; and the stream that take looks at.
use coen.Base.{
  ℕ, ◌≡◌, refl, sym, ap, ◌∙◌, subst, Bool, true, false, some, List, [], ◌∷◌, arith, count,
  count_zero, keep, In, here, there, In-keep, ◌==◌, Bytes, Bool-cases, Option-cases, inl, inr,
}
use coen.Edge.StreamPool.{
  IdleStream, StreamPool, set_conn, close_conn, close_agent, close_all, find_route, evict_route,
  last_of,
}
use coen.Edge.StreamPool.Removal.{In-Owns}
use coen.Edge.StreamPool.Invariant.{
  of_conn, of_host, IsShare, IsSound, PoolInv, set_conn_all, remove_locked-PoolInv,
}
use coen.Edge.StreamPool.Clearing.{Clears, remove_where-Clears}

In-false :
    (q : IdleStream → Bool) {x s : IdleStream} {ss : List IdleStream}
    → In x (s ∷ ss)
    → q s ≡ false
    → (In x ss → q x ≡ false)
    → q x ≡ false
In-false q here h f = h
In-false q (there m) h f = f m

none_counted :
    (q : IdleStream → Bool) (l : List IdleStream)
    → count q l ≡ 0
    → (x : IdleStream) → In x l
    → q x ≡ false
none_counted q [] e x m = elim m [ ]
none_counted q (s ∷ ss) e x m =
    let head : q s ≡ false = ground arith in
    In-false q m head (none_counted q ss (ground (arith, head)) x)

nil_of_none : (l : List IdleStream) → ((x : IdleStream) → In x l → ⊥) → l ≡ []
nil_of_none [] h = refl
nil_of_none (s ∷ ss) h = absurd (h s here)

-- A clearing that takes out all that an ended connection or a closed pool may still hold.
Clears-PoolInv :
    (ok : IdleStream → Bool) (p : StreamPool) (out : StreamPool × List IdleStream)
    → Clears ok p out
    → ((k : ℕ)
        → (p.conns k).ended ≡ true
        → (x : IdleStream) → In x p.all
        → ok x ≡ false
        → of_conn k x ≡ false)
    → (p.closed ≡ true → (x : IdleStream) → In x p.all → ok x ≡ true)
    → PoolInv out.0
Clears-PoolInv ok p out c ends shuts = record {
  sound = c.sound;
  none_after_end = λ k e.
      (c.sound.shares k).counted
      ∙ count_zero (of_conn k) out.0.all (λ x m.
        let old = (c.left x).0 m in ends k (sym (c.flags.same_ended k) ∙ e) x old.0 old.1);
  none_after_close = λ e.
      nil_of_none out.0.all (λ x m.
        let old = (c.left x).0 m in cc (shuts (sym c.flags.same_closed ∙ e) x old.0, old.1));
}

ended_empty :
    (p : StreamPool)
    → PoolInv p
    → (k : ℕ) → (p.conns k).ended ≡ true
    → (x : IdleStream) → In x p.all
    → of_conn k x ≡ false
ended_empty p v k e =
    none_counted (of_conn k) p.all (sym (v.sound.shares k).counted ∙ v.none_after_end k e)

pub closed_empty :
    (p : StreamPool) → PoolInv p → p.closed ≡ true → (x : IdleStream) → In x p.all → ⊥
closed_empty p v e x m = gone p.all (v.none_after_close e) m
  where
    gone : (l : List IdleStream) → l ≡ [] → In x l → ⊥
    gone [] q k = elim k [ ]
    gone (s ∷ ss) q k = cc

-- The pool in which connection `k` is marked as ended.
abbrev pub mark_ended : ℕ → StreamPool → StreamPool
mark_ended k p = record p { conns = set_conn p.conns k (record (p.conns k) { ended = true }) }

pub mark_ended-IsSound : (k : ℕ) (p : StreamPool) → IsSound p → IsSound (mark_ended k p)
mark_ended-IsSound k p v = record {
  distinct = v.distinct;
  shares =
      set_conn_all (λ j cs. IsShare p.all j cs) p.conns k _
        (record {
          by_host = (v.shares k).by_host;
          counted = (v.shares k).counted;
          capped = (v.shares k).capped;
        })
        (λ j other. v.shares j);
}

pub close_conn-PoolInv : (k : ℕ) (p : StreamPool) → PoolInv p → PoolInv (close_conn k p).0
unfolding close_conn
close_conn-PoolInv k p v =
    Clears-PoolInv (of_conn k) (mark_ended k p) _
      (remove_where-Clears (of_conn k) (mark_ended k p) (mark_ended-IsSound k p v.sound))
      (set_conn_all
        (λ j cs.
          cs.ended ≡ true
          → (x : IdleStream) → In x p.all
          → of_conn k x ≡ false
          → of_conn j x ≡ false)
        p.conns k _ (λ _ x m e. e) (λ j other e x m _. ended_empty p v j e x m))
      (λ e x m. absurd (closed_empty p v e x m))

pub close_agent-PoolInv : (a : ℕ) (p : StreamPool) → PoolInv p → PoolInv (close_agent a p).0
unfolding close_agent
close_agent-PoolInv a p v =
    Clears-PoolInv (λ s. s.agent == a) p _ (remove_where-Clears (λ s. s.agent == a) p v.sound)
      (λ k e x m _. ended_empty p v k e x m) (λ e x m. absurd (closed_empty p v e x m))

pub close_all-PoolInv : (p : StreamPool) → PoolInv p → PoolInv (close_all p).0
unfolding close_all
close_all-PoolInv p v =
    Clears-PoolInv (λ _. true) (record p { closed = true }) _
      (remove_where-Clears (λ _. true) (record p { closed = true })
        (record { distinct = v.sound.distinct; shares = v.sound.shares }))
      (λ k e x m f. cc) (λ e x m. refl)

pub find_route-In :
    (r : ℕ) (l : List IdleStream) {s : IdleStream}
    → find_route r l ≡ some s
    → In s l × (s.route ≡ r)
unfolding find_route
find_route-In r [] e = cc
find_route-In r (x ∷ xs) {s} e = elim (Bool-cases (x.route == r)) [
  | inl h ↦ let same : x ≡ s = ground arith in (subst (λ y. In y (x ∷ xs)) same here, ground arith)
  | inr h ↦ let rest = find_route-In r xs (rw h at e) in (there rest.0, rest.1)
]

pub evict_route-PoolInv : (r : ℕ) (p : StreamPool) → PoolInv p → PoolInv (evict_route r p).0
unfolding evict_route
evict_route-PoolInv r p v = elim (Option-cases (find_route r p.all)) [
  | inl e ↦ rw (e, evict_route) v
  | inr (s, e) ↦
      rw (e, evict_route)
        (remove_locked-PoolInv s p (In-Owns (find_route-In r p.all e).0 v.sound.distinct) v)
]

last_of-In : (l : List IdleStream) {s : IdleStream} → last_of l ≡ some s → In s l
unfolding last_of
last_of-In [] e = cc
last_of-In (x ∷ xs) {s} e = elim (Option-cases (last_of xs)) [
  | inl n ↦ subst (λ y. In y (x ∷ xs)) (ground (arith, n)) here
  | inr (l, n) ↦ there (last_of-In xs (ground (arith, n)))
]

-- The last stream that a connection keeps for a host is in the pool, and is for that host and
-- connection.
pub last_of_host :
    (p : StreamPool) (k : ℕ) (host : Bytes) {s : IdleStream}
    → IsSound p
    → last_of ((p.conns k).idle host) ≡ some s
    → In s p.all × (of_host k host s ≡ true)
last_of_host p k host v e =
    In-keep (of_host k host) p.all
      (last_of-In (keep (of_host k host) p.all) (sym (ap last_of ((v.shares k).by_host host)) ∙ e))
