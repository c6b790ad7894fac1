-- ===== src/Edge/StreamPool/Slots.antt =====
-- internal/edge/http3.go, slotFromKept: a slot of a route's connection cap from the streams that are kept.
-- `free n` is the answer of the n-th rs.sem.tryAcquire: another request may take the slot that an
-- eviction has freed. Between two rounds nothing else uses the pool here.
use coen.Base.{
  ℕ, zero, suc, ◌+◌, ◌<◌, ◌≡◌, refl, ap, sym, ◌∙◌, Bool, true, false, Option, none, some, List, [],
  ◌∷◌, arith, count, exists, In, here, there, All, if◌then◌else◌, ◌==◌, Bool-cases, Option-cases,
  inl, inr,
}
use coen.Edge.StreamPool.{
  IdleStream, StreamPool, is_pooled, take_out, remove_locked, find_route, evict_route,
}
use coen.Edge.StreamPool.Removal.{count-remove_id}
use coen.Edge.StreamPool.Invariant.{IsSound}
use coen.Edge.StreamPool.Closing.{find_route-In}
use coen.Edge.StreamPool.Steps.{Reach, stepped, evicts, Reach-PoolInv, find_route-none}

abbrev pub Slot : Type 0
Slot = Option (StreamPool × Bool × List IdleStream)

abbrev pub with_closed : IdleStream → Slot → Slot
with_closed s none = none
with_closed s (some (q, got, out)) = some (q, got, s ∷ out)

-- The body of the loop after an eviction; `again` is the rest of the loop.
abbrev pub slot_after : Bool → (StreamPool → Slot) → StreamPool × Option IdleStream → Slot
slot_after free again (q, none) = some (q, false, [])
slot_after free again (q, some s) =
    let rest = with_closed s (again q) in if free then some (q, true, s ∷ []) else rest

-- With at most `fuel` rounds: the new pool, whether a slot is taken, and the streams that are closed.
pub slot_from_kept : ℕ → (ℕ → Bool) → ℕ → ℕ → StreamPool → Slot
slot_from_kept zero free n r p = none
slot_from_kept (suc fuel) free n r p =
    slot_after (free n) (λ q. slot_from_kept fuel free (n + 1) r q) (evict_route r p)

abbrev of_route : ℕ → IdleStream → Bool
of_route r s = s.route == r

pooled : (s : IdleStream) (l : List IdleStream) → In s l → exists (λ y. y.id == s.id) l ≡ false → ⊥
pooled s [] m q = elim m [ ]
pooled s (x ∷ l) here q = ground arith
pooled s (x ∷ l) (there m) q = pooled s l m (ground arith)

remove_locked-count :
    (r : ℕ) (p : StreamPool) {s : IdleStream}
    → IsSound p
    → In s p.all
    → of_route r s ≡ true
    → count (of_route r) p.all ≡ count (of_route r) (remove_locked s p).all + 1
unfolding remove_locked is_pooled take_out
remove_locked-count r p {s} v m e = elim (Bool-cases (exists (λ y. y.id == s.id) p.all)) [
  | inl h ↦ simp h (ground (arith, count-remove_id (of_route r) m v.distinct))
  | inr h ↦ absurd (pooled s p.all m h)
]

-- What the cap has answered, from its `n`-th answer on, when these streams are closed: a slot only to the
-- last of the questions, one for each stream.
pub Asks : (ℕ → Bool) → ℕ → Bool → List IdleStream → Type 0
Asks free n got [] = got ≡ false
Asks free n got (s ∷ []) = got ≡ free n
Asks free n got (s ∷ t ∷ ss) = (free n ≡ false) × Asks free (n + 1) got (t ∷ ss)

Asks-more :
    (free : ℕ → Bool) (n : ℕ) (got : Bool) (s : IdleStream) (closed : List IdleStream)
    → free n ≡ false
    → Asks free (n + 1) got closed
    → Asks free n got (s ∷ closed)
unfolding Asks
Asks-more free n got s [] e a = a ∙ sym e
Asks-more free n got s (t ∷ ss) e a = (e, a)

-- A run of the loop.
record Freed (free : ℕ → Bool) (n r : ℕ) (result : Option (StreamPool × Bool × List IdleStream))
    : Type 0 where
  pool : StreamPool
  got : Bool
  closed : List IdleStream
  returns : result ≡ some (pool, got, closed)
  reached : Reach pool
  emptied : got ≡ false → (x : IdleStream) → In x pool.all → (x.route == r) ≡ false
  on_route : All (λ s. s.route ≡ r) closed
  asked : Asks free n got closed

evict_route_missing :
    (r : ℕ) (p : StreamPool) → find_route r p.all ≡ none → evict_route r p ≡ (p, none)
unfolding evict_route
evict_route_missing r p e = rw (e, evict_route)

evict_route_found :
    (r : ℕ) (p : StreamPool) (s : IdleStream)
    → find_route r p.all ≡ some s
    → evict_route r p ≡ (remove_locked s p, some s)
unfolding evict_route
evict_route_found r p s e = rw (e, evict_route)

slot_from_kept-Freed :
    (fuel : ℕ) (free : ℕ → Bool) (n r : ℕ) (p : StreamPool)
    → Reach p
    → count (of_route r) p.all < fuel
    → Freed free n r (slot_from_kept fuel free n r p)
unfolding slot_from_kept Asks
slot_from_kept-Freed zero free n r p reach h = absurd (omega arith)
slot_from_kept-Freed (suc fuel) free n r p reach h = elim (Option-cases (find_route r p.all)) [
  | inl e ↦
      opened (p, none) (evict_route_missing r p e)
        (record {
          pool = p;
          got = false;
          closed = [];
          returns = refl;
          reached = reach;
          emptied = λ _ x m. find_route-none r p.all e m;
          on_route = tt;
          asked = refl;
        })
  | inr (s, e) ↦
      let (m, mine) = find_route-In r p.all e in
      let next : Reach (remove_locked s p) =
        coen.Base.subst (λ out. Reach out.0) (evict_route_found r p s e)
          (stepped reach (evicts r)) in
      elim (Bool-cases (free n)) [
        | inl f ↦
            opened (remove_locked s p, some s) (evict_route_found r p s e)
              (rw f (record {
                pool = remove_locked s p;
                got = true;
                closed = s ∷ [];
                returns = refl;
                reached = next;
                emptied = λ q. cc;
                on_route = (mine, tt);
                asked = sym f;
              }))
        | inr f ↦
            let run = slot_from_kept-Freed fuel free (n + 1) r (remove_locked s p) next (
              ground (
                arith,
                h,
                remove_locked-count r p (Reach-PoolInv reach).sound m (ground (arith, mine)),
              )) in
            opened (remove_locked s p, some s) (evict_route_found r p s e)
              (rw f (record {
                pool = run.pool;
                got = run.got;
                closed = s ∷ run.closed;
                returns = ap (with_closed s) run.returns;
                reached = run.reached;
                emptied = run.emptied;
                on_route = (mine, run.on_route);
                asked = Asks-more free n run.got s run.closed f run.asked;
              }))
      ]
]
  where
    opened :
        (out : StreamPool × Option IdleStream)
        → evict_route r p ≡ out
        → Freed free n r (slot_after (free n) (λ q. slot_from_kept fuel free (n + 1) r q) out)
        → Freed free n r
            (slot_after (free n) (λ q. slot_from_kept fuel free (n + 1) r q) (evict_route r p))
    opened out e f =
        coen.Base.subst
          (λ o. Freed free n r (slot_after (free n) (λ q. slot_from_kept fuel free (n + 1) r q) o))
          (coen.Base.sym e) f

-- From every pool that can be reached slotFromKept returns after at most one round more than the pool
-- keeps streams of the route, whatever the cap answers. It closes streams of that route only; and if it
-- takes no slot, no stream of the route is kept any more. It takes one exactly when the cap grants it,
-- which it is asked for after each closing, and until it grants one. The pool that it leaves can be reached.
pub slot_from_kept_returns :
    (free : ℕ → Bool) (r : ℕ) {p : StreamPool}
    → Reach p
    → (q : StreamPool) × (got : Bool) × (closed : List IdleStream) × (slot_from_kept
          (count (λ s. s.route == r) p.all + 1)
          free
          0
          r
          p
        ≡ some (q, got, closed))
      × Reach q
      × (got ≡ false → (x : IdleStream) → In x q.all → (x.route == r) ≡ false)
      × All (λ s. s.route ≡ r) closed
      × Asks free 0 got closed
slot_from_kept_returns free r {p} reach =
    let run = slot_from_kept-Freed (count (of_route r) p.all + 1) free 0 r p reach (omega arith) in
    (run.pool, run.got, run.closed, run.returns, run.reached, run.emptied, run.on_route, run.asked)
