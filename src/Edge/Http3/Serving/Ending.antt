-- ===== src/Edge/Http3/Serving/Ending.antt =====
-- internal/edge/http3.go: which connections Accept lets in, and that a request's wait for a slot ends.
use coen.Base.{
  ℕ, ◌+◌, ◌≡◌, refl, ap, subst, Bool, true, false, not, ◌&&◌, sym, none, some, List, [], ◌∷◌, ◌++◌,
  All, In, count, if◌then◌else◌, ◌==◌, Bool-cases, map, inl, inr, arith,
}
use coen.Edge.StreamPool.{IdleStream, StreamPool}
use coen.Edge.StreamPool.Steps.{Reach}
use coen.Edge.StreamPool.Slots.{Asks, slot_from_kept_returns}
use coen.Edge.Http3.Serving.{
  QuicArrival, Turned, shutting_down, too_many, Accepted, turns, accept, Slotted, at_once,
  from_kept, waited, after_kept, route_slot,
}

abbrev pub IsOut : QuicArrival → Type 0
IsOut a = (not a.drains && a.has_slot) ≡ false

-- Why a connection does not come in.
abbrev pub reason : QuicArrival → Turned
reason a = if a.drains then shutting_down a.conn else too_many a.conn

pub data Offered (all : List QuicArrival) : Accepted → Type 0 where
  let_in :
      (out : List QuicArrival) (a : QuicArrival) (later : List QuicArrival)
      → All IsOut out
      → a.drains ≡ false
      → a.has_slot ≡ true
      → all ≡ out ++ (a ∷ later)
      → Offered all (record { turned = map reason out; result = some a.conn; later = later })
  all_out :
      All IsOut all → Offered all (record { turned = map reason all; result = none; later = [] })

one_more :
    (a : QuicArrival) (rest : List QuicArrival) (r : Accepted)
    → IsOut a
    → Offered rest r
    → Offered (a ∷ rest) (turns (reason a) r)
one_more a rest _ o (let_in out b later os d h e) =
    let_in (a ∷ out) b later (o, os) d h (ap (λ l. a ∷ l) e)
one_more a rest _ o (all_out os) = all_out (o, os)

turned-Offered :
    (a : QuicArrival) (rest : List QuicArrival)
    → IsOut a
    → accept (a ∷ rest) ≡ turns (reason a) (accept rest)
    → Offered rest (accept rest)
    → Offered (a ∷ rest) (accept (a ∷ rest))
turned-Offered a rest o e r = subst (Offered (a ∷ rest)) (sym e) (one_more a rest (accept rest) o r)

-- Accept lets in the first connection that finds the edge not draining and a slot free, and turns away
-- those before it: with "shutting down" while the edge drains, and else as one too many. It fails only
-- once the listener below has no connection left.
pub accept-Offered : (all : List QuicArrival) → Offered all (accept all)
unfolding accept
accept-Offered [] = all_out tt
accept-Offered (a ∷ rest) = elim (Bool-cases a.drains) [
  | inl d ↦ turned-Offered a rest (ground (arith, d)) (simp d) (accept-Offered rest)
  | inr d ↦ elim (Bool-cases a.has_slot) [
    | inl h ↦ subst (Offered (a ∷ rest)) (sym (simp (d, h))) (let_in [] a rest tt d h refl)
    | inr h ↦ turned-Offered a rest (ground (arith, d, h)) (simp (d, h)) (accept-Offered rest)
  ]
]

-- How a request comes by its slot, by the answers of the cap: `first`, then those of `free`.
pub data Asked (first : Bool) (free : ℕ → Bool) (acquired : Bool) (r : ℕ) : Slotted → Type 0 where
  at_once_ok : first ≡ true → Asked first free acquired r at_once
  kept_ok :
      (q : StreamPool) (out : List IdleStream)
      → first ≡ false
      → Asks free 0 true out
      → Reach q
      → All (λ s. s.route ≡ r) out
      → Asked first free acquired r (from_kept q out)
  waited_ok :
      (q : StreamPool) (out : List IdleStream)
      → first ≡ false
      → Asks free 0 false out
      → Reach q
      → All (λ s. s.route ≡ r) out
      → ((x : IdleStream) → In x q.all → (x.route == r) ≡ false)
      → Asked first free acquired r (waited q out acquired)

after_kept-Asked :
    (free : ℕ → Bool) (acquired : Bool) (r : ℕ) (got : Bool) (q : StreamPool)
    (out : List IdleStream)
    → Asks free 0 got out
    → Reach q
    → All (λ s. s.route ≡ r) out
    → (got ≡ false → (x : IdleStream) → In x q.all → (x.route == r) ≡ false)
    → Asked false free acquired r (after_kept acquired (q, got, out))
unfolding after_kept
after_kept-Asked free acquired r true q out asks reach on none_left =
    kept_ok q out refl asks reach on
after_kept-Asked free acquired r false q out asks reach on none_left =
    waited_ok q out refl asks reach on (none_left refl)

-- When nothing else uses the pool meanwhile, routeSlot returns, with at most one round more than the
-- pool keeps streams of the route. It takes a slot at once exactly if the cap grants the first request
-- for it. Else it closes kept streams of the route only, asks the cap once after each, and stops at the
-- first slot that is granted; and if none is, no stream of the route is kept any more, and the answer is
-- that of the wait. The pool that it leaves can be reached.
pub route_slot_returns :
    (first : Bool) (free : ℕ → Bool) (acquired : Bool) (r : ℕ) {p : StreamPool}
    → Reach p
    → (out : Slotted) × (route_slot (count (λ s. s.route == r) p.all + 1) first free acquired r p
        ≡ some out)
      × Asked first free acquired r out
unfolding route_slot
route_slot_returns true free acquired r reach = (at_once, refl, at_once_ok refl)
route_slot_returns false free acquired r reach =
    let (q, got, closed, e, reach', none_left, on, asks) = slot_from_kept_returns free r reach in
    (
      after_kept acquired (q, got, closed),
      rw (route_slot, e) refl,
      after_kept-Asked free acquired r got q closed asks reach' on none_left,
    )
