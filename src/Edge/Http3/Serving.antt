-- ===== src/Edge/Http3/Serving.antt =====
-- internal/edge/http3.go: the HTTP/3 server of the edge: the connections it accepts (cappedListener), those
-- it refuses (refuseNoHTTP3), their idle time (h3Idle), a request's slot of its route (routeSlot), and the
-- server's end (serveHTTP3Until).
pub mod Ending
use coen.Base.{
  ℕ, zero, suc, ◌+◌, ◌*◌, Bool, true, false, not, ◌&&◌, ◌||◌, Option, none, some, List, [], ◌∷◌,
  ◌++◌, if◌then◌else◌,
}
use coen.Base.Int.{ℤ, pos, negsuc}
use coen.Edge.StreamPool.{IdleStream, StreamPool}
use coen.Edge.StreamPool.Slots.{slot_from_kept}

-- A connection that the listener below hands to Accept: whether the edge drains by then, or the context
-- has ended, and what e.sem.tryAcquire answers, if it is asked.
pub record QuicArrival : Type 0 where
  pub conn : ℕ
  pub drains : Bool
  pub has_slot : Bool

-- What happens to a connection before Accept returns.
pub data Turned : Type 0 where
  shutting_down : ℕ → Turned
  too_many : ℕ → Turned

pub record Accepted : Type 0 where
  pub turned : List Turned
  pub result : Option ℕ  -- none: the error of the listener below
  pub later : List QuicArrival

abbrev pub turns : Turned → Accepted → Accepted
turns t a = record a { turned = t ∷ a.turned }

-- The list ends where the listener below fails.
pub accept : List QuicArrival → Accepted
accept [] = record { turned = []; result = none; later = [] }
accept (a ∷ rest) =
    let again = accept rest in
    if a.drains
    then turns (shutting_down a.conn) again
    else if not a.has_slot
    then turns (too_many a.conn) again
    else record { turned = []; result = some a.conn; later = rest }

abbrev pub default_http3_idle : ℕ
default_http3_idle = 30 * 1000 * 1000 * 1000

pub h3_idle : ℤ → ℕ
h3_idle (pos zero) = default_http3_idle
h3_idle (pos (suc n)) = suc n
h3_idle (negsuc n) = default_http3_idle

-- refuseNoHTTP3: whether the handshake fails; `found` is whether the route of the server name is kept off
-- HTTP/3.
pub refuse_no_http3 : (found : Option Bool) → Bool
refuse_no_http3 none = false
refuse_no_http3 (some no_http3) = no_http3

-- What the server does as it ends.
pub data Ended : Type 0 where
  clears_alt_svc clears_http3_listen closes_socket sets_draining turns_away closes_pool : Ended
  shuts_down warns closes_server awaits_served closes_listener closes_transport closes_done : Ended

-- The deferred calls, the last one first.
abbrev pub deferred : List Ended
deferred = closes_listener ∷ closes_transport ∷ closes_done ∷ []

-- `fails`: ServeListener returns before the context ends. `in_time`: Shutdown ends within the budget.
pub serve_until : (fails in_time : Bool) → List Ended
serve_until true in_time = clears_alt_svc ∷ clears_http3_listen ∷ closes_socket ∷ deferred
serve_until false in_time =
    sets_draining
    ∷ turns_away
    ∷ closes_pool
    ∷ shuts_down
    ∷ ((if in_time then [] else warns ∷ []) ++ (closes_server ∷ awaits_served ∷ deferred))

-- How a request has asked for a slot of its route. It is counted in rs.slotWaiters unless the slot was
-- free at once.
pub data Slotted : Type 0 where
  at_once : Slotted
  from_kept : StreamPool → List IdleStream → Slotted
  waited : StreamPool → List IdleStream → Bool → Slotted

-- `first` is the answer of the first tryAcquire, `free` the later ones, `acquired` that of acquire.
pub after_kept : Bool → StreamPool × Bool × List IdleStream → Slotted
after_kept acquired (q, true, out) = from_kept q out
after_kept acquired (q, false, out) = waited q out acquired

pub route_slot : ℕ → Bool → (ℕ → Bool) → Bool → ℕ → StreamPool → Option Slotted
unfolding after_kept
route_slot fuel true free acquired r p = some at_once
route_slot fuel false free acquired r p = elim (slot_from_kept fuel free 0 r p) [
  | none ↦ none
  | some out ↦ some (after_kept acquired out)
]
