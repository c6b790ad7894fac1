-- ===== src/Agent/Shutdown/Order.antt =====
-- internal/agent/agent.go, shutdownSession: the order of the shutdown, and its waits.
use coen.Base.{
  ℕ, suc, ◌+◌, ◌-◌, ◌≤◌, ◌<◌, ◌≡◌, refl, ap, ◌↔◌, Bool, true, false, ◌||◌, List, [], ◌∷◌, ◌++◌,
  if◌then◌else◌, ltb, leb, arith, inl, inr, Bool-cases, count,
}
use coen.Agent.Shutdown.{
  min_handoff, min_serve, millisecond, Session, Event, refuses_new, retires, closes_session, serves,
  refuses, drains, serve_queued, hand_off, remaining, drain_and_close, shutdown_session,
}

abbrev pub is_retire : Event → Bool
is_retire retires = true
is_retire _ = false

abbrev pub is_close : Event → Bool
is_close closes_session = true
is_close _ = false

abbrev pub is_taken : Event → Bool
is_taken (serves at) = true
is_taken (refuses at) = true
is_taken _ = false

-- The tail of the list from its drain on.
abbrev pub from_drain : List Event → List Event
from_drain [] = []
from_drain (drains w ∷ es) = drains w ∷ es
from_drain (_ ∷ es) = from_drain es

pub record Leaves (s : Session) (es : List Event) : Type 0 where
  pub retired_once : count is_retire es ≡ 1
  pub closed_once : count is_close es ≡ 1
  pub drained_last :
      from_drain es ≡ drains (remaining s) ∷ closes_session ∷ (if s.v2 then [] else retires ∷ [])
  pub waits_little : remaining s ≤ s.budget + millisecond
  pub waits_some : (0 < remaining s) ↔ (0 < s.budget)

serve_queued-quiet :
    (budget : ℕ) (queue : List ℕ) (es : List Event)
    → (count is_retire (serve_queued budget queue ++ es) ≡ count is_retire es)
      × (count is_close (serve_queued budget queue ++ es) ≡ count is_close es)
      × (from_drain (serve_queued budget queue ++ es) ≡ from_drain es)
unfolding serve_queued
serve_queued-quiet budget [] es = (refl, refl, refl)
serve_queued-quiet budget (at ∷ queue) es = elim (Bool-cases (ltb (budget - at) min_serve)) [
  | inl e ↦ rw e (serve_queued-quiet budget queue es)
  | inr e ↦ rw e (serve_queued-quiet budget queue es)
]

remaining_bounds :
    (s : Session) → (remaining s ≤ s.budget + millisecond) × ((0 < remaining s) ↔ (0 < s.budget))
unfolding remaining
remaining_bounds s = ground arith

-- An ending of the shutdown, from what each branch does before its drain.
branch-Leaves :
    (s : Session) (es : List Event)
    → count is_retire es ≡ 1
    → count is_close es ≡ 1
    → from_drain es ≡ drains (remaining s) ∷ closes_session ∷ (if s.v2 then [] else retires ∷ [])
    → Leaves s es
branch-Leaves s es a b c = record {
  retired_once = a;
  closed_once = b;
  drained_last = c;
  waits_little = (remaining_bounds s).0;
  waits_some = (remaining_bounds s).1;
}

handed_off-Leaves : (s : Session) → s.v2 ≡ true → Leaves s (hand_off s ++ drain_and_close s)
unfolding hand_off drain_and_close
handed_off-Leaves s e =
    let (a, b, c) =
      serve_queued-quiet s.budget s.queued
        (refuses_new ∷ drains (remaining s) ∷ closes_session ∷ []) in
    branch-Leaves s _ (ap suc a) b (simp e c)

-- Whatever the edge, the session and the clock answer: the retired callback runs once and the session
-- is closed once; last come the drain of the streams in flight, the close, and, only for an edge
-- without drain support, the callback; and the drain waits at all exactly when there is a drain time,
-- and never for longer than that and a millisecond.
pub shutdown_session-Leaves : (s : Session) → Leaves s (shutdown_session s)
unfolding shutdown_session
shutdown_session-Leaves s = elim (Bool-cases s.v2) [
  | inr e ↦ simp (e, drain_and_close) (branch-Leaves s _ refl refl (simp e))
  | inl e ↦ elim (Bool-cases (leb s.budget 0 || s.is_closed)) [
    | inl f ↦ simp (e, f, drain_and_close) (branch-Leaves s _ refl refl (simp e))
    | inr f ↦ elim (Bool-cases (ltb s.budget min_handoff)) [
      | inl g ↦ simp (e, f, g, drain_and_close) (branch-Leaves s _ refl refl (simp e))
      | inr g ↦ simp (e, f, g) (handed_off-Leaves s e)
    ]
  ]
]
