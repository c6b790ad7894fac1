-- ===== src/Edge/Attempt/Effects.antt =====
-- internal/edge/edge.go, tryAgent: what a try leaves behind, by its outcome.
use coen.Base.{
  ℕ, ◌+◌, ◌/◌, ◌≤◌, ◌≡◌, Bool, true, false, not, ◌&&◌, ◌||◌, Option, none, some, List, arith, ltb,
  count, if◌then◌else◌, Bool-cases, Option-cases, inl, inr,
}
use coen.Edge.Attempt.{
  Attempt, attempt_ok, attempt_unavailable, attempt_failed, OpenFailure, open_retired, open_go_away,
  open_timed_out, open_was_blocked, open_other, WriteFailure, stream_refused, write_other,
  AcceptFailure, accept_refused, accept_bad, accept_other, Effect, reserve_released, stream_closed,
  retires, evicts, wrote_request, cools, accept_wait, Replies, open_fails, preamble_fails,
  accept_fails, sends_head, tries_v1, tries_v2, try_agent,
}

abbrev pub releases : Effect → Bool
releases reserve_released = true
releases _ = false

abbrev pub closes : Effect → Bool
closes stream_closed = true
closes _ = false

abbrev pub sends_request : Effect → Bool
sends_request wrote_request = true
sends_request _ = false

-- The session leaves the pool.
abbrev pub removes : Effect → Bool
removes retires = true
removes evicts = true
removes _ = false

abbrev pub cools_down : Effect → Bool
cools_down (cools d) = true
cools_down _ = false

abbrev pub is_ok : Attempt → Bool
is_ok attempt_ok = true
is_ok _ = false

-- The request may be tried elsewhere.
abbrev pub is_retriable : Attempt → Bool
is_retriable attempt_unavailable = true
is_retriable attempt_failed = true
is_retriable _ = false

abbrev one_when : Bool → ℕ
one_when b = if b then 1 else 0

abbrev is_open : Option OpenFailure → Bool
is_open none = true
is_open (some e) = false

abbrev timed_out : Option OpenFailure → Bool
timed_out (some open_timed_out) = true
timed_out _ = false

-- The agent has given no answer in a window that says nothing about it.
abbrev is_silent : Option AcceptFailure → Bool
is_silent (some accept_other) = true
is_silent _ = false

abbrev says_nothing : Replies → Bool
says_nothing r =
    is_open r.open_failure
    && (r.v2 && (not r.gone && (is_silent r.accept_failure && ltb r.window (accept_wait / 2))))

-- What a try with these replies leaves behind.
pub record Leaves (r : Replies) (out : Attempt × List Effect) : Type 0 where
  pub released : count releases out.1 ≡ one_when (not (is_ok out.0))
  pub stream_ends : count closes out.1 ≡ one_when (is_open r.open_failure && not (is_ok out.0))
  pub sent : count sends_request out.1 ≡ one_when (r.v2 && not (is_retriable out.0))
  pub sure_v1 : r.v2 ≡ false → (is_ok out.0 || is_retriable out.0) ≡ true
  pub removed : count removes out.1 ≤ one_when (not (is_ok out.0))
  pub cooled : count cools_down out.1 ≤ one_when (not (is_ok out.0))
  pub decided : count removes out.1 + count cools_down out.1 ≡ (
      if timed_out r.open_failure && r.gone
      then 2
      else one_when (not (is_ok out.0 || says_nothing r)))

open_fails-Leaves :
    (r : Replies) (e : OpenFailure) → r.open_failure ≡ some e → Leaves r (open_fails r.gone e)
unfolding open_fails
open_fails-Leaves r open_retired h = ground arith
open_fails-Leaves r open_go_away h = ground arith
open_fails-Leaves r open_timed_out h = ground arith
open_fails-Leaves r open_was_blocked h = ground arith
open_fails-Leaves r open_other h = ground arith

preamble_fails-Leaves :
    (r : Replies) (e : WriteFailure)
    → r.open_failure ≡ none
    → r.v2 ≡ false
    → Leaves r (preamble_fails r.gone e)
unfolding preamble_fails
preamble_fails-Leaves r stream_refused h v = ground arith
preamble_fails-Leaves r write_other h v = ground arith

accept_fails-Leaves :
    (r : Replies) (e : AcceptFailure)
    → r.open_failure ≡ none
    → r.v2 ≡ true
    → r.accept_failure ≡ some e
    → Leaves r (accept_fails r.gone r.window e)
unfolding accept_fails
accept_fails-Leaves r accept_refused h v a = ground arith
accept_fails-Leaves r accept_bad h v a = ground arith
accept_fails-Leaves r accept_other h v a = ground arith

tries_v1-Leaves : (r : Replies) → r.open_failure ≡ none → r.v2 ≡ false → Leaves r (tries_v1 r)
unfolding tries_v1
tries_v1-Leaves r o v = elim (Option-cases r.preamble_failure) [
  | inr (e, a) ↦ simp (a, tries_v1) (preamble_fails-Leaves r e o v)
  | inl a ↦ simp (a, tries_v1) (ground arith)
]

tries_v2-Leaves : (r : Replies) → r.open_failure ≡ none → r.v2 ≡ true → Leaves r (tries_v2 r)
unfolding tries_v2 sends_head
tries_v2-Leaves r o v = elim (Option-cases r.accept_failure) [
  | inr (e, a) ↦ simp (a, tries_v2) (accept_fails-Leaves r e o v a)
  | inl a ↦ simp (a, tries_v2) (ground arith)
]

-- Whatever the session answers, a try releases the reservation exactly once if it fails and not at all
-- if it succeeds; it closes the stream if and only if it had opened one and fails; it writes the
-- request once on the outcomes ok and unknown with a version 2 agent, and never on an outcome after
-- which the request is tried elsewhere; with a version 1 agent the outcome is never unknown;
-- and it either retires or evicts the session, or cools it down, each at most once. It does one of these on
-- every failure but the silence of an agent over less than half of acceptWait, and both only when an
-- open has timed out, which cools the session down, on a session that then turns out to have closed.
pub try_agent-Leaves : (r : Replies) → Leaves r (try_agent r)
unfolding try_agent
try_agent-Leaves r = elim (Option-cases r.open_failure) [
  | inr (e, o) ↦ simp (o, try_agent) (open_fails-Leaves r e o)
  | inl o ↦ elim (Bool-cases r.v2) [
    | inl v ↦ simp (o, v, try_agent) (tries_v2-Leaves r o v)
    | inr v ↦ simp (o, v, try_agent) (tries_v1-Leaves r o v)
  ]
]
