-- ===== src/Edge/Attempt/Accept.antt =====
-- internal/tunnel/accept.go, AwaitAccept, as tryAgent of internal/edge/edge.go uses it.
use coen.Base.{
  ℕ, ◌≡◌, refl, Bool, true, Option, none, some, arith, count, if◌then◌else◌, ◌==◌, Bool-cases,
  Option-cases, inl, inr, ap, ◌∙◌,
}
use coen.Edge.Attempt.{
  OpenFailure, open_retired, open_go_away, open_timed_out, open_was_blocked, open_other,
  AcceptFailure, accept_refused, accept_bad, accept_other, Replies, open_fails, accept_fails,
  tries_v2, try_agent,
}
use coen.Edge.Attempt.Effects.{is_retriable, sends_request, try_agent-Leaves}

-- What the read of the first byte returns, before its deadline or at it.
pub data FirstRead : Type 0 where
  got_byte : ℕ → FirstRead
  read_eof read_reset read_fails : FirstRead

abbrev pub accept_byte : ℕ
accept_byte = 6

unfoldable pub await_accept : FirstRead → Option AcceptFailure
await_accept (got_byte b) = if b == accept_byte then none else some accept_bad
await_accept read_eof = some accept_refused
await_accept read_reset = some accept_refused
await_accept read_fails = some accept_other

open_fails-is_retriable : (g : Bool) (e : OpenFailure) → is_retriable (open_fails g e).0 ≡ true
unfolding open_fails
open_fails-is_retriable g open_retired = refl
open_fails-is_retriable g open_go_away = refl
open_fails-is_retriable g open_timed_out = ground arith
open_fails-is_retriable g open_was_blocked = ground arith
open_fails-is_retriable g open_other = ground arith

accept_fails-is_retriable :
    (g : Bool) (w : ℕ) (e : AcceptFailure) → is_retriable (accept_fails g w e).0 ≡ true
unfolding accept_fails
accept_fails-is_retriable g w accept_refused = ground arith
accept_fails-is_retriable g w accept_bad = ground arith
accept_fails-is_retriable g w accept_other = ground arith

try_agent-is_retriable :
    (r : Replies) (e : AcceptFailure)
    → r.accept_failure ≡ some e
    → r.v2 ≡ true
    → is_retriable (try_agent r).0 ≡ true
unfolding try_agent tries_v2
try_agent-is_retriable r e a v = elim (Option-cases r.open_failure) [
  | inr (x, o) ↦ simp (o, try_agent) (open_fails-is_retriable r.gone x)
  | inl o ↦ simp (o, v, a, try_agent, tries_v2) (accept_fails-is_retriable r.gone r.window e)
]

-- tryAgent writes a request to a session before it is piped only if the first byte that the session's
-- stream returned was the accept byte, and only to a version 2 agent.
pub try_agent_waits :
    (r : Replies) (f : FirstRead)
    → r.accept_failure ≡ await_accept f
    → count sends_request (try_agent r).1 ≡ 1
    → (f ≡ got_byte accept_byte) × (r.v2 ≡ true)
unfolding await_accept
try_agent_waits r f a h = elim (Bool-cases r.v2) [
  | inr v ↦ absurd (ground (arith, h, v, (try_agent-Leaves r).sent))
  | inl v ↦ elim (Option-cases (await_accept f)) [
    | inr (e, w) ↦
        absurd (ground (arith, h, try_agent-is_retriable r e (a ∙ w) v, (try_agent-Leaves r).sent))
    | inl w ↦ (accepted f w, v)
  ]
]
  where
    accepted : (f : FirstRead) → await_accept f ≡ none → f ≡ got_byte accept_byte
    accepted (got_byte b) w = ap got_byte (ground arith)
    accepted read_eof w = cc
    accepted read_reset w = cc
    accepted read_fails w = cc
