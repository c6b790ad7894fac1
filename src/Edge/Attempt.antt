-- ===== src/Edge/Attempt.antt =====
-- internal/edge/edge.go, tryAgent: one try to hand a request to an agent session. What the session,
-- its stream and the clock answer during the try is a record; what the try does to them is a list of
-- effects in their order. tryAgent asks gone() at most once, so `gone` is one answer. A window that has
-- passed is 0. Times are in nanoseconds. No call here blocks for good: each has a deadline in the source.
pub mod Effects
pub mod Accept
mod Tests
use coen.Base.{
  ℕ, ◌+◌, ◌*◌, ◌/◌, ◌≡◌, refl, Bool, true, false, Option, none, some, List, [], ◌∷◌, ◌++◌,
  if◌then◌else◌, leb,
}

pub data Attempt : Type 0 where
  attempt_ok attempt_unavailable attempt_failed attempt_unknown : Attempt

-- The errors of openUnlessRetired, as tryAgent tells them apart.
pub data OpenFailure : Type 0 where
  open_retired open_go_away open_timed_out open_was_blocked open_other : OpenFailure

-- streamRefused of the error of a write.
pub data WriteFailure : Type 0 where
  stream_refused write_other : WriteFailure

pub data AcceptFailure : Type 0 where
  accept_refused accept_bad accept_other : AcceptFailure

pub data Effect : Type 0 where
  reserve_released stream_closed retires evicts wrote_preamble awaited_accept wrote_request : Effect
  cools : ℕ → Effect

pub record Replies : Type 0 where
  pub v2 : Bool
  pub open_failure : Option OpenFailure
  pub gone : Bool
  pub preamble_failure : Option WriteFailure
  pub window : ℕ
  pub accept_failure : Option AcceptFailure
  pub head_fails : Bool

abbrev pub accept_wait : ℕ
accept_wait = 15000000000

abbrev pub cooldown : ℕ
cooldown = 1000000000

abbrev pub stalled_after : ℕ → List Effect
stalled_after silent = if leb (accept_wait / 2) silent then cools (2 * accept_wait) ∷ [] else []

-- The closure `fail`, before the stream is open and after.
abbrev pub fail_unopened : Attempt → List Effect → Attempt × List Effect
fail_unopened o then_do = (o, reserve_released ∷ then_do)

abbrev pub fail_opened : List Effect → Attempt → List Effect → Attempt × List Effect
fail_opened done o then_do = (o, done ++ reserve_released ∷ stream_closed ∷ then_do)

-- openUnlessRetired itself cools the session down when its wait runs out, before it returns the error.
abbrev pub with_stall : Attempt × List Effect → Attempt × List Effect
with_stall (o, es) = (o, cools (2 * accept_wait) ∷ es)

-- The open, and the switch on its error.
pub open_fails : Bool → OpenFailure → Attempt × List Effect
open_fails gone open_retired = fail_unopened attempt_unavailable (retires ∷ [])
open_fails gone open_go_away = fail_unopened attempt_unavailable (retires ∷ [])
open_fails gone open_timed_out = with_stall (
    if gone
    then fail_unopened attempt_unavailable (evicts ∷ [])
    else fail_unopened attempt_failed [])
open_fails gone open_was_blocked =
    if gone
    then fail_unopened attempt_unavailable (evicts ∷ [])
    else fail_unopened attempt_failed (cools (2 * accept_wait) ∷ [])
open_fails gone open_other =
    if gone
    then fail_unopened attempt_unavailable (evicts ∷ [])
    else fail_unopened attempt_failed (evicts ∷ [])

-- A version 1 agent: the preamble goes now.
pub preamble_fails : Bool → WriteFailure → Attempt × List Effect
preamble_fails gone stream_refused =
    if gone
    then fail_opened (wrote_preamble ∷ []) attempt_unavailable (evicts ∷ [])
    else fail_opened (wrote_preamble ∷ []) attempt_unavailable (cools cooldown ∷ [])
preamble_fails gone write_other =
    if gone
    then fail_opened (wrote_preamble ∷ []) attempt_unavailable (evicts ∷ [])
    else fail_opened (wrote_preamble ∷ []) attempt_failed (cools cooldown ∷ [])

-- A version 2 agent: the wait for its accept byte fails.
pub accept_fails : Bool → ℕ → AcceptFailure → Attempt × List Effect
accept_fails gone window accept_refused =
    if gone
    then fail_opened (awaited_accept ∷ []) attempt_unavailable (evicts ∷ [])
    else fail_opened (awaited_accept ∷ []) attempt_unavailable (cools cooldown ∷ [])
accept_fails gone window accept_bad =
    if gone
    then fail_opened (awaited_accept ∷ []) attempt_unavailable (evicts ∷ [])
    else fail_opened (awaited_accept ∷ []) attempt_failed (evicts ∷ [])
accept_fails gone window accept_other =
    if gone
    then fail_opened (awaited_accept ∷ []) attempt_unavailable (evicts ∷ [])
    else fail_opened (awaited_accept ∷ []) attempt_failed (stalled_after window)

-- sendHead, once the agent has the stream.
pub sends_head : Bool → Bool → Attempt × List Effect
sends_head gone fails =
    if fails
    then (if gone
        then fail_opened (awaited_accept ∷ wrote_request ∷ []) attempt_unknown (evicts ∷ [])
        else fail_opened (awaited_accept ∷ wrote_request ∷ []) attempt_unknown
            (cools cooldown ∷ []))
    else (attempt_ok, awaited_accept ∷ wrote_request ∷ [])

-- The stream is open.
pub tries_v1 : Replies → Attempt × List Effect
unfolding preamble_fails
tries_v1 r = elim r.preamble_failure [
  | some e ↦ preamble_fails r.gone e
  | none ↦ (attempt_ok, wrote_preamble ∷ [])
]

pub tries_v2 : Replies → Attempt × List Effect
unfolding accept_fails sends_head
tries_v2 r = elim r.accept_failure [
  | some e ↦ accept_fails r.gone r.window e
  | none ↦ sends_head r.gone r.head_fails
]

pub try_agent : Replies → Attempt × List Effect
unfolding open_fails tries_v1 tries_v2
try_agent r = elim r.open_failure [
  | some e ↦ open_fails r.gone e
  | none ↦ if r.v2 then tries_v2 r else tries_v1 r
]
