-- ===== src/Edge/Conn.antt =====
-- internal/edge/registry.go and internal/edge/edge.go: the part of agentConn that changes, and the
-- critical sections under its lock. `waiting` is `idle != nil`: a retireForDrain waits on the channel.
-- `opening` and `stuck` are ints that never go below 0 here, and `live_opens` compares them without
-- the subtraction. Times are in nanoseconds.
pub mod Draining
mod Tests
use coen.Base.{
  ℕ, zero, suc, ◌+◌, ◌-◌, ◌≡◌, refl, Bool, true, false, ◌&&◌, Option, none, some, if◌then◌else◌,
  ltb, leb, ◌==◌,
}

pub record ConnState : Type 0 where
  pub waiting : Bool
  pub retired : Bool
  pub opening : ℕ
  pub cool_until : ℕ
  pub stuck : ℕ

pub data OpenError : Type 0 where
  retired_err open_blocked open_timeout : OpenError

unfoldable pub new_conn : ConnState
new_conn = record { waiting = false; retired = false; opening = 0; cool_until = 0; stuck = 0 }

-- `liveOpensLocked() <= 0`
pub no_live_opens : ConnState → Bool
no_live_opens c = leb c.opening c.stuck

-- wakeIfIdleLocked, and whether it closed the channel.
pub wake_if_idle : ConnState → ConnState × Bool
unfolding no_live_opens
wake_if_idle c =
    if no_live_opens c && c.waiting then (record c { waiting = false }, true) else (c, false)

-- coolDownFor, for the time `now + d`: a longer cooldown stays.
unfoldable pub cool_down_until : ℕ → ConnState → ConnState
cool_down_until until c = if leb until c.cool_until then c else record c { cool_until = until }

-- The first critical section of openUnlessRetired: the open begins, or why it does not.
pub begin_open : ConnState → ConnState × Option OpenError
begin_open c =
    if c.retired
    then (c, some retired_err)
    else if ltb 0 c.stuck
    then (c, some open_blocked)
    else (record c { opening = c.opening + 1 }, none)

-- The open returns in the background; `abandoned` says whether its caller has given up on it.
pub finish_open : Bool → ConnState → ConnState × Bool
unfolding wake_if_idle
finish_open abandoned c =
    let c' = record c { opening = c.opening - 1 } in
    wake_if_idle (if abandoned then record c' { stuck = c'.stuck - 1 } else c')

-- The caller's wait runs out before the open has finished; then it marks the session as stalled.
pub abandon_open : ℕ → ConnState → ConnState × Bool
unfolding wake_if_idle cool_down_until
abandon_open until c =
    let (c', woke) = wake_if_idle (record c { stuck = c.stuck + 1 }) in
    (cool_down_until until c', woke)

-- The critical section of retire, and whether the session was retired already.
pub mark_retired : ConnState → ConnState × Bool
mark_retired c = (record c { retired = true }, c.retired)

-- The critical section of retireForDrain after retire: whether it has to wait.
pub await_opens : ConnState → ConnState × Bool
await_opens c = if c.opening == c.stuck then (c, false) else (record c { waiting = true }, true)

-- A successful attempt puts a session back into picks, unless it was cooled down meanwhile
-- (dispatchOnce's CompareAndSwap).
unfoldable pub end_cooldown : ℕ → ConnState → ConnState
end_cooldown cooled c = if c.cool_until == cooled then record c { cool_until = 0 } else c
