-- ===== src/Edge/Http3/Activity.antt =====
-- internal/edge/http3.go, connActivity: the timer that closes an HTTP/3 connection without requests. A
-- critical section of its lock is one step. Activity/Idle is about any interleaving of them.
pub mod Idle
use coen.Base.{ℕ, ◌+◌, ◌-◌, Bool, true, false, not, ◌&&◌, if◌then◌else◌, ◌==◌}

-- `armed`: the timer is set and has not fired. `calls` is how many times it has fired without its
-- function holding the lock yet. `gone`: the connection's context is done.
pub record Activity : Type 0 where
  pub active : ℕ
  pub armed : Bool
  pub calls : ℕ
  pub gone : Bool

abbrev pub new_activity : Activity
new_activity = record { active = 0; armed = true; calls = 0; gone = false }

pub begin_request : Activity → Activity
begin_request a = record a { active = a.active + 1; armed = false }

pub end_request : Activity → Activity
end_request a =
    let left = a.active - 1 in
    record a { active = left; armed = if left == 0 && not a.gone then true else a.armed }

-- The timer fires: its function now waits for the lock.
pub fire : Activity → Activity
fire a = record a { armed = false; calls = a.calls + 1 }

abbrev pub closes_idle : Activity → Bool
closes_idle a = a.active == 0

-- The timer's function, and whether it closes the connection.
pub call_back : Activity → Activity × Bool
call_back a =
    let b = record a { calls = a.calls - 1 } in
    if closes_idle a then (record b { gone = true }, true) else (b, false)

-- The connection ends for another reason.
pub go : Activity → Activity
go a = record a { gone = true }

-- context.AfterFunc, which runs once the connection's context is done.
pub stop_timer : Activity → Activity
stop_timer a = record a { armed = false }
