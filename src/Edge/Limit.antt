-- ===== src/Edge/Limit.antt =====
-- internal/edge/limit.go: the semaphore of a connection cap. `none` is the nil *semaphore, which is
-- unlimited; else `used` is the number of values in the channel and `cap` its capacity.
pub mod Holders
mod Tests
use coen.Base.{
  ℕ, zero, suc, ◌+◌, ◌-◌, ◌<◌, ◌≡◌, refl, Bool, true, false, Option, none, some, if◌then◌else◌, ltb,
}
use coen.Base.Int.{ℤ, pos, negsuc}

pub record Slots : Type 0 where
  pub cap : ℕ
  pub used : ℕ

pub new_semaphore : ℤ → Option Slots
new_semaphore (pos zero) = none
new_semaphore (pos (suc n)) = some (record { cap = suc n; used = 0 })
new_semaphore (negsuc n) = none

pub try_acquire : Option Slots → Option Slots × Bool
try_acquire none = (none, true)
try_acquire (some s) =
    if ltb s.used s.cap then (some (record s { used = s.used + 1 }), true) else (some s, false)

-- acquire waits: it ends with a slot, or without one because the context has ended. With both
-- possible, either may happen.
pub data Acquires : Option Slots → Option Slots × Bool → Type 0 where
  unlimited : Acquires none (none, true)
  got :
      (s : Slots) → s.used < s.cap → Acquires (some s) (some (record s { used = s.used + 1 }), true)
  ended : (s : Slots) → Acquires (some s) (some s, false)

pub take_slot : Slots → ℕ → Option (Option Slots)
take_slot s zero = none
take_slot s (suc n) = some (some (record s { used = n }))

-- `none` for a receive from the empty channel, which blocks.
pub release : Option Slots → Option (Option Slots)
unfolding take_slot
release none = some none
release (some s) = take_slot s s.used
