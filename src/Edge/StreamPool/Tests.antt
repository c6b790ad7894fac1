-- ===== src/Edge/StreamPool/Tests.antt =====
-- Tests of internal/edge/h3pool.go, and its theorems at concrete inputs.
use coen.Base.{
  ◌+◌, ℕ, zero, suc, ◌≡◌, refl, Bool, true, false, Option, none, some, All, length, codes, ◌==◌,
  if◌then◌else◌,
}
use coen.Edge.StreamPool.{
  IdleStream, StreamPool, Pressure, new_pool, no_streams, put, Watched, is_pooled,
}
use coen.Edge.StreamPool.Invariant.{PoolInv}
use coen.Edge.StreamPool.Steps.{Reach, created, stepped, puts, Reach-PoolInv}
use coen.Edge.StreamPool.Moves.{Moves}

abbrev stream : ℕ → IdleStream
stream i = record { id = i; ts = 10; conn = 1; host = codes "a.test"; route = 7; agent = 3 }

abbrev calm : Pressure
calm = record { slot_waiters = 0; retired = false }

abbrev pool_one : StreamPool
pool_one = (put (stream 0) calm new_pool).0

abbrev pool_two : StreamPool
pool_two = (put (stream 1) calm pool_one).0

-- The stream 1 has been ended by its backend.
abbrev watched : Watched
watched = record {
  live = λ s. coen.Base.◌==◌ s.id 0;
  sess_closed = λ _. false;
  agent_retired = λ _. false;
}

-- Two streams are kept, and the most recent one, which is dead, is skipped.
kept_two : length pool_two.all ≡ 2
unfolding put new_pool no_streams
kept_two = refl

Reach-pool_one : Reach pool_one
Reach-pool_one = stepped created (puts (stream 0) calm (unfold new_pool in tt))

Reach-pool_two : Reach pool_two
Reach-pool_two =
    stepped Reach-pool_one (puts (stream 1) calm (unfold put new_pool no_streams in (refl, tt)))

Reach-PoolInv_example : PoolInv pool_two
Reach-PoolInv_example = Reach-PoolInv Reach-pool_two

-- While take waits in its first round, another request of the connection keeps a third stream.
abbrev others : ℕ → StreamPool → StreamPool
others zero p = if is_pooled p 5 then p else (put (stream 5) calm p).0
others (suc n) p = p

abbrev brought : ℕ → ℕ
brought zero = 1
brought (suc n) = 0
