-- ===== src/Edge/Conn/Tests.antt =====
-- Tests of the opens and drains of internal/edge/edge.go, and their theorems at concrete inputs.
use coen.Base.{ℕ, ◌≡◌, refl, true, some}
use coen.Edge.Conn.{
  ConnState, new_conn, begin_open, finish_open, abandon_open, mark_retired, await_opens,
  retired_err,
}
use coen.Edge.Conn.Draining.{
  Runs, created, moved, begins, abandons, retires, awaits, Inv, Runs-Inv, now, later, finishes_late,
  drained_stays,
}

abbrev zero_opens : ℕ
zero_opens = 0

abbrev one_open : ConnState
one_open = (begin_open new_conn).0

Runs-one_open : Runs one_open 1 0
Runs-one_open = moved created (begins (unfold begin_open new_conn in refl))

abbrev draining : ConnState
draining = (await_opens (mark_retired one_open).0).0

Runs-draining : Runs draining 1 0
Runs-draining = moved (moved Runs-one_open retires) (awaits (unfold mark_retired in refl))

Runs-Inv_example : Inv draining 1 0
Runs-Inv_example = Runs-Inv Runs-draining

-- A session whose only open was given up on, and which was then retired.
abbrev given_up : ConnState
given_up = (mark_retired (abandon_open 9 one_open).0).0

Runs-given_up : Runs given_up 0 1
Runs-given_up = moved (moved Runs-one_open (abandons 9 0 refl)) retires

drained_stays_example :
    (zero_opens ≡ 0)
    × (begin_open (finish_open true given_up).0 ≡ ((finish_open true given_up).0, some retired_err))
drained_stays_example =
    drained_stays Runs-given_up (unfold mark_retired in refl)
      (unfold mark_retired abandon_open begin_open new_conn await_opens coen.Edge.Conn.wake_if_idle
          coen.Edge.Conn.no_live_opens coen.Edge.Conn.cool_down_until in
        refl)
      (later now (finishes_late 0 refl))
