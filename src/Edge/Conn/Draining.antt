-- ===== src/Edge/Conn/Draining.antt =====
-- internal/edge/edge.go, openUnlessRetired, retire and retireForDrain: opens in flight and the drain
-- that waits for them. Each move is one critical section of agentConn.mu.
use coen.Base.{ℕ, suc, ◌+◌, ◌≤◌, ◌<◌, ◌≡◌, ◌↔◌, true, false, none, some, arith}
use coen.Edge.Conn.{
  ConnState, OpenError, retired_err, new_conn, cool_down_until, begin_open, finish_open,
  abandon_open, mark_retired, await_opens, end_cooldown,
}

-- `live` opens are in flight and awaited by their callers; `gone` more are still blocked although
-- their callers have given up.
pub data Move (c : ConnState) (live gone : ℕ) : ConnState → ℕ → ℕ → Type 0 where
  begins : (begin_open c).1 ≡ none → Move c live gone (begin_open c).0 (suc live) gone
  refuses :
      (e : OpenError) → (begin_open c).1 ≡ some e → Move c live gone (begin_open c).0 live gone
  finishes : (k : ℕ) → live ≡ suc k → Move c live gone (finish_open false c).0 k gone
  finishes_late : (k : ℕ) → gone ≡ suc k → Move c live gone (finish_open true c).0 live k
  abandons : (until k : ℕ) → live ≡ suc k → Move c live gone (abandon_open until c).0 k (suc gone)
  retires : Move c live gone (mark_retired c).0 live gone
  awaits : c.retired ≡ true → Move c live gone (await_opens c).0 live gone
  cools : (until : ℕ) → Move c live gone (cool_down_until until c) live gone
  warms : (cooled : ℕ) → Move c live gone (end_cooldown cooled c) live gone

pub data Runs : ConnState → ℕ → ℕ → Type 0 where
  created : Runs new_conn 0 0
  moved :
      {c d : ConnState} {live gone live' gone' : ℕ}
      → Runs c live gone
      → Move c live gone d live' gone'
      → Runs d live' gone'

pub record Counted (c : ConnState) (live gone : ℕ) : Type 0 where
  pub opening_count : c.opening ≡ live + gone
  pub stuck_count : c.stuck ≡ gone
  pub waits_live : c.waiting ≡ true → 0 < live
  pub waits_retired : c.waiting ≡ true → c.retired ≡ true

Move-Counted :
    {c d : ConnState} {live gone live' gone' : ℕ}
    → Move c live gone d live' gone'
    → Counted c live gone
    → Counted d live' gone'
unfolding begin_open finish_open abandon_open mark_retired await_opens cool_down_until end_cooldown
Move-Counted (begins e) v = ground arith
Move-Counted (refuses x e) v = ground arith
Move-Counted (finishes k e) v = ground arith
Move-Counted (finishes_late k e) v = ground arith
Move-Counted (abandons until k e) v = ground arith
Move-Counted retires v = ground arith
Move-Counted (awaits e) v = ground arith
Move-Counted (cools until) v = ground arith
Move-Counted (warms cooled) v = ground arith

pub Runs-Counted : {c : ConnState} {live gone : ℕ} → Runs c live gone → Counted c live gone
unfolding new_conn
Runs-Counted created = ground arith
Runs-Counted (moved r m) = Move-Counted m (Runs-Counted r)

-- An end of an open, by the moves that may come next: whether it closes the channel that a drain waits on.
pub record Wakes (c : ConnState) (live gone : ℕ) : Type 0 where
  pub finished :
      (k : ℕ) → live ≡ suc k → ((finish_open false c).1 ≡ true) ↔ ((c.waiting ≡ true) × (k ≡ 0))
  pub abandoned :
      (until k : ℕ)
      → live ≡ suc k
      → ((abandon_open until c).1 ≡ true) ↔ ((c.waiting ≡ true) × (k ≡ 0))
  pub finished_late : 0 < gone → (finish_open true c).1 ≡ false

pub record Inv (c : ConnState) (live gone : ℕ) : Type 0 where
  pub counted : Counted c live gone
  pub wakes : Wakes c live gone

finish_open-wakes :
    {c : ConnState} {live gone : ℕ} (k : ℕ)
    → Counted c live gone
    → live ≡ suc k
    → ((finish_open false c).1 ≡ true) ↔ ((c.waiting ≡ true) × (k ≡ 0))
unfolding finish_open
finish_open-wakes k v e = (λ h. (ground arith, ground arith), λ p. ground arith)

abandon_open-wakes :
    {c : ConnState} {live gone : ℕ} (until k : ℕ)
    → Counted c live gone
    → live ≡ suc k
    → ((abandon_open until c).1 ≡ true) ↔ ((c.waiting ≡ true) × (k ≡ 0))
unfolding abandon_open
abandon_open-wakes until k v e = (λ h. (ground arith, ground arith), λ p. ground arith)

finish_late-quiet :
    {c : ConnState} {live gone : ℕ}
    → Counted c live gone
    → 0 < gone
    → (finish_open true c).1 ≡ false
unfolding finish_open
finish_late-quiet v p = ground arith

-- Whatever opens, gives up, finishes, retires and waits on a session, in any order: `opening` counts
-- the opens in flight and `stuck` those of them that were given up on; a drain waits only on a retired
-- session that has a live open; and a live open that finishes or is given up on closes the channel of
-- the drain if and only if a drain waits and it is the last live one, and an open that was given up on
-- before never does.
pub Runs-Inv : {c : ConnState} {live gone : ℕ} → Runs c live gone → Inv c live gone
Runs-Inv r =
    let v = Runs-Counted r in
    record {
      counted = v;
      wakes = record {
        finished = λ k e. finish_open-wakes k v e;
        abandoned = λ until k e. abandon_open-wakes until k v e;
        finished_late = λ p. finish_late-quiet v p;
      };
    }

Move-retired :
    {c d : ConnState} {live gone live' gone' : ℕ}
    → Move c live gone d live' gone'
    → c.retired ≡ true
    → (d.retired ≡ true) × (live' ≤ live)
unfolding begin_open finish_open abandon_open mark_retired await_opens cool_down_until end_cooldown
Move-retired (begins e) h = ground arith
Move-retired (refuses x e) h = ground arith
Move-retired (finishes k e) h = ground arith
Move-retired (finishes_late k e) h = ground arith
Move-retired (abandons until k e) h = ground arith
Move-retired retires h = ground arith
Move-retired (awaits e) h = ground arith
Move-retired (cools until) h = ground arith
Move-retired (warms cooled) h = ground arith

-- What follows a state of the session.
pub data Follows (c : ConnState) (live gone : ℕ) : ConnState → ℕ → ℕ → Type 0 where
  now : Follows c live gone c live gone
  later :
      {d d' : ConnState} {l g l' g' : ℕ}
      → Follows c live gone d l g
      → Move d l g d' l' g'
      → Follows c live gone d' l' g'

Follows-retired :
    {c : ConnState} {live gone : ℕ} {d : ConnState} {live' gone' : ℕ}
    → Follows c live gone d live' gone'
    → c.retired ≡ true
    → (d.retired ≡ true) × (live' ≤ live)
Follows-retired now h = (h, omega arith)
Follows-retired (later f m) h =
    let (r, le) = Follows-retired f h in let (r', le') = Move-retired m r in (r', omega arith)

-- A drain that need not wait finds no live open, on a session that has been retired; and from then on
-- no open is live and every open is refused, whatever happens on the session.
pub drained_stays :
    {c d : ConnState} {live gone live' gone' : ℕ}
    → Runs c live gone
    → c.retired ≡ true
    → (await_opens c).1 ≡ false
    → Follows c live gone d live' gone'
    → (live' ≡ 0) × (begin_open d ≡ (d, some retired_err))
unfolding await_opens begin_open
drained_stays {c} {d} {live} {gone} {live'} {gone'} r h e f =
    let v = Runs-Counted r in let (still, fewer) = Follows-retired f h in (ground arith, simp still)
