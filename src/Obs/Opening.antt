-- ===== src/Obs/Opening.antt =====
-- internal/obs/state.go and routes.go: a stream that opens and closes, one atomic operation at a time
-- (streamOpened, StreamClosed, RouteStats.opened and closed), and a reader of the route's counters
-- (routeSnapshots). The counters are those of State and of one route; a counter is a mathematical
-- integer, as 2^63 streams are out of reach. Opening/Peak is about any interleaving of them.
pub mod Steps
pub mod Peak
use coen.Base.{ℕ, suc, ◌+◌, Bool, true, false, if◌then◌else◌, leb, ◌==◌}
use coen.Base.Int.{ℤ, pos, plus_one, minus_one}

pub record Counters : Type 0 where
  pub active_streams : ℤ
  pub total_streams : ℕ
  pub max_streams : ℤ
  pub route_active : ℤ
  pub route_total : ℕ
  pub route_total_h3 : ℕ

-- The next atomic operation of a goroutine, with its local variables. `routed` says that the route is
-- not nil, `h3` that the stream is for HTTP/3.
pub data Pc : Type 0 where
  opens_route : (routed h3 : Bool) → Pc
  counts_route : (h3 : Bool) → Pc
  counts_route_h3 : Pc
  adds : (routed : Bool) → Pc
  counts : (routed : Bool) → (n : ℤ) → Pc
  loads : (routed : Bool) → (n : ℤ) → Pc
  swaps : (routed : Bool) → (n m : ℤ) → Pc
  closes_route : (routed : Bool) → Pc
  subtracts : Pc
  done : Pc
  reads_h3 : Pc
  reads_total : (h3 : ℕ) → Pc
  has_read : (h3 all : ℕ) → Pc

unfoldable pub le_int : ℤ → ℤ → Bool
le_int (pos n) (pos m) = leb n m
le_int (pos n) (ℤ.negsuc m) = false
le_int (ℤ.negsuc n) (pos m) = true
le_int (ℤ.negsuc n) (ℤ.negsuc m) = leb m n

unfoldable pub eq_int : ℤ → ℤ → Bool
eq_int (pos n) (pos m) = n == m
eq_int (ℤ.negsuc n) (ℤ.negsuc m) = n == m
eq_int _ _ = false

-- RouteStats.opened, for a route that may be nil, and its two other additions.
abbrev pub route_opens : Counters → (routed h3 : Bool) → Counters × Pc
route_opens c false h3 = (c, adds false)
route_opens c true h3 = (record c { route_active = plus_one c.route_active }, counts_route h3)

abbrev pub route_counts : Counters → (h3 : Bool) → Counters × Pc
route_counts c h3 =
    (record c { route_total = suc c.route_total }, if h3 then counts_route_h3 else adds true)

abbrev pub route_counts_h3 : Counters → Counters × Pc
route_counts_h3 c = (record c { route_total_h3 = suc c.route_total_h3 }, adds true)

-- RouteStats.closed
abbrev pub route_closes : Counters → (routed : Bool) → Counters × Pc
route_closes c false = (c, subtracts)
route_closes c true = (record c { route_active = minus_one c.route_active }, subtracts)

-- The two loads of routeSnapshots.
abbrev pub loads_h3 : Counters → Counters × Pc
loads_h3 c = (c, reads_total c.route_total_h3)

abbrev pub loads_total : Counters → (h3 : ℕ) → Counters × Pc
loads_total c h3 = (c, has_read h3 c.route_total)

unfoldable pub advance : Counters → Pc → Counters × Pc
unfolding le_int eq_int
advance c (opens_route routed h3) = route_opens c routed h3
advance c (counts_route h3) = route_counts c h3
advance c counts_route_h3 = route_counts_h3 c
advance c (adds routed) = (
  record c { active_streams = plus_one c.active_streams },
  counts routed (plus_one c.active_streams),
)
advance c (counts routed n) = (record c { total_streams = suc c.total_streams }, loads routed n)
advance c (loads routed n) =
    (c, if le_int n c.max_streams then closes_route routed else swaps routed n c.max_streams)
advance c (swaps routed n m) =
    if eq_int c.max_streams m
    then (record c { max_streams = n }, closes_route routed)
    else (c, loads routed n)
advance c (closes_route routed) = route_closes c routed
advance c subtracts = (record c { active_streams = minus_one c.active_streams }, done)
advance c done = (c, done)
advance c reads_h3 = loads_h3 c
advance c (reads_total h3) = loads_total c h3
advance c (has_read h3 all) = (c, has_read h3 all)

abbrev pub zero_counters : Counters
zero_counters = record {
  active_streams = pos 0;
  total_streams = 0;
  max_streams = pos 0;
  route_active = pos 0;
  route_total = 0;
  route_total_h3 = 0;
}
