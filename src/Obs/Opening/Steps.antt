-- ===== src/Obs/Opening/Steps.antt =====
-- internal/obs/state.go and routes.go: one atomic operation of an opening, a closing or a reading.
use coen.Base.{
  ℕ, zero, suc, ◌+◌, ◌≤◌, ◌<◌, ◌≡◌, refl, ◌≢◌, ◌⊎◌, inl, inr, true, false, Option, none, some, leb,
  arith, Bool-cases,
}
use coen.Base.Int.{ℤ, pos, pos_part}
use coen.Obs.Opening.{
  Counters, Pc, opens_route, counts_route, counts_route_h3, adds, counts, loads, swaps,
  closes_route, subtracts, reads_total, has_read, le_int, eq_int, advance,
}

-- The streams that State, and the route, count as active, and those that it has counted.
abbrev pub is_active : Pc → ℕ
is_active (counts _ _) = 1
is_active (loads _ _) = 1
is_active (swaps _ _ _) = 1
is_active (closes_route _) = 1
is_active subtracts = 1
is_active _ = 0

abbrev pub is_on_route : Pc → ℕ
is_on_route (counts_route _) = 1
is_on_route counts_route_h3 = 1
is_on_route (adds true) = 1
is_on_route (counts true _) = 1
is_on_route (loads true _) = 1
is_on_route (swaps true _ _) = 1
is_on_route (closes_route true) = 1
is_on_route _ = 0

abbrev pub owes_h3 : Pc → ℕ
owes_h3 counts_route_h3 = 1
owes_h3 _ = 0

-- The value that a stream still has to compare with the high-water mark.
abbrev pub pending : Pc → Option ℤ
pending (counts _ n) = some n
pending (loads _ n) = some n
pending (swaps _ n _) = some n
pending _ = none

abbrev pub IsRead : Counters → Pc → Type 0
IsRead c (reads_total h3) = h3 ≤ c.route_total_h3
IsRead c (has_read h3 all) = h3 ≤ all
IsRead c _ = Unit

-- A swap is tried only with a higher value.
abbrev pub Beats : Pc → Type 0
Beats (swaps routed n m) = le_int n m ≡ false
Beats _ = Unit

-- One operation, by itself.
pub advance-active :
    (c : Counters) (p : Pc) (a a' : ℕ)
    → c.active_streams ≡ pos a
    → a' + is_active p ≡ a + is_active (advance c p).1
    → (advance c p).0.active_streams ≡ pos a'
unfolding advance
advance-active c (opens_route false h3) a a' e q = ground arith
advance-active c (opens_route true h3) a a' e q = ground arith
advance-active c (counts_route true) a a' e q = ground arith
advance-active c (counts_route false) a a' e q = ground arith
advance-active c (closes_route true) a a' e q = ground arith
advance-active c (closes_route false) a a' e q = ground arith
advance-active c p a a' e q = ground arith

pub advance-route :
    (c : Counters) (p : Pc) (a a' : ℕ)
    → c.route_active ≡ pos a
    → a' + is_on_route p ≡ a + is_on_route (advance c p).1
    → (advance c p).0.route_active ≡ pos a'
unfolding advance
advance-route c (opens_route false h3) a a' e q = ground arith
advance-route c (opens_route true h3) a a' e q = ground arith
advance-route c (counts_route true) a a' e q = ground arith
advance-route c (counts_route false) a a' e q = ground arith
advance-route c (closes_route true) a a' e q = ground arith
advance-route c (closes_route false) a a' e q = ground arith
advance-route c (adds true) a a' e q = ground arith
advance-route c (adds false) a a' e q = ground arith
advance-route c (counts r n) a a' e q = ground arith
advance-route c (loads true n) a a' e q = ground arith
advance-route c (loads false n) a a' e q = ground arith
advance-route c (swaps true n m) a a' e q = ground arith
advance-route c (swaps false n m) a a' e q = ground arith
advance-route c p a a' e q = ground arith

pub advance-h3 :
    (c : Counters) (p : Pc) (t t' : ℕ)
    → c.route_total_h3 + t ≤ c.route_total
    → t' + owes_h3 p ≡ t + owes_h3 (advance c p).1
    → (advance c p).0.route_total_h3 + t' ≤ (advance c p).0.route_total
unfolding advance
advance-h3 c (opens_route false h3) t t' e q = ground arith
advance-h3 c (opens_route true h3) t t' e q = ground arith
advance-h3 c (counts_route true) t t' e q = ground arith
advance-h3 c (counts_route false) t t' e q = ground arith
advance-h3 c (closes_route true) t t' e q = ground arith
advance-h3 c (closes_route false) t t' e q = ground arith
advance-h3 c p t t' e q = ground arith

-- The route's counters that a reader copies only grow.
pub advance-grows :
    (c : Counters) (p : Pc)
    → (c.route_total_h3 ≤ (advance c p).0.route_total_h3)
      × (c.route_total ≤ (advance c p).0.route_total)
unfolding advance
advance-grows c (opens_route false h3) = ground arith
advance-grows c (opens_route true h3) = ground arith
advance-grows c (closes_route true) = ground arith
advance-grows c (closes_route false) = ground arith
advance-grows c p = ground arith

pub advance-IsRead :
    (c : Counters) (p : Pc)
    → c.route_total_h3 ≤ c.route_total
    → IsRead c p
    → IsRead (advance c p).0 (advance c p).1
unfolding advance
advance-IsRead c (opens_route false h3) h r = tt
advance-IsRead c (opens_route true h3) h r = tt
advance-IsRead c (counts_route true) h r = tt
advance-IsRead c (counts_route false) h r = tt
advance-IsRead c (closes_route true) h r = tt
advance-IsRead c (closes_route false) h r = tt
advance-IsRead c (loads r n) h x = elim (Bool-cases (le_int n c.max_streams)) [
  | inl e ↦ rw e tt
  | inr e ↦ rw e tt
]
advance-IsRead c (swaps r n m) h x = elim (Bool-cases (eq_int c.max_streams m)) [
  | inl e ↦ rw e tt
  | inr e ↦ rw e tt
]
advance-IsRead c p h r = ground arith

pub IsRead-grows :
    (c c' : Counters) (p : Pc)
    → (c.route_total_h3 ≤ c'.route_total_h3) × (c.route_total ≤ c'.route_total)
    → IsRead c p
    → IsRead c' p
IsRead-grows c c' (reads_total h3) h r = omega arith
IsRead-grows c c' (has_read h3 all) h r = r
IsRead-grows c c' _ h r = tt

pub advance-Beats : (c : Counters) (p : Pc) → Beats p → Beats (advance c p).1
unfolding advance
advance-Beats c (opens_route false h3) b = tt
advance-Beats c (opens_route true h3) b = tt
advance-Beats c (counts_route true) b = tt
advance-Beats c (counts_route false) b = tt
advance-Beats c (closes_route true) b = tt
advance-Beats c (closes_route false) b = tt
advance-Beats c (loads r n) b = elim (Bool-cases (le_int n c.max_streams)) [
  | inl e ↦ rw e tt
  | inr e ↦ rw e e
]
advance-Beats c (swaps r n m) b = elim (Bool-cases (eq_int c.max_streams m)) [
  | inl e ↦ rw e tt
  | inr e ↦ rw e tt
]
advance-Beats c p b = ground arith

-- What a thread knows of the value that it compares; `k` is the highest value so far.
abbrev pub IsValue : ℕ → Pc → Type 0
IsValue k p = (v : ℤ) → pending p ≡ some v → (v ≡ pos (pos_part v)) × (pos_part v ≤ k)

pub advance-IsValue :
    (c : Counters) (p : Pc) (a k k' : ℕ)
    → c.active_streams ≡ pos a
    → k ≤ k'
    → pos_part (advance c p).0.active_streams ≤ k'
    → IsValue k p
    → IsValue k' (advance c p).1
unfolding advance
advance-IsValue c (opens_route false h3) a k k' e h l w v q = cc
advance-IsValue c (opens_route true h3) a k k' e h l w v q = cc
advance-IsValue c (counts_route true) a k k' e h l w v q = cc
advance-IsValue c (counts_route false) a k k' e h l w v q = cc
advance-IsValue c (closes_route true) a k k' e h l w v q = cc
advance-IsValue c (closes_route false) a k k' e h l w v q = cc
advance-IsValue c (counts r n) a k k' e h l w v q = ground (arith, w v)
advance-IsValue c (loads r n) a k k' e h l w v q = ground (arith, w v)
advance-IsValue c (swaps r n m) a k k' e h l w v q = ground (arith, w v)
advance-IsValue c p a k k' e h l w v q = ground arith

pub le_int_pos : (a b : ℕ) → le_int (pos a) (pos b) ≡ leb a b
unfolding le_int
le_int_pos a b = refl

eq_int→eq : (n m : ℤ) → eq_int n m ≡ true → n ≡ m
unfolding eq_int
eq_int→eq (pos n) (pos m) e = ground arith
eq_int→eq (ℤ.negsuc n) (ℤ.negsuc m) e = ground arith
eq_int→eq (pos n) (ℤ.negsuc m) e = cc
eq_int→eq (ℤ.negsuc n) (pos m) e = cc

abbrev pub IsMax : ℕ → ℤ → Type 0
IsMax k m = (m ≡ pos (pos_part m)) × (pos_part m ≤ k)

pub advance-IsMax :
    (c : Counters) (p : Pc) (k : ℕ)
    → IsMax k c.max_streams
    → IsValue k p
    → IsMax k (advance c p).0.max_streams
unfolding advance
advance-IsMax c (opens_route false h3) k h w = h
advance-IsMax c (opens_route true h3) k h w = h
advance-IsMax c (closes_route true) k h w = h
advance-IsMax c (closes_route false) k h w = h
advance-IsMax c (swaps r n m) k h w = ground (arith, w n)
advance-IsMax c p k h w = h

-- The high-water mark is at `k`, or this thread is about to raise it to `k`.
abbrev pub AtPeak : ℕ → Counters → Pc → Type 0
AtPeak k c p = (c.max_streams ≡ pos k) ⊎ (pending p ≡ some (pos k))

loaded_peak : (n m : ℤ) (k : ℕ) → IsMax k m → n ≡ pos k → le_int n m ≡ true → m ≡ pos k
loaded_peak n m k h q e = ground (arith, le_int_pos k (pos_part m))

-- A value below a peak does not beat it.
swapped_peak :
    (n m : ℤ) (k : ℕ) → (n ≡ pos (pos_part n)) × (pos_part n ≤ k) → le_int n m ≡ false → m ≢ pos k
swapped_peak n m k h b e = ground (arith, le_int_pos (pos_part n) k)

pub advance-AtPeak :
    (c : Counters) (p : Pc) (k : ℕ)
    → IsMax k c.max_streams
    → IsValue k p
    → Beats p
    → AtPeak k c p
    → AtPeak k (advance c p).0 (advance c p).1
unfolding advance
advance-AtPeak c (opens_route false h3) k h w b a = ground arith
advance-AtPeak c (opens_route true h3) k h w b a = ground arith
advance-AtPeak c (closes_route true) k h w b a = ground arith
advance-AtPeak c (closes_route false) k h w b a = ground arith
advance-AtPeak c (counts_route true) k h w b a = ground arith
advance-AtPeak c (counts_route false) k h w b a = ground arith
advance-AtPeak c (loads r n) k h w b a = elim (Bool-cases (le_int n c.max_streams)) [
  | inl e ↦ rw e (inl (ground (arith, loaded_peak n c.max_streams k h)))
  | inr e ↦ rw e a
]
advance-AtPeak c (swaps r n m) k h w b a = elim (Bool-cases (eq_int c.max_streams m)) [
  | inl e ↦
      rw e (inl (ground (arith, eq_int→eq c.max_streams m e, swapped_peak n m k (w n refl) b)))
  | inr e ↦ rw e a
]
advance-AtPeak c p k h w b a = ground arith

-- Only the count of a stream raises `active_streams`.
pub advance-raises :
    (c : Counters) (p : Pc) (a k : ℕ)
    → c.active_streams ≡ pos a
    → a ≤ k
    → k < pos_part (advance c p).0.active_streams
    → pending (advance c p).1 ≡ some (pos (pos_part (advance c p).0.active_streams))
unfolding advance
advance-raises c (opens_route false h3) a k e h l = ground arith
advance-raises c (opens_route true h3) a k e h l = ground arith
advance-raises c (closes_route true) a k e h l = ground arith
advance-raises c (closes_route false) a k e h l = ground arith
advance-raises c subtracts (suc a) k e h l = ground arith
advance-raises c subtracts zero k e h l = ground arith
advance-raises c p a k e h l = ground arith
