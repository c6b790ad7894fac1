-- ===== src/Obs/Opening/Peak.antt =====
-- internal/obs/state.go and routes.go: what holds of the counters while any number of streams open and
-- close and readers copy them, in any interleaving of their atomic operations.
use coen.Base.{
  ℕ, ◌+◌, ◌≤◌, ◌<◌, ◌≡◌, refl, subst, dec_lt, inl, inr, true, none, some, if◌then◌else◌, leb, ◌==◌,
  arith, Bool-cases,
}
use coen.Base.Int.{pos, pos_part}
use coen.Base.Threads.{put_at, tally, tally-put_at, tally_zero}
use coen.Obs.Opening.{Counters, Pc, opens_route, reads_h3, has_read, advance, zero_counters}
use coen.Obs.Opening.Steps.{
  is_active, is_on_route, owes_h3, pending, IsRead, Beats, IsValue, IsMax, AtPeak, advance-active,
  advance-route, advance-h3, advance-grows, advance-IsRead, IsRead-grows, advance-Beats,
  advance-IsValue, advance-IsMax, advance-AtPeak, advance-raises,
}

-- `peak` is the highest value that `active_streams` has had so far.
pub record System : Type 0 where
  pub mem : Counters
  pub pc : ℕ → Pc
  pub peak : ℕ

abbrev pub higher : ℕ → ℕ → ℕ
higher a b = if leb a b then b else a

abbrev pub step : ℕ → System → System
step i s =
    let (c, p) = advance s.mem (s.pc i) in
    record { mem = c; pc = put_at s.pc i p; peak = higher s.peak (pos_part c.active_streams) }

abbrev pub Starts : Pc → Type 0
Starts (opens_route routed h3) = Unit
Starts reads_h3 = Unit
Starts _ = ⊥

-- Threads 0 to n - 1 run, in any order.
pub data Reach (n : ℕ) : System → Type 0 where
  start :
      (pc : ℕ → Pc)
      → ((i : ℕ) → Starts (pc i))
      → Reach n (record { mem = zero_counters; pc = pc; peak = 0 })
  later : {s : System} → Reach n s → (i : ℕ) → i < n → Reach n (step i s)

pub record Inv (n : ℕ) (s : System) : Type 0 where
  pub active_count : s.mem.active_streams ≡ pos (tally is_active n s.pc)
  pub route_count : s.mem.route_active ≡ pos (tally is_on_route n s.pc)
  pub h3_le : s.mem.route_total_h3 + tally owes_h3 n s.pc ≤ s.mem.route_total
  pub active_le : tally is_active n s.pc ≤ s.peak
  pub max_le : IsMax s.peak s.mem.max_streams
  pub values : (i : ℕ) → IsValue s.peak (s.pc i)
  pub at_peak : (i : ℕ) × AtPeak s.peak s.mem (s.pc i)
  pub reads : (i : ℕ) → IsRead s.mem (s.pc i)
  pub beats : (i : ℕ) → Beats (s.pc i)

-- A fact about every thread, after a move of thread `i` to `p`.
put_at_all {ℓ} :
    (P : Pc → Type ℓ) (f : ℕ → Pc) (i : ℕ) (p : Pc)
    → P p
    → ((j : ℕ) → P (f j))
    → (j : ℕ) → P (put_at f i p j)
put_at_all P f i p new old j = elim (Bool-cases (i == j)) [
  | inl e ↦ rw e new
  | inr e ↦ rw e (old j)
]

module _ {n : ℕ} {s : System} (v : Inv n s) (i : ℕ) (lt : i < n) where
  open v use {active_count, route_count, h3_le, active_le, max_le, values, at_peak, reads, beats}

  abbrev next : Counters × Pc
  next = advance s.mem (s.pc i)

  abbrev next_pc : ℕ → Pc
  next_pc = put_at s.pc i next.1

  step-active : (step i s).mem.active_streams ≡ pos (tally is_active n next_pc)
  step-active =
      advance-active s.mem (s.pc i) (tally is_active n s.pc) _ active_count
        (tally-put_at is_active n s.pc i next.1 lt)

  step-route : (step i s).mem.route_active ≡ pos (tally is_on_route n next_pc)
  step-route =
      advance-route s.mem (s.pc i) (tally is_on_route n s.pc) _ route_count
        (tally-put_at is_on_route n s.pc i next.1 lt)

  step-h3 : next.0.route_total_h3 + tally owes_h3 n next_pc ≤ next.0.route_total
  step-h3 =
      advance-h3 s.mem (s.pc i) (tally owes_h3 n s.pc) _ h3_le
        (tally-put_at owes_h3 n s.pc i next.1 lt)

  peak-le : s.peak ≤ (step i s).peak
  peak-le = ground arith

  active-le-peak : pos_part next.0.active_streams ≤ (step i s).peak
  active-le-peak = ground arith

  step-values : (j : ℕ) → IsValue (step i s).peak (next_pc j)
  step-values =
      put_at_all (IsValue (step i s).peak) s.pc i next.1
        (advance-IsValue s.mem (s.pc i) (tally is_active n s.pc) s.peak _ active_count peak-le
          active-le-peak (values i))
        (λ j x e. ground (arith, values j x e, peak-le))

  own : (P : Pc → Type 0) → P next.1 → P (next_pc i)
  own P h = let e : (i == i) ≡ true = ground arith in rw e h

  moved : AtPeak s.peak s.mem (s.pc i) → (j : ℕ) × AtPeak s.peak next.0 (next_pc j)
  moved a = (
    i,
    own (AtPeak s.peak next.0) (advance-AtPeak s.mem (s.pc i) s.peak max_le (values i) (beats i) a),
  )

  stayed : (j : ℕ) → AtPeak s.peak s.mem (s.pc j) → (j : ℕ) × AtPeak s.peak next.0 (next_pc j)
  stayed j (inl m) = moved (inl m)
  stayed j (inr p) = elim (Bool-cases (i == j)) [
    | inl e ↦ moved (inr (subst (λ k. pending (s.pc k) ≡ some (pos s.peak)) (ground arith) p))
    | inr e ↦ (j, inr (rw e p))
  ]

  step-AtPeak : (j : ℕ) × AtPeak (step i s).peak next.0 (next_pc j)
  step-AtPeak = elim (dec_lt s.peak (pos_part next.0.active_streams)) [
    | yes h ↦ (
      i,
      inr (
          own (λ p. pending p ≡ some (pos (step i s).peak))
            (ground (
              arith,
              advance-raises s.mem (s.pc i) (tally is_active n s.pc) s.peak active_count active_le
                  h,
            ))),
    )
    | no h ↦
        let e : s.peak ≡ (step i s).peak = ground arith in
        subst (λ k. (j : ℕ) × AtPeak k next.0 (next_pc j)) e (stayed at_peak.0 at_peak.1)
  ]

  step-Inv : Inv n (step i s)
  step-Inv = record {
    active_count = step-active;
    route_count = step-route;
    h3_le = step-h3;
    active_le = ground (arith, step-active, active-le-peak);
    max_le = ground (arith, advance-IsMax s.mem (s.pc i) s.peak max_le (values i), peak-le);
    values = step-values;
    at_peak = step-AtPeak;
    reads =
        put_at_all (IsRead next.0) s.pc i next.1
          (advance-IsRead s.mem (s.pc i) (omega (arith, h3_le)) (reads i))
          (λ j. IsRead-grows s.mem next.0 (s.pc j) (advance-grows s.mem (s.pc i)) (reads j));
    beats = put_at_all Beats s.pc i next.1 (advance-Beats s.mem (s.pc i) (beats i)) beats;
  }

-- A thread at its start is no stream yet, and knows nothing.
record IsFresh (p : Pc) : Type 0 where
  inactive : is_active p ≡ 0
  off_route : is_on_route p ≡ 0
  owes_none : owes_h3 p ≡ 0
  value : IsValue 0 p
  read : IsRead zero_counters p
  beat : Beats p

Starts-IsFresh : (p : Pc) → Starts p → IsFresh p
Starts-IsFresh (opens_route routed h3) h = record {
  inactive = refl;
  off_route = refl;
  owes_none = refl;
  value = λ v e. cc;
  read = tt;
  beat = tt;
}
Starts-IsFresh reads_h3 h = record {
  inactive = refl;
  off_route = refl;
  owes_none = refl;
  value = λ v e. cc;
  read = tt;
  beat = tt;
}
Starts-IsFresh _ h = absurd h

start-Inv :
    (n : ℕ) (pc : ℕ → Pc)
    → ((i : ℕ) → IsFresh (pc i))
    → Inv n (record { mem = zero_counters; pc = pc; peak = 0 })
start-Inv n pc h = record {
  active_count = rw (tally_zero is_active n pc (λ i. (h i).inactive));
  route_count = rw (tally_zero is_on_route n pc (λ i. (h i).off_route));
  h3_le = omega (arith, tally_zero owes_h3 n pc (λ i. (h i).owes_none));
  active_le = omega (arith, tally_zero is_active n pc (λ i. (h i).inactive));
  max_le = ground arith;
  values = λ i. (h i).value;
  at_peak = (0, inl refl);
  reads = λ i. (h i).read;
  beats = λ i. (h i).beat;
}

Reach-Inv : {n : ℕ} {s : System} → Reach n s → Inv n s
Reach-Inv {n} (start pc h) = start-Inv n pc (λ i. Starts-IsFresh (pc i) (h i))
Reach-Inv (later r i lt) = step-Inv (Reach-Inv r) i lt

pub record IsCounted (n : ℕ) (s : System) : Type 0 where
  pub active : s.mem.active_streams ≡ pos (tally is_active n s.pc)
  pub on_route : s.mem.route_active ≡ pos (tally is_on_route n s.pc)
  pub below_peak : pos_part s.mem.max_streams ≤ s.peak
  pub high_water : ((i : ℕ) → pending (s.pc i) ≡ none) → s.mem.max_streams ≡ pos s.peak
  pub readers : (i h3 all : ℕ) → s.pc i ≡ has_read h3 all → h3 ≤ all

-- Whatever number of streams open and close and of readers copy a route's counters, in any
-- interleaving of their atomic operations: State and the route count as active exactly the streams
-- that have been counted there and not yet uncounted; the high-water mark is never above the highest
-- number of active streams so far, and equal to it whenever no stream stands between its count and the
-- end of the compare-and-swap loop; and a reader never sees more HTTP/3 streams than streams.
pub Reach-IsCounted : {n : ℕ} {s : System} → Reach n s → IsCounted n s
Reach-IsCounted {n} {s} r = record {
  active = v.active_count;
  on_route = v.route_count;
  below_peak = v.max_le.1;
  high_water = λ h. settled h v.at_peak.0 v.at_peak.1;
  readers = λ i h3 all e. let k : IsRead s.mem (has_read h3 all) = rw e at (v.reads i) in k;
}
  where
    v : Inv n s
    v = Reach-Inv r

    settled :
        ((i : ℕ) → pending (s.pc i) ≡ none)
        → (j : ℕ) → AtPeak s.peak s.mem (s.pc j)
        → s.mem.max_streams ≡ pos s.peak
    settled h j (inl e) = e
    settled h j (inr p) = cc (h j, p)
