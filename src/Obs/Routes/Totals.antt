-- ===== src/Obs/Routes/Totals.antt =====
-- internal/obs/routes.go: what the counters of a route say after any sequence of operations on it.
use coen.Base.{
  ℕ, suc, ◌+◌, ◌<◌, ◌≡◌, refl, Bool, true, false, Option, none, some, List, [], ◌∷◌, if◌then◌else◌,
  ltb, ◌==◌, arith, Bytes, length, get_elem?, count, All, All-In, get_elem?_lt, get_elem?_ge, inl,
  inr, Bool-cases, ltb→lt,
}
use coen.Base.Threads.{tally, tally-put_at}
use coen.Obs.Routes.{
  byte_shards, num_reasons, get_count, inc, Shard, RouteStats, new_route_stats, bytes_shard, add_in,
  add_out, byte_totals, opened, http3_request, agent_wait, closed, failure,
}

-- A stream is numbered by how many got their byte counter after it.
pub data RouteOp : Type 0 where
  opens : (h3 : Bool) → RouteOp
  closes requests_h3 waits_agent gets_bytes : RouteOp
  carries_in carries_out : (stream n : ℕ) → RouteOp
  fails : (reason : ℕ) → RouteOp

pub record Route : Type 0 where
  pub stats : RouteStats
  pub streams : List ℕ

-- A StreamBytes with its shard.
abbrev pub on_stream : Route → Option ℕ → (ℕ → RouteStats → RouteStats) → Route
on_stream r none f = r
on_stream r (some shard) f = record r { stats = f shard r.stats }

pub apply : RouteOp → Route → Route
unfolding bytes_shard
apply (opens h3) r = record r { stats = opened h3 r.stats }
apply closes r = record r { stats = closed r.stats }
apply requests_h3 r = record r { stats = http3_request r.stats }
apply waits_agent r = record r { stats = agent_wait r.stats }
apply gets_bytes r =
    let (stats, shard) = bytes_shard r.stats in
    record { stats = stats; streams = shard ∷ r.streams }
apply (carries_in stream n) r = on_stream r (get_elem? r.streams stream) (λ shard. add_in shard n)
apply (carries_out stream n) r = on_stream r (get_elem? r.streams stream) (λ shard. add_out shard n)
apply (fails reason) r = record r { stats = failure reason r.stats }

-- The last operation stands first.
pub run : Bytes → List RouteOp → Route
run p [] = record { stats = new_route_stats p; streams = [] }
run p (op ∷ ops) = apply op (run p ops)

abbrev pub is_open : RouteOp → Bool
is_open (opens h3) = true
is_open _ = false

abbrev pub is_open_h3 : RouteOp → Bool
is_open_h3 (opens h3) = h3
is_open_h3 _ = false

abbrev pub is_start : RouteOp → Bool
is_start gets_bytes = true
is_start _ = false

abbrev pub is_failure : ℕ → RouteOp → Bool
is_failure r (fails reason) = reason == r
is_failure r _ = false

-- The bytes of streams that have a byte counter.
abbrev pub sent_in : List RouteOp → ℕ
sent_in [] = 0
sent_in (carries_in stream n ∷ ops) =
    let rest = sent_in ops in if ltb stream (count is_start ops) then rest + n else rest
sent_in (_ ∷ ops) = sent_in ops

abbrev pub sent_out : List RouteOp → ℕ
sent_out [] = 0
sent_out (carries_out stream n ∷ ops) =
    let rest = sent_out ops in if ltb stream (count is_start ops) then rest + n else rest
sent_out (_ ∷ ops) = sent_out ops

abbrev AreShards : List ℕ → Type 0
AreShards = All (λ shard. shard < byte_shards)

pub record Counts (ops : List RouteOp) (r : Route) : Type 0 where
  pub shards : AreShards r.streams
  pub number : length r.streams ≡ count is_start ops
  pub opens_all : r.stats.all_streams ≡ count is_open ops
  pub opens_h3 : r.stats.total_h3 ≡ count is_open_h3 ops
  pub ins : (byte_totals r.stats).0 ≡ sent_in ops
  pub outs : (byte_totals r.stats).1 ≡ sent_out ops
  pub failures :
      (reason : ℕ)
      → reason < num_reasons
      → get_count r.stats.failures reason ≡ count (is_failure reason) ops

add_in-byte_totals :
    (shard n : ℕ) (r : RouteStats)
    → shard < byte_shards
    → byte_totals (add_in shard n r) ≡ ((byte_totals r).0 + n, (byte_totals r).1)
unfolding add_in byte_totals
add_in-byte_totals shard n r h = ground (
  arith,
  tally-put_at (λ (s : Shard). s.bytes_in) byte_shards r.shards shard
      (record (r.shards shard) { bytes_in = (r.shards shard).bytes_in + n }) h,
  tally-put_at (λ (s : Shard). s.bytes_out) byte_shards r.shards shard
      (record (r.shards shard) { bytes_in = (r.shards shard).bytes_in + n }) h,
)

add_out-byte_totals :
    (shard n : ℕ) (r : RouteStats)
    → shard < byte_shards
    → byte_totals (add_out shard n r) ≡ ((byte_totals r).0, (byte_totals r).1 + n)
unfolding add_out byte_totals
add_out-byte_totals shard n r h = ground (
  arith,
  tally-put_at (λ (s : Shard). s.bytes_in) byte_shards r.shards shard
      (record (r.shards shard) { bytes_out = (r.shards shard).bytes_out + n }) h,
  tally-put_at (λ (s : Shard). s.bytes_out) byte_shards r.shards shard
      (record (r.shards shard) { bytes_out = (r.shards shard).bytes_out + n }) h,
)

inc-get_count :
    (c : ℕ → ℕ) (reason r : ℕ)
    → r < num_reasons
    → get_count (inc reason c) r ≡ (if reason == r then suc (get_count c r) else get_count c r)
unfolding inc get_count
inc-get_count c reason r h = ground arith

-- An operation that leaves the counts and the bytes alone.
same-Counts :
    (op : RouteOp) (ops : List RouteOp) (r : Route) (stats : RouteStats)
    → Counts ops r
    → stats.all_streams ≡ count is_open (op ∷ ops)
    → stats.total_h3 ≡ count is_open_h3 (op ∷ ops)
    → is_start op ≡ false
    → (sent_in (op ∷ ops) ≡ sent_in ops) × (sent_out (op ∷ ops) ≡ sent_out ops)
    → byte_totals stats ≡ byte_totals r.stats
    → ((reason : ℕ)
        → reason < num_reasons
        → get_count stats.failures reason ≡ count (is_failure reason) (op ∷ ops))
    → Counts (op ∷ ops) (record r { stats = stats })
same-Counts op ops r stats g a h i s b f = record {
  shards = g.shards;
  number = rw i g.number;
  opens_all = a;
  opens_h3 = h;
  ins = ground (arith, g.ins);
  outs = ground (arith, g.outs);
  failures = f;
}

carried_in-Counts :
    (stream n shard : ℕ) (ops : List RouteOp) (r : Route)
    → Counts ops r
    → shard < byte_shards
    → ltb stream (count is_start ops) ≡ true
    → Counts (carries_in stream n ∷ ops) (record r { stats = add_in shard n r.stats })
unfolding add_in
carried_in-Counts stream n shard ops r g h e = record {
  shards = g.shards;
  number = g.number;
  opens_all = g.opens_all;
  opens_h3 = g.opens_h3;
  ins = rw e (ground (arith, add_in-byte_totals shard n r.stats h, g.ins));
  outs = ground (arith, add_in-byte_totals shard n r.stats h, g.outs);
  failures = g.failures;
}

carried_out-Counts :
    (stream n shard : ℕ) (ops : List RouteOp) (r : Route)
    → Counts ops r
    → shard < byte_shards
    → ltb stream (count is_start ops) ≡ true
    → Counts (carries_out stream n ∷ ops) (record r { stats = add_out shard n r.stats })
unfolding add_out
carried_out-Counts stream n shard ops r g h e = record {
  shards = g.shards;
  number = g.number;
  opens_all = g.opens_all;
  opens_h3 = g.opens_h3;
  ins = ground (arith, add_out-byte_totals shard n r.stats h, g.ins);
  outs = rw e (ground (arith, add_out-byte_totals shard n r.stats h, g.outs));
  failures = g.failures;
}

-- The shard of a stream that has a byte counter, and none for another number.
stream_shard :
    (stream : ℕ) (ops : List RouteOp) (r : Route)
    → Counts ops r
    → ltb stream (count is_start ops) ≡ true
    → (shard : ℕ) × (get_elem? r.streams stream ≡ some shard) × (shard < byte_shards)
stream_shard stream ops r g e =
    let (shard, found, m) = get_elem?_lt r.streams stream (omega (arith, g.number, ltb→lt _ _ e)) in
    (shard, found, All-In (λ k. k < byte_shards) m g.shards)

no_shard :
    (stream : ℕ) (ops : List RouteOp) (r : Route)
    → Counts ops r
    → ltb stream (count is_start ops) ≡ false
    → get_elem? r.streams stream ≡ none
no_shard stream ops r g e = get_elem?_ge r.streams stream (ground (arith, g.number))

apply-Counts :
    (op : RouteOp) (ops : List RouteOp) (r : Route) → Counts ops r → Counts (op ∷ ops) (apply op r)
unfolding apply opened closed http3_request agent_wait failure byte_totals
apply-Counts (opens true) ops r g =
    same-Counts (opens true) ops r _ g (ground arith) (ground arith) refl (refl, refl) refl
      g.failures
apply-Counts (opens false) ops r g =
    same-Counts (opens false) ops r _ g (ground arith) g.opens_h3 refl (refl, refl) refl g.failures
apply-Counts closes ops r g =
    same-Counts closes ops r _ g g.opens_all g.opens_h3 refl (refl, refl) refl g.failures
apply-Counts requests_h3 ops r g =
    same-Counts requests_h3 ops r _ g g.opens_all g.opens_h3 refl (refl, refl) refl g.failures
apply-Counts waits_agent ops r g =
    same-Counts waits_agent ops r _ g g.opens_all g.opens_h3 refl (refl, refl) refl g.failures
apply-Counts gets_bytes ops r g = record {
  shards = (omega arith, g.shards);
  number = ground arith;
  opens_all = g.opens_all;
  opens_h3 = g.opens_h3;
  ins = g.ins;
  outs = g.outs;
  failures = g.failures;
}
apply-Counts (carries_in stream n) ops r g = elim (Bool-cases (ltb stream (count is_start ops))) [
  | inl e ↦
      let (shard, found, h) = stream_shard stream ops r g e in
      rw found (carried_in-Counts stream n shard ops r g h e)
  | inr e ↦ rw (no_shard stream ops r g e) (
      same-Counts (carries_in stream n) ops r r.stats g g.opens_all g.opens_h3 refl (rw e, refl)
        refl g.failures)
]
apply-Counts (carries_out stream n) ops r g = elim (Bool-cases (ltb stream (count is_start ops))) [
  | inl e ↦
      let (shard, found, h) = stream_shard stream ops r g e in
      rw found (carried_out-Counts stream n shard ops r g h e)
  | inr e ↦ rw (no_shard stream ops r g e) (
      same-Counts (carries_out stream n) ops r r.stats g g.opens_all g.opens_h3 refl (refl, rw e)
        refl g.failures)
]
apply-Counts (fails reason) ops r g =
    same-Counts (fails reason) ops r _ g g.opens_all g.opens_h3 refl (refl, refl) refl
      (λ k h. ground (arith, inc-get_count r.stats.failures reason k h, g.failures k h))

start-Counts : (p : Bytes) → Counts [] (record { stats = new_route_stats p; streams = [] })
unfolding new_route_stats byte_totals get_count tally
start-Counts p = record {
  shards = tt;
  number = refl;
  opens_all = refl;
  opens_h3 = refl;
  ins = refl;
  outs = refl;
  failures = λ reason h. ground arith;
}

-- After any sequence of operations on a route, from its creation: it has counted each stream that was
-- opened, and each that was opened for HTTP/3; its byte totals, over all shards, are the sums of all
-- bytes that the streams with a byte counter reported in either direction; and each failure reason has
-- been counted as often as it was reported.
pub run-Counts : (p : Bytes) (ops : List RouteOp) → Counts ops (run p ops)
unfolding run
run-Counts p [] = start-Counts p
run-Counts p (op ∷ ops) = apply-Counts op ops (run p ops) (run-Counts p ops)
