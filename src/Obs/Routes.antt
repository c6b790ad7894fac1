-- ===== src/Obs/Routes.antt =====
-- internal/obs/routes.go: the counters of a route, with the bytes of its streams in shards. A counter
-- that only grows is a natural number. A nil route has no counters: the callers' `none`.
pub mod Totals
use coen.Base.{
  ℕ, suc, ◌+◌, ◌%◌, ◌^◌, Bool, true, false, Option, none, some, List, [], ◌∷◌, if◌then◌else◌, ltb,
  Bytes, codes, get_elem?,
}
use coen.Base.Int.{ℤ, pos, plus_one, minus_one}
use coen.Base.Threads.{put_at, tally}

-- Reasons are numbered in the order of the source.
abbrev pub num_reasons : ℕ
num_reasons = 11

abbrev pub reason_names : List Bytes
reason_names =
    codes "max_connections"
    ∷ codes "bad_request"
    ∷ codes "no_route"
    ∷ codes "route_max_connections"
    ∷ codes "no_agent"
    ∷ codes "stream_error"
    ∷ codes "preamble_error"
    ∷ codes "dial_error"
    ∷ codes "response_timeout"
    ∷ codes "bad_response"
    ∷ codes "http3_off"
    ∷ []

pub reason_string : ℕ → Bytes
reason_string r = elim (get_elem? reason_names r) [ none ↦ codes "unknown" | some name ↦ name ]

unfoldable pub inc : ℕ → (ℕ → ℕ) → ℕ → ℕ
inc r c = if ltb r num_reasons then put_at c r (suc (c r)) else c

unfoldable pub get_count : (ℕ → ℕ) → ℕ → ℕ
get_count c r = if ltb r num_reasons then c r else 0

abbrev pub byte_shards : ℕ
byte_shards = 16

pub record Shard : Type 0 where
  pub bytes_in : ℕ
  pub bytes_out : ℕ

pub record RouteStats : Type 0 where
  pub pattern_text : Bytes
  pub active : ℤ
  pub all_streams : ℕ
  pub total_h3 : ℕ
  pub req_h3 : ℕ
  pub waits : ℕ
  pub shards : ℕ → Shard
  pub next : ℕ
  pub failures : ℕ → ℕ

unfoldable pub new_route_stats : Bytes → RouteStats
new_route_stats p = record {
  pattern_text = p;
  active = pos 0;
  all_streams = 0;
  total_h3 = 0;
  req_h3 = 0;
  waits = 0;
  shards = λ _. record { bytes_in = 0; bytes_out = 0 };
  next = 0;
  failures = λ _. 0;
}

unfoldable pub opened : Bool → RouteStats → RouteStats
opened h3 r = record r {
  active = plus_one r.active;
  all_streams = suc r.all_streams;
  total_h3 = if h3 then suc r.total_h3 else r.total_h3;
}

pub http3_request : RouteStats → RouteStats
http3_request r = record r { req_h3 = suc r.req_h3 }

pub agent_wait : RouteStats → RouteStats
agent_wait r = record r { waits = suc r.waits }

unfoldable pub closed : RouteStats → RouteStats
closed r = record r { active = minus_one r.active }

-- The shard of a new stream.
pub bytes_shard : RouteStats → RouteStats × ℕ
bytes_shard r =
    let next : ℕ = (r.next + 1) % 2 ^ 32 in (record r { next = next }, next % byte_shards)

pub add_in : ℕ → ℕ → RouteStats → RouteStats
add_in shard n r =
    let s = r.shards shard in
    record r { shards = put_at r.shards shard (record s { bytes_in = s.bytes_in + n }) }

pub add_out : ℕ → ℕ → RouteStats → RouteStats
add_out shard n r =
    let s = r.shards shard in
    record r { shards = put_at r.shards shard (record s { bytes_out = s.bytes_out + n }) }

unfoldable pub byte_totals : RouteStats → ℕ × ℕ
unfolding tally
byte_totals r =
    (tally (λ s. s.bytes_in) byte_shards r.shards, tally (λ s. s.bytes_out) byte_shards r.shards)

unfoldable pub failure : ℕ → RouteStats → RouteStats
unfolding inc
failure reason r = record r { failures = inc reason r.failures }
