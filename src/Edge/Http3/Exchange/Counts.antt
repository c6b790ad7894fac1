-- ===== src/Edge/Http3/Exchange/Counts.antt =====
-- internal/edge/http3.go: counts of what a part of a request did, and how they add up.
use coen.Base.{ℕ, ◌+◌, ◌≤◌, ◌≡◌, Bool, true, false, List, [], ◌∷◌, ◌++◌, arith, count}
use coen.Edge.Http3.Exchange.{
  Event, answers, aborts, takes_slot, releases_slot, reserves, commits, releases_reservation,
  opens_stream, closes_unsent, counts_opened, takes_kept, counts_request, closes_stream,
  keeps_stream, fails_bad_request, fails_no_route, fails_http3_off, fails_route_max_connections,
  fails_stream_error, fails_response_timeout, fails_bad_response,
}

-- The request has been answered, or given up on.
abbrev pub is_end : Event → Bool
is_end (answers code) = true
is_end aborts = true
is_end _ = false

abbrev pub is_failure : Event → Bool
is_failure fails_bad_request = true
is_failure fails_no_route = true
is_failure fails_http3_off = true
is_failure fails_route_max_connections = true
is_failure fails_stream_error = true
is_failure fails_response_timeout = true
is_failure fails_bad_response = true
is_failure _ = false

abbrev pub takes : Event → Bool
takes takes_slot = true
takes _ = false

abbrev pub releases : Event → Bool
releases releases_slot = true
releases _ = false

abbrev pub is_reserve : Event → Bool
is_reserve reserves = true
is_reserve _ = false

abbrev pub is_commit : Event → Bool
is_commit commits = true
is_commit _ = false

abbrev pub unreserves : Event → Bool
unreserves releases_reservation = true
unreserves _ = false

abbrev pub is_open : Event → Bool
is_open opens_stream = true
is_open _ = false

abbrev pub is_unsent : Event → Bool
is_unsent closes_unsent = true
is_unsent _ = false

abbrev pub is_counted : Event → Bool
is_counted counts_opened = true
is_counted _ = false

-- A tunnel stream with the request's head on its way.
abbrev pub is_obtained : Event → Bool
is_obtained counts_opened = true
is_obtained takes_kept = true
is_obtained _ = false

abbrev pub is_given_up : Event → Bool
is_given_up closes_stream = true
is_given_up keeps_stream = true
is_given_up _ = false

abbrev pub is_request : Event → Bool
is_request counts_request = true
is_request _ = false

-- Events with `ended` ends, `requests` requests counted, `obtained` streams taken and `given` given up.
pub record Adds (ended requests obtained given : ℕ) (es : List Event) : Type 0 where
  pub ends_of : count is_end es ≡ ended
  pub requests_of : count is_request es ≡ requests
  pub obtained_of : count is_obtained es ≡ obtained
  pub given_of : count is_given_up es ≡ given
  pub fails_once : count is_failure es ≤ ended
  pub slots : count takes es ≡ count is_counted es + count releases es
  pub reservations : count is_reserve es ≡ count is_commit es + count unreserves es
  pub committed : count is_commit es ≡ count is_counted es
  pub opened : count is_open es ≡ count is_counted es + count is_unsent es

count-append :
    (p : Event → Bool) (es fs : List Event) → count p (es ++ fs) ≡ count p es + count p fs
count-append p [] fs = omega arith
count-append p (e ∷ es) fs = ground (arith, count-append p es fs)

pub append-Adds :
    {e r o g e' r' o' g' : ℕ} (e'' r'' o'' g'' : ℕ) (es fs : List Event)
    → Adds e r o g es
    → Adds e' r' o' g' fs
    → (e'' ≡ e + e') × (r'' ≡ r + r') × (o'' ≡ o + o') × (g'' ≡ g + g')
    → Adds e'' r'' o'' g'' (es ++ fs)
append-Adds e'' r'' o'' g'' es fs a b q = record {
  ends_of = omega (arith, a.ends_of, b.ends_of, count-append is_end es fs);
  requests_of = omega (arith, a.requests_of, b.requests_of, count-append is_request es fs);
  obtained_of = omega (arith, a.obtained_of, b.obtained_of, count-append is_obtained es fs);
  given_of = omega (arith, a.given_of, b.given_of, count-append is_given_up es fs);
  fails_once = omega (arith, a.fails_once, b.fails_once, count-append is_failure es fs);
  slots = omega (
    arith,
    a.slots,
    b.slots,
    count-append takes es fs,
    count-append is_counted es fs,
    count-append releases es fs,
  );
  reservations = omega (
    arith,
    a.reservations,
    b.reservations,
    count-append is_reserve es fs,
    count-append is_commit es fs,
    count-append unreserves es fs,
  );
  committed = omega (
    arith,
    a.committed,
    b.committed,
    count-append is_commit es fs,
    count-append is_counted es fs,
  );
  opened = omega (
    arith,
    a.opened,
    b.opened,
    count-append is_open es fs,
    count-append is_counted es fs,
    count-append is_unsent es fs,
  );
}

-- Whether something happens, as a number.
abbrev pub one_if : Bool → ℕ
one_if true = 1
one_if false = 0
