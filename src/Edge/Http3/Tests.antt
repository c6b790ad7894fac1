-- ===== src/Edge/Http3/Tests.antt =====
-- Runs of HTTP/3 requests, connections and messages, and the theorems on them.
use coen.Base.{
  ℕ, ◌+◌, ◌≤◌, ◌↔◌, ◌≡◌, refl, Bool, true, false, not, ◌||◌, none, some, List, [], ◌∷◌, ◌++◌,
  if◌then◌else◌, ltb, ◌==◌, arith, Bytes, bytes_eq, codes, exists, count, ap, ◌-◌, ◌&&◌, ◌≢◌, leb,
  to_lower, lower_byte,
}
use coen.Base.Int.{pos, negsuc}
use coen.Base.Sorting.{bytes_lt}
use coen.Edge.Http3.Exchange.{
  begins, ends, closes_body, answers, takes_slot, reserves, opens_stream, commits, counts_opened,
  takes_kept, counts_request, closes_stream, keeps_stream, got_slot, Send, send_round,
}
use coen.Edge.Http3.{Request, routed, pending, serve_http3}
use coen.Edge.Http3.Outcome.{IsServed, serve_http3-IsServed}
use coen.Edge.Http3.Heads.{Guts, Field, HttpRequest, http1_lines}
use coen.Edge.Http3.Heads.Lines.{IsInline, Checks, Canonicalizes, IsHead, http1_lines-IsHead}
use coen.Edge.Http3.Bodies.{Body, at_eof, send_body}
use coen.Edge.Http3.Bodies.Received.{announced, receive, expected, receive-send_body}
use coen.Edge.Http3.Responses.{
  new_head_limit, asks_for, limit_after, values_named, dropped_names, copy_response_header,
}
use coen.Edge.Http3.Responses.Limits.{starts, brings, Reads-bounded}
use coen.Edge.Http3.Responses.Passing.{passed, values_named-copy_response_header}
use coen.Edge.Http3.Activity.{new_activity, begin_request, end_request}
use coen.Edge.Http3.Activity.Idle.{connects, begins, ends, Minds, Reach-Minds}
use coen.Edge.Http3.Serving.{QuicArrival, Slotted, route_slot}
use coen.Edge.Http3.Serving.Ending.{Asked, route_slot_returns}
use coen.Edge.StreamPool.{new_pool}
use coen.Edge.StreamPool.Steps.{created}

-- The first stream is a kept one that has closed; the second is fresh, and is kept.
abbrev sent : ℕ → Send
sent k = record {
  kept = true;
  slot = got_slot;
  refused = none;
  v2 = true;
  head_fails = false;
  rewrite_fails = false;
  body_fails = false;
  upload_done = true;
  read_failure =
      if ltb 0 k
      then none
      else some (record {
        nothing_back = true;
        tunnel_gone = true;
        client_gone = false;
        client_body_failed = false;
        is_timeout = false;
        waits_on_client = false;
      });
  response = record {
    status = 200;
    copy_fails = false;
    closes = false;
    nothing_buffered = true;
    client_stays = true;
  };
}

abbrev a_get : Request
a_get = record {
  is_connect = false;
  is_web_socket = false;
  head_is_valid = true;
  found = routed;
  content_length = pos 0;
  has_trailers = false;
  expects_continue = false;
  peeked = pending;
  sets_deadline = true;
  body_reads = true;
  is_idempotent = true;
  has_streams = true;
  sends = sent;
  upgrade = record {
    read_failure = none;
    status = 101;
    copy_fails = false;
    accept_is_right = true;
  };
}

a_get_events :
    serve_http3 a_get
    ≡ some (
        begins
        ∷ takes_kept
        ∷ counts_request
        ∷ closes_stream
        ∷ takes_slot
        ∷ reserves
        ∷ opens_stream
        ∷ commits
        ∷ counts_opened
        ∷ answers 200
        ∷ keeps_stream
        ∷ ends
        ∷ closes_body
        ∷ [])
unfolding serve_http3 send_round
a_get_events = refl

serve_http3-IsServed_example : IsServed a_get (serve_http3 a_get)
serve_http3-IsServed_example = serve_http3-IsServed a_get

-- A test on bytes that allows no line break.
abbrev is_clean : Bytes → Bool
is_clean s = not (exists (λ c. c == 13 || c == 10) s)

is_clean-IsInline : (s : Bytes) → is_clean s ≡ true → IsInline s
is_clean-IsInline [] e = tt
is_clean-IsInline (c ∷ s) e = (ground (arith, e), is_clean-IsInline s (ground (arith, e)))

-- Canonical names: the first letter of each part is a capital.
abbrev capital : Bool → ℕ → ℕ
capital up c = if up && (leb 97 c && leb c 122) then c - 32 else c

abbrev capitals : Bool → Bytes → Bytes
capitals up [] = []
capitals up (c ∷ s) = capital up c ∷ capitals (c == 45) s

abbrev canonical_of : Bytes → Bytes
canonical_of s = capitals true (to_lower s)

lower-capital : (up : Bool) (c : ℕ) → lower_byte (capital up (lower_byte c)) ≡ lower_byte c
unfolding lower_byte
lower-capital up c = ground arith

lower-capitals : (up : Bool) (s : Bytes) → to_lower (capitals up (to_lower s)) ≡ to_lower s
unfolding to_lower
lower-capitals up [] = refl
lower-capitals up (c ∷ s) = cc (lower-capital up c, lower-capitals (lower_byte c == 45) s)

capital-not_break :
    (up : Bool) (c : ℕ)
    → c ≢ 13
    → c ≢ 10
    → (capital up (lower_byte c) ≢ 13) × (capital up (lower_byte c) ≢ 10)
unfolding lower_byte
capital-not_break up c h k = (ground arith, ground arith)

capitals-IsInline : (up : Bool) (s : Bytes) → IsInline s → IsInline (capitals up (to_lower s))
unfolding to_lower
capitals-IsInline up [] i = tt
capitals-IsInline up (c ∷ s) i =
    (capital-not_break up c i.0.0 i.0.1, capitals-IsInline (lower_byte c == 45) s i.1)

abbrev guts : Guts
guts = record {
  valid_host = is_clean;
  valid_name = is_clean;
  valid_value = is_clean;
  valid_trailer = λ _. true;
  canonical = canonical_of;
  decimal = λ n. (48 + n) ∷ [];
}

guts-Checks : Checks guts
guts-Checks = record {
  host_inline = is_clean-IsInline;
  value_inline = is_clean-IsInline;
  name_inline = is_clean-IsInline;
  canonical_inline = λ s. capitals-IsInline true s;
}

guts-Canonicalizes : Canonicalizes guts
unfolding to_lower lower_byte
guts-Canonicalizes = record {
  keeps_letters = lower-capitals true;
  folds_case = λ s t v w e. ap (capitals true) e;
  knows = (
    (refl, refl),
    (
      (refl, refl),
      (
        (refl, refl),
        (
          (refl, refl),
          ((refl, refl), ((refl, refl), ((refl, refl), ((refl, refl), ((refl, refl), tt))))),
        ),
      ),
    ),
  );
}

abbrev a_post : HttpRequest
a_post = record {
  host = codes "a.b";
  request_uri = codes "/x";
  url_uri = codes "/x";
  verb = codes "POST";
  header =
      record { name = codes "te"; values = codes "z" ∷ [] }
      ∷ record { name = codes "Cookie"; values = codes "a" ∷ codes "b" ∷ [] }
      ∷ record { name = codes "accept"; values = codes "c" ∷ [] }
      ∷ [];
  length = negsuc 0;
}

abbrev post_lines : Bytes
post_lines = codes "POST /x HTTP/1.1\r\nHost: a.b\r\nCookie: a; b\r\nAccept: c\r\n"

a_post_lines : http1_lines guts a_post ≡ some post_lines
unfolding http1_lines bytes_lt bytes_eq to_lower lower_byte
a_post_lines = refl

http1_lines-IsHead_example : IsHead guts a_post post_lines
http1_lines-IsHead_example =
    http1_lines-IsHead guts guts-Checks guts-Canonicalizes a_post post_lines a_post_lines

-- A line break in a value.
abbrev smuggled : HttpRequest
smuggled = record a_post {
  header = record { name = codes "A"; values = (97 ∷ 13 ∷ 10 ∷ 98 ∷ []) ∷ [] } ∷ [];
}

smuggled_lines : http1_lines guts smuggled ≡ none
unfolding http1_lines bytes_eq to_lower lower_byte
smuggled_lines = refl

abbrev a_body : Body
a_body = record { reads = codes "abc" ∷ [] ∷ codes "de" ∷ []; end_of_reads = at_eof }

receive-send_body_example :
    receive 4
      (announced a_post [])
      ((send_body guts (λ _. true) a_post [] [] a_body).out ++ codes "GET")
    ≡ some (expected (announced a_post []) a_body, codes "GET")
unfolding send_body
receive-send_body_example =
    receive-send_body guts guts-Checks (λ _. true) a_post [] [] a_body (codes "GET") 4
      (omega arith, (omega arith, (omega arith, tt))) (omega arith) refl

abbrev a_response : List Field
a_response =
    record { name = codes "Connection"; values = codes "close, X-A" ∷ [] }
    ∷ record { name = codes "X-A"; values = codes "1" ∷ [] }
    ∷ record { name = codes "X-B"; values = codes "2" ∷ [] }
    ∷ []

values_named-copy_response_header_example :
    values_named (codes "X-B") (copy_response_header (λ s. s) [] a_response)
    ≡ passed
        (dropped_names (λ s. s) (values_named (codes "Connection") a_response))
        (codes "X-B")
        []
        a_response
values_named-copy_response_header_example =
    values_named-copy_response_header (λ s. s) (codes "X-B") [] a_response

Reach-Minds_example : Minds 0 (end_request (begin_request new_activity))
Reach-Minds_example = Reach-Minds (ends (begins connects))

abbrev arrivals : List QuicArrival
arrivals =
    record { conn = 1; drains = false; has_slot = false }
    ∷ record { conn = 2; drains = false; has_slot = true }
    ∷ record { conn = 3; drains = true; has_slot = true }
    ∷ []

route_slot_returns_example :
    (out : Slotted) × (route_slot
        (count (λ s. s.route == 5) new_pool.all + 1)
        false
        (λ _. false)
        true
        5
        new_pool
      ≡ some out)
    × Asked false (λ _. false) true 5 out
route_slot_returns_example = route_slot_returns false (λ _. false) true 5 created

-- Four bytes of the ten that are asked for.
abbrev four : ℕ
four = 4

Reads-bounded_example :
    (four ≤ 98304) × ((asks_for (limit_after new_head_limit four) 10 ≡ none) ↔ (four ≡ 98304))
unfolding asks_for limit_after
Reads-bounded_example = Reads-bounded 10 (brings 10 10 4 starts refl (omega arith)) refl
