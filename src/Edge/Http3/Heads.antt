-- ===== src/Edge/Http3/Heads.antt =====
-- internal/edge/http3.go and http3ws.go: the HTTP/1.1 head that carries an HTTP/3 request through the
-- tunnel. What the packages net/http and httpguts decide about names and values is a record.
pub mod Lines
use coen.Base.{
  ℕ, Bool, true, false, not, ◌&&◌, ◌||◌, Option, none, some, List, [], ◌∷◌, ◌++◌, if◌then◌else◌,
  ltb, ◌==◌, Bytes, bytes_eq, codes, exists, keep, to_lower,
}
use coen.Base.Int.{ℤ, pos, negsuc}
use coen.Base.Sorting.{bytes_lt, sort_by}

pub record Guts : Type 0 where
  pub valid_host : Bytes → Bool
  pub valid_name : Bytes → Bool
  pub valid_value : Bytes → Bool
  pub valid_trailer : Bytes → Bool
  pub canonical : Bytes → Bytes
  pub decimal : ℕ → Bytes

-- A Go map of fields, ranged over in some order.
pub record Field : Type 0 where
  pub name : Bytes
  pub values : List Bytes

pub record HttpRequest : Type 0 where
  pub host : Bytes
  pub request_uri : Bytes
  pub url_uri : Bytes  -- URL.RequestURI()
  pub verb : Bytes
  pub header : List Field
  pub length : ℤ  -- ContentLength

abbrev pub crlf : Bytes
crlf = 13 ∷ 10 ∷ []

abbrev pub hop_headers : List Bytes
hop_headers =
    codes "Connection"
    ∷ codes "Keep-Alive"
    ∷ codes "Proxy-Connection"
    ∷ codes "Transfer-Encoding"
    ∷ codes "Upgrade"
    ∷ codes "Te"
    ∷ codes "Trailer"
    ∷ []

abbrev pub is_empty : Bytes → Bool
is_empty [] = true
is_empty _ = false

abbrev pub one_of : List Bytes → Bytes → Bool
one_of names k = exists (λ n. bytes_eq n k) names

abbrev pub stays_back : Bytes → Bool
stays_back ck =
    bytes_eq ck (codes "Host") || (bytes_eq ck (codes "Content-Length") || one_of hop_headers ck)

-- strings.Join
pub join_with : Bytes → List Bytes → Bytes
join_with sep [] = []
join_with sep (v ∷ []) = v
join_with sep (v ∷ w ∷ vs) = v ++ (sep ++ join_with sep (w ∷ vs))

unfoldable pub line : Bytes → Bytes → Bytes
line name value = name ++ (codes ": " ++ (value ++ crlf))

-- A part that is an error unless its test holds, and two parts of which each may be one.
pub guarded : Bool → Option Bytes → Option Bytes
guarded true b = b
guarded false b = none

pub both : Option Bytes → Option Bytes → Option Bytes
both (some a) (some b) = some (a ++ b)
both _ _ = none

pub value_lines : Guts → Bytes → List Bytes → Option Bytes
unfolding line guarded both
value_lines g ck [] = some []
value_lines g ck (v ∷ vs) =
    guarded (g.valid_value v) (both (some (line ck v)) (value_lines g ck vs))

-- HTTP/1.1 allows one Cookie line.
pub field_values : Bytes → List Bytes → List Bytes
unfolding join_with
field_values ck (v ∷ w ∷ vs) =
    if bytes_eq ck (codes "Cookie") then join_with (codes "; ") (v ∷ w ∷ vs) ∷ [] else v ∷ w ∷ vs
field_values ck vs = vs

pub field_lines : Guts → Field → Option Bytes
unfolding value_lines field_values guarded
field_lines g f =
    let ck = g.canonical f.name in
    if stays_back ck
    then some []
    else guarded (g.valid_name f.name) (value_lines g ck (field_values ck f.values))

pub header_lines : Guts → List Field → Option Bytes
unfolding field_lines both
header_lines g [] = some []
header_lines g (f ∷ fs) = both (field_lines g f) (header_lines g fs)

abbrev pub name_less : Field → Field → Bool
name_less a b = bytes_lt a.name b.name

pub request_target : HttpRequest → Bytes
request_target r = if is_empty r.request_uri then r.url_uri else r.request_uri

pub is_target : Bytes → Bool
is_target t = not (is_empty t) && not (exists (λ c. c == 32 || (c == 13 || (c == 10 || c == 9))) t)

pub request_line : HttpRequest → Bytes
unfolding request_target
request_line r =
    r.verb
    ++ (codes " "
        ++ (request_target r
            ++ (codes " HTTP/1.1" ++ (crlf ++ (codes "Host: " ++ (r.host ++ crlf))))))

unfoldable pub http1_lines : Guts → HttpRequest → Option Bytes
unfolding request_target is_target request_line header_lines guarded both
http1_lines g r = guarded (g.valid_host r.host && not (is_empty r.host)) (
    guarded (g.valid_name r.verb && is_target (request_target r))
      (both (some (request_line r)) (header_lines g (sort_by name_less r.header))))

pub method_has_body : Bytes → Bool
method_has_body m = one_of (codes "POST" ∷ codes "PUT" ∷ codes "PATCH" ∷ []) m

-- The trailers that may cross, sorted.
unfoldable pub trailer_names : Guts → List Bytes → List Bytes
trailer_names g names = sort_by bytes_lt (keep (λ k. g.valid_name k && g.valid_trailer k) names)

pub framing_lines : Guts → HttpRequest → List Bytes → Bytes
unfolding join_with method_has_body
framing_lines g r [] = elim r.length [
  | pos n ↦
      if ltb 0 n
      then codes "Content-Length: " ++ (g.decimal n ++ crlf)
      else if method_has_body r.verb
      then codes "Content-Length: 0" ++ crlf
      else []
  | negsuc n ↦ codes "Transfer-Encoding: chunked" ++ crlf
]
framing_lines g r (t ∷ ts) =
    codes "Trailer: "
    ++ (join_with (codes ", ") (t ∷ ts) ++ (crlf ++ (codes "Transfer-Encoding: chunked" ++ crlf)))

unfoldable pub framed : Guts → Bytes → HttpRequest → List Bytes → Bytes
unfolding framing_lines
framed g lines r trailers = lines ++ (framing_lines g r trailers ++ crlf)

-- The value of a header field, the first if there are more.
pub get_field : Bytes → List Field → Bytes
get_field name [] = []
get_field name (f ∷ fs) =
    if bytes_eq f.name name then elim f.values [ [] ↦ [] | v ∷ vs ↦ v ] else get_field name fs

unfoldable pub is_idempotent : HttpRequest → Bool
unfolding get_field
is_idempotent r =
    one_of
      (codes "GET"
        ∷ codes "HEAD"
        ∷ codes "OPTIONS"
        ∷ codes "TRACE"
        ∷ codes "PUT"
        ∷ codes "DELETE"
        ∷ [])
      r.verb
    || (not (is_empty (get_field (codes "Idempotency-Key") r.header))
        || not (is_empty (get_field (codes "X-Idempotency-Key") r.header)))

pub expects_continue : HttpRequest → Bool
unfolding get_field
expects_continue r =
    bytes_eq (to_lower (get_field (codes "Expect") r.header)) (codes "100-continue")

pub is_web_socket_connect : Bytes → HttpRequest → Bool
is_web_socket_connect proto r =
    bytes_eq r.verb (codes "CONNECT") && bytes_eq (to_lower proto) (codes "websocket")

-- The upgrade request for an extended CONNECT.
pub web_socket_head : Guts → Bytes → HttpRequest → Option Bytes
unfolding http1_lines get_field
web_socket_head g key r =
    let up = record r {
      verb = codes "GET";
      header = keep (λ f. not (bytes_eq f.name (codes "Sec-Websocket-Key"))) r.header;
    } in
    elim (http1_lines g up) [
      | none ↦ none
      | some lines ↦ some (
          lines
          ++ (codes "Upgrade: websocket"
              ++ (crlf
                  ++ (codes "Connection: Upgrade, close"
                      ++ (crlf
                          ++ (codes "Sec-WebSocket-Key: "
                              ++ (key
                                  ++ (crlf
                                      ++ ((if is_empty
                                              (get_field (codes "Sec-Websocket-Version") up.header)
                                            then codes "Sec-WebSocket-Version: 13" ++ crlf
                                            else [])
                                          ++ crlf)))))))))
    ]
