-- ===== src/Edge/Head.antt =====
-- internal/edge/http.go: the head of an HTTP/1 request. A connection is the list of what its reads
-- return; when the list ends, readRequestHead is waiting, which is `none`. EqualFold is used on five
-- bytes against "host:", where it is ASCII case folding.
pub mod Host
pub mod Splits
mod Tests
use coen.Base.{
  ℕ, zero, suc, ◌+◌, ◌≡◌, refl, Bool, true, false, not, ◌&&◌, ◌||◌, Option, none, some, List, [],
  ◌∷◌, ◌++◌, length, take, drop, if◌then◌else◌, ltb, leb, ◌==◌, Bytes, codes, bytes_eq, has_prefix,
  to_lower, ◌⊎◌, inl, inr,
}
use coen.Route.Host.{normalize, trim_space}

pub data HostError : Type 0 where
  multiple_hosts no_host : HostError

-- The errors of a read: io.EOF, another one that IsTeardown knows, ECONNRESET, the deadline, others.
pub data ConnError : Type 0 where
  conn_eof conn_teardown conn_reset conn_deadline conn_other : ConnError

pub record Read : Type 0 where
  pub got : Bytes
  pub error : Option ConnError

pub data HeadError : Type 0 where
  head_too_long incomplete_head : HeadError
  bad_host : HostError → HeadError
  no_request : ConnError → HeadError
  read_failed : ConnError → HeadError

abbrev pub push_byte : ℕ → List Bytes → List Bytes
push_byte c [] = (c ∷ []) ∷ []
push_byte c (l ∷ ls) = (c ∷ l) ∷ ls

-- bytes.Split at CRLF
pub split_crlf : Bytes → List Bytes
split_crlf [] = [] ∷ []
split_crlf (c ∷ []) = (c ∷ []) ∷ []
split_crlf (c ∷ d ∷ s) =
    let after = split_crlf s in
    let rest = split_crlf (d ∷ s) in if c == 13 && d == 10 then [] ∷ after else push_byte c rest

abbrev pub host_field : Bytes
host_field = codes "host:"

pub is_host_line : Bytes → Bool
unfolding bytes_eq to_lower
is_host_line l = leb 5 (length l) && bytes_eq (to_lower (take 5 l)) host_field

abbrev pub host_value : Bytes → Bytes
host_value l = normalize (trim_space (drop 5 l))

-- The loop of parseHost; `found` is the host that it has found.
pub parse_lines : List Bytes → Option Bytes → HostError ⊎ Bytes
unfolding is_host_line
parse_lines [] none = inl no_host
parse_lines [] (some h) = inr h
parse_lines (l ∷ ls) none =
    let found = parse_lines ls (some (host_value l)) in
    let rest = parse_lines ls none in if is_host_line l then found else rest
parse_lines (l ∷ ls) (some h) =
    let rest = parse_lines ls (some h) in if is_host_line l then inl multiple_hosts else rest

pub parse_host : Bytes → HostError ⊎ Bytes
unfolding split_crlf parse_lines
parse_host head = parse_lines (drop 1 (split_crlf head)) none

abbrev pub blank_line : Bytes
blank_line = 13 ∷ 10 ∷ 13 ∷ 10 ∷ []

-- bytes.Index of the blank line
pub index_blank : Bytes → Option ℕ
unfolding has_prefix
index_blank [] = none
index_blank (c ∷ s) =
    let rest = index_blank s in
    if has_prefix (c ∷ s) blank_line
    then some 0
    else elim rest [ none ↦ none | some i ↦ some (suc i) ]

abbrev pub is_empty : Bytes → Bool
is_empty [] = true
is_empty (c ∷ s) = false

-- An error that ends a connection on which no request was sent.
abbrev pub is_quiet : ConnError → Bool
is_quiet conn_other = false
is_quiet _ = true

abbrev pub end_error : ConnError → HeadError
end_error conn_eof = incomplete_head
end_error e = read_failed e

abbrev pub head_error : Bytes → ConnError → HeadError
head_error buf e = if is_empty buf && is_quiet e then no_request e else end_error e

-- The result with the bytes read so far, once the blank line has been found.
abbrev pub with_host : Bytes → HostError ⊎ Bytes → HeadError ⊎ (Bytes × Bytes)
with_host buf (inl e) = inl (bad_host e)
with_host buf (inr h) = inr (buf, h)

-- A read that returned nothing does not look for the blank line again.
pub find_end : Bytes → Bytes → Option ℕ
unfolding index_blank
find_end got buf = if is_empty got then none else index_blank buf

pub read_head : ℕ → Bytes → List Read → Option (HeadError ⊎ (Bytes × Bytes))
unfolding find_end parse_host
read_head limit buf [] = none
read_head limit buf (r ∷ rs) =
    let buf' = buf ++ r.got in
    let rest = read_head limit buf' rs in
    if not (is_empty r.got) && ltb limit (length buf')
    then some (inl head_too_long)
    else elim (find_end r.got buf') [
      | some i ↦ some (with_host buf' (parse_host (take i buf')))
      | none ↦ elim r.error [ none ↦ rest | some e ↦ some (inl (head_error buf' e)) ]
    ]

pub read_request_head : ℕ → List Read → Option (HeadError ⊎ (Bytes × Bytes))
unfolding read_head
read_request_head limit reads = read_head limit [] reads
