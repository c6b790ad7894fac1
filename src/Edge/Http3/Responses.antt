-- ===== src/Edge/Http3/Responses.antt =====
-- internal/edge/http3.go: reading the service's response (readResponse, headLimit), copying it to the
-- client (copyResponseHeader, copyResponse), and the request bodies that are read ahead (peekedBody,
-- readErrs). What http.ReadResponse and the readers below return is an argument.
pub mod Passing
pub mod Limits
use coen.Base.{
  ℕ, zero, suc, ◌+◌, ◌-◌, ◌*◌, Bool, true, false, not, ◌&&◌, ◌||◌, Option, none, some, List, [],
  ◌∷◌, ◌++◌, if◌then◌else◌, ltb, leb, ◌==◌, Bytes, bytes_eq, exists, length, take, drop, codes,
}
use coen.Base.Int.{ℤ, pos, negsuc}
use coen.Route.Host.{trim_space}
use coen.Edge.Http3.Heads.{Field, hop_headers, one_of}

-- The responses that the service sends, one after the other; the list ends where a read fails.
pub data ReadEnd : Type 0 where
  read_fails : ReadEnd
  bad_status : ℕ → ReadEnd
  unexpected_switch : ReadEnd
  final : ℕ → ReadEnd

-- The interim responses passed on, and the end.
pub record ReadAll : Type 0 where
  pub interims : List ℕ
  pub end_of_read : ReadEnd

abbrev pub with_interim : ℕ → ReadAll → ReadAll
with_interim status r = record r { interims = status ∷ r.interims }

abbrev pub ends_with : ReadEnd → ReadAll
ends_with e = record { interims = []; end_of_read = e }

pub read_response : Bool → List ℕ → ReadAll
read_response upgrade [] = ends_with read_fails
read_response upgrade (status ∷ rest) =
    let more = read_response upgrade rest in
    if ltb status 100
    then ends_with (bad_status status)
    else if status == 101
    then ends_with (if upgrade then final status else unexpected_switch)
    else if ltb status 200
    then with_interim status more
    else ends_with (final status)

abbrev pub head_limit_bytes : ℕ
head_limit_bytes = 64 * 1024 + 32 * 1024

pub record HeadLimit : Type 0 where
  pub left : ℕ
  pub freed : Bool

abbrev pub new_head_limit : HeadLimit
new_head_limit = record { left = head_limit_bytes; freed = false }

-- How many bytes a read asks the reader below for; `none` is the error that the head is too large.
unfoldable pub asks_for : HeadLimit → ℕ → Option ℕ
asks_for h len =
    if h.freed
    then some len
    else if leb h.left 0
    then none
    else some (if ltb h.left len then h.left else len)

-- After a read of `n` bytes.
unfoldable pub limit_after : HeadLimit → ℕ → HeadLimit
limit_after h n = if h.freed then h else record h { left = h.left - n }

pub limit_done : HeadLimit → HeadLimit
limit_done h = record h { freed = true }

pub limit_reset : HeadLimit → HeadLimit
limit_reset h = record h { left = head_limit_bytes }

-- strings.Split at commas; the last part is what follows the last one.
pub split_commas : Bytes → Bytes → List Bytes
split_commas part [] = part ∷ []
split_commas part (c ∷ s) =
    if c == b',' then part ∷ split_commas [] s else split_commas (part ++ (c ∷ [])) s

abbrev pub concat_all : List (List Bytes) → List Bytes
concat_all [] = []
concat_all (x ∷ xs) = x ++ concat_all xs

-- src.Values("Connection")
pub values_named : Bytes → List Field → List Bytes
values_named name [] = []
values_named name (f ∷ fs) = if bytes_eq f.name name then f.values else values_named name fs

pub dropped_parts : (Bytes → Bytes) → List Bytes → List Bytes
unfolding trim_space
dropped_parts canonical [] = []
dropped_parts canonical (t ∷ ts) = canonical (trim_space t) ∷ dropped_parts canonical ts

pub dropped_names : (Bytes → Bytes) → List Bytes → List Bytes
unfolding dropped_parts split_commas
dropped_names canonical [] = []
dropped_names canonical (v ∷ vs) =
    dropped_parts canonical (split_commas [] v) ++ dropped_names canonical vs

-- dst[k] = append(dst[k], vs...)
pub add_field : Field → List Field → List Field
add_field f [] = f ∷ []
add_field f (g ∷ gs) =
    if bytes_eq g.name f.name
    then record g { values = g.values ++ f.values } ∷ gs
    else g ∷ add_field f gs

abbrev pub is_dropped : List Bytes → Field → Bool
is_dropped names f = one_of names f.name || one_of hop_headers f.name

pub copy_fields : List Bytes → List Field → List Field → List Field
unfolding add_field
copy_fields names dst [] = dst
copy_fields names dst (f ∷ fs) =
    copy_fields names (if is_dropped names f then dst else add_field f dst) fs

pub copy_response_header : (Bytes → Bytes) → List Field → List Field → List Field
unfolding copy_fields dropped_names values_named
copy_response_header canonical dst src =
    copy_fields (dropped_names canonical (values_named (codes "Connection") src)) dst src

-- A source by what its reads return, and whether it ends well.
pub record Source : Type 0 where
  pub reads : List Bytes
  pub ends_well : Bool

pub record Copied : Type 0 where
  pub written : List Bytes
  pub copied_all : Bool
  pub flushes : ℕ

-- The loop of copyResponse; `writes k` is whether the write of the k-th part succeeds.
pub copy_response : (ℕ → Bool) → Bool → ℕ → Source → List Bytes → Copied
copy_response writes flush k s [] = record { written = []; copied_all = s.ends_well; flushes = 0 }
copy_response writes flush k s ([] ∷ cs) = copy_response writes flush k s cs
copy_response writes flush k s ((x ∷ xs) ∷ cs) =
    let rest = copy_response writes flush (suc k) s cs in
    if writes k
    then record {
      written = (x ∷ xs) ∷ rest.written;
      copied_all = rest.copied_all;
      flushes = if flush then suc rest.flushes else rest.flushes;
    }
    else record { written = []; copied_all = false; flushes = 0 }

-- A body whose first read was started ahead: what it returned, and how.
pub data FirstError : Type 0 where
  no_error at_end failed : FirstError

pub record PeekedBody : Type 0 where
  pub buf : Bytes
  pub first_error : FirstError
  pub taken : Bool

pub data BodyRead : Type 0 where
  reads_bytes : Bytes → BodyRead
  reads_error : FirstError → BodyRead
  reads_below : BodyRead  -- the body's own Read

pub read_error_or_below : PeekedBody → FirstError → PeekedBody × BodyRead
read_error_or_below p no_error = (record p { taken = true }, reads_below)
read_error_or_below p e = (record p { taken = true }, reads_error e)

pub read_untaken : PeekedBody → ℕ → Bytes → PeekedBody × BodyRead
unfolding read_error_or_below
read_untaken p n [] = read_error_or_below p p.first_error
read_untaken p n (x ∷ xs) = (record p { buf = drop n (x ∷ xs) }, reads_bytes (take n (x ∷ xs)))

-- Read into a buffer of `n` bytes, once the first read has returned.
pub peeked_read : ℕ → PeekedBody → PeekedBody × BodyRead
unfolding read_untaken
peeked_read n p = if p.taken then (p, reads_below) else read_untaken p n p.buf

-- The framing to use: `done` is whether the first read has returned.
pub peeked_framing : Bool → PeekedBody → ℤ
peeked_framing done p = elim p.first_error [
  | at_end ↦ if done then pos (length p.buf) else negsuc 0
  | no_error ↦ negsuc 0
  | failed ↦ negsuc 0
]

pub record ReadErrs : Type 0 where
  pub bytes_read : ℕ
  pub has_failed : Bool

-- After a read of `n` bytes.
pub read_errs : ℕ → FirstError → ReadErrs → ReadErrs
read_errs n failed e = record { bytes_read = e.bytes_read + n; has_failed = true }
read_errs n _ e = record e { bytes_read = e.bytes_read + n }
