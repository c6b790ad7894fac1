-- ===== src/Edge/Http3/Bodies.antt =====
-- internal/edge/http3.go, sendBody: a request's body on its way to the service, framed as the head has
-- announced (httputil.NewChunkedWriter, io.CopyN). A body is what its reads return, and how it ends; a
-- write answers whether it succeeds. Chunked/Hex and Chunked read it as an HTTP/1.1 service does.
pub mod Hex
pub mod Chunked
pub mod Received
use coen.Base.{
  ℕ, zero, suc, ◌+◌, ◌*◌, ◌-◌, ◌/◌, ◌%◌, Bool, true, false, not, ◌&&◌, ◌||◌, Option, none, some,
  List, [], ◌∷◌, ◌++◌, if◌then◌else◌, ltb, leb, ◌==◌, Bytes, bytes_eq, map, codes, length, take,
  drop,
}
use coen.Base.Int.{ℤ, pos, negsuc}
use coen.Edge.Http3.Heads.{Guts, Field, HttpRequest, crlf, trailer_names, line}

pub data BodyEnd : Type 0 where
  at_eof broken_off : BodyEnd

pub record Body : Type 0 where
  pub reads : List Bytes
  pub end_of_reads : BodyEnd

abbrev pub concat : List Bytes → Bytes
concat [] = []
concat (c ∷ cs) = c ++ concat cs

-- What was written, and whether all went well.
pub record Written : Type 0 where
  pub out : Bytes
  pub succeeds : Bool

abbrev pub fails_with : Bytes → Written
fails_with out = record { out = out; succeeds = false }

abbrev pub then_write : Bytes → Written → Written
then_write b w = record w { out = b ++ w.out }

pub hex_digit : ℕ → ℕ
hex_digit d = if ltb d 10 then b'0' + d else b'a' + (d - 10)

-- `%x`, of at most one digit more than the fuel.
pub hex : ℕ → ℕ → Bytes
unfolding hex_digit
hex zero n = hex_digit (n % 16) ∷ []
hex (suc f) n =
    let rest = hex f (n / 16) in
    if ltb n 16 then hex_digit n ∷ [] else rest ++ (hex_digit (n % 16) ∷ [])

abbrev pub fuel_hex : ℕ
fuel_hex = 3

pub chunk : Bytes → Bytes
unfolding hex
chunk c = hex fuel_hex (length c) ++ (crlf ++ (c ++ crlf))

-- The lines of one trailer; a value that is not valid is left out.
pub trailer_values : Guts → Bytes → List Bytes → Bytes
unfolding line
trailer_values g k [] = []
trailer_values g k (v ∷ vs) =
    if g.valid_value v then line k v ++ trailer_values g k vs else trailer_values g k vs

pub values_of : Bytes → List Field → List Bytes
values_of k [] = []
values_of k (f ∷ fs) = if bytes_eq f.name k then f.values else values_of k fs

pub trailer_lines : Guts → List Field → List Bytes → Bytes
unfolding trailer_values values_of
trailer_lines g fields [] = []
trailer_lines g fields (k ∷ ks) =
    trailer_values g k (values_of k fields) ++ trailer_lines g fields ks

-- The loop over the reads; `writes k` is whether the write that follows `k` others succeeds.
pub send_chunks : (ℕ → Bool) → ℕ → (tail : Bytes) → List Bytes → BodyEnd → Written
unfolding chunk
send_chunks writes k tail [] broken_off = fails_with []
send_chunks writes k tail [] at_eof =
    if not (writes k)
    then fails_with []
    else if not (writes (k + 1))
    then fails_with (codes "0" ++ crlf)
    else record { out = codes "0" ++ (crlf ++ tail); succeeds = true }
send_chunks writes k tail ([] ∷ cs) end = send_chunks writes k tail cs end
send_chunks writes k tail ((x ∷ xs) ∷ cs) end =
    let rest = send_chunks writes (suc k) tail cs end in
    if writes k then then_write (chunk (x ∷ xs)) rest else fails_with []

-- io.CopyN: fewer than `n` bytes are an error, and no more are read. What a copy wrote whose writes fail
-- is not kept.
pub copy_n : (ℕ → Bool) → ℕ → Body → Written
copy_n writes n b =
    let whole = concat b.reads in
    if not (writes 0)
    then fails_with []
    else record { out = take n whole; succeeds = leb n (length whole) }

-- What follows the last chunk: the trailers of the request, once the body has ended.
pub tail_of : Guts → List Field → Bytes
unfolding trailer_lines trailer_names
tail_of g later = trailer_lines g later (trailer_names g (map (λ f. f.name) later)) ++ crlf

-- The cases of a request without announced trailers.
pub send_sized : (ℕ → Bool) → Bytes → Body → ℤ → Written
unfolding send_chunks copy_n
send_sized writes tail b (negsuc n) = send_chunks writes 0 tail b.reads b.end_of_reads
send_sized writes tail b (pos n) =
    if ltb 0 n then copy_n writes n b else record { out = []; succeeds = true }

unfoldable pub send_body :
    Guts → (ℕ → Bool) → HttpRequest → List Bytes → List Field → Body → Written
unfolding send_sized send_chunks tail_of
send_body g writes r (t ∷ ts) later b =
    send_chunks writes 0 (tail_of g later) b.reads b.end_of_reads
send_body g writes r [] later b = send_sized writes (tail_of g later) b r.length
