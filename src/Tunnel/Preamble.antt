-- ===== src/Tunnel/Preamble.antt =====
-- internal/tunnel/preamble.go: the frame of the preamble. A reader is the bytes that it still yields,
-- and the error after them; how they are split over reads makes no difference to io.ReadFull. The JSON
-- codec is an argument: `none` is an error of it.
pub mod Framing
mod Tests
use coen.Base.{
  ℕ, zero, suc, ◌+◌, ◌*◌, ◌/◌, ◌%◌, ◌^◌, ◌≡◌, refl, Bool, true, false, Option, none, some, List, [],
  ◌∷◌, ◌++◌, length, take, drop, if◌then◌else◌, ltb, leb, Bytes, ◌⊎◌, inl, inr,
}

pub record Preamble : Type 0 where
  pub conn_id : Bytes
  pub client_addr : Bytes
  pub host : Bytes
  pub edge_version : Bytes

pub record Json : Type 0 where
  pub marshal : Preamble → Option Bytes
  pub unmarshal : Bytes → Option Preamble

pub data ReadError : Type 0 where
  eof unexpected_eof other_read_error : ReadError

pub record Reader : Type 0 where
  pub left : Bytes
  pub then_error : ReadError

pub data PreambleError : Type 0 where
  json_error too_large : PreambleError
  read_error : ReadError → PreambleError

pub data Result : Type 0 where
  fails : PreambleError → Result
  reads : Preamble → Result

abbrev pub max_preamble : ℕ
max_preamble = 4096

-- binary.BigEndian, on a uint16.
pub put_uint16 : ℕ → Bytes
put_uint16 n = (n % 2 ^ 16) / 256 ∷ (n % 2 ^ 16) % 256 ∷ []

pub uint16 : Bytes → ℕ
uint16 (hi ∷ lo ∷ _) = hi * 256 + lo
uint16 _ = 0

abbrev pub cut_short : ReadError → ReadError
cut_short eof = unexpected_eof
cut_short e = e

-- io.ReadFull into a buffer of `n` bytes.
pub read_full : ℕ → Reader → Reader × (ReadError ⊎ Bytes)
read_full n r =
    if leb n (length r.left) then (record r { left = drop n r.left }, inr (take n r.left)) else (
      record r { left = [] },
      inl (if leb (length r.left) 0 then r.then_error else cut_short r.then_error),
    )

-- The switch on the length of the JSON.
pub encode_json : Option Bytes → PreambleError ⊎ Bytes
unfolding put_uint16
encode_json none = inl json_error
encode_json (some b) =
    if ltb max_preamble (length b) then inl too_large else inr (put_uint16 (length b) ++ b)

pub encode_preamble : Json → Preamble → PreambleError ⊎ Bytes
unfolding encode_json
encode_preamble j p = encode_json (j.marshal p)

-- The error of the read of the body.
pub body_error : ReadError → ReadError
body_error eof = unexpected_eof
body_error e = e

pub decode_body : Json → Reader × (ReadError ⊎ Bytes) → Reader × Result
unfolding body_error
decode_body j (r, inl e) = (r, fails (read_error (body_error e)))
decode_body j (r, inr buf) =
    (r, elim (j.unmarshal buf) [ none ↦ fails json_error | some p ↦ reads p ])

pub read_body : Json → Reader × (ReadError ⊎ Bytes) → Reader × Result
unfolding read_full uint16 decode_body
read_body j (r, inl e) = (r, fails (read_error e))
read_body j (r, inr hdr) =
    if ltb max_preamble (uint16 hdr)
    then (r, fails too_large)
    else decode_body j (read_full (uint16 hdr) r)

pub read_preamble : Json → Reader → Reader × Result
unfolding read_full read_body
read_preamble j r = read_body j (read_full 2 r)
