-- ===== src/Tunnel/Preamble/Tests.antt =====
-- Tests of internal/tunnel/preamble.go, and its theorems at concrete inputs.
use coen.Base.{◌≡◌, refl, some, [], ◌∷◌, ◌++◌, length, if◌then◌else◌, leb, Bytes, inr, codes}
use coen.Tunnel.Preamble.{
  Preamble, Json, eof, cut_short, fails, reads, read_error, put_uint16, encode_preamble,
  encode_json, read_preamble,
}
use coen.Tunnel.Preamble.Framing.{read_preamble-encode_preamble, read_preamble_cut}

-- A codec that keeps the host only, as it is.
abbrev host_only : Json
host_only = record {
  marshal = λ p. some p.host;
  unmarshal = λ b. some (record { conn_id = []; client_addr = []; host = b; edge_version = [] });
}

abbrev hello : Preamble
hello = record { conn_id = []; client_addr = []; host = codes "a.test"; edge_version = [] }

abbrev framed : Bytes
framed = 0 ∷ 6 ∷ codes "a.test"

frame_hello : encode_preamble host_only hello ≡ inr framed
unfolding encode_preamble encode_json put_uint16
frame_hello = refl

read_preamble-encode_preamble_example :
    read_preamble host_only (record { left = framed ++ codes "GET"; then_error = eof })
    ≡ (record { left = codes "GET"; then_error = eof }, reads hello)
read_preamble-encode_preamble_example =
    read_preamble-encode_preamble host_only hello (codes "GET") eof (λ b e. cc) frame_hello

read_preamble_cut_example :
    (read_preamble host_only (record { left = 0 ∷ 6 ∷ codes "a"; then_error = eof })).1
    ≡ fails (read_error (if leb (length (0 ∷ 6 ∷ codes "a")) 0 then eof else cut_short eof))
read_preamble_cut_example =
    read_preamble_cut host_only hello (0 ∷ 6 ∷ codes "a") b'.' (codes "test") eof frame_hello refl
