-- ===== src/Tunnel/Preamble/Framing.antt =====
-- internal/tunnel/preamble.go: what ReadPreamble makes of a frame, whole or cut.
use coen.Base.{
  ℕ, ◌≤◌, ◌<◌, ◌≡◌, refl, sym, ap, ◌∙◌, Bool, true, false, Option, none, some, [], ◌∷◌, ◌++◌, arith,
  length, length-append, take-length-append, drop-length-append, if◌then◌else◌, ltb, leb, Bytes,
  ◌⊎◌, inl, inr,
}
use coen.Tunnel.Preamble.{
  Preamble, Json, ReadError, eof, unexpected_eof, other_read_error, Reader, PreambleError,
  too_large, read_error, fails, reads, max_preamble, put_uint16, uint16, cut_short, read_full,
  encode_json, encode_preamble, body_error, decode_body, read_body, read_preamble,
}

abbrev reader : Bytes → ReadError → Reader
reader s e = record { left = s; then_error = e }

read_full_all :
    (n : ℕ) (xs rest : Bytes) (e : ReadError)
    → n ≡ length xs
    → read_full n (reader (xs ++ rest) e) ≡ (reader rest e, inr xs)
unfolding read_full
read_full_all n xs rest e h = rw (h, fits, take-length-append xs rest, drop-length-append xs rest)
  where
    fits : leb (length xs) (length (xs ++ rest)) ≡ true
    fits = ground (arith, length-append xs rest)

read_full_cut :
    (n x : ℕ) (xs : Bytes) (e : ReadError)
    → length (x ∷ xs) < n
    → read_full n (reader (x ∷ xs) e) ≡ (reader [] e, inl (cut_short e))
unfolding read_full
read_full_cut n x xs e h = rw (short, some_left)
  where
    short : leb n (length (x ∷ xs)) ≡ false
    short = ground arith

    some_left : leb (length (x ∷ xs)) 0 ≡ false
    some_left = ground arith

read_full_none : (n : ℕ) (e : ReadError) → 0 < n → read_full n (reader [] e) ≡ (reader [] e, inl e)
unfolding read_full
read_full_none n e h = rw short
  where
    short : leb n 0 ≡ false
    short = ground arith

uint16_of_put : (n : ℕ) → n ≤ max_preamble → uint16 (put_uint16 n) ≡ n
unfolding uint16 put_uint16
uint16_of_put n h = omega arith

-- A frame, as EncodePreamble makes it.
encode_preamble-inr :
    (j : Json) (p : Preamble) {frame : Bytes}
    → encode_preamble j p ≡ inr frame
    → (b : Bytes) × (j.marshal p ≡ some b)
      × (length b ≤ max_preamble)
      × (frame ≡ put_uint16 (length b) ++ b)
unfolding encode_preamble encode_json
encode_preamble-inr j p {frame} h = from_json (j.marshal p) refl h
  where
    from_json :
        (m : Option Bytes)
        → j.marshal p ≡ m
        → encode_json m ≡ inr frame
        → (b : Bytes) × (j.marshal p ≡ some b)
          × (length b ≤ max_preamble)
          × (frame ≡ put_uint16 (length b) ++ b)
    from_json none q k = cc
    from_json (some b) q k =
        let (small, f) = within (ltb max_preamble (length b)) k in (b, q, ground arith, sym f)
      where
        within :
            (c : Bool)
            → if◌then◌else◌ {A = PreambleError ⊎ Bytes} c
                (inl too_large)
                (inr (put_uint16 (length b) ++ b))
              ≡ inr frame
            → (c ≡ false) × (put_uint16 (length b) ++ b ≡ frame)
        within true k = cc
        within false k = (refl, cc)

read_preamble-body :
    (j : Json) (n : ℕ) (rest : Bytes) (e : ReadError)
    → n ≤ max_preamble
    → read_preamble j (reader (put_uint16 n ++ rest) e)
      ≡ decode_body j (read_full n (reader rest e))
unfolding read_preamble read_body put_uint16
read_preamble-body j n rest e h =
    ap (read_body j) (read_full_all 2 (put_uint16 n) rest e refl) ∙ inner
  where
    inner :
        read_body j (reader rest e, inr (put_uint16 n))
        ≡ decode_body j (read_full n (reader rest e))
    inner = rw (uint16_of_put n h) (small (ltb max_preamble n) (ground arith))
      where
        small :
            (b : Bool)
            → b ≡ false
            → (if b
                then (reader rest e, fails too_large)
                else decode_body j (read_full n (reader rest e)))
              ≡ decode_body j (read_full n (reader rest e))
        small b q = rw q

-- A preamble that EncodePreamble has framed and that survives the JSON codec is read back by
-- ReadPreamble, whatever follows it on the stream, and exactly the frame is taken off the stream.
pub read_preamble-encode_preamble :
    (j : Json) (p : Preamble) {frame : Bytes} (rest : Bytes) (e : ReadError)
    → ((b : Bytes) → j.marshal p ≡ some b → j.unmarshal b ≡ some p)
    → encode_preamble j p ≡ inr frame
    → read_preamble j (record { left = frame ++ rest; then_error = e })
      ≡ (record { left = rest; then_error = e }, reads p)
unfolding decode_body put_uint16
read_preamble-encode_preamble j p {frame} rest e survives h =
    let (b, m, small, f) = encode_preamble-inr j p h in
    ap (λ s. read_preamble j (reader (s ++ rest) e)) f
    ∙ read_preamble-body j (length b) (b ++ rest) e small
    ∙ ap (decode_body j) (read_full_all (length b) b rest e refl)
    ∙ whole b (survives b m)
  where
    whole :
        (b : Bytes)
        → j.unmarshal b ≡ some p
        → decode_body j (reader rest e, inr b) ≡ (reader rest e, reads p)
    whole b q = simp q

body_error_lem : (e : ReadError) → body_error e ≡ cut_short e
unfolding body_error
body_error_lem eof = refl
body_error_lem unexpected_eof = refl
body_error_lem other_read_error = refl

body_error-cut_short : (e : ReadError) → body_error (cut_short e) ≡ cut_short e
unfolding body_error
body_error-cut_short eof = refl
body_error-cut_short unexpected_eof = refl
body_error-cut_short other_read_error = refl

put_uint16_split :
    (n : ℕ) {b s : Bytes} {x y : ℕ}
    → put_uint16 n ++ b ≡ x ∷ y ∷ s
    → (put_uint16 n ≡ x ∷ y ∷ []) × (b ≡ s)
unfolding put_uint16
put_uint16_split n e = (cc, cc)

-- A stream that ends within a frame of EncodePreamble never yields a preamble. If it ends before the
-- first byte, ReadPreamble returns the error that ended it; and if later, also that error, but
-- io.ErrUnexpectedEOF for io.EOF, so that it is not taken for a stream that was closed unused.
pub read_preamble_cut :
    (j : Json) (p : Preamble) {frame : Bytes} (got : Bytes) (c : ℕ) (missing : Bytes)
    (e : ReadError)
    → encode_preamble j p ≡ inr frame
    → frame ≡ got ++ c ∷ missing
    → (read_preamble j (record { left = got; then_error = e })).1
      ≡ fails (read_error (if leb (length got) 0 then e else cut_short e))
unfolding read_preamble read_body decode_body
read_preamble_cut j p [] c missing e h f =
    ap (λ r. (read_body j r).1) (read_full_none 2 e (omega arith))
read_preamble_cut j p (x ∷ []) c missing e h f =
    ap (λ r. (read_body j r).1) (read_full_cut 2 x [] e (omega arith))
read_preamble_cut j p {frame} (x ∷ y ∷ got) c missing e h f =
    let (b, m, small, g) = encode_preamble-inr j p h in cut_body b small (sym g ∙ f)
  where
    body_cut :
        (n : ℕ) (l : Bytes)
        → length l < n
        → (decode_body j (read_full n (reader l e))).1 ≡ fails (read_error (cut_short e))
    body_cut n [] k =
        ap (λ r. (decode_body j r).1) (read_full_none n e k)
        ∙ ap (λ d. fails (read_error d)) (body_error_lem e)
    body_cut n (z ∷ l) k =
        ap (λ r. (decode_body j r).1) (read_full_cut n z l e k)
        ∙ ap (λ d. fails (read_error d)) (body_error-cut_short e)

    some_read : (b : Bool) → b ≡ false → (if b then e else cut_short e) ≡ cut_short e
    some_read b h = rw h

    cut_body :
        (b : Bytes)
        → length b ≤ max_preamble
        → put_uint16 (length b) ++ b ≡ x ∷ y ∷ got ++ c ∷ missing
        → (read_preamble j (reader (x ∷ y ∷ got) e)).1
          ≡ fails (read_error (if leb (length (x ∷ y ∷ got)) 0 then e else cut_short e))
    cut_body b small q =
        let (hdr, body) = put_uint16_split (length b) q in
        ap (λ s. (read_preamble j (reader (s ++ got) e)).1) (sym hdr)
        ∙ ap (λ r. r.1) (read_preamble-body j (length b) got e small)
        ∙ body_cut (length b) got (ground (arith, ap length body, length-append got (c ∷ missing)))
        ∙ ap (λ d. fails (read_error d))
            (sym (some_read (leb (length (x ∷ y ∷ got)) 0) (ground arith)))
