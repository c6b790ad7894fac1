-- ===== src/Edge/Http3/Bodies/Chunked.antt =====
-- Reading a chunked body (RFC 9112, section 7.1), and what sendBody's loop writes for it.
use coen.Base.{
  ℕ, zero, suc, ◌+◌, ◌<◌, ◌≡◌, refl, ap, ◌∙◌, Bool, true, false, ◌&&◌, Option, none, some, List, [],
  ◌∷◌, ◌++◌, if◌then◌else◌, ltb, ◌==◌, arith, Bytes, append_assoc, Bool-cases, inl, inr, length,
  take, drop, length-append, drop-length-append, take-length-append, All, codes,
}
use coen.Edge.Http3.Heads.{crlf}
use coen.Edge.Http3.Bodies.{BodyEnd, at_eof, broken_off, concat, hex, fuel_hex, chunk, send_chunks}
use coen.Edge.Http3.Bodies.Hex.{read_hex, read_hex-hex, hex_limit}

abbrev pub drop_crlf : Bytes → Option Bytes
drop_crlf (c ∷ d ∷ s) = if c == 13 && d == 10 then some s else none
drop_crlf _ = none

-- Where a reader of lines stands.
pub data Place : Type 0 where
  line_start blank_return inside : Place

abbrev pub next_place : Place → ℕ → Place
next_place line_start c = if c == 13 then blank_return else if c == 10 then line_start else inside
next_place _ c = if c == 10 then line_start else inside

abbrev pub ends_blank : Place → ℕ → Bool
ends_blank blank_return c = c == 10
ends_blank _ c = false

-- The lines of the trailers, up to the blank one.
unfoldable pub skip_lines : Place → Bytes → Option Bytes
skip_lines p [] = none
skip_lines p (c ∷ s) = if ends_blank p c then some s else skip_lines (next_place p c) s

abbrev pub with_data : Bytes → Option (Bytes × Bytes) → Option (Bytes × Bytes)
with_data d none = none
with_data d (some (e, rest)) = some (d ++ e, rest)

pub decode_rest : (Bytes → Option (Bytes × Bytes)) → Bytes → Option Bytes → Option (Bytes × Bytes)
decode_rest more d none = none
decode_rest more d (some s) = with_data d (more s)

abbrev pub at_end : Option Bytes → Option (Bytes × Bytes)
at_end none = none
at_end (some rest) = some ([], rest)

pub decode_data : (Bytes → Option (Bytes × Bytes)) → ℕ → Option Bytes → Option (Bytes × Bytes)
unfolding decode_rest skip_lines
decode_data more n none = none
decode_data more n (some s) =
    if n == 0
    then at_end (skip_lines line_start s)
    else if ltb (length s) n
    then none
    else decode_rest more (take n s) (drop_crlf (drop n s))

pub decode : ℕ → Bytes → Option (Bytes × Bytes)
unfolding decode_data
decode zero s = none
decode (suc f) s = let (n, s') = read_hex s 0 in decode_data (decode f) n (drop_crlf s')

chunk_parts : (c s : Bytes) → chunk c ++ s ≡ hex fuel_hex (length c) ++ (crlf ++ (c ++ (crlf ++ s)))
unfolding chunk
chunk_parts c s = simp append_assoc

stops_at_cr : (s : Bytes) (n : ℕ) → read_hex (crlf ++ s) n ≡ (n, crlf ++ s)
unfolding read_hex
stops_at_cr s n = refl

read_size :
    (c s : Bytes)
    → length c < hex_limit fuel_hex
    → read_hex (chunk c ++ s) 0 ≡ (length c, crlf ++ (c ++ (crlf ++ s)))
read_size c s h =
    ap (λ b. read_hex b 0) (chunk_parts c s)
    ∙ read_hex-hex fuel_hex (length c) (crlf ++ (c ++ (crlf ++ s))) h
    ∙ stops_at_cr (c ++ (crlf ++ s)) (length c)

decode_data-some :
    (more : Bytes → Option (Bytes × Bytes)) (c s : Bytes)
    → 0 < length c
    → decode_data more (length c) (some (c ++ (crlf ++ s))) ≡ with_data c (more s)
unfolding decode_data decode_rest
decode_data-some more c s h =
    let positive : (length c == 0) ≡ false = ground arith in
    let enough : ltb (length (c ++ (crlf ++ s))) (length c) ≡ false =
      ground (arith, length-append c (crlf ++ s)) in
    rw (positive, enough, drop-length-append c (crlf ++ s), take-length-append c (crlf ++ s)) refl

-- One chunk before the rest.
decode-chunk :
    (f : ℕ) (c s : Bytes)
    → 0 < length c
    → length c < hex_limit fuel_hex
    → decode (suc f) (chunk c ++ s) ≡ with_data c (decode f s)
unfolding decode
decode-chunk f c s h l = rw (read_size c s l) (decode_data-some (decode f) c s h)

-- The last, empty chunk, and what follows it.
decode-last :
    (f : ℕ) (s : Bytes)
    → decode (suc f) ((codes "0" ++ crlf) ++ s) ≡ at_end (skip_lines line_start s)
unfolding decode decode_data read_hex
decode-last f s = refl

-- The reads of the loop's buffer.
abbrev pub IsBuffered : List Bytes → Type 0
IsBuffered = All (λ c. length c < hex_limit fuel_hex)

pub decode-send_chunks :
    (writes : ℕ → Bool) (k : ℕ) (tail : Bytes) (cs : List Bytes) (end : BodyEnd) (f : ℕ)
    (s rest : Bytes)
    → IsBuffered cs
    → length cs < f
    → skip_lines line_start (tail ++ s) ≡ some rest
    → (send_chunks writes k tail cs end).succeeds ≡ true
    → decode f ((send_chunks writes k tail cs end).out ++ s) ≡ some (concat cs, rest)
unfolding send_chunks
decode-send_chunks writes k tail cs end zero s rest b l t h = absurd (omega arith)
decode-send_chunks writes k tail [] broken_off (suc f) s rest b l t h = cc
decode-send_chunks writes k tail [] at_eof (suc f) s rest b l t h = elim (Bool-cases (writes k)) [
  | inr e ↦ absurd (ground (arith, h, e))
  | inl e ↦ elim (Bool-cases (writes (k + 1))) [
    | inr d ↦ absurd (ground (arith, h, e, d))
    | inl d ↦ rw (e, d) (decode-last f (tail ++ s) ∙ ap at_end t)
  ]
]
decode-send_chunks writes k tail ([] ∷ cs) end (suc f) s rest b l t h =
    decode-send_chunks writes k tail cs end (suc f) s rest b.1 (omega arith) t h
decode-send_chunks writes k tail ((x ∷ xs) ∷ cs) end (suc f) s rest b l t h =
    elim (Bool-cases (writes k)) [
      | inr e ↦ absurd (ground (arith, h, e))
      | inl e ↦
          let more = send_chunks writes (suc k) tail cs end in
          rw e (
            ap (decode (suc f)) (append_assoc (chunk (x ∷ xs)) more.out s)
            ∙ decode-chunk f (x ∷ xs) (more.out ++ s) (omega arith) b.0
            ∙ ap (with_data (x ∷ xs)) (
                decode-send_chunks writes (suc k) tail cs end f s rest b.1 (omega arith) t
                  (rw e at h)))
    ]
