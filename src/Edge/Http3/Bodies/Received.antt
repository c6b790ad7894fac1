-- ===== src/Edge/Http3/Bodies/Received.antt =====
-- internal/edge/http3.go, sendBody and framed: a service that reads a body as its head announces it gets
-- the client's body.
use coen.Base.{
  ℕ, zero, suc, ◌≤◌, ◌<◌, ◌≡◌, refl, ap, ◌∙◌, subst, Bool, true, ◌&&◌, Option, none, some, List, [],
  ◌∷◌, ◌++◌, map, if◌then◌else◌, ltb, leb, arith, Bytes, append_assoc, Bool-cases, inl, inr, length,
  take, drop, length-append, take-length-append, drop-length-append, keep, All, All-append, codes,
}
use coen.Base.Int.{ℤ, pos, negsuc}
use coen.Base.Sorting.{bytes_lt, All-sort_by}
use coen.Edge.Http3.Heads.{Guts, Field, HttpRequest, crlf, line, trailer_names}
use coen.Edge.Http3.Heads.Lines.{IsInline, Checks}
use coen.Edge.Http3.Bodies.{
  Body, concat, trailer_values, values_of, trailer_lines, send_chunks, copy_n, tail_of, send_sized,
  send_body,
}
use coen.Edge.Http3.Bodies.Chunked.{
  line_start, inside, skip_lines, decode, IsBuffered, decode-send_chunks,
}

-- How a head announces its body; see framed.
pub data Announced : Type 0 where
  sized : ℕ → Announced
  chunked no_body : Announced

abbrev pub announced_length : ℤ → Announced
announced_length (negsuc n) = chunked
announced_length (pos n) = if ltb 0 n then sized n else no_body

abbrev pub announced : HttpRequest → List Bytes → Announced
announced r (t ∷ ts) = chunked
announced r [] = announced_length r.length

-- What a service reads, and what follows on the connection.
pub receive : ℕ → Announced → Bytes → Option (Bytes × Bytes)
receive fuel (sized n) s = if leb n (length s) then some (take n s, drop n s) else none
receive fuel chunked s = decode fuel s
receive fuel no_body s = some ([], s)

-- The part of the body that is to go up.
pub expected : Announced → Body → Bytes
expected (sized n) b = take n (concat b.reads)
expected chunked b = concat b.reads
expected no_body b = []

skip_inside :
    (b s : Bytes) → IsInline b → skip_lines inside (b ++ (crlf ++ s)) ≡ skip_lines line_start s
unfolding skip_lines
skip_inside [] s h = refl
skip_inside (c ∷ b) s h = ground (arith, skip_inside b s h.1)

skip_line :
    (c : ℕ) (b s : Bytes)
    → IsInline (c ∷ b)
    → skip_lines line_start ((c ∷ b) ++ (crlf ++ s)) ≡ skip_lines line_start s
unfolding skip_lines
skip_line c b s h = ground (arith, skip_inside b s h.1)

colon-IsInline : IsInline (codes ": ")
colon-IsInline = ((omega arith, omega arith), ((omega arith, omega arith), tt))

skip-line :
    (k v s : Bytes)
    → IsInline k
    → IsInline v
    → skip_lines line_start (line k v ++ s) ≡ skip_lines line_start s
unfolding line skip_lines
skip-line [] v s i j = ap (skip_lines inside) (append_assoc v crlf s) ∙ skip_inside v s j
skip-line (c ∷ k) v s i j =
    let whole : line (c ∷ k) v ++ s ≡ (c ∷ (k ++ (codes ": " ++ v))) ++ (crlf ++ s) =
      simp append_assoc in
    ap (skip_lines line_start) whole
    ∙ skip_line c (k ++ (codes ": " ++ v)) s
        (i.0, All-append _ k _ i.1 (All-append _ (codes ": ") v colon-IsInline j))

skip-trailer_values :
    (g : Guts)
    → Checks g
    → (k : Bytes) (vs : List Bytes) (s : Bytes) → IsInline k
    → skip_lines line_start (trailer_values g k vs ++ s) ≡ skip_lines line_start s
unfolding trailer_values
skip-trailer_values g c k [] s i = refl
skip-trailer_values g c k (v ∷ vs) s i = elim (Bool-cases (g.valid_value v)) [
  | inr e ↦ rw e (skip-trailer_values g c k vs s i)
  | inl e ↦ rw e (
      ap (skip_lines line_start) (append_assoc (line k v) (trailer_values g k vs) s)
      ∙ skip-line k v (trailer_values g k vs ++ s) i (c.value_inline v e)
      ∙ skip-trailer_values g c k vs s i)
]

skip-trailer_lines :
    (g : Guts)
    → Checks g
    → (fields : List Field) (ks : List Bytes) (s : Bytes) → All IsInline ks
    → skip_lines line_start (trailer_lines g fields ks ++ s) ≡ skip_lines line_start s
unfolding trailer_lines
skip-trailer_lines g c fields [] s i = refl
skip-trailer_lines g c fields (k ∷ ks) s i =
    ap (skip_lines line_start)
      (append_assoc (trailer_values g k (values_of k fields)) (trailer_lines g fields ks) s)
    ∙ skip-trailer_values g c k (values_of k fields) (trailer_lines g fields ks ++ s) i.0
    ∙ skip-trailer_lines g c fields ks s i.1

-- What a test lets through has what the test implies.
kept-IsInline :
    (g : Guts)
    → Checks g
    → (names : List Bytes) → All IsInline (keep (λ k. g.valid_name k && g.valid_trailer k) names)
kept-IsInline g c [] = tt
kept-IsInline g c (k ∷ ks) = elim (Bool-cases (g.valid_name k && g.valid_trailer k)) [
  | inl e ↦ rw e (c.name_inline k (ground arith), kept-IsInline g c ks)
  | inr e ↦ rw e (kept-IsInline g c ks)
]

trailer_names-IsInline :
    (g : Guts) → Checks g → (names : List Bytes) → All IsInline (trailer_names g names)
unfolding trailer_names
trailer_names-IsInline g c names = All-sort_by bytes_lt IsInline _ (kept-IsInline g c names)

skip_tail :
    (g : Guts)
    → Checks g
    → (later : List Field) (s : Bytes) → skip_lines line_start (tail_of g later ++ s) ≡ some s
unfolding tail_of
skip_tail g c later s =
    ap (skip_lines line_start)
      (append_assoc (trailer_lines g later (trailer_names g (map (λ f. f.name) later))) crlf s)
    ∙ skip-trailer_lines g c later _ (crlf ++ s)
        (trailer_names-IsInline g c (map (λ f. f.name) later))
    ∙ blank s
  where
    blank : (s : Bytes) → skip_lines line_start (crlf ++ s) ≡ some s
    blank s = unfold skip_lines in refl

length-take_of_le : (n : ℕ) (w : Bytes) → n ≤ length w → length (take n w) ≡ n
length-take_of_le zero w h = refl
length-take_of_le (suc n) [] h = absurd (omega arith)
length-take_of_le (suc n) (x ∷ w) h = ap suc (length-take_of_le n w (omega arith))

sized-receive :
    (fuel n : ℕ) (t s : Bytes) → length t ≡ n → receive fuel (sized n) (t ++ s) ≡ some (t, s)
unfolding receive
sized-receive fuel n t s e =
    subst (λ k. receive fuel (sized k) (t ++ s) ≡ some (t, s)) e
      (let enough : leb (length t) (length (t ++ s)) ≡ true = ground (arith, length-append t s) in
        rw (enough, take-length-append t s, drop-length-append t s) refl)

copied-receive :
    (fuel n : ℕ) (writes : ℕ → Bool) (b : Body) (s : Bytes)
    → (copy_n writes n b).succeeds ≡ true
    → receive fuel (sized n) ((copy_n writes n b).out ++ s) ≡ some (take n (concat b.reads), s)
unfolding copy_n
copied-receive fuel n writes b s h = elim (Bool-cases (writes 0)) [
  | inr e ↦ absurd (ground (arith, h, e))
  | inl e ↦
      let enough : n ≤ length (concat b.reads) = ground (arith, h, e) in
      rw e (
        sized-receive fuel n (take n (concat b.reads)) s
          (length-take_of_le n (concat b.reads) enough))
]

sent_chunks-receive :
    (writes : ℕ → Bool) (tail : Bytes) (b : Body) (s : Bytes) (fuel : ℕ)
    → skip_lines line_start (tail ++ s) ≡ some s
    → IsBuffered b.reads
    → length b.reads < fuel
    → (send_chunks writes 0 tail b.reads b.end_of_reads).succeeds ≡ true
    → receive fuel chunked ((send_chunks writes 0 tail b.reads b.end_of_reads).out ++ s)
      ≡ some (concat b.reads, s)
unfolding receive
sent_chunks-receive writes tail b s fuel t small enough h =
    decode-send_chunks writes 0 tail b.reads b.end_of_reads fuel s s small enough t h

sent_sized-receive :
    (writes : ℕ → Bool) (tail : Bytes) (b : Body) (s : Bytes) (fuel : ℕ) (len : ℤ)
    → skip_lines line_start (tail ++ s) ≡ some s
    → IsBuffered b.reads
    → length b.reads < fuel
    → (send_sized writes tail b len).succeeds ≡ true
    → receive fuel (announced_length len) ((send_sized writes tail b len).out ++ s)
      ≡ some (expected (announced_length len) b, s)
unfolding send_sized expected
sent_sized-receive writes tail b s fuel (negsuc n) t small enough h =
    sent_chunks-receive writes tail b s fuel t small enough h
sent_sized-receive writes tail b s fuel (pos n) t small enough h = elim (Bool-cases (ltb 0 n)) [
  | inl e ↦ rw e (copied-receive fuel n writes b s (rw e at h))
  | inr e ↦ rw e (unfold receive in refl)
]

-- When the checks keep line breaks out of names and values, and a write of the whole body succeeds: a
-- service that reads the body as the head has announced it, with fuel for one chunk more than there are
-- reads, gets the body that the client sent, or its first Content-Length bytes, and stands right behind
-- it, whatever follows on the connection; no read is longer than the buffer.
pub receive-send_body :
    (g : Guts)
    → Checks g
    → (writes : ℕ → Bool) (r : HttpRequest) (trailers : List Bytes) (later : List Field) (b : Body)
      (s : Bytes) (fuel : ℕ)
    → IsBuffered b.reads
    → length b.reads < fuel
    → (send_body g writes r trailers later b).succeeds ≡ true
    → receive fuel (announced r trailers) ((send_body g writes r trailers later b).out ++ s)
      ≡ some (expected (announced r trailers) b, s)
unfolding send_body expected
receive-send_body g c writes r (t ∷ ts) later b s fuel small enough h =
    sent_chunks-receive writes (tail_of g later) b s fuel (skip_tail g c later s) small enough h
receive-send_body g c writes r [] later b s fuel small enough h =
    sent_sized-receive writes (tail_of g later) b s fuel r.length (skip_tail g c later s) small
      enough h
