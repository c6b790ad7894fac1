-- ===== src/Edge/Head/Splits.antt =====
-- internal/edge/http.go, readRequestHead: how a head arrives makes no difference to its host.
use coen.Base.{
  ℕ, zero, suc, ◌+◌, ◌≤◌, ◌<◌, ◌≡◌, refl, sym, ap, ◌∙◌, subst, Bool, true, false, not, ◌&&◌, Option,
  none, some, List, [], ◌∷◌, ◌++◌, append-nil, append_assoc, arith, map, length, length-append,
  take, drop, if◌then◌else◌, ltb, leb, ◌==◌, Bytes, has_prefix, ◌⊎◌, inl, inr, Bool-cases,
  Option-cases,
}
use coen.Edge.Head.{
  HostError, ConnError, Read, HeadError, head_too_long, blank_line, index_blank, is_empty,
  head_error, with_host, find_end, parse_host, read_head, read_request_head,
}

-- A prefix test looks no further than the prefix.
has_prefix-append : (s t p : Bytes) → length p ≤ length s → has_prefix (s ++ t) p ≡ has_prefix s p
unfolding has_prefix
has_prefix-append s t [] h = refl
has_prefix-append [] t (b ∷ p) h = absurd (omega arith)
has_prefix-append (c ∷ s) t (b ∷ p) h =
    ap (λ r. c == b && r) (has_prefix-append s t p (omega arith))

has_prefix-length : (s p : Bytes) → has_prefix s p ≡ true → length p ≤ length s
unfolding has_prefix
has_prefix-length s [] h = omega arith
has_prefix-length [] (b ∷ p) h = cc
has_prefix-length (c ∷ s) (b ∷ p) h = ground (arith, has_prefix-length s p)

-- The first blank line of a text stays the first when more follows.
record Found (s t : Bytes) (i : ℕ) : Type 0 where
  room : i + 4 ≤ length s
  same : index_blank (s ++ t) ≡ some i
  before : take i (s ++ t) ≡ take i s

some-suc :
    (o : Option ℕ) (i : ℕ)
    → elim o as (λ _. Option ℕ) [ none ↦ none | some j ↦ some (suc j) ] ≡ some i
    → (j : ℕ) × (o ≡ some j) × (i ≡ suc j)
some-suc none i e = cc
some-suc (some j) i e = (j, refl, cc)

index_blank-Found : (s t : Bytes) (i : ℕ) → index_blank s ≡ some i → Found s t i
unfolding index_blank
index_blank-Found [] t i e = cc
index_blank-Found (c ∷ s) t i e = elim (Bool-cases (has_prefix (c ∷ s) blank_line)) [
  | inl h ↦
      let first : 0 ≡ i = coen.Base.some_inj (rw h at e) in
      let room = has_prefix-length (c ∷ s) blank_line h in
      subst (Found (c ∷ s) t) first (record {
        room = room;
        same = rw (has_prefix-append (c ∷ s) t blank_line room, h);
        before = refl;
      })
  | inr h ↦
      let (j, f, g) = some-suc (index_blank s) i (rw h at e) in
      let rest = index_blank-Found s t j f in
      subst (Found (c ∷ s) t) (sym g) (record {
        room = ground (arith, rest.room);
        same =
            rw (has_prefix-append (c ∷ s) t blank_line (ground (arith, rest.room)), h, rest.same);
        before = ap (◌∷◌ c) rest.before;
      })
]

abbrev pub concat : List Bytes → Bytes
concat [] = []
concat (c ∷ cs) = c ++ concat cs

abbrev pub unbroken : Bytes → Read
unbroken c = record { got = c; error = none }

-- The result for a request whose first blank line is at `i`: the bytes read so far, which are a
-- beginning of it, and the host of what stands before the blank line.
pub record IsHeadOf (req : Bytes) (i : ℕ) (r : Option (HeadError ⊎ (Bytes × Bytes))) : Type 0 where
  pub head : Bytes
  pub after : Bytes
  pub whole : head ++ after ≡ req
  pub returns : r ≡ some (with_host head (parse_host (take i req)))

found-IsHeadOf :
    (buf after req : Bytes) (k i : ℕ)
    → buf ++ after ≡ req
    → index_blank req ≡ some i
    → index_blank buf ≡ some k
    → IsHeadOf req i (some (with_host buf (parse_host (take k buf))))
found-IsHeadOf buf after req k i w e f =
    let found = index_blank-Found buf after k f in
    let same : k ≡ i = coen.Base.some_inj (sym found.same ∙ (ap index_blank w ∙ e)) in
    record {
      head = buf;
      after = after;
      whole = w;
      returns =
          ap (λ b. some (with_host buf (parse_host b)))
            (sym found.before ∙ (ap (take k) w ∙ ap (λ j. take j req) same));
    }

read_head-IsHeadOf :
    (limit : ℕ) (req : Bytes) (i : ℕ) (chunks : List Bytes) (buf : Bytes)
    → index_blank req ≡ some i
    → length req ≤ limit
    → index_blank buf ≡ none
    → buf ++ concat chunks ≡ req
    → IsHeadOf req i (read_head limit buf (map unbroken chunks))
unfolding read_head find_end
read_head-IsHeadOf limit req i [] buf e h n w =
    absurd (clash (index_blank req) (ap index_blank (sym w ∙ append-nil buf) ∙ n) e)
  where
    clash : (o : Option ℕ) → o ≡ none → o ≡ some i → ⊥
    clash none p q = cc
    clash (some j) p q = cc
read_head-IsHeadOf limit req i ([] ∷ cs) buf e h n w =
    subst (λ b. IsHeadOf req i (read_head limit b (map unbroken cs))) (sym (append-nil buf))
      (read_head-IsHeadOf limit req i cs buf e h n w)
read_head-IsHeadOf limit req i ((x ∷ c) ∷ cs) buf e h n w =
    let joined : (buf ++ x ∷ c) ++ concat cs ≡ req = append_assoc buf (x ∷ c) (concat cs) ∙ w in
    let fits : ltb limit (length (buf ++ x ∷ c)) ≡ false =
      ground (arith, h, ap length joined, length-append (buf ++ x ∷ c) (concat cs)) in
    elim (Option-cases (index_blank (buf ++ x ∷ c))) [
      | inr (k, f) ↦ rw (fits, f) (found-IsHeadOf (buf ++ x ∷ c) (concat cs) req k i joined e f)
      | inl f ↦ rw (fits, f) (read_head-IsHeadOf limit req i cs (buf ++ x ∷ c) e h f joined)
    ]

-- A request with a blank line and no longer than the limit is read to a result however it is cut into
-- reads, empty ones included: the host, or the error of its Host fields, is the one that parseHost
-- gives for what stands before the first blank line, whatever the cuts, and the bytes returned are a
-- beginning of the request.
pub read_request_head_splits :
    (limit : ℕ) (req : Bytes) (i : ℕ) (chunks : List Bytes)
    → index_blank req ≡ some i
    → length req ≤ limit
    → concat chunks ≡ req
    → IsHeadOf req i (read_request_head limit (map unbroken chunks))
unfolding read_request_head index_blank
read_request_head_splits limit req i chunks e h w =
    read_head-IsHeadOf limit req i chunks [] e h refl w

-- What readRequestHead has read when it returns.
pub data HeadRead (limit : ℕ) (buf : Bytes) : HeadError ⊎ (Bytes × Bytes) → Type 0 where
  accepted :
      (i : ℕ) (host : Bytes)
      → length buf ≤ limit
      → index_blank buf ≡ some i
      → parse_host (take i buf) ≡ inr host
      → HeadRead limit buf (inr (buf, host))
  misrouted :
      (i : ℕ) (e : HostError)
      → length buf ≤ limit
      → index_blank buf ≡ some i
      → parse_host (take i buf) ≡ inl e
      → HeadRead limit buf (inl (coen.Edge.Head.bad_host e))
  too_long : limit < length buf → HeadRead limit buf (inl head_too_long)
  broken : (e : ConnError) → length buf ≤ limit → HeadRead limit buf (inl (head_error buf e))

with_host-HeadRead :
    (limit : ℕ) (buf : Bytes) (i : ℕ)
    → length buf ≤ limit
    → index_blank buf ≡ some i
    → HeadRead limit buf (with_host buf (parse_host (take i buf)))
with_host-HeadRead limit buf i h e = from_host (parse_host (take i buf)) refl
  where
    from_host :
        (r : HostError ⊎ Bytes) → parse_host (take i buf) ≡ r → HeadRead limit buf (with_host buf r)
    from_host (inl x) q = misrouted i x h e q
    from_host (inr x) q = accepted i x h e q

-- The result of the reads.
abbrev pub EndsWith : ℕ → Option (HeadError ⊎ (Bytes × Bytes)) → Type 0
EndsWith limit none = Unit
EndsWith limit (some r) = (buf : Bytes) × HeadRead limit buf r

fits_limit :
    (limit : ℕ) (got buf : Bytes)
    → length buf ≤ limit
    → (not (is_empty got) && ltb limit (length (buf ++ got))) ≡ false
    → length (buf ++ got) ≤ limit
fits_limit limit [] buf h l = ground (arith, h, length-append buf [])
fits_limit limit (x ∷ got) buf h l = ground arith

find_end-some : (got buf : Bytes) (i : ℕ) → find_end got buf ≡ some i → index_blank buf ≡ some i
unfolding find_end
find_end-some [] buf i e = cc
find_end-some (x ∷ got) buf i e = e

read_head-EndsWith :
    (limit : ℕ) (reads : List Read) (buf : Bytes)
    → length buf ≤ limit
    → EndsWith limit (read_head limit buf reads)
unfolding read_head
read_head-EndsWith limit [] buf h = tt
read_head-EndsWith limit (r ∷ rs) buf h =
    elim (Bool-cases (not (is_empty r.got) && ltb limit (length (buf ++ r.got)))) [
      | inl l ↦ simp l (buf ++ r.got, too_long (ground arith))
      | inr l ↦
          let room = fits_limit limit r.got buf h l in
          elim (Option-cases (find_end r.got (buf ++ r.got))) [
            | inr (i, f) ↦
                simp (l, f)
                  (
                    buf ++ r.got,
                    with_host-HeadRead limit (buf ++ r.got) i room
                        (find_end-some r.got (buf ++ r.got) i f),
                  )
            | inl f ↦ elim (Option-cases r.error) [
              | inl n ↦ simp (l, f, n) (read_head-EndsWith limit rs (buf ++ r.got) room)
              | inr (e, n) ↦ simp (l, f, n) (buf ++ r.got, broken e room)
            ]
          ]
    ]

ended :
    (limit : ℕ) (reads : List Read) (buf : Bytes) (r : HeadError ⊎ (Bytes × Bytes))
    → length buf ≤ limit
    → read_head limit buf reads ≡ some r
    → (b : Bytes) × HeadRead limit b r
ended limit reads buf r h e = subst (EndsWith limit) e (read_head-EndsWith limit reads buf h)

-- Whatever the reads return, readRequestHead accepts only bytes within the limit with a blank line, of
-- which parseHost gives the host by what stands before the first one. Its other results are the
-- error of the Host fields of such bytes, that more bytes than the limit have been read, and the
-- error of the connection within the limit.
pub read_request_head-HeadRead :
    (limit : ℕ) (reads : List Read) (r : HeadError ⊎ (Bytes × Bytes))
    → read_request_head limit reads ≡ some r
    → (buf : Bytes) × HeadRead limit buf r
unfolding read_request_head
read_request_head-HeadRead limit reads r e = ended limit reads [] r (omega arith) e
