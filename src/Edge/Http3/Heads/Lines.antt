-- ===== src/Edge/Http3/Heads/Lines.antt =====
-- internal/edge/http3.go, http1Lines: no name or value of an HTTP/3 request can add a line to the head, and
-- no header of the connection crosses.
use coen.Base.{
  ◌≡◌, ◌≢◌, refl, ap, ◌∙◌, sym, Bool, true, false, not, ◌&&◌, ◌||◌, inl, inr, Option, none, some,
  List, [], ◌∷◌, ◌++◌, ◌==◌, arith, Bool-cases, Bytes, All, All-append, exists, append_assoc,
  append-nil, subst, some_inj, codes, bytes_eq, length, ltb, if◌then◌else◌, to_lower,
}
use mathlib.Core.List.{Perm}
use coen.Base.Sorting.{
  sort_by, sort_by-Perm, sort_by-IsSortedBy, IsSortedBy, bytes_lt_asym, bytes_lt_cotrans,
}
use coen.Edge.Http3.Heads.{
  Guts, Field, HttpRequest, is_empty, stays_back, hop_headers, join_with, field_values, line,
  guarded, both, value_lines, field_lines, header_lines, name_less, request_target, is_target,
  request_line, http1_lines,
}

-- Bytes that cannot end a line.
abbrev pub IsInline : Bytes → Type 0
IsInline = All (λ c. (c ≢ 13) × (c ≢ 10))

-- What the checks of net/http and httpguts say.
pub record Checks (g : Guts) : Type 0 where
  pub host_inline : (s : Bytes) → g.valid_host s ≡ true → IsInline s
  pub value_inline : (s : Bytes) → g.valid_value s ≡ true → IsInline s
  pub name_inline : (s : Bytes) → g.valid_name s ≡ true → IsInline s
  pub canonical_inline : (s : Bytes) → IsInline s → IsInline (g.canonical s)

-- A line of the head after the first two.
pub record HeaderLine : Type 0 where
  pub name : Bytes
  pub value : Bytes

-- The names that stay back.
abbrev pub stay_names : List Bytes
stay_names = codes "Host" ∷ codes "Content-Length" ∷ hop_headers

-- What http.CanonicalHeaderKey does to valid names: it changes nothing but their case, gives two
-- names that differ only in case one form, and leaves the names above, which have that form.
pub record Canonicalizes (g : Guts) : Type 0 where
  pub keeps_letters : (s : Bytes) → to_lower (g.canonical s) ≡ to_lower s
  pub folds_case :
      (s t : Bytes)
      → g.valid_name s ≡ true
      → g.valid_name t ≡ true
      → to_lower s ≡ to_lower t
      → g.canonical s ≡ g.canonical t
  pub knows : All (λ k. (g.valid_name k ≡ true) × (g.canonical k ≡ k)) stay_names

-- In no case the name of a header that stays back.
abbrev pub IsForeign : Bytes → Type 0
IsForeign name = All (λ k. to_lower name ≢ to_lower k) stay_names

abbrev pub IsCrossing : HeaderLine → Type 0
IsCrossing l = IsInline l.name × IsInline l.value × IsForeign l.name

-- The lines for one field: one for each value, but cookies share one.
pub lines_of : Bytes → List Bytes → List HeaderLine
lines_of ck [] = []
lines_of ck (v ∷ vs) = record { name = ck; value = v } ∷ lines_of ck vs

pub line_values : Bytes → List Bytes → List Bytes
line_values ck vs =
    if bytes_eq ck (codes "Cookie") && ltb 1 (length vs) then join_with (codes "; ") vs ∷ [] else vs

pub field_headers : Guts → Field → List HeaderLine
field_headers g f =
    if stays_back (g.canonical f.name)
    then []
    else lines_of (g.canonical f.name) (line_values (g.canonical f.name) f.values)

pub crossing_headers : Guts → List Field → List HeaderLine
crossing_headers g [] = []
crossing_headers g (f ∷ fs) = field_headers g f ++ crossing_headers g fs

abbrev pub printed : List HeaderLine → Bytes
printed [] = []
printed (l ∷ ls) = line l.name l.value ++ printed ls

printed-append : (ls ms : List HeaderLine) → printed (ls ++ ms) ≡ printed ls ++ printed ms
printed-append [] ms = refl
printed-append (l ∷ ls) ms =
    ap (λ b. line l.name l.value ++ b) (printed-append ls ms)
    ∙ sym (append_assoc (line l.name l.value) (printed ls) (printed ms))

record Prints (ls : List HeaderLine) (b : Bytes) : Type 0 where
  same : b ≡ printed ls
  crossing : All IsCrossing ls

both-Prints :
    (x y : Option Bytes) (ls ms : List HeaderLine) {b : Bytes}
    → ((a : Bytes) → x ≡ some a → Prints ls a)
    → ((a : Bytes) → y ≡ some a → Prints ms a)
    → both x y ≡ some b
    → Prints (ls ++ ms) b
unfolding both
both-Prints (some a) (some a') ls ms h k e =
    let p = h a refl in
    let q = k a' refl in
    record {
      same =
          sym (some_inj e)
          ∙ ap (λ x. x ++ a') p.same
          ∙ ap (λ x. printed ls ++ x) q.same
          ∙ sym (printed-append ls ms);
      crossing = All-append IsCrossing ls ms p.crossing q.crossing;
    }
both-Prints (some a) none ls ms h k e = absurd (cc)
both-Prints none y ls ms h k e = absurd (cc)

guarded-some :
    (ok : Bool) (x : Option Bytes) {b : Bytes} → guarded ok x ≡ some b → (ok ≡ true) × (x ≡ some b)
unfolding guarded
guarded-some true x e = (refl, e)
guarded-some false x e = absurd (cc)

field_values-line_values : (ck : Bytes) (vs : List Bytes) → field_values ck vs ≡ line_values ck vs
unfolding field_values line_values
field_values-line_values ck [] = ground arith
field_values-line_values ck (v ∷ []) = ground arith
field_values-line_values ck (v ∷ w ∷ vs) = ground arith

stay_back : All (λ k. stays_back k ≡ true) stay_names
unfolding bytes_eq
stay_back = (refl, (refl, (refl, (refl, (refl, (refl, (refl, (refl, (refl, tt)))))))))

module _ (g : Guts) (c : Checks g) (z : Canonicalizes g) where
  open c use {value_inline, name_inline, canonical_inline}
  open z use {keeps_letters, folds_case, knows}

  -- By one name that stays back after the other.
  foreign_to :
      (name : Bytes) (ks : List Bytes)
      → g.valid_name name ≡ true
      → stays_back (g.canonical name) ≡ false
      → All (λ k. (g.valid_name k ≡ true) × (g.canonical k ≡ k)) ks
      → All (λ k. stays_back k ≡ true) ks
      → All (λ k. to_lower (g.canonical name) ≢ to_lower k) ks
  foreign_to name [] v n a b = tt
  foreign_to name (k ∷ ks) v n a b = (
    λ q.
        let same = folds_case name k v a.0.0 (sym (keeps_letters name) ∙ q) ∙ a.0.1 in
        absurd (cc (n, b.0, same)),
    foreign_to name ks v n a.1 b.1,
  )

  value_lines-Prints :
      (ck : Bytes) (vs : List Bytes)
      → IsInline ck
      → IsForeign ck
      → (b : Bytes) → value_lines g ck vs ≡ some b
      → Prints (lines_of ck vs) b
  unfolding value_lines lines_of
  value_lines-Prints ck [] i h b e = record { same = sym (some_inj e); crossing = tt }
  value_lines-Prints ck (v ∷ vs) i h b e =
      let (ok, e') = guarded-some (g.valid_value v) _ e in
      both-Prints (some (line ck v)) (value_lines g ck vs) (record { name = ck; value = v } ∷ [])
        (lines_of ck vs)
        (λ a q. record {
          same = sym (some_inj q) ∙ sym (append-nil (line ck v));
          crossing = ((i, value_inline v ok, h), tt);
        })
        (value_lines-Prints ck vs i h) e'

  field_lines-Prints :
      (f : Field) (b : Bytes) → field_lines g f ≡ some b → Prints (field_headers g f) b
  unfolding field_lines field_headers
  field_lines-Prints f b e = elim (Bool-cases (stays_back (g.canonical f.name))) [
    | inl s ↦ rw s (record { same = sym (some_inj (rw s at e)); crossing = tt })
    | inr s ↦
        let ck = g.canonical f.name in
        let (ok, e') = guarded-some (g.valid_name f.name) _ (rw s at e) in
        rw s (
          value_lines-Prints ck (line_values ck f.values)
            (canonical_inline f.name (name_inline f.name ok))
            (foreign_to f.name stay_names ok s knows stay_back) b
            (subst (λ vs. value_lines g ck vs ≡ some b) (field_values-line_values ck f.values) e'))
  ]

  header_lines-Prints :
      (fs : List Field) (b : Bytes) → header_lines g fs ≡ some b → Prints (crossing_headers g fs) b
  unfolding header_lines crossing_headers
  header_lines-Prints [] b e = record { same = sym (some_inj e); crossing = tt }
  header_lines-Prints (f ∷ fs) b e =
      both-Prints (field_lines g f) (header_lines g fs) (field_headers g f) (crossing_headers g fs)
        (field_lines-Prints f) (header_lines-Prints fs) e

no_breaks :
    (t : Bytes) → exists (λ c. c == 32 || (c == 13 || (c == 10 || c == 9))) t ≡ false → IsInline t
no_breaks [] e = tt
no_breaks (c ∷ t) e = (ground arith, no_breaks t (ground arith))

is_target-IsInline : (t : Bytes) → is_target t ≡ true → IsInline t
unfolding is_target
is_target-IsInline t e = no_breaks t (ground arith)

pub record IsHead (g : Guts) (r : HttpRequest) (b : Bytes) : Type 0 where
  pub verb_inline : IsInline r.verb
  pub target_inline : IsInline (request_target r)
  pub authority_inline : IsInline r.host
  pub fields : List Field
  pub permuted : Perm fields r.header
  pub sorted : IsSortedBy name_less fields
  pub whole : b ≡ request_line r ++ printed (crossing_headers g fields)
  pub crossing : All IsCrossing (crossing_headers g fields)

both-some :
    (x y : Option Bytes) {b : Bytes}
    → both x y ≡ some b
    → (a : Bytes) × (a' : Bytes) × (x ≡ some a) × (y ≡ some a') × (b ≡ a ++ a')
unfolding both
both-some (some a) (some a') e = (a, a', refl, refl, sym (some_inj e))
both-some (some a) none e = absurd (cc)
both-some none y e = absurd (cc)

-- When the checks of net/http and httpguts keep line breaks out of hosts, names and values, and
-- canonical names are as documented: a head that http1Lines renders is the request line and the Host
-- line, neither of which the method, the target or the host can end early, and then, for the fields of
-- the request sorted by name, but those that stay back, one line with the canonical name for each
-- value, where the values of a Cookie field are joined into one; none of these lines has a line break in
-- its name or its value; and none is, in any case, another Host, a Content-Length or a header of the
-- connection itself, such as Transfer-Encoding.
pub http1_lines-IsHead :
    (g : Guts)
    → Checks g
    → Canonicalizes g
    → (r : HttpRequest) (b : Bytes) → http1_lines g r ≡ some b
    → IsHead g r b
unfolding http1_lines
http1_lines-IsHead g c z r b e =
    let (h, e') = guarded-some (g.valid_host r.host && not (is_empty r.host)) _ e in
    let (v, e'') = guarded-some (g.valid_name r.verb && is_target (request_target r)) _ e' in
    let (a, a', p, q, w) = both-some (some (request_line r)) _ e'' in
    let all_printed = header_lines-Prints g c z (sort_by name_less r.header) a' q in
    record {
      verb_inline = c.name_inline r.verb (ground arith);
      target_inline = is_target-IsInline (request_target r) (ground arith);
      authority_inline = c.host_inline r.host (ground arith);
      fields = sort_by name_less r.header;
      permuted = sort_by-Perm name_less r.header;
      sorted =
          sort_by-IsSortedBy name_less (λ x y. bytes_lt_asym x.name y.name)
            (λ x y u. bytes_lt_cotrans x.name y.name u.name) r.header;
      whole =
          w ∙ ap (λ x. x ++ a') (sym (some_inj p)) ∙ ap (λ x. request_line r ++ x) all_printed.same;
      crossing = all_printed.crossing;
    }
