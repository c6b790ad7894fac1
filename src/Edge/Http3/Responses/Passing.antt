-- ===== src/Edge/Http3/Responses/Passing.antt =====
-- internal/edge/http3.go, copyResponseHeader: which headers of the service's response the client gets.
use coen.Base.{
  ◌≡◌, refl, ap, ◌∙◌, sym, Bool, true, false, ◌||◌, List, [], ◌∷◌, ◌++◌, if◌then◌else◌, Bool-cases,
  inl, inr, Bytes, bytes_eq, bytes_eq→eq, append_assoc, append-nil, subst, codes,
}
use coen.Edge.Http3.Heads.{Field, hop_headers, one_of}
use coen.Edge.Http3.Responses.{
  values_named, dropped_names, add_field, copy_fields, copy_response_header,
}

-- All values under a name.
pub all_named : Bytes → List Field → List Bytes
all_named k [] = []
all_named k (f ∷ fs) = if bytes_eq f.name k then f.values ++ all_named k fs else all_named k fs

-- What the client's header has under `k`, for the names that Connection lists.
pub passed : List Bytes → Bytes → List Field → List Field → List Bytes
passed names k dst src =
    if one_of names k || one_of hop_headers k
    then values_named k dst
    else values_named k dst ++ all_named k src

other_name : (a b k : Bytes) → bytes_eq a b ≡ false → bytes_eq a k ≡ true → bytes_eq b k ≡ false
other_name a b k e h = elim (Bool-cases (bytes_eq b k)) [
  | inr n ↦ n
  | inl q ↦ absurd (cc (bytes_eq→eq b k q))
]

values_named-add_field :
    (k : Bytes) (f : Field) (dst : List Field)
    → values_named k (add_field f dst)
      ≡ (if bytes_eq f.name k then values_named k dst ++ f.values else values_named k dst)
unfolding values_named add_field
values_named-add_field k f [] = elim (Bool-cases (bytes_eq f.name k)) [
  | inl e ↦ rw e refl
  | inr e ↦ rw e refl
]
values_named-add_field k f (g ∷ dst) = elim (Bool-cases (bytes_eq g.name f.name)) [
  | inl e ↦ elim (Bool-cases (bytes_eq f.name k)) [
    | inl h ↦ rw (e, h, bytes_eq→eq g.name f.name e) (rw (h) refl)
    | inr h ↦ rw (e, h, bytes_eq→eq g.name f.name e) (rw (h) refl)
  ]
  | inr e ↦ elim (Bool-cases (bytes_eq g.name k)) [
    | inl h ↦ rw (e, h, other_name g.name f.name k e h) refl
    | inr h ↦ rw (e, h) (values_named-add_field k f dst)
  ]
]

all_named_same :
    (k : Bytes) (f : Field) (fs : List Field)
    → bytes_eq f.name k ≡ true
    → all_named k (f ∷ fs) ≡ f.values ++ all_named k fs
unfolding all_named
all_named_same k f fs e = rw e refl

all_named_other :
    (k : Bytes) (f : Field) (fs : List Field)
    → bytes_eq f.name k ≡ false
    → all_named k (f ∷ fs) ≡ all_named k fs
unfolding all_named
all_named_other k f fs e = rw e refl

abbrev stops : List Bytes → Bytes → Bool
stops names k = one_of names k || one_of hop_headers k

passed_stopped :
    (names : List Bytes) (k : Bytes) (dst src : List Field)
    → stops names k ≡ true
    → passed names k dst src ≡ values_named k dst
unfolding passed
passed_stopped names k dst src e = rw e refl

passed_kept :
    (names : List Bytes) (k : Bytes) (dst src : List Field)
    → stops names k ≡ false
    → passed names k dst src ≡ values_named k dst ++ all_named k src
unfolding passed
passed_kept names k dst src e = rw e refl

-- A field more in the response, by whether it stops and whether it is one of `k`.
passed-stopped_field :
    (names : List Bytes) (k : Bytes) (f : Field) (dst src : List Field)
    → stops names f.name ≡ true
    → passed names k dst src ≡ passed names k dst (f ∷ src)
passed-stopped_field names k f dst src e = elim (Bool-cases (bytes_eq f.name k)) [
  | inl h ↦
      let e' = subst (λ n. stops names n ≡ true) (bytes_eq→eq f.name k h) e in
      passed_stopped names k dst src e' ∙ sym (passed_stopped names k dst (f ∷ src) e')
  | inr h ↦ unfold passed in rw (all_named_other k f src h) refl
]

passed-kept_field :
    (names : List Bytes) (k : Bytes) (f : Field) (dst src : List Field)
    → stops names f.name ≡ false
    → passed names k (add_field f dst) src ≡ passed names k dst (f ∷ src)
passed-kept_field names k f dst src e = elim (Bool-cases (bytes_eq f.name k)) [
  | inl h ↦
      let e' = subst (λ n. stops names n ≡ false) (bytes_eq→eq f.name k h) e in
      passed_kept names k (add_field f dst) src e'
      ∙ rw (values_named-add_field k f dst, h)
          (append_assoc (values_named k dst) f.values (all_named k src))
      ∙ ap (λ l. values_named k dst ++ l) (sym (all_named_same k f src h))
      ∙ sym (passed_kept names k dst (f ∷ src) e')
  | inr h ↦ unfold passed in rw (values_named-add_field k f dst, h, all_named_other k f src h) refl
]

values_named-copy_fields :
    (names : List Bytes) (k : Bytes) (dst src : List Field)
    → values_named k (copy_fields names dst src) ≡ passed names k dst src
unfolding copy_fields
values_named-copy_fields names k dst [] = elim (Bool-cases (stops names k)) [
  | inl e ↦ sym (passed_stopped names k dst [] e)
  | inr e ↦
      sym (passed_kept names k dst [] e ∙ (unfold all_named in append-nil (values_named k dst)))
]
values_named-copy_fields names k dst (f ∷ fs) = elim (Bool-cases (stops names f.name)) [
  | inl e ↦ rw e (values_named-copy_fields names k dst fs ∙ passed-stopped_field names k f dst fs e)
  | inr e ↦
      rw e (
        values_named-copy_fields names k (add_field f dst) fs
        ∙ passed-kept_field names k f dst fs e)
]

-- What the client's header has under a name once copyResponseHeader has copied the service's response:
-- what it had before, when the name is a header of the connection itself or one that the response's
-- Connection header lists, and else that followed by every value of the response under the name.
pub values_named-copy_response_header :
    (canonical : Bytes → Bytes) (k : Bytes) (dst src : List Field)
    → values_named k (copy_response_header canonical dst src)
      ≡ passed (dropped_names canonical (values_named (codes "Connection") src)) k dst src
unfolding copy_response_header
values_named-copy_response_header canonical k dst src =
    values_named-copy_fields (dropped_names canonical (values_named (codes "Connection") src)) k dst
      src
