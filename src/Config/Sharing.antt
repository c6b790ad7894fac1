-- ===== src/Config/Sharing.antt =====
-- internal/config/load.go: what a valid configuration says of shared certificates.
use coen.Base.{
  ◌≡◌, refl, sym, ◌∙◌, subst, Bool, true, false, ◌&&◌, Option, none, some, List, [], ◌∷◌, arith, In,
  here, there, exists, Bytes, bytes_eq, bytes_eq_refl, bytes_eq→eq, update, ◌⊎◌, inl, inr,
  Bool-cases, Option-cases,
}
use coen.Config.{
  EdgeRoute, fingerprints, has_fingerprint, shared_fingerprints, RouteError, Marks, mark_all,
  check_route, first_pass, conflict, first_error, check_fingerprints, second_pass, finish_routes,
  validate_routes,
}

abbrev is_some : Option Bytes → Bool
is_some none = false
is_some (some x) = true

update-is_some :
    (m : Marks) (k v j : Bytes) → is_some (m j) ≡ true → is_some (update m k (some v) j) ≡ true
update-is_some m k v j h = elim (Bool-cases (bytes_eq k j)) [ inl e ↦ rw e | inr e ↦ rw e h ]

mark_all-is_some :
    (fps : List Bytes) (host : Bytes) (m : Marks) (j : Bytes)
    → is_some (m j) ≡ true
    → is_some (mark_all fps host m j) ≡ true
unfolding mark_all
mark_all-is_some [] host m j h = h
mark_all-is_some (fp ∷ fps) host m j h =
    mark_all-is_some fps host (update m fp (some host)) j (update-is_some m fp host j h)

mark_all_marks :
    {fp : Bytes} {fps : List Bytes} (host : Bytes) (m : Marks)
    → In fp fps
    → is_some (mark_all fps host m fp) ≡ true
unfolding mark_all
mark_all_marks {fp} host m (here {xs = fps}) =
    mark_all-is_some fps host (update m fp (some host)) fp (rw (bytes_eq_refl fp))
mark_all_marks host m (there {x = x} n) = mark_all_marks host (update m x (some host)) n

-- What the maps of the first loop hold of the routes that it has passed.
record IsMarked (rs : List EdgeRoute) (s x s' x' : Marks) : Type 0 where
  shared_stays : (j : Bytes) → is_some (s j) ≡ true → is_some (s' j) ≡ true
  exclusive_stays : (j : Bytes) → is_some (x j) ≡ true → is_some (x' j) ≡ true
  shared_marked :
      (r : EdgeRoute) (j : Bytes)
      → In r rs
      → In j (fingerprints r)
      → r.allow_shared_cert ≡ true
      → is_some (s' j) ≡ true
  exclusive_marked :
      (r : EdgeRoute) (j : Bytes)
      → In r rs
      → In j (fingerprints r)
      → r.allow_shared_cert ≡ false
      → is_some (x' j) ≡ true

In-cases :
    (P : EdgeRoute → Type 0) {r q : EdgeRoute} {rs : List EdgeRoute}
    → In r (q ∷ rs)
    → P q
    → (In r rs → P r)
    → P r
In-cases P here a f = a
In-cases P (there m) a f = f m

abbrev Passed : Type 0
Passed = RouteError ⊎ (Marks × Marks)

abbrev Marked : List EdgeRoute → Marks → Marks → Passed → Type 0
Marked rs s x (inl e) = Unit
Marked rs s x (inr (s', x')) = IsMarked rs s x s' x'

cons_shared :
    (q : EdgeRoute) (rs : List EdgeRoute) (s x : Marks) (p : Passed)
    → q.allow_shared_cert ≡ true
    → Marked rs (mark_all (fingerprints q) q.host s) x p
    → Marked (q ∷ rs) s x p
cons_shared q rs s x (inl e) a m = tt
cons_shared q rs s x (inr (s', x')) a m = record {
  shared_stays = λ j h. m.shared_stays j (mark_all-is_some (fingerprints q) q.host s j h);
  exclusive_stays = m.exclusive_stays;
  shared_marked = λ r j i k b.
      In-cases (λ r. In j (fingerprints r) → r.allow_shared_cert ≡ true → is_some (s' j) ≡ true) i
        (λ k' b'. m.shared_stays j (mark_all_marks q.host s k'))
        (λ i' k' b'. m.shared_marked r j i' k' b') k b;
  exclusive_marked = λ r j i k b.
      In-cases (λ r. In j (fingerprints r) → r.allow_shared_cert ≡ false → is_some (x' j) ≡ true) i
        (λ k' b'. absurd (ground arith)) (λ i' k' b'. m.exclusive_marked r j i' k' b') k b;
}

cons_exclusive :
    (q : EdgeRoute) (rs : List EdgeRoute) (s x : Marks) (p : Passed)
    → q.allow_shared_cert ≡ false
    → Marked rs s (mark_all (fingerprints q) q.host x) p
    → Marked (q ∷ rs) s x p
cons_exclusive q rs s x (inl e) a m = tt
cons_exclusive q rs s x (inr (s', x')) a m = record {
  shared_stays = m.shared_stays;
  exclusive_stays = λ j h. m.exclusive_stays j (mark_all-is_some (fingerprints q) q.host x j h);
  shared_marked = λ r j i k b.
      In-cases (λ r. In j (fingerprints r) → r.allow_shared_cert ≡ true → is_some (s' j) ≡ true) i
        (λ k' b'. absurd (ground arith)) (λ i' k' b'. m.shared_marked r j i' k' b') k b;
  exclusive_marked = λ r j i k b.
      In-cases (λ r. In j (fingerprints r) → r.allow_shared_cert ≡ false → is_some (x' j) ≡ true) i
        (λ k' b'. m.exclusive_stays j (mark_all_marks q.host x k'))
        (λ i' k' b'. m.exclusive_marked r j i' k' b') k b;
}

first_pass-Marked :
    (proxied : Bool) (rs : List EdgeRoute) (s x : Marks) → Marked rs s x (first_pass proxied rs s x)
unfolding first_pass
first_pass-Marked proxied [] s x = record {
  shared_stays = λ j h. h;
  exclusive_stays = λ j h. h;
  shared_marked = λ r j i k b. elim i [ ];
  exclusive_marked = λ r j i k b. elim i [ ];
}
first_pass-Marked proxied (q ∷ rs) s x = elim (Option-cases (check_route proxied q)) [
  | inr (e, c) ↦ rw (c, first_pass) tt
  | inl c ↦ elim (Bool-cases q.allow_shared_cert) [
    | inl a ↦
        rw (c, first_pass)
          (simp a (
            cons_shared q rs s x _ a
              (first_pass-Marked proxied rs (mark_all (fingerprints q) q.host s) x)))
    | inr a ↦
        rw (c, first_pass)
          (simp a (
            cons_exclusive q rs s x _ a
              (first_pass-Marked proxied rs s (mark_all (fingerprints q) q.host x))))
  ]
]

first_error-none : (a b : Option RouteError) → first_error a b ≡ none → (a ≡ none) × (b ≡ none)
first_error-none none b e = (refl, e)
first_error-none (some x) b e = cc

conflict-none :
    (fp : Bytes) (a b : Option Bytes)
    → conflict fp a b ≡ none
    → is_some a ≡ true
    → is_some b ≡ true
    → ⊥
conflict-none fp none b e p q = cc
conflict-none fp (some s) none e p q = cc
conflict-none fp (some s) (some x) e p q = cc

check_fingerprints-none :
    {fp : Bytes} {fps : List Bytes} (s x : Marks)
    → In fp fps
    → check_fingerprints fps s x ≡ none
    → conflict fp (s fp) (x fp) ≡ none
unfolding check_fingerprints
check_fingerprints-none s x here e = (first_error-none _ _ e).0
check_fingerprints-none s x (there m) e = check_fingerprints-none s x m (first_error-none _ _ e).1

second_pass-none :
    {r : EdgeRoute} {rs : List EdgeRoute} {fp : Bytes} (s x : Marks)
    → In r rs
    → In fp (fingerprints r)
    → second_pass rs s x ≡ none
    → conflict fp (s fp) (x fp) ≡ none
unfolding second_pass
second_pass-none s x here k e = check_fingerprints-none s x k (first_error-none _ _ e).0
second_pass-none s x (there m) k e = second_pass-none s x m k (first_error-none _ _ e).1

no_mix :
    (rs : List EdgeRoute) (p : Passed) {q r : EdgeRoute} {fp : Bytes}
    → Marked rs (λ f. none) (λ f. none) p
    → finish_routes rs p ≡ none
    → In q rs
    → In r rs
    → In fp (fingerprints q)
    → In fp (fingerprints r)
    → q.allow_shared_cert ≡ true
    → r.allow_shared_cert ≡ false
    → ⊥
unfolding finish_routes
no_mix rs (inl x) m e iq ir kq kr a b = cc
no_mix rs (inr (s, x)) {q} {r} {fp} m e iq ir kq kr a b =
    conflict-none fp (s fp) (x fp) (second_pass-none s x iq kq e) (m.shared_marked q fp iq kq a)
      (m.exclusive_marked r fp ir kr b)

exists-In :
    {A : Type 0} (p : A → Bool) {a : A} {l : List A} → In a l → p a ≡ true → exists p l ≡ true
exists-In p here h = ground arith
exists-In p (there m) h = ground (arith, exists-In p m h)

exists_found :
    {A : Type 0} (p : A → Bool) (l : List A) → exists p l ≡ true → (a : A) × In a l × (p a ≡ true)
exists_found p [] h = cc
exists_found p (x ∷ l) h = elim (Bool-cases (p x)) [
  | inl e ↦ (x, here, e)
  | inr e ↦ let (a, m, q) = exists_found p l (ground (arith, e)) in (a, there m, q)
]

has_fingerprint-In :
    (fp : Bytes) (r : EdgeRoute) → has_fingerprint fp r ≡ true → In fp (fingerprints r)
has_fingerprint-In fp r h =
    let (x, m, e) = exists_found (λ x. bytes_eq x fp) (fingerprints r) h in
    subst (λ y. In y (fingerprints r)) (bytes_eq→eq x fp e) m

-- If the routes of a configuration are valid, then for every route and each fingerprint that it names
-- the certificate may be shared, as the edge tells the registry, if and only if that route allows it.
pub validate_routes_shared :
    (proxied : Bool) (rs : List EdgeRoute) (r : EdgeRoute) (fp : Bytes)
    → validate_routes proxied rs ≡ none
    → In r rs
    → In fp (fingerprints r)
    → shared_fingerprints rs fp ≡ r.allow_shared_cert
unfolding validate_routes shared_fingerprints
validate_routes_shared proxied [] r fp e i k = cc
validate_routes_shared proxied (q ∷ rs) r fp e i k = elim (Bool-cases r.allow_shared_cert) [
  | inl a ↦
      exists-In (λ r. r.allow_shared_cert && has_fingerprint fp r) i
        (ground (arith, a, exists-In (λ x. bytes_eq x fp) k (bytes_eq_refl fp)))
      ∙ sym a
  | inr a ↦ elim (Bool-cases (exists (λ r. r.allow_shared_cert && has_fingerprint fp r) (q ∷ rs))) [
    | inr n ↦ n ∙ sym a
    | inl y ↦
        let (o, m, both) =
          exists_found (λ r. r.allow_shared_cert && has_fingerprint fp r) (q ∷ rs) y in
        absurd (
          no_mix (q ∷ rs) (first_pass proxied (q ∷ rs) (λ f. none) (λ f. none))
            (first_pass-Marked proxied (q ∷ rs) (λ f. none) (λ f. none)) e m i
            (has_fingerprint-In fp o (right_of o.allow_shared_cert (has_fingerprint fp o) both)) k
            (left_of o.allow_shared_cert (has_fingerprint fp o) both) a)
  ]
]
  where
    left_of : (a b : Bool) → (a && b) ≡ true → a ≡ true
    left_of true b h = refl
    left_of false b h = h

    right_of : (a b : Bool) → (a && b) ≡ true → b ≡ true
    right_of true b h = h
    right_of false b h = cc
