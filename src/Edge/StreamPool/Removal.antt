-- ===== src/Edge/StreamPool/Removal.antt =====
-- internal/edge/h3pool.go: removing one stream from a list whose streams are distinct.
use coen.Base.{
  ℕ, ◌+◌, ◌≡◌, refl, sym, ap, Bool, true, false, List, [], ◌∷◌, ◌++◌, arith, count, keep, exists,
  In, here, there, In-lift, All, All-In, All-append, All-map, if◌then◌else◌, ◌==◌, Bool-cases, inl,
  inr,
}
use coen.Edge.StreamPool.{IdleStream, remove_id}

-- No stream of the list has the identity `i`.
abbrev pub Lacks : ℕ → List IdleStream → Type 0
Lacks i l = All (λ x. (x.id == i) ≡ false) l

abbrev pub IsDistinct : List IdleStream → Type 0
IsDistinct [] = Unit
IsDistinct (s ∷ ss) = Lacks s.id ss × IsDistinct ss

-- What has the identity of `s` in the list is `s`.
abbrev pub Owns : IdleStream → List IdleStream → Type 0
Owns s l = All (λ x. (x.id == s.id) ≡ true → x ≡ s) l

remove_id_of_Lacks : (i : ℕ) (l : List IdleStream) → Lacks i l → remove_id i l ≡ l
unfolding remove_id
remove_id_of_Lacks i [] h = refl
remove_id_of_Lacks i (s ∷ ss) h = rw h.0 (ap (◌∷◌ s) (remove_id_of_Lacks i ss h.1))

All-keep : (i : ℕ) (q : IdleStream → Bool) (l : List IdleStream) → Lacks i l → Lacks i (keep q l)
All-keep i q [] h = tt
All-keep i q (s ∷ ss) h = elim (Bool-cases (q s)) [
  | inl e ↦ rw e (h.0, All-keep i q ss h.1)
  | inr e ↦ rw e (All-keep i q ss h.1)
]

Lacks-same : (i j : ℕ) (l : List IdleStream) → (i == j) ≡ true → Lacks i l → Lacks j l
Lacks-same i j l e = All-map _ _ (λ x h. ground arith) l

pub keep-remove_id :
    (q : IdleStream → Bool) (i : ℕ) (l : List IdleStream)
    → IsDistinct l
    → keep q (remove_id i l) ≡ remove_id i (keep q l)
unfolding remove_id
keep-remove_id q i [] d = refl
keep-remove_id q i (s ∷ ss) d = elim (Bool-cases (s.id == i)) [
  | inl hit ↦ elim (Bool-cases (q s)) [
    | inl e ↦ rw (e, hit)
    | inr e ↦
        rw (e, hit)
          (sym (remove_id_of_Lacks i (keep q ss) (All-keep i q ss (Lacks-same s.id i ss hit d.0))))
  ]
  | inr miss ↦ elim (Bool-cases (q s)) [
    | inl e ↦ rw (e, miss) (rw e (ap (◌∷◌ s) (keep-remove_id q i ss d.1)))
    | inr e ↦ rw (e, miss) (rw e (keep-remove_id q i ss d.1))
  ]
]

pub keep-remove_id_other :
    (q : IdleStream → Bool) {s : IdleStream} {l : List IdleStream}
    → In s l
    → IsDistinct l
    → q s ≡ false
    → keep q (remove_id s.id l) ≡ keep q l
unfolding remove_id
keep-remove_id_other q {s} (here {xs = xs}) d e = ground arith
keep-remove_id_other q {s} (there {x = x} {xs = xs} m) d e =
    ground (arith, All-In (λ y. (y.id == x.id) ≡ false) m d.0, keep-remove_id_other q m d.1 e)

abbrev pub one_if : Bool → ℕ
one_if true = 1
one_if false = 0

pub count-remove_id :
    (q : IdleStream → Bool) {s : IdleStream} {l : List IdleStream}
    → In s l
    → IsDistinct l
    → count q l ≡ count q (remove_id s.id l) + one_if (q s)
unfolding remove_id
count-remove_id q {s} (here {xs = xs}) d = ground arith
count-remove_id q {s} (there {x = x} {xs = xs} m) d =
    ground (arith, All-In (λ y. (y.id == x.id) ≡ false) m d.0, count-remove_id q m d.1)

pub remove_id-All {κ} :
    (P : IdleStream → Type κ) (i : ℕ) (l : List IdleStream) → All P l → All P (remove_id i l)
unfolding remove_id
remove_id-All P i [] h = tt
remove_id-All P i (s ∷ ss) h = elim (Bool-cases (s.id == i)) [
  | inl e ↦ rw e h.1
  | inr e ↦ rw e (h.0, remove_id-All P i ss h.1)
]

pub remove_id-IsDistinct : (i : ℕ) (l : List IdleStream) → IsDistinct l → IsDistinct (remove_id i l)
unfolding remove_id
remove_id-IsDistinct i [] d = tt
remove_id-IsDistinct i (s ∷ ss) d = elim (Bool-cases (s.id == i)) [
  | inl e ↦ rw e d.1
  | inr e ↦ rw e (remove_id-All _ i ss d.0, remove_id-IsDistinct i ss d.1)
]

pub remove_id-Lacks : (i : ℕ) (l : List IdleStream) → IsDistinct l → Lacks i (remove_id i l)
unfolding remove_id
remove_id-Lacks i [] d = tt
remove_id-Lacks i (s ∷ ss) d = elim (Bool-cases (s.id == i)) [
  | inl e ↦ rw e (Lacks-same s.id i ss e d.0)
  | inr e ↦ simp e (refl, remove_id-Lacks i ss d.1)
]

pub exists-In :
    (s : IdleStream) (l : List IdleStream) → Owns s l → exists (λ x. x.id == s.id) l ≡ true → In s l
exists-In s [] o h = cc
exists-In s (x ∷ xs) o h = elim (Bool-cases (x.id == s.id)) [
  | inl e ↦ rw (o.0 e) here
  | inr e ↦ there (exists-In s xs o.1 (rw e at h))
]

pub In-Owns : {s : IdleStream} {l : List IdleStream} → In s l → IsDistinct l → Owns s l
In-Owns {s} (here {xs = xs}) d = (λ e. refl, All-map _ _ (λ x h e. absurd (ground arith)) xs d.0)
In-Owns {s} (there {x = x} {xs = xs} m) d =
    (λ e. absurd (ground (arith, All-In (λ y. (y.id == x.id) ≡ false) m d.0)), In-Owns m d.1)

pub append-IsDistinct :
    (l : List IdleStream) (s : IdleStream) → IsDistinct l → Lacks s.id l → IsDistinct (l ++ s ∷ [])
append-IsDistinct [] s d h = (tt, tt)
append-IsDistinct (x ∷ xs) s d h =
    (All-append _ xs (s ∷ []) d.0 (ground arith, tt), append-IsDistinct xs s d.1 h.1)

pub remove_id-In : (i : ℕ) (l : List IdleStream) {x : IdleStream} → In x (remove_id i l) → In x l
unfolding remove_id
remove_id-In i [] m = m
remove_id-In i (s ∷ ss) {x} m = split (s.id == i) (remove_id-In i ss) m
  where
    split :
        (b : Bool)
        → (In x (remove_id i ss) → In x ss)
        → In x (if b then ss else s ∷ remove_id i ss)
        → In x (s ∷ ss)
    split true f k = there k
    split false f k = In-lift f k

pub In-remove_id :
    (i : ℕ) {x : IdleStream} {l : List IdleStream}
    → (x.id == i) ≡ false
    → In x l
    → In x (remove_id i l)
unfolding remove_id
In-remove_id i {x} n (here {xs = xs}) = rw n here
In-remove_id i {x} n (there {x = y} {xs = xs} m) = elim (Bool-cases (y.id == i)) [
  | inl e ↦ rw e m
  | inr e ↦ rw e (there (In-remove_id i n m))
]
