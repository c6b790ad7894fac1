-- ===== src/Base/Lists.antt =====
-- Lists measured by native numbers, Boolean filters and searches, and their laws.
use Prim.Native.Nat.{ℕ, zero, suc, ◌+◌, ◌≤◌, ◌<◌}
use mathlib.Core.Path.{◌≡◌, refl, ap}
use mathlib.Core.Logic.{◌⊎◌, inl, inr}
use mathlib.Core.Bool.{Bool, true, false, ◌||◌}
use mathlib.Core.List.{List, [], ◌∷◌, ◌++◌}
use mathlib.Core.Option.{Option, none, some}
use native.Mathlib.Omega.{arith}
use coen.Base.Tests.{if◌then◌else◌, Bool-cases}

module _ {ℓ} {A : Type ℓ} where
  abbrev pub length : List A → ℕ
  length [] = 0
  length (x ∷ xs) = suc (length xs)

  abbrev pub take : ℕ → List A → List A
  take zero xs = []
  take (suc n) [] = []
  take (suc n) (x ∷ xs) = x ∷ take n xs

  abbrev pub drop : ℕ → List A → List A
  drop zero xs = xs
  drop (suc n) [] = []
  drop (suc n) (x ∷ xs) = drop n xs

  abbrev pub get_elem? : List A → ℕ → Option A
  get_elem? [] i = none
  get_elem? (x ∷ xs) zero = some x
  get_elem? (x ∷ xs) (suc i) = get_elem? xs i

  pub length-append : (xs ys : List A) → length (xs ++ ys) ≡ length xs + length ys
  length-append [] ys = omega arith
  length-append (x ∷ xs) ys = omega (arith, length-append xs ys)

  pub take-append-drop : (n : ℕ) (xs : List A) → take n xs ++ drop n xs ≡ xs
  take-append-drop zero xs = refl
  take-append-drop (suc n) [] = refl
  take-append-drop (suc n) (x ∷ xs) = ap (◌∷◌ x) (take-append-drop n xs)

  pub drop-length-append : (xs ys : List A) → drop (length xs) (xs ++ ys) ≡ ys
  drop-length-append [] ys = refl
  drop-length-append (x ∷ xs) ys = drop-length-append xs ys

  pub take-length-append : (xs ys : List A) → take (length xs) (xs ++ ys) ≡ xs
  take-length-append [] ys = refl
  take-length-append (x ∷ xs) ys = ap (◌∷◌ x) (take-length-append xs ys)

  -- Filters and searches by a Boolean test.
  abbrev pub keep : (A → Bool) → List A → List A
  keep p [] = []
  keep p (x ∷ xs) = let rest = keep p xs in if p x then x ∷ rest else rest

  abbrev pub count : (A → Bool) → List A → ℕ
  count p [] = 0
  count p (x ∷ xs) = let rest = count p xs in if p x then suc rest else rest

  abbrev pub exists : (A → Bool) → List A → Bool
  exists p [] = false
  exists p (x ∷ xs) = p x || exists p xs

  -- Every element satisfies a predicate.
  abbrev pub All {κ} : (A → Type κ) → List A → Type κ
  All P [] = Unit
  All P (x ∷ xs) = P x × All P xs

  -- An element stands in a list, at a place.
  pub data In (a : A) : List A → Type ℓ where
    here : {xs : List A} → In a (a ∷ xs)
    there : {x : A} {xs : List A} → In a xs → In a (x ∷ xs)

  pub All-In {κ} : (P : A → Type κ) {a : A} {xs : List A} → In a xs → All P xs → P a
  All-In P here h = h.0
  All-In P (there m) h = All-In P m h.1

  pub In-append : {a : A} {ys : List A} (xs : List A) → In a ys → In a (xs ++ ys)
  In-append [] m = m
  In-append (x ∷ xs) m = there (In-append xs m)

  pub In-lift : {a x : A} {xs ys : List A} → (In a xs → In a ys) → In a (x ∷ xs) → In a (x ∷ ys)
  In-lift f here = here
  In-lift f (there m) = there (f m)

  pub In-swap : {a x y : A} {xs : List A} → In a (x ∷ y ∷ xs) → In a (y ∷ x ∷ xs)
  In-swap here = there here
  In-swap (there here) = here
  In-swap (there (there m)) = there (there m)

  In-head :
      (p : A → Bool) (x : A) (xs ys : List A) {a : A}
      → p x ≡ true
      → (In a ys → In a xs × (p a ≡ true))
      → In a (x ∷ ys)
      → In a (x ∷ xs) × (p a ≡ true)
  In-head p x xs ys e rest here = (here, e)
  In-head p x xs ys e rest (there k) = (there (rest k).0, (rest k).1)

  pub keep-In : (p : A → Bool) {a : A} {xs : List A} → In a xs → p a ≡ true → In a (keep p xs)
  keep-In p (here {xs = xs}) e = rw e here
  keep-In p (there {x = x} {xs = xs} m) e = elim (Bool-cases (p x)) [
    | inl t ↦ rw t (there (keep-In p m e))
    | inr f ↦ rw f (keep-In p m e)
  ]

  pub In-append_cases : (xs ys : List A) {a : A} → In a (xs ++ ys) → In a xs ⊎ In a ys
  In-append_cases [] ys m = inr m
  In-append_cases (x ∷ xs) ys here = inl here
  In-append_cases (x ∷ xs) ys (there m) = elim (In-append_cases xs ys m) [
    | inl k ↦ inl (there k)
    | inr k ↦ inr k
  ]

  pub In-append_left : {a : A} {xs : List A} (ys : List A) → In a xs → In a (xs ++ ys)
  In-append_left ys here = here
  In-append_left ys (there m) = there (In-append_left ys m)

  pub In-keep : (p : A → Bool) (xs : List A) {a : A} → In a (keep p xs) → In a xs × (p a ≡ true)
  In-keep p [] m = elim m [ ]
  In-keep p (x ∷ xs) {a} m = split (p x) refl (In-keep p xs) m
    where
      split :
          (b : Bool)
          → p x ≡ b
          → (In a (keep p xs) → In a xs × (p a ≡ true))
          → In a (if b then x ∷ keep p xs else keep p xs)
          → In a (x ∷ xs) × (p a ≡ true)
      split true e rest k = In-head p x xs (keep p xs) e rest k
      split false e rest k = (there (rest k).0, (rest k).1)

  pub length-keep-le : (p : A → Bool) (xs : List A) → length (keep p xs) ≤ length xs
  length-keep-le p [] = omega arith
  length-keep-le p (x ∷ xs) = ground (arith, length-keep-le p xs)

  pub All-keep {κ} : (P : A → Type κ) (p : A → Bool) (xs : List A) → All P xs → All P (keep p xs)
  All-keep P p [] h = tt
  All-keep P p (x ∷ xs) h = elim (Bool-cases (p x)) [
    | inl e ↦ rw e (h.0, All-keep P p xs h.1)
    | inr e ↦ rw e (All-keep P p xs h.1)
  ]

  pub All-append {κ} : (P : A → Type κ) (xs ys : List A) → All P xs → All P ys → All P (xs ++ ys)
  All-append P [] ys h k = k
  All-append P (x ∷ xs) ys h k = (h.0, All-append P xs ys h.1 k)

  pub All-map {κ μ} :
      (P : A → Type κ) (Q : A → Type μ) (f : (a : A) → P a → Q a) (xs : List A)
      → All P xs
      → All Q xs
  All-map P Q f [] h = tt
  All-map P Q f (x ∷ xs) h = (f x h.0, All-map P Q f xs h.1)

  -- A position inside a list holds an element of it, and every element stands at one.
  pub get_elem?_lt :
      (xs : List A) (i : ℕ) → i < length xs → (a : A) × (get_elem? xs i ≡ some a) × In a xs
  get_elem?_lt [] i h = elim h [ ]
  get_elem?_lt (x ∷ xs) zero h = (x, refl, here)
  get_elem?_lt (x ∷ xs) (suc i) h =
      let (a, e, m) = get_elem?_lt xs i (omega arith) in (a, e, there m)

  pub get_elem?_ge : (xs : List A) (i : ℕ) → length xs ≤ i → get_elem? xs i ≡ none
  get_elem?_ge [] i h = refl
  get_elem?_ge (x ∷ xs) zero h = absurd (omega arith)
  get_elem?_ge (x ∷ xs) (suc i) h = get_elem?_ge xs i (omega arith)

  pub In-position :
      {a : A} {xs : List A} → In a xs → (i : ℕ) × (i < length xs) × (get_elem? xs i ≡ some a)
  In-position here = (0, omega arith, refl)
  In-position (there m) = let (i, h, e) = In-position m in (suc i, omega arith, e)

  pub keep-append_one :
      (p : A → Bool) (xs : List A) (a : A)
      → keep p (xs ++ a ∷ []) ≡ (if p a then keep p xs ++ a ∷ [] else keep p xs)
  keep-append_one p [] a = refl
  keep-append_one p (x ∷ xs) a = ground (arith, keep-append_one p xs a)

  pub count-append_one :
      (p : A → Bool) (xs : List A) (a : A)
      → count p (xs ++ a ∷ []) ≡ (if p a then suc (count p xs) else count p xs)
  count-append_one p [] a = refl
  count-append_one p (x ∷ xs) a = ground (arith, count-append_one p xs a)

  pub count_zero : (p : A → Bool) (xs : List A) → ((a : A) → In a xs → p a ≡ false) → count p xs ≡ 0
  count_zero p [] h = refl
  count_zero p (x ∷ xs) h = rw (h x here) (count_zero p xs (λ a m. h a (there m)))
