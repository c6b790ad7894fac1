-- ===== src/Base/Sorting.antt =====
-- sort.Slice and sort.Strings, on lists, by a Boolean order; and the order of Go strings.
use mathlib.Core.Path.{◌≡◌, refl}
use mathlib.Core.Logic.{◌⊎◌, inl, inr}
use mathlib.Core.Bool.{Bool, true, false}
use mathlib.Core.List.{List, [], ◌∷◌, Perm}
use mathlib.Core.List.Perm
use native.Mathlib.Omega.{arith}
use coen.Base.Tests.{if◌then◌else◌, Bool-cases, ltb, ◌==◌}
use coen.Base.Lists.{All}
use coen.Base.Text.{Bytes}

-- Go's `<` on strings.
unfoldable pub bytes_lt : Bytes → Bytes → Bool
bytes_lt _ [] = false
bytes_lt [] (y ∷ ys) = true
bytes_lt (x ∷ xs) (y ∷ ys) =
    let rest = bytes_lt xs ys in if ltb x y then true else if x == y then rest else false

pub bytes_lt_cotrans :
    (a b c : Bytes) → bytes_lt a c ≡ true → (bytes_lt a b ≡ true) ⊎ (bytes_lt b c ≡ true)
unfolding bytes_lt
bytes_lt_cotrans a b [] h = cc
bytes_lt_cotrans [] [] (z ∷ c) h = inr refl
bytes_lt_cotrans [] (y ∷ b) (z ∷ c) h = inl refl
bytes_lt_cotrans (x ∷ a) [] (z ∷ c) h = inr refl
bytes_lt_cotrans (x ∷ a) (y ∷ b) (z ∷ c) h = ground (arith, bytes_lt_cotrans a b c)

pub bytes_lt_irrefl : (a : Bytes) → bytes_lt a a ≡ false
unfolding bytes_lt
bytes_lt_irrefl [] = refl
bytes_lt_irrefl (x ∷ a) = ground (arith, bytes_lt_irrefl a)

pub bytes_lt_asym : (a b : Bytes) → bytes_lt a b ≡ true → bytes_lt b a ≡ false
unfolding bytes_lt
bytes_lt_asym a [] h = cc
bytes_lt_asym [] (y ∷ b) h = refl
bytes_lt_asym (x ∷ a) (y ∷ b) h = ground (arith, bytes_lt_asym a b)

pub bytes_lt_total : (a b : Bytes) → bytes_lt a b ≡ false → bytes_lt b a ≡ false → a ≡ b
unfolding bytes_lt
bytes_lt_total [] [] h k = refl
bytes_lt_total [] (y ∷ b) h k = cc
bytes_lt_total (x ∷ a) [] h k = cc
bytes_lt_total (x ∷ a) (y ∷ b) h k = ground (arith, bytes_lt_total a b)

module _ {ℓ} {A : Type ℓ} (less : A → A → Bool) where
  abbrev pub insert_by : A → List A → List A
  insert_by a [] = a ∷ []
  insert_by a (x ∷ xs) = let rest = insert_by a xs in if less x a then x ∷ rest else a ∷ x ∷ xs

  abbrev pub sort_by : List A → List A
  sort_by [] = []
  sort_by (x ∷ xs) = insert_by x (sort_by xs)

  -- No element is less than one before it.
  abbrev pub IsSortedBy : List A → Type 0
  IsSortedBy [] = Unit
  IsSortedBy (x ∷ xs) = All (λ y. less y x ≡ false) xs × IsSortedBy xs

  All-insert_by {κ} :
      (P : A → Type κ) (a : A) (xs : List A) → P a → All P xs → All P (insert_by a xs)
  All-insert_by P a [] h k = (h, tt)
  All-insert_by P a (x ∷ xs) h k = elim (Bool-cases (less x a)) [
    | inl e ↦ rw e (k.0, All-insert_by P a xs h k.1)
    | inr e ↦ rw e (h, k)
  ]

  pub All-sort_by {κ} : (P : A → Type κ) (xs : List A) → All P xs → All P (sort_by xs)
  All-sort_by P [] h = tt
  All-sort_by P (x ∷ xs) h = All-insert_by P x (sort_by xs) h.0 (All-sort_by P xs h.1)

  -- `less` is a strict weak order.
  abbrev pub IsCotrans : Type ℓ
  IsCotrans = (a b c : A) → less a c ≡ true → (less a b ≡ true) ⊎ (less b c ≡ true)

  not_less_trans : IsCotrans → (a b c : A) → less b a ≡ false → less c b ≡ false → less c a ≡ false
  not_less_trans h a b c p q = elim (Bool-cases (less c a)) [
    | inr e ↦ e
    | inl e ↦ elim (h c b a e) [ inl t ↦ cc | inr t ↦ cc ]
  ]

  All-not_less :
      IsCotrans
      → (a x : A) (xs : List A) → less x a ≡ false
      → All (λ y. less y x ≡ false) xs
      → All (λ y. less y a ≡ false) xs
  All-not_less h a x [] e k = tt
  All-not_less h a x (y ∷ ys) e k = (not_less_trans h a x y e k.0, All-not_less h a x ys e k.1)

  abbrev pub IsAsym : Type ℓ
  IsAsym = (a b : A) → less a b ≡ true → less b a ≡ false

  module _ (asym : IsAsym) (cotrans : IsCotrans) where
    insert_by-IsSortedBy : (a : A) (xs : List A) → IsSortedBy xs → IsSortedBy (insert_by a xs)
    insert_by-IsSortedBy a [] s = (tt, tt)
    insert_by-IsSortedBy a (x ∷ xs) s = elim (Bool-cases (less x a)) [
      | inl e ↦ rw e (
        All-insert_by (λ y. less y x ≡ false) a xs (asym x a e) s.0,
        insert_by-IsSortedBy a xs s.1,
      )
      | inr e ↦ rw e ((e, All-not_less cotrans a x xs e s.0), s)
    ]

    pub sort_by-IsSortedBy : (xs : List A) → IsSortedBy (sort_by xs)
    sort_by-IsSortedBy [] = tt
    sort_by-IsSortedBy (x ∷ xs) = insert_by-IsSortedBy x (sort_by xs) (sort_by-IsSortedBy xs)

  insert_by-Perm : (a : A) (xs : List A) → Perm (insert_by a xs) (a ∷ xs)
  insert_by-Perm a [] = Perm.refl (a ∷ [])
  insert_by-Perm a (x ∷ xs) = elim (Bool-cases (less x a)) [
    | inl e ↦ rw e (Perm.trans (Perm.cons x (insert_by-Perm a xs)) (Perm.swap a x xs))
    | inr e ↦ rw e (Perm.refl (a ∷ x ∷ xs))
  ]

  pub sort_by-Perm : (xs : List A) → Perm (sort_by xs) xs
  sort_by-Perm [] = Perm.refl []
  sort_by-Perm (x ∷ xs) = Perm.trans (insert_by-Perm x (sort_by xs)) (Perm.cons x (sort_by-Perm xs))
