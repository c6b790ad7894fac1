-- ===== src/Route/Wildcards.antt =====
-- internal/route/route.go, Build: the wildcards, sorted by the length of their suffix.
use coen.Base.{
  ◌≤◌, ◌≡◌, refl, ◌⊎◌, inl, inr, Bool, true, false, Option, none, some, List, [], ◌∷◌, arith,
  length, if◌then◌else◌, ltb, Bytes, has_suffix, All, In, here, there, In-lift, In-swap, Bool-cases,
  All-map, ltb→lt,
}
use coen.Route.{Wildcard, insert_longest, sort_longest, first_suffix}

module _ {ℓ} {V : Type ℓ} where
  -- Each suffix is at least as long as all that follow it.
  abbrev pub IsDescending : List (Wildcard V) → Type 0
  IsDescending [] = Unit
  IsDescending (w ∷ ws) = All (λ x. length x.suffix ≤ length w.suffix) ws × IsDescending ws

  insert_longest-All {κ} :
      (P : Wildcard V → Type κ) (w : Wildcard V) (ws : List (Wildcard V))
      → P w
      → All P ws
      → All P (insert_longest w ws)
  unfolding insert_longest
  insert_longest-All P w [] h k = (h, tt)
  insert_longest-All P w (x ∷ xs) h k =
      elim (Bool-cases (ltb (length w.suffix) (length x.suffix))) [
        | inl e ↦ rw e (k.0, insert_longest-All P w xs h k.1)
        | inr e ↦ rw e (h, k)
      ]

  insert_longest-IsDescending :
      (w : Wildcard V) (ws : List (Wildcard V))
      → IsDescending ws
      → IsDescending (insert_longest w ws)
  unfolding insert_longest
  insert_longest-IsDescending w [] d = (tt, tt)
  insert_longest-IsDescending w (x ∷ xs) d =
      elim (Bool-cases (ltb (length w.suffix) (length x.suffix))) [
        | inl e ↦ rw e (
          insert_longest-All (λ y. length y.suffix ≤ length x.suffix) w xs
              (omega (arith, ltb→lt _ _ e)) d.0,
          insert_longest-IsDescending w xs d.1,
        )
        | inr e ↦
            let le : length x.suffix ≤ length w.suffix = ground arith in
            rw e ((le, All-map _ _ (λ y h. omega arith) xs d.0), d)
      ]

  sort_longest-All {κ} :
      (P : Wildcard V → Type κ) (ws : List (Wildcard V)) → All P ws → All P (sort_longest ws)
  unfolding sort_longest
  sort_longest-All P [] h = tt
  sort_longest-All P (w ∷ ws) h =
      insert_longest-All P w (sort_longest ws) h.0 (sort_longest-All P ws h.1)

  sort_longest-IsDescending : (ws : List (Wildcard V)) → IsDescending (sort_longest ws)
  unfolding sort_longest
  sort_longest-IsDescending [] = tt
  sort_longest-IsDescending (w ∷ ws) =
      insert_longest-IsDescending w (sort_longest ws) (sort_longest-IsDescending ws)

  insert_longest-All_inv {κ} :
      (P : Wildcard V → Type κ) (w : Wildcard V) (ws : List (Wildcard V))
      → All P (insert_longest w ws)
      → P w × All P ws
  unfolding insert_longest
  insert_longest-All_inv P w [] k = k
  insert_longest-All_inv P w (x ∷ xs) h =
      split (insert_longest-All_inv P w xs) (ltb (length w.suffix) (length x.suffix)) h
    where
      split :
          (All P (insert_longest w xs) → P w × All P xs)
          → (b : Bool) → All P (if b then x ∷ insert_longest w xs else w ∷ x ∷ xs)
          → P w × All P (x ∷ xs)
      split rest true k = ((rest k.1).0, (k.0, (rest k.1).1))
      split rest false k = (k.0, k.1)

  sort_longest-All_inv {κ} :
      (P : Wildcard V → Type κ) (ws : List (Wildcard V)) → All P (sort_longest ws) → All P ws
  unfolding sort_longest
  sort_longest-All_inv P [] h = tt
  sort_longest-All_inv P (w ∷ ws) h =
      let rest = insert_longest-All_inv P w (sort_longest ws) h in
      (rest.0, sort_longest-All_inv P ws rest.1)

  -- The first match in a descending list is a longest one.
  abbrev pub Longest : Bytes → List (Wildcard V) → Option V → Type ℓ
  Longest n ws r =
      ((r ≡ none) × All (λ x. has_suffix n (b'.' ∷ x.suffix) ≡ false) ws)
      ⊎ ((w : Wildcard V) × In w ws
          × (has_suffix n (b'.' ∷ w.suffix) ≡ true)
          × (r ≡ some w.val)
          × All (λ x. has_suffix n (b'.' ∷ x.suffix) ≡ true → length x.suffix ≤ length w.suffix) ws)

  first_suffix-Longest :
      (n : Bytes) (ws : List (Wildcard V)) → IsDescending ws → Longest n ws (first_suffix n ws)
  unfolding first_suffix
  first_suffix-Longest n [] d = inl (refl, tt)
  first_suffix-Longest n (w ∷ ws) d = elim (Bool-cases (has_suffix n (b'.' ∷ w.suffix))) [
    | inl hit ↦ inr (w, here, hit, rw hit, ((λ _. omega arith), All-map _ _ (λ x le _. le) ws d.0))
    | inr miss ↦ elim (first_suffix-Longest n ws d.1) [
      | inl (q, none_hit) ↦ inl (rw miss q, (miss, none_hit))
      | inr (x, m, hit, q, longest) ↦
          inr (x, there m, hit, rw miss q, ((λ p. absurd (ground arith)), longest))
    ]
  ]

  In-insert_longest :
      (w : Wildcard V) (ws : List (Wildcard V)) {x : Wildcard V}
      → In x (insert_longest w ws)
      → In x (w ∷ ws)
  unfolding insert_longest
  In-insert_longest w [] m = m
  In-insert_longest w (y ∷ ys) {x} m =
      split (In-insert_longest w ys) (ltb (length w.suffix) (length y.suffix)) m
    where
      split :
          (In x (insert_longest w ys) → In x (w ∷ ys))
          → (b : Bool) → In x (if b then y ∷ insert_longest w ys else w ∷ y ∷ ys)
          → In x (w ∷ y ∷ ys)
      split rest true k = In-swap (In-lift rest k)
      split rest false k = k

  In-sort_longest : (ws : List (Wildcard V)) {x : Wildcard V} → In x (sort_longest ws) → In x ws
  unfolding sort_longest
  In-sort_longest [] m = m
  In-sort_longest (w ∷ ws) m =
      In-lift (In-sort_longest ws) (In-insert_longest w (sort_longest ws) m)

  pub sort_longest-Longest :
      (n : Bytes) (ws : List (Wildcard V)) → Longest n ws (first_suffix n (sort_longest ws))
  sort_longest-Longest n ws =
      elim (first_suffix-Longest n (sort_longest ws) (sort_longest-IsDescending ws)) [
        | inl (q, none_hit) ↦ inl (q, sort_longest-All_inv _ ws none_hit)
        | inr (w, m, hit, q, longest) ↦
            inr (w, In-sort_longest ws m, hit, q, sort_longest-All_inv _ ws longest)
      ]
