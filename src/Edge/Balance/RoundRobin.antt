-- ===== src/Edge/Balance/RoundRobin.antt =====
-- internal/edge/edge.go, routeState.pick: the round_robin pass takes the turn-th eligible session.
use coen.Base.{
  ℕ, zero, suc, ◌+◌, ◌*◌, ◌%◌, ◌<◌, ◌≡◌, refl, ap, ◌∙◌, Bool, true, false, none, some, List, [],
  ◌∷◌, arith, length, count, keep, get_elem?, In, if◌then◌else◌, ◌==◌, Bool-cases, ◌⊎◌, inl, inr,
  get_elem?_lt, In-keep,
}
use coen.Edge.Balance.{Candidate, nth_eligible, round_robin_pass}

count-length : (ok : Candidate → Bool) (cs : List Candidate) → count ok cs ≡ length (keep ok cs)
count-length ok [] = refl
count-length ok (c ∷ cs) = ground (arith, count-length ok cs)

nth_eligible-get_elem? :
    (ok : Candidate → Bool) (cs : List Candidate) (k : ℕ)
    → nth_eligible ok cs k ≡ get_elem? (keep ok cs) k
unfolding nth_eligible
nth_eligible-get_elem? ok [] k = refl
nth_eligible-get_elem? ok (c ∷ cs) zero = elim (Bool-cases (ok c)) [
  | inl e ↦ rw e
  | inr e ↦ rw e (nth_eligible-get_elem? ok cs zero)
]
nth_eligible-get_elem? ok (c ∷ cs) (suc k) = elim (Bool-cases (ok c)) [
  | inl e ↦ rw e (nth_eligible-get_elem? ok cs k)
  | inr e ↦ rw e (nth_eligible-get_elem? ok cs (suc k))
]

round_robin_pass-get_elem? :
    (ok : Candidate → Bool) (cs : List Candidate) (turn : ℕ)
    → round_robin_pass ok cs turn ≡ get_elem? (keep ok cs) (turn % length (keep ok cs))
unfolding round_robin_pass
round_robin_pass-get_elem? ok cs turn =
    rw (count-length ok cs, nth_eligible-get_elem? ok cs) (by_list (keep ok cs))
  where
    not_zero : (n : ℕ) → (suc n == 0) ≡ false
    not_zero n = ground arith

    by_list :
        (l : List Candidate)
        → (if length l == 0 then none else get_elem? l (turn % length l))
          ≡ get_elem? l (turn % length l)
    by_list [] = refl
    by_list (x ∷ xs) = rw (not_zero (length xs))

-- A round_robin pass at a turn takes, of the eligible sessions in their order, the one at the position
-- that the turn leaves after division by their number, and none if there are none. So over as many
-- turns in a row as there are eligible sessions, each is taken once: turn `i + k * n` of `n` takes the
-- i-th, for every k.
pub round_robin_turns :
    (ok : Candidate → Bool) (cs : List Candidate) (turn : ℕ)
    → (round_robin_pass ok cs turn ≡ get_elem? (keep ok cs) (turn % length (keep ok cs)))
      × ((i k : ℕ)
          → i < length (keep ok cs)
          → round_robin_pass ok cs (i + k * length (keep ok cs)) ≡ get_elem? (keep ok cs) i)
round_robin_turns ok cs turn = (
  round_robin_pass-get_elem? ok cs turn,
  λ i k h.
      round_robin_pass-get_elem? ok cs (i + k * length (keep ok cs))
      ∙ ap (get_elem? (keep ok cs)) (wrap i k (length (keep ok cs)) h),
)
  where
    wrap : (i k n : ℕ) → i < n → (i + k * n) % n ≡ i
    wrap i k n h = grind arith

-- What a pass takes is eligible, and it takes something if anything is.
pub round_robin_pass-cases :
    (ok : Candidate → Bool) (cs : List Candidate) (turn : ℕ)
    → ((round_robin_pass ok cs turn ≡ none) × (keep ok cs ≡ []))
      ⊎ ((c : Candidate) × (round_robin_pass ok cs turn ≡ some c) × In c cs × (ok c ≡ true))
round_robin_pass-cases ok cs turn = from_list (keep ok cs) refl
  where
    from_list :
        (l : List Candidate)
        → keep ok cs ≡ l
        → ((round_robin_pass ok cs turn ≡ none) × (keep ok cs ≡ []))
          ⊎ ((c : Candidate) × (round_robin_pass ok cs turn ≡ some c) × In c cs × (ok c ≡ true))
    from_list [] e =
        inl (round_robin_pass-get_elem? ok cs turn ∙ ap (λ l. get_elem? l (turn % length l)) e, e)
    from_list (x ∷ xs) e =
        let some_kept : length (keep ok cs) ≡ suc (length xs) = ap length e in
        let (c, at, m) =
          get_elem?_lt (keep ok cs) (turn % length (keep ok cs))
            (below (length (keep ok cs)) some_kept) in
        let (i, okay) = In-keep ok cs m in
        inr (c, round_robin_pass-get_elem? ok cs turn ∙ at, i, okay)
      where
        below : (n : ℕ) → n ≡ suc (length xs) → turn % n < n
        below n h = grind arith
