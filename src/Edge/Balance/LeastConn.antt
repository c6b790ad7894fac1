-- ===== src/Edge/Balance/LeastConn.antt =====
-- internal/edge/edge.go, routeState.pick: the least_conn pass takes an eligible session with the fewest
-- active streams.
use coen.Base.{
  ℕ, zero, suc, ◌+◌, ◌-◌, ◌%◌, ◌≤◌, ◌<◌, ◌≡◌, refl, Bool, true, false, ◌&&◌, Option, none, some,
  List, [], ◌∷◌, arith, length, get_elem?, get_elem?_lt, In, In-position, ltb, dec_lt, Bool-cases,
  ◌⊎◌, inl, inr,
}
use coen.Edge.Balance.{Candidate, better, visit, least_conn_from, least_conn_pass}

-- The best one so far is eligible and one of the candidates.
abbrev IsFrom : (Candidate → Bool) → List Candidate → Option Candidate → Type 0
IsFrom ok cs none = Unit
IsFrom ok cs (some b) = In b cs × (ok b ≡ true)

-- The best one so far is no busier than `x`, if `x` is eligible.
abbrev Covers : (Candidate → Bool) → Candidate → Option Candidate → Type 0
Covers ok x none = ok x ≡ false
Covers ok x (some b) = ok x ≡ true → b.active ≤ x.active

visit-IsFrom :
    (ok : Candidate → Bool) (cs : List Candidate) (best : Option Candidate) (i : ℕ)
    → i < length cs
    → IsFrom ok cs best
    → IsFrom ok cs (visit ok best (get_elem? cs i))
unfolding better
visit-IsFrom ok cs best i h f = let (c, e, m) = get_elem?_lt cs i h in rw e (replaced c m best f)
  where
    replaced :
        (c : Candidate)
        → In c cs
        → (b : Option Candidate) → IsFrom ok cs b
        → IsFrom ok cs (better ok b c)
    replaced c m none f = elim (Bool-cases (ok c)) [ inl e ↦ simp e (m, refl) | inr e ↦ simp e tt ]
    replaced c m (some b) f = elim (Bool-cases (ok c && ltb c.active b.active)) [
      | inl e ↦ simp e (m, ground arith)
      | inr e ↦ simp e f
    ]

better-Covers :
    (ok : Candidate → Bool) (x c : Candidate) (best : Option Candidate)
    → Covers ok x best
    → Covers ok x (better ok best c)
unfolding better
better-Covers ok x c none h = ground arith
better-Covers ok x c (some b) h = ground arith

better-Covers_new :
    (ok : Candidate → Bool) (c : Candidate) (best : Option Candidate)
    → Covers ok c (better ok best c)
unfolding better
better-Covers_new ok c none = ground arith
better-Covers_new ok c (some b) = ground arith

visit-Covers :
    (ok : Candidate → Bool) (x : Candidate) (best seen : Option Candidate)
    → Covers ok x best
    → Covers ok x (visit ok best seen)
visit-Covers ok x best none h = h
visit-Covers ok x best (some c) h = better-Covers ok x c best h

module _ (ok : Candidate → Bool) (cs : List Candidate) (start : ℕ) where
  least_conn_from-IsFrom :
      (left j : ℕ) (best : Option Candidate)
      → 0 < length cs
      → IsFrom ok cs best
      → IsFrom ok cs (least_conn_from ok cs start left j best)
  unfolding least_conn_from
  least_conn_from-IsFrom zero j best h f = f
  least_conn_from-IsFrom (suc left) j best h f =
      least_conn_from-IsFrom left (j + 1) (visit ok best (get_elem? cs ((start + j) % length cs))) h
        (visit-IsFrom ok cs best ((start + j) % length cs) (grind arith) f)

  least_conn_from-Covers :
      (left j : ℕ) (x : Candidate) (best : Option Candidate)
      → Covers ok x best
      → Covers ok x (least_conn_from ok cs start left j best)
  unfolding least_conn_from
  least_conn_from-Covers zero j x best h = h
  least_conn_from-Covers (suc left) j x best h =
      least_conn_from-Covers left (j + 1) x (visit ok best (get_elem? cs ((start + j) % length cs)))
        (visit-Covers ok x best (get_elem? cs ((start + j) % length cs)) h)

  least_conn_from-Covers_visited :
      (left j m : ℕ) (x : Candidate) (best : Option Candidate)
      → j ≤ m
      → m < j + left
      → get_elem? cs ((start + m) % length cs) ≡ some x
      → Covers ok x (least_conn_from ok cs start left j best)
  unfolding least_conn_from
  least_conn_from-Covers_visited zero j m x best h k e = absurd (omega arith)
  least_conn_from-Covers_visited (suc left) j m x best h k e = elim (dec_lt j m) [
    | yes lt ↦
        least_conn_from-Covers_visited left (j + 1) m x
          (visit ok best (get_elem? cs ((start + j) % length cs))) (omega arith) (omega arith) e
    | no ge ↦
        let same : j ≡ m = omega arith in
        least_conn_from-Covers left (j + 1) x
          (visit ok best (get_elem? cs ((start + j) % length cs)))
          (rw (same, e) (better-Covers_new ok x best))
  ]

mod_straight : (v i n : ℕ) → i < n → v ≡ i → v % n ≡ i
mod_straight v i n h e = grind arith

mod_wrapped : (v i n : ℕ) → i < n → v ≡ i + n → v % n ≡ i
mod_wrapped v i n h e = grind arith

-- Going round from `start`, the scan meets every position.
round : (start n i : ℕ) → start < n → i < n → (m : ℕ) × (m < n) × ((start + m) % n ≡ i)
round start n i s h = elim (dec_lt i start) [
  | yes lt ↦ (i + n - start, omega arith, mod_wrapped (start + (i + n - start)) i n h (omega arith))
  | no ge ↦ (i - start, omega arith, mod_straight (start + (i - start)) i n h (omega arith))
]

least_conn_pass-Covers :
    (ok : Candidate → Bool) (cs : List Candidate) (turn : ℕ) (x : Candidate)
    → In x cs
    → Covers ok x (least_conn_pass ok cs turn)
unfolding least_conn_pass
least_conn_pass-Covers ok cs turn x mem =
    let (i, h, e) = In-position mem in
    let (m, k, at) = round (turn % length cs) (length cs) i (grind arith) h in
    least_conn_from-Covers_visited ok cs (turn % length cs) (length cs) 0 m x none (omega arith)
      (omega arith) (rw at e)

least_conn_pass-IsFrom :
    (ok : Candidate → Bool) (cs : List Candidate) (turn : ℕ)
    → IsFrom ok cs (least_conn_pass ok cs turn)
unfolding least_conn_pass least_conn_from
least_conn_pass-IsFrom ok [] turn = tt
least_conn_pass-IsFrom ok (c ∷ cs) turn =
    least_conn_from-IsFrom ok (c ∷ cs) (turn % length (c ∷ cs)) (length (c ∷ cs)) 0 none
      (omega arith) tt

-- A least_conn pass finds a session unless no session is eligible, and the one that it finds is
-- eligible and has no more active streams than any eligible session, wherever the scan starts.
pub least_conn_pass-cases :
    (ok : Candidate → Bool) (cs : List Candidate) (turn : ℕ)
    → ((least_conn_pass ok cs turn ≡ none) × ((x : Candidate) → In x cs → ok x ≡ false))
      ⊎ ((c : Candidate) × (least_conn_pass ok cs turn ≡ some c)
          × In c cs
          × (ok c ≡ true)
          × ((x : Candidate) → In x cs → ok x ≡ true → c.active ≤ x.active))
least_conn_pass-cases ok cs turn =
    from_result (least_conn_pass ok cs turn) refl (least_conn_pass-IsFrom ok cs turn)
      (least_conn_pass-Covers ok cs turn)
  where
    from_result :
        (r : Option Candidate)
        → least_conn_pass ok cs turn ≡ r
        → IsFrom ok cs r
        → ((x : Candidate) → In x cs → Covers ok x r)
        → ((least_conn_pass ok cs turn ≡ none) × ((x : Candidate) → In x cs → ok x ≡ false))
          ⊎ ((c : Candidate) × (least_conn_pass ok cs turn ≡ some c)
              × In c cs
              × (ok c ≡ true)
              × ((x : Candidate) → In x cs → ok x ≡ true → c.active ≤ x.active))
    from_result none e f g = inl (e, g)
    from_result (some c) e f g = inr (c, e, f.0, f.1, g)
