-- ===== src/Edge/Balance/Choice.antt =====
-- internal/edge/edge.go, routeState.pick: what a request gets.
use coen.Base.{
  ℕ, ◌≤◌, ◌≡◌, Bool, true, false, Option, none, some, List, [], ◌∷◌, arith, keep, keep-In, In,
  Bytes, bytes_eq, Bool-cases, ◌⊎◌, inl, inr,
}
use coen.Edge.Balance.{Candidate, round_robin, is_tried, eligible, one_pass, two_passes, pick}
use coen.Edge.Balance.RoundRobin.{round_robin_pass-cases}
use coen.Edge.Balance.LeastConn.{least_conn_pass-cases}

-- What a pass answers: nothing if nothing is eligible, else something eligible, and with least_conn the
-- least busy of what is eligible.
abbrev Found : Bytes → (Candidate → Bool) → List Candidate → Option Candidate → Type 0
Found balance ok cs r =
    ((r ≡ none) × ((x : Candidate) → In x cs → ok x ≡ false))
    ⊎ ((c : Candidate) × (r ≡ some c)
        × In c cs
        × (ok c ≡ true)
        × (bytes_eq balance round_robin ≡ false
            → (x : Candidate) → In x cs
            → ok x ≡ true
            → c.active ≤ x.active))

In-nil {ℓ} : {A : Type ℓ} {x : A} (l : List A) → In x l → l ≡ [] → ⊥
In-nil [] m e = elim m [ ]
In-nil (y ∷ ys) m e = cc

none_kept :
    (ok : Candidate → Bool) (cs : List Candidate)
    → keep ok cs ≡ []
    → (x : Candidate) → In x cs
    → ok x ≡ false
none_kept ok cs e x m = elim (Bool-cases (ok x)) [
  | inl h ↦ absurd (In-nil (keep ok cs) (keep-In ok m h) e)
  | inr h ↦ h
]

one_pass-Found :
    (balance : Bytes) (ok : Candidate → Bool) (cs : List Candidate) (turn : ℕ)
    → Found balance ok cs (one_pass balance ok cs turn)
unfolding one_pass
one_pass-Found balance ok cs turn = elim (Bool-cases (bytes_eq balance round_robin)) [
  | inl b ↦ elim (round_robin_pass-cases ok cs turn) [
    | inl (e, n) ↦ rw b (inl (e, none_kept ok cs n))
    | inr (c, e, m, h) ↦ rw b (inr (c, e, m, h, λ f. absurd (ground arith)))
  ]
  | inr b ↦ elim (least_conn_pass-cases ok cs turn) [
    | inl (e, n) ↦ rw b (inl (e, n))
    | inr (c, e, m, h, least) ↦ rw b (inr (c, e, m, h, λ _. least))
  ]
]

-- The session that a request is given, among `cands` and with `tried` behind it.
pub record Chosen (balance : Bytes) (now : ℕ) (tried : List ℕ) (cands : List Candidate)
    (c : Candidate) : Type 0 where
  pub listed : In c cands
  pub fresh : is_tried tried c ≡ false
  pub rested :
      (x : Candidate)
      → In x cands
      → is_tried tried x ≡ false
      → x.cool_until ≤ now
      → c.cool_until ≤ now
  pub least :
      bytes_eq balance round_robin ≡ false
      → (x : Candidate) → In x cands
      → is_tried tried x ≡ false
      → (c.cool_until ≤ now → x.cool_until ≤ now)
      → c.active ≤ x.active

pub data Pick (balance : Bytes) (now : ℕ) (tried : List ℕ) (cands : List Candidate)
    : Option Candidate × List ℕ → Type 0 where
  exhausted :
      ((x : Candidate) → In x cands → is_tried tried x ≡ true)
      → Pick balance now tried cands (none, tried)
  chosen :
      (c : Candidate)
      → Chosen balance now tried cands c
      → Pick balance now tried cands (some c, c.id ∷ tried)

-- The passes decide the choice.
pick-two_passes :
    (balance : Bytes) (now : ℕ) (tried : List ℕ) (cands : List Candidate) (turn : ℕ)
    (r : Option Candidate)
    → two_passes balance now tried cands turn ≡ r
    → pick balance now tried cands turn ≡ elim r as (λ _. Option Candidate × List ℕ) [
      | none ↦ (none, tried)
      | some c ↦ (some c, c.id ∷ tried)
    ]
unfolding pick
pick-two_passes balance now tried cands turn r e = rw (e, pick)

two_passes_second :
    (balance : Bytes) (now : ℕ) (tried : List ℕ) (cands : List Candidate) (turn : ℕ)
    (r : Option Candidate)
    → one_pass balance (eligible now tried false) cands turn ≡ none
    → one_pass balance (eligible now tried true) cands turn ≡ r
    → two_passes balance now tried cands turn ≡ r
unfolding two_passes
two_passes_second balance now tried cands turn r e e' = rw (e, two_passes) e'

two_passes_first :
    (balance : Bytes) (now : ℕ) (tried : List ℕ) (cands : List Candidate) (turn : ℕ) (c : Candidate)
    → one_pass balance (eligible now tried false) cands turn ≡ some c
    → two_passes balance now tried cands turn ≡ some c
unfolding two_passes
two_passes_first balance now tried cands turn c e = rw (e, two_passes)

-- pick gives a request nothing only if it has tried every listed session. Else it gives one of the
-- listed sessions that the request has not tried, and counts it as tried; a session that is cooling
-- down only if every untried one is; and, unless the route balances by round_robin, one with no more
-- active streams than any untried session, or, when it is not cooling down, than any that is not
-- cooling down either. This holds for every turn, time and set of tried sessions.
pub pick-Pick :
    (balance : Bytes) (now : ℕ) (tried : List ℕ) (cands : List Candidate) (turn : ℕ)
    → Pick balance now tried cands (pick balance now tried cands turn)
pick-Pick balance now tried cands turn =
    elim (one_pass-Found balance (eligible now tried false) cands turn) [
      | inr (c, e, m, h, least) ↦
          rw
            (pick-two_passes balance now tried cands turn (some c)
              (two_passes_first balance now tried cands turn c e))
            (chosen c (record {
              listed = m;
              fresh = ground arith;
              rested = λ x i u r. ground arith;
              least = λ b x i u r. least b x i (ground arith);
            }))
      | inl (e, n) ↦ elim (one_pass-Found balance (eligible now tried true) cands turn) [
        | inr (c, e', m, h, least) ↦
            rw
              (pick-two_passes balance now tried cands turn (some c)
                (two_passes_second balance now tried cands turn (some c) e e'))
              (chosen c (record {
                listed = m;
                fresh = ground arith;
                rested = λ x i u r. ground (arith, n x i);
                least = λ b x i u r. least b x i (ground arith);
              }))
        | inl (e', n') ↦
            rw
              (pick-two_passes balance now tried cands turn none
                (two_passes_second balance now tried cands turn none e e'))
              (exhausted (λ x i. ground (arith, n' x i)))
      ]
    ]
