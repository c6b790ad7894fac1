-- ===== src/Edge/Dispatch/Once.antt =====
-- internal/edge/edge.go, dispatchOnce: what holds between two rounds of its loop, and what it answers.
use coen.Base.{
  ℕ, zero, suc, ◌+◌, ◌*◌, ◌≤◌, ◌<◌, ◌≡◌, refl, sym, ap, ◌∙◌, subst, Bool, true, false, not, ◌&&◌,
  ◌||◌, Option, none, some, List, [], ◌∷◌, ◌++◌, arith, map, length, count, exists, keep, In, here,
  there, In-keep, All, All-In, All-append, if◌then◌else◌, ltb, ◌==◌, Bytes, min, Bool-cases,
  Option-cases, inl, inr,
}
use coen.Edge.Attempt.{Attempt, attempt_ok, attempt_unavailable, attempt_unknown}
use coen.Edge.Attempt.Effects.{is_retriable, sends_request}
use coen.Edge.Balance.{Candidate}
use coen.Edge.Balance.Choice.{Pick, exhausted, chosen, pick-Pick}
use coen.Edge.Dispatch.{
  World, Why, handed, no_agent_why, stream_error, send_error, Try, Loop, Outcome, is_attempted,
  untried, look, Decision, tries_one, looks_again, gives_up, look_again, after_pick, decide,
  give_up,
}

abbrev pub found_away : Attempt → Bool
found_away attempt_unavailable = true
found_away _ = false

abbrev pub is_unavailable : Try → Bool
is_unavailable t = found_away t.outcome

-- A try that sent nothing of the request, after which another session may be tried.
abbrev pub IsClean : Try → Type 0
IsClean t = (is_retriable t.outcome ≡ true) × (count sends_request t.effects ≡ 0)

abbrev pub NoRepeat : List Try → Type 0
NoRepeat [] = Unit
NoRepeat (t ∷ ts) = All (λ u. (u.session == t.session) ≡ false) ts × NoRepeat ts

-- What holds before every round.
pub record IsGoing (st : Loop) : Type 0 where
  pub tried_tries : st.tried ≡ map (λ t. t.session) st.tries
  pub attempts_count : st.attempts ≡ length st.tries
  pub unavailable_count : st.unavailable ≡ count is_unavailable st.tries
  pub clean : All IsClean st.tries
  pub no_repeat : NoRepeat st.tries

-- The answer of the loop, whether it has counted a stream error, and the tries behind it, the
-- latest first.
pub data Verdict : Option ℕ → Why → Bool → List Try → Type 0 where
  has_handed :
      (t : Try) (earlier : List Try)
      → t.outcome ≡ attempt_ok
      → count sends_request t.effects ≤ 1
      → All IsClean earlier
      → Verdict (some t.session) handed false (t ∷ earlier)
  may_have_sent :
      (t : Try) (earlier : List Try)
      → t.outcome ≡ attempt_unknown
      → count sends_request t.effects ≤ 1
      → All IsClean earlier
      → Verdict none send_error true (t ∷ earlier)
  had_no_agent :
      (ts : List Try)
      → All IsClean ts
      → count is_unavailable ts ≡ length ts
      → Verdict none no_agent_why false ts
  had_failures :
      (ts : List Try)
      → All IsClean ts
      → count is_unavailable ts < length ts
      → Verdict none stream_error true ts

pub record IsAnswer (o : Outcome) : Type 0 where
  pub verdict : Verdict o.chosen o.why o.counted o.last.tries
  pub no_repeat : NoRepeat o.last.tries

pub All-map-In :
    (P : ℕ → Type 0) (ts : List Try) → All P (map (λ t. t.session) ts) → All (λ t. P t.session) ts
All-map-In P [] h = tt
All-map-In P (t ∷ ts) h = (h.0, All-map-In P ts h.1)

pub not_attempted : (i : ℕ) (l : List ℕ) → is_attempted l i ≡ false → All (λ j. (j == i) ≡ false) l
not_attempted i [] h = tt
not_attempted i (j ∷ l) h = (ground arith, not_attempted i l (ground arith))

unavailable_le : (ts : List Try) → count is_unavailable ts ≤ length ts
unavailable_le [] = omega arith
unavailable_le (t ∷ ts) = ground (arith, unavailable_le ts)

pub give_up-IsAnswer : (st : Loop) (dead : List ℕ) → IsGoing st → IsAnswer (give_up st dead)
unfolding give_up
give_up-IsAnswer st dead g = elim (Bool-cases (st.unavailable == st.attempts)) [
  | inl e ↦ simp e (record {
    verdict = had_no_agent st.tries g.clean (ground (arith, g.attempts_count, g.unavailable_count));
    no_repeat = g.no_repeat;
  })
  | inr e ↦ simp e (record {
    verdict =
        had_failures st.tries g.clean
          (ground (arith, g.attempts_count, g.unavailable_count, unavailable_le st.tries));
    no_repeat = g.no_repeat;
  })
]

-- What a decision rests on. `U` lists the sessions that there are.
pub data Decided (U : List ℕ) (st : Loop) : Decision → Type 0 where
  to_try :
      (c : ℕ)
      → In c st.cands
      → is_attempted st.tried c ≡ false
      → Decided U st (tries_one c (c ∷ st.tried))
  to_look :
      (cs dead : List ℕ)
      → exists (λ o. not (is_attempted st.tried o)) st.cands ≡ false
      → exists (λ o. not (is_attempted st.tried o)) cs ≡ true
      → All (λ i. In i U) cs
      → Decided U st (looks_again cs dead)
  to_give_up : (dead : List ℕ) → Decided U st (gives_up dead)

In-look : (w : World) (n : ℕ) (cs : List ℕ) {c : Candidate} → In c (map (look w n) cs) → In c.id cs
In-look w n [] m = elim m [ ]
In-look w n (i ∷ cs) m = from_tail m (In-look w n cs)
  where
    from_tail :
        {c x : Candidate} {xs : List Candidate}
        → In c (x ∷ xs)
        → (In c xs → In c.id cs)
        → In c.id (x.id ∷ cs)
    from_tail here f = here
    from_tail (there m) f = there (f m)

look-In : (w : World) (n : ℕ) {i : ℕ} {cs : List ℕ} → In i cs → In (look w n i) (map (look w n) cs)
look-In w n here = here
look-In w n (there m) = there (look-In w n m)

none_exists : (p : ℕ → Bool) (l : List ℕ) → ((i : ℕ) → In i l → p i ≡ false) → exists p l ≡ false
none_exists p [] h = refl
none_exists p (i ∷ l) h = ground (arith, h i here, none_exists p l (λ j m. h j (there m)))

keep-first : (p : ℕ → Bool) (l : List ℕ) {c : ℕ} {cs : List ℕ} → keep p l ≡ c ∷ cs → p c ≡ true
keep-first p l {c} {cs} e = (In-keep p l (subst (In c) (sym e) here)).1

look_again-Decided :
    (U : List ℕ) (st : Loop) (live fresh dead : List ℕ)
    → untried live st.tried ≡ fresh
    → exists (λ o. not (is_attempted st.tried o)) st.cands ≡ false
    → All (λ i. In i U) fresh
    → Decided U st (look_again fresh dead)
look_again-Decided U st live [] dead e x a = to_give_up dead
look_again-Decided U st live (c ∷ cs) dead e x a =
    to_look (c ∷ cs) dead x (ground (arith, keep-first (λ i. not (is_attempted st.tried i)) live e))
      a

after_pick-Decided :
    (U : List ℕ) (w : World) (n : ℕ) (st : Loop) (balance : Bytes) {out : Option Candidate × List ℕ}
    → All (λ i. In i U) (w.live n)
    → Pick balance (w.now n) st.tried (map (look w n) st.cands) out
    → Decided U st (after_pick w n st out)
after_pick-Decided U w n st balance a (chosen c h) =
    to_try c.id (In-look w n st.cands h.listed) h.fresh
after_pick-Decided U w n st balance a (exhausted h) =
    look_again-Decided U st (w.live n) (untried (w.live n) st.tried) (w.dead n) refl
      (none_exists _ st.cands (λ i m. ground (arith, h (look w n i) (look-In w n m))))
      (coen.Base.All-keep (λ i. In i U) (λ i. not (is_attempted st.tried i)) (w.live n) a)

pub decide-Decided :
    (U : List ℕ) (w : World) (balance : Bytes) (turn n : ℕ) (st : Loop)
    → All (λ i. In i U) (w.live n)
    → Decided U st (decide w balance turn n st)
unfolding decide
decide-Decided U w balance turn n st a = elim (Bool-cases (ltb 0 (w.wait n))) [
  | inl e ↦ simp e (
      after_pick-Decided U w n st balance a
        (pick-Pick balance (w.now n) st.tried (map (look w n) st.cands) turn))
  | inr e ↦ simp e (to_give_up [])
]
