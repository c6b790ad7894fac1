-- ===== src/Edge/Dispatch/Round.antt =====
-- internal/edge/edge.go, dispatchOnce: one round of its loop, and how many rounds there can be.
use coen.Base.{
  ℕ, ◌+◌, ◌*◌, ◌≤◌, ◌<◌, ◌≡◌, refl, sym, ap, ◌∙◌, subst, Bool, true, false, not, ◌&&◌, Option, List,
  [], ◌∷◌, ◌++◌, arith, map, length, count, exists, In, here, there, All, All-append, All-keep,
  if◌then◌else◌, ltb, ◌==◌, Bool-cases, inl, inr,
}
use coen.Edge.Attempt.{
  Attempt, attempt_ok, attempt_unavailable, attempt_failed, attempt_unknown, try_agent,
}
use coen.Edge.Attempt.Effects.{is_retriable, sends_request, try_agent-Leaves}
use coen.Edge.Dispatch.{
  World, Try, Loop, Outcome, is_attempted, untried, Decision, tries_one, looks_again, gives_up,
  decide, give_up, with_fresh, plan_try, After, continues, ends, after_try, try_one, once_loop,
  start, dispatch_once,
}
use coen.Edge.Dispatch.Once.{
  is_unavailable, IsClean, NoRepeat, IsGoing, Verdict, has_handed, may_have_sent, IsAnswer,
  not_attempted, All-map-In, give_up-IsAnswer, Decided, to_try, to_look, to_give_up, decide-Decided,
}

-- The sessions of `U` that have not been tried.
abbrev pub left : List ℕ → List ℕ → ℕ
left U tried = count (λ i. not (is_attempted tried i)) U

count_le :
    (p q : ℕ → Bool) (l : List ℕ) → ((i : ℕ) → q i ≡ true → p i ≡ true) → count q l ≤ count p l
count_le p q [] h = omega arith
count_le p q (i ∷ l) h = elim (Bool-cases (q i)) [
  | inl e ↦ ground (arith, h i e, count_le p q l h)
  | inr e ↦ ground (arith, count_le p q l h)
]

count_lt :
    (p q : ℕ → Bool) {c : ℕ} {l : List ℕ}
    → In c l
    → ((i : ℕ) → q i ≡ true → p i ≡ true)
    → p c ≡ true
    → q c ≡ false
    → count q l < count p l
count_lt p q {c} (here {xs = l}) h pc qc = ground (arith, count_le p q l h)
count_lt p q {c} (there {x = i} {xs = l} m) h pc qc = elim (Bool-cases (q i)) [
  | inl e ↦ ground (arith, h i e, count_lt p q m h pc qc)
  | inr e ↦ ground (arith, count_lt p q m h pc qc)
]

pub left_shrinks :
    (U tried : List ℕ) (c : ℕ)
    → In c U
    → is_attempted tried c ≡ false
    → left U (c ∷ tried) < left U tried
left_shrinks U tried c m e =
    count_lt (λ i. not (is_attempted tried i)) (λ i. not (is_attempted (c ∷ tried) i)) m
      (λ i h. ground arith) (ground arith) (ground arith)

-- Two rounds for each session that is left, and one to look again.
abbrev pub rounds : List ℕ → Loop → ℕ
rounds U st =
    2 * left U st.tried + (if exists (λ o. not (is_attempted st.tried o)) st.cands then 0 else 1)

plan_try-cands :
    (U : List ℕ) (w : World) (n c k : ℕ) (cands tried : List ℕ)
    → All (λ i. In i U) cands
    → All (λ i. In i U) (w.live_before n)
    → All (λ i. In i U) (plan_try w n c k cands tried).0.1
unfolding plan_try
plan_try-cands U w n c k cands tried a b =
    elim (Bool-cases (w.rests n c && not (exists (λ o. not (is_attempted tried o)) cands))) [
      | inl e ↦ elim (Bool-cases (ltb 1 k)) [
        | inl l ↦
            simp (e, l)
              (fresh (untried (w.live_before n) tried)
                (All-keep (λ i. In i U) (λ i. not (is_attempted tried i)) (w.live_before n) b))
        | inr l ↦ simp (e, l) a
      ]
      | inr e ↦ simp e a
    ]
  where
    fresh : (f : List ℕ) → All (λ i. In i U) f → All (λ i. In i U) (with_fresh (w.wait n) cands f).1
    fresh [] h = a
    fresh (x ∷ f) h = All-append (λ i. In i U) cands (x ∷ f) a h

-- What the second half of a round leads to.
pub data Tried (U : List ℕ) (tried : List ℕ) : After → Type 0 where
  to_end : (o : Outcome) → IsAnswer o → Tried U tried (ends o)
  to_go_on :
      (st : Loop)
      → IsGoing st
      → st.tried ≡ tried
      → All (λ i. In i U) st.cands
      → Tried U tried (continues st)

-- The state with the entry of a try, before the switch on its outcome.
record IsTried (t : Try) (earlier : List Try) (st : Loop) : Type 0 where
  tries_are : st.tries ≡ t ∷ earlier
  tried_are : st.tried ≡ map (λ u. u.session) (t ∷ earlier)
  attempts_are : st.attempts ≡ length (t ∷ earlier)
  unavailable_are : st.unavailable ≡ count is_unavailable earlier
  clean_are : All IsClean earlier
  no_repeats : NoRepeat (t ∷ earlier)
  sent_if : count sends_request t.effects ≤ 1
  sent_none : is_retriable t.outcome ≡ true → count sends_request t.effects ≡ 0

Verdict-subst :
    (o : Option ℕ) (why : coen.Edge.Dispatch.Why) (b : Bool) (ts us : List Try)
    → us ≡ ts
    → Verdict o why b ts
    → Verdict o why b us
Verdict-subst o why b ts us e v = subst (Verdict o why b) (sym e) v

after_try-Tried :
    (U : List ℕ) (a : Attempt) (t : Try) (earlier : List Try) (st : Loop)
    → t.outcome ≡ a
    → IsTried t earlier st
    → All (λ i. In i U) st.cands
    → Tried U st.tried (after_try a t.session st)
unfolding after_try
after_try-Tried U attempt_ok t earlier st e h m = to_end _ (record {
  verdict =
      Verdict-subst _ _ _ _ st.tries h.tries_are (has_handed t earlier e h.sent_if h.clean_are);
  no_repeat = subst NoRepeat (sym h.tries_are) h.no_repeats;
})
after_try-Tried U attempt_unknown t earlier st e h m = to_end _ (record {
  verdict =
      Verdict-subst _ _ _ _ st.tries h.tries_are (may_have_sent t earlier e h.sent_if h.clean_are);
  no_repeat = subst NoRepeat (sym h.tries_are) h.no_repeats;
})
after_try-Tried U attempt_unavailable t earlier st e h m =
    to_go_on _
      (record {
        tried_tries = h.tried_are ∙ ap (map (λ u. u.session)) (sym h.tries_are);
        attempts_count = h.attempts_are ∙ ap length (sym h.tries_are);
        unavailable_count =
            ap (λ n. n + 1) h.unavailable_are
            ∙ (one_more ∙ ap (count is_unavailable) (sym h.tries_are));
        clean = subst (All IsClean) (sym h.tries_are) (clean_head, h.clean_are);
        no_repeat = subst NoRepeat (sym h.tries_are) h.no_repeats;
      })
      refl m
  where
    retries : is_retriable t.outcome ≡ true
    retries = rw e

    clean_head : IsClean t
    clean_head = (retries, h.sent_none retries)

    one_more : count is_unavailable earlier + 1 ≡ count is_unavailable (t ∷ earlier)
    one_more = ground (arith, ap coen.Edge.Dispatch.Once.found_away e)
after_try-Tried U attempt_failed t earlier st e h m =
    to_go_on _
      (record {
        tried_tries = h.tried_are ∙ ap (map (λ u. u.session)) (sym h.tries_are);
        attempts_count = h.attempts_are ∙ ap length (sym h.tries_are);
        unavailable_count =
            h.unavailable_are ∙ (same ∙ ap (count is_unavailable) (sym h.tries_are));
        clean = subst (All IsClean) (sym h.tries_are) (clean_head, h.clean_are);
        no_repeat = subst NoRepeat (sym h.tries_are) h.no_repeats;
      })
      refl m
  where
    retries : is_retriable t.outcome ≡ true
    retries = rw e

    clean_head : IsClean t
    clean_head = (retries, h.sent_none retries)

    same : count is_unavailable earlier ≡ count is_unavailable (t ∷ earlier)
    same = ground (arith, ap coen.Edge.Dispatch.Once.found_away e)

-- The entry of a try.
abbrev entry : World → ℕ → ℕ → ℕ → Try
entry w n c wait = record {
  session = c;
  allowed = wait;
  outcome = (try_agent (w.replies n c wait)).0;
  effects = (try_agent (w.replies n c wait)).1;
}

entry-IsTried :
    (w : World) (n c wait : ℕ) (cands evicted : List ℕ) (st : Loop)
    → IsGoing st
    → is_attempted st.tried c ≡ false
    → IsTried (entry w n c wait) st.tries (record {
      cands = cands;
      tried = c ∷ st.tried;
      attempts = st.attempts + 1;
      unavailable = st.unavailable;
      tries = entry w n c wait ∷ st.tries;
      evicted = evicted;
    })
entry-IsTried w n c wait cands evicted st g fresh = record {
  tries_are = refl;
  tried_are = ap (◌∷◌ c) g.tried_tries;
  attempts_are = ground (arith, g.attempts_count);
  unavailable_are = g.unavailable_count;
  clean_are = g.clean;
  no_repeats = (
    All-map-In (λ j. (j == c) ≡ false) st.tries
        (subst (All (λ j. (j == c) ≡ false)) g.tried_tries (not_attempted c st.tried fresh)),
    g.no_repeat,
  );
  sent_if = ground (arith, (try_agent-Leaves (w.replies n c wait)).sent);
  sent_none = λ e. ground (arith, (try_agent-Leaves (w.replies n c wait)).sent);
}

pub try_one-Tried :
    (U : List ℕ) (w : World) (n c : ℕ) (st : Loop)
    → IsGoing st
    → is_attempted st.tried c ≡ false
    → All (λ i. In i U) st.cands
    → All (λ i. In i U) (w.live_before n)
    → Tried U (c ∷ st.tried) (try_one w n c (c ∷ st.tried) st)
unfolding try_one
try_one-Tried U w n c st g fresh a b =
    let planned = plan_try w n c (st.attempts + 1) st.cands (c ∷ st.tried) in
    after_try-Tried U (try_agent (w.replies n c planned.0.0)).0 (entry w n c planned.0.0) st.tries _
      refl (entry-IsTried w n c planned.0.0 planned.0.1 (st.evicted ++ planned.1) st g fresh)
      (plan_try-cands U w n c (st.attempts + 1) st.cands (c ∷ st.tried) a b)
