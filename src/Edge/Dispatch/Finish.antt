-- ===== src/Edge/Dispatch/Finish.antt =====
-- internal/edge/edge.go, dispatchOnce: it ends, with an answer.
use coen.Base.{
  ℕ, zero, suc, ◌+◌, ◌*◌, ◌<◌, ◌≡◌, ◌≢◌, refl, sym, ap, subst, Bool, true, false, Option, none,
  some, List, [], ◌∷◌, ◌++◌, arith, length, In, All, All-In, Bytes,
}
use coen.Edge.Dispatch.{
  World, no_session_why, preamble_error, Loop, Outcome, is_attempted, Decision, tries_one,
  looks_again, gives_up, decide, give_up, After, continues, ends, try_one, once_loop, start,
  dispatch_once,
}
use coen.Edge.Dispatch.Once.{
  IsGoing, IsAnswer, give_up-IsAnswer, Decided, to_try, to_look, to_give_up, decide-Decided,
}
use coen.Edge.Dispatch.Round.{left, left_shrinks, rounds, Tried, to_end, to_go_on, try_one-Tried}

abbrev IsWithin : List ℕ → List ℕ → Type 0
IsWithin U l = All (λ i. In i U) l

-- The sessions that a World lists are among those of `U`.
pub record IsClosedWorld (U : List ℕ) (w : World) : Type 0 where
  pub live_known : (n : ℕ) → All (λ i. In i U) (w.live n)
  pub live_before_known : (n : ℕ) → All (λ i. In i U) (w.live_before n)

abbrev Ends : Option Outcome → Type 0
Ends r = (o : Outcome) × (r ≡ some o) × IsAnswer o

-- The rest of the loop after a try and after a decision.
abbrev loop_after : ℕ → World → Bytes → ℕ → ℕ → After → Option Outcome
loop_after fuel w balance turn n (ends o) = some o
loop_after fuel w balance turn n (continues st) = once_loop fuel w balance turn (n + 1) st

abbrev loop_decided : ℕ → World → Bytes → ℕ → ℕ → Loop → Decision → Option Outcome
loop_decided fuel w balance turn n st (gives_up dead) = some (give_up st dead)
loop_decided fuel w balance turn n st (looks_again cs dead) =
    once_loop fuel w balance turn (n + 1) (record st { cands = cs; evicted = st.evicted ++ dead })
loop_decided fuel w balance turn n st (tries_one c tried) =
    loop_after fuel w balance turn n (try_one w n c tried st)

once_loop-loop_decided :
    (fuel : ℕ) (w : World) (balance : Bytes) (turn n : ℕ) (st : Loop)
    → once_loop (suc fuel) w balance turn n st
      ≡ loop_decided fuel w balance turn n st (decide w balance turn n st)
unfolding once_loop
once_loop-loop_decided fuel w balance turn n st = by_decision (decide w balance turn n st)
  where
    by_after :
        (a : After)
        → elim a as (λ _. Option Outcome) [
          | ends o ↦ some o
          | continues st' ↦ once_loop fuel w balance turn (n + 1) st'
        ]
          ≡ loop_after fuel w balance turn n a
    by_after (ends o) = refl
    by_after (continues st') = refl

    by_decision :
        (d : Decision)
        → elim d as (λ _. Option Outcome) [
          | gives_up dead ↦ some (give_up st dead)
          | looks_again cs dead ↦
              once_loop fuel w balance turn
                (n + 1)
                (record st { cands = cs; evicted = st.evicted ++ dead })
          | tries_one c tried ↦ elim (try_one w n c tried st) [
            | ends o ↦ some o
            | continues st' ↦ once_loop fuel w balance turn (n + 1) st'
          ]
        ]
          ≡ loop_decided fuel w balance turn n st d
    by_decision (gives_up dead) = refl
    by_decision (looks_again cs dead) = refl
    by_decision (tries_one c tried) = by_after (try_one w n c tried st)

-- The rounds that follow end.
abbrev NextEnds : ℕ → List ℕ → World → Bytes → ℕ → ℕ → Type 0
NextEnds fuel U w balance turn n =
    (st : Loop)
    → IsGoing st
    → IsWithin U st.cands
    → rounds U st < fuel
    → Ends (once_loop fuel w balance turn (n + 1) st)

loop_after-Ends :
    (fuel : ℕ) (U : List ℕ) (w : World) (balance : Bytes) (turn n c : ℕ) (st : Loop) (r : After)
    → NextEnds fuel U w balance turn n
    → rounds U st < suc fuel
    → In c U
    → is_attempted st.tried c ≡ false
    → Tried U (c ∷ st.tried) r
    → Ends (loop_after fuel w balance turn n r)
loop_after-Ends fuel U w balance turn n c st r next h m fresh (to_end o ans) = (o, refl, ans)
loop_after-Ends fuel U w balance turn n c st r next h m fresh (to_go_on st' g e a) =
    next st' g a (ground (arith, h, left_shrinks U st.tried c m fresh, ap (left U) e))

loop_decided-Ends :
    (fuel : ℕ) (U : List ℕ) (w : World) (balance : Bytes) (turn n : ℕ) (st : Loop) (d : Decision)
    → NextEnds fuel U w balance turn n
    → rounds U st < suc fuel
    → IsClosedWorld U w
    → IsGoing st
    → IsWithin U st.cands
    → Decided U st d
    → Ends (loop_decided fuel w balance turn n st d)
loop_decided-Ends fuel U w balance turn n st d next h k g a (to_give_up dead) =
    (give_up st dead, refl, give_up-IsAnswer st dead g)
loop_decided-Ends fuel U w balance turn n st d next h k g a (to_look cs dead used fresh inside) =
    next (record st { cands = cs; evicted = st.evicted ++ dead })
      (record {
        tried_tries = g.tried_tries;
        attempts_count = g.attempts_count;
        unavailable_count = g.unavailable_count;
        clean = g.clean;
        no_repeat = g.no_repeat;
      })
      inside (ground (arith, h, used, fresh))
loop_decided-Ends fuel U w balance turn n st d next h k g a (to_try c m fresh) =
    loop_after-Ends fuel U w balance turn n c st (try_one w n c (c ∷ st.tried) st) next h
      (All-In (λ i. In i U) m a) fresh (try_one-Tried U w n c st g fresh a (k.live_before_known n))

once_loop-Ends :
    (fuel : ℕ) (U : List ℕ) (w : World) (balance : Bytes) (turn n : ℕ) (st : Loop)
    → IsClosedWorld U w
    → IsGoing st
    → IsWithin U st.cands
    → rounds U st < fuel
    → Ends (once_loop fuel w balance turn n st)
once_loop-Ends zero U w balance turn n st k g a h = absurd (omega arith)
once_loop-Ends (suc fuel) U w balance turn n st k g a h =
    subst Ends (sym (once_loop-loop_decided fuel w balance turn n st)) (
      loop_decided-Ends fuel U w balance turn n st (decide w balance turn n st)
        (λ st' g' a' h'. once_loop-Ends fuel U w balance turn (n + 1) st' k g' a' h') h k g a
        (decide-Decided U w balance turn n st (k.live_known n)))

start-IsGoing : (live dead : List ℕ) → IsGoing (start live dead)
start-IsGoing live dead = record {
  tried_tries = refl;
  attempts_count = refl;
  unavailable_count = refl;
  clean = tt;
  no_repeat = tt;
}

-- What dispatchOnce answers, by the sessions of its first look and whether the preamble can be encoded.
pub data Answers (live : List ℕ) (encodes : Bool) (o : Outcome) : Type 0 where
  has_no_session :
      live ≡ []
      → o.chosen ≡ none
      → o.why ≡ no_session_why
      → o.counted ≡ false
      → o.last.tries ≡ []
      → Answers live encodes o
  cannot_encode :
      live ≢ []
      → encodes ≡ false
      → o.chosen ≡ none
      → o.why ≡ preamble_error
      → o.counted ≡ true
      → o.last.tries ≡ []
      → Answers live encodes o
  has_looped : live ≢ [] → encodes ≡ true → IsAnswer o → Answers live encodes o

looped :
    (c : ℕ) (cs : List ℕ) (r : Option Outcome)
    → Ends r
    → (o : Outcome) × (r ≡ some o) × Answers (c ∷ cs) true o
looped c cs r (o, e, a) = (o, e, has_looped (λ q. cc) refl a)

-- If the sessions that the route has while a request is dispatched are among those of `U`, dispatchOnce
-- needs at most two rounds for each of them and two more, whatever the sessions answer and however the
-- time passes. With no session at its first look it says so, and tries and counts nothing. Else, if the
-- preamble cannot be encoded, it returns that error before any try, and counts a stream error. Else no
-- session is tried twice; every try but the last sent nothing of the request, and the last writes it at
-- most once; the answer is the session of the last try if that succeeded, and an error that ends the
-- request if the session of the last try may have it; or every try failed without sending, and the
-- answer is that there is no agent if all of them found their session unavailable, and a stream error
-- if not. Of these a stream error is counted when the session may have the request and when some try
-- failed otherwise, and in no other case.
pub dispatch_once-Ends :
    (U : List ℕ) (w : World) (balance : Bytes) (turn : ℕ) (encodes : Bool) (live dead : List ℕ)
    → IsClosedWorld U w
    → All (λ i. In i U) live
    → (o : Outcome) × (dispatch_once (2 * length U + 2) w balance turn encodes live dead ≡ some o)
      × Answers live encodes o
unfolding dispatch_once
dispatch_once-Ends U w balance turn encodes [] dead k a =
    (_, refl, has_no_session refl refl refl refl refl)
dispatch_once-Ends U w balance turn false (c ∷ cs) dead k a =
    (_, refl, cannot_encode (λ q. cc) refl refl refl refl refl)
dispatch_once-Ends U w balance turn true (c ∷ cs) dead k a = looped c cs _ (
    once_loop-Ends (2 * length U + 2) U w balance turn 0 (start (c ∷ cs) dead) k
      (start-IsGoing (c ∷ cs) dead) a (ground (arith, all_left U)))
  where
    all_left : (l : List ℕ) → left l [] ≡ length l
    all_left [] = refl
    all_left (x ∷ l) = ground (arith, all_left l)
