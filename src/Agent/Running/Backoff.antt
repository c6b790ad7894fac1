-- ===== src/Agent/Running/Backoff.antt =====
-- internal/agent/agent.go, Run: how long the agent waits between its attempts.
use coen.Base.{
  ℕ, zero, suc, ◌*◌, ◌^◌, ◌≤◌, ◌≡◌, refl, ap, ◌∙◌, true, false, List, [], ◌∷◌, ◌++◌, if◌then◌else◌,
  leb, arith, min, inl, inr, Bool-cases, count, All, append-nil, not, Option, none, some, exists,
}
use native.Mathlib.Numerals.{unary_clauses}
use coen.Agent.Shutdown.{Session}
use coen.Agent.Running.{
  Dialing, Event, retires, waits, Settings, serve_session, connect_once, with_jitter, next_backoff,
  Life, ended, ends_connected, ends_waiting, goes_on, round_events, backoff_after, run_loop,
  runs_callback, deferred_retired, run,
}
use coen.Agent.Running.Calls.{
  is_stable, connect_once-is_stable, is_attempt, is_reconnect, callbacks, is_deferred, count-append,
  callbacks-append, attempts, full_rounds, took_leave, one_when, Counted, run_loop-Counted,
  exists-callbacks, ends_deferred, ends_deferred-append, none_ends_deferred,
}

abbrev pub waits_of : List Event → List ℕ
waits_of [] = []
waits_of (waits n ∷ es) = n ∷ waits_of es
waits_of (_ ∷ es) = waits_of es

-- The backoff after so many attempts in a row that were not stable: doubled for each, up to the
-- maximum, which the first does not heed.
pub expected_backoff : Settings → ℕ → ℕ
expected_backoff c zero = c.min_backoff
expected_backoff c (suc k) = min (c.min_backoff * 2 ^ suc k) c.max_backoff

abbrev pub in_a_row : Settings → ℕ → Dialing → ℕ
in_a_row c fails a = if is_stable c a then 0 else fails

pub expected_waits : Settings → ℕ → Life → List ℕ
expected_waits c fails ended = []
expected_waits c fails (ends_connected a leave) = []
expected_waits c fails (ends_waiting a seed) =
    with_jitter seed (expected_backoff c (in_a_row c fails a)) ∷ []
expected_waits c fails (goes_on a seed rest) =
    with_jitter seed (expected_backoff c (in_a_row c fails a))
    ∷ expected_waits c (suc (in_a_row c fails a)) rest

waits_of-append : (es fs : List Event) → waits_of (es ++ fs) ≡ waits_of es ++ waits_of fs
waits_of-append [] fs = refl
waits_of-append (waits n ∷ es) fs = ap (◌∷◌ n) (waits_of-append es fs)
waits_of-append (_ ∷ es) fs = waits_of-append es fs

serve_session_quiet : (leave : Option Session) → waits_of (serve_session leave) ≡ []
serve_session_quiet none = refl
serve_session_quiet (some s) = refl

connect_once_quiet :
    (c : Settings) (a : Dialing) (leave : Option Session)
    → waits_of (connect_once c a leave).events ≡ []
unfolding connect_once
connect_once_quiet c a leave = ground (arith, serve_session_quiet leave)

double_pow : (m k : ℕ) → m * 2 ^ suc k ≡ m * 2 ^ k * 2
double_pow m k = simp unary_clauses (omega arith)

next-expected :
    (c : Settings) (k : ℕ)
    → next_backoff c.max_backoff (expected_backoff c k) ≡ expected_backoff c (suc k)
unfolding next_backoff expected_backoff
next-expected c zero = ground (arith, double_pow c.min_backoff 0)
next-expected c (suc k) = ground (arith, double_pow c.min_backoff (suc k))

backoff_after-expected :
    (c : Settings) (k : ℕ) (a : Dialing)
    → backoff_after c (expected_backoff c k) (connect_once c a none)
      ≡ expected_backoff c (in_a_row c k a)
unfolding expected_backoff
backoff_after-expected c k a = elim (Bool-cases (is_stable c a)) [
  | inl e ↦ rw (connect_once-is_stable c a none, e) refl
  | inr e ↦ rw (connect_once-is_stable c a none, e) refl
]

round_waits :
    (c : Settings) (a : Dialing) (w : ℕ)
    → waits_of (round_events (connect_once c a none) w) ≡ w ∷ []
unfolding round_events
round_waits c a w =
    waits_of-append (connect_once c a none).events _
    ∙ ap (λ ws. ws ++ (w ∷ [])) (connect_once_quiet c a none)

run_loop-waits :
    (c : Settings) (k : ℕ) (life : Life)
    → waits_of (run_loop c (expected_backoff c k) life) ≡ expected_waits c k life
unfolding run_loop expected_waits
run_loop-waits c k ended = refl
run_loop-waits c k (ends_connected a leave) = connect_once_quiet c a leave
run_loop-waits c k (ends_waiting a seed) = rw (backoff_after-expected c k a) (round_waits c a _)
run_loop-waits c k (goes_on a seed rest) =
    let j = in_a_row c k a in
    let w = with_jitter seed (expected_backoff c j) in
    rw (backoff_after-expected c k a, next-expected c j)
      (waits_of-append (round_events (connect_once c a none) w) _
        ∙ ap (λ ws. ws ++ waits_of (run_loop c (expected_backoff c (suc j)) rest))
            (round_waits c a w)
        ∙ ap (◌∷◌ w) (run_loop-waits c (suc j) rest))

-- No wait is longer than one and a half times the longest backoff.
abbrev pub longest : Settings → ℕ
longest c = if leb c.min_backoff c.max_backoff then c.max_backoff else c.min_backoff

expected_backoff-le : (c : Settings) (k : ℕ) → expected_backoff c k ≤ longest c
unfolding expected_backoff
expected_backoff-le c zero = ground arith
expected_backoff-le c (suc k) = ground arith

with_jitter-le : (seed d m : ℕ) → d ≤ m → with_jitter seed d * 2 ≤ m * 3
unfolding with_jitter
with_jitter-le seed d m h = grind arith

expected_waits-le :
    (c : Settings) (k : ℕ) (life : Life)
    → All (λ w. w * 2 ≤ longest c * 3) (expected_waits c k life)
unfolding expected_waits
expected_waits-le c k ended = tt
expected_waits-le c k (ends_connected a leave) = tt
expected_waits-le c k (ends_waiting a seed) =
    (with_jitter-le seed _ _ (expected_backoff-le c (in_a_row c k a)), tt)
expected_waits-le c k (goes_on a seed rest) = (
  with_jitter-le seed _ _ (expected_backoff-le c (in_a_row c k a)),
  expected_waits-le c (suc (in_a_row c k a)) rest,
)

pub record Persists (c : Settings) (life : Life) (es : List Event) : Type 0 where
  pub waited : waits_of es ≡ expected_waits c 0 life
  pub bounded : All (λ w. w * 2 ≤ longest c * 3) (waits_of es)
  pub attempted : count is_attempt es ≡ attempts life
  pub reconnected : count is_reconnect es ≡ full_rounds life
  pub called_once : callbacks es ≡ 1
  pub deferred : count is_deferred es ≡ one_when (not (took_leave c life))
  pub deferred_last : ends_deferred es ≡ not (took_leave c life)

-- The events of the loop, with what Run has deferred.
with_deferred :
    (c : Settings) (life : Life) (es : List Event)
    → Counted (attempts life) (full_rounds life) (one_when (took_leave c life)) es
    → waits_of es ≡ expected_waits c 0 life
    → Persists c life (es ++ deferred_retired es)
unfolding deferred_retired callbacks
with_deferred c life es v w = elim (Bool-cases (took_leave c life)) [
  | inl t ↦
      let ran : exists runs_callback es ≡ true =
        exists-callbacks es ∙ ground (arith, v.called_all, t) in
      rw (ran, append-nil es)
        (record {
          waited = w;
          bounded = rw w (expected_waits-le c 0 life);
          attempted = v.attempted_all;
          reconnected = v.reconnected_all;
          called_once = v.called_all ∙ rw t refl;
          deferred = rw t v.not_deferred;
          deferred_last = rw t (none_ends_deferred es v.not_deferred);
        })
  | inr t ↦
      let ran : exists runs_callback es ≡ false =
        exists-callbacks es ∙ ground (arith, v.called_all, t) in
      let waited : waits_of (es ++ (retires ∷ [])) ≡ expected_waits c 0 life =
        waits_of-append es (retires ∷ []) ∙ append-nil (waits_of es) ∙ w in
      rw ran (record {
        waited = waited;
        bounded = rw waited (expected_waits-le c 0 life);
        attempted = omega (arith, count-append is_attempt es (retires ∷ []), v.attempted_all);
        reconnected = omega (arith, count-append is_reconnect es (retires ∷ []), v.reconnected_all);
        called_once = ground (arith, callbacks-append es (retires ∷ []), v.called_all, t);
        deferred = ground (arith, count-append is_deferred es (retires ∷ []), v.not_deferred, t);
        deferred_last = rw t (ends_deferred-append es);
      })
]

-- Whatever each attempt meets, Run goes on connecting until its context ends: it attempts once in
-- every round of its life and counts a reconnect after every full one; before the next attempt it
-- waits for the backoff of the attempts in a row that were not stable, that is, that did not hold a
-- connection with the right edge for min_backoff, with jitter: min_backoff, doubled for each of them up
-- to max_backoff; so no wait is longer than one and a half times the longer of the two. The retired
-- callback runs once: in shutdownSession, if the context ends while a session is served, and else as
-- the last thing that Run does.
pub run-Persists : (c : Settings) (life : Life) → Persists c life (run c life)
unfolding run expected_backoff
run-Persists c life =
    with_deferred c life (run_loop c c.min_backoff life) (run_loop-Counted c c.min_backoff life)
      (run_loop-waits c 0 life)
