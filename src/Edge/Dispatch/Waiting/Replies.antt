-- ===== src/Edge/Dispatch/Waiting/Replies.antt =====
-- internal/edge/edge.go, dispatch: it ends, and when it gives up.
use coen.Base.{
  ℕ, zero, suc, ◌+◌, ◌-◌, ◌≤◌, ◌<◌, ◌≡◌, refl, Bool, true, false, Option, none, some, arith,
  if◌then◌else◌, ltb, Bool-cases, Option-cases, inl, inr, ◌⊎◌, ap, sym, ◌∙◌, subst,
}
use coen.Edge.Dispatch.{
  Why, handed, no_session_why, no_agent_why, preamble_error, stream_error, send_error,
}
use coen.Edge.Dispatch.Waiting.{
  Course, Reply, has_stream, stream_failed, no_agent, Dispatched, set_until, time_left, goes_on,
  may_wait, is_handed, dispatch,
}

-- Why dispatch stops waiting in round `n`.
pub data Stops (d : Course) (n : ℕ) : Type 0 where
  never_waits : d.agent_wait ≡ 0 → Stops d n
  waited_out : d.started 0 + d.agent_wait ≤ d.checked n → Stops d n
  is_cut_short : goes_on (d.wakes n) ≡ false → Stops d n

pub data IsReply (d : Course) (n : ℕ) : Reply → Bool → Type 0 where
  got : d.answers n ≡ handed → IsReply d n has_stream false
  failed :
      is_handed (d.answers n) ≡ false
      → may_wait (d.answers n) ≡ false
      → IsReply d n stream_failed false
  gave_up : may_wait (d.answers n) ≡ true → Stops d n → IsReply d n no_agent true

pub record IsDispatched (d : Course) (o : Dispatched) : Type 0 where
  pub replies : IsReply d o.round o.reply o.counted
  pub waited : (i : ℕ) → i < o.round → may_wait (d.answers i) ≡ true
  pub paused : (i : ℕ) → i < o.round → d.checked i < d.started 0 + d.agent_wait
  pub woken : (i : ℕ) → i < o.round → goes_on (d.wakes i) ≡ true
  pub waits_once : o.waits ≤ 1

-- What holds at the start of round `n`.
record IsWaiting (d : Course) (n : ℕ) (until : Option ℕ) (waits : ℕ) : Type 0 where
  same_until : (t : ℕ) → until ≡ some t → (t ≡ d.started 0 + d.agent_wait) × (0 < d.agent_wait)
  first : until ≡ none → (n ≡ 0) × (waits ≡ 0)
  before : (i : ℕ) → i < n → may_wait (d.answers i) ≡ true
  early : (i : ℕ) → i < n → d.checked i < d.started 0 + d.agent_wait
  wakes_before : (i : ℕ) → i < n → goes_on (d.wakes i) ≡ true
  counted_once : waits ≤ 1

is_handed-eq : (w : Why) → is_handed w ≡ true → w ≡ handed
is_handed-eq handed e = refl
is_handed-eq no_session_why e = cc
is_handed-eq no_agent_why e = cc
is_handed-eq preamble_error e = cc
is_handed-eq stream_error e = cc
is_handed-eq send_error e = cc

abbrev Returns : Course → Option Dispatched → Type 0
Returns d r = (o : Dispatched) × (r ≡ some o) × IsDispatched d o

-- The wait as round `n` has set it.
record IsUntil (d : Course) (n : ℕ) (out : Option ℕ × ℕ) : Type 0 where
  set_to : (t : ℕ) → out.0 ≡ some t → (t ≡ d.started 0 + d.agent_wait) × (0 < d.agent_wait)
  unset : out.0 ≡ none → (d.agent_wait ≡ 0) × (n ≡ 0) × (out.1 ≡ 0)
  set_once : out.1 ≤ 1

set_until-IsUntil :
    (d : Course) (n : ℕ) (until : Option ℕ) (waits : ℕ)
    → IsWaiting d n until waits
    → IsUntil d n (set_until d n until waits)
unfolding set_until
set_until-IsUntil d n none waits v = elim (Bool-cases (ltb 0 d.agent_wait)) [
  | inl e ↦ simp e (record {
    set_to = λ t q. (ground (arith, (v.first refl).0, ap d.started (v.first refl).0), ground arith);
    unset = λ q. cc;
    set_once = ground (arith, (v.first refl).1);
  })
  | inr e ↦ simp e (record {
    set_to = λ t q. cc;
    unset = λ q. (ground arith, (v.first refl).0, (v.first refl).1);
    set_once = v.counted_once;
  })
]
set_until-IsUntil d n (some u) waits v = record {
  set_to = v.same_until;
  unset = λ q. cc;
  set_once = v.counted_once;
}

-- While time is left, the wait is set and has not run out.
time_left-early :
    (d : Course) (n now : ℕ) (out : Option ℕ × ℕ)
    → IsUntil d n out
    → ltb 0 (time_left out.0 now) ≡ true
    → now < d.started 0 + d.agent_wait
time_left-early d n now (none, k) v e = absurd (ground arith)
time_left-early d n now (some t, k) v e = ground (arith, (v.set_to t refl).0)

no_time_left-Stops :
    (d : Course) (n : ℕ) (out : Option ℕ × ℕ)
    → IsUntil d n out
    → ltb 0 (time_left out.0 (d.checked n)) ≡ false
    → Stops d n
no_time_left-Stops d n (none, k) v e = never_waits (v.unset refl).0
no_time_left-Stops d n (some t, k) v e = waited_out (ground (arith, (v.set_to t refl).0))

some_set :
    (d : Course) (n now : ℕ) (out : Option ℕ × ℕ)
    → IsUntil d n out
    → ltb 0 (time_left out.0 now) ≡ true
    → out.0 ≡ none
    → ⊥
some_set d n now (none, k) v e q = ground arith
some_set d n now (some t, k) v e q = cc

-- What holds of the rounds before `n` and of round `n` holds of those before the next.
up_to : (P : ℕ → Type 0) (n : ℕ) → ((i : ℕ) → i < n → P i) → P n → (i : ℕ) → i < n + 1 → P i
up_to P n old new i h = elim (Bool-cases (ltb i n)) [
  | inl e ↦ old i (ground arith)
  | inr e ↦ coen.Base.subst P (ground arith) new
]

next-IsWaiting :
    (d : Course) (n : ℕ) (until : Option ℕ) (waits : ℕ)
    → IsWaiting d n until waits
    → may_wait (d.answers n) ≡ true
    → ltb 0 (time_left (set_until d n until waits).0 (d.checked n)) ≡ true
    → goes_on (d.wakes n) ≡ true
    → IsWaiting d (n + 1) (set_until d n until waits).0 (set_until d n until waits).1
next-IsWaiting d n until waits v m l g =
    let s = set_until-IsUntil d n until waits v in
    record {
      same_until = s.set_to;
      first = λ q. absurd (some_set d n (d.checked n) _ s l q);
      before = up_to (λ i. may_wait (d.answers i) ≡ true) n v.before m;
      early =
          up_to (λ i. d.checked i < d.started 0 + d.agent_wait) n v.early
            (time_left-early d n (d.checked n) _ s l);
      wakes_before = up_to (λ i. goes_on (d.wakes i) ≡ true) n v.wakes_before g;
      counted_once = s.set_once;
    }

stopped :
    (d : Course) (n : ℕ) (until : Option ℕ) (waits : ℕ) (reply : Reply) (k : ℕ) (b : Bool)
    → IsWaiting d n until waits
    → k ≤ 1
    → IsReply d n reply b
    → IsDispatched d (record { reply = reply; round = n; waits = k; counted = b })
stopped d n until waits reply k b v h r = record {
  replies = r;
  waited = v.before;
  paused = v.early;
  woken = v.wakes_before;
  waits_once = h;
}

dispatch-Returns :
    (fuel : ℕ) (d : Course) (n : ℕ) (until : Option ℕ) (waits last : ℕ)
    → d.started 0 + d.agent_wait ≤ d.checked last
    → last < n + fuel
    → IsWaiting d n until waits
    → Returns d (dispatch fuel d n until waits)
unfolding dispatch
dispatch-Returns zero d n until waits last late h v =
    absurd (omega (arith, v.early last (omega arith)))
dispatch-Returns (suc fuel) d n until waits last late h v =
    let s = set_until-IsUntil d n until waits v in
    elim (Bool-cases (is_handed (d.answers n))) [
      | inl e ↦ simp e (
        _,
        refl,
        stopped d n until waits has_stream waits false v v.counted_once
            (got (is_handed-eq (d.answers n) e)),
      )
      | inr e ↦ elim (Bool-cases (may_wait (d.answers n))) [
        | inr m ↦
            simp (e, m)
              (
                _,
                refl,
                stopped d n until waits stream_failed waits false v v.counted_once (failed e m),
              )
        | inl m ↦
            elim (Bool-cases (ltb 0 (time_left (set_until d n until waits).0 (d.checked n)))) [
              | inr l ↦
                  simp (e, m, l)
                    (
                      _,
                      refl,
                      stopped d n until waits no_agent _ true v s.set_once
                          (gave_up m (no_time_left-Stops d n _ s l)),
                    )
              | inl l ↦ elim (Bool-cases (goes_on (d.wakes n))) [
                | inr g ↦
                    simp (e, m, l, g)
                      (
                        _,
                        refl,
                        stopped d n until waits no_agent _ true v s.set_once
                            (gave_up m (is_cut_short g)),
                      )
                | inl g ↦
                    simp (e, m, l, g)
                      (dispatch-Returns fuel d (n + 1) _ _ last late (omega arith)
                        (next-IsWaiting d n until waits v m l g))
              ]
            ]
      ]
    ]

-- If the wait has run out by the clock of some round, dispatch ends in that round or before. Every round
-- before the last found no agent to take the request, in time and with the edge serving and the
-- context open. It hands the request over if and only if the last round did; it reports a failed
-- stream if that round did; and it reports, and counts, that there is no agent only after a last try,
-- and only if agent_wait is off, has run out since the first round, or was cut short by the end of the
-- context or of the edge. It counts at most one wait.
pub dispatch_returns :
    (d : Course) (last : ℕ)
    → d.started 0 + d.agent_wait ≤ d.checked last
    → (o : Dispatched) × (dispatch (last + 1) d 0 none 0 ≡ some o) × IsDispatched d o
dispatch_returns d last late =
    dispatch-Returns (last + 1) d 0 none 0 last late (omega arith) (record {
      same_until = λ t q. cc;
      first = λ q. (refl, refl);
      before = λ i h. absurd (omega arith);
      early = λ i h. absurd (omega arith);
      wakes_before = λ i h. absurd (omega arith);
      counted_once = omega arith;
    })
