-- ===== src/Agent/Running/Calls.antt =====
-- internal/agent/agent.go, Run: how often the agent connects, and when its retired callback runs.
use coen.Base.{
  ℕ, suc, ◌+◌, ◌≡◌, refl, ap, Bool, true, false, List, [], ◌∷◌, ◌++◌, if◌then◌else◌, leb, arith,
  count, not, ◌&&◌, ◌||◌, Option, none, some, Bytes, bytes_eq, exists, ltb,
}
use coen.Agent.Shutdown.{Session}
use coen.Agent.Shutdown.Order.{is_retire, shutdown_session-Leaves}
use coen.Agent.Running.{
  Dialing, Event, counts_handshake_fail, counts_handshake_ok, sets_disconnected, counts_reconnect,
  retires, shuts_down, sets_error, waits, Settings, connect_once, with_jitter, next_backoff, Life,
  ended, ends_connected, ends_waiting, goes_on, round_events, backoff_after, run_loop,
  runs_callback,
}

abbrev no_pin : Bytes → Bool
no_pin [] = true
no_pin _ = false

-- The TLS handshake is done, with the edge that the settings name, if they name one.
pub is_connected : Settings → Dialing → Bool
is_connected c a =
    not a.dial_fails
    && (not a.handshake_fails
        && (no_pin c.edge_fingerprint || bytes_eq c.edge_fingerprint a.peer_fp))

-- It then lasts at least min_backoff.
pub is_stable : Settings → Dialing → Bool
is_stable c a = is_connected c a && leb c.min_backoff a.lived

pub has_session : Settings → Dialing → Bool
has_session c a = is_connected c a && not a.session_fails

pub connect_once-is_stable :
    (c : Settings) (a : Dialing) (leave : Option Session)
    → (connect_once c a leave).stable ≡ is_stable c a
unfolding connect_once is_stable is_connected
connect_once-is_stable c a leave = ground arith

-- Counting the events of a part.
abbrev pub is_attempt : Event → Bool
is_attempt counts_handshake_fail = true
is_attempt counts_handshake_ok = true
is_attempt _ = false

-- How often the callback runs, in shutdownSession or at the end.
unfoldable pub callbacks : List Event → ℕ
callbacks [] = 0
callbacks (shuts_down es ∷ fs) = count is_retire es + callbacks fs
callbacks (retires ∷ fs) = suc (callbacks fs)
callbacks (_ ∷ fs) = callbacks fs

abbrev pub is_deferred : Event → Bool
is_deferred retires = true
is_deferred _ = false

abbrev pub is_reconnect : Event → Bool
is_reconnect counts_reconnect = true
is_reconnect _ = false

pub count-append :
    (p : Event → Bool) (es fs : List Event) → count p (es ++ fs) ≡ count p es + count p fs
count-append p [] fs = omega arith
count-append p (e ∷ es) fs = ground (arith, count-append p es fs)

abbrev pub attempts : Life → ℕ
attempts ended = 0
attempts (ends_connected a leave) = 1
attempts (ends_waiting a seed) = 1
attempts (goes_on a seed rest) = suc (attempts rest)

abbrev pub full_rounds : Life → ℕ
full_rounds (goes_on a seed rest) = suc (full_rounds rest)
full_rounds _ = 0

abbrev is_leave : Option Session → Bool
is_leave none = false
is_leave (some s) = true

-- The context ends while a session is served.
pub took_leave : Settings → Life → Bool
took_leave c ended = false
took_leave c (ends_connected a leave) = has_session c a && is_leave leave
took_leave c (ends_waiting a seed) = false
took_leave c (goes_on a seed rest) = took_leave c rest

abbrev pub one_when : Bool → ℕ
one_when b = if b then 1 else 0

pub record Counted (attempted reconnected called : ℕ) (es : List Event) : Type 0 where
  pub attempted_all : count is_attempt es ≡ attempted
  pub reconnected_all : count is_reconnect es ≡ reconnected
  pub called_all : callbacks es ≡ called
  pub not_deferred : count is_deferred es ≡ 0

pub callbacks-append : (es fs : List Event) → callbacks (es ++ fs) ≡ callbacks es + callbacks fs
unfolding callbacks
callbacks-append [] fs = omega arith
callbacks-append (shuts_down xs ∷ es) fs = omega (arith, callbacks-append es fs)
callbacks-append (retires ∷ es) fs = omega (arith, callbacks-append es fs)
callbacks-append (_ ∷ es) fs = callbacks-append es fs

append-Counted :
    (m n j k a b : ℕ) (es fs : List Event)
    → Counted m j a es
    → Counted n k b fs
    → Counted (m + n) (j + k) (a + b) (es ++ fs)
append-Counted m n j k a b es fs v w = record {
  attempted_all = omega (arith, count-append is_attempt es fs, v.attempted_all, w.attempted_all);
  reconnected_all =
      omega (arith, count-append is_reconnect es fs, v.reconnected_all, w.reconnected_all);
  called_all = omega (arith, callbacks-append es fs, v.called_all, w.called_all);
  not_deferred = omega (arith, count-append is_deferred es fs, v.not_deferred, w.not_deferred);
}

connect_once-Counted :
    (c : Settings) (a : Dialing) (leave : Option Session)
    → Counted 1 0 (one_when (has_session c a && is_leave leave)) (connect_once c a leave).events
unfolding connect_once has_session is_connected callbacks
connect_once-Counted c a none = ground arith
connect_once-Counted c a (some s) = ground (arith, (shutdown_session-Leaves s).retired_once)

round-Counted :
    (c : Settings) (a : Dialing) (w : ℕ) → Counted 1 0 0 (round_events (connect_once c a none) w)
unfolding round_events callbacks
round-Counted c a w =
    let v = connect_once-Counted c a none in
    append-Counted 1 0 0 0 0 0 (connect_once c a none).events
      (sets_disconnected ∷ sets_error (connect_once c a none).error ∷ waits w ∷ [])
      (record {
        attempted_all = v.attempted_all;
        reconnected_all = v.reconnected_all;
        called_all = ground (arith, v.called_all);
        not_deferred = v.not_deferred;
      })
      (record {
        attempted_all = refl;
        reconnected_all = refl;
        called_all = refl;
        not_deferred = refl;
      })

pub run_loop-Counted :
    (c : Settings) (b : ℕ) (life : Life)
    → Counted (attempts life) (full_rounds life) (one_when (took_leave c life)) (run_loop c b life)
unfolding run_loop took_leave callbacks
run_loop-Counted c b ended = record {
  attempted_all = refl;
  reconnected_all = refl;
  called_all = refl;
  not_deferred = refl;
}
run_loop-Counted c b (ends_connected a leave) = connect_once-Counted c a leave
run_loop-Counted c b (ends_waiting a seed) = round-Counted c a _
run_loop-Counted c b (goes_on a seed rest) =
    let d = backoff_after c b (connect_once c a none) in
    let v = run_loop-Counted c (next_backoff c.max_backoff d) rest in
    let w =
      append-Counted 1 (attempts rest) 0 (suc (full_rounds rest)) 0 (one_when (took_leave c rest))
        (round_events (connect_once c a none) (with_jitter seed d))
        (counts_reconnect ∷ run_loop c (next_backoff c.max_backoff d) rest)
        (round-Counted c a (with_jitter seed d))
        (record {
          attempted_all = v.attempted_all;
          reconnected_all = ap suc v.reconnected_all;
          called_all = v.called_all;
          not_deferred = v.not_deferred;
        }) in
    record {
      attempted_all = omega (arith, w.attempted_all);
      reconnected_all = omega (arith, w.reconnected_all);
      called_all = omega (arith, w.called_all);
      not_deferred = w.not_deferred;
    }

exists_iff_count : {A : Type 0} (p : A → Bool) (xs : List A) → exists p xs ≡ ltb 0 (count p xs)
exists_iff_count p [] = refl
exists_iff_count p (x ∷ xs) = ground (arith, exists_iff_count p xs)

pub exists-callbacks : (es : List Event) → exists runs_callback es ≡ ltb 0 (callbacks es)
unfolding callbacks
exists-callbacks [] = refl
exists-callbacks (shuts_down xs ∷ es) =
    ground (arith, exists_iff_count is_retire xs, exists-callbacks es)
exists-callbacks (retires ∷ es) = ground arith
exists-callbacks (_ ∷ es) = exists-callbacks es

-- The last event is the callback that Run has deferred.
pub ends_deferred : List Event → Bool
ends_deferred [] = false
ends_deferred (e ∷ []) = is_deferred e
ends_deferred (e ∷ f ∷ es) = ends_deferred (f ∷ es)

pub ends_deferred-append : (es : List Event) → ends_deferred (es ++ (retires ∷ [])) ≡ true
unfolding ends_deferred
ends_deferred-append [] = refl
ends_deferred-append (e ∷ []) = refl
ends_deferred-append (e ∷ f ∷ es) = ends_deferred-append (f ∷ es)

pub none_ends_deferred : (es : List Event) → count is_deferred es ≡ 0 → ends_deferred es ≡ false
unfolding ends_deferred
none_ends_deferred [] e = refl
none_ends_deferred (x ∷ []) e = ground (arith, e)
none_ends_deferred (x ∷ y ∷ es) e = none_ends_deferred (y ∷ es) (ground (arith, e))
