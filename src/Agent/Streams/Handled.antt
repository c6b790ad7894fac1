-- ===== src/Agent/Streams/Handled.antt =====
-- internal/agent/agent.go, handleStream: how each stream ends.
use coen.Base.{
  ℕ, suc, ◌+◌, ◌≤◌, ◌≡◌, refl, ap, Bool, true, false, not, ◌&&◌, Option, none, some, List, [], ◌∷◌,
  ◌++◌, if◌then◌else◌, arith, inl, inr, Bool-cases, count, count-append_one, All, All-append,
  bytes_eq,
}
use coen.Route.{match_host}
use coen.Tunnel.Preamble.{Preamble, Result, fails, reads, read_preamble}
use coen.Agent.Streams.{
  AgentRoute, Agent, Event, sends_accept, closes_stream, counts_preamble_error, counts_no_route,
  counts_dial_error, writes_page, counts_opened, counts_closed, pipes, Incoming, is_teardown,
  to_service, version_warning, after_preamble, accepted, handle_stream,
}

abbrev pub is_close : Event → Bool
is_close closes_stream = true
is_close _ = false

abbrev pub is_accept : Event → Bool
is_accept sends_accept = true
is_accept _ = false

abbrev pub is_failure : Event → Bool
is_failure counts_preamble_error = true
is_failure counts_no_route = true
is_failure (counts_dial_error stats) = true
is_failure _ = false

abbrev pub is_page : Event → Bool
is_page (writes_page status) = true
is_page _ = false

abbrev pub is_pipe : Event → Bool
is_pipe (pipes service) = true
is_pipe _ = false

abbrev pub is_opened : Event → Bool
is_opened (counts_opened stats) = true
is_opened _ = false

abbrev pub is_closed : Event → Bool
is_closed (counts_closed stats) = true
is_closed _ = false

-- A stream is piped only to the service of the route that its host matches.
abbrev pub IsRouted : Agent → Incoming → Event → Type 0
IsRouted a i (pipes service) =
    (p : Preamble) × (rt : AgentRoute) × ((read_preamble a.json i.reader).1 ≡ reads p)
    × (match_host a.routes p.host ≡ some rt)
    × (rt.service ≡ service)
    × (i.dial_fails ≡ false)
IsRouted a i _ = Unit

-- Between the accept byte and the close.
record IsWorked (a : Agent) (i : Incoming) (es : List Event) : Type 0 where
  not_closed : count is_close es ≡ 0
  not_accepted : count is_accept es ≡ 0
  one_end : count is_failure es + count is_pipe es ≤ 1
  pages : count is_page es ≤ count is_failure es
  opened_piped : count is_opened es ≡ count is_pipe es
  closed_piped : count is_closed es ≡ count is_pipe es
  routed : All (IsRouted a i) es

to_service-IsWorked :
    (a : Agent) (i : Incoming) (p : Preamble) (o : Option AgentRoute)
    → (read_preamble a.json i.reader).1 ≡ reads p
    → match_host a.routes p.host ≡ o
    → IsWorked a i (to_service i o)
unfolding to_service
to_service-IsWorked a i p none e q = ground arith
to_service-IsWorked a i p (some rt) e q = elim (Bool-cases i.dial_fails) [
  | inl d ↦ simp d (ground arith)
  | inr d ↦ simp d (ground arith)
]

warned-IsWorked :
    (a : Agent) (i : Incoming) (p : Preamble) (es : List Event)
    → IsWorked a i es
    → IsWorked a i (version_warning a i p ++ es)
unfolding version_warning
warned-IsWorked a i p es w = elim (Bool-cases (bytes_eq p.edge_version a.version)) [
  | inl e ↦ rw e w
  | inr e ↦ elim (Bool-cases i.warned) [
    | inl f ↦ simp (e, f) w
    | inr f ↦
        simp (e, f)
          (record {
            not_closed = w.not_closed;
            not_accepted = w.not_accepted;
            one_end = w.one_end;
            pages = w.pages;
            opened_piped = w.opened_piped;
            closed_piped = w.closed_piped;
            routed = (tt, w.routed);
          })
  ]
]

after_preamble-IsWorked :
    (a : Agent) (i : Incoming) (r : Result)
    → (read_preamble a.json i.reader).1 ≡ r
    → IsWorked a i (after_preamble a i r)
unfolding after_preamble
after_preamble-IsWorked a i (fails e) q = elim (Bool-cases (is_teardown i.other_is_teardown e)) [
  | inl t ↦ rw t (ground arith)
  | inr t ↦ rw t (ground arith)
]
after_preamble-IsWorked a i (reads p) q =
    warned-IsWorked a i p _ (to_service-IsWorked a i p (match_host a.routes p.host) q refl)

abbrev pub takes : Incoming → Bool
takes i = i.accept && not i.accept_fails

pub record IsHandled (a : Agent) (i : Incoming) (accepts : ℕ) (es : List Event) : Type 0 where
  pub closed_once : count is_close es ≡ 1
  pub accepted_once : count is_accept es ≡ accepts
  pub one_end : count is_failure es + count is_pipe es ≤ 1
  pub pages : count is_page es ≤ count is_failure es
  pub opened_piped : count is_opened es ≡ count is_pipe es
  pub closed_piped : count is_closed es ≡ count is_pipe es
  pub routed : All (IsRouted a i) es

closed-IsHandled :
    (a : Agent) (i : Incoming) (es : List Event)
    → IsWorked a i es
    → IsHandled a i 0 (es ++ (closes_stream ∷ []))
closed-IsHandled a i es w = record {
  closed_once = ground (arith, count-append_one is_close es closes_stream, w.not_closed);
  accepted_once = ground (arith, count-append_one is_accept es closes_stream, w.not_accepted);
  one_end = ground (
    arith,
    count-append_one is_failure es closes_stream,
    count-append_one is_pipe es closes_stream,
    w.one_end,
  );
  pages = ground (
    arith,
    count-append_one is_failure es closes_stream,
    count-append_one is_page es closes_stream,
    w.pages,
  );
  opened_piped = ground (
    arith,
    count-append_one is_opened es closes_stream,
    count-append_one is_pipe es closes_stream,
    w.opened_piped,
  );
  closed_piped = ground (
    arith,
    count-append_one is_closed es closes_stream,
    count-append_one is_pipe es closes_stream,
    w.closed_piped,
  );
  routed = All-append (IsRouted a i) es (closes_stream ∷ []) w.routed (tt, tt);
}

accepted-IsHandled :
    (a : Agent) (i : Incoming) (es : List Event)
    → IsHandled a i 0 es
    → IsHandled a i 1 (sends_accept ∷ es)
accepted-IsHandled a i es h = record {
  closed_once = h.closed_once;
  accepted_once = ap suc h.accepted_once;
  one_end = h.one_end;
  pages = h.pages;
  opened_piped = h.opened_piped;
  closed_piped = h.closed_piped;
  routed = (tt, h.routed);
}

refused-IsHandled : (a : Agent) (i : Incoming) → IsHandled a i 0 (closes_stream ∷ [])
refused-IsHandled a i = closed-IsHandled a i [] (ground arith)

-- Whatever the stream holds and the services answer, handleStream: sends the accept byte once when the
-- session is of version 2 and the write succeeds, and never else; pipes the stream to a service or
-- counts a failure, at most one of them; writes an error page only with a failure; counts a stream
-- opened, and closed, exactly when it pipes one; pipes only to the service of the route that the host
-- of the preamble matches, which answered; and closes the stream, once.
pub handle_stream-IsHandled :
    (a : Agent) (i : Incoming) → IsHandled a i (if takes i then 1 else 0) (handle_stream a i)
unfolding handle_stream accepted
handle_stream-IsHandled a i = elim (Bool-cases i.accept) [
  | inr e ↦ simp e (closed-IsHandled a i _ (after_preamble-IsWorked a i _ refl))
  | inl e ↦ elim (Bool-cases i.accept_fails) [
    | inl f ↦ simp (e, f) (refused-IsHandled a i)
    | inr f ↦
        simp (e, f)
          (accepted-IsHandled a i _ (closed-IsHandled a i _ (after_preamble-IsWorked a i _ refl)))
  ]
]
