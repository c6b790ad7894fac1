-- ===== src/Obs/State/Agreement.antt =====
-- internal/obs/state.go and routes.go: what holds of the state after any sequence of its operations,
-- and what Detail shows then.
use coen.Base.{
  ℕ, suc, ◌+◌, ◌≡◌, refl, Bool, true, false, not, Option, none, some, List, [], ◌∷◌, map,
  if◌then◌else◌, ◌==◌, arith, Bytes, bytes_eq, exists, keep, Bool-cases, inl, inr,
}
use coen.Obs.Routes.{RouteStats, new_route_stats, opened, closed}
use coen.Obs.State.{
  State, new_state, reserve, commit, session_stream_closed, set_session_draining, new_agent_session,
  add_agent, agent_disconnected, set_connected, set_disconnected, on_route, has_route, get_route,
  stream_opened, stream_closed, count_reconnect, count_handshake_ok, count_handshake_fail,
  count_handshake_rejected, count_handshake_duplicate, count_handshake_capped, count_header_timeout,
  set_error, set_self_fingerprint, set_http3_listen, set_draining, state_failure, expect_agents,
}

pub data StateOp : Type 0 where
  gets_route : Bytes → StateOp
  opens : Option Bytes → (h3 : Bool) → StateOp
  closes : Option Bytes → StateOp
  fails : (reason : ℕ) → StateOp
  news_session : (a : ℕ) → (fp addr : Bytes) → (now : ℕ) → StateOp
  adds_agent disconnects : (a : ℕ) → StateOp
  reserves commits ends drains_session : Option ℕ → StateOp
  expects : List (Bytes × Bool) → StateOp
  connects : Bytes → (now : ℕ) → StateOp
  disconnects_tunnel drains reconnects : StateOp
  handshake_ok handshake_fail handshake_rejected handshake_duplicate handshake_capped : StateOp
  times_out : StateOp
  errs is_self listens_http3 : Bytes → StateOp

pub apply : StateOp → State → State
apply (gets_route p) s = get_route p s
apply (opens r h3) s = stream_opened r h3 s
apply (closes r) s = stream_closed r s
apply (fails reason) s = state_failure reason s
apply (news_session a fp addr now) s = new_agent_session a fp addr now s
apply (adds_agent a) s = add_agent a s
apply (disconnects a) s = agent_disconnected a s
apply (reserves a) s = reserve a s
apply (commits a) s = commit a s
apply (ends a) s = session_stream_closed a s
apply (drains_session a) s = set_session_draining a s
apply (expects allowed) s = expect_agents allowed s
apply (connects fp now) s = set_connected fp now s
apply disconnects_tunnel s = set_disconnected s
apply drains s = set_draining s
apply reconnects s = count_reconnect s
apply handshake_ok s = count_handshake_ok s
apply handshake_fail s = count_handshake_fail s
apply handshake_rejected s = count_handshake_rejected s
apply handshake_duplicate s = count_handshake_duplicate s
apply handshake_capped s = count_handshake_capped s
apply times_out s = count_header_timeout s
apply (errs e) s = set_error e s
apply (is_self fp) s = set_self_fingerprint fp s
apply (listens_http3 addr) s = set_http3_listen addr s

-- The last operation stands first.
pub run : Bytes → ℕ → List StateOp → State
run role now [] = new_state role now
run role now (op ∷ ops) = apply op (run role now ops)

abbrev pub Distinct : List Bytes → Type 0
Distinct [] = Unit
Distinct (x ∷ xs) = (exists (λ k. bytes_eq k x) xs ≡ false) × Distinct xs

abbrev pub DistinctAgents : List ℕ → Type 0
DistinctAgents [] = Unit
DistinctAgents (x ∷ xs) = (exists (λ k. k == x) xs ≡ false) × DistinctAgents xs

abbrev pub patterns : List RouteStats → List Bytes
patterns = map (λ r. r.pattern_text)

abbrev pub streams_of : List RouteStats → ℕ
streams_of [] = 0
streams_of (r ∷ rs) = r.all_streams + streams_of rs

-- The streams that were opened on no route.
abbrev pub unrouted_after : StateOp → State → ℕ → ℕ
unrouted_after (opens none h3) s lost = suc lost
unrouted_after (opens (some p) h3) s lost = if has_route p s.routes then lost else suc lost
unrouted_after _ s lost = lost

pub unrouted_opens : Bytes → ℕ → List StateOp → ℕ
unrouted_opens role now [] = 0
unrouted_opens role now (op ∷ ops) =
    unrouted_after op (run role now ops) (unrouted_opens role now ops)

pub record Agrees (lost : ℕ) (s : State) : Type 0 where
  pub routes_once : Distinct (patterns s.routes)
  pub agents_once : DistinctAgents s.agents
  pub expected_once : Distinct s.expected
  pub streams : s.total_streams ≡ streams_of s.routes + lost

on_route-patterns :
    (f : RouteStats → RouteStats) (p : Bytes) (rs : List RouteStats)
    → ((r : RouteStats) → (f r).pattern_text ≡ r.pattern_text)
    → patterns (on_route f p rs) ≡ patterns rs
unfolding on_route
on_route-patterns f p [] h = refl
on_route-patterns f p (r ∷ rs) h = ground (arith, h r, on_route-patterns f p rs h)

on_route-opened :
    (h3 : Bool) (p : Bytes) (rs : List RouteStats)
    → suc (streams_of rs)
      ≡ streams_of (on_route (opened h3) p rs) + (if has_route p rs then 0 else 1)
unfolding on_route opened has_route
on_route-opened h3 p [] = refl
on_route-opened h3 p (r ∷ rs) = ground (arith, on_route-opened h3 p rs)

on_route-closed :
    (p : Bytes) (rs : List RouteStats) → streams_of (on_route closed p rs) ≡ streams_of rs
unfolding on_route closed
on_route-closed p [] = refl
on_route-closed p (r ∷ rs) = ground (arith, on_route-closed p rs)

has_route-patterns :
    (p : Bytes) (rs : List RouteStats) → has_route p rs ≡ exists (λ k. bytes_eq k p) (patterns rs)
unfolding has_route
has_route-patterns p [] = refl
has_route-patterns p (r ∷ rs) = ground (arith, has_route-patterns p rs)

exists-keep :
    (p : ℕ → Bool) (x : ℕ) (xs : List ℕ)
    → exists (λ k. k == x) xs ≡ false
    → exists (λ k. k == x) (keep p xs) ≡ false
exists-keep p x [] h = refl
exists-keep p x (y ∷ ys) h = ground (arith, exists-keep p x ys)

keep-DistinctAgents : (p : ℕ → Bool) (xs : List ℕ) → DistinctAgents xs → DistinctAgents (keep p xs)
keep-DistinctAgents p [] h = tt
keep-DistinctAgents p (x ∷ xs) h = elim (Bool-cases (p x)) [
  | inl e ↦ rw e (exists-keep p x xs h.0, keep-DistinctAgents p xs h.1)
  | inr e ↦ rw e (keep-DistinctAgents p xs h.1)
]

-- Operations that leave the routes, the listed sessions, the expected ones and the total alone.
same-Agrees :
    (lost : ℕ) (s t : State)
    → Agrees lost s
    → t.routes ≡ s.routes
    → t.agents ≡ s.agents
    → t.expected ≡ s.expected
    → t.total_streams ≡ s.total_streams
    → Agrees lost t
same-Agrees lost s t g a b c d = record {
  routes_once = rw a g.routes_once;
  agents_once = rw b g.agents_once;
  expected_once = rw c g.expected_once;
  streams = rw (a, d) g.streams;
}

expect_agents-Agrees :
    (allowed : List (Bytes × Bool)) (lost : ℕ) (s : State)
    → Agrees lost s
    → Agrees lost (expect_agents allowed s)
unfolding expect_agents
expect_agents-Agrees [] lost s g = g
expect_agents-Agrees ((fp, false) ∷ rest) lost s g = expect_agents-Agrees rest lost s g
expect_agents-Agrees ((fp, true) ∷ rest) lost s g =
    elim (Bool-cases (exists (λ k. bytes_eq k fp) s.expected)) [
      | inl e ↦ rw e (expect_agents-Agrees rest lost s g)
      | inr e ↦ rw e (
          expect_agents-Agrees rest lost (record s { expected = fp ∷ s.expected })
            (record {
              routes_once = g.routes_once;
              agents_once = g.agents_once;
              expected_once = (e, g.expected_once);
              streams = g.streams;
            }))
    ]

opened-pattern : (h3 : Bool) (r : RouteStats) → (opened h3 r).pattern_text ≡ r.pattern_text
unfolding opened
opened-pattern h3 r = refl

closed-pattern : (r : RouteStats) → (closed r).pattern_text ≡ r.pattern_text
unfolding closed
closed-pattern r = refl

opened-Agrees :
    (r : Option Bytes) (h3 : Bool) (lost : ℕ) (s : State)
    → Agrees lost s
    → Agrees (unrouted_after (opens r h3) s lost) (stream_opened r h3 s)
unfolding stream_opened
opened-Agrees none h3 lost s g = record {
  routes_once = g.routes_once;
  agents_once = g.agents_once;
  expected_once = g.expected_once;
  streams = omega (arith, g.streams);
}
opened-Agrees (some p) h3 lost s g = record {
  routes_once = rw (on_route-patterns (opened h3) p s.routes (opened-pattern h3)) g.routes_once;
  agents_once = g.agents_once;
  expected_once = g.expected_once;
  streams = ground (arith, g.streams, on_route-opened h3 p s.routes);
}

closed-Agrees :
    (r : Option Bytes) (lost : ℕ) (s : State) → Agrees lost s → Agrees lost (stream_closed r s)
unfolding stream_closed
closed-Agrees none lost s g = same-Agrees lost s _ g refl refl refl refl
closed-Agrees (some p) lost s g = record {
  routes_once = rw (on_route-patterns closed p s.routes closed-pattern) g.routes_once;
  agents_once = g.agents_once;
  expected_once = g.expected_once;
  streams = omega (arith, g.streams, on_route-closed p s.routes);
}

get_route-Agrees : (p : Bytes) (lost : ℕ) (s : State) → Agrees lost s → Agrees lost (get_route p s)
unfolding get_route
get_route-Agrees p lost s g = elim (Bool-cases (has_route p s.routes)) [
  | inl e ↦ rw e g
  | inr e ↦ rw e (record {
    routes_once =
        unfold new_route_stats in (ground (arith, has_route-patterns p s.routes), g.routes_once);
    agents_once = g.agents_once;
    expected_once = g.expected_once;
    streams = unfold new_route_stats in omega (arith, g.streams);
  })
]

add_agent-Agrees : (a lost : ℕ) (s : State) → Agrees lost s → Agrees lost (add_agent a s)
unfolding add_agent
add_agent-Agrees a lost s g = elim (Bool-cases (exists (λ b. b == a) s.agents)) [
  | inl e ↦ rw e g
  | inr e ↦ rw e (record {
    routes_once = g.routes_once;
    agents_once = (e, g.agents_once);
    expected_once = g.expected_once;
    streams = g.streams;
  })
]

apply-Agrees :
    (op : StateOp) (lost : ℕ) (s : State)
    → Agrees lost s
    → Agrees (unrouted_after op s lost) (apply op s)
unfolding apply reserve commit session_stream_closed set_session_draining set_connected
    set_disconnected set_draining count_reconnect count_handshake_ok count_handshake_fail
    count_handshake_rejected count_handshake_duplicate count_handshake_capped count_header_timeout
    set_error set_self_fingerprint set_http3_listen
apply-Agrees (gets_route p) lost s g = get_route-Agrees p lost s g
apply-Agrees (opens r h3) lost s g = opened-Agrees r h3 lost s g
apply-Agrees (closes r) lost s g = closed-Agrees r lost s g
apply-Agrees (fails reason) lost s g =
    unfold state_failure in same-Agrees lost s _ g refl refl refl refl
apply-Agrees (news_session a fp addr now) lost s g =
    unfold new_agent_session in same-Agrees lost s _ g refl refl refl refl
apply-Agrees (adds_agent a) lost s g = add_agent-Agrees a lost s g
apply-Agrees (disconnects a) lost s g =
    unfold agent_disconnected in
    record {
      routes_once = g.routes_once;
      agents_once = keep-DistinctAgents (λ b. not (b == a)) s.agents g.agents_once;
      expected_once = g.expected_once;
      streams = g.streams;
    }
apply-Agrees (reserves none) lost s g = g
apply-Agrees (reserves (some a)) lost s g = same-Agrees lost s _ g refl refl refl refl
apply-Agrees (commits none) lost s g = g
apply-Agrees (commits (some a)) lost s g = same-Agrees lost s _ g refl refl refl refl
apply-Agrees (ends none) lost s g = g
apply-Agrees (ends (some a)) lost s g = same-Agrees lost s _ g refl refl refl refl
apply-Agrees (drains_session none) lost s g = g
apply-Agrees (drains_session (some a)) lost s g = same-Agrees lost s _ g refl refl refl refl
apply-Agrees (expects allowed) lost s g = expect_agents-Agrees allowed lost s g
apply-Agrees op lost s g = same-Agrees lost s _ g refl refl refl refl

start-Agrees : (role : Bytes) (now : ℕ) → Agrees 0 (new_state role now)
unfolding new_state
start-Agrees role now = record {
  routes_once = tt;
  agents_once = tt;
  expected_once = tt;
  streams = refl;
}

pub run-Agrees :
    (role : Bytes) (now : ℕ) (ops : List StateOp)
    → Agrees (unrouted_opens role now ops) (run role now ops)
unfolding run unrouted_opens
run-Agrees role now [] = start-Agrees role now
run-Agrees role now (op ∷ ops) =
    apply-Agrees op (unrouted_opens role now ops) (run role now ops) (run-Agrees role now ops)
