-- ===== src/Edge/Registry/Admission.antt =====
-- internal/edge/registry.go: who is let into a pool, and what a request finds there.
use coen.Base.{
  ℕ, ◌≤◌, ◌<◌, ◌≡◌, ◌↔◌, refl, sym, ap, ◌∙◌, subst, Bool, true, false, not, ◌&&◌, ◌||◌, ◌⊎◌, inl,
  inr, List, [], ◌∷◌, ◌++◌, arith, keep, leb, Bytes, update, update_self, All, In, here, there,
  In-keep, keep-In, In-append, In-append_left, In-append_cases, Bool-cases, Option-cases,
}
use coen.Edge.Registry.{
  AgentConn, Registry, Registration, registered, refused_duplicate, refused_cap, refused_gone,
  max_shared_sessions, open_conns, live_locked, is_nil, duplicate_locked, join_tracked, pool_conn,
  register_live, register_conn, has_live_exclusive, live_candidates, dead_candidates,
}
use coen.Edge.Registry.Sessions.{find}

-- A session of the pool that is still open.
abbrev pub HasLive : (ℕ → Bool) → List AgentConn → Type 0
HasLive closed cs = (d : AgentConn) × In d cs × (closed d.sess ≡ false)

abbrev pub AllClosed : (ℕ → Bool) → List AgentConn → Type 0
AllClosed closed cs = All (λ d. closed d.sess ≡ true) cs

-- The verdicts on a newcomer `c` for `fp`, and the pool of `fp` that each leaves.
pub data Admission (closed : ℕ → Bool) (fp : Bytes) (c : AgentConn) (r : Registry)
    : Registration → List AgentConn → Type 0 where
  gone :
      (r.closing ≡ true) ⊎ (closed c.sess ≡ true)
      → Admission closed fp c r refused_gone (open_conns closed (r.by_fp fp))
  duplicate :
      r.closing ≡ false
      → closed c.sess ≡ false
      → r.shared fp ≡ false
      → HasLive closed (r.by_fp fp)
      → Admission closed fp c r refused_duplicate (open_conns closed (r.by_fp fp))
  capped :
      r.closing ≡ false
      → closed c.sess ≡ false
      → (r.shared fp ≡ true) ⊎ AllClosed closed (r.by_fp fp)
      → max_shared_sessions ≤ r.joined fp
      → Admission closed fp c r refused_cap (open_conns closed (r.by_fp fp))
  pooled :
      r.closing ≡ false
      → closed c.sess ≡ false
      → (r.shared fp ≡ true) ⊎ AllClosed closed (r.by_fp fp)
      → r.joined fp < max_shared_sessions
      → Admission closed fp c r registered (open_conns closed (r.by_fp fp) ++ c ∷ [])

open_conns-cases :
    (closed : ℕ → Bool) (cs : List AgentConn)
    → ((is_nil (open_conns closed cs) ≡ true) × AllClosed closed cs)
      ⊎ ((is_nil (open_conns closed cs) ≡ false) × HasLive closed cs)
unfolding is_nil
open_conns-cases closed [] = inl (refl, tt)
open_conns-cases closed (c ∷ cs) = elim (Bool-cases (closed c.sess)) [
  | inr e ↦ rw e (inr (refl, (c, here, e)))
  | inl e ↦ elim (open_conns-cases closed cs) [
    | inl (n, a) ↦ rw e (inl (n, (refl, a)))
    | inr (n, (d, m, q)) ↦ rw e (inr (n, (d, there m, q)))
  ]
]

pool_conn-by_fp :
    (r : Registry) (fp : Bytes) (live : List AgentConn) (c : AgentConn)
    → (pool_conn r fp live c).by_fp ≡ update r.by_fp fp (live ++ c ∷ [])
unfolding pool_conn
pool_conn-by_fp r fp live c = elim (Option-cases (find c.sess r.all)) [
  | inl e ↦ rw (e, join_tracked)
  | inr (t, e) ↦
      rw (e, join_tracked)
        (elim (Bool-cases t.joined) [
          | inl j ↦ simp j
          | inr j ↦ simp j (unfold coen.Edge.Registry.unpend_locked in refl)
        ])
]

-- What register_live answers and leaves, on a registry whose pool is already `live`.
admit :
    (closed : ℕ → Bool) (fp : Bytes) (c : AgentConn) (r r' : Registry)
    → r'.closing ≡ r.closing
    → r'.shared fp ≡ r.shared fp
    → r'.joined fp ≡ r.joined fp
    → r'.by_fp fp ≡ open_conns closed (r.by_fp fp)
    → let out = register_live closed fp c r' (open_conns closed (r.by_fp fp)) in
      Admission closed fp c r out.1 (out.0.by_fp fp)
unfolding register_live duplicate_locked
admit closed fp c r r' k s j p = elim (Bool-cases (r'.closing || closed c.sess)) [
  | inl e ↦ simp e (subst (Admission closed fp c r refused_gone) (sym p) (gone (ground arith)))
  | inr e ↦ elim (open_conns-cases closed (r.by_fp fp)) [
    | inr (n, live) ↦ elim (Bool-cases (r.shared fp)) [
      | inl sh ↦ by_room e (inl sh) (rw (s, sh))
      | inr sh ↦
          simp (e, n, s, sh)
            (subst (Admission closed fp c r refused_duplicate) (sym p)
              (duplicate (ground arith) (ground arith) sh live))
    ]
    | inl (n, all) ↦ by_room e (inr all) (rw n (ground arith))
  ]
]
  where
    by_room :
        (r'.closing || closed c.sess) ≡ false
        → (r.shared fp ≡ true) ⊎ AllClosed closed (r.by_fp fp)
        → (not (r'.shared fp) && not (is_nil (open_conns closed (r.by_fp fp)))) ≡ false
        → let out = register_live closed fp c r' (open_conns closed (r.by_fp fp)) in
          Admission closed fp c r out.1 (out.0.by_fp fp)
    by_room e free alone = elim (Bool-cases (leb max_shared_sessions (r'.joined fp))) [
      | inl full ↦
          simp (e, alone, full)
            (subst (Admission closed fp c r refused_cap) (sym p)
              (capped (ground arith) (ground arith) free (ground arith)))
      | inr room ↦
          simp (e, alone, room)
            (subst (Admission closed fp c r registered)
              (sym (
                ap (λ m. m fp) (pool_conn-by_fp r' fp (open_conns closed (r.by_fp fp)) c)
                ∙ update_self r'.by_fp fp _))
              (pooled (ground arith) (ground arith) free (ground arith)))
    ]

-- For every registry, newcomer and answers of IsClosed, registerConn refuses a newcomer when the edge
-- is closing or its session has closed, refuses it as a duplicate exactly when else the fingerprint is
-- not shared and a pooled session is still open, refuses it at the cap when else 256 sessions have
-- joined, and else pools it; the pool that it leaves holds the sessions that were pooled and are
-- open, and behind them the newcomer if and only if it was registered.
pub register_conn-Admission :
    (closed : ℕ → Bool) (fp : Bytes) (c : AgentConn) (r : Registry)
    → let out = register_conn closed fp c r in Admission closed fp c r out.1 (out.0.by_fp fp)
unfolding register_conn live_locked
register_conn-Admission closed fp c r =
    admit closed fp c r (live_locked closed fp r).0 refl refl refl (update_self r.by_fp fp _)

-- hasLiveExclusive answers the question that registerConn asks: for a newcomer that is open, on an
-- edge that is not closing, it says true if and only if registerConn refuses the newcomer as a
-- duplicate.
pub has_live_exclusive_iff :
    (closed : ℕ → Bool) (fp : Bytes) (c : AgentConn) (r : Registry)
    → r.closing ≡ false
    → closed c.sess ≡ false
    → ((has_live_exclusive closed fp r).1 ≡ true)
      ↔ ((register_conn closed fp c r).1 ≡ refused_duplicate)
unfolding has_live_exclusive register_conn register_live live_locked duplicate_locked
has_live_exclusive_iff closed fp c r k o =
    elim (Bool-cases (not (r.shared fp) && not (is_nil (open_conns closed (r.by_fp fp))))) [
      | inl dup ↦ simp (k, o, dup) (λ _. refl, λ _. refl)
      | inr alone ↦ elim (Bool-cases (leb max_shared_sessions (r.joined fp))) [
        | inl full ↦ simp (k, o, alone, full) (λ e. cc, λ e. cc)
        | inr room ↦ simp (k, o, alone, room) (λ e. cc, λ e. cc)
      ]
    ]

-- A connection pooled for one of the fingerprints.
abbrev pub Pooled : List Bytes → Registry → AgentConn → Type 0
Pooled fps r c = (fp : Bytes) × In fp fps × In c (r.by_fp fp)

Pooled-later :
    (fp : Bytes) (fps : List Bytes) (r : Registry) (c : AgentConn)
    → Pooled fps r c
    → Pooled (fp ∷ fps) r c
Pooled-later fp fps r c (f, m, k) = (f, there m, k)

live_candidates_sound :
    (closed : ℕ → Bool) (fps : List Bytes) (r : Registry) (c : AgentConn)
    → In c (live_candidates closed fps r)
    → Pooled fps r c × (closed c.sess ≡ false)
unfolding live_candidates
live_candidates_sound closed [] r c m = elim m [ ]
live_candidates_sound closed (fp ∷ fps) r c m =
    elim (In-append_cases (open_conns closed (r.by_fp fp)) (live_candidates closed fps r) m) [
      | inl k ↦ let (i, e) = In-keep _ (r.by_fp fp) k in ((fp, here, i), ground arith)
      | inr k ↦
          let (p, e) = live_candidates_sound closed fps r c k in (Pooled-later fp fps r c p, e)
    ]

live_candidates_complete :
    (closed : ℕ → Bool) (fp : Bytes) (fps : List Bytes) (r : Registry) (c : AgentConn)
    → In fp fps
    → In c (r.by_fp fp)
    → closed c.sess ≡ false
    → In c (live_candidates closed fps r)
unfolding live_candidates
live_candidates_complete closed fp fps r c (here {xs = xs}) m e =
    In-append_left (live_candidates closed xs r) (keep-In _ m (rw e))
live_candidates_complete closed fp fps r c (there {x = x} {xs = xs} k) m e =
    In-append (open_conns closed (r.by_fp x)) (live_candidates_complete closed fp xs r c k m e)

dead_candidates_sound :
    (closed : ℕ → Bool) (fps : List Bytes) (r : Registry) (c : AgentConn)
    → In c (dead_candidates closed fps r)
    → Pooled fps r c × (closed c.sess ≡ true)
unfolding dead_candidates
dead_candidates_sound closed [] r c m = elim m [ ]
dead_candidates_sound closed (fp ∷ fps) r c m =
    elim (In-append_cases (keep (λ d. closed d.sess) (r.by_fp fp)) (dead_candidates closed fps r)
      m) [
        | inl k ↦ let (i, e) = In-keep _ (r.by_fp fp) k in ((fp, here, i), e)
        | inr k ↦
            let (p, e) = dead_candidates_sound closed fps r c k in (Pooled-later fp fps r c p, e)
      ]

dead_candidates_complete :
    (closed : ℕ → Bool) (fp : Bytes) (fps : List Bytes) (r : Registry) (c : AgentConn)
    → In fp fps
    → In c (r.by_fp fp)
    → closed c.sess ≡ true
    → In c (dead_candidates closed fps r)
unfolding dead_candidates
dead_candidates_complete closed fp fps r c (here {xs = xs}) m e =
    In-append_left (dead_candidates closed xs r) (keep-In _ m e)
dead_candidates_complete closed fp fps r c (there {x = x} {xs = xs} k) m e =
    In-append (keep (λ d. closed d.sess) (r.by_fp x))
      (dead_candidates_complete closed fp xs r c k m e)

-- The two results of candidates hold exactly the connections pooled for the fingerprints that are
-- listed: the first those whose session is open, the second those whose session has closed.
pub candidates_iff :
    (closed : ℕ → Bool) (fps : List Bytes) (r : Registry) (c : AgentConn)
    → (In c (live_candidates closed fps r) ↔ (Pooled fps r c × (closed c.sess ≡ false)))
      × (In c (dead_candidates closed fps r) ↔ (Pooled fps r c × (closed c.sess ≡ true)))
candidates_iff closed fps r c = (
  (
    live_candidates_sound closed fps r c,
    λ p. live_candidates_complete closed p.0.0 fps r c p.0.1 p.0.2 p.1,
  ),
  (
    dead_candidates_sound closed fps r c,
    λ p. dead_candidates_complete closed p.0.0 fps r c p.0.1 p.0.2 p.1,
  ),
)
