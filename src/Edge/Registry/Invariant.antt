-- ===== src/Edge/Registry/Invariant.antt =====
-- internal/edge/registry.go: what holds of the registry between two operations.
use coen.Base.{
  ℕ, ◌≤◌, ◌≡◌, ◌≢◌, refl, Bool, true, false, some, List, [], ◌∷◌, arith, length, length-keep-le,
  keep, ◌==◌, Bytes, update_all, All, All-keep, All-map, Bool-cases, inl, inr,
}
use coen.Edge.Registry.{
  AgentConn, Registry, max_shared_sessions, new_registry, live_locked, remove_conn, remove_locked,
}
use coen.Edge.Registry.Sessions.{Tracked, find, IsMap, tally}

-- A connection in the pool of `fp`: its session is tracked, and has joined.
abbrev pub IsPooled : List (ℕ × Tracked) → Bytes → AgentConn → Type 0
IsPooled all fp c = (c.fp ≡ fp) × (find c.sess all ≡ some (record { fp = fp; joined = true }))

-- No session stands twice in a pool.
abbrev pub IsDistinct : List AgentConn → Type 0
IsDistinct [] = Unit
IsDistinct (c ∷ cs) = All (λ d. d.sess ≢ c.sess) cs × IsDistinct cs

-- A pool of `fp` is sound: tracked, distinct, and one session at most if `fp` is not shared.
pub record IsSound (all : List (ℕ × Tracked)) (shared : Bool) (fp : Bytes) (cs : List AgentConn)
    : Type 0 where
  pub tracked : All (IsPooled all fp) cs
  pub distinct : IsDistinct cs
  pub exclusive : shared ≡ false → length cs ≤ 1

pub record Inv (r : Registry) : Type 0 where
  pub keys : IsMap r.all
  pub pending_count : (fp : Bytes) → r.pending fp ≡ tally fp false r.all
  pub joined_count : (fp : Bytes) → r.joined fp ≡ tally fp true r.all
  pub pending_cap : (fp : Bytes) → r.pending fp ≤ max_shared_sessions
  pub joined_cap : (fp : Bytes) → r.joined fp ≤ max_shared_sessions
  pub pools : (fp : Bytes) → IsSound r.all (r.shared fp) fp (r.by_fp fp)

pub new_registry-Inv : (shared : Bytes → Bool) → Inv (new_registry shared)
unfolding new_registry tally
new_registry-Inv shared = record {
  keys = tt;
  pending_count = λ fp. refl;
  joined_count = λ fp. refl;
  pending_cap = λ fp. omega arith;
  joined_cap = λ fp. omega arith;
  pools = λ fp. record { tracked = tt; distinct = tt; exclusive = λ h. omega arith };
}

keep-IsDistinct :
    (p : AgentConn → Bool) (cs : List AgentConn) → IsDistinct cs → IsDistinct (keep p cs)
keep-IsDistinct p [] d = tt
keep-IsDistinct p (c ∷ cs) d = elim (Bool-cases (p c)) [
  | inl e ↦ rw e (All-keep _ p cs d.0, keep-IsDistinct p cs d.1)
  | inr e ↦ rw e (keep-IsDistinct p cs d.1)
]

keep-IsSound :
    (all : List (ℕ × Tracked)) (shared : Bool) (fp : Bytes) (p : AgentConn → Bool)
    (cs : List AgentConn)
    → IsSound all shared fp cs
    → IsSound all shared fp (keep p cs)
keep-IsSound all shared fp p cs s = record {
  tracked = All-keep _ p cs s.tracked;
  distinct = keep-IsDistinct p cs s.distinct;
  exclusive = λ h. omega (arith, s.exclusive h, length-keep-le p cs);
}

remove_conn-All {κ} :
    (P : AgentConn → Type κ) (s : ℕ) (cs : List AgentConn) → All P cs → All P (remove_conn s cs)
unfolding remove_conn
remove_conn-All P s [] h = tt
remove_conn-All P s (c ∷ cs) h = elim (Bool-cases (c.sess == s)) [
  | inl e ↦ rw e h.1
  | inr e ↦ rw e (h.0, remove_conn-All P s cs h.1)
]

remove_conn-IsDistinct :
    (s : ℕ) (cs : List AgentConn) → IsDistinct cs → IsDistinct (remove_conn s cs)
unfolding remove_conn
remove_conn-IsDistinct s [] d = tt
remove_conn-IsDistinct s (c ∷ cs) d = elim (Bool-cases (c.sess == s)) [
  | inl e ↦ rw e d.1
  | inr e ↦ rw e (remove_conn-All _ s cs d.0, remove_conn-IsDistinct s cs d.1)
]

pub length-remove_conn-le : (s : ℕ) (cs : List AgentConn) → length (remove_conn s cs) ≤ length cs
unfolding remove_conn
length-remove_conn-le s [] = omega arith
length-remove_conn-le s (c ∷ cs) = ground (arith, length-remove_conn-le s cs)

remove_conn-IsSound :
    (all : List (ℕ × Tracked)) (shared : Bool) (fp : Bytes) (s : ℕ) (cs : List AgentConn)
    → IsSound all shared fp cs
    → IsSound all shared fp (remove_conn s cs)
remove_conn-IsSound all shared fp s cs h = record {
  tracked = remove_conn-All _ s cs h.tracked;
  distinct = remove_conn-IsDistinct s cs h.distinct;
  exclusive = λ e. omega (arith, h.exclusive e, length-remove_conn-le s cs);
}

-- Nothing is left of a session that is removed from a pool with distinct sessions.
pub remove_conn-ne :
    (s : ℕ) (cs : List AgentConn) → IsDistinct cs → All (λ d. d.sess ≢ s) (remove_conn s cs)
unfolding remove_conn
remove_conn-ne s [] d = tt
remove_conn-ne s (c ∷ cs) d = elim (Bool-cases (c.sess == s)) [
  | inl e ↦ rw e (All-map _ _ (λ x h q. h (ground arith)) cs d.0)
  | inr e ↦ rw e ((λ q. ground arith), remove_conn-ne s cs d.1)
]

-- liveLocked keeps the invariant, and what it returns is the pool.
pub live_locked-Inv :
    (closed : ℕ → Bool) (fp : Bytes) (r : Registry) → Inv r → Inv (live_locked closed fp r).0
unfolding live_locked
live_locked-Inv closed fp r v = record {
  keys = v.keys;
  pending_count = v.pending_count;
  joined_count = v.joined_count;
  pending_cap = v.pending_cap;
  joined_cap = v.joined_cap;
  pools =
      update_all (λ j cs. IsSound r.all (r.shared j) j cs) r.by_fp fp _
        (keep-IsSound r.all (r.shared fp) fp _ (r.by_fp fp) (v.pools fp)) (λ j _. v.pools j);
}

pub remove_locked-Inv : (fp : Bytes) (s : ℕ) (r : Registry) → Inv r → Inv (remove_locked fp s r)
unfolding remove_locked
remove_locked-Inv fp s r v = record {
  keys = v.keys;
  pending_count = v.pending_count;
  joined_count = v.joined_count;
  pending_cap = v.pending_cap;
  joined_cap = v.joined_cap;
  pools =
      update_all (λ j cs. IsSound r.all (r.shared j) j cs) r.by_fp fp _
        (remove_conn-IsSound r.all (r.shared fp) fp s (r.by_fp fp) (v.pools fp)) (λ j _. v.pools j);
}
