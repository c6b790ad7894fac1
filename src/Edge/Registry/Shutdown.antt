-- ===== src/Edge/Registry/Shutdown.antt =====
-- internal/edge/registry.go, closeAll: once it has run nothing new is tracked or pooled.
use coen.Base.{
  ℕ, ◌≤◌, ◌≡◌, refl, Bool, true, none, List, arith, length, length-keep-le, Bytes, update_all,
  Bool-cases, Option-cases, inl, inr,
}
use coen.Edge.Registry.{
  AgentConn, Registry, live_locked, register_live, register_conn, has_live_exclusive, track,
  uncount, forget, remove_locked, take, drop_tracked, drop, close_all,
}
use coen.Edge.Registry.Sessions.{Tracked, find, find-erase, erase}
use coen.Edge.Registry.Invariant.{length-remove_conn-le}
use coen.Edge.Registry.Steps.{
  Step, tracks, registers, checks, takes, drops, closes, Reach, at_start, after,
}

-- `s` is closing, tracks only sessions that `r` tracks, and pools no more than `r` does.
pub record OnlyFewer (r s : Registry) : Type 0 where
  pub still : s.closing ≡ true
  pub untracked : (i : ℕ) → find i r.all ≡ none → find i s.all ≡ none
  pub pools : (fp : Bytes) → length (s.by_fp fp) ≤ length (r.by_fp fp)

same-OnlyFewer : (r : Registry) → r.closing ≡ true → OnlyFewer r r
same-OnlyFewer r h = record { still = h; untracked = λ i e. e; pools = λ fp. omega arith }

live_locked-OnlyFewer :
    (closed : ℕ → Bool) (fp : Bytes) (r : Registry)
    → r.closing ≡ true
    → OnlyFewer r (live_locked closed fp r).0
unfolding live_locked
live_locked-OnlyFewer closed fp r h = record {
  still = h;
  untracked = λ i e. e;
  pools =
      update_all (λ j cs. length cs ≤ length (r.by_fp j)) r.by_fp fp _
        (length-keep-le _ (r.by_fp fp)) (λ j _. omega arith);
}

remove_locked-OnlyFewer :
    (fp : Bytes) (s : ℕ) (r : Registry) → r.closing ≡ true → OnlyFewer r (remove_locked fp s r)
unfolding remove_locked
remove_locked-OnlyFewer fp s r h = record {
  still = h;
  untracked = λ i e. e;
  pools =
      update_all (λ j cs. length cs ≤ length (r.by_fp j)) r.by_fp fp _
        (length-remove_conn-le s (r.by_fp fp)) (λ j _. omega arith);
}

erase-none : (s i : ℕ) (m : List (ℕ × Tracked)) → find i m ≡ none → find i (erase s m) ≡ none
erase-none s i m e = ground (arith, find-erase s i m)

uncount-OnlyFewer : (t : Tracked) (r s : Registry) → OnlyFewer r s → OnlyFewer r (uncount t s)
unfolding uncount
uncount-OnlyFewer t r s f = elim (Bool-cases t.joined) [
  | inl e ↦ simp e (record { still = f.still; untracked = f.untracked; pools = f.pools })
  | inr e ↦ simp e (record { still = f.still; untracked = f.untracked; pools = f.pools })
]

forget-OnlyFewer : (i : ℕ) (r s : Registry) → OnlyFewer r s → OnlyFewer r (forget i s)
unfolding forget
forget-OnlyFewer i r s f = record {
  still = f.still;
  untracked = λ j e. erase-none i j s.all (f.untracked j e);
  pools = f.pools;
}

drop-OnlyFewer : (s : ℕ) (r : Registry) → r.closing ≡ true → OnlyFewer r (drop s r)
unfolding drop
drop-OnlyFewer s r h = elim (Option-cases (find s r.all)) [
  | inl e ↦ rw (e, drop_tracked) (same-OnlyFewer r h)
  | inr (t, e) ↦
      rw (e, drop_tracked)
        (forget-OnlyFewer s r _ (uncount-OnlyFewer t r _ (remove_locked-OnlyFewer t.fp s r h)))
]

register_live-OnlyFewer :
    (closed : ℕ → Bool) (fp : Bytes) (c : AgentConn) (r s : Registry) (live : List AgentConn)
    → OnlyFewer r s
    → OnlyFewer r (register_live closed fp c s live).0
unfolding register_live
register_live-OnlyFewer closed fp c r s live f = simp f.still f

Step-OnlyFewer : {r s : Registry} → Step r s → r.closing ≡ true → OnlyFewer r s
unfolding has_live_exclusive take register_conn track close_all
Step-OnlyFewer {r} (tracks fp s fresh) h = simp h (same-OnlyFewer r h)
Step-OnlyFewer {r} (registers closed c waiting) h =
    register_live-OnlyFewer closed c.fp c r (live_locked closed c.fp r).0
      (live_locked closed c.fp r).1 (live_locked-OnlyFewer closed c.fp r h)
Step-OnlyFewer {r} (checks closed fp) h = live_locked-OnlyFewer closed fp r h
Step-OnlyFewer {r} (takes fp s) h = remove_locked-OnlyFewer fp s r h
Step-OnlyFewer {r} (drops s) h = drop-OnlyFewer s r h
Step-OnlyFewer {r} closes h = record {
  still = refl;
  untracked = λ i e. e;
  pools = λ fp. omega arith;
}

-- After closeAll, whatever calls follow, the registry stays closing, tracks no session that it did
-- not track when closeAll ran, and no pool grows.
pub close_all-OnlyFewer : (r : Registry) {s : Registry} → Reach (close_all r).0 s → OnlyFewer r s
unfolding close_all
close_all-OnlyFewer r at_start = record {
  still = refl;
  untracked = λ i e. e;
  pools = λ fp. omega arith;
}
close_all-OnlyFewer r (after {s = m} h st) =
    let f = close_all-OnlyFewer r h in
    let g = Step-OnlyFewer st f.still in
    record {
      still = g.still;
      untracked = λ i e. g.untracked i (f.untracked i e);
      pools = λ fp. omega (arith, f.pools fp, g.pools fp);
    }
