-- ===== src/Edge/Registry/Tracking.antt =====
-- internal/edge/registry.go, track and drop: what they do to the entry of the session.
use coen.Base.{ℕ, ◌≡◌, refl, none, some, arith, leb, Bytes, Bool-cases, Option-cases, inl, inr, ◌⊎◌}
use coen.Edge.Registry.{
  Registry, track_ok, track_closing, track_capped, max_shared_sessions, track, remove_locked,
  uncount, drop_tracked, drop,
}
use coen.Edge.Registry.Sessions.{Tracked, find, find-erase}

-- A session that is not taken leaves the registry as it was.
pub track-cases :
    (fp : Bytes) (s : ℕ) (r : Registry)
    → (track fp s r ≡ (r, track_closing))
      ⊎ ((track fp s r ≡ (r, track_capped)) ⊎ ((q : Registry) × (track fp s r ≡ (q, track_ok))))
unfolding track
track-cases fp s r = elim (Bool-cases r.closing) [
  | inl e ↦ simp e (inl refl)
  | inr e ↦ elim (Bool-cases (leb max_shared_sessions (r.pending fp))) [
    | inl full ↦ simp (e, full) (inr (inl refl))
    | inr room ↦ simp (e, room) (inr (inr (_, refl)))
  ]
]

pub find-drop : (s : ℕ) (r : Registry) → find s (drop s r).all ≡ none
unfolding drop
find-drop s r = elim (Option-cases (find s r.all)) [
  | inl e ↦ rw (e, drop_tracked) e
  | inr (t, e) ↦ rw (e, drop_tracked) (erased t)
]
  where
    erased : (t : Tracked) → find s (drop_tracked s r (some t)).all ≡ none
    erased t = ground (arith, find-erase s s (uncount t (remove_locked t.fp s r)).all)
