-- ===== src/Edge/Registry/Tests.antt =====
-- Tests of internal/edge/registry.go, and its theorems at concrete inputs.
use coen.Base.{ℕ, ◌≡◌, refl, Bool, true, false, codes, Bytes, bytes_eq, ◌==◌}
use coen.Edge.Registry.{
  AgentConn, Registry, Registration, registered, refused_duplicate, max_shared_sessions,
  new_registry, register_conn, has_live_exclusive, track, drop, close_all, live_candidates,
  dead_candidates, open_conns,
}
use coen.Edge.Registry.Sessions.{Tracked, find, put}
use coen.Edge.Registry.Invariant.{Inv}
use coen.Edge.Registry.Steps.{Step, tracks, registers, drops, Reach, at_start, after, Reach-Inv}
use coen.Edge.Registry.Shutdown.{OnlyFewer, close_all-OnlyFewer}
use coen.Edge.Registry.Admission.{Admission, register_conn-Admission}

abbrev alone : Bytes → Bool
alone _ = false

abbrev all_open : ℕ → Bool
all_open _ = false

abbrev first_closed : ℕ → Bool
first_closed s = s == 1

abbrev conn : ℕ → AgentConn
conn s = record { fp = codes "ab"; sess = s; v2 = true }

abbrev tracked_one : Registry
tracked_one = (track (codes "ab") 1 (new_registry alone)).0

abbrev pooled_one : Registry
pooled_one = (register_conn all_open (codes "ab") (conn 1) tracked_one).0

abbrev tracked_two : Registry
tracked_two = (track (codes "ab") 2 pooled_one).0

-- A second connection with the certificate of a live session is refused, and pooled once that session
-- has closed.
refuse_second : (register_conn all_open (codes "ab") (conn 2) tracked_two).1 ≡ refused_duplicate
unfolding new_registry track register_conn find put bytes_eq coen.Edge.Registry.Sessions.mark_joined
refuse_second = refl

reconnect : (register_conn first_closed (codes "ab") (conn 2) tracked_two).1 ≡ registered
unfolding new_registry track register_conn find put bytes_eq coen.Edge.Registry.Sessions.mark_joined
reconnect = refl

tracks_one : Step (new_registry alone) tracked_one
tracks_one = tracks (codes "ab") 1 (unfold new_registry find in refl)

registers_one : Step tracked_one pooled_one
registers_one = registers all_open (conn 1) (unfold track new_registry find put bytes_eq in refl)

Reach-pooled_one : Reach (new_registry alone) pooled_one
Reach-pooled_one = after (after at_start tracks_one) registers_one

Reach-Inv_example : Inv pooled_one
Reach-Inv_example = Reach-Inv alone Reach-pooled_one

close_all-OnlyFewer_example : OnlyFewer pooled_one (drop 1 (close_all pooled_one).0)
close_all-OnlyFewer_example = close_all-OnlyFewer pooled_one (after at_start (drops 1))

register_conn-Admission_example :
    let out = register_conn first_closed (codes "ab") (conn 2) tracked_two in
    Admission first_closed (codes "ab") (conn 2) tracked_two out.1 (out.0.by_fp (codes "ab"))
register_conn-Admission_example =
    register_conn-Admission first_closed (codes "ab") (conn 2) tracked_two
