-- ===== src/Agent/Streams/Flight.antt =====
-- internal/agent/agent.go: the streams in flight, while streams arrive and end and the agent begins to
-- refuse new ones, in any order of those critical sections.
use coen.Base.{ℕ, suc, ◌≤◌, ◌≡◌, refl, true, if◌then◌else◌, arith}
use coen.Agent.Streams.{Serving, serve_stream, stream_done, refuse_new}

-- `running` streams are being handled.
pub data Move (s : Serving) (running : ℕ) : Serving → ℕ → Type 0 where
  arrives : Move s running (serve_stream s).0 (if (serve_stream s).1 then suc running else running)
  ends : (k : ℕ) → running ≡ suc k → Move s running (stream_done s) k
  refuses : Move s running (refuse_new s) running

pub data Runs (s : Serving) (running : ℕ) : Serving → ℕ → Type 0 where
  here : Runs s running s running
  moved : {t u : Serving} {k l : ℕ} → Runs s running t k → Move t k u l → Runs s running u l

Move-inflight : {s t : Serving} {n k : ℕ} → Move s n t k → s.inflight ≡ n → t.inflight ≡ k
unfolding serve_stream stream_done refuse_new
Move-inflight arrives h = ground arith
Move-inflight (ends k e) h = ground arith
Move-inflight refuses h = h

Move-drains :
    {s t : Serving} {n k : ℕ}
    → Move s n t k
    → s.is_draining ≡ true
    → (t.is_draining ≡ true) × (k ≤ n)
unfolding serve_stream stream_done refuse_new
Move-drains arrives h = ground arith
Move-drains (ends k e) h = ground arith
Move-drains refuses h = ground arith

pub record Flies (n : ℕ) (t : Serving) (k : ℕ) : Type 0 where
  pub counted : t.inflight ≡ k
  pub still_draining : t.is_draining ≡ true
  pub no_new : k ≤ n

Move-Flies : {n : ℕ} {t u : Serving} {k l : ℕ} → Move t k u l → Flies n t k → Flies n u l
Move-Flies m v =
    let drained = Move-drains m v.still_draining in
    record {
      counted = Move-inflight m v.counted;
      still_draining = drained.0;
      no_new = omega (arith, drained.1, v.no_new);
    }

Runs-Flies :
    {s : Serving} {n : ℕ} {t : Serving} {k : ℕ}
    → s.is_draining ≡ true
    → s.inflight ≡ n
    → Runs s n t k
    → Flies n t k
Runs-Flies d e here = record { counted = e; still_draining = d; no_new = omega arith }
Runs-Flies d e (moved r m) = Move-Flies m (Runs-Flies d e r)

-- From the moment when the agent refuses new streams, whatever arrives and ends: it goes on refusing
-- them, the number of streams that it handles never rises, and `inflight`, which the drain waits on,
-- is that number.
pub refuse_new-Flies :
    (s : Serving) (n : ℕ) {t : Serving} {k : ℕ}
    → s.inflight ≡ n
    → Runs (refuse_new s) n t k
    → Flies n t k
unfolding refuse_new
refuse_new-Flies s n e r = Runs-Flies refl e r
