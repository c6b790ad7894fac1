-- ===== src/Edge/Http3/Activity/Idle.antt =====
-- internal/edge/http3.go, connActivity: whatever requests and the timer do, and in whatever order.
use coen.Base.{ℕ, suc, ◌<◌, ◌≡◌, refl, ◌∙◌, true, false, ◌⊎◌, inl, inr, Bool-cases, arith, ◌==◌}
use coen.Edge.Http3.Activity.{
  Activity, new_activity, begin_request, end_request, fire, call_back, go, stop_timer,
}

-- `h` requests of the connection are in progress.
pub data Reach : ℕ → Activity → Type 0 where
  connects : Reach 0 new_activity
  begins : {h : ℕ} {a : Activity} → Reach h a → Reach (suc h) (begin_request a)
  ends : {h : ℕ} {a : Activity} → Reach (suc h) a → Reach h (end_request a)
  fires : {h : ℕ} {a : Activity} → Reach h a → a.armed ≡ true → Reach h (fire a)
  calls_back : {h : ℕ} {a : Activity} → Reach h a → 0 < a.calls → Reach h (call_back a).0
  goes : {h : ℕ} {a : Activity} → Reach h a → Reach h (go a)
  stops : {h : ℕ} {a : Activity} → Reach h a → a.gone ≡ true → Reach h (stop_timer a)

-- The timer runs, or its function waits for the lock.
abbrev pub IsTimed : Activity → Type 0
IsTimed a = (a.armed ≡ true) ⊎ (0 < a.calls)

pub record Minds (h : ℕ) (a : Activity) : Type 0 where
  pub counted : a.active ≡ h
  pub timed : h ≡ 0 → a.gone ≡ false → IsTimed a
  pub closing : (call_back a).1 ≡ true → h ≡ 0

closing_of : (h : ℕ) (a : Activity) → a.active ≡ h → (call_back a).1 ≡ true → h ≡ 0
unfolding call_back
closing_of h a e c = elim (Bool-cases (a.active == 0)) [
  | inl z ↦ ground (arith, e, z)
  | inr z ↦ absurd (ground (arith, c, z))
]

minds : (h : ℕ) (a : Activity) → a.active ≡ h → (h ≡ 0 → a.gone ≡ false → IsTimed a) → Minds h a
minds h a e t = record { counted = e; timed = t; closing = closing_of h a e }

call_back-IsTimed :
    (h : ℕ) (a : Activity)
    → a.active ≡ h
    → h ≡ 0
    → (call_back a).0.gone ≡ false
    → IsTimed (call_back a).0
unfolding call_back
call_back-IsTimed h a e z g = absurd (ground arith)

call_back-active : (a : Activity) → (call_back a).0.active ≡ a.active
unfolding call_back
call_back-active a = ground arith

fire-IsTimed : (a : Activity) → IsTimed (fire a)
unfolding fire
fire-IsTimed a = inr (omega arith)

go-IsTimed : (a : Activity) → (go a).gone ≡ false → IsTimed (go a)
unfolding go
go-IsTimed a g = absurd (cc)

stop_timer-IsTimed :
    (a : Activity) → a.gone ≡ true → (stop_timer a).gone ≡ false → IsTimed (stop_timer a)
unfolding stop_timer
stop_timer-IsTimed a g g' = absurd (cc (g, g'))

end_request-IsTimed :
    (a : Activity) → a.active ≡ 1 → (end_request a).gone ≡ false → IsTimed (end_request a)
unfolding end_request
end_request-IsTimed a e g = inl (ground (arith, e, g))

-- However requests begin and end, the timer fires and the connection goes, in any order: the count of
-- connActivity is the number of requests in progress; while there are none and the connection is open,
-- the timer runs or its function waits for the lock; and the timer's function closes the connection only when no request is in progress.
pub Reach-Minds : {h : ℕ} {a : Activity} → Reach h a → Minds h a
unfolding begin_request end_request fire go stop_timer
Reach-Minds connects = minds 0 new_activity refl (λ _ _. inl refl)
Reach-Minds (begins {h} {a} r) =
    minds (suc h) (begin_request a) (omega (arith, (Reach-Minds r).counted))
      (λ e _. absurd (omega (arith, e)))
Reach-Minds (ends {h} {a} r) =
    let c = (Reach-Minds r).counted in
    minds h (end_request a) (omega (arith, c)) (λ e. end_request-IsTimed a (omega (arith, c, e)))
Reach-Minds (fires {h} {a} r t) = minds h (fire a) (Reach-Minds r).counted (λ _ _. fire-IsTimed a)
Reach-Minds (calls_back {h} {a} r p) =
    let c = (Reach-Minds r).counted in
    minds h (call_back a).0 (call_back-active a ∙ c) (call_back-IsTimed h a c)
Reach-Minds (goes {h} {a} r) = minds h (go a) (Reach-Minds r).counted (λ _. go-IsTimed a)
Reach-Minds (stops {h} {a} r g) =
    minds h (stop_timer a) (Reach-Minds r).counted (λ _. stop_timer-IsTimed a g)
