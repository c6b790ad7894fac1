-- ===== src/Edge/Limit/Holders.antt =====
-- internal/edge/limit.go: a cap is never passed, and a holder's release never blocks.
use coen.Base.{
  ℕ, zero, suc, subst, some_inj, ◌≤◌, ◌<◌, ◌≡◌, refl, Bool, true, false, Option, none, some, arith,
  ltb, Bool-cases, inl, inr,
}
use coen.Base.Int.{ℤ, pos, negsuc}
use coen.Edge.Limit.{
  Slots, new_semaphore, try_acquire, Acquires, unlimited, got, ended, take_slot, release,
}

-- Any use of a semaphore for `n` slots in which each release gives back a slot that was got: `h`
-- slots are out, and the semaphore is `s`.
pub data Holds (n : ℤ) : ℕ → Option Slots → Type 0 where
  made : Holds n 0 (new_semaphore n)
  took :
      {h : ℕ} {s : Option Slots}
      → Holds n h s
      → (try_acquire s).1 ≡ true
      → Holds n (suc h) (try_acquire s).0
  missed :
      {h : ℕ} {s : Option Slots}
      → Holds n h s
      → (try_acquire s).1 ≡ false
      → Holds n h (try_acquire s).0
  waited : {h : ℕ} {s t : Option Slots} → Holds n h s → Acquires s (t, true) → Holds n (suc h) t
  gave_up : {h : ℕ} {s t : Option Slots} → Holds n h s → Acquires s (t, false) → Holds n h t
  gave_back : {h : ℕ} {s t : Option Slots} → Holds n (suc h) s → release s ≡ some t → Holds n h t

-- The semaphore counts the slots that are out.
abbrev Fits : ℤ → ℕ → Option Slots → Type 0
Fits n h none = new_semaphore n ≡ none
Fits n h (some s) = (n ≡ pos s.cap) × (s.used ≡ h) × (h ≤ s.cap)

new_semaphore-Fits : (n : ℤ) → Fits n 0 (new_semaphore n)
unfolding new_semaphore
new_semaphore-Fits (pos zero) = refl
new_semaphore-Fits (pos (suc n)) = (refl, refl, omega arith)
new_semaphore-Fits (negsuc n) = refl

took-Fits :
    (n : ℤ) (h : ℕ) (s : Option Slots)
    → Fits n h s
    → (try_acquire s).1 ≡ true
    → Fits n (suc h) (try_acquire s).0
unfolding try_acquire
took-Fits n h none f e = f
took-Fits n h (some s) f e = elim (Bool-cases (ltb s.used s.cap)) [
  | inl r ↦ simp r (f.0, ground arith, ground arith)
  | inr r ↦ absurd (ground arith)
]

missed-Fits :
    (n : ℤ) (h : ℕ) (s : Option Slots)
    → Fits n h s
    → (try_acquire s).1 ≡ false
    → Fits n h (try_acquire s).0
unfolding try_acquire
missed-Fits n h none f e = f
missed-Fits n h (some s) f e = elim (Bool-cases (ltb s.used s.cap)) [
  | inl r ↦ absurd (ground arith)
  | inr r ↦ simp r f
]

-- A wait that ends with a slot counts it, and one that ends without changes nothing.
abbrev added : Bool → ℕ → ℕ
added true h = suc h
added false h = h

Acquires-Fits :
    (n : ℤ) (h : ℕ) {s : Option Slots} {out : Option Slots × Bool}
    → Acquires s out
    → Fits n h s
    → Fits n (added out.1 h) out.0
Acquires-Fits n h unlimited f = f
Acquires-Fits n h (got s room) f = (f.0, omega arith, omega arith)
Acquires-Fits n h (ended s) f = f

take_slot-Fits :
    (n : ℤ) (h : ℕ) (s : Slots) (u : ℕ) (t : Option Slots)
    → s.used ≡ u
    → Fits n (suc h) (some s)
    → take_slot s u ≡ some t
    → Fits n h t
unfolding take_slot
take_slot-Fits n h s zero t q f e = absurd (omega arith)
take_slot-Fits n h s (suc u) t q f e = subst (Fits n h) (some_inj e) (f.0, omega arith, omega arith)

release-Fits :
    (n : ℤ) (h : ℕ) (s t : Option Slots) → Fits n (suc h) s → release s ≡ some t → Fits n h t
unfolding release
release-Fits n h none t f e = subst (Fits n h) (some_inj e) f
release-Fits n h (some s) t f e = take_slot-Fits n h s s.used t refl f e

Holds-Fits : (n : ℤ) {h : ℕ} {s : Option Slots} → Holds n h s → Fits n h s
Holds-Fits n made = new_semaphore-Fits n
Holds-Fits n (took {h} {s} r e) = took-Fits n h s (Holds-Fits n r) e
Holds-Fits n (missed {h} {s} r e) = missed-Fits n h s (Holds-Fits n r) e
Holds-Fits n (waited {h} r a) = Acquires-Fits n h a (Holds-Fits n r)
Holds-Fits n (gave_up {h} r a) = Acquires-Fits n h a (Holds-Fits n r)
Holds-Fits n (gave_back {h} {s} {t} r e) = release-Fits n h s t (Holds-Fits n r) e

take_slot_ready : (s : Slots) (u : ℕ) → 0 < u → (t : Option Slots) × (take_slot s u ≡ some t)
unfolding take_slot
take_slot_ready s zero h = absurd (omega arith)
take_slot_ready s (suc u) h = (some (record s { used = u }), refl)

release_ready :
    (n : ℤ) (h : ℕ) (s : Option Slots)
    → Fits n (suc h) s
    → (t : Option Slots) × (release s ≡ some t)
unfolding release
release_ready n h none f = (none, refl)
release_ready n h (some s) f = take_slot_ready s s.used (omega arith)

-- However a semaphore for a positive number of slots is used, by takes that do not wait, takes that
-- wait, and releases by those who hold a slot: no more than that number of slots is out; a take that
-- does not wait succeeds if and only if fewer are out; and while one is out a release does not block.
pub Holds-bounded :
    (k : ℕ) {h : ℕ} {s : Option Slots}
    → Holds (pos (suc k)) h s
    → (h ≤ suc k)
      × ((try_acquire s).1 ≡ ltb h (suc k))
      × (0 < h → (t : Option Slots) × (release s ≡ some t))
unfolding new_semaphore try_acquire
Holds-bounded k {h} {s = none} r = cc (Holds-Fits (pos (suc k)) r)
Holds-bounded k {h} {s = some s} r =
    let f = Holds-Fits (pos (suc k)) r in
    let same : s.cap ≡ suc k = ground (arith, f.0) in
    (omega arith, ground arith, λ p. take_back h p f)
  where
    take_back :
        (h : ℕ)
        → 0 < h
        → Fits (pos (suc k)) h (some s)
        → (t : Option Slots) × (release (some s) ≡ some t)
    take_back zero p f = absurd (omega arith)
    take_back (suc h) p f = release_ready (pos (suc k)) h (some s) f
