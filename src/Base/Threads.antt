-- ===== src/Base/Threads.antt =====
-- Families `ℕ → A` indexed by thread: the update at one index, and weighted sums over the first `n`.
use Prim.Native.Nat.{ℕ, zero, suc, ◌+◌, ◌≤◌, ◌<◌}
use mathlib.Core.Path.{◌≡◌, refl}
use mathlib.Core.Logic.{inl, inr}
use native.Mathlib.Omega.{arith}
use coen.Base.Tests.{if◌then◌else◌, ◌==◌, Bool-cases}

abbrev pub put_at {ℓ} : {A : Type ℓ} → (ℕ → A) → ℕ → A → ℕ → A
put_at f i a j = if i == j then a else f j

module _ {ℓ} {A : Type ℓ} (weight : A → ℕ) where
  unfoldable pub tally : ℕ → (ℕ → A) → ℕ
  tally zero threads = 0
  tally (suc k) threads = weight (threads k) + tally k threads

  tally-put_at_out :
      (k : ℕ) (threads : ℕ → A) (at : ℕ) (new : A)
      → k ≤ at
      → tally k (put_at threads at new) ≡ tally k threads
  unfolding tally
  tally-put_at_out zero threads at new out = refl
  tally-put_at_out (suc k) threads at new out = ground (arith, tally-put_at_out k threads at new)

  -- A thread's move changes the sum by the change of its weight.
  pub tally-put_at :
      (k : ℕ) (threads : ℕ → A) (at : ℕ) (new : A)
      → at < k
      → tally k (put_at threads at new) + weight (threads at) ≡ tally k threads + weight new
  unfolding tally
  tally-put_at zero threads at new inside = absurd (omega arith)
  tally-put_at (suc k) threads at new inside = elim (Bool-cases (at == k)) [
    | inl last ↦ ground (arith, tally-put_at_out k threads at new)
    | inr other ↦ ground (arith, tally-put_at k threads at new)
  ]

  pub tally_zero :
      (k : ℕ) (threads : ℕ → A) → ((j : ℕ) → weight (threads j) ≡ 0) → tally k threads ≡ 0
  unfolding tally
  tally_zero zero threads light = refl
  tally_zero (suc k) threads light = omega (arith, light k, tally_zero k threads light)
