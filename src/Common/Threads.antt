-- ===== src/Common/Threads.antt =====
-- Families of threads, one state for each number: a change of one state, and sums of weights over
-- the threads below a bound.
use Prim.Native.Nat.{ℕ, zero, suc, ◌+◌, ◌*◌, ◌≤◌, ◌<◌}
use mathlib.Core.Path.{◌≡◌, refl}
use mathlib.Core.Logic.{◌≢◌}
use native.Mathlib.Decide.{dec_lt}
use native.Mathlib.Omega.{arith}
use cese_sopg_github_io.Common.Tests.{if◌then◌else◌, ◌==◌}

-- Thread `i` goes to the state `a`.
abbrev pub moved {ℓ} : {A : Type ℓ} → (ℕ → A) → ℕ → A → ℕ → A
moved f i a j = if i == j then a else f j

module _ {ℓ} {A : Type ℓ} where
  pub sum_over : (A → ℕ) → ℕ → (ℕ → A) → ℕ
  sum_over w zero f = 0
  sum_over w (suc n) f = w (f n) + sum_over w n f

  sum_over-moved_above :
      (w : A → ℕ) (n : ℕ) (f : ℕ → A) (i : ℕ) (a : A)
      → n ≤ i
      → sum_over w n (moved f i a) ≡ sum_over w n f
  unfolding sum_over
  sum_over-moved_above w zero f i a h = refl
  sum_over-moved_above w (suc n) f i a h = ground (arith, sum_over-moved_above w n f i a)

  -- The weight of the old state goes, that of the new one comes.
  pub sum_over-moved :
      (w : A → ℕ) (n : ℕ) (f : ℕ → A) (i : ℕ) (a : A)
      → i < n
      → sum_over w n (moved f i a) + w (f i) ≡ w a + sum_over w n f
  unfolding sum_over
  sum_over-moved w zero f i a h = absurd (omega arith)
  sum_over-moved w (suc n) f i a h = elim (dec_lt i n) [
    | yes lower ↦ ground (arith, sum_over-moved w n f i a)
    | no top ↦ ground (arith, sum_over-moved_above w n f i a)
  ]

  pub sum_over-ge : (w : A → ℕ) (n : ℕ) (f : ℕ → A) (i : ℕ) → i < n → w (f i) ≤ sum_over w n f
  unfolding sum_over
  sum_over-ge w zero f i h = absurd (omega arith)
  sum_over-ge w (suc n) f i h = elim (dec_lt i n) [
    | yes lower ↦ omega (arith, sum_over-ge w n f i lower)
    | no top ↦ ground arith
  ]

  -- Two threads together weigh no more than all.
  pub sum_over-ge_two :
      (w : A → ℕ) (n : ℕ) (f : ℕ → A) (i j : ℕ)
      → i < n
      → j < n
      → i ≢ j
      → w (f i) + w (f j) ≤ sum_over w n f
  unfolding sum_over
  sum_over-ge_two w zero f i j hi hj ne = absurd (omega arith)
  sum_over-ge_two w (suc n) f i j hi hj ne =
      ground (arith, sum_over-ge_two w n f i j, sum_over-ge w n f i, sum_over-ge w n f j)

  pub sum_over-add_le :
      (u v w : A → ℕ) (n : ℕ) (f : ℕ → A)
      → ((a : A) → u a + v a ≤ w a)
      → sum_over u n f + sum_over v n f ≤ sum_over w n f
  unfolding sum_over
  sum_over-add_le u v w zero f h = omega arith
  sum_over-add_le u v w (suc n) f h = omega (arith, sum_over-add_le u v w n f h, h (f n))

  pub sum_over-const :
      (w : A → ℕ) (n c : ℕ) (f : ℕ → A) → ((i : ℕ) → i < n → w (f i) ≡ c) → sum_over w n f ≡ n * c
  unfolding sum_over
  sum_over-const w zero c f h = omega arith
  sum_over-const w (suc n) c f h =
      grind (arith, h n, sum_over-const w n c f (λ i lt. h i (omega arith)))

  -- A thread with some weight, if there is any.
  pub sum_over-find :
      (w : A → ℕ) (n : ℕ) (f : ℕ → A) → 0 < sum_over w n f → (i : ℕ) × (i < n) × (0 < w (f i))
  unfolding sum_over
  sum_over-find w zero f h = absurd (omega arith)
  sum_over-find w (suc n) f h = elim (dec_lt 0 (w (f n))) [
    | yes here ↦ (n, omega arith, here)
    | no none_here ↦
        let (i, lt, found) = sum_over-find w n f (omega arith) in (i, omega arith, found)
  ]
