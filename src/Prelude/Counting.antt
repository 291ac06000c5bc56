-- ===== src/Prelude/Counting.antt =====
-- Weights of the entries of an array summed over its first indices: threads, or places.
use Prim.Native.Nat.{ℕ, zero, suc, ◌+◌, ◌≤◌, ◌<◌}
use mathlib.Core.Path.{◌≡◌, refl}
use mathlib.Core.Logic.{◌≢◌}
use native.Mathlib.Decide.{dec_lt, ℕ_discrete}
use native.Mathlib.Omega.{arith}
use habanero_upc.Prelude.Lists.{update}

module _ {ℓ} {A : Type ℓ} (weight : A → ℕ) where
  unfoldable pub total : ℕ → (ℕ → A) → ℕ
  total zero f = 0
  total (suc n) f = weight (f n) + total n f

  pub total-same :
      (n : ℕ) (f g : ℕ → A)
      → ((i : ℕ) → i < n → weight (f i) ≡ weight (g i))
      → total n f ≡ total n g
  unfolding total
  total-same zero f g h = refl
  total-same (suc n) f g h =
      omega (arith, h n (omega arith), total-same n f g (λ i k. h i (omega arith)))

  -- Two arrays that agree at all indices but one.
  pub total-differ :
      (i n : ℕ) (f g : ℕ → A)
      → i < n
      → ((j : ℕ) → i ≢ j → weight (g j) ≡ weight (f j))
      → total n g + weight (f i) ≡ total n f + weight (g i)
  unfolding total
  total-differ i zero f g lt h = absurd (omega arith)
  total-differ i (suc n) f g lt h = elim (ℕ_discrete i n) [
    | yes here ↦ ground (arith, here, total-same n g f (λ j k. h j (omega arith)))
    | no before ↦ omega (arith, h n before, total-differ i n f g (omega arith) h)
  ]

  pub total-update :
      (many : ℕ) (old : ℕ → A) (at : ℕ) (new : A)
      → at < many
      → total many (update old at new) + weight (old at) ≡ total many old + weight new
  total-update many old at new h =
      ground (arith, total-differ at many old (update old at new) h (λ j other. ground arith))

  -- Two different indices weigh at most the whole.
  pub total-single : (n : ℕ) (f : ℕ → A) (i : ℕ) → i < n → weight (f i) ≤ total n f
  unfolding total
  total-single zero f i h = absurd (omega arith)
  total-single (suc n) f i h = elim (dec_lt i n) [
    | yes inside ↦ omega (arith, total-single n f i inside)
    | no here ↦ ground arith
  ]

  pub total-pair :
      (n : ℕ) (f : ℕ → A) (i j : ℕ) → i < j → j < n → weight (f i) + weight (f j) ≤ total n f
  unfolding total
  total-pair zero f i j h k = absurd (omega arith)
  total-pair (suc n) f i j h k = elim (dec_lt j n) [
    | yes inside ↦ omega (arith, total-pair n f i j h inside)
    | no here ↦ ground (arith, total-single n f i)
  ]

  pub total-const : (n : ℕ) (a : A) → weight a ≡ 0 → total n (λ _. a) ≡ 0
  unfolding total
  total-const zero a h = refl
  total-const (suc n) a h = omega (arith, total-const n a h)

pub total-zero : (n : ℕ) (f : ℕ → ℕ) → ((i : ℕ) → i < n → f i ≡ 0) → total (λ k. k) n f ≡ 0
unfolding total
total-zero zero f h = refl
total-zero (suc n) f h = omega (arith, h n (omega arith), total-zero n f (λ i k. h i (omega arith)))

module _ {ℓ} {A : Type ℓ} (weight : A → ℕ) where
  total-le : ((a : A) → weight a ≤ 1) → (n : ℕ) (f : ℕ → A) → total weight n f ≤ n
  unfolding total
  total-le small zero f = omega arith
  total-le small (suc n) f = omega (arith, total-le small n f, small (f n))

  -- Weights of at most one that add up to the number of entries are all one.
  pub total-full :
      ((a : A) → weight a ≤ 1)
      → (n : ℕ) (f : ℕ → A) (i : ℕ) → i < n
      → total weight n f ≡ n
      → weight (f i) ≡ 1
  unfolding total
  total-full small zero f i h e = absurd (omega arith)
  total-full small (suc n) f i h e = elim (dec_lt i n) [
    | yes inside ↦ total-full small n f i inside (omega (arith, small (f n), total-le small n f))
    | no here ↦ ground (arith, small (f n), total-le small n f)
  ]

  pub total-weightless :
      (n : ℕ) (f : ℕ → A) → ((i : ℕ) → i < n → weight (f i) ≡ 0) → total weight n f ≡ 0
  unfolding total
  total-weightless zero f h = refl
  total-weightless (suc n) f h =
      omega (arith, h n (omega arith), total-weightless n f (λ i k. h i (omega arith)))

  pub total-all : (n : ℕ) (f : ℕ → A) → ((i : ℕ) → i < n → weight (f i) ≡ 1) → total weight n f ≡ n
  unfolding total
  total-all zero f h = refl
  total-all (suc n) f h = omega (arith, h n (omega arith), total-all n f (λ i k. h i (omega arith)))

  -- A sum that is not zero has an entry that is not.
  pub total-positive :
      (n : ℕ) (f : ℕ → A) → 0 < total weight n f → (i : ℕ) × (i < n) × (0 < weight (f i))
  unfolding total
  total-positive zero f h = absurd (omega arith)
  total-positive (suc n) f h = elim (dec_lt 0 (weight (f n))) [
    | yes here ↦ (n, omega arith, here)
    | no other ↦ let (i, lt, w) = total-positive n f (omega arith) in (i, omega arith, w)
  ]

  -- Weights of at most one, of which one is zero, add up to less than the number of entries.
  pub total-room :
      (n : ℕ) (f : ℕ → A) (k : ℕ)
      → k < n
      → weight (f k) ≡ 0
      → ((i : ℕ) → weight (f i) ≤ 1)
      → total weight n f < n
  unfolding total
  total-room zero f k lt e h = absurd (omega arith)
  total-room (suc n) f k lt e h = elim (dec_lt k n) [
    | yes below ↦ omega (arith, total-room n f k below e h, h n)
    | no last ↦ ground (arith, at_most n)
  ]
    where
      at_most : (m : ℕ) → total weight m f ≤ m
      at_most zero = omega arith
      at_most (suc m) = omega (arith, at_most m, h m)

total-plus :
    (n : ℕ) (f g : ℕ → ℕ)
    → total (λ k. k) n (λ i. f i + g i) ≡ total (λ k. k) n f + total (λ k. k) n g
unfolding total
total-plus zero f g = refl
total-plus (suc n) f g = omega (arith, total-plus n f g)

-- A sum of sums in the other order.
pub total-swap {ℓ} :
    {A : Type ℓ} (m n : ℕ) (f : A → ℕ → ℕ) (xs : ℕ → A)
    → total (λ k. k) m (λ t. total (λ a. f a t) n xs) ≡ total (λ a. total (λ k. k) m (f a)) n xs
unfolding total
total-swap m zero f xs = total-zero m (λ _. 0) (λ i h. refl)
total-swap m (suc n) f xs =
    omega (arith, total-plus m (f (xs n)) (λ t. total (λ a. f a t) n xs), total-swap m n f xs)
