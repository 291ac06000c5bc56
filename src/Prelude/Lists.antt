-- ===== src/Prelude/Lists.antt =====
-- Arrays and lists measured and indexed by native numbers, under the library's names.
use Prim.Native.Nat.{ℕ, zero, suc, ◌+◌}
use mathlib.Core.Path.{◌≡◌, ap}
use mathlib.Core.List.{List, [], ◌∷◌, ◌++◌}
use native.Mathlib.Omega.{arith}
use native.Mathlib.Decide.{ℕ_discrete}
use mathlib.Core.Logic.{ite, if_pos, if_neg, ◌≢◌}

module _ {ℓ} {A : Type ℓ} where
  abbrev pub length : List A → ℕ
  length [] = 0
  length (x ∷ xs) = suc (length xs)

  abbrev pub get_or : List A → ℕ → A → A
  get_or [] i d = d
  get_or (x ∷ xs) zero d = x
  get_or (x ∷ xs) (suc i) d = get_or xs i d

  pub length-append : (xs ys : List A) → length (xs ++ ys) ≡ length xs + length ys
  length-append [] ys = omega arith
  length-append (x ∷ xs) ys = omega (arith, length-append xs ys)

  -- An array of the program that is written in place: a function of the index.
  abbrev pub update : (ℕ → A) → ℕ → A → ℕ → A
  update f at x k = ite (ℕ_discrete at k) x (f k)

-- How often a number stands in a list.
abbrev pub count : ℕ → List ℕ → ℕ
count k [] = 0
count k (x ∷ xs) = ite (ℕ_discrete k x) 1 0 + count k xs

pub count-same : (k x : ℕ) (xs : List ℕ) → k ≡ x → count k (x ∷ xs) ≡ 1 + count k xs
count-same k x xs e = ap (λ n. n + count k xs) (if_pos (ℕ_discrete k x) e 1 0)

pub count-other : (k x : ℕ) (xs : List ℕ) → k ≢ x → count k (x ∷ xs) ≡ 0 + count k xs
count-other k x xs e = ap (λ n. n + count k xs) (if_neg (ℕ_discrete k x) e 1 0)

pub count-append : (k : ℕ) (xs ys : List ℕ) → count k (xs ++ ys) ≡ count k xs + count k ys
count-append k [] ys = omega arith
count-append k (x ∷ xs) ys = omega (arith, count-append k xs ys)

module _ {ℓ} {A : Type ℓ} where
  pub update-here : (f : ℕ → A) (at : ℕ) (x : A) (k : ℕ) → at ≡ k → update f at x k ≡ x
  update-here f at x k h = if_pos (ℕ_discrete at k) h x (f k)

  pub update-other : (f : ℕ → A) (at : ℕ) (x : A) (k : ℕ) → at ≢ k → update f at x k ≡ f k
  update-other f at x k h = if_neg (ℕ_discrete at k) h x (f k)
