-- ===== src/Prelude/Ring.antt =====
-- Circular arrays that are indexed by a running counter modulo their size, as the deque of the
-- communication worker and the queue of thieves are.
use native.Mathlib.Nat.{mod-add-mod, mod-eq_of_lt, mod-eq-sub-mod, mod-lt}
use Prim.Native.Nat.{ℕ, zero, suc, ◌+◌, ◌-◌, ◌%◌, ◌<◌}
use mathlib.Core.Path.{◌≡◌, refl, ap, ap₂, ◌∙◌}
use mathlib.Core.Logic.{◌≢◌}
use mathlib.Core.List.{List, [], ◌∷◌, ◌++◌}
use native.Mathlib.Decide.{dec_lt}
use native.Mathlib.Omega.{arith}
use habanero_upc.Prelude.Lists.{length, update}

-- Fewer than `size` steps on, a counter does not come back to the same slot.
near-mod-ne : (size r d : ℕ) → r < size → 0 < d → d < size → (r + d) % size ≢ r
near-mod-ne size r d hr h hd = elim (dec_lt (r + d) size) [
  | yes p ↦ omega (arith, mod-eq_of_lt p)
  | no p ↦ omega (
    arith,
    mod-eq-sub-mod {n = r + d} {m = size} (omega arith),
    mod-eq_of_lt {n = r + d - size} {m = size} (omega arith),
  )
]

pub slot-ne : (size h d : ℕ) → 0 < d → d < size → (h + d) % size ≢ h % size
slot-ne size h d h0 hd e =
    near-mod-ne size (h % size) d (mod-lt h (omega arith)) h0 hd (mod-add-mod h size d ∙ e)

module _ {ℓ} {A : Type ℓ} (size : ℕ) where
  -- the `n` entries from counter `h` on
  abbrev pub window : (ℕ → A) → ℕ → ℕ → List A
  window slots h zero = []
  window slots h (suc n) = slots (h % size) ∷ window slots (h + 1) n

  pub length-window : (slots : ℕ → A) (h n : ℕ) → length (window slots h n) ≡ n
  length-window slots h zero = refl
  length-window slots h (suc n) = ap suc (length-window slots (h + 1) n)

  -- Writing the slot just past a window that leaves one free extends it by that entry.
  pub window-update :
      (slots : ℕ → A) (h n t : ℕ) (x : A)
      → t ≡ h + n
      → n < size
      → window (update slots (t % size) x) h (suc n) ≡ window slots h n ++ x ∷ []
  window-update slots h zero t x e lt =
      let same : t % size ≡ h % size = ap (λ k. k % size) (omega arith) in ground (arith, same)
  window-update slots h (suc n) t x e lt = ground (arith, apart, window-update slots (h + 1) n t x)
    where
      apart : t % size ≢ h % size
      apart q = slot-ne size h (suc n) (omega arith) lt (ap (λ k. k % size) (omega arith) ∙ q)

  -- A window that is one longer ends in the slot of the counter just past it.
  pub window-snoc :
      (slots : ℕ → A) (h n t : ℕ)
      → t ≡ h + n
      → window slots h (suc n) ≡ window slots h n ++ slots (t % size) ∷ []
  window-snoc slots h zero t e =
      let same : t % size ≡ h % size = ap (λ k. k % size) (omega arith) in ground (arith, same)
  window-snoc slots h (suc n) t e = ground (arith, window-snoc slots (h + 1) n t)

  -- Writing the slot just past a window that leaves one free does not change the window.
  pub window-update_past :
      (slots : ℕ → A) (h n t : ℕ) (x : A)
      → t ≡ h + n
      → n < size
      → window (update slots (t % size) x) h n ≡ window slots h n
  window-update_past slots h zero t x e lt = refl
  window-update_past slots h (suc n) t x e lt =
      ground (arith, apart, window-update_past slots (h + 1) n t x)
    where
      apart : t % size ≢ h % size
      apart q = slot-ne size h (suc n) (omega arith) lt (ap (λ k. k % size) (omega arith) ∙ q)

  -- `window` goes by the constructor, the code by the test that the number is not zero.
  pub window-pos :
      (slots : ℕ → A) (h n : ℕ)
      → 0 < n
      → window slots h n ≡ slots (h % size) ∷ window slots (h + 1) (n - 1)
  window-pos slots h zero lt = absurd (omega arith)
  window-pos slots h (suc n) lt = ap (λ k. window slots h (suc k)) (omega arith)

  -- A window reads only the slots below the size.
  pub window-same :
      (f g : ℕ → A) (h n : ℕ)
      → 0 < size
      → ((i : ℕ) → i < size → f i ≡ g i)
      → window f h n ≡ window g h n
  window-same f g h zero pos e = refl
  window-same f g h (suc n) pos e =
      ap₂ ◌∷◌ (e (h % size) (mod-lt h pos)) (window-same f g (h + 1) n pos e)
