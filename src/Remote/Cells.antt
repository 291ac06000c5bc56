-- ===== src/Remote/Cells.antt =====
-- inc/hcupc_spmd-commTask.h: the cells that the messages on their way point to.
use habanero_upc.Prelude.{
  ℕ, ◌+◌, ◌≡◌, refl, ap, ◌∙◌, Bool, true, false, ◌&&◌, Option, none, some, List, [], ◌∷◌, ◌++◌,
  ◌==◌, if◌then◌else◌, update, update-here, update-other, arith, count, ℕ_discrete, Bool-cases, inl,
  inr,
}
use habanero_upc.Remote.{Lambda, Message, set_cell, run_lambda}

-- Whether a message points to the cell at address `a` of place `i`.
abbrev pub points_to : ℕ → ℕ → Message → Bool
points_to i a m = (m.source == i) && (m.address == a)

-- The number of messages that point to a cell.
abbrev pub pointers : ℕ → ℕ → List Message → ℕ
pointers i a [] = 0
pointers i a (m ∷ ms) = (if points_to i a m then 1 else 0) + pointers i a ms

abbrev pub tasks_of : Option Lambda → List ℕ
tasks_of none = []
tasks_of (some l) = run_lambda l

-- How often task `t` is on its way to place `p`.
abbrev pub under_way : (ℕ → ℕ → Option Lambda) → ℕ → ℕ → List Message → ℕ
under_way segment p t [] = 0
under_way segment p t (m ∷ ms) =
    (if m.dest == p then count t (tasks_of (segment m.source m.address)) else 0)
    + under_way segment p t ms

pub pointers-append :
    (i a : ℕ) (xs ys : List Message) → pointers i a (xs ++ ys) ≡ pointers i a xs + pointers i a ys
pointers-append i a [] ys = omega arith
pointers-append i a (m ∷ xs) ys = omega (arith, pointers-append i a xs ys)

pub under_way-append :
    (segment : ℕ → ℕ → Option Lambda) (p t : ℕ) (xs ys : List Message)
    → under_way segment p t (xs ++ ys) ≡ under_way segment p t xs + under_way segment p t ys
under_way-append segment p t [] ys = omega arith
under_way-append segment p t (m ∷ xs) ys = omega (arith, under_way-append segment p t xs ys)

-- A cell that was written, and the others.
pub set_cell_same :
    (segment : ℕ → ℕ → Option Lambda) (i a : ℕ) (x : Option Lambda) → set_cell segment i a x i a ≡ x
set_cell_same segment i a x =
    ap (λ f. f a) (update-here segment i (update (segment i) a x) i refl)
    ∙ update-here (segment i) a x a refl

set_cell_other :
    (segment : ℕ → ℕ → Option Lambda) (i a : ℕ) (x : Option Lambda) (j b : ℕ)
    → ((j == i) && (b == a)) ≡ false
    → set_cell segment i a x j b ≡ segment j b
set_cell_other segment i a x j b h = elim (ℕ_discrete i j) [
  | no away ↦ ap (λ f. f b) (update-other segment i (update (segment i) a x) j away)
  | yes here ↦
      ap (λ f. f b) (update-here segment i (update (segment i) a x) j here)
      ∙ update-other (segment i) a x b (λ e. ground (arith, h, here, e))
      ∙ ap (λ k. segment k b) here
]

-- Two pairs of place and address.
pub same_cell : (i a j b : ℕ) → ((i == j) && (a == b)) ≡ true → (i ≡ j) × (a ≡ b)
same_cell i a j b h = (ground (arith, h), ground (arith, h))

other_cell : (i a j b : ℕ) → ((i == j) && (a == b)) ≡ false → ((j == i) && (b == a)) ≡ false
other_cell i a j b h = ground (arith, h)

abbrev pub is_used : Option Lambda → ℕ
is_used none = 0
is_used (some l) = 1

pub is_used-set_cell :
    (segment : ℕ → ℕ → Option Lambda) (i a : ℕ) (x : Option Lambda) (j b : ℕ)
    → is_used (set_cell segment i a x j b)
      ≡ (if (i == j) && (a == b) then is_used x else is_used (segment j b))
is_used-set_cell segment i a x j b = elim (Bool-cases ((i == j) && (a == b))) [
  | inl same ↦
      let (p, q) = same_cell i a j b same in
      rw (same, ← p, ← q) (ap is_used (set_cell_same segment i a x))
  | inr other ↦ rw other (ap is_used (set_cell_other segment i a x j b (other_cell i a j b other)))
]

-- A cell to which no message points can be written.
pub under_way-set_cell :
    (segment : ℕ → ℕ → Option Lambda) (i a : ℕ) (x : Option Lambda) (p t : ℕ) (ms : List Message)
    → pointers i a ms ≡ 0
    → under_way (set_cell segment i a x) p t ms ≡ under_way segment p t ms
under_way-set_cell segment i a x p t [] h = refl
under_way-set_cell segment i a x p t (m ∷ ms) h =
    let other = missed (points_to i a m) (pointers i a ms) h in
    rw
      (
        set_cell_other segment i a x m.source m.address other,
        under_way-set_cell segment i a x p t ms (omega (arith, h)),
      )
      refl
  where
    missed : (b : Bool) (k : ℕ) → (if b then 1 else 0) + k ≡ 0 → b ≡ false
    missed b k e = ground arith
