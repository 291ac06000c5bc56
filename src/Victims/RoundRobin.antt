-- ===== src/Victims/RoundRobin.antt =====
-- inc/hcupc_spmd-random.h: what the selections of victims return.
use habanero_upc.Prelude.{
  ℕ, zero, suc, ◌+◌, ◌-◌, ◌%◌, ◌<◌, ◌≡◌, ◌≢◌, refl, ◌∙◌, Bool, true, false, some, arith, ltb, leb,
  ◌==◌, ◌&&◌, if◌then◌else◌, count, ite, ℕ_discrete, dec_lt,
}
use mathlib.Core.Path.{ap₂}
use native.Mathlib.Nat.{mod-eq_of_lt, mod_self, mod-lt}
use habanero_upc.Victims.{select_victim, select_victims, select_random_victim}

-- The place `j` after `me`, around the ring.
abbrev after : ℕ → ℕ → ℕ → ℕ
after ranks me j = if ltb (me + j) ranks then me + j else me + j - ranks

-- How far place `i` is after `me`.
abbrev offset : ℕ → ℕ → ℕ → ℕ
offset ranks me i = if leb me i then i - me else i + ranks - me

abbrev one_if : Bool → ℕ
one_if true = 1
one_if false = 0

next_place : (ranks x : ℕ) → x < ranks → (x + 1) % ranks ≡ (if (x + 1) == ranks then 0 else x + 1)
next_place ranks x h = elim (dec_lt (x + 1) ranks) [
  | yes inside ↦ ground (arith, mod-eq_of_lt inside)
  | no last ↦ let same : x + 1 ≡ ranks = omega arith in rw same (ground (arith, mod_self ranks))
]

selected :
    (ranks me j : ℕ)
    → me < ranks
    → suc j < ranks
    → select_victim ranks me (after ranks me j) ≡ after ranks me (suc j)
unfolding select_victim
selected ranks me j h k = ground (arith, next_place ranks (after ranks me j))

-- The place `suc j` after `me` is `i` exactly if that is how far `i` is.
hit :
    (ranks me i j : ℕ)
    → me < ranks
    → i < ranks
    → suc j < ranks
    → ite (ℕ_discrete i (after ranks me (suc j))) 1 0 ≡ one_if (offset ranks me i == suc j)
hit ranks me i j h k l = ground arith

-- An interval of distances with one more at its start.
interval :
    (o j n : ℕ)
    → one_if (o == suc j) + one_if (ltb (suc j) o && leb o (suc j + n))
      ≡ one_if (ltb j o && leb o (j + suc n))
interval o j n = ground arith

select_victims-count :
    (ranks me i n j : ℕ)
    → me < ranks
    → i < ranks
    → j + n < ranks
    → count i (select_victims ranks me n (after ranks me j))
      ≡ one_if (ltb j (offset ranks me i) && leb (offset ranks me i) (j + n))
unfolding select_victims
select_victims-count ranks me i zero j h k l = empty_interval (offset ranks me i) j
  where
    empty_interval : (o j : ℕ) → 0 ≡ one_if (ltb j o && leb o (j + 0))
    empty_interval o j = ground arith
select_victims-count ranks me i (suc n) j h k l =
    let v = selected ranks me j h (omega arith) in
    rw v (
      ap₂ ◌+◌ (hit ranks me i j h k (omega arith))
        (select_victims-count ranks me i n (suc j) h k (omega arith))
      ∙ interval (offset ranks me i) j n)

-- As many calls of selectvictim in a row as there are other places, from the start of a search, return
-- every other place exactly once and never the place itself.
pub select_victims-covers :
    (ranks me i : ℕ)
    → me < ranks
    → i < ranks
    → count i (select_victims ranks me (ranks - 1) me) ≡ (if i == me then 0 else 1)
select_victims-covers ranks me i h k =
    let start : after ranks me 0 ≡ me = ground arith in
    let counted = select_victims-count ranks me i (ranks - 1) 0 h k (omega arith) in
    (rw start at counted) ∙ all_other (ranks - 1) refl
  where
    all_other :
        (n : ℕ)
        → n ≡ ranks - 1
        → one_if (ltb 0 (offset ranks me i) && leb (offset ranks me i) (0 + n))
          ≡ (if i == me then 0 else 1)
    all_other n e = ground arith

-- With random selection, if one of the first `fuel` random numbers is another place modulo the number
-- of places, selectvictim returns, and returns a place that is not its own.
pub select_random_victim-other :
    (ranks me fuel k : ℕ) (rand : ℕ → ℕ)
    → 0 < ranks
    → k < fuel
    → rand k % ranks ≢ me
    → (v : ℕ) × (select_random_victim ranks me fuel rand ≡ some v) × (v < ranks) × (v ≢ me)
unfolding select_random_victim
select_random_victim-other ranks me zero k rand pos h o = absurd (omega arith)
select_random_victim-other ranks me (suc fuel) zero rand pos h o =
    (rand 0 % ranks, ground (arith, o), mod-lt (rand 0) pos, o)
select_random_victim-other ranks me (suc fuel) (suc k) rand pos h o =
    let (v, e, inside, other) =
      select_random_victim-other ranks me fuel k (λ q. rand (suc q)) pos (omega arith) o in
    elim (ℕ_discrete (rand 0 % ranks) me) [
      | yes own ↦ (v, ground (arith, own, e), inside, other)
      | no away ↦ (rand 0 % ranks, ground (arith, away), mod-lt (rand 0) pos, away)
    ]
