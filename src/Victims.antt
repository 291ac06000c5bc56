-- ===== src/Victims.antt =====
-- inc/hcupc_spmd-random.h: the selection of victims, round robin (__VS_RR__) or at random
-- (__VS_RAND__). `last_steal` is the state.
pub mod RoundRobin
pub mod Selection
mod Tests
use habanero_upc.Prelude.{
  ℕ, zero, suc, ◌+◌, ◌-◌, ◌%◌, ◌≡◌, Bool, true, false, Option, none, some, List, [], ◌∷◌, ◌==◌,
  if◌then◌else◌, get_or,
}

module _ (ranks me : ℕ) where
  -- selectvictim of __VS_RR__: the victim, which is the new `last_steal`.
  unfoldable pub select_victim : ℕ → ℕ
  select_victim last_steal =
      let last = (last_steal + 1) % ranks in if last == me then (last + 1) % ranks else last

  -- `n` calls in a row.
  unfoldable pub select_victims : ℕ → ℕ → List ℕ
  unfolding select_victim
  select_victims zero last_steal = []
  select_victims (suc n) last_steal =
      select_victim last_steal ∷ select_victims n (select_victim last_steal)

  -- selectvictim of __VS_RAND__: `rand` gives the numbers that the calls of rand() return, and the
  -- loop ends with the first that is another place.
  unfoldable pub select_random_victim : ℕ → (ℕ → ℕ) → Option ℕ
  select_random_victim zero rand = none
  select_random_victim (suc fuel) rand =
      let rest = select_random_victim fuel (λ k. rand (suc k)) in
      if (rand 0 % ranks) == me then rest else some (rand 0 % ranks)
