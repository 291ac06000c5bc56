-- ===== src/Victims/Tests.antt =====
-- The selection of victims among five places.
use habanero_upc.Prelude.{◌≡◌, refl, [], ◌∷◌, arith, count}
use habanero_upc.Victims.{select_victims}
use habanero_upc.Victims.RoundRobin.{select_victims-covers}

run : select_victims 5 2 4 2 ≡ 3 ∷ 4 ∷ 0 ∷ 1 ∷ []
unfolding select_victims
run = refl

select_victims-covers_example : count 1 (select_victims 5 2 4 2) ≡ 1
select_victims-covers_example = select_victims-covers 5 2 1 (omega arith) (omega arith)
