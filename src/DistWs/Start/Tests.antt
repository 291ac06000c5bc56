-- ===== src/DistWs/Start/Tests.antt =====
-- Four places in the GLB mode with HCPP_STEAL_N=3 and HCPP_DIST_WS_GLB_RAND=2.
use habanero_upc.Prelude.{ℕ, ◌≡◌, refl, Option, none, some, arith, ◌>>=◌, ◌⊎◌, true, false}
use habanero_upc.Prelude.Int.{ℤ, pos, negsuc}
use habanero_upc.DistWs.ThiefQueue.{queued_entry}
use habanero_upc.DistWs.Hunt.{glb}
use habanero_upc.DistWs.Start.{whole, between, Options, DistWs, initialize_distws_set_of_thieves}
use habanero_upc.DistWs.Start.Established.{
  Established, is_accepted, initialize_distws_set_of_thieves-Established,
}

abbrev options : Options
options = record {
  hcpp_steal_n = some (whole 3);
  hcpp_dist_ws_glb_rand = some (pos 2);
  mode = glb;
  num_workers = 6;
}

abbrev start : ℕ → Options → Option DistWs
start me o =
    initialize_distws_set_of_thieves (λ _. queued_entry) (λ _. some 9) (λ _. 5) (λ _. pos 5) 4 me o

abbrev attempts : Option DistWs → Option ℤ
attempts d = do s ← d; some s.glb_max_rand_attempts

-- Only place 0 allows two failed attempts.
first_place : attempts (start 0 options) ≡ some (pos 2)
unfolding initialize_distws_set_of_thieves
first_place = refl

other_place : attempts (start 1 options) ≡ some (pos 1)
unfolding initialize_distws_set_of_thieves
other_place = refl

too_many : attempts (start 1 (record options { hcpp_steal_n = some (whole 6) })) ≡ none
unfolding initialize_distws_set_of_thieves
too_many = refl

mixed : attempts (start 1 (record options { hcpp_steal_n = some (between 1) })) ≡ none
unfolding initialize_distws_set_of_thieves
mixed = refl

negative_attempts :
    attempts (start 0 (record options { hcpp_dist_ws_glb_rand = some (negsuc 0) })) ≡ none
unfolding initialize_distws_set_of_thieves
negative_attempts = refl

initialize_distws_set_of_thieves-Established_example :
    ((is_accepted 4 1 options ≡ true)
      × ((s : DistWs) × (start 1 options ≡ some s) × Established 4 1 options s))
    ⊎ ((is_accepted 4 1 options ≡ false) × (start 1 options ≡ none))
initialize_distws_set_of_thieves-Established_example =
    initialize_distws_set_of_thieves-Established (λ _. queued_entry) (λ _. some 9) (λ _. 5)
      (λ _. pos 5) 4 1 options (omega arith)
