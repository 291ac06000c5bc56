-- ===== src/DistWs/Hunt/GlbOrder.antt =====
-- src/hcupc_spmd_distWS_common.cpp: the order of random attempts and lifelines in the GLB mode.
use habanero_upc.Prelude.{
  ℕ, ◌+◌, ◌-◌, ◌≤◌, ◌≡◌, ◌≢◌, Bool, true, false, List, [], ◌++◌, length, ◌⊎◌,
}
use habanero_upc.Victims.Selection.{Selection}
use habanero_upc.DistWs.Hunt.{Thief}
use habanero_upc.DistWs.Hunt.Synchronous.{Status}
use habanero_upc.DistWs.Hunt.Turns.{Turns, failures, has_success}
use habanero_upc.DistWs.Hunt.Tries.{Tries, IsOpen}

module _ {W S : Type 0} (me : ℕ) where
  -- A search with the random attempts `os`, where `most` may fail, and requests to `vs`.
  pub record Hunted (most ranks few : ℕ) (os : List (ℕ × Status)) (vs : List ℕ) (success : Bool)
      (s t : Thief W S) : Type 0 where
    pub asked : t.asked ≡ s.asked ++ vs
    few_asked : length vs ≤ few
    pub failed : t.stats.totals.failed_steals ≡ s.stats.totals.failed_steals + failures os
    few_tried : length os ≤ ranks - 1
    lifelines_last : vs ≢ [] → most ≤ t.current_glb_max_rand_attempts
    lifelines_after : vs ≢ [] → has_success os ≡ false
    exhausted : most ≤ s.current_glb_max_rand_attempts → os ≡ []
    pub capped : s.current_glb_max_rand_attempts ≤ most → t.current_glb_max_rand_attempts ≤ most
    pub found : success ≡ true → (vs ≢ []) ⊎ ((has_success os ≡ true) × IsOpen me t)
    pub nothing : success ≡ false → (vs ≡ []) × (has_success os ≡ false)

-- What start_search leaves as it is.
pub record SameCounts {W S : Type 0} (s t : Thief W S) : Type 0 where
  pub asked : t.asked ≡ s.asked
  pub stats : t.stats ≡ s.stats
  pub attempts : t.current_glb_max_rand_attempts ≡ s.current_glb_max_rand_attempts
