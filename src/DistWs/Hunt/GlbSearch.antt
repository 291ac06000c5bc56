-- ===== src/DistWs/Hunt/GlbSearch.antt =====
-- src/hcupc_spmd_distWS_common.cpp: the search of the GLB mode, at random first and then along the
-- lifelines.
use habanero_upc.Prelude.{ℕ, Bool, true, false, not, ◌&&◌, Option, some, ltb, ◌>>=◌, if◌then◌else◌}
use habanero_upc.Victims.Selection.{Selection}
use habanero_upc.DistWs.Hunt.Lifelines.{search_for_lifelines}
use habanero_upc.DistWs.Hunt.Synchronous.{search_tasks_globally_synchronous}
use habanero_upc.DistWs.Hunt.{glb, Thief, Machine, start_search}

module _ {W S : Type 0} (m : Machine W) (sel : Selection S) (ranks me : ℕ)
    (cyclic_steals_not_allowed : Bool) (tmp : ℕ → Option ℕ) (task_transfer_threshold fuel : ℕ) where
  unfoldable pub search_tasks_globally_glb : (ℕ → ℕ) → ℕ → Thief W S → Option (Bool × Thief W S)
  unfolding search_tasks_globally_synchronous search_for_lifelines start_search
  search_tasks_globally_glb log glb_max_rand_attempts s =
      let s1 = start_search m sel me glb s in
      do
        (success, t) ←
            if ltb s1.current_glb_max_rand_attempts glb_max_rand_attempts
            then search_tasks_globally_synchronous m sel ranks me task_transfer_threshold fuel
                glb_max_rand_attempts true s1
            else some (false, s1)
        (if not success && not (ltb t.current_glb_max_rand_attempts glb_max_rand_attempts)
            then search_for_lifelines m sel ranks me cyclic_steals_not_allowed tmp
                task_transfer_threshold fuel log true t
            else some (success, t))
