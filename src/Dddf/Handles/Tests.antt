-- ===== src/Dddf/Handles/Tests.antt =====
-- Place 1 of three: a local future, and two distributed ones with their homes at places 0 and 1.
use habanero_upc.Prelude.{ℕ, ◌≡◌, refl, Option, none, some, List, [], ◌∷◌, ◌>>=◌, false, ℕ_discrete}
use habanero_upc.Dddf.Handles.{
  Dddf, shared, Handles, HomeRequest, ddf_handle, ddf_get_home, register_ddf, register_ddfs,
}
use habanero_upc.Dddf.Handles.Registered.{Registered, register_ddfs-Registered}

abbrev local_ddf : Dddf
local_ddf = record {
  kind = shared;
  value = none;
  global_id = 0;
  home_rank = 0;
  size = 0;
  put_requested_from_home = false;
  put_initiator_rank = none;
}

abbrev at_first : Handles
at_first = record { heap = λ _. local_ddf; next = 1; dddf_guid_map = λ _. none }

abbrev two_handles : Option Handles
two_handles = do
  (first, s) ← ddf_handle 3 1 70 0 8 at_first
  (second, t) ← ddf_handle 3 1 71 1 8 s
  some t

abbrev sent : Option (List HomeRequest)
sent = do t ← two_handles; some (register_ddfs 1 (0 ∷ 2 ∷ 1 ∷ 1 ∷ []) (t, [])).1

-- Only the first distributed future is asked for, and only once.
sent_run : sent ≡ some (record { dest = 0; guid = 70; requester = 1 } ∷ [])
unfolding register_ddfs register_ddf ddf_handle ℕ_discrete
sent_run = refl

homes :
    (do t ← two_handles; some (ddf_get_home 1 0 t ∷ ddf_get_home 1 1 t ∷ ddf_get_home 1 2 t ∷ []))
    ≡ some (1 ∷ 0 ∷ 1 ∷ [])
unfolding ddf_get_home ddf_handle ℕ_discrete
homes = refl

register_ddfs-Registered_example :
    (asked : List ℕ) × Registered 1
      (0 ∷ 0 ∷ [])
      asked
      at_first
      (register_ddfs 1 (0 ∷ 0 ∷ []) (at_first, [])).0
      []
      (register_ddfs 1 (0 ∷ 0 ∷ []) (at_first, [])).1
register_ddfs-Registered_example = register_ddfs-Registered 1 (0 ∷ 0 ∷ []) at_first []
