-- ===== src/Dddf/Stale.antt =====
-- src/hcupc_spmd_dddf.cpp: DDF_PUT at the home releases the waiting tasks before it has copied the
-- datum to its section of the shared array.
use habanero_upc.Prelude.{ℕ, ◌≡◌, ◌≢◌, refl, false, some, [], arith}
use habanero_upc.Dddf.{
  System, ddf_put, ddf_put_home, dddf_register_callback, ddf_put_callback, put_local, register,
  take_request, answer, arrive, init, Steps, here, next,
}

-- When the home puts, whatever it puts and whatever its section held before, there is an interleaving
-- in which no assertion fails and another place gets what the section held before.
pub owner_put_stale :
    (home i content : ℕ) (garbage : ℕ → ℕ)
    → i ≢ home
    → (s : System) × Steps home home content (init garbage) s
      × (s.failed ≡ false)
      × (s.value home ≡ some content)
      × (s.value i ≡ some (garbage home))
unfolding ddf_put ddf_put_home dddf_register_callback ddf_put_callback init
owner_put_stale home i content garbage o = (
  _,
  next
      (next
        (next (next (next here (register i o)) (take_request i (ground arith))) (put_local refl))
        (answer i content (ground arith) (ground arith)))
      (arrive i (garbage home) [] (ground arith)),
  ground arith,
  ground arith,
  ground arith,
)
