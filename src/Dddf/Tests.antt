-- ===== src/Dddf/Tests.antt =====
-- One DDDF at three places: place 0 is the home, place 1 puts, place 2 waits.
use habanero_upc.Prelude.{ℕ, ◌+◌, ◌≡◌, refl, false, some, [], arith, ℕ_discrete}
use habanero_upc.Dddf.{
  System, is_some, ddf_put, ddf_put_home, copy_datum_from_private_to_global_address,
  dddf_register_callback, ddf_put_callback, Step, put_local, put_copy, put_remote, arrive_home,
  register, take_request, answer, arrive, init, Steps, here, next,
}
use habanero_upc.Dddf.Control.{bit, pending}
use habanero_upc.Dddf.Single.{single_assignment}
use habanero_upc.Dddf.Delivered.{remote_put_delivers}
use habanero_upc.Dddf.Stale.{owner_put_stale}

abbrev garbage : ℕ → ℕ
garbage i = 100 + i

infixl 3 ◌also◌
abbrev ◌also◌ : {s t u : System} → Steps 0 1 7 s t → Step 0 1 7 t u → Steps 0 1 7 s u
r also st = next r st

run : (s : System) × Steps 0 1 7 (init garbage) s × (s.value 2 ≡ some 7)
unfolding init ℕ_discrete ddf_put ddf_put_home copy_datum_from_private_to_global_address
    dddf_register_callback ddf_put_callback
run = (
  _,
  here
      also register 2 (omega arith)
      also put_local refl
      also put_copy refl
      also put_remote refl
      also arrive_home 7 refl
      also take_request 2 (omega arith)
      also answer 2 7 refl (omega arith)
      also arrive 2 7 [] refl,
  refl,
)

single_assignment_example :
    (run.0.failed ≡ false)
    × (pending run.0 2 + bit (is_some (run.0.value 2)) ≡ bit (run.0.put_requested_from_home 2))
single_assignment_example = single_assignment garbage 2 run.1 (omega arith) (omega arith)

remote_put_delivers_example : let x : ℕ = 7 in x ≡ 7
remote_put_delivers_example = remote_put_delivers garbage 2 7 (omega arith) run.1 run.2

owner_put_stale_example :
    (s : System) × Steps 0 0 7 (init garbage) s
    × (s.failed ≡ false)
    × (s.value 0 ≡ some 7)
    × (s.value 2 ≡ some 100)
owner_put_stale_example = owner_put_stale 0 2 7 garbage (omega arith)
