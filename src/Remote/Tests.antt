-- ===== src/Remote/Tests.antt =====
-- Place 0 sends a task to place 1 and two stolen tasks to place 2; the second message arrives first.
use habanero_upc.Prelude.{ℕ, ◌≡◌, refl, Option, none, some, List, [], ◌∷◌, arith, ℕ_discrete, ◌>>=◌}
use habanero_upc.Remote.{
  Lambda, lambda_dest, lambda_for_thief, World, launch_upcxx_async, async_at, async_at_received,
  asynchronous, ship, Steps, here, next, init,
}
use habanero_upc.Remote.Delivered.{Arrives, remote_tasks_arrive}

abbrev first : World
unfolding init launch_upcxx_async ℕ_discrete
first = launch_upcxx_async 0 0 (lambda_dest 7) 1 init

abbrev both : World
unfolding init launch_upcxx_async ℕ_discrete first
both = launch_upcxx_async 1 0 (lambda_for_thief (8 ∷ 9 ∷ []) 2) 2 first

abbrev arrived : Option (List ℕ × List ℕ × Option Lambda)
unfolding init launch_upcxx_async ℕ_discrete async_at_received both
arrived = do
  w ← async_at_received 0 2 0 1 both
  u ← async_at_received 0 1 0 0 w
  some (u.asynced 1, u.asynced 2, u.segment 0 1)

arrived_run : arrived ≡ some (7 ∷ [], 8 ∷ 9 ∷ [], none)
unfolding arrived
arrived_run = refl

-- A place does not send to itself.
to_itself : async_at 0 1 1 7 init ≡ none
unfolding async_at
to_itself = refl

sending : Steps 3 init both
unfolding init launch_upcxx_async ℕ_discrete async_at first both
sending =
    next (next here (asynchronous 0 0 1 7 (omega arith) (omega arith) refl refl))
      (ship 1 0 2 (8 ∷ 9 ∷ []) 2 (omega arith) (omega arith) (omega arith) refl)

remote_tasks_arrive_example : Arrives both
remote_tasks_arrive_example = remote_tasks_arrive 3 sending
