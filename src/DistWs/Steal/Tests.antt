-- ===== src/DistWs/Steal/Tests.antt =====
-- The baseline work stealing at two places: place 0 asks place 1 for tasks.
use habanero_upc.Prelude.{◌≡◌, ◌⊎◌, refl, true, false, arith, ℕ_discrete}
use habanero_upc.DistWs.Steal.{
  requested, awaiting, shipped, System, renew, mark_idle, invalidate, request, wake, init, Steps,
  here, next,
}
use habanero_upc.DistWs.Steal.Requests.{answers}
use habanero_upc.DistWs.Steal.Live.{one_answer_outstanding, request_live, wait_ends}

-- Place 1 has work and place 0 has asked for it.
unfoldable asked :
    (s : System) × Steps 2 init s
    × (s.wait_for_task_from_victim 0 ≡ true)
    × (s.req_thread 1 ≡ requested 0)
unfolding init ℕ_discrete
asked = (
  _,
  next (next (next here (renew 1 (omega arith) refl refl)) (mark_idle 0 (omega arith) refl refl))
      (request 0 1 (omega arith) (omega arith) (omega arith) refl refl),
  refl,
  refl,
)

-- Place 1 runs out of work before it answers: the wait of place 0 ends, and it counts as a success.
denied : (s : System) × Steps 2 asked.0 s × (s.out_of_work 0 ≡ false) × (s.shipments 0 ≡ 0)
unfolding asked init ℕ_discrete
denied = (
  _,
  next (next (next here (mark_idle 1 (omega arith) refl refl)) (invalidate 1 0 (omega arith) refl))
      (wake 0 (omega arith) refl refl),
  refl,
  refl,
)

one_answer_outstanding_example : (asked.0.pc 0 ≡ awaiting) × (answers 2 asked.0 0 ≡ 1)
one_answer_outstanding_example = one_answer_outstanding 0 asked.1 (omega arith) asked.2

request_live_example :
    ((asked.0.pc 1 ≡ shipped 0)
      ⊎ ((asked.0.pc 0 ≡ awaiting) × (asked.0.wait_for_task_from_victim 0 ≡ true)))
    × (asked.0.out_of_work 1 ≡ false)
request_live_example = request_live 1 0 asked.1 (omega arith) (omega arith) asked.3

wait_ends_example : (t : System) × Steps 2 asked.0 t × (t.wait_for_task_from_victim 0 ≡ false)
wait_ends_example = wait_ends 0 asked.1 (omega arith) asked.2
