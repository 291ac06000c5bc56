-- ===== src/DistWs/Lifeline/Tests.antt =====
-- The success-only work stealing at three places: place 0 waits in the queue of place 2.
use habanero_upc.Prelude.{◌+◌, ◌<◌, ◌≡◌, refl, true, false, arith}
use habanero_upc.DistWs.Lifeline.{
  System, queue_size, attempt_steal_or_set_lifeline, queue_thief_of, attempt, queue, init, Steps,
  here, next,
}
use habanero_upc.DistWs.Lifeline.Pairs.{bit, lifelines_paired}
use habanero_upc.DistWs.Lifeline.Crossing.{crossing_requests_fail}

run : (s : System) × Steps 3 false init s × ((s.link 0 2).queued ≡ 1)
unfolding init attempt_steal_or_set_lifeline queue_thief_of
run = (
  _,
  next (next here (attempt 0 2 (omega arith) (omega arith) (omega arith) refl))
      (queue 0 2 (omega arith) (omega arith) (omega arith)),
  refl,
)

lifelines_paired_example :
    (run.0.failed ≡ false)
    × ((run.0.link 0 2).requests + (run.0.link 0 2).queued + (run.0.link 0 2).shipments
        ≡ bit (run.0.link 0 2).contacted)
    × (queue_size 3 2 run.0 < 3)
lifelines_paired_example = lifelines_paired 0 2 run.1 (omega arith)

crossing_requests_fail_example : (s : System) × Steps 3 true init s × (s.failed ≡ true)
crossing_requests_fail_example =
    crossing_requests_fail 3 0 2 (omega arith) (omega arith) (omega arith)
