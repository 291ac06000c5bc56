-- ===== src/DistWs/InFlight/Tests.antt =====
-- The counters of the tasks in flight at concrete inputs, with three places.
use habanero_upc.Prelude.{◌≡◌, false, some, arith, ◌==◌, if◌then◌else◌}
use habanero_upc.Prelude.Counting.{total}
use habanero_upc.Prelude.Int.{pos}
use habanero_upc.DistWs.InFlight.{Flights, decrement_tasks_in_flight_count}
use habanero_upc.DistWs.InFlight.Drain.{IsCounted, Drained, decrement_tasks_in_flight_count_drains}

-- Two tasks came from place 0 and one from place 1; the loop starts at place 1.
abbrev received_three : Flights
received_three = record {
  received_tasks_origin = λ i. if i == 0 then 2 else if i == 1 then 1 else 0;
  head_rto = 1;
  tasks_received = 3;
  out_of_work = false;
  asyncs_in_flight = λ i. if i == 0 then pos 5 else pos 1;
}

received_three-IsCounted : IsCounted 3 received_three
unfolding total
received_three-IsCounted = omega arith

decrement_tasks_in_flight_count_drains_example :
    (t : Flights) × (decrement_tasks_in_flight_count 3 2 4 received_three ≡ some t)
    × Drained 3 received_three t
decrement_tasks_in_flight_count_drains_example =
    decrement_tasks_in_flight_count_drains 3 2 4 received_three (omega arith)
      received_three-IsCounted
