-- ===== src/DistWs/InFlight.antt =====
-- src/hcupc_spmd_distWS_common.cpp: the counters of the tasks in flight. A place counts what it has
-- received from each source place, and later takes these numbers off the counters of the sources.
pub mod Drain
mod Tests
use habanero_upc.Prelude.{
  ℕ, zero, suc, ◌+◌, ◌-◌, ◌≡◌, Bool, true, false, Option, none, some, ltb, ◌==◌, ◌>>=◌,
  if◌then◌else◌, update,
}
use habanero_upc.Prelude.Int.{ℤ, pos, ◌+ℤ◌, ◌-ℤ◌}

-- received_tasks_origin, head_rto, tasks_received and out_of_work of this place, and the shared
-- array asyncsInFlight.
pub record Flights : Type 0 where
  pub received_tasks_origin : ℕ → ℕ
  pub head_rto : ℕ
  pub tasks_received : ℕ
  pub out_of_work : Bool
  pub asyncs_in_flight : ℕ → ℤ

-- INCREMENT_TASK_IN_FLIGHT_SELF
unfoldable pub increment_task_in_flight_self : ℕ → Flights → Flights
increment_task_in_flight_self me s = record s {
  asyncs_in_flight = update s.asyncs_in_flight me (s.asyncs_in_flight me +ℤ pos 1);
}

unfoldable decrement_task_in_flight_self : ℕ → ℕ → Flights → Flights
decrement_task_in_flight_self me tasks s = record s {
  asyncs_in_flight = update s.asyncs_in_flight me (s.asyncs_in_flight me -ℤ pos tasks);
}

unfoldable decrement_task_in_flight : ℕ → ℕ → Flights → Flights
decrement_task_in_flight place tasks s = record s {
  asyncs_in_flight = update s.asyncs_in_flight place (s.asyncs_in_flight place -ℤ pos tasks);
}

unfoldable pub queue_source_place_of_remote_task : ℕ → Flights → Flights
queue_source_place_of_remote_task i s = record s {
  out_of_work = false;
  tasks_received = s.tasks_received + 1;
  received_tasks_origin = update s.received_tasks_origin i (s.received_tasks_origin i + 1);
}

-- The place and its number of tasks come first; `none` is the failed assertion.
unfoldable pop_source_place_of_remote_task : ℕ → Flights → Option (ℕ × ℕ × Flights)
pop_source_place_of_remote_task ranks s =
    if ltb s.head_rto ranks
    then some (
      s.head_rto,
      s.received_tasks_origin s.head_rto,
      record s {
        received_tasks_origin = update s.received_tasks_origin s.head_rto 0;
        head_rto = if s.head_rto + 1 == ranks then 0 else s.head_rto + 1;
        tasks_received = s.tasks_received - s.received_tasks_origin s.head_rto;
      },
    )
    else none

-- The body of the loop of decrement_tasks_in_flight_count.
unfoldable pub drain_one : ℕ → ℕ → Flights → Option Flights
unfolding pop_source_place_of_remote_task decrement_task_in_flight decrement_task_in_flight_self
drain_one ranks me s = elim (pop_source_place_of_remote_task ranks s) [
  | none ↦ none
  | some (victim, tasks, s') ↦ some (
      if ltb 0 tasks
      then (if victim == me
          then decrement_task_in_flight_self me tasks s'
          else decrement_task_in_flight victim tasks s')
      else s')
]

unfoldable pub decrement_tasks_in_flight_count : ℕ → ℕ → ℕ → Flights → Option Flights
decrement_tasks_in_flight_count ranks me zero s = none
decrement_tasks_in_flight_count ranks me (suc fuel) s =
    let rest = (do s' ← drain_one ranks me s; decrement_tasks_in_flight_count ranks me fuel s') in
    if ltb 0 s.tasks_received then rest else some s

unfoldable pub received_tasks_from_victim : Flights → Bool
received_tasks_from_victim s = ltb 0 s.tasks_received

-- total_asyncs_inFlight, over the places `0 … n - 1`.
unfoldable total_asyncs_in_flight : ℕ → Flights → ℤ
total_asyncs_in_flight zero s = pos 0
total_asyncs_in_flight (suc n) s = total_asyncs_in_flight n s +ℤ s.asyncs_in_flight n
