-- ===== src/CommWorker.antt =====
-- src/hcupc_spmd.cpp and inc/hcupc_spmd-commTask.h: how a task gets to the communication worker, and
-- how that worker runs it. The tasks that wait are counted by the finish scope.
pub mod Runs
pub mod Sends
mod Tests
use habanero_upc.Prelude.{
  ℕ, zero, suc, ◌+◌, ◌-◌, Bool, true, false, Option, none, some, List, [], ◌∷◌, ◌>>=◌,
  if◌then◌else◌,
}
use habanero_upc.CommDeque.{Deque, CommAsyncTask, pushed, busy, full, comm_task_push, comm_task_pop}
use habanero_upc.DistWs.InFlight.{Flights, increment_task_in_flight_self}

-- One place. `current_finish_counter` is `none` for the null pointer; `environment` is all that the
-- lambdas change.
pub record CommWorker (E : Type 0) : Type 0 where
  pub deque : Deque
  pub current_finish_counter : Option ℕ
  pub flights : Flights
  pub outgoing_tasks : ℕ
  pub environment : E

-- The task that allocate_comm_task packs.
abbrev pub allocated : ℕ → CommAsyncTask
allocated lambda = record { lambda = lambda; involve_communication = true }

-- The task that __intraPlace_asyncComm packs.
abbrev pub intra_place : ℕ → CommAsyncTask
intra_place lambda = record { lambda = lambda; involve_communication = false }

-- `none` is a failed assertion, or a lock that is not free.
module _ {E : Type 0} where
  unfoldable pub send_task_to_comm_worker : CommAsyncTask → CommWorker E → Option (CommWorker E)
  send_task_to_comm_worker task s = do
    n ← s.current_finish_counter
    elim (comm_task_push s.deque task) [
      | pushed d ↦ some (record s { deque = d; current_finish_counter = some (n + 1) })
      | busy ↦ none
      | full ↦ none
    ]

  unfoldable pub send_all : List CommAsyncTask → CommWorker E → Option (CommWorker E)
  unfolding send_task_to_comm_worker
  send_all [] s = some s
  send_all (task ∷ tasks) s = do s1 ← send_task_to_comm_worker task s; send_all tasks s1

  -- What the worker does before it runs a task.
  unfoldable pub count_outgoing : ℕ → CommAsyncTask → CommWorker E → CommWorker E
  count_outgoing me task s =
      if task.involve_communication
      then record s {
        flights = increment_task_in_flight_self me s.flights;
        outgoing_tasks = s.outgoing_tasks + 1;
      }
      else s

  -- One turn of the loop with a task; `execute` runs a lambda.
  unfoldable pub run_task : (ℕ → E → E) → ℕ → CommAsyncTask → CommWorker E → Option (CommWorker E)
  unfolding count_outgoing
  run_task execute me task s =
      let s1 = count_outgoing me task s in
      do
        n ← s1.current_finish_counter
        some (record s1 {
          environment = execute task.lambda s1.environment;
          current_finish_counter = some (n - 1);
        })

  unfoldable pub pop_execute_comm_task : (ℕ → E → E) → ℕ → ℕ → CommWorker E → Option (CommWorker E)
  unfolding run_task
  pop_execute_comm_task execute me zero s = none
  pop_execute_comm_task execute me (suc fuel) s =
      let (popped, d) = comm_task_pop s.deque in
      elim popped [
        | none ↦ some (record s { deque = d })
        | some task ↦ do
          s1 ← run_task execute me task (record s { deque = d })
          pop_execute_comm_task execute me fuel s1
      ]
