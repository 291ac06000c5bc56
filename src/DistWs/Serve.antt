-- ===== src/DistWs/Serve.antt =====
-- src/hcupc_spmd_distWS_common.cpp: how a place serves the thieves with the asyncAny tasks of its
-- computation workers. A number stands for a task.
pub mod Batches
pub mod Served
pub mod Answered
pub mod Rounds
pub mod Successonly
pub mod GlbLoop
pub mod Glb
pub mod Baseline
mod Tests
use habanero_upc.Prelude.{
  ℕ, zero, suc, ◌+◌, ◌≤◌, Bool, true, false, not, ◌&&◌, Option, none, some, List, [], ◌∷◌, ◌++◌,
  ltb, ◌==◌, ◌>>=◌, if◌then◌else◌, length,
}
use habanero_upc.DistWs.ThiefQueue.{Thieves, pop_thief}
use habanero_upc.DistWs.InFlight.{Flights, increment_task_in_flight_self}
use habanero_upc.DistWs.Steal.{Request, req_available, req_unavailable, requested}

-- What upcxx::advance and the other places change while a batch is sent: the queue of thieves, and
-- req_thread, which a thief can write at any time. The latter may depend on what this place has sent.
pub record Network : Type 0 where
  pub queue : Thieves → Thieves
  pub request : List (ℕ × List ℕ × Bool) → Request → Request

abbrev pub max_async_any_tasks_shipment : ℕ
max_async_any_tasks_shipment = 5

-- The static variables of a place that serves, with the state `workers` of its computation workers.
-- The variable out_of_work stands in `thieves` and in `flights`. `launched` are the asyncs sent by
-- launch_upcxx_async: the thief, the tasks, and whether they answer a request of the baseline.
pub record Victim (W : Type 0) : Type 0 where
  pub workers : W
  pub thieves : Thieves
  pub flights : Flights
  pub req_thread : Request
  pub work_avail : ℕ
  pub outgoing_tasks : ℕ
  pub current_glb_max_rand_attempts : ℕ
  pub launched : List (ℕ × List ℕ × Bool)

-- Whether a thief has asked by a request of the baseline.
abbrev pub by_request {ℓ} : {A : Type ℓ} → Request → A → A → A
by_request (requested thief) asked free = asked
by_request req_available asked free = free
by_request req_unavailable asked free = free

-- req_thread after renewed_as_victim.
abbrev pub renewed : ℕ → Request → Request
renewed declared_load req_available = req_available
renewed declared_load req_unavailable =
    if ltb 0 declared_load then req_available else req_unavailable
renewed declared_load (requested thief) = requested thief

-- The workers belong to the library hcpp: `steal_from_compute_workers` is
-- steal_fromComputeWorkers_forDistWS, `idle_workers` its counter read as a Boolean,
-- `total_async_any_available` and `total_pending_local_asyncs` its counters of tasks.
-- `totalTasksStolenInOneShot` is `steal_n`.
module _ {W : Type 0} (steal_from_compute_workers : W → Option (ℕ × W))
    (idle_workers : W → Bool) where
  -- The loop of steal_from_my_computation_workers at its `i`-th turn, with `n` turns to go: the tasks
  -- stored from there. `none` is a write outside the array.
  unfoldable pub steal_loop : ℕ → ℕ → W → Option (List ℕ × W)
  steal_loop i zero w = some ([], w)
  steal_loop i (suc n) w =
      if ltb 0 i && idle_workers w then some ([], w) else elim (steal_from_compute_workers w) [
        | none ↦ some ([], w)
        | some (t, w1) ↦
            if ltb i max_async_any_tasks_shipment
            then (do (ts, w2) ← steal_loop (i + 1) n w1; some (t ∷ ts, w2))
            else none
      ]

  module _ (ranks me steal_n : ℕ) where
    -- The tasks, in the place of the array and its count.
    unfoldable pub steal_from_my_computation_workers : Victim W → Option (List ℕ × Victim W)
    unfolding steal_loop
    steal_from_my_computation_workers s = do
      (ts, w) ← steal_loop 0 steal_n s.workers
      some (
        ts,
        record s {
          workers = w;
          outgoing_tasks = s.outgoing_tasks + length ts;
          flights =
              if ltb 0 (length ts) then increment_task_in_flight_self me s.flights else s.flights;
        },
      )

    module _ (advance : Network) where
      unfoldable pub ship_async_any : List ℕ → ℕ → Bool → Victim W → Option (Victim W)
      ship_async_any ts thief baseline s =
          if ltb max_async_any_tasks_shipment (length ts)
          then none
          else (let sent = s.launched ++ (thief, ts, baseline) ∷ [] in
              some (record s {
                launched = sent;
                req_thread =
                    advance.request sent (if baseline then req_available else s.req_thread);
                thieves = advance.queue s.thieves;
              }))

      -- Both variables that stand for out_of_work.
      unfoldable pub mark_busy : Victim W → Victim W
      mark_busy s = record s {
        thieves = record (s.thieves) { out_of_work = false };
        flights = record (s.flights) { out_of_work = false };
      }

      unfoldable pub serve_asynchronous : Victim W → Option (Bool × Victim W)
      unfolding steal_from_my_computation_workers mark_busy ship_async_any
      serve_asynchronous s = do
        (ts, s1) ← steal_from_my_computation_workers (mark_busy s)
        (if ltb 0 (length ts)
            then (do
              (p, q) ← pop_thief ranks s1.thieves
              thief ← p
              s2 ← ship_async_any ts thief false (record s1 { thieves = q })
              some (true, s2))
            else some (false, s1))

      -- serve_pending_distSteal_request_synchronous
      unfoldable pub serve_synchronous : Victim W → Option (Bool × Victim W)
      unfolding steal_from_my_computation_workers mark_busy ship_async_any
      serve_synchronous s = elim s.req_thread [
        | req_available ↦ some (false, mark_busy s)
        | req_unavailable ↦ some (false, mark_busy s)
        | requested thief ↦ do
          (ts, s1) ← steal_from_my_computation_workers (mark_busy s)
          (if ltb 0 (length ts)
              then (do s2 ← ship_async_any ts thief true s1; some (true, s2))
              else some (false, s1))
      ]

      -- The loop of serve_pending_distSteal_request_successonly, where `success` is the value so far.
      -- `none` is a failed assertion or no fuel.
      unfoldable pub serve_rounds : ℕ → Bool → Victim W → Option (Bool × Victim W)
      unfolding serve_asynchronous
      serve_rounds zero success s = none
      serve_rounds (suc fuel) success s =
          let round = (do
            (served, s1) ← serve_asynchronous s
            if served then serve_rounds fuel served s1 else some (served, s1)) in
          if not (idle_workers s.workers) && s.thieves.thieves_waiting
          then round
          else some (success, s)

      -- The loop of serve_pending_distSteal_request_glb.
      unfoldable pub serve_rounds_glb : ℕ → Victim W → Option (Bool × Victim W)
      unfolding serve_asynchronous serve_synchronous
      serve_rounds_glb zero s = none
      serve_rounds_glb (suc fuel) s =
          let again = λ (r : Bool × Victim W). if r.0 then serve_rounds_glb fuel r.1 else some r in
          let lifelines =
            (if not (idle_workers s.workers) && s.thieves.thieves_waiting
              then serve_asynchronous s >>= again
              else some (false, s)) in
          by_request s.req_thread (serve_synchronous s >>= again) lifelines

      module _ (total_async_any_available total_pending_local_asyncs : W → ℕ) where
        unfoldable pub publish_local_load_info : Victim W → Victim W
        publish_local_load_info s = record s {
          work_avail =
              if ltb 0 (total_async_any_available s.workers)
              then total_async_any_available s.workers
              else total_pending_local_asyncs s.workers;
        }

        unfoldable pub serve_successonly : ℕ → Victim W → Option (Bool × Victim W)
        unfolding serve_rounds publish_local_load_info
        serve_successonly fuel s = do
          (success, t) ← serve_rounds fuel true s
          some (success, publish_local_load_info t)

        -- The declared load and the state.
        unfoldable pub renewed_as_victim : Victim W → ℕ × Victim W
        renewed_as_victim s =
            let declared_load = total_async_any_available s.workers in
            (declared_load, record s { req_thread = renewed declared_load s.req_thread })

        unfoldable pub serve_baseline : Victim W → Option (Bool × Victim W)
        unfolding renewed_as_victim serve_synchronous publish_local_load_info
        serve_baseline s =
            let (load, s1) = renewed_as_victim s in
            do
              (success, t) ← if ltb 0 load then serve_synchronous s1 else some (false, s1)
              some (success, publish_local_load_info t)

        unfoldable pub serve_glb : ℕ → Victim W → Option (Bool × Victim W)
        unfolding renewed_as_victim serve_rounds_glb publish_local_load_info mark_busy
        serve_glb fuel s =
            let (load, s1) =
              renewed_as_victim (mark_busy (record s { current_glb_max_rand_attempts = 0 })) in
            if load == 0 then some (false, publish_local_load_info s1) else (do
              (success, t) ← serve_rounds_glb fuel s1
              some (success, publish_local_load_info t))
