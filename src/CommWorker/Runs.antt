-- ===== src/CommWorker/Runs.antt =====
-- src/hcupc_spmd.cpp: the communication worker runs what it has been sent.
use habanero_upc.Prelude.{
  ℕ, zero, suc, ◌+◌, ◌-◌, ◌≤◌, ◌<◌, ◌≡◌, refl, sym, ap, ◌∙◌, Bool, true, false, none, some, List,
  [], ◌∷◌, arith, if◌then◌else◌, length,
}
use habanero_upc.Prelude.Int.{pos, ◌+ℤ◌, add-add, add-zero}
use habanero_upc.CommDeque.{CommAsyncTask, comm_task_pop}
use habanero_upc.CommDeque.Fifo.{IsValid, contents, dequeue, comm_task_pop_refines, pop-IsValid}
use habanero_upc.DistWs.InFlight.{increment_task_in_flight_self}
use habanero_upc.CommWorker.{CommWorker, count_outgoing, run_task, pop_execute_comm_task}

-- The number of tasks that involve communication.
abbrev pub involving : List CommAsyncTask → ℕ
involving [] = 0
involving (t ∷ ts) = (if t.involve_communication then 1 else 0) + involving ts

module _ {E : Type 0} (execute : ℕ → E → E) (me : ℕ) where
  -- The lambdas in the order of the tasks.
  abbrev pub execute_all : List CommAsyncTask → E → E
  execute_all [] e = e
  execute_all (t ∷ ts) e = execute_all ts (execute t.lambda e)

  -- From `s` to `t` the worker has run the tasks `ts`, and none is left.
  pub record Ran (ts : List CommAsyncTask) (n : ℕ) (s t : CommWorker E) : Type 0 where
    pub empty : contents t.deque ≡ []
    pub valid : IsValid t.deque
    pub finish : t.current_finish_counter ≡ some (n - length ts)
    pub effect : t.environment ≡ execute_all ts s.environment
    pub in_flight :
        t.flights.asyncs_in_flight me ≡ s.flights.asyncs_in_flight me +ℤ pos (involving ts)
    pub outgoing : t.outgoing_tasks ≡ s.outgoing_tasks + involving ts

  -- One task more, `u` being the state after it.
  record After (task : CommAsyncTask) (n : ℕ) (s u : CommWorker E) : Type 0 where
    kept : u.deque ≡ s.deque
    finish : u.current_finish_counter ≡ some (n - 1)
    effect : u.environment ≡ execute task.lambda s.environment
    in_flight :
        u.flights.asyncs_in_flight me ≡ s.flights.asyncs_in_flight me +ℤ pos (involving (task ∷ []))
    outgoing : u.outgoing_tasks ≡ s.outgoing_tasks + involving (task ∷ [])

  run_task-After :
      (task : CommAsyncTask) (n : ℕ) (s : CommWorker E) (b : Bool)
      → task.involve_communication ≡ b
      → s.current_finish_counter ≡ some n
      → (u : CommWorker E) × (run_task execute me task s ≡ some u) × After task n s u
  unfolding run_task count_outgoing increment_task_in_flight_self
  run_task-After task n s true e c = (
    record s {
      flights = increment_task_in_flight_self me s.flights;
      outgoing_tasks = s.outgoing_tasks + 1;
      environment = execute task.lambda s.environment;
      current_finish_counter = some (n - 1);
    },
    rw (e, c) refl,
    record {
      kept = refl;
      finish = refl;
      effect = refl;
      in_flight = ground (arith, e);
      outgoing = ground (arith, e);
    },
  )
  run_task-After task n s false e c = (
    record s {
      environment = execute task.lambda s.environment;
      current_finish_counter = some (n - 1);
    },
    rw (e, c) refl,
    record {
      kept = refl;
      finish = refl;
      effect = refl;
      in_flight = ground (arith, e, add-zero (s.flights.asyncs_in_flight me));
      outgoing = ground (arith, e);
    },
  )

  abbrev Drains : ℕ → List CommAsyncTask → ℕ → CommWorker E → Type 0
  Drains fuel ts n s =
      (t : CommWorker E) × (pop_execute_comm_task execute me fuel s ≡ some t) × Ran ts n s t

  drain-empty :
      (fuel n : ℕ) (s : CommWorker E)
      → IsValid s.deque
      → s.current_finish_counter ≡ some n
      → (comm_task_pop s.deque).0 ≡ none
      → contents (comm_task_pop s.deque).1 ≡ []
      → Drains (suc fuel) [] n s
  unfolding pop_execute_comm_task
  drain-empty fuel n s v c nothing left = (
    record s { deque = (comm_task_pop s.deque).1 },
    rw (pop_execute_comm_task, nothing) refl,
    record {
      empty = left;
      valid = pop-IsValid s.deque v;
      finish = c ∙ ap some (omega arith);
      effect = refl;
      in_flight = sym (add-zero (s.flights.asyncs_in_flight me));
      outgoing = omega arith;
    },
  )

  drain-next :
      (fuel n : ℕ) (task : CommAsyncTask) (ts : List CommAsyncTask) (s u : CommWorker E)
      → (comm_task_pop s.deque).0 ≡ some task
      → run_task execute me task (record s { deque = (comm_task_pop s.deque).1 }) ≡ some u
      → After task n (record s { deque = (comm_task_pop s.deque).1 }) u
      → 0 < n
      → Drains fuel ts (n - 1) u
      → Drains (suc fuel) (task ∷ ts) n s
  unfolding pop_execute_comm_task
  drain-next fuel n task ts s u popped ran after some_left (t, e, rest) = (
    t,
    rw (pop_execute_comm_task, popped, ran) e,
    record {
      empty = rest.empty;
      valid = rest.valid;
      finish = rest.finish ∙ ap some (omega arith);
      effect = rest.effect ∙ ap (execute_all ts) after.effect;
      in_flight =
          rw
            (
              rest.in_flight,
              after.in_flight,
              add-add (s.flights.asyncs_in_flight me) (involving (task ∷ [])) (involving ts),
            )
            (ap (λ k. s.flights.asyncs_in_flight me +ℤ pos k) (omega arith));
      outgoing = omega (arith, rest.outgoing, after.outgoing);
    },
  )

  drain :
      (fuel : ℕ) (ts : List CommAsyncTask) (n : ℕ) (s : CommWorker E)
      → contents s.deque ≡ ts
      → IsValid s.deque
      → s.current_finish_counter ≡ some n
      → length ts ≤ n
      → length ts < fuel
      → Drains fuel ts n s
  drain zero ts n s is v c counted enough = absurd (omega arith)
  drain (suc fuel) [] n s is v c counted enough =
      let popped = comm_task_pop_refines s.deque v ∙ ap dequeue is in
      drain-empty fuel n s v c (ap (λ x. x.0) popped) (ap (λ x. x.1) popped)
  drain (suc fuel) (task ∷ ts) n s is v c counted enough =
      let popped = comm_task_pop_refines s.deque v ∙ ap dequeue is in
      let (u, ran, after) =
        run_task-After task n (record s { deque = (comm_task_pop s.deque).1 })
          task.involve_communication refl c in
      drain-next fuel n task ts s u (ap (λ x. x.0) popped) ran after (omega arith) (
        drain fuel ts (n - 1) u (ap contents after.kept ∙ ap (λ x. x.1) popped)
          (rw after.kept (pop-IsValid s.deque v)) after.finish (omega arith) (omega arith))

  -- If the lock of the deque is free and the finish counter counts at least the tasks that wait, then
  -- pop_execute_comm_task with more fuel than tasks ends and no assertion fails: it has run the lambdas
  -- of all waiting tasks in the order in which they were pushed, has left the deque empty, has taken
  -- each task off the finish counter, and has counted exactly those that involve communication as tasks
  -- in flight and as outgoing tasks.
  pub pop_execute_comm_task-Ran :
      (fuel n : ℕ) (s : CommWorker E)
      → IsValid s.deque
      → s.current_finish_counter ≡ some n
      → length (contents s.deque) ≤ n
      → length (contents s.deque) < fuel
      → (t : CommWorker E) × (pop_execute_comm_task execute me fuel s ≡ some t)
        × Ran (contents s.deque) n s t
  pop_execute_comm_task-Ran fuel n s v c counted enough =
      drain fuel (contents s.deque) n s refl v c counted enough
