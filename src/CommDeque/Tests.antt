-- ===== src/CommDeque/Tests.antt =====
-- The deque of the communication worker at concrete inputs.
use habanero_upc.Prelude.{
  ℕ, ◌+◌, ◌-◌, ◌%◌, ◌≤◌, ◌≡◌, refl, true, false, [], ◌∷◌, ◌++◌, arith, ℕ_discrete,
}
use habanero_upc.Prelude.Ring.{window}
use habanero_upc.CommDeque.{
  Deque, CommAsyncTask, busy, full, semi_concurrent_deque_size, comm_task_push, comm_task_pop,
}
use habanero_upc.CommDeque.Fifo.{
  IsValid, contents, outcome, enqueue, dequeue, comm_task_push_refines, comm_task_pop_refines,
}
use habanero_upc.CommDeque.Threads.{
  System, outside, ready, call, check_room, cas_win, store, init, Steps, here, next,
}
use habanero_upc.CommDeque.Producers.{holding}
use habanero_upc.CommDeque.SingleProducer.{single_producer_fifo}
use habanero_upc.CommDeque.Overflow.{overflow_race}

abbrev task : ℕ → CommAsyncTask
task n = record { lambda = n; involve_communication = true }

-- Two tasks, round the end of the array.
abbrev wrapped : Deque
wrapped = record { slots = task; deq_head = 8191; deq_tail = 8193; lock = 0 }

wrapped-IsValid : IsValid wrapped
wrapped-IsValid = omega arith

contents-wrapped : contents wrapped ≡ task 8191 ∷ task 0 ∷ []
contents-wrapped = refl

comm_task_push_refines_example :
    outcome (comm_task_push wrapped (task 7)) ≡ enqueue (task 8191 ∷ task 0 ∷ []) (task 7)
comm_task_push_refines_example = comm_task_push_refines wrapped (task 7) wrapped-IsValid

comm_task_pop_refines_example :
    let (t, d) = comm_task_pop wrapped in (t, contents d) ≡ dequeue (task 8191 ∷ task 0 ∷ [])
comm_task_pop_refines_example = comm_task_pop_refines wrapped wrapped-IsValid

push_full : comm_task_push (record wrapped { deq_tail = 16383 }) (task 7) ≡ full
unfolding comm_task_push
push_full = refl

push_busy : comm_task_push (record wrapped { lock = 1 }) (task 7) ≡ busy
unfolding comm_task_push
push_busy = refl

-- One push up to the store of the task.
one_push : (s : System) × Steps 1 (init task) s × (holding (s.pc 0) ≡ 1)
unfolding init ℕ_discrete
one_push = (
  _,
  next
      (next
        (next (next here refl (call 0 (task 5) (omega arith) refl)) refl
          (check_room 0 (task 5) (omega arith) refl (omega arith)))
        refl (cas_win 0 (task 5) (omega arith) refl refl))
      refl (store 0 (task 5) (omega arith) refl),
  refl,
)

single_producer_fifo_example :
    (one_push.0.stored
      ≡ one_push.0.taken
        ++ window semi_concurrent_deque_size one_push.0.deque.slots one_push.0.deque.deq_head
            (one_push.0.deque.deq_tail - one_push.0.deque.deq_head))
    × (one_push.0.deque.deq_tail - one_push.0.deque.deq_head ≤ semi_concurrent_deque_size)
single_producer_fifo_example = single_producer_fifo task one_push.1

-- One slot is left, and nobody is inside a call.
abbrev nearly_full : System
nearly_full = record {
  deque = record { slots = task; deq_head = 0; deq_tail = 8191; lock = 0 };
  pc = λ _. outside;
  consumer = ready;
  aborted = false;
  stored = [];
  taken = [];
}

overflow_race_example :
    (t : System) × Steps 2 nearly_full t
    × (t.aborted ≡ false)
    × (t.stored ≡ task 100 ∷ task 200 ∷ [])
    × (t.deque.deq_tail ≡ t.deque.deq_head + 8193)
    × (t.deque.slots (t.deque.deq_head % 8192) ≡ task 200)
overflow_race_example =
    overflow_race nearly_full (task 100) (task 200) refl refl refl refl (omega arith)
