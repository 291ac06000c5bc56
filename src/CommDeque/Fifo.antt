-- ===== src/CommDeque/Fifo.antt =====
-- src/hcupc_spmd-semiConcDeque.cpp, one call at a time: the deque against a bounded queue.
use habanero_upc.Prelude.{
  suc, ◌+◌, ◌-◌, ◌≤◌, ◌≡◌, Option, none, some, List, [], ◌∷◌, ◌++◌, arith, length, ◌==◌,
  if◌then◌else◌,
}
use habanero_upc.Prelude.Ring.{window, length-window, window-update, window-pos}
use habanero_upc.CommDeque.{
  Deque, CommAsyncTask, Pushed, pushed, busy, full, semi_concurrent_deque_size,
  semi_conc_deque_init, comm_task_push, comm_task_pop,
}

-- No thread is inside a call.
pub record IsValid (d : Deque) : Type 0 where
  pub ordered : d.deq_head ≤ d.deq_tail
  pub fits : d.deq_tail - d.deq_head ≤ semi_concurrent_deque_size
  pub unlocked : d.lock ≡ 0

-- The tasks that wait, oldest first.
abbrev pub contents : Deque → List CommAsyncTask
contents d = window semi_concurrent_deque_size d.slots d.deq_head (d.deq_tail - d.deq_head)

length-contents : (d : Deque) → length (contents d) ≡ d.deq_tail - d.deq_head
length-contents d =
    length-window semi_concurrent_deque_size d.slots d.deq_head (d.deq_tail - d.deq_head)

-- What a caller of a push sees: the tasks after it, the failed assertion, or a taken lock.
pub data Outcome : Type 0 where
  accepted : List CommAsyncTask → Outcome
  refused : Outcome
  retry : Outcome

abbrev pub outcome : Pushed → Outcome
outcome (pushed d) = accepted (contents d)
outcome full = refused
outcome busy = retry

-- A queue of at most SEMI_CONCURRENT_DEQUE_SIZE tasks.
abbrev pub enqueue : List CommAsyncTask → CommAsyncTask → Outcome
enqueue q e = if length q == semi_concurrent_deque_size then refused else accepted (q ++ e ∷ [])

abbrev pub dequeue : List CommAsyncTask → Option CommAsyncTask × List CommAsyncTask
dequeue [] = (none, [])
dequeue (e ∷ q) = (some e, q)

init-IsValid : (d : Deque) → IsValid (semi_conc_deque_init d)
unfolding semi_conc_deque_init
init-IsValid d = omega arith

-- A push on a valid deque, whose lock is free, appends the task if there is room and fails its
-- assertion if the deque is full.
pub comm_task_push_refines :
    (d : Deque) (e : CommAsyncTask)
    → IsValid d
    → outcome (comm_task_push d e) ≡ enqueue (contents d) e
unfolding comm_task_push
comm_task_push_refines d e v = ground (
  arith,
  length-contents d,
  window-update semi_concurrent_deque_size d.slots d.deq_head (d.deq_tail - d.deq_head) d.deq_tail
      e,
  grown,
)
  where
    grown : d.deq_tail + 1 - d.deq_head ≡ suc (d.deq_tail - d.deq_head)
    grown = omega (arith, v.ordered)

pub push-IsValid :
    (d d' : Deque) (e : CommAsyncTask) → IsValid d → comm_task_push d e ≡ pushed d' → IsValid d'
unfolding comm_task_push
push-IsValid d d' e v q = ground arith

-- A pop on a valid deque takes the oldest task and leaves the others in order, or reports that the
-- deque is empty and leaves it empty.
pub comm_task_pop_refines :
    (d : Deque)
    → IsValid d
    → let (t, d') = comm_task_pop d in (t, contents d') ≡ dequeue (contents d)
unfolding comm_task_pop
comm_task_pop_refines d v = ground (
  arith,
  window-pos semi_concurrent_deque_size d.slots d.deq_head (d.deq_tail - d.deq_head),
  shrunk,
)
  where
    shrunk : d.deq_tail - (d.deq_head + 1) ≡ d.deq_tail - d.deq_head - 1
    shrunk = omega (arith, v.ordered)

pub pop-IsValid : (d : Deque) → IsValid d → IsValid (comm_task_pop d).1
unfolding comm_task_pop
pop-IsValid d v = ground arith
