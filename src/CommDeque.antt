-- ===== src/CommDeque.antt =====
-- src/hcupc_spmd-semiConcDeque.cpp: the deque that brings tasks to the communication worker.
pub mod Fifo
pub mod Threads
pub mod Producers
pub mod SingleProducer
pub mod Overflow
mod Tests
use habanero_upc.Prelude.{
  ℕ, ◌+◌, ◌-◌, ◌%◌, Bool, true, false, Option, none, some, ltb, ◌==◌, if◌then◌else◌, update,
}

-- SEMI_CONCURRENT_DEQUE_SIZE
abbrev pub semi_concurrent_deque_size : ℕ
semi_concurrent_deque_size = 8192

-- `comm_async_task`: what `_fp` and `_args` name together is one heap-allocated lambda.
pub record CommAsyncTask : Type 0 where
  pub lambda : ℕ
  pub involve_communication : Bool

-- The static variables: DEQUE, deqHead, deqTail, lock.
pub record Deque : Type 0 where
  pub slots : ℕ → CommAsyncTask
  pub deq_head : ℕ
  pub deq_tail : ℕ
  pub lock : ℕ

unfoldable pub semi_conc_deque_init : Deque → Deque
semi_conc_deque_init d = record d { deq_head = 0; deq_tail = 0; lock = 0 }

-- hc_cas(&lock, ag, x): whether it took effect, and the new value.
unfoldable pub hc_cas : ℕ → ℕ → ℕ → Bool × ℕ
hc_cas v ag x = if v == ag then (true, x) else (false, v)

pub data Pushed : Type 0 where
  pushed : Deque → Pushed
  busy : Pushed
  full : Pushed

-- One round of the `while` of comm_task_push, with no other thread in between: `full` is the
-- failed assertion, `busy` the round that finds the lock taken.
unfoldable pub comm_task_push : Deque → CommAsyncTask → Pushed
unfolding hc_cas
comm_task_push d entry =
    if semi_concurrent_deque_size == d.deq_tail - d.deq_head
    then full
    else let (success, locked) = hc_cas d.lock 0 1 in
      if success
      then pushed (record d {
        slots = update d.slots (d.deq_tail % semi_concurrent_deque_size) entry;
        deq_tail = d.deq_tail + 1;
        lock = 0;
      })
      else busy

unfoldable pub comm_task_pop : Deque → Option CommAsyncTask × Deque
comm_task_pop d =
    if ltb 0 (d.deq_tail - d.deq_head)
    then (
      some (d.slots (d.deq_head % semi_concurrent_deque_size)),
      record d { deq_head = d.deq_head + 1 },
    )
    else (none, d)
