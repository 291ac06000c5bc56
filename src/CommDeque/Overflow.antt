-- ===== src/CommDeque/Overflow.antt =====
-- src/hcupc_spmd-semiConcDeque.cpp, with threads: comm_task_push tests the size before it takes the
-- lock, so two producers can pass the test for one free slot.
use habanero_upc.Prelude.{
  ℕ, ◌+◌, ◌-◌, ◌%◌, ◌<◌, ◌≡◌, ◌≢◌, refl, false, [], ◌∷◌, ◌++◌, arith, update,
}
use habanero_upc.CommDeque.{CommAsyncTask, semi_concurrent_deque_size}
use habanero_upc.CommDeque.Threads.{
  System, outside, checking, trying, storing, advancing, unlocking, size_of, at, call, check_room,
  cas_win, store, advance, unlock, Steps, here, next,
}

-- A producer that has passed the test runs to the end of its push.
abbrev finished : System → ℕ → CommAsyncTask → System
finished s i e = record s {
  deque = record s.deque {
    slots = update s.deque.slots (s.deque.deq_tail % semi_concurrent_deque_size) e;
    deq_tail = s.deque.deq_tail + 1;
    lock = 0;
  };
  pc = update (update (update (update s.pc i (storing e)) i (advancing e)) i unlocking) i outside;
  stored = s.stored ++ e ∷ [];
}

finish :
    {n : ℕ} {r s : System} (i : ℕ) (e : CommAsyncTask)
    → Steps n r s
    → i < n
    → s.aborted ≡ false
    → s.pc i ≡ trying e
    → s.deque.lock ≡ 0
    → Steps n r (finished s i e)
finish i e r lt a q free =
    next
      (next (next (next r a (cas_win i e lt q free)) a (store i e lt (ground arith))) a
        (advance i e lt (ground arith)))
      a (unlock i lt (ground arith))

-- Two producers both pass the test when one slot is free, whatever they push.
abbrev both_trying : System → CommAsyncTask → CommAsyncTask → System
both_trying s e f = at (at (at (at s 0 (checking e)) 1 (checking f)) 0 (trying e)) 1 (trying f)

both_try :
    {s : System} (e f : CommAsyncTask)
    → s.aborted ≡ false
    → s.pc 0 ≡ outside
    → s.pc 1 ≡ outside
    → size_of s ≢ semi_concurrent_deque_size
    → Steps 2 s (both_trying s e f)
both_try e f a p q room =
    next
      (next
        (next (next here a (call 0 e (omega arith) p)) a (call 1 f (omega arith) (ground arith))) a
        (check_room 0 e (omega arith) (ground arith) room))
      a (check_room 1 f (omega arith) (ground arith) room)

-- From any state in which two producers are outside, the lock is free and one slot is left, an
-- interleaving of two pushes stores both tasks with no failed assertion: the deque then holds one
-- task more than its size, and the second task stands in the slot of the oldest one.
pub overflow_race :
    (s : System) (e f : CommAsyncTask)
    → s.aborted ≡ false
    → s.pc 0 ≡ outside
    → s.pc 1 ≡ outside
    → s.deque.lock ≡ 0
    → s.deque.deq_tail ≡ s.deque.deq_head + (semi_concurrent_deque_size - 1)
    → (t : System) × Steps 2 s t
      × (t.aborted ≡ false)
      × (t.stored ≡ (s.stored ++ e ∷ []) ++ f ∷ [])
      × (t.deque.deq_tail ≡ t.deque.deq_head + (semi_concurrent_deque_size + 1))
      × (t.deque.slots (t.deque.deq_head % semi_concurrent_deque_size) ≡ f)
overflow_race s e f a p q free one_left = (
  finished (finished (both_trying s e f) 0 e) 1 f,
  finish 1 f (finish 0 e (both_try e f a p q (omega arith)) (omega arith) a (ground arith) free)
      (omega arith) a (ground arith) refl,
  a,
  refl,
  omega arith,
  ground arith,
)
