-- ===== src/CommDeque/SingleProducer.antt =====
-- src/hcupc_spmd-semiConcDeque.cpp, with threads: with one producer the deque is a queue.
use habanero_upc.Prelude.{
  ℕ, suc, sym, ap, ◌∙◌, ◌+◌, ◌-◌, ◌%◌, ◌≤◌, ◌<◌, ◌≡◌, ◌≢◌, refl, List, [], ◌∷◌, ◌++◌, arith, update,
}
use mathlib.Core.List.{append_assoc}
use habanero_upc.Prelude.Ring.{window, window-snoc, window-update_past, window-pos, slot-ne}
use habanero_upc.CommDeque.{CommAsyncTask, semi_concurrent_deque_size, semi_conc_deque_init}
use habanero_upc.CommDeque.Threads.{
  System, Pc, outside, checking, trying, storing, advancing, unlocking, ready, copied, size_of, at,
  Step, call, check_full, check_room, cas_lose, cas_win, store, advance, unlock, copy, remove, init,
  Steps, here, next,
}

-- A producer that has passed the test of the size and has not yet advanced deqTail.
abbrev claims : Pc → ℕ
claims (trying _) = 1
claims (storing _) = 1
claims (advancing _) = 1
claims _ = 0

abbrev waiting : System → List CommAsyncTask
waiting s = window semi_concurrent_deque_size s.deque.slots s.deque.deq_head (size_of s)

record IsFifo (s : System) : Type 0 where
  ordered : s.deque.deq_head ≤ s.deque.deq_tail
  room : size_of s + claims (s.pc 0) ≤ semi_concurrent_deque_size
  order : s.stored ≡ s.taken ++ waiting s
  written :
      (e : CommAsyncTask)
      → s.pc 0 ≡ advancing e
      → s.deque.slots (s.deque.deq_tail % semi_concurrent_deque_size) ≡ e
  read :
      (e : CommAsyncTask)
      → s.consumer ≡ copied e
      → (0 < size_of s) × (s.deque.slots (s.deque.deq_head % semi_concurrent_deque_size) ≡ e)

-- A step that moves only the program counter of the producer.
moved-IsFifo :
    {s : System} (i : ℕ) (p : Pc)
    → i < 1
    → IsFifo s
    → size_of s + claims p ≤ semi_concurrent_deque_size
    → ((e : CommAsyncTask) → p ≢ advancing e)
    → IsFifo (at s i p)
moved-IsFifo {s} i p lt v h other = record {
  ordered = v.ordered;
  room = ground arith;
  order = v.order;
  written = λ e q. ground (arith, other e);
  read = v.read;
}

store-IsFifo :
    {s : System} (i : ℕ) (e : CommAsyncTask)
    → i < 1
    → s.pc i ≡ storing e
    → IsFifo s
    → IsFifo (record s {
      deque = record s.deque {
        slots = update s.deque.slots (s.deque.deq_tail % semi_concurrent_deque_size) e;
      };
      pc = update s.pc i (advancing e);
    })
store-IsFifo {s} i e lt q v = record {
  ordered = v.ordered;
  room = ground (arith, v.room);
  order =
      v.order
      ∙ ap (◌++◌ s.taken) (
          sym (
            window-update_past semi_concurrent_deque_size d.slots d.deq_head (size_of s) d.deq_tail
              e (omega (arith, v.ordered)) below));
  written = λ e' p. ground arith;
  read = λ e' p.
      ground
        (arith, v.read e' p, slot-ne semi_concurrent_deque_size d.deq_head (size_of s), tail_at);
}
  where
    open s use {deque as d}

    below : size_of s < semi_concurrent_deque_size
    below = ground (arith, v.room)

    tail_at : d.deq_head + size_of s ≡ d.deq_tail
    tail_at = omega (arith, v.ordered)

advance-IsFifo :
    {s : System} (i : ℕ) (e : CommAsyncTask)
    → i < 1
    → s.pc i ≡ advancing e
    → IsFifo s
    → IsFifo (record s {
      deque = record s.deque { deq_tail = s.deque.deq_tail + 1 };
      pc = update s.pc i unlocking;
      stored = s.stored ++ e ∷ [];
    })
advance-IsFifo {s} i e lt q v = record {
  ordered = omega (arith, v.ordered);
  room = ground (arith, v.room, v.ordered);
  order = ground (
    arith,
    v.order,
    grown,
    v.written e,
    window-snoc semi_concurrent_deque_size d.slots d.deq_head (size_of s) d.deq_tail,
    append_assoc s.taken (waiting s) (e ∷ []),
  );
  written = λ e' p. ground arith;
  read = λ e' p. ground (arith, v.read e' p, grown);
}
  where
    open s use {deque as d}

    grown : d.deq_tail + 1 - d.deq_head ≡ suc (size_of s)
    grown = omega (arith, v.ordered)

remove-IsFifo :
    {s : System} (e : CommAsyncTask)
    → s.consumer ≡ copied e
    → IsFifo s
    → IsFifo (record s {
      deque = record s.deque { deq_head = s.deque.deq_head + 1 };
      consumer = ready;
      taken = s.taken ++ e ∷ [];
    })
remove-IsFifo {s} e q v = record {
  ordered = omega (arith, v.ordered, v.read e q);
  room = omega (arith, v.room);
  order = ground (
    arith,
    v.order,
    v.read e q,
    shrunk,
    window-pos semi_concurrent_deque_size d.slots d.deq_head (size_of s),
    append_assoc s.taken (e ∷ [])
        (window semi_concurrent_deque_size d.slots (d.deq_head + 1) (size_of s - 1)),
  );
  written = v.written;
  read = λ e' p. cc;
}
  where
    open s use {deque as d}

    shrunk : d.deq_tail - (d.deq_head + 1) ≡ size_of s - 1
    shrunk = omega (arith, v.ordered)

Step-IsFifo : {s t : System} → Step 1 s t → IsFifo s → IsFifo t
Step-IsFifo (call i e lt q) v =
    moved-IsFifo i (checking e) lt v (omega (arith, v.room)) (λ e' p. cc)
Step-IsFifo (check_full i e lt q h) v = record {
  ordered = v.ordered;
  room = v.room;
  order = v.order;
  written = v.written;
  read = v.read;
}
Step-IsFifo (check_room i e lt q h) v =
    moved-IsFifo i (trying e) lt v (omega (arith, v.room)) (λ e' p. cc)
Step-IsFifo (cas_lose i e lt q h) v =
    moved-IsFifo i (checking e) lt v (omega (arith, v.room)) (λ e' p. cc)
Step-IsFifo {s} (cas_win i e lt q h) v = record {
  ordered = w.ordered;
  room = w.room;
  order = w.order;
  written = w.written;
  read = w.read;
}
  where
    w : IsFifo (at s i (storing e))
    w = moved-IsFifo i (storing e) lt v (ground (arith, v.room)) (λ e' p. cc)
Step-IsFifo (store i e lt q) v = store-IsFifo i e lt q v
Step-IsFifo (advance i e lt q) v = advance-IsFifo i e lt q v
Step-IsFifo {s} (unlock i lt q) v = record {
  ordered = w.ordered;
  room = w.room;
  order = w.order;
  written = w.written;
  read = w.read;
}
  where
    w : IsFifo (at s i outside)
    w = moved-IsFifo i outside lt v (omega (arith, v.room)) (λ e' p. cc)
Step-IsFifo {s} (copy q h) v = record {
  ordered = v.ordered;
  room = v.room;
  order = v.order;
  written = v.written;
  read = λ e p. ground arith;
}
Step-IsFifo (remove e q) v = remove-IsFifo e q v

init-IsFifo : (slots : ℕ → CommAsyncTask) → IsFifo (init slots)
unfolding init semi_conc_deque_init
init-IsFifo slots = record {
  ordered = omega arith;
  room = omega arith;
  order = refl;
  written = λ e p. cc;
  read = λ e p. cc;
}

Steps-IsFifo : {s t : System} → IsFifo s → Steps 1 s t → IsFifo t
Steps-IsFifo v here = v
Steps-IsFifo v (next r _ st) = Step-IsFifo st (Steps-IsFifo v r)

-- With one producer and the communication worker, in every interleaving: the tasks stored are, in
-- order, those taken and then those that wait in the deque, which are never more than
-- SEMI_CONCURRENT_DEQUE_SIZE. So no task is lost, repeated, overtaken or overwritten.
pub single_producer_fifo :
    {s : System} (slots : ℕ → CommAsyncTask)
    → Steps 1 (init slots) s
    → (s.stored
        ≡ s.taken
          ++ window semi_concurrent_deque_size s.deque.slots s.deque.deq_head
              (s.deque.deq_tail - s.deque.deq_head))
      × (s.deque.deq_tail - s.deque.deq_head ≤ semi_concurrent_deque_size)
single_producer_fifo slots r =
    let v = Steps-IsFifo (init-IsFifo slots) r in (v.order, omega (arith, v.room))
