-- ===== src/CommDeque/Threads.antt =====
-- src/hcupc_spmd-semiConcDeque.cpp, with threads: `comm_task_push` by any number of producers and
-- `comm_task_pop` by the communication worker, one access to the shared variables at a time.
use habanero_upc.Prelude.{
  ℕ, ◌+◌, ◌-◌, ◌%◌, ◌<◌, ◌≡◌, ◌≢◌, Bool, true, false, List, [], ◌∷◌, ◌++◌, update,
}
use habanero_upc.CommDeque.{Deque, CommAsyncTask, semi_concurrent_deque_size, semi_conc_deque_init}

-- Where a producer stands in `comm_task_push(entry)`.
pub data Pc : Type 0 where
  outside : Pc
  checking : (entry : CommAsyncTask) → Pc  -- before the test of the size
  trying : (entry : CommAsyncTask) → Pc  -- before hc_cas
  storing : (entry : CommAsyncTask) → Pc  -- before memcpy, with the lock
  advancing : (entry : CommAsyncTask) → Pc  -- before ++deqTail, with the lock
  unlocking : Pc  -- before lock = 0

-- Where the communication worker stands in `comm_task_pop`.
pub data Consumer : Type 0 where
  ready : Consumer
  copied : (entry : CommAsyncTask) → Consumer  -- before ++deqHead

-- `stored` and `taken` record the order in which tasks went in (at ++deqTail) and out (at ++deqHead).
pub record System : Type 0 where
  pub deque : Deque
  pub pc : ℕ → Pc
  pub consumer : Consumer
  pub aborted : Bool
  pub stored : List CommAsyncTask
  pub taken : List CommAsyncTask

abbrev pub size_of : System → ℕ
size_of s = s.deque.deq_tail - s.deque.deq_head

abbrev pub at : System → ℕ → Pc → System
at s i p = record s { pc = update s.pc i p }

-- One step of one of the `n` producers, or of the consumer.
pub data Step (n : ℕ) (s : System) : System → Type 0 where
  call : (i : ℕ) (e : CommAsyncTask) → i < n → s.pc i ≡ outside → Step n s (at s i (checking e))
  check_full :
      (i : ℕ) (e : CommAsyncTask)
      → i < n
      → s.pc i ≡ checking e
      → size_of s ≡ semi_concurrent_deque_size
      → Step n s (record s { aborted = true })
  check_room :
      (i : ℕ) (e : CommAsyncTask)
      → i < n
      → s.pc i ≡ checking e
      → size_of s ≢ semi_concurrent_deque_size
      → Step n s (at s i (trying e))
  cas_lose :
      (i : ℕ) (e : CommAsyncTask)
      → i < n
      → s.pc i ≡ trying e
      → s.deque.lock ≢ 0
      → Step n s (at s i (checking e))
  cas_win :
      (i : ℕ) (e : CommAsyncTask)
      → i < n
      → s.pc i ≡ trying e
      → s.deque.lock ≡ 0
      → Step n s (record s { deque = record s.deque { lock = 1 }; pc = update s.pc i (storing e) })
  store :
      (i : ℕ) (e : CommAsyncTask)
      → i < n
      → s.pc i ≡ storing e
      → Step n s (record s {
        deque = record s.deque {
          slots = update s.deque.slots (s.deque.deq_tail % semi_concurrent_deque_size) e;
        };
        pc = update s.pc i (advancing e);
      })
  advance :
      (i : ℕ) (e : CommAsyncTask)
      → i < n
      → s.pc i ≡ advancing e
      → Step n s (record s {
        deque = record s.deque { deq_tail = s.deque.deq_tail + 1 };
        pc = update s.pc i unlocking;
        stored = s.stored ++ e ∷ [];
      })
  unlock :
      (i : ℕ)
      → i < n
      → s.pc i ≡ unlocking
      → Step n s (record s { deque = record s.deque { lock = 0 }; pc = update s.pc i outside })
  copy :
      s.consumer ≡ ready
      → 0 < size_of s
      → Step n s (record s {
        consumer = copied (s.deque.slots (s.deque.deq_head % semi_concurrent_deque_size));
      })
  remove :
      (e : CommAsyncTask)
      → s.consumer ≡ copied e
      → Step n s (record s {
        deque = record s.deque { deq_head = s.deque.deq_head + 1 };
        consumer = ready;
        taken = s.taken ++ e ∷ [];
      })

unfoldable pub init : (ℕ → CommAsyncTask) → System
unfolding semi_conc_deque_init
init slots = record {
  deque = semi_conc_deque_init (record { slots = slots; deq_head = 0; deq_tail = 0; lock = 0 });
  pc = λ _. outside;
  consumer = ready;
  aborted = false;
  stored = [];
  taken = [];
}

-- A failed assertion ends the process.
pub data Steps (n : ℕ) (s : System) : System → Type 0 where
  here : Steps n s s
  next : {t u : System} → Steps n s t → t.aborted ≡ false → Step n t u → Steps n s u
