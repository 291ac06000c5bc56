-- ===== src/Termination.antt =====
-- src/hcupc_spmd.cpp, hcpp_finish_barrier and the cancellable barrier, at all places at once: how
-- the places detect that no task is left anywhere. The communication worker of each place takes
-- one step at a time; computation workers run tasks between any two of them.
pub mod Barrier
pub mod Flight
pub mod Safety
pub mod Ending
pub mod Baseline
mod Tests
use habanero_upc.Prelude.{ℕ, ◌+◌, ◌-◌, ◌<◌, ◌≡◌, ◌≢◌, Bool, true, false, update}

-- Where the communication worker of a place stands.
pub data Pc : Type 0 where
  -- the outer loop, up to the test of the local and remote counters
  working : Pc
  -- in pop_execute_comm_task, between the increment of the flight counter and the send
  sending : (dest : ℕ) → Pc
  -- in total_asyncs_inFlight, about to read the counter of place `next`
  scanning : (next : ℕ) → Pc
  -- in cbarrier_inc, after CB_UNLOCK
  counted : Pc
  -- the inner loop
  polling : Pc
  -- the loop has ended with TERM
  terminated : Pc

-- What one place has sent to another and not yet got back from its flight counter: tasks on their
-- way, and tasks that arrived (received_tasks_origin at the other place).
pub record Channel : Type 0 where
  pub moving : ℕ
  pub arrived : ℕ

-- `channel q p` is for the tasks that place `q` sent to place `p`. `pending` is
-- totalPendingLocalAsyncs, which counts the tasks of the computation workers and those that wait
-- for the communication worker.
pub record System : Type 0 where
  pub cb_count : ℕ
  pub pc : ℕ → Pc
  pub pending : ℕ → ℕ
  pub tasks_received : ℕ → ℕ
  pub asyncs_in_flight : ℕ → ℕ
  pub channel : ℕ → ℕ → Channel

abbrev pub set_channel : (ℕ → ℕ → Channel) → ℕ → ℕ → Channel → ℕ → ℕ → Channel
set_channel c q p x = update c q (update (c q) p x)

-- Where upcxx::advance is called.
abbrev advances : Pc → Bool
advances working = true
advances polling = true
advances _ = false

abbrev pub goes : System → ℕ → Pc → System
goes s i p = record s { pc = update s.pc i p }

-- One step at one of the `n` places, 2 or more.
pub data Step (n : ℕ) (s : System) : System → Type 0 where
  -- A task runs: it ends, and may have made others.
  work :
      (i k : ℕ) → i < n → 0 < s.pending i → Step n s (record s { pending = update s.pending i k })
  -- increment_task_in_flight_self, before the task is sent
  count :
      (i j : ℕ)
      → i < n
      → j < n
      → s.pc i ≡ working
      → 0 < s.pending i
      → Step n s (record s {
        pc = update s.pc i (sending j);
        asyncs_in_flight = update s.asyncs_in_flight i (s.asyncs_in_flight i + 1);
      })
  send :
      (i j : ℕ)
      → i < n
      → j < n
      → s.pc i ≡ sending j
      → Step n s (record s {
        pc = update s.pc i working;
        channel =
            set_channel s.channel i j
              (record (s.channel i j) { moving = (s.channel i j).moving + 1 });
      })
  -- upcxx::advance, in the outer or the inner loop, runs async_at_received
  receive :
      (i j : ℕ)
      → i < n
      → j < n
      → advances (s.pc i) ≡ true
      → 0 < (s.channel j i).moving
      → Step n s (record s {
        pending = update s.pending i (s.pending i + 1);
        tasks_received = update s.tasks_received i (s.tasks_received i + 1);
        channel =
            set_channel s.channel j i (record {
              moving = (s.channel j i).moving - 1;
              arrived = (s.channel j i).arrived + 1;
            });
      })
  -- one round of decrement_tasks_in_flight_count
  settle :
      (i j : ℕ)
      → i < n
      → j < n
      → s.pc i ≡ working
      → Step n s (record s {
        tasks_received = update s.tasks_received i (s.tasks_received i - (s.channel j i).arrived);
        asyncs_in_flight =
            update s.asyncs_in_flight j (s.asyncs_in_flight j - (s.channel j i).arrived);
        channel = set_channel s.channel j i (record (s.channel j i) { arrived = 0 });
      })
  -- totalPendingLocalAsyncs() == 0
  no_local : (i : ℕ) → i < n → s.pc i ≡ working → s.pending i ≡ 0 → Step n s (goes s i (scanning 0))
  scan_zero :
      (i k : ℕ)
      → i < n
      → s.pc i ≡ scanning k
      → k < n
      → s.asyncs_in_flight k ≡ 0
      → Step n s (goes s i (scanning (k + 1)))
  scan_some :
      (i k : ℕ)
      → i < n
      → s.pc i ≡ scanning k
      → k < n
      → s.asyncs_in_flight k ≢ 0
      → Step n s (goes s i working)
  -- cbarrier_inc: the increment, then the test of the count that is read outside the lock
  cbarrier_inc :
      (i : ℕ)
      → i < n
      → s.pc i ≡ scanning n
      → Step n s (record s { cb_count = s.cb_count + 1; pc = update s.pc i counted })
  inc_term : (i : ℕ) → i < n → s.pc i ≡ counted → s.cb_count ≡ n → Step n s (goes s i terminated)
  inc_no_term : (i : ℕ) → i < n → s.pc i ≡ counted → s.cb_count ≢ n → Step n s (goes s i polling)
  -- cbarrier_dec with NO_TERM
  cbarrier_dec :
      (i : ℕ)
      → i < n
      → s.pc i ≡ polling
      → s.cb_count < n
      → Step n s (record s { cb_count = s.cb_count - 1; pc = update s.pc i working })
  -- cbarrier_test with TERM
  cbarrier_test :
      (i : ℕ) → i < n → s.pc i ≡ polling → s.cb_count ≡ n → Step n s (goes s i terminated)

-- After cb_init and the first barrier: each place has any number of local tasks.
unfoldable pub init : (ℕ → ℕ) → System
init pending = record {
  cb_count = 0;
  pc = λ _. working;
  pending = pending;
  tasks_received = λ _. 0;
  asyncs_in_flight = λ _. 0;
  channel = λ _ _. record { moving = 0; arrived = 0 };
}

pub data Steps (n : ℕ) (s : System) : System → Type 0 where
  here : Steps n s s
  next : {t u : System} → Steps n s t → Step n t u → Steps n s u
