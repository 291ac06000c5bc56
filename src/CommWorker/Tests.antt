-- ===== src/CommWorker/Tests.antt =====
-- The communication worker of place 2: the lambdas write their numbers down.
use habanero_upc.Prelude.{ℕ, ◌≡◌, refl, true, some, List, [], ◌∷◌, ◌++◌, arith, ◌>>=◌}
use habanero_upc.Prelude.Int.{pos, ◌+ℤ◌}
use habanero_upc.CommDeque.{CommAsyncTask}
use habanero_upc.CommDeque.Fifo.{contents}
use habanero_upc.CommWorker.{CommWorker, allocated, intra_place, send_all, pop_execute_comm_task}
use habanero_upc.CommWorker.Sends.{sent_tasks_run}

abbrev note_down : ℕ → List ℕ → List ℕ
note_down lambda log = log ++ lambda ∷ []

abbrev idle : CommWorker (List ℕ)
idle = record {
  deque = record { slots = λ i. intra_place 0; deq_head = 4; deq_tail = 4; lock = 0 };
  current_finish_counter = some 1;
  flights = record {
    received_tasks_origin = λ _. 0;
    head_rto = 0;
    tasks_received = 0;
    out_of_work = true;
    asyncs_in_flight = λ _. pos 0;
  };
  outgoing_tasks = 0;
  environment = [];
}

abbrev two_wait : CommWorker (List ℕ)
two_wait = record idle {
  deque = record { slots = λ i. allocated i; deq_head = 4; deq_tail = 6; lock = 0 };
  current_finish_counter = some 3;
}

abbrev three_tasks : List CommAsyncTask
three_tasks = allocated 7 ∷ intra_place 8 ∷ allocated 9 ∷ []

sent_tasks_run_example :
    (t : CommWorker (List ℕ)) × ((send_all three_tasks idle >>= pop_execute_comm_task note_down 2 4)
      ≡ some t)
    × (t.environment ≡ 7 ∷ 8 ∷ 9 ∷ [])
    × (t.current_finish_counter ≡ some 1)
    × (contents t.deque ≡ [])
    × (t.flights.asyncs_in_flight 2 ≡ pos 0 +ℤ pos 2)
sent_tasks_run_example =
    sent_tasks_run note_down 2 1 4 three_tasks idle
      (record { ordered = omega arith; fits = omega arith; unlocked = refl }) refl refl
      (omega arith) (omega arith)
