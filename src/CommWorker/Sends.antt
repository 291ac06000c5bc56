-- ===== src/CommWorker/Sends.antt =====
-- src/hcupc_spmd.cpp: tasks sent to the communication worker, and then run by it.
use habanero_upc.Prelude.{
  ℕ, ◌+◌, ◌≤◌, ◌<◌, ◌≡◌, refl, sym, ap, ◌∙◌, some, List, [], ◌∷◌, ◌++◌, arith, length,
  length-append, ◌>>=◌,
}
use mathlib.Core.List.{append_assoc, append-nil}
use habanero_upc.Prelude.Int.{pos, ◌+ℤ◌}
use habanero_upc.CommDeque.{
  Deque, CommAsyncTask, Pushed, pushed, busy, full, comm_task_push, semi_concurrent_deque_size,
}
use habanero_upc.CommDeque.Fifo.{
  IsValid, contents, outcome, accepted, enqueue, comm_task_push_refines, push-IsValid,
}
use habanero_upc.CommWorker.{CommWorker, send_task_to_comm_worker, send_all, pop_execute_comm_task}
use habanero_upc.CommWorker.Runs.{involving, execute_all, pop_execute_comm_task-Ran}

accepted-pushed :
    (r : Pushed) (q : List CommAsyncTask)
    → outcome r ≡ accepted q
    → (d : Deque) × (r ≡ pushed d) × (contents d ≡ q)
accepted-pushed (pushed d) q e = (d, refl, cc)
accepted-pushed busy q e = cc
accepted-pushed full q e = cc

room :
    (q : List CommAsyncTask) (e : CommAsyncTask)
    → length q < semi_concurrent_deque_size
    → enqueue q e ≡ accepted (q ++ e ∷ [])
room q e h = ground arith

module _ {E : Type 0} where
  -- Only the deque and the finish counter change.
  record Sent (ts : List CommAsyncTask) (n : ℕ) (s t : CommWorker E) : Type 0 where
    queued : contents t.deque ≡ contents s.deque ++ ts
    valid : IsValid t.deque
    finish : t.current_finish_counter ≡ some (n + length ts)
    others : t ≡ record s { deque = t.deque; current_finish_counter = t.current_finish_counter }

  send-Sent :
      (task : CommAsyncTask) (n : ℕ) (s : CommWorker E)
      → IsValid s.deque
      → s.current_finish_counter ≡ some n
      → length (contents s.deque) < semi_concurrent_deque_size
      → (t : CommWorker E) × (send_task_to_comm_worker task s ≡ some t) × Sent (task ∷ []) n s t
  unfolding send_task_to_comm_worker
  send-Sent task n s v c h =
      let (d, is, grown) =
        accepted-pushed (comm_task_push s.deque task) (contents s.deque ++ task ∷ [])
          (comm_task_push_refines s.deque task v ∙ room (contents s.deque) task h) in
      (
        record s { deque = d; current_finish_counter = some (n + 1) },
        rw (c, is) refl,
        record {
          queued = grown;
          valid = push-IsValid s.deque d task v is;
          finish = refl;
          others = refl;
        },
      )

  send_all-Sent :
      (ts : List CommAsyncTask) (n : ℕ) (s : CommWorker E)
      → IsValid s.deque
      → s.current_finish_counter ≡ some n
      → length (contents s.deque) + length ts ≤ semi_concurrent_deque_size
      → (t : CommWorker E) × (send_all ts s ≡ some t) × Sent ts n s t
  unfolding send_all
  send_all-Sent [] n s v c h = (
    s,
    refl,
    record {
      queued = sym (append-nil (contents s.deque));
      valid = v;
      finish = c ∙ ap some (omega arith);
      others = refl;
    },
  )
  send_all-Sent (task ∷ ts) n s v c h =
      let (u, e, one) = send-Sent task n s v c (omega arith) in
      let fits : length (contents u.deque) + length ts ≤ semi_concurrent_deque_size =
        omega (arith, ap length one.queued, length-append (contents s.deque) (task ∷ [])) in
      let (t, e2, more) = send_all-Sent ts (n + 1) u one.valid one.finish fits in
      (
        t,
        rw e e2,
        record {
          queued = more.queued ∙ rw one.queued (append_assoc (contents s.deque) (task ∷ []) ts);
          valid = more.valid;
          finish = more.finish ∙ ap some (omega arith);
          others =
              more.others
              ∙ ap
                  (λ (x : CommWorker E). record x {
                    deque = t.deque;
                    current_finish_counter = t.current_finish_counter;
                  })
                  one.others;
        },
      )

  -- Tasks that are sent one after the other to a worker with an empty deque, at most as many as the
  -- deque holds, are run by the next pop_execute_comm_task, in the order in which they were sent, and
  -- none is lost or run twice; the finish counter is then what it was before the first was sent.
  pub sent_tasks_run :
      (execute : ℕ → E → E) (me n fuel : ℕ) (ts : List CommAsyncTask) (s : CommWorker E)
      → IsValid s.deque
      → contents s.deque ≡ []
      → s.current_finish_counter ≡ some n
      → length ts ≤ semi_concurrent_deque_size
      → length ts < fuel
      → (t : CommWorker E) × ((send_all ts s >>= pop_execute_comm_task execute me fuel) ≡ some t)
        × (t.environment ≡ execute_all execute me ts s.environment)
        × (t.current_finish_counter ≡ some n)
        × (contents t.deque ≡ [])
        × (t.flights.asyncs_in_flight me ≡ s.flights.asyncs_in_flight me +ℤ pos (involving ts))
  sent_tasks_run execute me n fuel ts s v nothing c few enough =
      let (u, sent, q) = send_all-Sent ts n s v c (omega (arith, ap length nothing)) in
      let is : contents u.deque ≡ ts = q.queued ∙ ap (λ x. x ++ ts) nothing in
      let (t, e, ran) =
        pop_execute_comm_task-Ran execute me fuel (n + length ts) u q.valid q.finish
          (omega (arith, ap length is)) (omega (arith, ap length is)) in
      (
        t,
        rw sent e,
        ran.effect ∙ rw (is, q.others) refl,
        ran.finish ∙ ap some (omega (arith, ap length is)),
        ran.empty,
        ran.in_flight ∙ rw (is, q.others) refl,
      )
