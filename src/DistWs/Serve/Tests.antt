-- ===== src/DistWs/Serve/Tests.antt =====
-- Place 2 of four places serves the places 3 and 1, at most two tasks at once, from a pool of five.
use habanero_upc.Prelude.{
  ℕ, ◌+◌, ◌≤◌, ◌≡◌, refl, sym, Bool, true, false, Option, none, some, List, [], ◌∷◌, arith, ltb,
  ◌==◌, if◌then◌else◌, length,
}
use mathlib.Core.List.{append-nil}
use habanero_upc.Prelude.Int.{pos, ◌+ℤ◌}
use habanero_upc.DistWs.ThiefQueue.{Thieves, popped_entry, pop_thief}
use habanero_upc.DistWs.ThiefQueue.Fifo.{IsValid, waiting}
use habanero_upc.DistWs.Steal.{requested}
use habanero_upc.DistWs.Serve.{
  Network, Victim, steal_from_my_computation_workers, serve_successonly, serve_glb,
}
use habanero_upc.DistWs.Serve.Batches.{Takes, Parts, steal_from_my_computation_workers_lem}
use habanero_upc.DistWs.Serve.Served.{Batches, Served}
use habanero_upc.DistWs.Serve.Answered.{Answered}
use habanero_upc.DistWs.Serve.Rounds.{Appends, Ended}
use habanero_upc.DistWs.Serve.Successonly.{serve_successonly-Served}

abbrev steal_first : List ℕ → Option (ℕ × List ℕ)
steal_first [] = none
steal_first (t ∷ ts) = some (t, ts)

abbrev pool : List ℕ → List ℕ
pool ts = ts

abbrev busy : List ℕ → Bool
busy _ = false

abbrev quiet : Network
quiet = record { queue = λ u. u; request = λ log r. r }

-- Place 1 asks after the first batch.
abbrev asking : Network
asking = record { queue = λ u. u; request = λ log r. if length log == 1 then requested 1 else r }

steal_first-Takes : Takes steal_first pool
steal_first-Takes [] w1 t e = cc
steal_first-Takes (x ∷ xs) w1 t e = ([], xs, cc, cc)

quiet-Appends : Appends 4 quiet
quiet-Appends u v = (v, ([], sym (append-nil (waiting 4 u))))

abbrev two_thieves : Thieves
two_thieves = record {
  queued_thieves = λ i. if i == 3 then some 3 else some 1;
  head_next = 7;
  tail_next = 9;
  thieves_waiting = true;
  contacted_victims = λ _. popped_entry;
  out_of_work = true;
  total_received_steal_requests_when_idle = 0;
  total_cyclic_steals = 0;
}

two_thieves-IsValid : IsValid 4 two_thieves
two_thieves-IsValid = record {
  ordered = omega arith;
  fits = omega arith;
  flag = refl;
  ranked = (omega arith, (omega arith, tt));
}

abbrev five_tasks : Victim (List ℕ)
five_tasks = record {
  workers = 11 ∷ 12 ∷ 13 ∷ 14 ∷ 15 ∷ [];
  thieves = two_thieves;
  flights = record {
    received_tasks_origin = λ _. 0;
    head_rto = 0;
    tasks_received = 0;
    out_of_work = true;
    asyncs_in_flight = λ _. pos 0;
  };
  req_thread = requested 0;
  work_avail = 0;
  outgoing_tasks = 0;
  current_glb_max_rand_attempts = 0;
  launched = [];
}

abbrev sent_by : Option (Bool × Victim (List ℕ)) → Batches
sent_by none = []
sent_by (some (_, t)) = t.launched

-- The queue's thieves get two tasks each, and the request of the baseline stays.
successonly_run :
    sent_by (serve_successonly steal_first busy 4 2 2 quiet length length 6 five_tasks)
    ≡ (3, 11 ∷ 12 ∷ [], false) ∷ (1, 13 ∷ 14 ∷ [], false) ∷ []
unfolding serve_successonly pop_thief
successonly_run = refl

-- The second request is answered in the same call.
asking_run :
    sent_by (serve_glb steal_first busy 4 2 2 asking length length 6 five_tasks)
    ≡ (0, 11 ∷ 12 ∷ [], true) ∷ (1, 13 ∷ 14 ∷ [], true) ∷ (3, 15 ∷ [], false) ∷ []
unfolding serve_glb pop_thief
asking_run = refl

-- The requestor comes first.
glb_run :
    sent_by (serve_glb steal_first busy 4 2 2 quiet length length 6 five_tasks)
    ≡ (0, 11 ∷ 12 ∷ [], true) ∷ (3, 13 ∷ 14 ∷ [], false) ∷ (1, 15 ∷ [], false) ∷ []
unfolding serve_glb pop_thief
glb_run = refl

steal_from_my_computation_workers_lem_example :
    (ts : List ℕ) × (t : Victim (List ℕ)) × (steal_from_my_computation_workers steal_first busy 4 2
        2 five_tasks
      ≡ some (ts, t))
    × (length ts ≤ 2)
    × Parts (11 ∷ 12 ∷ 13 ∷ 14 ∷ 15 ∷ []) ts t.workers
    × (t.outgoing_tasks ≡ 0 + length ts)
    × (t.flights.asyncs_in_flight 2 ≡ pos 0 +ℤ pos (if ltb 0 (length ts) then 1 else 0))
steal_from_my_computation_workers_lem_example =
    steal_from_my_computation_workers_lem steal_first busy pool 4 2 2 steal_first-Takes
      (omega arith) five_tasks

serve_successonly-Served_example :
    (success : Bool) × (bs : Batches) × (t : Victim (List ℕ)) × (serve_successonly steal_first busy
        4 2 2 quiet length length 6 five_tasks
      ≡ some (success, t))
    × Served 4 2 2 pool bs five_tasks t
    × Ended steal_first busy 4 2 2 quiet pool five_tasks t success
    × (t.work_avail ≡ (if ltb 0 (length t.workers) then length t.workers else length t.workers))
serve_successonly-Served_example =
    serve_successonly-Served steal_first busy 4 2 2 quiet pool length length steal_first-Takes
      quiet-Appends (omega arith) 6 five_tasks (omega arith) two_thieves-IsValid
