-- ===== src/DistWs/Start.antt =====
-- src/hcupc_spmd_distWS_common.cpp: initialize_distws_setOfThieves, with the environment variables that
-- it reads.
pub mod Established
mod Tests
use habanero_upc.Prelude.{
  ℕ, zero, suc, ◌+◌, ◌-◌, ◌*◌, Bool, true, false, Option, none, some, ltb, leb, ◌==◌, ◌>>=◌,
  if◌then◌else◌, update,
}
use habanero_upc.Prelude.Int.{ℤ, pos, negsuc}
use habanero_upc.DistWs.ThiefQueue.{Thieves, Contact, initialize}
use habanero_upc.DistWs.InFlight.{Flights}
use habanero_upc.DistWs.Steal.{Request, req_unavailable}
use habanero_upc.DistWs.Serve.{max_async_any_tasks_shipment}
use habanero_upc.DistWs.Hunt.{Mode, successonly, successonly_glb, glb, baseline, Load, not_working}

-- What std::stod can return, as far as it matters here: `between n` lies strictly between n and n + 1.
pub data Amount : Type 0 where
  negative : Amount
  whole : (n : ℕ) → Amount
  between : (n : ℕ) → Amount

-- The environment and the machine: HCPP_STEAL_N, HCPP_DIST_WS_GLB_RAND as atoi reads it, the mode of
-- inc/hcupc_spmd-internal.h, and numWorkers().
pub record Options : Type 0 where
  pub hcpp_steal_n : Option Amount
  pub hcpp_dist_ws_glb_rand : Option ℤ
  pub mode : Mode
  pub num_workers : ℕ

pub record DistWs : Type 0 where
  pub total_tasks_stolen_in_one_shot : Amount
  pub task_transfer_threshold : ℕ
  pub glb_max_rand_attempts : ℤ
  pub thieves : Thieves
  pub flights : Flights
  pub work_avail : Load
  pub req_thread : Request
  pub wait_for_task_from_victim : Bool

-- The turns of a loop `for (i = 0; i < totalTasksStolenInOneShot; i++)`.
unfoldable pub turns : Amount → ℕ
turns negative = 0
turns (whole n) = n
turns (between n) = n + 1

-- `none` is a failed assertion.
unfoldable pub read_steal_n : Option Amount → Option Amount
read_steal_n none = some (whole 1)
read_steal_n (some negative) = none
read_steal_n (some (whole zero)) = none
read_steal_n (some (whole (suc n))) = some (whole (suc n))
read_steal_n (some (between zero)) = some (between zero)
read_steal_n (some (between (suc n))) = none

-- glb_max_rand_attempts <= global_ranks() - 1: the comparison is without sign, where a negative
-- count is more than any number of places.
abbrev pub fits_places : ℕ → ℤ → Bool
fits_places ranks (pos n) = leb n (ranks - 1)
fits_places ranks (negsuc n) = false

-- glb_max_rand_attempts at place 0; it is 1 where the variable is not read.
unfoldable pub read_glb_rand : ℕ → Mode → Option ℤ → Option ℤ
read_glb_rand ranks glb (some r) = if fits_places ranks r then some r else none
read_glb_rand ranks glb none = some (pos 1)
read_glb_rand ranks successonly r = some (pos 1)
read_glb_rand ranks successonly_glb r = some (pos 1)
read_glb_rand ranks baseline r = some (pos 1)

-- The warning that sets a value below 1 to 1.
unfoldable pub at_least_one : Amount → Amount
at_least_one negative = whole 1
at_least_one (between zero) = whole 1
at_least_one (between (suc n)) = between (suc n)
at_least_one (whole zero) = whole 1
at_least_one (whole (suc n)) = whole (suc n)

-- totalTasksStolenInOneShot <= 5
unfoldable pub within_shipment : Amount → Bool
within_shipment negative = true
within_shipment (whole n) = leb n max_async_any_tasks_shipment
within_shipment (between n) = ltb n max_async_any_tasks_shipment

-- What is printed and checked at place 0 only, with the two variables that it changes.
unfoldable pub report : ℕ → ℕ → Options → Amount → Option (Amount × ℤ)
unfolding read_glb_rand at_least_one
report ranks me o amount =
    if me == 0
    then (do
      attempts ← read_glb_rand ranks o.mode o.hcpp_dist_ws_glb_rand
      some (at_least_one amount, attempts))
    else some (amount, pos 1)

-- The static variables before main: `contacted` and `queued` are what the new arrays hold at first.
abbrev static_thieves : (ℕ → Contact) → (ℕ → Option ℕ) → Thieves
static_thieves contacted queued = record {
  queued_thieves = queued;
  head_next = 0;
  tail_next = 0;
  thieves_waiting = false;
  contacted_victims = contacted;
  out_of_work = false;
  total_received_steal_requests_when_idle = 0;
  total_cyclic_steals = 0;
}

-- `origin` and `in_flight` are what the array received_tasks_origin and the shared array
-- asyncsInFlight hold before they are written.
module _ (contacted : ℕ → Contact) (queued : ℕ → Option ℕ) (origin : ℕ → ℕ) (in_flight : ℕ → ℤ)
    (ranks me : ℕ) (o : Options) where
  -- The arrays and variables that are written at every place.
  abbrev pub started : Amount → ℤ → DistWs
  started amount attempts = record {
    total_tasks_stolen_in_one_shot = amount;
    task_transfer_threshold = 2 * o.num_workers;
    glb_max_rand_attempts = attempts;
    thieves = initialize ranks (static_thieves contacted queued);
    flights = record {
      received_tasks_origin = λ i. if ltb i ranks then 0 else origin i;
      head_rto = 0;
      tasks_received = 0;
      out_of_work = false;
      asyncs_in_flight = update in_flight me (pos 0);
    };
    work_avail = not_working;
    req_thread = req_unavailable;
    wait_for_task_from_victim = false;
  }

  unfoldable pub initialize_distws_set_of_thieves : Option DistWs
  unfolding read_steal_n report within_shipment
  initialize_distws_set_of_thieves = do
    read ← read_steal_n o.hcpp_steal_n
    (amount, attempts) ← report ranks me o read
    (if within_shipment amount then some (started amount attempts) else none)
