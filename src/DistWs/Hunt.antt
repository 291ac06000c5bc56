-- ===== src/DistWs/Hunt.antt =====
-- src/hcupc_spmd_distWS_common.cpp: how a place that has run out of tasks looks for tasks at the
-- other places, in the four modes.
pub mod Lifelines
pub mod Synchronous
pub mod GlbSearch
pub mod Waits
pub mod Asks
pub mod Contacted
pub mod Hypercube
pub mod Turns
pub mod Tries
pub mod Attempt
pub mod Attempts
pub mod GlbOrder
pub mod Boundary
mod Tests
use habanero_upc.Prelude.{
  ℕ, zero, suc, ◌+◌, ◌-◌, ◌%◌, ◌^◌, Bool, true, false, not, ◌&&◌, ◌||◌, Option, none, some, List,
  [], ◌∷◌, ◌++◌, ltb, leb, ◌==◌, ◌>>=◌, if◌then◌else◌, update,
}
use habanero_upc.Victims.Selection.{Selection}
use habanero_upc.DistWs.ThiefQueue.{Thieves, victim_already_contacted, mark_victim_contacted}
use habanero_upc.DistWs.InFlight.{Flights, received_tasks_from_victim}
use habanero_upc.DistWs.Steal.{Request, req_available, req_unavailable, requested}
use habanero_upc.Stats.{
  Stats, record_failed_steal_timeline, contacted_victims_statistics,
  total_asyncany_rdma_probes_stats,
}

-- The mode that the environment variables choose in inc/hcupc_spmd-internal.h.
pub data Mode : Type 0 where
  successonly successonly_glb glb baseline : Mode

-- baseline_distWS || glb_distWS
abbrev pub takes_requests : Mode → Bool
takes_requests baseline = true
takes_requests glb = true
takes_requests successonly = false
takes_requests successonly_glb = false

-- What workAvail holds: NOT_WORKING or a number of tasks.
pub data Load : Type 0 where
  not_working : Load
  load : (tasks : ℕ) → Load

abbrev pub exceeds : ℕ → Load → Bool
exceeds task_transfer_threshold not_working = false
exceeds task_transfer_threshold (load n) = ltb task_transfer_threshold n

abbrev pub is_available : Request → Bool
is_available req_available = true
is_available req_unavailable = false
is_available (requested thief) = false

-- The arrays that all places share, and `world`, the rest of the machine.
pub record Shared (W : Type 0) : Type 0 where
  pub work_avail : ℕ → Load
  pub req_thread : ℕ → Request
  pub wait_for_task_from_victim : ℕ → Bool
  pub world : W

-- What an async that arrives here can change. The variable out_of_work stands in `thieves` and in
-- `flights`.
pub record Place (W : Type 0) : Type 0 where
  pub thieves : Thieves
  pub flights : Flights
  pub waiting_for_return_async : Bool
  pub shared : Shared W

-- The static variables of a thief. `asked` are the victims to which a steal request has been sent,
-- the last at the end.
pub record Thief (W S : Type 0) : Type 0 where
  pub place : Place W
  pub last_steal : S
  pub current_glb_max_rand_attempts : ℕ
  pub stats : Stats
  pub asked : List ℕ

-- UPC++ and the other places: `advance` is upcxx::advance, after the requests that have been sent;
-- `meanwhile` is what the other places have done to the shared arrays before this one reads or locks
-- them; `before` is the clock of record_failedSteal_timeline.
pub record Machine (W : Type 0) : Type 0 where
  pub advance : List ℕ → Place W → Place W
  pub meanwhile : Shared W → Shared W
  pub before : W → Option (ℕ → Bool)

module _ {W : Type 0} where
  abbrev pub set_out_of_work : Bool → Place W → Place W
  set_out_of_work b p = record p {
    thieves = record (p.thieves) { out_of_work = b };
    flights = record (p.flights) { out_of_work = b };
  }

  -- The place as it is when it looks at the shared arrays again.
  abbrev pub met : Machine W → Place W → Place W
  met m p = record p { shared = m.meanwhile p.shared }

  -- The loop test of attempt_steal_or_set_lifeline.
  abbrev pub is_unreturned : Place W → Bool
  is_unreturned p = p.waiting_for_return_async

  -- The loop test of steal_from_victim_baseline, on a flag that the victim also writes.
  abbrev pub is_waiting : ℕ → Place W → Bool
  is_waiting me p = p.shared.wait_for_task_from_victim me

  -- The thief of a pending request gets out of its loop in steal_from_victim_baseline.
  unfoldable pub end_wait_of : Request → Shared W → Shared W
  end_wait_of (requested j) h = record h {
    wait_for_task_from_victim = update h.wait_for_task_from_victim j false;
  }
  end_wait_of req_available h = h
  end_wait_of req_unavailable h = h

  module _ (m : Machine W) (me : ℕ) where
    -- The part of mark_myPlace_asIdle from LOCK_REQ_SELF on.
    unfoldable pub withdraw : Shared W → Shared W
    unfolding end_wait_of
    withdraw h =
        let h1 = m.meanwhile h in
        end_wait_of (h1.req_thread me)
          (m.meanwhile (record h1 { req_thread = update h1.req_thread me req_unavailable }))

module _ {W S : Type 0} where
  abbrev pub count_probe : Thief W S → Thief W S
  count_probe s = record s {
    stats = record (s.stats) { totals = total_asyncany_rdma_probes_stats s.stats.totals };
  }

module _ {W S : Type 0} (m : Machine W) where
  -- A loop around upcxx::advance that waits until `test` is false. `none` is no fuel.
  unfoldable pub advance_while : (Place W → Bool) → ℕ → Thief W S → Option (Thief W S)
  advance_while test zero s = none
  advance_while test (suc fuel) s =
      let p = met m s.place in
      let rest = advance_while test fuel (record s { place = m.advance s.asked p }) in
      if test p then rest else some (record s { place = p })

module _ {W S : Type 0} (m : Machine W) (me : ℕ) where
  unfoldable pub mark_my_place_as_idle : Mode → Thief W S → Thief W S
  unfolding withdraw
  mark_my_place_as_idle mode s =
      if s.place.flights.out_of_work
      then s
      else (let p = set_out_of_work true s.place in
          let h : Shared W = record (p.shared) {
            work_avail = update p.shared.work_avail me not_working;
          } in
          record s {
            place = record p { shared = if takes_requests mode then withdraw m me h else h };
          })

module _ {W S : Type 0} (m : Machine W) (sel : Selection S) (me : ℕ) where
  -- The first two calls of the searches: mark_myPlace_asIdle and resetVictimArray.
  unfoldable pub start_search : Mode → Thief W S → Thief W S
  unfolding mark_my_place_as_idle
  start_search mode s =
      let t = mark_my_place_as_idle m me mode s in
      record t { last_steal = sel.reset_victim_array t.last_steal }
