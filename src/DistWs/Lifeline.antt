-- ===== src/DistWs/Lifeline.antt =====
-- src/hcupc_spmd_distWS_common.cpp, the success-only work stealing at all places at once: a thief
-- leaves its rank in the queue of a victim and goes on; the victim answers when it has tasks.
pub mod Pairs
pub mod Crossing
mod Tests
use habanero_upc.Prelude.{
  ℕ, ◌+◌, ◌-◌, ◌<◌, ◌≡◌, ◌≢◌, Bool, true, false, not, ◌&&◌, ◌||◌, update, ltb, leb, ◌==◌,
  if◌then◌else◌,
}
use habanero_upc.Prelude.Counting.{total}

-- What thief and victim have between them: the mark in contacted_victims at the thief, the steal
-- requests on their way to the victim, how often the thief stands in queued_thieves at the victim,
-- and the asyncs with tasks on their way back.
pub record Link : Type 0 where
  pub contacted : Bool
  pub requests : ℕ
  pub queued : ℕ
  pub shipments : ℕ

-- `link i v` is for thief `i` and victim `v`; `failed` is a failed assertion.
pub record System : Type 0 where
  pub link : ℕ → ℕ → Link
  pub failed : Bool

abbrev set_link : ℕ → ℕ → Link → System → System
set_link i v l s = record s { link = λ a b. if (i == a) && (v == b) then l else s.link a b }

-- The number of thieves in the queue of `v`.
abbrev pub queue_size : ℕ → ℕ → System → ℕ
queue_size n v s = total (λ l. l.queued) n (λ i. s.link i v)

-- mark_victimContacted(v) at place `i`, and the request that follows. With cyclic steals cancelled,
-- `v` is taken out of the queue of `i`.
unfoldable pub attempt_steal_or_set_lifeline : Bool → ℕ → ℕ → System → System
attempt_steal_or_set_lifeline cyclic_steals_not_allowed i v s =
    let s1 =
      if cyclic_steals_not_allowed
      then set_link v i (record (s.link v i) { queued = 0 }) s
      else s in
    set_link i v (record (s.link i v) { contacted = true; requests = (s.link i v).requests + 1 }) s1

-- queue_thief(i) at place `v`.
unfoldable pub queue_thief_of : ℕ → Bool → ℕ → ℕ → System → System
queue_thief_of n cyclic_steals_not_allowed i v s =
    let s1 =
      if cyclic_steals_not_allowed && (s.link v i).contacted
      then set_link v i (record (s.link v i) { contacted = false }) s
      else s in
    set_link i v
      (record (s.link i v) {
        requests = (s.link i v).requests - 1;
        queued = (s.link i v).queued + 1;
      })
      (record s1 { failed = s.failed || (queue_size n v s == n) })

-- serve_pending_distSteal_request_asynchronous at `v`, which pops thief `i` and ships tasks to it.
unfoldable pub serve_pending_dist_steal_request_asynchronous : ℕ → ℕ → System → System
serve_pending_dist_steal_request_asynchronous i v s =
    set_link i v
      (record (s.link i v) {
        queued = (s.link i v).queued - 1;
        shipments = (s.link i v).shipments + 1;
      })
      s

-- The async with the tasks at thief `i`, which runs unmark_victimContacted.
unfoldable pub receive_tasks : ℕ → ℕ → System → System
receive_tasks i v s =
    set_link i v (record (s.link i v) { contacted = false; shipments = (s.link i v).shipments - 1 })
      (record s { failed = s.failed || not (s.link i v).contacted })

-- A step at one of the `n` places. A place may find work at any victim, and any thief in a queue may
-- be the next to be served.
pub data Step (n : ℕ) (cyclic_steals_not_allowed : Bool) (s : System) : System → Type 0 where
  attempt :
      (i v : ℕ)
      → i < n
      → v < n
      → i ≢ v
      → (s.link i v).contacted ≡ false
      → Step n cyclic_steals_not_allowed s
          (attempt_steal_or_set_lifeline cyclic_steals_not_allowed i v s)
  -- upcxx::advance at the victim
  queue :
      (i v : ℕ)
      → i < n
      → v < n
      → 0 < (s.link i v).requests
      → Step n cyclic_steals_not_allowed s (queue_thief_of n cyclic_steals_not_allowed i v s)
  serve :
      (i v : ℕ)
      → i < n
      → v < n
      → 0 < (s.link i v).queued
      → Step n cyclic_steals_not_allowed s (serve_pending_dist_steal_request_asynchronous i v s)
  -- upcxx::advance at the thief
  receive :
      (i v : ℕ)
      → i < n
      → v < n
      → 0 < (s.link i v).shipments
      → Step n cyclic_steals_not_allowed s (receive_tasks i v s)

unfoldable pub init : System
init = record {
  link = λ _ _. record { contacted = false; requests = 0; queued = 0; shipments = 0 };
  failed = false;
}

pub data Steps (n : ℕ) (cyclic_steals_not_allowed : Bool) (s : System) : System → Type 0 where
  here : Steps n cyclic_steals_not_allowed s s
  next :
      {t u : System}
      → Steps n cyclic_steals_not_allowed s t
      → Step n cyclic_steals_not_allowed t u
      → Steps n cyclic_steals_not_allowed s u
