-- ===== src/DistWs/Steal.antt =====
-- src/hcupc_spmd_distWS_common.cpp, the baseline work stealing at all places at once: thieves leave
-- their rank at a victim and wait, victims answer with tasks or with nothing. A section under the
-- lock reqLock is one step, and so is each access to a shared array outside it.
pub mod Requests
pub mod Live
mod Tests
use habanero_upc.Prelude.{ℕ, ◌+◌, ◌-◌, ◌<◌, ◌≡◌, ◌≢◌, Bool, true, false, update}

-- What req_thread holds: REQ_AVAILABLE, REQ_UNAVAILABLE, or the rank of a thief.
pub data Request : Type 0 where
  req_available req_unavailable : Request
  requested : (thief : ℕ) → Request

-- Where the communication worker of a place stands.
pub data Pc : Type 0 where
  -- outside search_tasks_globally_baseline
  running : Pc
  -- in mark_myPlace_asIdle, after UNLOCK_REQ_SELF, with a pending request
  invalidating : (pending_req : ℕ) → Pc
  -- in search_tasks_globally_synchronous
  searching : Pc
  -- in steal_from_victim_baseline
  awaiting : Pc
  -- in ship_asyncAny_to_remote_thief, after the tasks are sent
  shipped : (thief : ℕ) → Pc

-- `shipments j` is the number of asyncs with tasks that are on their way to place `j`.
pub record System : Type 0 where
  pub pc : ℕ → Pc
  pub out_of_work : ℕ → Bool
  pub req_thread : ℕ → Request
  pub wait_for_task_from_victim : ℕ → Bool
  pub shipments : ℕ → ℕ

-- After UNLOCK_REQ_SELF in mark_myPlace_asIdle.
abbrev invalidate_or_search : Request → Pc
invalidate_or_search (requested j) = invalidating j
invalidate_or_search _ = searching

-- renewed_as_victim with a declared load and REQ_UNAVAILABLE, then the start of
-- serve_pending_distSteal_request_synchronous.
abbrev pub renewed_as_victim : ℕ → System → System
renewed_as_victim i s = record s {
  out_of_work = update s.out_of_work i false;
  req_thread = update s.req_thread i req_available;
}

-- serve_pending_distSteal_request_synchronous with tasks for thief `j`, up to the call of
-- launch_upcxx_async.
abbrev serve_pending_dist_steal_request_synchronous : ℕ → ℕ → System → System
serve_pending_dist_steal_request_synchronous i j s = record s {
  pc = update s.pc i (shipped j);
  out_of_work = update s.out_of_work i false;
  shipments = update s.shipments j (s.shipments j + 1);
}

-- The end of ship_asyncAny_to_remote_thief.
abbrev ship_async_any_to_remote_thief : ℕ → System → System
ship_async_any_to_remote_thief i s = record s {
  pc = update s.pc i running;
  req_thread = update s.req_thread i req_available;
}

-- The lambda of ship_asyncAny_to_remote_thief at the thief.
abbrev pub lambda_for_thief : ℕ → System → System
lambda_for_thief j s = record s {
  wait_for_task_from_victim = update s.wait_for_task_from_victim j false;
  shipments = update s.shipments j (s.shipments j - 1);
}

-- mark_myPlace_asIdle, up to UNLOCK_REQ_SELF.
abbrev pub mark_my_place_as_idle : ℕ → System → System
mark_my_place_as_idle i s = record s {
  pc = update s.pc i (invalidate_or_search (s.req_thread i));
  out_of_work = update s.out_of_work i true;
  req_thread = update s.req_thread i req_unavailable;
}

-- attempt_synchronous_steal, the section under LOCK_REQ(v) with req_thread[v] == REQ_AVAILABLE.
abbrev pub attempt_synchronous_steal : ℕ → ℕ → System → System
attempt_synchronous_steal i v s = record s {
  pc = update s.pc i awaiting;
  wait_for_task_from_victim = update s.wait_for_task_from_victim i true;
  req_thread = update s.req_thread v (requested i);
}

-- The rest of attempt_synchronous_steal after steal_from_victim_baseline; it returns SUCCESS_STEAL.
abbrev end_steal : ℕ → System → System
end_steal i s = record s {
  pc = update s.pc i running;
  out_of_work = update s.out_of_work i false;
  req_thread = update s.req_thread i req_available;
}

pub data Step (n : ℕ) (s : System) : System → Type 0 where
  renew :
      (i : ℕ)
      → i < n
      → s.pc i ≡ running
      → s.req_thread i ≡ req_unavailable
      → Step n s (renewed_as_victim i s)
  ship :
      (i j : ℕ)
      → i < n
      → s.pc i ≡ running
      → s.req_thread i ≡ requested j
      → Step n s (serve_pending_dist_steal_request_synchronous i j s)
  reopen : (i j : ℕ) → i < n → s.pc i ≡ shipped j → Step n s (ship_async_any_to_remote_thief i s)
  -- upcxx::advance at the thief runs the async with the tasks
  deliver : (j : ℕ) → j < n → 0 < s.shipments j → Step n s (lambda_for_thief j s)
  mark_idle :
      (i : ℕ)
      → i < n
      → s.pc i ≡ running
      → s.out_of_work i ≡ false
      → Step n s (mark_my_place_as_idle i s)
  -- mark_myPlace_asIdle returns at once
  already_idle :
      (i : ℕ)
      → i < n
      → s.pc i ≡ running
      → s.out_of_work i ≡ true
      → Step n s (record s { pc = update s.pc i searching })
  -- waitForTaskFromVictim[pendingReq] = false
  invalidate :
      (i j : ℕ)
      → i < n
      → s.pc i ≡ invalidating j
      → Step n s (record s {
        pc = update s.pc i searching;
        wait_for_task_from_victim = update s.wait_for_task_from_victim j false;
      })
  request :
      (i v : ℕ)
      → i < n
      → v < n
      → i ≢ v
      → s.pc i ≡ searching
      → s.req_thread v ≡ req_available
      → Step n s (attempt_synchronous_steal i v s)
  -- The loop of steal_from_victim_baseline ends
  wake :
      (i : ℕ)
      → i < n
      → s.pc i ≡ awaiting
      → s.wait_for_task_from_victim i ≡ false
      → Step n s (end_steal i s)
  -- No steal has succeeded
  give_up :
      (i : ℕ) → i < n → s.pc i ≡ searching → Step n s (record s { pc = update s.pc i running })

-- After initialize_distws_setOfThieves at all places.
unfoldable pub init : System
init = record {
  pc = λ _. running;
  out_of_work = λ _. false;
  req_thread = λ _. req_unavailable;
  wait_for_task_from_victim = λ _. false;
  shipments = λ _. 0;
}

pub data Steps (n : ℕ) (s : System) : System → Type 0 where
  here : Steps n s s
  next : {t u : System} → Steps n s t → Step n t u → Steps n s u
