-- ===== src/DistWs/Hunt/Synchronous.antt =====
-- src/hcupc_spmd_distWS_common.cpp: the search that leaves a request at one victim and waits for the
-- answer.
use habanero_upc.Prelude.{
  ℕ, zero, suc, ◌+◌, ◌-◌, Bool, true, false, ◌&&◌, Option, some, leb, ◌>>=◌, if◌then◌else◌, update,
}
use habanero_upc.Victims.Selection.{Selection}
use habanero_upc.DistWs.Steal.{req_available, requested}
use habanero_upc.Stats.{record_failed_steal_timeline}
use habanero_upc.DistWs.Hunt.{
  baseline, load, exceeds, is_available, Thief, Machine, advance_while, count_probe,
  set_out_of_work, is_waiting, start_search,
}

-- SUCCESS_STEAL, FAILED_STEAL and NOT_WORKING, the results of attempt_synchronous_steal.
pub data Status : Type 0 where
  success_steal failed_steal nothing_there : Status

abbrev pub is_success : Status → Bool
is_success success_steal = true
is_success failed_steal = false
is_success nothing_there = false

module _ {W S : Type 0} where
  -- After a steal this place can be asked itself.
  abbrev pub reopened : ℕ → Thief W S → Thief W S
  reopened me t =
      let p = set_out_of_work false t.place in
      record t {
        place = record p {
          shared = record (p.shared) {
            work_avail = update p.shared.work_avail me (load 0);
            req_thread = update p.shared.req_thread me req_available;
          };
        };
      }

  -- The switch over the status, with the attempts that are counted for GLB.
  unfoldable pub count_attempt : Bool → Status → Thief W S → Thief W S
  count_attempt is_glb success_steal s =
      if is_glb then record s { current_glb_max_rand_attempts = 0 } else s
  count_attempt is_glb failed_steal s =
      if is_glb
      then record s { current_glb_max_rand_attempts = s.current_glb_max_rand_attempts + 1 }
      else s
  count_attempt is_glb nothing_there s = s

module _ {W S : Type 0} (m : Machine W) (sel : Selection S)
    (ranks me task_transfer_threshold fuel : ℕ) where
  -- The request to `v`, made under its lock, and the wait of steal_from_victim_baseline.
  unfoldable pub steal_from_victim_baseline : ℕ → Thief W S → Option (Thief W S)
  unfolding advance_while
  steal_from_victim_baseline v s =
      let h = s.place.shared in
      advance_while m (is_waiting me) fuel (record s {
        place = record (s.place) {
          shared = record h {
            wait_for_task_from_victim = update h.wait_for_task_from_victim me true;
            req_thread = update h.req_thread v (requested me);
          };
        };
      })

  unfoldable pub attempt_synchronous_steal : ℕ → Thief W S → Option (Status × Thief W S)
  unfolding steal_from_victim_baseline
  attempt_synchronous_steal v s =
      let h = m.meanwhile s.place.shared in
      let s1 : Thief W S = count_probe (record s { place = record (s.place) { shared = h } }) in
      let h1 = m.meanwhile h in
      let s2 : Thief W S = record s1 { place = record (s1.place) { shared = h1 } } in
      if exceeds task_transfer_threshold (h.work_avail v)
      then (if is_available (h1.req_thread v)
          then (do t ← steal_from_victim_baseline v s2; some (success_steal, reopened me t))
          else some (
            failed_steal,
            record s2 { stats = record_failed_steal_timeline (m.before h1.world) s2.stats },
          ))
      else some (nothing_there, s1)

  module _ (glb_max_rand_attempts : ℕ) where
    -- The loop of search_tasks_globally_synchronous, with `n` turns to go.
    unfoldable pub synchronous_turns : Bool → ℕ → Thief W S → Option (Bool × Thief W S)
    unfolding attempt_synchronous_steal count_attempt
    synchronous_turns is_glb zero s = some (false, s)
    synchronous_turns is_glb (suc n) s = do
      (v, last) ← sel.next_victim s.last_steal
      (status, s1) ← attempt_synchronous_steal v (record s { last_steal = last })
      (let t = count_attempt is_glb status s1 in
          let rest = synchronous_turns is_glb n t in
          if is_success status
          then some (true, t)
          else if is_glb && leb glb_max_rand_attempts t.current_glb_max_rand_attempts
          then some (false, t)
          else rest)

    unfoldable pub search_tasks_globally_synchronous : Bool → Thief W S → Option (Bool × Thief W S)
    unfolding synchronous_turns
    search_tasks_globally_synchronous is_glb s = synchronous_turns is_glb (ranks - 1) s

  unfoldable search_tasks_globally_baseline : Thief W S → Option (Bool × Thief W S)
  unfolding search_tasks_globally_synchronous start_search
  search_tasks_globally_baseline s =
      search_tasks_globally_synchronous 1 false (start_search m sel me baseline s)
