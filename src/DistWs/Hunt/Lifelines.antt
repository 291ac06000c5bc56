-- ===== src/DistWs/Hunt/Lifelines.antt =====
-- src/hcupc_spmd_distWS_common.cpp: the search that leaves steal requests at the places with tasks and
-- does not wait for an answer.
use habanero_upc.Prelude.{
  ℕ, zero, suc, ◌+◌, ◌%◌, ◌^◌, Bool, true, false, not, Option, some, [], ◌∷◌, ◌++◌, ltb, ◌==◌,
  ◌>>=◌, if◌then◌else◌,
}
use habanero_upc.Victims.Selection.{Selection}
use habanero_upc.DistWs.ThiefQueue.{victim_already_contacted, mark_victim_contacted}
use habanero_upc.DistWs.InFlight.{received_tasks_from_victim}
use habanero_upc.Stats.{contacted_victims_statistics}
use habanero_upc.DistWs.Hunt.{
  successonly, successonly_glb, exceeds, Thief, Machine, advance_while, count_probe, is_unreturned,
  start_search,
}

-- `tmp` is what the temporary array of mark_victimContacted holds before it is written; `fuel`
-- bounds the turns of each loop around upcxx::advance.
module _ {W S : Type 0} (m : Machine W) (sel : Selection S) (ranks me : ℕ)
    (cyclic_steals_not_allowed : Bool) (tmp : ℕ → Option ℕ) (task_transfer_threshold fuel : ℕ) where
  -- What happens after a probe that has found tasks: the mark, the request, and the wait until the
  -- victim has queued this place.
  unfoldable pub set_lifeline : ℕ → Thief W S → Option (Thief W S)
  unfolding advance_while
  set_lifeline v s = do
    q ← mark_victim_contacted ranks cyclic_steals_not_allowed v tmp s.place.thieves
    advance_while m is_unreturned fuel (record s {
      place = record (s.place) { thieves = q; waiting_for_return_async = true };
      asked = s.asked ++ v ∷ [];
    })

  unfoldable pub attempt_steal_or_set_lifeline : ℕ → Thief W S → Option (Bool × Thief W S)
  unfolding set_lifeline
  attempt_steal_or_set_lifeline v s =
      let h = m.meanwhile s.place.shared in
      let s1 : Thief W S = count_probe (record s { place = record (s.place) { shared = h } }) in
      if victim_already_contacted v s.place.thieves
      then some (false, s)
      else if exceeds task_transfer_threshold (h.work_avail v)
      then (do t ← set_lifeline v s1; some (true, t))
      else some (false, s1)

  -- The victim of turn `i` of search_for_lifelines.
  unfoldable pub lifeline_victim : Bool → ℕ → S → Option (ℕ × S)
  lifeline_victim is_glb i last =
      if is_glb then some ((2 ^ i + me) % ranks, last) else sel.next_victim last

  -- The loop of search_for_lifelines at turn `i`, with `n` turns to go.
  unfoldable pub lifeline_turns : Bool → ℕ → ℕ → ℕ → Thief W S → Option (ℕ × Thief W S)
  unfolding attempt_steal_or_set_lifeline lifeline_victim
  lifeline_turns is_glb i zero victims_contacted s = some (victims_contacted, s)
  lifeline_turns is_glb i (suc n) victims_contacted s =
      let turn = (do
        (victim, last) ← lifeline_victim is_glb i s.last_steal
        (success, s1) ←
            if me == victim
            then some (false, record s { last_steal = last })
            else attempt_steal_or_set_lifeline victim (record s { last_steal = last })
        lifeline_turns is_glb (i + 1) n
            (if success then victims_contacted + 1 else victims_contacted) s1) in
      if received_tasks_from_victim s.place.flights then some (victims_contacted, s) else turn

  -- `log` is the library's natural logarithm, rounded down.
  unfoldable pub search_for_lifelines : (ℕ → ℕ) → Bool → Thief W S → Option (Bool × Thief W S)
  unfolding lifeline_turns
  search_for_lifelines log is_glb s = do
    (victims_contacted, t) ← lifeline_turns is_glb 0 (if is_glb then log ranks else ranks) 0 s
    some (
      ltb 0 victims_contacted,
      record t {
        stats = record (t.stats) {
          searches = contacted_victims_statistics victims_contacted t.stats.searches;
        };
      },
    )

  unfoldable pub search_tasks_globally_successonly :
      (ℕ → ℕ) → Bool → Thief W S → Option (Bool × Thief W S)
  unfolding search_for_lifelines start_search
  search_tasks_globally_successonly log successonly_dist_ws s =
      search_for_lifelines log (not successonly_dist_ws)
        (start_search m sel me (if successonly_dist_ws then successonly else successonly_glb) s)
