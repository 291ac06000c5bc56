-- ===== src/DistWs/Hunt/Boundary.antt =====
-- src/hcupc_spmd_distWS_common.cpp and inc/hcupc_spmd-random.h: searches that do not come to an end.
use habanero_upc.Prelude.{
  ℕ, zero, suc, ◌+◌, ◌%◌, ◌<◌, ◌≡◌, refl, ap, ◌∙◌, Bool, true, false, Option, none, some, List,
  arith, ltb, ◌==◌, lt→ltb, length, get_or, Bool-cases, inl, inr, dec_lt,
}
use habanero_upc.Victims.{select_random_victim}
use habanero_upc.Victims.Selection.{random, nearest}
use habanero_upc.DistWs.ThiefQueue.{victim_already_contacted}
use habanero_upc.DistWs.InFlight.{received_tasks_from_victim}
use habanero_upc.DistWs.Hunt.{
  successonly, exceeds, Shared, Thief, Machine, count_probe, mark_my_place_as_idle, start_search,
}
use habanero_upc.DistWs.Hunt.Lifelines.{
  attempt_steal_or_set_lifeline, lifeline_victim, lifeline_turns, search_for_lifelines,
  search_tasks_globally_successonly,
}

-- At one place every random number is the place itself.
random_never : (fuel : ℕ) (rand : ℕ → ℕ) → select_random_victim 1 0 fuel rand ≡ none
unfolding select_random_victim
random_never zero rand = refl
random_never (suc fuel) rand =
    let own : rand 0 % 1 ≡ 0 = omega arith in rw (own, random_never fuel (λ k. rand (suc k))) refl

module _ {W : Type 0} (m : Machine W) (cyclic_steals_not_allowed : Bool) (tmp : ℕ → Option ℕ)
    (task_transfer_threshold fuel : ℕ) where
  -- With random selection and one place, the success-only search for tasks does not return, whatever
  -- rand() returns and however long selectvictim runs, unless tasks have been received.
  pub single_place_search_hangs :
      (draws : ℕ) (rand : ℕ → ℕ → ℕ) (log : ℕ → ℕ) (s : Thief W ℕ)
      → received_tasks_from_victim s.place.flights ≡ false
      → search_tasks_globally_successonly m
          (random 1 0 draws rand)
          1
          0
          cyclic_steals_not_allowed
          tmp
          task_transfer_threshold
          fuel
          log
          true
          s
        ≡ none
  unfolding search_tasks_globally_successonly search_for_lifelines lifeline_turns lifeline_victim
      random start_search mark_my_place_as_idle received_tasks_from_victim
  single_place_search_hangs draws rand log s none_received =
      elim (Bool-cases s.place.flights.out_of_work) [
        | inl idle ↦ rw (idle, none_received, random_never draws (rand s.last_steal)) refl
        | inr busy ↦ rw (busy, none_received, random_never draws (rand s.last_steal)) refl
      ]

  module _ (ranks me : ℕ) (victims : List ℕ) (filled : length victims + 1 ≡ ranks)
      (idle : (h : Shared W) (v : ℕ)
        → exceeds task_transfer_threshold ((m.meanwhile h).work_avail v) ≡ false) where
    not_below : {a b : ℕ} → ¬ (a < b) → ltb a b ≡ false
    not_below h = ground arith

    idle_attempt :
        (v : ℕ) (s : Thief W ℕ)
        → (t : Thief W ℕ) × (attempt_steal_or_set_lifeline m
              (nearest victims)
              ranks
              me
              cyclic_steals_not_allowed
              tmp
              task_transfer_threshold
              fuel
              v
              s
            ≡ some (false, t))
          × (t.last_steal ≡ s.last_steal)
          × (t.place.flights ≡ s.place.flights)
    unfolding attempt_steal_or_set_lifeline
    idle_attempt v s = elim (Bool-cases (victim_already_contacted v s.place.thieves)) [
      | inl marked ↦ (s, rw marked refl, refl, refl)
      | inr free ↦ (
        count_probe (record s { place = record (s.place) { shared = m.meanwhile s.place.shared } }),
        rw (free, idle s.place.shared v) refl,
        refl,
        refl,
      )
    ]

    nearest_turns :
        (i n c : ℕ) (s : Thief W ℕ)
        → length victims < i + n
        → s.last_steal ≡ i
        → received_tasks_from_victim s.place.flights ≡ false
        → i < ranks
        → lifeline_turns m
            (nearest victims)
            ranks
            me
            cyclic_steals_not_allowed
            tmp
            task_transfer_threshold
            fuel
            false
            i
            n
            c
            s
          ≡ none
    unfolding lifeline_turns lifeline_victim nearest
    nearest_turns i zero c s long at free within = absurd (omega arith)
    nearest_turns i (suc n) c s long at free within = elim (dec_lt i (length victims)) [
      | no past ↦ rw (free, at, not_below past) refl
      | yes inside ↦
          let v = get_or victims i 0 in
          let moved : Thief W ℕ = record s { last_steal = i + 1 } in
          elim (Bool-cases (me == v)) [
            | inl own ↦
                rw (free, at, lt→ltb i (length victims) inside, own)
                  (nearest_turns (i + 1) n c moved (omega arith) refl free (omega arith))
            | inr other ↦
                let (t, e, same, flights) = idle_attempt v moved in
                rw (free, at, lt→ltb i (length victims) inside, other, e)
                  (nearest_turns (i + 1) n c t (omega arith) same
                    (ap received_tasks_from_victim flights ∙ free) (omega arith))
          ]
    ]

    started :
        (s : Thief W ℕ)
        → let t = start_search m (nearest victims) me successonly s in
          (t.last_steal ≡ 0)
          × (received_tasks_from_victim t.place.flights
              ≡ received_tasks_from_victim s.place.flights)
    unfolding start_search nearest mark_my_place_as_idle received_tasks_from_victim
    started s = elim (Bool-cases s.place.flights.out_of_work) [
      | inl idle ↦ rw idle (refl, refl)
      | inr busy ↦ rw busy (refl, refl)
    ]

    -- With the array of the nearest victims, which has one entry for each other place, the success-only
    -- search reads past its end, if no place that it probes has tasks to give and none are received.
    pub nearest_search_overruns :
        (log : ℕ → ℕ) (s : Thief W ℕ)
        → received_tasks_from_victim s.place.flights ≡ false
        → search_tasks_globally_successonly m
            (nearest victims)
            ranks
            me
            cyclic_steals_not_allowed
            tmp
            task_transfer_threshold
            fuel
            log
            true
            s
          ≡ none
    unfolding search_tasks_globally_successonly search_for_lifelines
    nearest_search_overruns log s free =
        let (start, same) = started s in
        rw
          (nearest_turns 0 ranks 0 (start_search m (nearest victims) me successonly s) (omega arith)
            start (same ∙ free) (omega arith))
          refl
