-- ===== src/DistWs/ThiefQueue/Tests.antt =====
-- The queue of thieves at concrete inputs, with four places.
use habanero_upc.Prelude.{
  ℕ, ◌≡◌, ◌⊎◌, refl, true, false, Option, none, some, [], ◌∷◌, ◌++◌, arith, ◌==◌, if◌then◌else◌,
  length, update,
}
use habanero_upc.DistWs.ThiefQueue.{
  Thieves, popped_entry, queued_entry, queue_thief, pop_thief, mark_victim_contacted,
}
use habanero_upc.DistWs.ThiefQueue.Fifo.{waiting, IsValid, answered, queue_thief_refines}
use habanero_upc.DistWs.ThiefQueue.Popped.{pop_thief_refines, dequeue}
use habanero_upc.DistWs.ThiefQueue.Cyclic.{mark_victim_contacted_cancels}

-- Places 3 and 1 wait, and the entries go round the end of the array.
abbrev two_thieves : Thieves
two_thieves = record {
  queued_thieves = λ i. if i == 3 then some 3 else some 1;
  head_next = 7;
  tail_next = 9;
  thieves_waiting = true;
  contacted_victims = λ _. popped_entry;
  out_of_work = false;
  total_received_steal_requests_when_idle = 0;
  total_cyclic_steals = 0;
}

two_thieves-IsValid : IsValid 4 two_thieves
two_thieves-IsValid = record {
  ordered = omega arith;
  fits = omega arith;
  flag = refl;
  ranked = (omega arith, (omega arith, tt));
}

queue_thief_refines_example :
    ((length (waiting 4 two_thieves) ≡ 4) × (queue_thief 4 true 2 two_thieves ≡ none))
    ⊎ ((t : Thieves) × (queue_thief 4 true 2 two_thieves ≡ some t)
        × (waiting 4 t ≡ waiting 4 two_thieves ++ some 2 ∷ [])
        × IsValid 4 t
        × (t.contacted_victims ≡ answered true 2 (λ _. popped_entry)))
queue_thief_refines_example =
    queue_thief_refines 4 true 2 two_thieves (omega arith) two_thieves-IsValid

pop_thief_refines_example :
    (p : Option ℕ) × (t : Thieves) × (pop_thief 4 two_thieves ≡ some (p, t))
    × ((p, waiting 4 t) ≡ dequeue (some 3 ∷ some 1 ∷ []))
    × IsValid 4 t
pop_thief_refines_example = pop_thief_refines 4 two_thieves two_thieves-IsValid

mark_victim_contacted_cancels_example :
    (t : Thieves) × (mark_victim_contacted 4 true 3 (λ _. none) two_thieves ≡ some t)
    × (waiting 4 t ≡ some 1 ∷ [])
    × IsValid 4 t
    × (t.contacted_victims ≡ update (λ _. popped_entry) 3 queued_entry)
    × (t.total_cyclic_steals ≡ 1)
mark_victim_contacted_cancels_example =
    mark_victim_contacted_cancels 4 true 3 (λ _. none) two_thieves (omega arith) two_thieves-IsValid
      refl
