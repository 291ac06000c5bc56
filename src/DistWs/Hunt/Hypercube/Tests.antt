-- ===== src/DistWs/Hunt/Hypercube/Tests.antt =====
-- Place 1 of four places looks for tasks along its two lifelines.
use habanero_upc.Prelude.{
  ℕ, zero, suc, ◌^◌, ◌≤◌, ◌<◌, ◌≡◌, true, false, none, some, List, ◌++◌, arith, ltb, length, count,
}
use habanero_upc.Victims.Selection.{round_robin}
use habanero_upc.DistWs.Hunt.{Thief}
use habanero_upc.DistWs.Hunt.Lifelines.{search_for_lifelines}
use habanero_upc.DistWs.Hunt.Hypercube.{search_for_lifelines-once}
use habanero_upc.DistWs.Hunt.Tests.{quick, quick-Answers, half, busy_place}

room : (k : ℕ) → k < 2 → 2 ^ k < 4
room zero h = omega arith
room (suc zero) h = omega arith
room (suc (suc k)) h = omega arith

search_for_lifelines-once_example :
    (vs : List ℕ) × (t : Thief ℕ ℕ) × (search_for_lifelines quick
        (round_robin 4 1)
        4
        1
        false
        (λ _. none)
        4
        2
        half
        true
        busy_place
      ≡ some (ltb 0 (length vs), t))
    × (t.asked ≡ busy_place.asked ++ vs)
    × ((v : ℕ) → count v vs ≤ 1)
search_for_lifelines-once_example =
    search_for_lifelines-once quick (round_robin 4 1) 4 1 false (λ _. none) 4 2 quick-Answers half
      busy_place (omega arith) room
