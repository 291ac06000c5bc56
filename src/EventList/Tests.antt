-- ===== src/EventList/Tests.antt =====
-- Three events on a heap where the node at 9 belongs to others.
use habanero_upc.Prelude.{
  ℕ, ◌≤◌, ◌<◌, ◌≡◌, refl, none, some, List, [], ◌∷◌, arith, count, ◌>>=◌, update,
}
use habanero_upc.EventList.{EventList, get_upcxx_events, free_upcxx_event_list}
use habanero_upc.EventList.Freed.{events_freed}

abbrev addresses : List ℕ
addresses = 4 ∷ 8 ∷ 6 ∷ []

abbrev no_events : EventList
no_events = record {
  nodes = update (λ _. none) 9 (some none);
  event_list_head = none;
  event_list_curr = none;
}

once : (k : ℕ) → count k addresses ≤ 1
once k = ground arith

unused : (k : ℕ) → 0 < count k addresses → no_events.nodes k ≡ none
unused k h = ground (arith, h)

events_freed_example :
    (t : EventList) × ((get_upcxx_events addresses no_events >>= free_upcxx_event_list 4) ≡ some t)
    × (t.event_list_head ≡ none)
    × ((k : ℕ) → t.nodes k ≡ no_events.nodes k)
events_freed_example = events_freed addresses no_events refl once unused
