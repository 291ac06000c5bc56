-- ===== src/EventList.antt =====
-- src/hcupc_spmd.cpp: the list of the events that the copies of a finish scope have taken. An address
-- is a number; the heap tells which nodes are allocated and what their `next` is.
mod Chain
pub mod Freed
mod Tests
use habanero_upc.Prelude.{ℕ, zero, suc, ◌+◌, Option, none, some, List, [], ◌∷◌, ◌>>=◌, update}

pub record EventList : Type 0 where
  pub nodes : ℕ → Option (Option ℕ)
  pub event_list_head : Option ℕ
  pub event_list_curr : Option ℕ

-- get_upcxx_event, where `el` is the address that `new` gives. The mutex makes it one step. Below,
-- `none` is the use of a node that is not allocated.
unfoldable pub get_upcxx_event : ℕ → EventList → Option EventList
get_upcxx_event el s =
    let fresh = update s.nodes el (some none) in
    elim s.event_list_head [
      | none ↦ some (record { nodes = fresh; event_list_head = some el; event_list_curr = some el })
      | some h ↦ do
        curr ← s.event_list_curr
        next ← fresh curr
        some (record s { nodes = update fresh curr (some (some el)); event_list_curr = some el })
    ]

unfoldable pub get_upcxx_events : List ℕ → EventList → Option EventList
unfolding get_upcxx_event
get_upcxx_events [] s = some s
get_upcxx_events (el ∷ els) s = do s1 ← get_upcxx_event el s; get_upcxx_events els s1

unfoldable pub free_upcxx_event_list : ℕ → EventList → Option EventList
free_upcxx_event_list zero s = none
free_upcxx_event_list (suc fuel) s = elim s.event_list_head [
  | none ↦ some (record s { event_list_head = none; event_list_curr = none })
  | some el ↦ do
    next ← s.nodes el
    free_upcxx_event_list fuel (record s { nodes = update s.nodes el none; event_list_head = next })
]
