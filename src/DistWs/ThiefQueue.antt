-- ===== src/DistWs/ThiefQueue.antt =====
-- src/hcupc_spmd_distWS_common.cpp: the queue of thieves at a victim, and the marks of the victims
-- that this place has asked for work.
pub mod Fifo
pub mod Popped
pub mod Removal
pub mod Cyclic
mod Tests
use habanero_upc.Prelude.{
  ℕ, zero, suc, ◌+◌, ◌-◌, ◌%◌, Bool, true, false, not, ◌&&◌, ◌||◌, Option, none, some, ltb, ◌==◌,
  ◌>>=◌, if◌then◌else◌, update,
}

-- POPPED_ENTRY and QUEUED_ENTRY in contacted_victims.
pub data Contact : Type 0 where
  popped_entry queued_entry : Contact

abbrev pub is_queued : Contact → Bool
is_queued queued_entry = true
is_queued popped_entry = false

-- The static variables. An entry of queued_thieves is the rank of a thief, or `none` for
-- POPPED_ENTRY. `head` and `tail` start at -1 in the program and are incremented before each use:
-- here `head_next` is head + 1 and `tail_next` is tail + 1.
pub record Thieves : Type 0 where
  pub queued_thieves : ℕ → Option ℕ
  pub head_next : ℕ
  pub tail_next : ℕ
  pub thieves_waiting : Bool
  pub contacted_victims : ℕ → Contact
  pub out_of_work : Bool
  pub total_received_steal_requests_when_idle : ℕ
  pub total_cyclic_steals : ℕ

unfoldable pub victim_already_contacted : ℕ → Thieves → Bool
victim_already_contacted v s = is_queued (s.contacted_victims v)

-- Below, `none` is the failed assertion.
unfoldable unmark_victim_contacted : ℕ → Thieves → Option Thieves
unmark_victim_contacted v s =
    if is_queued (s.contacted_victims v)
    then some (record s { contacted_victims = update s.contacted_victims v popped_entry })
    else none

unfoldable size_thief_queue : Thieves → ℕ
size_thief_queue s = s.tail_next - s.head_next

-- Whether the queue is empty; if so the indices are reset.
unfoldable empty_thief_queue : Thieves → Bool × Thieves
empty_thief_queue s =
    if s.head_next == s.tail_next
    then (true, record s { head_next = 0; tail_next = 0 })
    else (false, s)

-- src/hcupc_spmd_stats.cpp
unfoldable check_if_out_of_work_stats : Thieves → Thieves
check_if_out_of_work_stats s =
    if s.out_of_work
    then record s {
      total_received_steal_requests_when_idle = s.total_received_steal_requests_when_idle + 1;
    }
    else s

abbrev pub is_rank : ℕ → Option ℕ → Bool
is_rank v none = false
is_rank v (some t) = v == t

-- The temporary array of mark_victimContacted, and index + 1.
pub record Copies : Type 0 where
  pub queued_thieves_tmp : ℕ → Option ℕ
  pub index_next : ℕ

unfoldable pub copy_other : ℕ → Option ℕ → Copies → Copies
copy_other v t c = if is_rank v t then c else record {
  queued_thieves_tmp = update c.queued_thieves_tmp c.index_next t;
  index_next = c.index_next + 1;
}

-- `ranks` is upcxx::global_ranks(); `cyclic_steals_not_allowed` tells whether the environment
-- variable HCPP_CANCEL_CYCLIC_STEALS is set.
module _ (ranks : ℕ) where
  -- The loop of initialize_distws_setOfThieves over these arrays.
  unfoldable pub initialize : Thieves → Thieves
  initialize s = record s {
    contacted_victims = λ i. if ltb i ranks then popped_entry else s.contacted_victims i;
    queued_thieves = λ i. if ltb i ranks then none else s.queued_thieves i;
  }

  unfoldable full_thief_queue : Thieves → Bool
  full_thief_queue s = s.tail_next == s.head_next + ranks

  unfoldable pub pop_thief : Thieves → Option (Option ℕ × Thieves)
  unfolding empty_thief_queue
  pop_thief s =
      let (is_empty, s0) = empty_thief_queue s in
      if is_empty
      then (if s0.thieves_waiting then none else some (none, s0))
      else elim (s0.queued_thieves (s0.head_next % ranks)) [
        | none ↦ none
        | some p ↦
            if ltb p ranks
            then (let (now_empty, s1) =
                  empty_thief_queue (record s0 { head_next = s0.head_next + 1 }) in
                some (some p, if now_empty then record s1 { thieves_waiting = false } else s1))
            else none
      ]

  -- The search of check_cyclicSteals (src/hcupc_spmd_stats.cpp), with `n` entries from `h` to go.
  unfoldable pub is_in_queue : ℕ → (ℕ → Option ℕ) → ℕ → ℕ → Bool
  is_in_queue v queue h zero = false
  is_in_queue v queue h (suc n) = is_rank v (queue (h % ranks)) || is_in_queue v queue (h + 1) n

  unfoldable check_cyclic_steals : ℕ → Thieves → Bool × Thieves
  unfolding is_in_queue
  check_cyclic_steals v s =
      if is_in_queue v s.queued_thieves s.head_next (s.tail_next - s.head_next)
      then (true, record s { total_cyclic_steals = s.total_cyclic_steals + 1 })
      else (false, s)

  -- The loop that copies all entries but `v` to the temporary array, with the number of copies.
  unfoldable pub copy_others : ℕ → (ℕ → Option ℕ) → ℕ → ℕ → Copies → Copies
  copy_others v queue h zero c = c
  copy_others v queue h (suc n) c =
      copy_others v queue (h + 1) n (copy_other v (queue (h % ranks)) c)

  -- Takes `v` out of the queue. `tmp` is what the temporary array holds before it is written.
  unfoldable pub remove_thief : ℕ → (ℕ → Option ℕ) → Thieves → Thieves
  unfolding copy_others copy_other
  remove_thief v tmp s =
      let c =
        copy_others v s.queued_thieves s.head_next (s.tail_next - s.head_next)
          (record { queued_thieves_tmp = tmp; index_next = 0 }) in
      if c.index_next == 0
      then record s { head_next = 0; tail_next = 0; thieves_waiting = false }
      else record s {
        head_next = 0;
        tail_next = c.index_next;
        queued_thieves = λ i. if ltb i ranks then c.queued_thieves_tmp i else s.queued_thieves i;
      }

  module _ (cyclic_steals_not_allowed : Bool) where
    unfoldable pub queue_thief : ℕ → Thieves → Option Thieves
    unfolding full_thief_queue check_if_out_of_work_stats victim_already_contacted
        unmark_victim_contacted
    queue_thief i s =
        if full_thief_queue s
        then none
        else (let s0 = check_if_out_of_work_stats (record s { thieves_waiting = true }) in
            let s1 : Thieves = record s0 {
              queued_thieves = update s0.queued_thieves (s0.tail_next % ranks) (some i);
              tail_next = s0.tail_next + 1;
            } in
            if cyclic_steals_not_allowed && victim_already_contacted i s1
            then unmark_victim_contacted i s1
            else some s1)

    unfoldable pub mark_victim_contacted : ℕ → (ℕ → Option ℕ) → Thieves → Option Thieves
    unfolding check_cyclic_steals
    mark_victim_contacted v tmp s =
        if is_queued (s.contacted_victims v)
        then none
        else (let (ret, s1) =
              check_cyclic_steals v
                (record s { contacted_victims = update s.contacted_victims v queued_entry }) in
            some (if cyclic_steals_not_allowed && ret then remove_thief v tmp s1 else s1))
