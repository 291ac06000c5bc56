-- ===== src/DistWs/ThiefQueue/Cyclic.antt =====
-- src/hcupc_spmd_distWS_common.cpp, mark_victimContacted: a victim that is asked for work while it
-- waits here as a thief is taken out of the queue, if cyclic steals are not allowed.
use habanero_upc.Prelude.{
  ℕ, zero, suc, ◌+◌, ◌-◌, ◌≤◌, ◌<◌, ◌≡◌, refl, sym, ap, ◌∙◌, Bool, true, false, ◌&&◌, Option, some,
  arith, ltb, ◌==◌, if◌then◌else◌, update, Bool-cases, inl, inr,
}
use habanero_upc.Prelude.Ring.{window}
use habanero_upc.DistWs.ThiefQueue.{
  Thieves, queued_entry, is_queued, is_in_queue, Copies, remove_thief, mark_victim_contacted,
}
use habanero_upc.DistWs.ThiefQueue.Fifo.{waiting, IsValid}
use habanero_upc.DistWs.ThiefQueue.Removal.{
  contains, without, without-not_contains, AllRanks-without, is_in_queue-contains, copied, gathered,
  gathered-without, pasted,
}

-- The two states in which the removal can end.
abbrev emptied : Thieves → Thieves
emptied s = record s { head_next = 0; tail_next = 0; thieves_waiting = false }

abbrev refilled : ℕ → Thieves → Copies → Thieves
refilled ranks s c = record s {
  head_next = 0;
  tail_next = c.index_next;
  queued_thieves = λ i. if ltb i ranks then c.queued_thieves_tmp i else s.queued_thieves i;
}

refilled-IsValid :
    (ranks v : ℕ) (s : Thieves) (c : Copies)
    → 0 < ranks
    → IsValid ranks s
    → copied ranks c ≡ without v (waiting ranks s)
    → c.index_next ≤ s.tail_next - s.head_next
    → 0 < c.index_next
    → (waiting ranks (refilled ranks s c) ≡ without v (waiting ranks s))
      × IsValid ranks (refilled ranks s c)
refilled-IsValid ranks v s c pos w e k some_left = (
  same,
  record {
    ordered = omega arith;
    fits = omega (arith, w.fits);
    flag = ground (arith, w.flag);
    ranked = rw same (AllRanks-without ranks v (waiting ranks s) w.ranked);
  },
)
  where
    same : waiting ranks (refilled ranks s c) ≡ without v (waiting ranks s)
    same =
        let from_start : c.index_next - 0 ≡ c.index_next = omega arith in
        rw from_start (pasted ranks c.index_next c.queued_thieves_tmp s.queued_thieves pos ∙ e)

emptied-IsValid :
    (ranks v : ℕ) (s : Thieves) (c : Copies)
    → copied ranks c ≡ without v (waiting ranks s)
    → (n : ℕ) → c.index_next ≡ n
    → n ≡ 0
    → (waiting ranks (emptied s) ≡ without v (waiting ranks s)) × IsValid ranks (emptied s)
emptied-IsValid ranks v s c e zero z _ = (
  ap (window ranks c.queued_thieves_tmp 0) (sym z) ∙ e,
  record { ordered = omega arith; fits = omega arith; flag = refl; ranked = tt },
)
emptied-IsValid ranks v s c e (suc n) z h = absurd (omega arith)

remove_thief-IsValid :
    (ranks v : ℕ) (tmp : ℕ → Option ℕ) (s : Thieves)
    → 0 < ranks
    → IsValid ranks s
    → (waiting ranks (remove_thief ranks v tmp s) ≡ without v (waiting ranks s))
      × IsValid ranks (remove_thief ranks v tmp s)
unfolding remove_thief
remove_thief-IsValid ranks v tmp s pos w = elim (Bool-cases (c.index_next == 0)) [
  | inl e ↦ rw e (emptied-IsValid ranks v s c g.0 c.index_next refl (ground arith))
  | inr e ↦ rw e (refilled-IsValid ranks v s c pos w g.0 g.1 (ground arith))
]
  where
    c : Copies
    c = gathered ranks v tmp s

    g : (copied ranks c ≡ without v (waiting ranks s)) × (c.index_next ≤ s.tail_next - s.head_next)
    g = gathered-without ranks v tmp s w

-- The state when the queue is searched and a cyclic steal is, or is not, counted.
abbrev marked : ℕ → ℕ → Thieves → Thieves
marked v n s = record s {
  contacted_victims = update s.contacted_victims v queued_entry;
  total_cyclic_steals = n;
}

marked-IsValid : (ranks v n : ℕ) (s : Thieves) → IsValid ranks s → IsValid ranks (marked v n s)
marked-IsValid ranks v n s w = record {
  ordered = w.ordered;
  fits = w.fits;
  flag = w.flag;
  ranked = w.ranked;
}

abbrev new_count : Bool → ℕ → ℕ
new_count found n = if found then n + 1 else n

mark_victim_contacted-step :
    (ranks : ℕ) (cyclic found : Bool) (v : ℕ) (tmp : ℕ → Option ℕ) (s : Thieves)
    → is_queued (s.contacted_victims v) ≡ false
    → is_in_queue ranks v s.queued_thieves s.head_next (s.tail_next - s.head_next) ≡ found
    → mark_victim_contacted ranks cyclic v tmp s
      ≡ some (
          if cyclic && found
          then remove_thief ranks v tmp (marked v (new_count found s.total_cyclic_steals) s)
          else marked v (new_count found s.total_cyclic_steals) s)
unfolding mark_victim_contacted
mark_victim_contacted-step ranks cyclic true v tmp s unmarked e = ground arith
mark_victim_contacted-step ranks cyclic false v tmp s unmarked e = ground arith

remove_thief-keeps :
    (ranks v : ℕ) (tmp : ℕ → Option ℕ) (s : Thieves)
    → ((remove_thief ranks v tmp s).contacted_victims ≡ s.contacted_victims)
      × ((remove_thief ranks v tmp s).total_cyclic_steals ≡ s.total_cyclic_steals)
unfolding remove_thief
remove_thief-keeps ranks v tmp s = ground arith

-- The statement below, for what the search of the queue answers.
abbrev Cancels : ℕ → Bool → Bool → ℕ → (ℕ → Option ℕ) → Thieves → Type 0
Cancels ranks cyclic found v tmp s =
    (t : Thieves) × (mark_victim_contacted ranks cyclic v tmp s ≡ some t)
    × (waiting ranks t ≡ (if cyclic then without v (waiting ranks s) else waiting ranks s))
    × IsValid ranks t
    × (t.contacted_victims ≡ update s.contacted_victims v queued_entry)
    × (t.total_cyclic_steals ≡ new_count found s.total_cyclic_steals)

cancels :
    (ranks : ℕ) (cyclic found : Bool) (v : ℕ) (tmp : ℕ → Option ℕ) (s : Thieves)
    → 0 < ranks
    → IsValid ranks s
    → is_queued (s.contacted_victims v) ≡ false
    → is_in_queue ranks v s.queued_thieves s.head_next (s.tail_next - s.head_next) ≡ found
    → contains v (waiting ranks s) ≡ found
    → Cancels ranks cyclic found v tmp s
cancels ranks true true v tmp s pos w unmarked e h =
    let m = marked v (s.total_cyclic_steals + 1) s in
    let (q, valid) = remove_thief-IsValid ranks v tmp m pos (marked-IsValid ranks v _ s w) in
    let (contacts, count) = remove_thief-keeps ranks v tmp m in
    (
      remove_thief ranks v tmp m,
      mark_victim_contacted-step ranks true true v tmp s unmarked e,
      q,
      valid,
      contacts,
      count,
    )
cancels ranks true false v tmp s pos w unmarked e h = (
  marked v s.total_cyclic_steals s,
  mark_victim_contacted-step ranks true false v tmp s unmarked e,
  sym (without-not_contains v (waiting ranks s) h),
  marked-IsValid ranks v _ s w,
  refl,
  refl,
)
cancels ranks false found v tmp s pos w unmarked e h = (
  marked v (new_count found s.total_cyclic_steals) s,
  mark_victim_contacted-step ranks false found v tmp s unmarked e,
  refl,
  marked-IsValid ranks v _ s w,
  refl,
  refl,
)

-- mark_victimContacted, for a victim `v` that is not yet marked: it never fails, marks `v`, counts a
-- cyclic steal exactly if `v` waits in the queue here, and, if cyclic steals are not allowed, leaves
-- the other thieves in their order, whatever the temporary array held. The queue stays valid.
pub mark_victim_contacted_cancels :
    (ranks : ℕ) (cyclic : Bool) (v : ℕ) (tmp : ℕ → Option ℕ) (s : Thieves)
    → 0 < ranks
    → IsValid ranks s
    → is_queued (s.contacted_victims v) ≡ false
    → (t : Thieves) × (mark_victim_contacted ranks cyclic v tmp s ≡ some t)
      × (waiting ranks t ≡ (if cyclic then without v (waiting ranks s) else waiting ranks s))
      × IsValid ranks t
      × (t.contacted_victims ≡ update s.contacted_victims v queued_entry)
      × (t.total_cyclic_steals ≡ (
          if contains v (waiting ranks s)
          then s.total_cyclic_steals + 1
          else s.total_cyclic_steals))
mark_victim_contacted_cancels ranks cyclic v tmp s pos w unmarked =
    let found =
      is_in_queue-contains ranks v s.queued_thieves s.head_next (s.tail_next - s.head_next) in
    cancels ranks cyclic (contains v (waiting ranks s)) v tmp s pos w unmarked found refl
