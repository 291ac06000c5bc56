-- ===== src/DistWs/ThiefQueue/Fifo.antt =====
-- src/hcupc_spmd_distWS_common.cpp: the queue of thieves is a bounded first-in first-out queue.
use habanero_upc.Prelude.{
  ℕ, suc, ◌+◌, ◌-◌, ◌%◌, ◌≤◌, ◌<◌, ◌≡◌, ◌≢◌, ◌⊎◌, inl, inr, sym, ◌∙◌, Bool, true, ◌&&◌, Option,
  none, some, List, [], ◌∷◌, ◌++◌, arith, ltb, if◌then◌else◌, length, update, Option-cases, lt→ltb,
}
use habanero_upc.Prelude.Ring.{window, length-window, window-update}
use habanero_upc.DistWs.ThiefQueue.{Thieves, Contact, popped_entry, is_queued, queue_thief}

-- Every entry is a rank.
abbrev pub AllRanks : ℕ → List (Option ℕ) → Type 0
AllRanks ranks [] = Unit {0}
AllRanks ranks (none ∷ q) = ⊥
AllRanks ranks (some p ∷ q) = (p < ranks) × AllRanks ranks q

AllRanks-snoc :
    (ranks i : ℕ) (q : List (Option ℕ))
    → i < ranks
    → AllRanks ranks q
    → AllRanks ranks (q ++ some i ∷ [])
AllRanks-snoc ranks i [] h a = (h, tt)
AllRanks-snoc ranks i (none ∷ q) h a = absurd a
AllRanks-snoc ranks i (some p ∷ q) h a = (a.0, AllRanks-snoc ranks i q h a.1)

-- The thieves that wait, the first to be served first.
abbrev pub waiting : ℕ → Thieves → List (Option ℕ)
waiting ranks s = window ranks s.queued_thieves s.head_next (s.tail_next - s.head_next)

pub record IsValid (ranks : ℕ) (s : Thieves) : Type 0 where
  pub ordered : s.head_next ≤ s.tail_next
  pub fits : s.tail_next - s.head_next ≤ ranks
  pub flag : s.thieves_waiting ≡ ltb s.head_next s.tail_next
  pub ranked : AllRanks ranks (waiting ranks s)

-- What queue_thief does beside queueing: the victim `i` has no claim on this place any more.
abbrev pub answered : Bool → ℕ → (ℕ → Contact) → ℕ → Contact
answered cyclic i c = if cyclic && is_queued (c i) then update c i popped_entry else c

record Queued (ranks : ℕ) (cyclic : Bool) (i : ℕ) (s t : Thieves) : Type 0 where
  slots : t.queued_thieves ≡ update s.queued_thieves (s.tail_next % ranks) (some i)
  head : t.head_next ≡ s.head_next
  tail : t.tail_next ≡ s.tail_next + 1
  flag : t.thieves_waiting ≡ true
  marks : t.contacted_victims ≡ answered cyclic i s.contacted_victims

queue_thief-Queued :
    (ranks : ℕ) (cyclic : Bool) (i : ℕ) (s : Thieves) {t : Thieves}
    → queue_thief ranks cyclic i s ≡ some t
    → Queued ranks cyclic i s t
unfolding queue_thief
queue_thief-Queued ranks cyclic i s e = record {
  slots = ground arith;
  head = ground arith;
  tail = ground arith;
  flag = ground arith;
  marks = ground arith;
}

queue_thief-room :
    (ranks : ℕ) (cyclic : Bool) (i : ℕ) (s : Thieves) {t : Thieves}
    → queue_thief ranks cyclic i s ≡ some t
    → s.tail_next ≢ s.head_next + ranks
unfolding queue_thief
queue_thief-room ranks cyclic i s e = ground arith

queue_thief-full :
    (ranks : ℕ) (cyclic : Bool) (i : ℕ) (s : Thieves)
    → queue_thief ranks cyclic i s ≡ none
    → s.tail_next ≡ s.head_next + ranks
unfolding queue_thief
queue_thief-full ranks cyclic i s e = ground arith

Queued-waiting :
    (ranks : ℕ) (cyclic : Bool) (i : ℕ) {s t : Thieves}
    → IsValid ranks s
    → s.tail_next ≢ s.head_next + ranks
    → Queued ranks cyclic i s t
    → waiting ranks t ≡ waiting ranks s ++ some i ∷ []
Queued-waiting ranks cyclic i {s} v room q =
    rw (q.slots, q.head, q.tail, grown)
      (window-update ranks s.queued_thieves s.head_next (s.tail_next - s.head_next) s.tail_next
        (some i) (omega (arith, v.ordered)) (omega (arith, v.ordered, v.fits)))
  where
    grown : s.tail_next + 1 - s.head_next ≡ suc (s.tail_next - s.head_next)
    grown = omega (arith, v.ordered)

-- queue_thief fails exactly on a full queue. Otherwise the thief is the last in the queue, the queue
-- stays valid, and the thief's own mark is taken off if cyclic steals are not allowed.
pub queue_thief_refines :
    (ranks : ℕ) (cyclic : Bool) (i : ℕ) (s : Thieves)
    → i < ranks
    → IsValid ranks s
    → ((length (waiting ranks s) ≡ ranks) × (queue_thief ranks cyclic i s ≡ none))
      ⊎ ((t : Thieves) × (queue_thief ranks cyclic i s ≡ some t)
          × (waiting ranks t ≡ waiting ranks s ++ some i ∷ [])
          × IsValid ranks t
          × (t.contacted_victims ≡ answered cyclic i s.contacted_victims))
queue_thief_refines ranks cyclic i s h v = elim (Option-cases (queue_thief ranks cyclic i s)) [
  | inl e ↦ inl (
    omega (
      arith,
      length-window ranks s.queued_thieves s.head_next (s.tail_next - s.head_next),
      queue_thief-full ranks cyclic i s e,
    ),
    e,
  )
  | inr (t, e) ↦
      let q = queue_thief-Queued ranks cyclic i s e in
      let room = queue_thief-room ranks cyclic i s e in
      let w = Queued-waiting ranks cyclic i v room q in
      inr (
        t,
        e,
        w,
        record {
          ordered = omega (arith, v.ordered, q.head, q.tail);
          fits = omega (arith, v.ordered, v.fits, q.head, q.tail);
          flag =
              q.flag
              ∙ sym (lt→ltb t.head_next t.tail_next (omega (arith, v.ordered, q.head, q.tail)));
          ranked = rw w (AllRanks-snoc ranks i (waiting ranks s) h v.ranked);
        },
        q.marks,
      )
]
