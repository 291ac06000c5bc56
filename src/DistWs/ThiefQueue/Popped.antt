-- ===== src/DistWs/ThiefQueue/Popped.antt =====
-- src/hcupc_spmd_distWS_common.cpp: pop_thief takes the oldest thief.
use habanero_upc.Prelude.{
  ℕ, ◌+◌, ◌-◌, ◌%◌, ◌<◌, ◌≡◌, refl, true, false, Option, none, some, List, [], ◌∷◌, arith, ◌==◌,
  if◌then◌else◌, length, dec_lt, ℕ_discrete,
}
use habanero_upc.Prelude.Ring.{window, length-window, window-pos}
use habanero_upc.DistWs.ThiefQueue.{Thieves, pop_thief}
use habanero_upc.DistWs.ThiefQueue.Fifo.{AllRanks, waiting, IsValid}

abbrev pub dequeue : List (Option ℕ) → Option ℕ × List (Option ℕ)
dequeue [] = (none, [])
dequeue (p ∷ q) = (p, q)

-- The statement below, for a given state.
abbrev Pops : ℕ → Thieves → Type 0
Pops ranks s =
    (p : Option ℕ) × (t : Thieves) × (pop_thief ranks s ≡ some (p, t))
    × ((p, waiting ranks t) ≡ dequeue (waiting ranks s))
    × IsValid ranks t

pop-empty : (ranks : ℕ) (s : Thieves) → IsValid ranks s → s.head_next ≡ s.tail_next → Pops ranks s
unfolding pop_thief
pop-empty ranks s v e = (
  none,
  record s { head_next = 0; tail_next = 0 },
  ground (arith, v.flag),
  rw nothing,
  record { ordered = omega arith; fits = omega arith; flag = ground (arith, v.flag); ranked = tt },
)
  where
    nothing : s.tail_next - s.head_next ≡ 0
    nothing = omega arith

pop_thief-step :
    (ranks : ℕ) (s : Thieves) (k : ℕ)
    → s.head_next < s.tail_next
    → s.queued_thieves (s.head_next % ranks) ≡ some k
    → k < ranks
    → let last : Thieves = record s { head_next = 0; tail_next = 0; thieves_waiting = false } in
      let more : Thieves = record s { head_next = s.head_next + 1 } in
      pop_thief ranks s ≡ some (some k, if s.head_next + 1 == s.tail_next then last else more)
unfolding pop_thief
pop_thief-step ranks s k lt e h = ground arith

pop-first :
    (ranks : ℕ) (s : Thieves)
    → IsValid ranks s
    → s.head_next < s.tail_next
    → (o : Option ℕ) → s.queued_thieves (s.head_next % ranks) ≡ o
    → waiting ranks s
      ≡ s.queued_thieves (s.head_next % ranks)
        ∷ window ranks s.queued_thieves (s.head_next + 1) (s.tail_next - s.head_next - 1)
    → Pops ranks s
pop-first ranks s v lt none e w = absurd (rw (w, e) at v.ranked)
pop-first ranks s v lt (some k) e w =
    let all : AllRanks ranks
        (some k ∷ window ranks s.queued_thieves (s.head_next + 1) (s.tail_next - s.head_next - 1)) =
      rw (w, e) at v.ranked in
    elim (ℕ_discrete (s.head_next + 1) s.tail_next) [
      | yes last ↦ (
        some k,
        record s { head_next = 0; tail_next = 0; thieves_waiting = false },
        ground (arith, pop_thief-step ranks s k lt e all.0),
        let gone : s.tail_next - s.head_next - 1 ≡ 0 = omega arith in rw (w, e, gone) refl,
        record { ordered = omega arith; fits = omega arith; flag = refl; ranked = tt },
      )
      | no more ↦
          let fewer : s.tail_next - (s.head_next + 1) ≡ s.tail_next - s.head_next - 1 =
            omega arith in
          (
            some k,
            record s { head_next = s.head_next + 1 },
            ground (arith, pop_thief-step ranks s k lt e all.0),
            rw (w, e, fewer) refl,
            record {
              ordered = omega arith;
              fits = omega (arith, v.fits);
              flag = ground (arith, v.flag);
              ranked = rw fewer all.1;
            },
          )
    ]

-- pop_thief never fails on a valid queue: it returns -1 (here `none`) from an empty one and the first
-- thief from any other, and leaves the rest, a valid queue.
pub pop_thief_refines :
    (ranks : ℕ) (s : Thieves)
    → IsValid ranks s
    → (p : Option ℕ) × (t : Thieves) × (pop_thief ranks s ≡ some (p, t))
      × ((p, waiting ranks t) ≡ dequeue (waiting ranks s))
      × IsValid ranks t
pop_thief_refines ranks s v = elim (dec_lt s.head_next s.tail_next) [
  | no all_served ↦ pop-empty ranks s v (omega (arith, v.ordered))
  | yes some_wait ↦
      pop-first ranks s v some_wait (s.queued_thieves (s.head_next % ranks)) refl
        (window-pos ranks s.queued_thieves s.head_next (s.tail_next - s.head_next) (omega arith))
]

AllRanks-some :
    (ranks : ℕ) (p : Option ℕ) (q l r : List (Option ℕ))
    → AllRanks ranks l
    → 0 < length l
    → (p, r) ≡ dequeue l
    → (i : ℕ) × (p ≡ some i) × (l ≡ some i ∷ r)
AllRanks-some ranks p q [] r a h e = absurd (omega arith)
AllRanks-some ranks p q (none ∷ l) r a h e = absurd a
AllRanks-some ranks p q (some i ∷ l) r a h e = (i, cc, cc)

-- When thieves wait, the first is taken.
pub pop_thief-waiting :
    (ranks : ℕ) (s : Thieves)
    → IsValid ranks s
    → s.thieves_waiting ≡ true
    → (i : ℕ) × (t : Thieves) × (pop_thief ranks s ≡ some (some i, t))
      × IsValid ranks t
      × (waiting ranks s ≡ some i ∷ waiting ranks t)
pop_thief-waiting ranks s v w =
    let (p, t, e, first, valid) = pop_thief_refines ranks s v in
    let long : 0 < length (waiting ranks s) =
      rw (length-window ranks s.queued_thieves s.head_next (s.tail_next - s.head_next))
        (ground (arith, v.flag, w)) in
    let (i, is_i, split) =
      AllRanks-some ranks p [] (waiting ranks s) (waiting ranks t) v.ranked long first in
    (i, t, rw (e, is_i) refl, valid, split)
