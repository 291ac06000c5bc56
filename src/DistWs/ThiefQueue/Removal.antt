-- ===== src/DistWs/ThiefQueue/Removal.antt =====
-- src/hcupc_spmd_distWS_common.cpp, mark_victimContacted: the copy of the queue without one thief.
use mathlib.Core.List.{append-nil, append_assoc}
use native.Mathlib.Nat.{mod-eq_of_lt}
use native.Mathlib.Numerals.{add-one}
use habanero_upc.Prelude.{
  ℕ, zero, suc, ◌+◌, ◌-◌, ◌%◌, ◌≤◌, ◌<◌, ◌≡◌, refl, sym, ap, ◌∙◌, Bool, false, ◌||◌, Option, none,
  some, List, [], ◌∷◌, ◌++◌, arith, ltb, if◌then◌else◌, length,
}
use habanero_upc.Prelude.Ring.{window, window-update, window-same}
use habanero_upc.DistWs.ThiefQueue.{Thieves, is_rank, is_in_queue, copy_others, Copies, copy_other}
use habanero_upc.DistWs.ThiefQueue.Fifo.{AllRanks, waiting, IsValid}

abbrev pub contains : ℕ → List (Option ℕ) → Bool
contains v [] = false
contains v (x ∷ q) = is_rank v x || contains v q

-- The other thieves, in order.
abbrev pub without : ℕ → List (Option ℕ) → List (Option ℕ)
without v [] = []
without v (x ∷ q) = if is_rank v x then without v q else x ∷ without v q

pub without-not_contains : (v : ℕ) (q : List (Option ℕ)) → contains v q ≡ false → without v q ≡ q
without-not_contains v [] e = refl
without-not_contains v (x ∷ q) e = ground (arith, without-not_contains v q)

length-without-le : (v : ℕ) (q : List (Option ℕ)) → length (without v q) ≤ length q
length-without-le v [] = omega arith
length-without-le v (x ∷ q) = ground (arith, length-without-le v q)

pub AllRanks-without :
    (ranks v : ℕ) (q : List (Option ℕ)) → AllRanks ranks q → AllRanks ranks (without v q)
AllRanks-without ranks v [] a = a
AllRanks-without ranks v (none ∷ q) a = absurd a
AllRanks-without ranks v (some p ∷ q) a = ground (arith, AllRanks-without ranks v q a.1)

pub is_in_queue-contains :
    (ranks v : ℕ) (queue : ℕ → Option ℕ) (h n : ℕ)
    → is_in_queue ranks v queue h n ≡ contains v (window ranks queue h n)
unfolding is_in_queue
is_in_queue-contains ranks v queue h zero = refl
is_in_queue-contains ranks v queue h (suc n) =
    ap (◌||◌ (is_rank v (queue (h % ranks)))) (is_in_queue-contains ranks v queue (h + 1) n)

without-cons :
    (v : ℕ) (x : Option ℕ) (q : List (Option ℕ))
    → without v (x ∷ q) ≡ without v (x ∷ []) ++ without v q
without-cons v x q = ground arith

abbrev pub copied : ℕ → Copies → List (Option ℕ)
copied ranks c = window ranks c.queued_thieves_tmp 0 c.index_next

copied-copy_other :
    (ranks v : ℕ) (x : Option ℕ) (c : Copies)
    → c.index_next < ranks
    → (copied ranks (copy_other v x c) ≡ copied ranks c ++ without v (x ∷ []))
      × ((copy_other v x c).index_next ≤ c.index_next + 1)
unfolding copy_other
copied-copy_other ranks v x c room = ground (
  arith,
  append-nil (copied ranks c),
  add-one c.index_next,
  mod-eq_of_lt room,
  window-update ranks c.queued_thieves_tmp 0 c.index_next c.index_next x,
)

-- The loop appends the other thieves to what the temporary array holds.
copied-copy_others :
    (ranks v : ℕ) (queue : ℕ → Option ℕ) (h n : ℕ) (c : Copies)
    → c.index_next + n ≤ ranks
    → (copied ranks (copy_others ranks v queue h n c)
        ≡ copied ranks c ++ without v (window ranks queue h n))
      × ((copy_others ranks v queue h n c).index_next ≤ c.index_next + n)
unfolding copy_others
copied-copy_others ranks v queue h zero c room = (sym (append-nil _), omega arith)
copied-copy_others ranks v queue h (suc n) c room =
    let x = queue (h % ranks) in
    let (w, k) = copied-copy_other ranks v x c (omega arith) in
    let (w', k') = copied-copy_others ranks v queue (h + 1) n (copy_other v x c) (omega arith) in
    (
      w'
          ∙ ap (λ q. q ++ without v (window ranks queue (h + 1) n)) w
          ∙ append_assoc (copied ranks c) (without v (x ∷ []))
              (without v (window ranks queue (h + 1) n))
          ∙ ap (◌++◌ (copied ranks c)) (sym (without-cons v x (window ranks queue (h + 1) n))),
      omega arith,
    )

-- What the loop leaves in the temporary array, started on the whole queue.
abbrev pub gathered : ℕ → ℕ → (ℕ → Option ℕ) → Thieves → Copies
gathered ranks v tmp s =
    copy_others ranks v s.queued_thieves s.head_next (s.tail_next - s.head_next)
      (record { queued_thieves_tmp = tmp; index_next = 0 })

pub gathered-without :
    (ranks v : ℕ) (tmp : ℕ → Option ℕ) (s : Thieves)
    → IsValid ranks s
    → (copied ranks (gathered ranks v tmp s) ≡ without v (waiting ranks s))
      × ((gathered ranks v tmp s).index_next ≤ s.tail_next - s.head_next)
gathered-without ranks v tmp s w =
    let (e, k) =
      copied-copy_others ranks v s.queued_thieves s.head_next (s.tail_next - s.head_next)
        (record { queued_thieves_tmp = tmp; index_next = 0 }) (omega (arith, w.fits)) in
    (e, omega arith)

-- memcpy over the whole array keeps what the window shows.
pub pasted :
    (ranks n : ℕ) (tmp old : ℕ → Option ℕ)
    → 0 < ranks
    → window ranks (λ i. if ltb i ranks then tmp i else old i) 0 n ≡ window ranks tmp 0 n
pasted ranks n tmp old pos =
    window-same ranks (λ i. if ltb i ranks then tmp i else old i) tmp 0 n pos (λ i lt. ground arith)
