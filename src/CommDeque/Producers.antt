-- ===== src/CommDeque/Producers.antt =====
-- src/hcupc_spmd-semiConcDeque.cpp, with threads: what the lock gives for any number of producers.
use habanero_upc.Prelude.{ℕ, ◌≤◌, ◌<◌, ◌≡◌, refl, arith, dec_lt}
use habanero_upc.Prelude.Counting.{total, total-update, total-pair, total-const}
use habanero_upc.CommDeque.{CommAsyncTask, semi_conc_deque_init}
use habanero_upc.CommDeque.Threads.{
  System, Pc, outside, checking, trying, storing, advancing, unlocking, Step, call, check_full,
  check_room, cas_lose, cas_win, store, advance, unlock, copy, remove, init, Steps, here, next,
}

-- Between a successful hc_cas and `lock = 0`.
abbrev pub holding : Pc → ℕ
holding (storing _) = 1
holding (advancing _) = 1
holding unlocking = 1
holding _ = 0

pub record IsLocked (n : ℕ) (s : System) : Type 0 where
  owners : total holding n s.pc ≡ s.deque.lock
  pub bit : s.deque.lock ≤ 1

Step-IsLocked : {n : ℕ} {s t : System} → Step n s t → IsLocked n s → IsLocked n t
Step-IsLocked {n} {s} (call i e lt q) v = ground (arith, total-update holding n s.pc i (checking e))
Step-IsLocked (check_full i e lt q h) v = record { owners = v.owners; bit = v.bit }
Step-IsLocked {n} {s} (check_room i e lt q h) v =
    ground (arith, total-update holding n s.pc i (trying e))
Step-IsLocked {n} {s} (cas_lose i e lt q h) v =
    ground (arith, total-update holding n s.pc i (checking e))
Step-IsLocked {n} {s} (cas_win i e lt q h) v =
    ground (arith, total-update holding n s.pc i (storing e))
Step-IsLocked {n} {s} (store i e lt q) v =
    ground (arith, total-update holding n s.pc i (advancing e))
Step-IsLocked {n} {s} (advance i e lt q) v = ground (arith, total-update holding n s.pc i unlocking)
Step-IsLocked {n} {s} (unlock i lt q) v = ground (arith, total-update holding n s.pc i outside)
Step-IsLocked (copy q h) v = record { owners = v.owners; bit = v.bit }
Step-IsLocked (remove e q) v = record { owners = v.owners; bit = v.bit }

init-IsLocked : (n : ℕ) (slots : ℕ → CommAsyncTask) → IsLocked n (init slots)
unfolding init semi_conc_deque_init
init-IsLocked n slots = record { owners = total-const holding n outside refl; bit = omega arith }

Steps-IsLocked : {n : ℕ} {s t : System} → IsLocked n s → Steps n s t → IsLocked n t
Steps-IsLocked v here = v
Steps-IsLocked v (next r _ st) = Step-IsLocked st (Steps-IsLocked v r)

owner_unique :
    {n : ℕ} {s : System}
    → IsLocked n s
    → (i j : ℕ) → i < n
    → j < n
    → holding (s.pc i) ≡ 1
    → holding (s.pc j) ≡ 1
    → i ≡ j
owner_unique {n} {s} v i j li lj hi hj = elim (dec_lt i j) [
  | yes p ↦ absurd (omega (arith, total-pair holding n s.pc i j p lj, v.owners, v.bit))
  | no p ↦ elim (dec_lt j i) [
    | yes p' ↦ absurd (omega (arith, total-pair holding n s.pc j i p' li, v.owners, v.bit))
    | no p' ↦ omega arith
  ]
]

-- With any number of producers, two are never between hc_cas and the release of the lock.
producers_exclusive :
    {n : ℕ} {s : System} (slots : ℕ → CommAsyncTask)
    → Steps n (init slots) s
    → (i j : ℕ) → i < n
    → j < n
    → holding (s.pc i) ≡ 1
    → holding (s.pc j) ≡ 1
    → i ≡ j
producers_exclusive {n} slots r = owner_unique (Steps-IsLocked (init-IsLocked n slots) r)
