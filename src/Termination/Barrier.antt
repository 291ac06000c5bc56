-- ===== src/Termination/Barrier.antt =====
-- src/hcupc_spmd.cpp, the cancellable barrier: cb_count is the number of places inside, and once a
-- place has seen TERM nobody leaves.
use habanero_upc.Prelude.{ℕ, ◌+◌, ◌≤◌, ◌<◌, ◌≡◌, ◌∙◌, arith, update}
use habanero_upc.Prelude.Counting.{total, total-update, total-full, total-single}
use habanero_upc.Termination.{
  System, Pc, working, sending, scanning, counted, polling, terminated, Step, work, count, send,
  receive, settle, no_local, scan_zero, scan_some, cbarrier_inc, inc_term, inc_no_term,
  cbarrier_dec, cbarrier_test,
}

-- Counted in cb_count.
abbrev pub inside : Pc → ℕ
inside counted = 1
inside polling = 1
inside terminated = 1
inside _ = 0

inside-le : (p : Pc) → inside p ≤ 1
inside-le p = ground arith

pub record IsBarrier (n c : ℕ) (pc : ℕ → Pc) : Type 0 where
  pub count_inside : total inside n pc ≡ c
  pub all_in : (i : ℕ) → i < n → pc i ≡ terminated → c ≡ n

-- When a place has seen TERM, every place is inside.
pub inside-all :
    {n c : ℕ} {pc : ℕ → Pc} → IsBarrier n c pc → c ≡ n → (i : ℕ) → i < n → inside (pc i) ≡ 1
inside-all {n} {c} {pc} v e i lt = total-full inside inside-le n pc i lt (v.count_inside ∙ e)

-- A place moves; its part in the count, and no other, changes with it.
moved-IsBarrier :
    {n c c' : ℕ} {pc : ℕ → Pc} (i : ℕ) (p : Pc)
    → i < n
    → IsBarrier n c pc
    → c' + inside (pc i) ≡ c + inside p
    → (p ≡ terminated → c' ≡ n)
    → (c ≡ n → c' ≡ n)
    → IsBarrier n c' (update pc i p)
moved-IsBarrier {n} {c} {c'} {pc} i p lt v e seen stay = record {
  count_inside = omega (arith, total-update inside n pc i p lt, v.count_inside);
  all_in = λ j h q. ground (arith, v.all_in j h);
}

pub Step-IsBarrier :
    {n : ℕ} {s t : System} → Step n s t → IsBarrier n s.cb_count s.pc → IsBarrier n t.cb_count t.pc
Step-IsBarrier (work i k lt h) v = v
Step-IsBarrier (receive i j lt lj q h) v = v
Step-IsBarrier (settle i j lt lj q) v = v
Step-IsBarrier (count i j lt lj q h) v =
    moved-IsBarrier i (sending j) lt v (ground arith) (λ p. cc) (λ e. e)
Step-IsBarrier (send i j lt lj q) v =
    moved-IsBarrier i working lt v (ground arith) (λ p. cc) (λ e. e)
Step-IsBarrier (no_local i lt q h) v =
    moved-IsBarrier i (scanning 0) lt v (ground arith) (λ p. cc) (λ e. e)
Step-IsBarrier (scan_zero i k lt q lk h) v =
    moved-IsBarrier i (scanning (k + 1)) lt v (ground arith) (λ p. cc) (λ e. e)
Step-IsBarrier (scan_some i k lt q lk h) v =
    moved-IsBarrier i working lt v (ground arith) (λ p. cc) (λ e. e)
Step-IsBarrier (cbarrier_inc i lt q) v =
    moved-IsBarrier i counted lt v (ground arith) (λ p. cc)
      (λ e. absurd (ground (arith, inside-all v e i lt)))
Step-IsBarrier (inc_term i lt q e) v =
    moved-IsBarrier i terminated lt v (ground arith) (λ p. e) (λ e'. e')
Step-IsBarrier (inc_no_term i lt q h) v =
    moved-IsBarrier i polling lt v (ground arith) (λ p. cc) (λ e. e)
Step-IsBarrier {n} {s} (cbarrier_dec i lt q h) v =
    moved-IsBarrier i working lt v (ground (arith, some_inside)) (λ p. cc)
      (λ e. absurd (omega arith))
  where
    some_inside : inside (s.pc i) ≤ s.cb_count
    some_inside = omega (arith, total-single inside n s.pc i lt, v.count_inside)
Step-IsBarrier (cbarrier_test i lt q e) v =
    moved-IsBarrier i terminated lt v (ground arith) (λ p. e) (λ e'. e')
