-- ===== src/Termination/Ending.antt =====
-- src/hcupc_spmd.cpp, hcpp_finish_barrier: how the loops of the other places end.
use habanero_upc.Prelude.{ℕ, zero, suc, ◌≤◌, ◌<◌, ◌≡◌, ◌⊎◌, inl, inr, refl, arith}
use habanero_upc.Prelude.Counting.{total, total-all}
use habanero_upc.Termination.{
  System, Pc, working, sending, scanning, counted, polling, terminated, goes, Step, work, count,
  send, receive, settle, no_local, scan_zero, scan_some, cbarrier_inc, inc_term, inc_no_term,
  cbarrier_dec, cbarrier_test, init, Steps, here, next,
}
use habanero_upc.Termination.Safety.{Inv, init-Inv, Steps-Inv, finished}

abbrev pub has_ended : Pc → ℕ
has_ended terminated = 1
has_ended _ = 0

stays :
    {n : ℕ} {s : System}
    → Inv n s
    → s.cb_count ≡ n
    → {t : System} → Step n s t
    → (j : ℕ) → j < n
    → ((t.pc j ≡ s.pc j) × (t.pending j ≡ s.pending j)) ⊎ (t.pc j ≡ terminated)
stays v e (work i k lt h) j l = absurd (omega (arith, (finished v e i lt).no_pending))
stays v e (count i k lt lk q h) j l = absurd (omega (arith, (finished v e i lt).no_pending))
stays v e (send i k lt lk q) j l = absurd (ground (arith, (finished v e i lt).in_barrier))
stays v e (receive i k lt lk q h) j l = absurd (omega (arith, (finished v e k lk).no_moving i lt))
stays v e (settle i k lt lk q) j l = absurd (ground (arith, (finished v e i lt).in_barrier))
stays v e (no_local i lt q h) j l = absurd (ground (arith, (finished v e i lt).in_barrier))
stays v e (scan_zero i k lt q lk h) j l = absurd (ground (arith, (finished v e i lt).in_barrier))
stays v e (scan_some i k lt q lk h) j l = absurd (ground (arith, (finished v e i lt).in_barrier))
stays v e (cbarrier_inc i lt q) j l = absurd (ground (arith, (finished v e i lt).in_barrier))
stays v e (inc_term i lt q h) j l = ground arith
stays v e (inc_no_term i lt q h) j l = absurd (h e)
stays v e (cbarrier_dec i lt q h) j l = absurd (omega arith)
stays v e (cbarrier_test i lt q h) j l = ground arith

-- Once the loop of one place has ended with TERM, a step at any place brings one more place to the
-- end of its loop and does nothing else: every place stands where it stood, with as many local tasks,
-- or has ended its loop.
termination_final :
    {n : ℕ} {s t : System} (pending : ℕ → ℕ) (i : ℕ)
    → Steps n (init pending) s
    → i < n
    → s.pc i ≡ terminated
    → Step n s t
    → (j : ℕ) → j < n
    → ((t.pc j ≡ s.pc j) × (t.pending j ≡ s.pending j)) ⊎ (t.pc j ≡ terminated)
termination_final {n} pending i r lt q st =
    let v = Steps-Inv (init-Inv n pending) r in stays v (v.barrier.all_in i lt q) st

-- A place in the full barrier has ended its loop or has a step that ends it.
next_end :
    {n : ℕ} {s : System}
    → Inv n s
    → s.cb_count ≡ n
    → (j : ℕ) → j < n
    → (s.pc j ≡ terminated) ⊎ Step n s (goes s j terminated)
next_end {n} {s} v full j l = go (s.pc j) refl
  where
    go : (p : Pc) → s.pc j ≡ p → (s.pc j ≡ terminated) ⊎ Step n s (goes s j terminated)
    go counted e = inr (inc_term j l e full)
    go polling e = inr (cbarrier_test j l e full)
    go terminated e = inl e
    go working e = absurd (ground (arith, (finished v full j l).in_barrier))
    go (sending k) e = absurd (ground (arith, (finished v full j l).in_barrier))
    go (scanning k) e = absurd (ground (arith, (finished v full j l).in_barrier))

-- The first `k` places have ended their loops.
record Ended (n : ℕ) (s t : System) (k : ℕ) : Type 0 where
  run : Steps n s t
  sound : Inv n t
  full : t.cb_count ≡ n
  ended : (j : ℕ) → j < k → t.pc j ≡ terminated

all_end :
    {n : ℕ} {s : System} → Inv n s → s.cb_count ≡ n → (k : ℕ) → k ≤ n → (t : System) × Ended n s t k
all_end {n} {s} v e zero h =
    (s, record { run = here; sound = v; full = e; ended = λ j l. absurd (omega arith) })
all_end {n} {s} v e (suc k) h =
    let (t, a) = all_end v e k (omega arith) in
    elim (next_end a.sound a.full k (omega arith)) [
      | inl q ↦ (
        t,
        record {
          run = a.run;
          sound = a.sound;
          full = a.full;
          ended = λ j l. ground (arith, a.ended j);
        },
      )
      | inr st ↦ (
        goes t k terminated,
        record {
          run = next a.run st;
          sound = Steps-Inv a.sound (next here st);
          full = a.full;
          ended = λ j l. ground (arith, a.ended j);
        },
      )
    ]

-- Once the loop of one place has ended, there is a continuation in which the loops of all places
-- have ended.
pub termination_completes :
    {n : ℕ} {s : System} (pending : ℕ → ℕ) (i : ℕ)
    → Steps n (init pending) s
    → i < n
    → s.pc i ≡ terminated
    → (t : System) × Steps n s t × (total has_ended n t.pc ≡ n)
termination_completes {n} pending i r lt q =
    let v = Steps-Inv (init-Inv n pending) r in
    let (t, a) = all_end v (v.barrier.all_in i lt q) n (omega arith) in
    (t, a.run, total-all has_ended n t.pc (λ j l. ground (arith, a.ended j l)))
