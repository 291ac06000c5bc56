-- ===== src/Termination/Baseline.antt =====
-- src/hcupc_spmd.cpp, hcpp_finish_barrier with distributed work stealing in its baseline mode: there
-- checkIncomingTasksFromLifelines does nothing, so no round of decrement_tasks_in_flight_count runs.
use habanero_upc.Prelude.{ℕ, ◌<◌, ◌≤◌, ◌≡◌, ◌≢◌, Bool, true, false, arith}
use habanero_upc.Termination.{
  System, terminated, Step, work, count, send, receive, settle, no_local, scan_zero, scan_some,
  cbarrier_inc, inc_term, inc_no_term, cbarrier_dec, cbarrier_test, init, Steps, next,
}
use habanero_upc.Termination.Safety.{termination_safe}

-- The steps that checkIncomingTasksFromLifelines makes.
abbrev is_settling : {n : ℕ} {s t : System} → Step n s t → Bool
is_settling (settle i j _ _ _) = true
is_settling _ = false

pub data BaselineSteps (n : ℕ) (s : System) : System → Type 0 where
  baseline_here : BaselineSteps n s s
  baseline_next :
      {t u : System}
      → BaselineSteps n s t
      → (st : Step n t u) → is_settling st ≡ false
      → BaselineSteps n s u

Steps-append : {n : ℕ} {s t u : System} → Steps n s t → BaselineSteps n t u → Steps n s u
Steps-append r baseline_here = r
Steps-append r (baseline_next q st _) = next (Steps-append r q) st

-- Without settling, no flight counter falls.
Step-keeps :
    {n : ℕ} {s t : System} (i : ℕ) (st : Step n s t)
    → is_settling st ≡ false
    → s.asyncs_in_flight i ≤ t.asyncs_in_flight i
Step-keeps i (settle k j lk lj p) e = cc
Step-keeps i (count k j lk lj p h) e = ground arith
Step-keeps i (work k m lk h) e = omega arith
Step-keeps i (send k j lk lj p) e = omega arith
Step-keeps i (receive k j lk lj p h) e = omega arith
Step-keeps i (no_local k lk p h) e = omega arith
Step-keeps i (scan_zero k m lk p lm h) e = omega arith
Step-keeps i (scan_some k m lk p lm h) e = omega arith
Step-keeps i (cbarrier_inc k lk p) e = omega arith
Step-keeps i (inc_term k lk p h) e = omega arith
Step-keeps i (inc_no_term k lk p h) e = omega arith
Step-keeps i (cbarrier_dec k lk p h) e = omega arith
Step-keeps i (cbarrier_test k lk p h) e = omega arith

BaselineSteps-keeps :
    {n : ℕ} {s t : System} (i : ℕ)
    → BaselineSteps n s t
    → s.asyncs_in_flight i ≤ t.asyncs_in_flight i
BaselineSteps-keeps i baseline_here = omega arith
BaselineSteps-keeps i (baseline_next q st e) =
    omega (arith, BaselineSteps-keeps i q, Step-keeps i st e)

-- In the baseline mode, with no task stolen: once a place has counted a task as in flight, no place
-- ends its loop in any continuation, also if that task has arrived and has run.
pub baseline_never_ends :
    {n : ℕ} {s t : System} (pending : ℕ → ℕ) (i j : ℕ)
    → Steps n (init pending) s
    → i < n
    → j < n
    → 0 < s.asyncs_in_flight i
    → BaselineSteps n s t
    → t.pc j ≢ terminated
baseline_never_ends pending i j r li lj some_out q e =
    let done = termination_safe pending j (Steps-append r q) lj e i li in
    absurd (omega (arith, done.no_in_flight, BaselineSteps-keeps i q))
