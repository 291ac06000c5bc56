-- ===== src/Termination/Tests.antt =====
-- Termination detection at two places, with one task that goes from the first to the second.
use habanero_upc.Prelude.{ℕ, ◌<◌, ◌≡◌, ◌≢◌, refl, arith, if◌then◌else◌, ◌==◌, ℕ_discrete}
use habanero_upc.Termination.{
  System, terminated, goes, Step, work, count, send, receive, settle, no_local, scan_zero,
  scan_some, cbarrier_inc, inc_term, inc_no_term, cbarrier_test, init, Steps, here, next,
}
use habanero_upc.Prelude.Counting.{total}
use habanero_upc.Termination.Safety.{IsFinished, termination_safe}
use habanero_upc.Termination.Baseline.{
  BaselineSteps, baseline_here, baseline_next, baseline_never_ends,
}
use habanero_upc.Termination.Ending.{has_ended, termination_completes}

-- Place 0 starts with one task.
abbrev one_task : ℕ → ℕ
one_task i = if i == 0 then 1 else 0

infixl 3 ◌also◌
abbrev ◌also◌ : {n : ℕ} {s t u : System} → Steps n s t → Step n t u → Steps n s u
r also st = next r st

-- Place 0 sends its task and enters the barrier after place 1 has settled it.
unfoldable run : (s : System) × Steps 2 (init one_task) s × (s.pc 1 ≡ terminated)
unfolding init ℕ_discrete
run = (
  _,
  here
      also count 0 1 (omega arith) (omega arith) refl (omega arith)
      also send 0 1 (omega arith) (omega arith) refl
      also work 0 0 (omega arith) (omega arith)
      also no_local 1 (omega arith) refl refl
      also scan_some 1 0 (omega arith) refl (omega arith) (omega arith)
      also receive 1 0 (omega arith) (omega arith) refl (omega arith)
      also work 1 0 (omega arith) (omega arith)
      also settle 1 0 (omega arith) (omega arith) refl
      also no_local 0 (omega arith) refl refl
      also scan_zero 0 0 (omega arith) refl (omega arith) refl
      also scan_zero 0 1 (omega arith) refl (omega arith) refl
      also cbarrier_inc 0 (omega arith) refl
      also inc_no_term 0 (omega arith) refl (omega arith)
      also no_local 1 (omega arith) refl refl
      also scan_zero 1 0 (omega arith) refl (omega arith) refl
      also scan_zero 1 1 (omega arith) refl (omega arith) refl
      also cbarrier_inc 1 (omega arith) refl
      also inc_term 1 (omega arith) refl refl,
  refl,
)

termination_safe_example : IsFinished 2 run.0 0
termination_safe_example = termination_safe one_task 1 run.1 (omega arith) run.2 0 (omega arith)

-- The next step of place 0 ends its loop too.
ending : Step 2 run.0 (goes run.0 0 terminated)
unfolding init ℕ_discrete run
ending = cbarrier_test 0 (omega arith) refl refl

termination_completes_example : (t : System) × Steps 2 run.0 t × (total has_ended 2 t.pc ≡ 2)
termination_completes_example = termination_completes one_task 1 run.1 (omega arith) run.2

-- Place 0 has counted its task, and in the baseline mode the task goes to place 1 and runs there.
unfoldable task_counted : (s : System) × Steps 2 (init one_task) s × (0 < s.asyncs_in_flight 0)
unfolding init ℕ_discrete
task_counted =
    (_, next here (count 0 1 (omega arith) (omega arith) refl (omega arith)), omega arith)

unfoldable task_arrived : (t : System) × BaselineSteps 2 task_counted.0 t
unfolding task_counted init ℕ_discrete
task_arrived = (
  _,
  baseline_next
      (baseline_next (baseline_next baseline_here (send 0 1 (omega arith) (omega arith) refl) refl)
        (receive 1 0 (omega arith) (omega arith) refl (omega arith)) refl)
      (work 1 0 (omega arith) (omega arith)) refl,
)

baseline_never_ends_example : task_arrived.0.pc 1 ≢ terminated
baseline_never_ends_example =
    baseline_never_ends one_task 0 1 task_counted.1 (omega arith) (omega arith) task_counted.2
      task_arrived.1
