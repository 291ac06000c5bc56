-- ===== src/Stats/Summary/Accounts.antt =====
-- src/hcupc_spmd_stats.cpp: the statistics that place 0 prints account for the calls at all places.
use habanero_upc.Prelude.{ℕ, zero, suc, ◌+◌, ◌<◌, ◌≡◌, refl, ◌∙◌, List, arith, count}
use habanero_upc.Prelude.Counting.{total, total-swap}
use habanero_upc.Stats.{Stats, max_timesteps, stats_init_timeline_events}
use habanero_upc.Stats.Reports.{
  Call, after_calls, failures, timed, contacts, timeline_sum, searches_sum, calls_accounted,
}
use habanero_upc.Stats.Summary.{
  Gathering, runtime_statistics, read, sum_total_failed_steals, total_failed_dist_steals, column_s1,
  column_s2, column_s3, column_s4, column_s4_plus,
}
use habanero_upc.Stats.Summary.Printed.{runtime_statistics_columns}

-- Two weights that agree at each entry.
total-agree {ℓ κ} :
    {A : Type ℓ} {B : Type κ} (v : A → ℕ) (w : B → ℕ) (n : ℕ) (xs : ℕ → A) (ys : ℕ → B)
    → ((i : ℕ) → i < n → v (xs i) ≡ w (ys i))
    → total v n xs ≡ total w n ys
unfolding total
total-agree v w zero xs ys h = refl
total-agree v w (suc n) xs ys h =
    omega (arith, h n (omega arith), total-agree v w n xs ys (λ i k. h i (omega arith)))

timeline-empty : timeline_sum stats_init_timeline_events ≡ 0
unfolding total
timeline-empty = refl

place_account :
    (s : Stats) (cs : List Call)
    → s ≡ after_calls cs stats_init_timeline_events
    → (timeline_sum s ≡ timed cs)
      × (s.totals.failed_steals ≡ failures cs)
      × (searches_sum s.searches ≡ contacts cs)
place_account s cs e =
    rw e (omega (arith, calls_accounted cs stats_init_timeline_events, timeline-empty))

searches-split :
    (n : ℕ) (stats : ℕ → Stats)
    → total (λ s. s.searches.steal_1) n stats
        + total (λ s. s.searches.steal_2) n stats
        + total (λ s. s.searches.steal_3) n stats
        + total (λ s. s.searches.steal_4) n stats
        + total (λ s. s.searches.steal_4_plus) n stats
      ≡ total (λ s. searches_sum s.searches) n stats
unfolding total
searches-split zero stats = refl
searches-split (suc n) stats = omega (arith, searches-split n stats)

module _ (ranks : ℕ) (order : List ℕ) (g : Gathering) (calls : ℕ → List Call) where
  -- If each place has made its own calls since the start and each place reports once, then the printed
  -- number of failed steals is the number of calls of record_failedSteal_timeline at all places;
  -- sum_total_failed_steals, the sum that the printed percentages of the timeline are taken of, is the
  -- number of those calls with HCPP_APP_EXEC_TIME set; and the printed columns S1 to S4Plus add up
  -- to the number of searches at all places that have contacted a victim.
  pub statistics_account :
      ((i : ℕ) → i < ranks → count i order ≡ 1)
      → ((i : ℕ) → i < ranks → g.stats i ≡ after_calls (calls i) stats_init_timeline_events)
      → let printed = runtime_statistics ranks order g in
        (read total_failed_dist_steals printed ≡ total failures ranks calls)
        × (sum_total_failed_steals ranks g.stats ≡ total timed ranks calls)
        × (read column_s1 printed
              + read column_s2 printed
              + read column_s3 printed
              + read column_s4 printed
              + read column_s4_plus printed
            ≡ total contacts ranks calls)
  unfolding sum_total_failed_steals
  statistics_account once start = (
    runtime_statistics_columns ranks order g total_failed_dist_steals once
        ∙ total-agree (λ s. s.totals.failed_steals) failures ranks g.stats calls
            (λ i h. (place_account (g.stats i) (calls i) (start i h)).1),
    total-swap max_timesteps ranks (λ s. s.fail_steals_timeline) g.stats
        ∙ total-agree timeline_sum timed ranks g.stats calls
            (λ i h. (place_account (g.stats i) (calls i) (start i h)).0),
    omega (
      arith,
      runtime_statistics_columns ranks order g column_s1 once,
      runtime_statistics_columns ranks order g column_s2 once,
      runtime_statistics_columns ranks order g column_s3 once,
      runtime_statistics_columns ranks order g column_s4 once,
      runtime_statistics_columns ranks order g column_s4_plus once,
      searches-split ranks g.stats,
      total-agree (λ s. searches_sum s.searches) contacts ranks g.stats calls
          (λ i h. (place_account (g.stats i) (calls i) (start i h)).2),
    ),
  )
