-- ===== src/Stats/Summary/Tests.antt =====
-- The statistics of two places, where place 1 is the first to report.
use habanero_upc.Prelude.{
  ℕ, some, ◌+◌, ◌<◌, ◌≡◌, refl, List, [], ◌∷◌, arith, count, ltb, ◌==◌, if◌then◌else◌, ℕ_discrete,
}
use habanero_upc.Prelude.Counting.{total}
use habanero_upc.Stats.{stats_init_timeline_events}
use habanero_upc.Stats.Reports.{
  Call, failed_steal, search, outgoing_task, after_call, after_calls, failures, timed, contacts,
}
use habanero_upc.Stats.Summary.{
  Gathering, runtime_statistics, read, report_of, sum_total_failed_steals,
  total_tasks_send_to_remote, total_failed_dist_steals, column_s1, column_s2, column_s3, column_s4,
  column_s4_plus,
}
use habanero_upc.Stats.Summary.Accounts.{statistics_account}

abbrev calls : ℕ → List Call
calls i =
    if i == 0
    then failed_steal (some (ltb 2)) ∷ search 2 ∷ []
    else outgoing_task ∷ failed_steal (some (ltb 7)) ∷ search 6 ∷ outgoing_task ∷ []

abbrev two_places : Gathering
two_places = record {
  stats = λ i. after_calls (calls i) stats_init_timeline_events;
  reports = λ i. report_of stats_init_timeline_events;
}

abbrev order : List ℕ
order = 1 ∷ 0 ∷ []

once : (i : ℕ) → i < 2 → count i order ≡ 1
once i h = ground (arith, h)

columns_run : read total_tasks_send_to_remote (runtime_statistics 2 order two_places) ≡ 2
unfolding runtime_statistics ℕ_discrete after_call
columns_run = refl

statistics_account_example :
    let printed = runtime_statistics 2 order two_places in
    (read total_failed_dist_steals printed ≡ total failures 2 calls)
    × (sum_total_failed_steals 2 two_places.stats ≡ total timed 2 calls)
    × (read column_s1 printed
          + read column_s2 printed
          + read column_s3 printed
          + read column_s4 printed
          + read column_s4_plus printed
        ≡ total contacts 2 calls)
statistics_account_example = statistics_account 2 order two_places calls once (λ i h. refl)
