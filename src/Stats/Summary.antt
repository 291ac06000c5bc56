-- ===== src/Stats/Summary.antt =====
-- src/hcupc_spmd_stats.cpp: runtime_statistics, which gathers the counters of all places in shared
-- arrays and sums them up at place 0.
pub mod Printed
pub mod Accounts
mod Tests
use habanero_upc.Prelude.{
  ℕ, zero, suc, ◌+◌, ◌<◌, ◌≡◌, ◌≢◌, refl, sym, ap, ◌∙◌, List, [], ◌∷◌, arith, count, update,
  ℕ_discrete,
}
use habanero_upc.Prelude.Counting.{total, total-same}
use habanero_upc.Stats.{
  Stats, Totals, Searches, no_totals, no_searches, max_timesteps, get_total_async_any_stats,
  get_steal_stats,
}

-- What one place reports, and what place 0 prints.
pub record Report : Type 0 where
  pub totals : Totals
  pub searches : Searches

-- The counters of all places, and the shared arrays tasks_sendto_remotePlace to total_steal_4P, the
-- entries of one place in one record.
pub record Gathering : Type 0 where
  pub stats : ℕ → Stats
  pub reports : ℕ → Report

-- Place `i` up to the barrier.
unfoldable pub gather_place : ℕ → Gathering → Gathering
unfolding get_total_async_any_stats get_steal_stats
gather_place i g =
    let (totals, s1) = get_total_async_any_stats (g.stats i) in
    let (searches, s2) = get_steal_stats s1 in
    record {
      stats = update g.stats i s2;
      reports = update g.reports i (record { totals = totals; searches = searches });
    }

-- The places in the order in which they get there.
unfoldable pub gather_places : List ℕ → Gathering → Gathering
unfolding gather_place
gather_places [] g = g
gather_places (i ∷ is) g = gather_places is (gather_place i g)

abbrev add_totals : Totals → Totals → Totals
add_totals a b = record {
  success_synchronous_steals = a.success_synchronous_steals + b.success_synchronous_steals;
  success_asynchronous_steals = a.success_asynchronous_steals + b.success_asynchronous_steals;
  tasks_stolen = a.tasks_stolen + b.tasks_stolen;
  failed_steals = a.failed_steals + b.failed_steals;
  received_steal_requests_when_idle =
      a.received_steal_requests_when_idle + b.received_steal_requests_when_idle;
  cyclic_steals = a.cyclic_steals + b.cyclic_steals;
  asyncany_rdma_probes = a.asyncany_rdma_probes + b.asyncany_rdma_probes;
}

abbrev add_searches : Searches → Searches → Searches
add_searches a b = record {
  steal_1 = a.steal_1 + b.steal_1;
  steal_2 = a.steal_2 + b.steal_2;
  steal_3 = a.steal_3 + b.steal_3;
  steal_4 = a.steal_4 + b.steal_4;
  steal_4_plus = a.steal_4_plus + b.steal_4_plus;
}

-- The loop of place 0 over the places `0 … n - 1`.
unfoldable pub sum_reports : ℕ → (ℕ → Report) → Report
sum_reports zero reports = record { totals = no_totals; searches = no_searches }
sum_reports (suc n) reports =
    let t = sum_reports n reports in
    record {
      totals = add_totals t.totals (reports n).totals;
      searches = add_searches t.searches (reports n).searches;
    }

-- The sums that place 0 prints, where the places come in the order `order`.
unfoldable pub runtime_statistics : ℕ → List ℕ → Gathering → Report
unfolding gather_places sum_reports
runtime_statistics ranks order g = sum_reports ranks (gather_places order g).reports

-- The columns that are printed.
pub data Column : Type 0 where
  total_tasks_send_to_remote total_success_async_dist_steals total_success_sync_dist_steals : Column
  total_failed_dist_steals total_incoming_steal_reqs_when_idle total_cyclic_steals : Column
  total_rdma_async_any_probes : Column
  column_s1 column_s2 column_s3 column_s4 column_s4_plus : Column

abbrev pub read : Column → Report → ℕ
read total_tasks_send_to_remote r = r.totals.tasks_stolen
read total_success_async_dist_steals r = r.totals.success_asynchronous_steals
read total_success_sync_dist_steals r = r.totals.success_synchronous_steals
read total_failed_dist_steals r = r.totals.failed_steals
read total_incoming_steal_reqs_when_idle r = r.totals.received_steal_requests_when_idle
read total_cyclic_steals r = r.totals.cyclic_steals
read total_rdma_async_any_probes r = r.totals.asyncany_rdma_probes
read column_s1 r = r.searches.steal_1
read column_s2 r = r.searches.steal_2
read column_s3 r = r.searches.steal_3
read column_s4 r = r.searches.steal_4
read column_s4_plus r = r.searches.steal_4_plus

abbrev pub report_of : Stats → Report
report_of s = record { totals = s.totals; searches = s.searches }

-- showStats_failedSteals_timeline: upcxx::reduce adds up the timelines of the places step by step,
-- and place 0 adds up the steps. It prints the percentage of each step in that sum.
unfoldable reduced_timeline : ℕ → (ℕ → Stats) → ℕ → ℕ
reduced_timeline ranks stats step = total (λ s. s.fail_steals_timeline step) ranks stats

unfoldable pub sum_total_failed_steals : ℕ → (ℕ → Stats) → ℕ
unfolding reduced_timeline
sum_total_failed_steals ranks stats = total (λ k. k) max_timesteps (reduced_timeline ranks stats)
