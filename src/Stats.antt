-- ===== src/Stats.antt =====
-- src/hcupc_spmd_stats.cpp: the counters of steals of one place and the timeline of failed steals.
pub mod Reports
pub mod Summary
mod Tests
use habanero_upc.Prelude.{
  ℕ, zero, suc, ◌+◌, ◌-◌, Bool, true, false, Option, none, some, List, [], ◌∷◌, update, ◌==◌,
  if◌then◌else◌,
}

abbrev pub max_timesteps : ℕ
max_timesteps = 20

-- total_steal_1 to total_steal_4Plus.
pub record Searches : Type 0 where
  pub steal_1 : ℕ
  pub steal_2 : ℕ
  pub steal_3 : ℕ
  pub steal_4 : ℕ
  pub steal_4_plus : ℕ

-- The counters that get_totalAsyncAny_stats reports.
pub record Totals : Type 0 where
  pub success_synchronous_steals : ℕ
  pub success_asynchronous_steals : ℕ
  pub tasks_stolen : ℕ
  pub failed_steals : ℕ
  pub received_steal_requests_when_idle : ℕ
  pub cyclic_steals : ℕ
  pub asyncany_rdma_probes : ℕ

pub record Stats : Type 0 where
  pub totals : Totals
  pub searches : Searches
  pub fail_steals_timeline : ℕ → ℕ

abbrev pub no_totals : Totals
no_totals = record {
  success_synchronous_steals = 0;
  success_asynchronous_steals = 0;
  tasks_stolen = 0;
  failed_steals = 0;
  received_steal_requests_when_idle = 0;
  cyclic_steals = 0;
  asyncany_rdma_probes = 0;
}

abbrev pub no_searches : Searches
no_searches = record { steal_1 = 0; steal_2 = 0; steal_3 = 0; steal_4 = 0; steal_4_plus = 0 }

-- stats_initTimelineEvents, for the counters.
abbrev pub stats_init_timeline_events : Stats
stats_init_timeline_events = record {
  totals = no_totals;
  searches = no_searches;
  fail_steals_timeline = λ _. 0;
}

-- The loop over the timesteps from `i`, `n` of them: the first whose end lies after now.
unfoldable pub find_timestep : (ℕ → Bool) → ℕ → ℕ → Option ℕ
find_timestep before i zero = none
find_timestep before i (suc n) =
    let rest = find_timestep before (suc i) n in if before i then some i else rest

unfoldable pub timestep_of : (ℕ → Bool) → ℕ
unfolding find_timestep
timestep_of before = elim (find_timestep before 0 max_timesteps) [
  | none ↦ max_timesteps - 1
  | some i ↦ i
]

-- `before i` is the test tDuration < app_timesteps[i]; `none` if HCPP_APP_EXEC_TIME is not set.
unfoldable pub record_failed_steal_timeline : Option (ℕ → Bool) → Stats → Stats
record_failed_steal_timeline none s = record s {
  totals = record s.totals { failed_steals = s.totals.failed_steals + 1 };
}
record_failed_steal_timeline (some before) s = record s {
  totals = record s.totals { failed_steals = s.totals.failed_steals + 1 };
  fail_steals_timeline =
      update s.fail_steals_timeline (timestep_of before)
        (s.fail_steals_timeline (timestep_of before) + 1);
}

unfoldable pub contacted_victims_statistics : ℕ → Searches → Searches
contacted_victims_statistics victims_contacted s =
    if victims_contacted == 0
    then s
    else if victims_contacted == 1
    then record s { steal_1 = s.steal_1 + 1 }
    else if victims_contacted == 2
    then record s { steal_2 = s.steal_2 + 1 }
    else if victims_contacted == 3
    then record s { steal_3 = s.steal_3 + 1 }
    else if victims_contacted == 4
    then record s { steal_4 = s.steal_4 + 1 }
    else record s { steal_4_plus = s.steal_4_plus + 1 }

unfoldable pub success_steals_stats : Bool → Totals → Totals
success_steals_stats true s = record s {
  success_synchronous_steals = s.success_synchronous_steals + 1;
}
success_steals_stats false s = record s {
  success_asynchronous_steals = s.success_asynchronous_steals + 1;
}

unfoldable pub increment_outgoing_tasks : Totals → Totals
increment_outgoing_tasks s = record s { tasks_stolen = s.tasks_stolen + 1 }

unfoldable pub total_asyncany_rdma_probes_stats : Totals → Totals
total_asyncany_rdma_probes_stats s = record s { asyncany_rdma_probes = s.asyncany_rdma_probes + 1 }

-- What is reported, and the counters after it.
unfoldable pub get_total_async_any_stats : Stats → Totals × Stats
get_total_async_any_stats s = (s.totals, record s { totals = no_totals })

unfoldable pub get_steal_stats : Stats → Searches × Stats
get_steal_stats s = (s.searches, record s { searches = no_searches })
