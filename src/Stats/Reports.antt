-- ===== src/Stats/Reports.antt =====
-- src/hcupc_spmd_stats.cpp: what a series of calls leaves in the counters and the reports.
use habanero_upc.Prelude.{
  ℕ, zero, suc, ◌+◌, ◌<◌, ◌≡◌, refl, sym, ap, ◌∙◌, Bool, true, false, Option, none, some, List, [],
  ◌∷◌, ◌++◌, arith, ◌==◌, if◌then◌else◌, Option-cases, inl, inr,
}
use habanero_upc.Prelude.Counting.{total, total-update}
use habanero_upc.Stats.{
  max_timesteps, Searches, Totals, Stats, no_totals, find_timestep, timestep_of,
  record_failed_steal_timeline, contacted_victims_statistics, success_steals_stats,
  increment_outgoing_tasks, total_asyncany_rdma_probes_stats, get_total_async_any_stats,
}

-- The calls that the work stealing makes. `before` is `none` if HCPP_APP_EXEC_TIME is not set.
pub data Call : Type 0 where
  failed_steal : (before : Option (ℕ → Bool)) → Call
  search : (victims_contacted : ℕ) → Call
  success_steal : (baseline : Bool) → Call
  outgoing_task : Call
  rdma_probe : Call

-- One call.
unfoldable pub after_call : Call → Stats → Stats
unfolding record_failed_steal_timeline contacted_victims_statistics success_steals_stats
    increment_outgoing_tasks total_asyncany_rdma_probes_stats
after_call (failed_steal before) s = record_failed_steal_timeline before s
after_call (search v) s = record s { searches = contacted_victims_statistics v s.searches }
after_call (success_steal b) s = record s { totals = success_steals_stats b s.totals }
after_call outgoing_task s = record s { totals = increment_outgoing_tasks s.totals }
after_call rdma_probe s = record s { totals = total_asyncany_rdma_probes_stats s.totals }

abbrev pub after_calls : List Call → Stats → Stats
after_calls [] s = s
after_calls (c ∷ cs) s = after_calls cs (after_call c s)

abbrev pub failures : List Call → ℕ
failures [] = 0
failures (failed_steal _ ∷ cs) = suc (failures cs)
failures (search _ ∷ cs) = failures cs
failures (success_steal _ ∷ cs) = failures cs
failures (outgoing_task ∷ cs) = failures cs
failures (rdma_probe ∷ cs) = failures cs

-- The failed steals that are recorded while HCPP_APP_EXEC_TIME is set.
abbrev pub timed : List Call → ℕ
timed [] = 0
timed (failed_steal none ∷ cs) = timed cs
timed (failed_steal (some _) ∷ cs) = suc (timed cs)
timed (search _ ∷ cs) = timed cs
timed (success_steal _ ∷ cs) = timed cs
timed (outgoing_task ∷ cs) = timed cs
timed (rdma_probe ∷ cs) = timed cs

-- The searches that have contacted a victim.
abbrev pub contacts : List Call → ℕ
contacts [] = 0
contacts (failed_steal _ ∷ cs) = contacts cs
contacts (search v ∷ cs) = if v == 0 then contacts cs else suc (contacts cs)
contacts (success_steal _ ∷ cs) = contacts cs
contacts (outgoing_task ∷ cs) = contacts cs
contacts (rdma_probe ∷ cs) = contacts cs

abbrev pub timeline_sum : Stats → ℕ
timeline_sum s = total (λ k. k) max_timesteps s.fail_steals_timeline

abbrev pub searches_sum : Searches → ℕ
searches_sum s = s.steal_1 + s.steal_2 + s.steal_3 + s.steal_4 + s.steal_4_plus

find_timestep-bound :
    (before : ℕ → Bool) (i n k : ℕ) → find_timestep before i n ≡ some k → k < i + n
unfolding find_timestep
find_timestep-bound before i zero k e = cc
find_timestep-bound before i (suc n) k e = ground (arith, find_timestep-bound before (suc i) n k)

timestep_of-bound : (before : ℕ → Bool) → timestep_of before < max_timesteps
unfolding timestep_of
timestep_of-bound before = elim (Option-cases (find_timestep before 0 max_timesteps)) [
  | inl e ↦ ground (arith, e)
  | inr (k, e) ↦ ground (arith, e, find_timestep-bound before 0 max_timesteps k e)
]

-- After any series of calls: the counter of failed steals is the number of calls of
-- record_failedSteal_timeline, the timeline adds up to those of them with HCPP_APP_EXEC_TIME set, and the five counters of searches
-- add up to the searches that have contacted a victim.
pub calls_accounted :
    (cs : List Call) (s : Stats)
    → let t = after_calls cs s in
      (timeline_sum t ≡ timeline_sum s + timed cs)
      × (t.totals.failed_steals ≡ s.totals.failed_steals + failures cs)
      × (searches_sum t.searches ≡ searches_sum s.searches + contacts cs)
unfolding after_call record_failed_steal_timeline contacted_victims_statistics
calls_accounted [] s = omega arith
calls_accounted (failed_steal none ∷ cs) s =
    omega (arith, calls_accounted cs (after_call (failed_steal none) s))
calls_accounted (failed_steal (some before) ∷ cs) s = omega (
  arith,
  calls_accounted cs (after_call (failed_steal (some before)) s),
  total-update (λ k. k) max_timesteps s.fail_steals_timeline (timestep_of before)
      (s.fail_steals_timeline (timestep_of before) + 1) (timestep_of-bound before),
)
calls_accounted (search v ∷ cs) s = ground (arith, calls_accounted cs (after_call (search v) s))
calls_accounted (success_steal b ∷ cs) s =
    ground (arith, calls_accounted cs (after_call (success_steal b) s))
calls_accounted (outgoing_task ∷ cs) s =
    omega (arith, calls_accounted cs (after_call outgoing_task s))
calls_accounted (rdma_probe ∷ cs) s = omega (arith, calls_accounted cs (after_call rdma_probe s))

abbrev plus : Totals → Totals → Totals
plus a b = record {
  success_synchronous_steals = a.success_synchronous_steals + b.success_synchronous_steals;
  success_asynchronous_steals = a.success_asynchronous_steals + b.success_asynchronous_steals;
  tasks_stolen = a.tasks_stolen + b.tasks_stolen;
  failed_steals = a.failed_steals + b.failed_steals;
  received_steal_requests_when_idle =
      a.received_steal_requests_when_idle + b.received_steal_requests_when_idle;
  cyclic_steals = a.cyclic_steals + b.cyclic_steals;
  asyncany_rdma_probes = a.asyncany_rdma_probes + b.asyncany_rdma_probes;
}

plus-none : (a : Totals) → a ≡ plus a no_totals
plus-none a = ground arith

-- A call adds the same to any totals.
call-plus :
    (c : Call) (a : Totals) (s t : Stats)
    → s.totals ≡ plus a t.totals
    → (after_call c s).totals ≡ plus a (after_call c t).totals
unfolding after_call record_failed_steal_timeline contacted_victims_statistics success_steals_stats
    increment_outgoing_tasks total_asyncany_rdma_probes_stats
call-plus (failed_steal none) a s t e = ground (arith, e)
call-plus (failed_steal (some before)) a s t e = ground (arith, e)
call-plus (search v) a s t e = ground (arith, e)
call-plus (success_steal true) a s t e = ground (arith, e)
call-plus (success_steal false) a s t e = ground (arith, e)
call-plus outgoing_task a s t e = ground (arith, e)
call-plus rdma_probe a s t e = ground (arith, e)

calls-plus :
    (cs : List Call) (a : Totals) (s t : Stats)
    → s.totals ≡ plus a t.totals
    → (after_calls cs s).totals ≡ plus a (after_calls cs t).totals
calls-plus [] a s t e = e
calls-plus (c ∷ cs) a s t e =
    calls-plus cs a (after_call c s) (after_call c t) (call-plus c a s t e)

calls-append :
    (cs ds : List Call) (s : Stats) → after_calls (cs ++ ds) s ≡ after_calls ds (after_calls cs s)
calls-append [] ds s = refl
calls-append (c ∷ cs) ds s = calls-append cs ds (after_call c s)

-- Two reports, the second from the counters that the first has reset, add up to the one report after
-- all the calls: no event is counted twice or lost.
reports_add :
    (cs ds : List Call) (s : Stats)
    → let (first, t) = get_total_async_any_stats (after_calls cs s) in
      plus first (get_total_async_any_stats (after_calls ds t)).0
      ≡ (get_total_async_any_stats (after_calls (cs ++ ds) s)).0
unfolding get_total_async_any_stats
reports_add cs ds s =
    let m = after_calls cs s in
    sym (calls-plus ds m.totals m (record m { totals = no_totals }) (plus-none m.totals))
    ∙ sym (ap (λ t. t.totals) (calls-append cs ds s))
