-- ===== src/Stats/Summary/Printed.antt =====
-- src/hcupc_spmd_stats.cpp: what the printed statistics are, from what the places have done.
use habanero_upc.Prelude.{
  ℕ, zero, suc, ◌+◌, ◌<◌, ◌≡◌, ◌≢◌, refl, ap, ◌∙◌, List, [], ◌∷◌, arith, count, ℕ_discrete,
}
use habanero_upc.Prelude.Counting.{total}
use habanero_upc.Stats.{Stats, get_total_async_any_stats, get_steal_stats}
use habanero_upc.Stats.Summary.{
  Report, Gathering, gather_place, gather_places, sum_reports, runtime_statistics, Column, read,
  report_of, total_tasks_send_to_remote, total_success_async_dist_steals,
  total_success_sync_dist_steals, total_failed_dist_steals, total_incoming_steal_reqs_when_idle,
  total_cyclic_steals, total_rdma_async_any_probes, column_s1, column_s2, column_s3, column_s4,
  column_s4_plus,
}

read-none : (c : Column) (reports : ℕ → Report) → read c (sum_reports 0 reports) ≡ 0
unfolding sum_reports
read-none total_tasks_send_to_remote reports = refl
read-none total_success_async_dist_steals reports = refl
read-none total_success_sync_dist_steals reports = refl
read-none total_failed_dist_steals reports = refl
read-none total_incoming_steal_reqs_when_idle reports = refl
read-none total_cyclic_steals reports = refl
read-none total_rdma_async_any_probes reports = refl
read-none column_s1 reports = refl
read-none column_s2 reports = refl
read-none column_s3 reports = refl
read-none column_s4 reports = refl
read-none column_s4_plus reports = refl

read-add :
    (c : Column) (n : ℕ) (reports : ℕ → Report)
    → read c (sum_reports (suc n) reports) ≡ read c (sum_reports n reports) + read c (reports n)
unfolding sum_reports
read-add total_tasks_send_to_remote n reports = refl
read-add total_success_async_dist_steals n reports = refl
read-add total_success_sync_dist_steals n reports = refl
read-add total_failed_dist_steals n reports = refl
read-add total_incoming_steal_reqs_when_idle n reports = refl
read-add total_cyclic_steals n reports = refl
read-add total_rdma_async_any_probes n reports = refl
read-add column_s1 n reports = refl
read-add column_s2 n reports = refl
read-add column_s3 n reports = refl
read-add column_s4 n reports = refl
read-add column_s4_plus n reports = refl

read-sum_reports :
    (c : Column) (n : ℕ) (reports : ℕ → Report)
    → read c (sum_reports n reports) ≡ total (read c) n reports
unfolding total
read-sum_reports c zero reports = read-none c reports
read-sum_reports c (suc n) reports =
    omega (arith, read-add c n reports, read-sum_reports c n reports)

total-through :
    (c : Column) (n : ℕ) (reports : ℕ → Report) (stats : ℕ → Stats)
    → ((i : ℕ) → i < n → reports i ≡ report_of (stats i))
    → total (read c) n reports ≡ total (λ s. read c (report_of s)) n stats
unfolding total
total-through c zero reports stats h = refl
total-through c (suc n) reports stats h = omega (
  arith,
  ap (read c) (h n (omega arith)),
  total-through c n reports stats (λ i k. h i (omega arith)),
)

gather_place-other :
    (i j : ℕ) (g : Gathering)
    → i ≢ j
    → ((gather_place j g).stats i ≡ g.stats i) × ((gather_place j g).reports i ≡ g.reports i)
unfolding gather_place get_total_async_any_stats get_steal_stats
gather_place-other i j g h = ground (arith, h)

gather_place_self :
    (i j : ℕ) (g : Gathering) → i ≡ j → (gather_place j g).reports i ≡ report_of (g.stats i)
unfolding gather_place get_total_async_any_stats get_steal_stats
gather_place_self i j g h = ground (arith, h)

gather_places-absent :
    (order : List ℕ) (g : Gathering) (i : ℕ)
    → count i order ≡ 0
    → (gather_places order g).reports i ≡ g.reports i
unfolding gather_places
gather_places-absent [] g i h = refl
gather_places-absent (j ∷ order) g i h =
    let other : i ≢ j = ground (arith, h) in
    gather_places-absent order (gather_place j g) i (ground (arith, h))
    ∙ (gather_place-other i j g other).1

gather_places-once :
    (order : List ℕ) (g : Gathering) (i : ℕ)
    → count i order ≡ 1
    → (gather_places order g).reports i ≡ report_of (g.stats i)
unfolding gather_places
gather_places-once [] g i h = absurd (omega arith)
gather_places-once (j ∷ order) g i h = elim (ℕ_discrete i j) [
  | yes here ↦
      gather_places-absent order (gather_place j g) i (ground (arith, h, here))
      ∙ gather_place_self i j g here
  | no later ↦
      gather_places-once order (gather_place j g) i (ground (arith, h, later))
      ∙ ap report_of (gather_place-other i j g later).0
]

-- Each column that place 0 prints is the sum of that counter over all places, in whichever order the
-- places write their counters to the shared arrays, if each place does so once.
pub runtime_statistics_columns :
    (ranks : ℕ) (order : List ℕ) (g : Gathering) (c : Column)
    → ((i : ℕ) → i < ranks → count i order ≡ 1)
    → read c (runtime_statistics ranks order g) ≡ total (λ s. read c (report_of s)) ranks g.stats
unfolding runtime_statistics
runtime_statistics_columns ranks order g c once =
    read-sum_reports c ranks (gather_places order g).reports
    ∙ total-through c ranks (gather_places order g).reports g.stats
        (λ i h. gather_places-once order g i (once i h))
