-- ===== src/DistWs/Hunt/Tries.antt =====
-- src/hcupc_spmd_distWS_common.cpp: the results of a search that waits.
use habanero_upc.Prelude.{
  ℕ, suc, ◌+◌, ◌≤◌, ◌<◌, ◌≡◌, refl, ◌∙◌, Bool, true, false, Option, none, some, arith, List, [],
  ◌∷◌, length, if◌then◌else◌, update-here,
}
use habanero_upc.DistWs.Steal.{req_available}
use habanero_upc.Stats.{Stats, record_failed_steal_timeline, total_asyncany_rdma_probes_stats}
use habanero_upc.DistWs.Hunt.{load, Shared, Place, Thief, count_probe}
use habanero_upc.DistWs.Hunt.Synchronous.{
  Status, success_steal, failed_steal, nothing_there, count_attempt, reopened,
}
use habanero_upc.DistWs.Hunt.Turns.{failures, failures-cons, failures-one}

failed_more :
    (before : Option (ℕ → Bool)) (s : Stats)
    → (record_failed_steal_timeline before s).totals.failed_steals ≡ s.totals.failed_steals + 1
unfolding record_failed_steal_timeline
failed_more none s = refl
failed_more (some before) s = refl

same_probes :
    (before : Option (ℕ → Bool)) (s : Stats)
    → (record_failed_steal_timeline before s).totals.asyncany_rdma_probes
      ≡ s.totals.asyncany_rdma_probes
unfolding record_failed_steal_timeline
same_probes none s = refl
same_probes (some before) s = refl

module _ {W S : Type 0} where
  -- The attempts of GLB do not pass their bound.
  abbrev pub Capped : ℕ → Bool → Thief W S → Thief W S → Type 0
  Capped most is_glb s t =
      is_glb ≡ true
      → s.current_glb_max_rand_attempts < most
      → t.current_glb_max_rand_attempts ≤ most

module _ {W S : Type 0} (me : ℕ) where
  -- The state of a thief whose wait has ended: it can be asked again.
  pub record IsOpen (t : Thief W S) : Type 0 where
    pub out_of_work : t.place.flights.out_of_work ≡ false
    pub work_avail : t.place.shared.work_avail me ≡ load 0
    pub req_thread : t.place.shared.req_thread me ≡ req_available

  -- A search with the turns `os`, at most `n` of them, and its result.
  pub record Tries (is_glb : Bool) (n : ℕ) (os : List (ℕ × Status)) (success : Bool)
      (s t : Thief W S) : Type 0 where
    pub asked : t.asked ≡ s.asked
    pub bounded : length os ≤ n
    pub failed : t.stats.totals.failed_steals ≡ s.stats.totals.failed_steals + failures os
    probes : t.stats.totals.asyncany_rdma_probes ≡ s.stats.totals.asyncany_rdma_probes + length os
    pub attempts : t.current_glb_max_rand_attempts ≡ (
        if is_glb
        then (if success then 0 else s.current_glb_max_rand_attempts + failures os)
        else s.current_glb_max_rand_attempts)
    pub won : success ≡ true → IsOpen t
    pub lost :
        success ≡ false → (t.place.thieves ≡ s.place.thieves) × (t.place.flights ≡ s.place.flights)

  pub Tries-none : (is_glb : Bool) (n : ℕ) (s : Thief W S) → Tries is_glb n [] false s s
  Tries-none is_glb n s = record {
    asked = refl;
    bounded = omega arith;
    failed = omega arith;
    probes = omega arith;
    attempts = unchanged is_glb;
    won = λ e. cc;
    lost = λ _. (refl, refl);
  }
    where
      unchanged :
          (is_glb : Bool)
          → s.current_glb_max_rand_attempts ≡ (
              if is_glb
              then s.current_glb_max_rand_attempts + 0
              else s.current_glb_max_rand_attempts)
      unchanged true = omega arith
      unchanged false = refl

  -- A turn with an attempt that has not succeeded, and the turns after it.
  pub Tries-trans :
      {is_glb success : Bool} {n : ℕ} {v : ℕ} {status : Status} {os : List (ℕ × Status)}
      {s t u : Thief W S}
      → Tries is_glb 1 ((v, status) ∷ []) false s t
      → Tries is_glb n os success t u
      → Tries is_glb (suc n) ((v, status) ∷ os) success s u
  Tries-trans {is_glb} {success} {n} {v} {status} {os} {s} {t} {u} a b = record {
    asked = b.asked ∙ a.asked;
    bounded = omega (arith, a.bounded, b.bounded);
    failed = omega (arith, a.failed, b.failed, failures-cons v status os);
    probes = omega (arith, a.probes, b.probes);
    attempts = ground (arith, a.attempts, b.attempts, failures-cons v status os);
    won = b.won;
    lost = λ e. ((b.lost e).0 ∙ (a.lost refl).0, (b.lost e).1 ∙ (a.lost refl).1);
  }

  -- The state after an attempt at a victim without tasks.
  pub nothing_Tries :
      (is_glb : Bool) (v : ℕ) (s : Thief W S) (h : Shared W)
      → Tries is_glb 1
          ((v, nothing_there) ∷ [])
          false
          s
          (count_probe (record s { place = record (s.place) { shared = h } }))
  unfolding total_asyncany_rdma_probes_stats
  nothing_Tries is_glb v s h =
      let kept = Tries-none is_glb 1 s in
      record {
        asked = refl;
        bounded = omega arith;
        failed = omega arith;
        probes = omega arith;
        attempts = kept.attempts;
        won = λ e. cc;
        lost = λ _. (refl, refl);
      }

  reopened-IsOpen : (t : Thief W S) → IsOpen (reopened me t)
  reopened-IsOpen t = record {
    out_of_work = refl;
    work_avail = update-here t.place.shared.work_avail me (load 0) me refl;
    req_thread = update-here t.place.shared.req_thread me req_available me refl;
  }

  pub success_Tries :
      (is_glb : Bool) (v : ℕ) (s : Thief W S) (p : Place W)
      → Tries is_glb 1
          ((v, success_steal) ∷ [])
          true
          s
          (count_attempt is_glb success_steal (reopened me (record (count_probe s) { place = p })))
  unfolding total_asyncany_rdma_probes_stats count_attempt
  success_Tries true v s p = record {
    asked = refl;
    bounded = omega arith;
    failed = omega arith;
    probes = omega arith;
    attempts = refl;
    won = λ _.
        reopened-IsOpen (record (count_probe s) { place = p; current_glb_max_rand_attempts = 0 });
    lost = λ e. cc;
  }
  success_Tries false v s p = record {
    asked = refl;
    bounded = omega arith;
    failed = omega arith;
    probes = omega arith;
    attempts = refl;
    won = λ _. reopened-IsOpen (record (count_probe s) { place = p });
    lost = λ e. cc;
  }

  pub failed_Tries :
      (is_glb : Bool) (v : ℕ) (s : Thief W S) (h : Shared W) (before : Option (ℕ → Bool))
      → Tries is_glb 1 ((v, failed_steal) ∷ []) false s (
          count_attempt is_glb failed_steal (record s {
            place = record (s.place) { shared = h };
            stats = record_failed_steal_timeline before (count_probe s).stats;
          }))
  unfolding count_attempt total_asyncany_rdma_probes_stats
  failed_Tries true v s h before = record {
    asked = refl;
    bounded = omega arith;
    failed = omega (arith, failed_more before (count_probe s).stats);
    probes = omega (arith, same_probes before (count_probe s).stats);
    attempts = refl;
    won = λ e. cc;
    lost = λ _. (refl, refl);
  }
  failed_Tries false v s h before = record {
    asked = refl;
    bounded = omega arith;
    failed = omega (arith, failed_more before (count_probe s).stats);
    probes = omega (arith, same_probes before (count_probe s).stats);
    attempts = refl;
    won = λ e. cc;
    lost = λ _. (refl, refl);
  }

  pub Tries-le :
      {is_glb b c : Bool} {k n : ℕ} {os : List (ℕ × Status)} {s t : Thief W S} (last : S)
      → k ≤ n
      → b ≡ c
      → Tries is_glb k os b (record s { last_steal = last }) t
      → Tries is_glb n os c s t
  Tries-le {is_glb} {b} {c} {k} {n} {os} {s} {t} last h e a = record {
    asked = a.asked;
    bounded = omega (arith, a.bounded);
    failed = a.failed;
    probes = a.probes;
    attempts = ground (arith, a.attempts);
    won = λ d. a.won (e ∙ d);
    lost = λ d. a.lost (e ∙ d);
  }

  pub Capped-once :
      (most : ℕ) {is_glb b : Bool} {v : ℕ} {status : Status} {s t : Thief W S}
      → Tries is_glb 1 ((v, status) ∷ []) b s t
      → Capped most is_glb s t
  Capped-once most {is_glb} {b} {v} {status} {s} {t} a glb h =
      ground (arith, a.attempts, failures-one v status)
