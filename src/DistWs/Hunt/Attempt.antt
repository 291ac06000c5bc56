-- ===== src/DistWs/Hunt/Attempt.antt =====
-- src/hcupc_spmd_distWS_common.cpp: what attempt_synchronous_steal does at one victim.
use habanero_upc.Prelude.{
  ℕ, ◌<◌, ◌≡◌, refl, Bool, true, false, some, List, [], ◌∷◌, Bool-cases, inl, inr, update,
  update-here, ap,
}
use habanero_upc.Victims.Selection.{Selection}
use habanero_upc.DistWs.Steal.{requested}
use habanero_upc.Stats.{record_failed_steal_timeline}
use habanero_upc.DistWs.Hunt.{exceeds, is_available, Place, Thief, Machine, count_probe, is_waiting}
use habanero_upc.DistWs.Hunt.Waits.{advanced, advance_while_lem}
use habanero_upc.DistWs.Hunt.Turns.{Turns, offers, none_on_offer, free, taken}
use habanero_upc.DistWs.Hunt.Tries.{Tries, nothing_Tries, success_Tries, failed_Tries}
use habanero_upc.DistWs.Hunt.Synchronous.{
  Status, success_steal, failed_steal, nothing_there, steal_from_victim_baseline,
  attempt_synchronous_steal, count_attempt, is_success, reopened,
}

-- A thief that waits for a victim gets out of its loop within `fuel` calls of upcxx::advance.
pub record Ends {W : Type 0} (m : Machine W) (me fuel : ℕ) : Type 0 where
  pub ends :
      (asked : List ℕ) (p : Place W)
      → (k : ℕ) × (k < fuel) × (is_waiting me (advanced m asked k p) ≡ false)

module _ {W S : Type 0} (m : Machine W) (me : ℕ) where
  -- The request of this place stood at `v`, the place waited, and then opened itself again.
  abbrev pub Waited : ℕ → Thief W S → Type 0
  Waited v t =
      (p : Place W) × (k : ℕ) × (p.shared.req_thread v ≡ requested me)
      × (p.shared.wait_for_task_from_victim me ≡ true)
      × (is_waiting me (advanced m t.asked k p) ≡ false)
      × (t.place ≡ (reopened me (record t { place = advanced m t.asked k p })).place)

  counted-Waited :
      (is_glb : Bool) (v : ℕ) (t : Thief W S)
      → Waited v t
      → Waited v (count_attempt is_glb success_steal t)
  unfolding count_attempt
  counted-Waited true v t w = w
  counted-Waited false v t w = w

-- A turn before others, or the last one.
module _ {W S : Type 0} (m : Machine W) (sel : Selection S) (task_transfer_threshold : ℕ) where
  abbrev pub Joins : (v : ℕ) → Status → Thief W S → Thief W S → Type 0
  Joins v status s t =
      (os : List (ℕ × Status)) (last : S)
      → sel.next_victim last ≡ some (v, s.last_steal)
      → (is_success status ≡ true → os ≡ [])
      → Turns task_transfer_threshold m sel os t.last_steal t.place.shared
      → Turns task_transfer_threshold m sel ((v, status) ∷ os) last s.place.shared

  uncounted :
      (is_glb : Bool) (os : List (ℕ × Status)) (u : Thief W S)
      → let t = count_attempt is_glb failed_steal u in
        Turns task_transfer_threshold m sel os t.last_steal t.place.shared
        → Turns task_transfer_threshold m sel os u.last_steal u.place.shared
  unfolding count_attempt
  uncounted true os u turns = turns
  uncounted false os u turns = turns

module _ {W S : Type 0} (m : Machine W) (sel : Selection S) (ranks me : ℕ)
    (task_transfer_threshold fuel : ℕ) (ends : Ends m me fuel) where
  steal_lem :
      (v : ℕ) (s : Thief W S)
      → (p : Place W) × (steal_from_victim_baseline m sel ranks me task_transfer_threshold fuel v s
          ≡ some (record s { place = p }))
        × Waited m me v (reopened me (record s { place = p }))
  unfolding steal_from_victim_baseline
  steal_lem v s =
      let h = s.place.shared in
      let waiting : Thief W S = record s {
        place = record (s.place) {
          shared = record h {
            wait_for_task_from_victim = update h.wait_for_task_from_victim me true;
            req_thread = update h.req_thread v (requested me);
          };
        };
      } in
      let (k, within, over) = ends.ends s.asked waiting.place in
      let (p, e, done, (j, reached)) =
        advance_while_lem m (is_waiting me) fuel k waiting within over in
      (
        p,
        e,
        (
          waiting.place,
          j,
          update-here h.req_thread v (requested me) v refl,
          update-here h.wait_for_task_from_victim me true me refl,
          rw (← reached) done,
          ap (λ x. (reopened me (record s { place = x })).place) reached,
        ),
      )

  pub attempt_lem :
      (is_glb : Bool) (v : ℕ) (s : Thief W S)
      → (status : Status) × (t : Thief W S) × (attempt_synchronous_steal m sel ranks me
            task_transfer_threshold fuel v s
          ≡ some (status, t))
        × Tries me is_glb 1 ((v, status) ∷ []) (is_success status) s (count_attempt is_glb status t)
        × Joins m sel task_transfer_threshold v status s (count_attempt is_glb status t)
        × (is_success status ≡ true → Waited m me v (count_attempt is_glb status t))
  unfolding attempt_synchronous_steal count_attempt
  attempt_lem is_glb v s =
      let h = m.meanwhile s.place.shared in
      let s1 : Thief W S = count_probe (record s { place = record (s.place) { shared = h } }) in
      let h1 = m.meanwhile h in
      let s2 : Thief W S = record s1 { place = record (s1.place) { shared = h1 } } in
      elim (Bool-cases (exceeds task_transfer_threshold (h.work_avail v))) [
        | inr idle ↦ (
          nothing_there,
          s1,
          rw idle refl,
          nothing_Tries me is_glb v s h,
          λ os last picked ended turns.
              (s.last_steal, picked, none_on_offer task_transfer_threshold v h idle, turns),
          λ d. absurd cc,
        )
        | inl busy ↦ elim (Bool-cases (is_available (h1.req_thread v))) [
          | inl unasked ↦
              let (p, e, waited) = steal_lem v s2 in
              (
                success_steal,
                reopened me (record s2 { place = p }),
                rw (busy, unasked, e) refl,
                success_Tries me is_glb v s p,
                λ os last picked ended turns. (
                  s.last_steal,
                  picked,
                  (
                    offers task_transfer_threshold v h busy,
                    free task_transfer_threshold v h1 unasked,
                  ),
                  ended refl,
                ),
                λ _. counted-Waited m me is_glb v (reopened me (record s2 { place = p })) waited,
              )
          | inr closed ↦ (
            failed_steal,
            record s2 { stats = record_failed_steal_timeline (m.before h1.world) s2.stats },
            rw (busy, closed) refl,
            failed_Tries me is_glb v s h1 (m.before h1.world),
            λ os last picked ended turns. (
              s.last_steal,
              picked,
              (offers task_transfer_threshold v h busy, taken task_transfer_threshold v h1 closed),
              uncounted m sel task_transfer_threshold is_glb os
                  (record s2 { stats = record_failed_steal_timeline (m.before h1.world) s2.stats })
                  turns,
            ),
            λ d. absurd cc,
          )
        ]
      ]
