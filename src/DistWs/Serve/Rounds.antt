-- ===== src/DistWs/Serve/Rounds.antt =====
-- src/hcupc_spmd_distWS_common.cpp: the rounds in which a place serves the thieves.
use habanero_upc.Prelude.{
  ℕ, zero, suc, ◌-◌, ◌≤◌, ◌<◌, ◌≡◌, ◌⊎◌, inl, inr, refl, sym, ◌∙◌, Bool, true, false, Option, some,
  List, [], ◌∷◌, ◌++◌, arith, ltb, length, Bool-cases, ◌&&◌, not, lt→ltb, ltb→lt,
}
use habanero_upc.DistWs.ThiefQueue.{Thieves, pop_thief}
use habanero_upc.DistWs.ThiefQueue.Fifo.{IsValid, waiting}
use habanero_upc.DistWs.ThiefQueue.Popped.{pop_thief-waiting}
use habanero_upc.DistWs.Serve.{
  Network, serve_asynchronous, serve_rounds, Victim, steal_loop, steal_from_my_computation_workers,
  mark_busy, ship_async_any,
}
use habanero_upc.DistWs.Serve.Batches.{Takes, Parts, steal_loop_lem}
use habanero_upc.DistWs.Steal.{Request}
use habanero_upc.DistWs.Serve.Answered.{Answered}
use habanero_upc.DistWs.Serve.Served.{
  Batches, tasks_of, ge→ltb, robbed, shipped, Served, Served-trans, Served-nothing, busy-IsValid,
  robbed-Served, shipped-Served,
}

module _ {W : Type 0} (steal : W → Option (ℕ × W)) (idle : W → Bool) (ranks me steal_n : ℕ)
    (advance : Network) where
  asynchronous-fails :
      (s : Victim W) (w : W)
      → steal_loop steal idle 0 steal_n s.workers ≡ some ([], w)
      → serve_asynchronous steal idle ranks me steal_n advance s ≡ some (false, robbed me w s)
  unfolding serve_asynchronous steal_from_my_computation_workers mark_busy
  asynchronous-fails s w e = rw e refl

  asynchronous-serves :
      (s : Victim W) (w : W) (t i : ℕ) (ts : List ℕ) (q : Thieves)
      → steal_loop steal idle 0 steal_n s.workers ≡ some (t ∷ ts, w)
      → length (t ∷ ts) ≤ 5
      → pop_thief ranks (record (s.thieves) { out_of_work = false }) ≡ some (some i, q)
      → serve_asynchronous steal idle ranks me steal_n advance s
        ≡ some (
          true,
          shipped me w
              (t ∷ ts)
              i
              false
              (advance.queue q)
              (advance.request (s.launched ++ (i, t ∷ ts, false) ∷ []) s.req_thread)
              s,
        )
  unfolding serve_asynchronous steal_from_my_computation_workers mark_busy ship_async_any
  asynchronous-serves s w t i ts q e h p =
      rw (e, lt→ltb 0 (length (t ∷ ts)) (omega arith), p, ge→ltb 5 (length (t ∷ ts)) h) refl

-- What upcxx::advance does to the queue: the thieves that come are queued behind the others.
abbrev pub Appends : ℕ → Network → Type 0
Appends ranks advance =
    (u : Thieves)
    → IsValid ranks u
    → IsValid ranks (advance.queue u)
      × ((more : List (Option ℕ)) × (waiting ranks (advance.queue u) ≡ waiting ranks u ++ more))

module _ {W : Type 0} (steal : W → Option (ℕ × W)) (idle : W → Bool) (ranks me steal_n : ℕ)
    (advance : Network) (contents : W → List ℕ) where
  -- One round sends at most one batch, and succeeds if it sends one.
  abbrev pub Round : (Request → Type 0) → Option (Bool × Victim W) → Victim W → Type 0
  Round Free result s =
      (success : Bool) × (bs : Batches) × (t : Victim W) × (result ≡ some (success, t))
      × Served ranks me steal_n contents bs s t
      × (success ≡ ltb 0 (length (tasks_of bs)))
      × Answered advance Free s.launched s.req_thread bs t.req_thread

  batch-Round :
      (Free : Request → Type 0)
      → Appends ranks advance
      → (s : Victim W) → IsValid ranks s.thieves
      → s.thieves.thieves_waiting ≡ true
      → steal_n ≤ 5
      → (ts : List ℕ) (w : W) → steal_loop steal idle 0 steal_n s.workers ≡ some (ts, w)
      → length ts ≤ steal_n
      → Parts (contents s.workers) ts (contents w)
      → Free s.req_thread
      → Round Free (serve_asynchronous steal idle ranks me steal_n advance s) s
  batch-Round Free appends s v waits bound [] w e few p free = (
    false,
    [],
    robbed me w s,
    asynchronous-fails steal idle ranks me steal_n advance s w e,
    robbed-Served ranks me steal_n contents w s v p,
    refl,
    refl,
  )
  batch-Round Free appends s v waits bound (x ∷ ts) w e few p free =
      let u : Thieves = record (s.thieves) { out_of_work = false } in
      let (i, q, popped, valid, first) =
        pop_thief-waiting ranks u (busy-IsValid ranks me steal_n contents s.thieves v) waits in
      let (valid2, (more, later)) = appends q valid in
      (
        true,
        (i, x ∷ ts, false) ∷ [],
        shipped me w (x ∷ ts) i false (advance.queue q)
            (advance.request (s.launched ++ (i, x ∷ ts, false) ∷ []) s.req_thread) s,
        asynchronous-serves steal idle ranks me steal_n advance s w x i ts q e (omega arith) popped,
        shipped-Served ranks me steal_n contents w (x ∷ ts) i false (advance.queue q)
            (advance.request (s.launched ++ (i, x ∷ ts, false) ∷ []) s.req_thread) s more valid2 p
            (rw (first, later) refl) (omega arith) few,
        sym (lt→ltb 0 (length (x ∷ ts ++ [])) (omega arith)),
        (free, refl),
      )

  pub serve_asynchronous-Round :
      (Free : Request → Type 0)
      → Takes steal contents
      → Appends ranks advance
      → steal_n ≤ 5
      → (s : Victim W) → IsValid ranks s.thieves
      → s.thieves.thieves_waiting ≡ true
      → Free s.req_thread
      → Round Free (serve_asynchronous steal idle ranks me steal_n advance s) s
  serve_asynchronous-Round Free takes appends bound s v waits free =
      let (ts, w, e, few, p) =
        steal_loop_lem steal idle contents takes 0 steal_n s.workers (omega arith) in
      batch-Round Free appends s v waits bound ts w e few p free

  -- The reasons for which the loop ends.
  abbrev pub Ended : Victim W → Victim W → Bool → Type 0
  Ended s t success = (idle t.workers ≡ true) ⊎ ((waiting ranks t.thieves ≡ []) ⊎ (success ≡ false))

  -- The statement of serve_rounds_lem.
  abbrev pub Rounds : ℕ → Bool → Victim W → Type 0
  Rounds fuel before s =
      (success : Bool) × (bs : Batches) × (t : Victim W) × (serve_rounds steal idle ranks me steal_n
          advance fuel before s
        ≡ some (success, t))
      × Served ranks me steal_n contents bs s t
      × Ended s t success

  stop-Rounds :
      (fuel : ℕ) (before : Bool) (s : Victim W)
      → (not (idle s.workers) && s.thieves.thieves_waiting) ≡ false
      → IsValid ranks s.thieves
      → Ended s s before
      → Rounds (suc fuel) before s
  unfolding serve_rounds
  stop-Rounds fuel before s off v why =
      (before, [], s, rw off refl, Served-nothing ranks me steal_n contents s v, why)

  fail-Rounds :
      (fuel : ℕ) (before : Bool) (s t : Victim W) (bs : Batches)
      → (not (idle s.workers) && s.thieves.thieves_waiting) ≡ true
      → serve_asynchronous steal idle ranks me steal_n advance s ≡ some (false, t)
      → Served ranks me steal_n contents bs s t
      → Rounds (suc fuel) before s
  unfolding serve_rounds
  fail-Rounds fuel before s t bs on e served =
      (false, bs, t, rw (on, e) refl, served, inr (inr refl))

  next-Rounds :
      (fuel : ℕ) (before : Bool) (s t : Victim W) (bs : Batches)
      → (not (idle s.workers) && s.thieves.thieves_waiting) ≡ true
      → serve_asynchronous steal idle ranks me steal_n advance s ≡ some (true, t)
      → Served ranks me steal_n contents bs s t
      → Rounds fuel true t
      → Rounds (suc fuel) before s
  unfolding serve_rounds
  next-Rounds fuel before s t bs on e served (success, cs, u, r, more, why) =
      (success, bs ++ cs, u, rw (on, e) r, Served-trans ranks me steal_n contents served more, why)

  no-waiting : (u : Thieves) → IsValid ranks u → u.thieves_waiting ≡ false → waiting ranks u ≡ []
  no-waiting u v w =
      let none_left : u.tail_next - u.head_next ≡ 0 = ground (arith, v.flag, v.ordered) in
      rw none_left refl

  pub serve_rounds_lem :
      Takes steal contents
      → Appends ranks advance
      → steal_n ≤ 5
      → (fuel : ℕ) (before : Bool) (s : Victim W) → length (contents s.workers) < fuel
      → IsValid ranks s.thieves
      → Rounds fuel before s
  serve_rounds_lem takes appends bound zero before s enough v = absurd (omega arith)
  serve_rounds_lem takes appends bound (suc fuel) before s enough v =
      elim (Bool-cases (idle s.workers)) [
        | inl lazy ↦ stop-Rounds fuel before s (rw lazy refl) v (inl lazy)
        | inr busy ↦ elim (Bool-cases s.thieves.thieves_waiting) [
          | inr alone ↦
              stop-Rounds fuel before s (rw (busy, alone) refl) v
                (inr (inl (no-waiting s.thieves v alone)))
          | inl waits ↦
              let on : (not (idle s.workers) && s.thieves.thieves_waiting) ≡ true =
                rw (busy, waits) refl in
              let (success, bs, t, e, served, sends, _) =
                serve_asynchronous-Round (λ _. Unit {0}) takes appends bound s v waits tt in
              elim (Bool-cases success) [
                | inr failed ↦ fail-Rounds fuel before s t bs on (rw (e, failed) refl) served
                | inl sent ↦ next-Rounds fuel before s t bs on (rw (e, sent) refl) served (
                    serve_rounds_lem takes appends bound fuel true t
                      (omega (
                        arith,
                        ltb→lt 0 (length (tasks_of bs)) (sym sends ∙ sent),
                        served.parts.number,
                      ))
                      served.valid)
              ]
        ]
      ]
