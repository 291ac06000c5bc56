-- ===== src/DistWs/Serve/GlbLoop.antt =====
-- src/hcupc_spmd_distWS_common.cpp: the loop of serve_pending_distSteal_request_glb, which answers the
-- request of the baseline first and then the thieves of the queue.
use habanero_upc.Prelude.{
  ℕ, zero, suc, ◌≤◌, ◌<◌, ◌≡◌, ◌⊎◌, inl, inr, refl, sym, ◌∙◌, Bool, true, false, not, ◌&&◌, Option,
  some, List, [], ◌∷◌, ◌++◌, ltb, lt→ltb, ltb→lt, if◌then◌else◌, length, arith, Bool-cases,
}
use habanero_upc.DistWs.ThiefQueue.{Thieves}
use habanero_upc.DistWs.ThiefQueue.Fifo.{IsValid}
use habanero_upc.DistWs.Steal.{Request, req_available, req_unavailable, requested}
use habanero_upc.DistWs.Serve.{
  Network, Victim, steal_loop, steal_from_my_computation_workers, mark_busy, ship_async_any,
  serve_synchronous, serve_rounds_glb, by_request, serve_asynchronous,
}
use habanero_upc.DistWs.Serve.Batches.{Takes, Parts, steal_loop_lem}
use habanero_upc.DistWs.Serve.Served.{
  Batches, tasks_of, Served, Served-trans, Served-nothing, robbed, shipped, robbed-Served,
  shipped-Served, busy-IsValid, ge→ltb,
}
use habanero_upc.DistWs.Serve.Answered.{NoRequest, Answered, Answered-append}
use habanero_upc.DistWs.Serve.Rounds.{Appends, Round, serve_asynchronous-Round}

request_cases : (r : Request) → NoRequest r ⊎ ((i : ℕ) × (r ≡ requested i))
request_cases req_available = inl (inl refl)
request_cases req_unavailable = inl (inr refl)
request_cases (requested i) = inr (i, refl)

by_request-asked :
    {A : Type 0} {r : Request} {i : ℕ} (a b : A) → r ≡ requested i → by_request r a b ≡ a
by_request-asked a b e = rw e refl

by_request-free : {A : Type 0} {r : Request} (a b : A) → NoRequest r → by_request r a b ≡ b
by_request-free a b (inl e) = rw e refl
by_request-free a b (inr e) = rw e refl

module _ {W : Type 0} (steal : W → Option (ℕ × W)) (idle : W → Bool) (ranks me steal_n : ℕ)
    (advance : Network) where
  pub synchronous-fails :
      (s : Victim W) (w : W) (i : ℕ)
      → s.req_thread ≡ requested i
      → steal_loop steal idle 0 steal_n s.workers ≡ some ([], w)
      → serve_synchronous steal idle ranks me steal_n advance s ≡ some (false, robbed me w s)
  unfolding serve_synchronous steal_from_my_computation_workers mark_busy
  synchronous-fails s w i r e = rw (r, e) refl

  pub synchronous-serves :
      (s : Victim W) (w : W) (t i : ℕ) (ts : List ℕ)
      → s.req_thread ≡ requested i
      → steal_loop steal idle 0 steal_n s.workers ≡ some (t ∷ ts, w)
      → length (t ∷ ts) ≤ 5
      → serve_synchronous steal idle ranks me steal_n advance s
        ≡ some (
          true,
          shipped me w
              (t ∷ ts)
              i
              true
              (advance.queue (record (s.thieves) { out_of_work = false }))
              (advance.request (s.launched ++ (i, t ∷ ts, true) ∷ []) req_available)
              s,
        )
  unfolding serve_synchronous steal_from_my_computation_workers mark_busy ship_async_any
  synchronous-serves s w t i ts r e h =
      rw (r, e, lt→ltb 0 (length (t ∷ ts)) (omega arith), ge→ltb 5 (length (t ∷ ts)) h) refl

module _ {W : Type 0} (steal : W → Option (ℕ × W)) (idle : W → Bool) (ranks me steal_n : ℕ)
    (advance : Network) (contents : W → List ℕ) where
  answer-of-batch :
      Appends ranks advance
      → (s : Victim W) → IsValid ranks s.thieves
      → steal_n ≤ 5
      → (i : ℕ) → s.req_thread ≡ requested i
      → (ts : List ℕ) (w : W) → steal_loop steal idle 0 steal_n s.workers ≡ some (ts, w)
      → length ts ≤ steal_n
      → Parts (contents s.workers) ts (contents w)
      → Round steal idle ranks me steal_n advance contents NoRequest
          (serve_synchronous steal idle ranks me steal_n advance s)
          s
  answer-of-batch appends s v bound i r [] w e few p = (
    false,
    [],
    robbed me w s,
    synchronous-fails steal idle ranks me steal_n advance s w i r e,
    robbed-Served ranks me steal_n contents w s v p,
    refl,
    refl,
  )
  answer-of-batch appends s v bound i r (x ∷ ts) w e few p =
      let u : Thieves = record (s.thieves) { out_of_work = false } in
      let (valid, (more, later)) = appends u (busy-IsValid ranks me steal_n contents s.thieves v) in
      (
        true,
        (i, x ∷ ts, true) ∷ [],
        shipped me w (x ∷ ts) i true (advance.queue u)
            (advance.request (s.launched ++ (i, x ∷ ts, true) ∷ []) req_available) s,
        synchronous-serves steal idle ranks me steal_n advance s w x i ts r e (omega arith),
        shipped-Served ranks me steal_n contents w (x ∷ ts) i true (advance.queue u)
            (advance.request (s.launched ++ (i, x ∷ ts, true) ∷ []) req_available) s more valid p
            (sym later) (omega arith) few,
        sym (lt→ltb 0 (length (x ∷ ts ++ [])) (omega arith)),
        (r, refl),
      )

  abbrev GlbRounds : ℕ → Victim W → Type 0
  GlbRounds fuel s =
      (success : Bool) × (bs : Batches) × (t : Victim W) × (serve_rounds_glb steal idle ranks me
          steal_n advance fuel s
        ≡ some (success, t))
      × Served ranks me steal_n contents bs s t
      × (success ≡ false)
      × Answered advance NoRequest s.launched s.req_thread bs t.req_thread

  glb-stop :
      (fuel : ℕ) (s : Victim W)
      → NoRequest s.req_thread
      → (not (idle s.workers) && s.thieves.thieves_waiting) ≡ false
      → IsValid ranks s.thieves
      → GlbRounds (suc fuel) s
  unfolding serve_rounds_glb
  glb-stop fuel s r off v = (
    false,
    [],
    s,
    rw off (by_request-free _ _ r),
    Served-nothing ranks me steal_n contents s v,
    refl,
    refl,
  )

  -- What the loop does with the outcome of an attempt.
  abbrev Continues : ℕ → Victim W → Bool → Victim W → Type 0
  Continues fuel s success t = serve_rounds_glb steal idle ranks me steal_n advance (suc fuel) s ≡ (
      if success
      then serve_rounds_glb steal idle ranks me steal_n advance fuel t
      else some (false, t))

  glb-answers :
      (fuel : ℕ) (s t : Victim W) (i : ℕ) (success : Bool)
      → s.req_thread ≡ requested i
      → serve_synchronous steal idle ranks me steal_n advance s ≡ some (success, t)
      → Continues fuel s success t
  unfolding serve_rounds_glb
  glb-answers fuel s t i true r e = rw e (by_request-asked _ _ r)
  glb-answers fuel s t i false r e = rw e (by_request-asked _ _ r)

  glb-serves :
      (fuel : ℕ) (s t : Victim W) (success : Bool)
      → NoRequest s.req_thread
      → (not (idle s.workers) && s.thieves.thieves_waiting) ≡ true
      → serve_asynchronous steal idle ranks me steal_n advance s ≡ some (success, t)
      → Continues fuel s success t
  unfolding serve_rounds_glb
  glb-serves fuel s t true r on e = rw (on, e) (by_request-free _ _ r)
  glb-serves fuel s t false r on e = rw (on, e) (by_request-free _ _ r)

  glb-continue :
      (fuel : ℕ) (s t : Victim W) (success : Bool) (bs : Batches)
      → Continues fuel s success t
      → Served ranks me steal_n contents bs s t
      → success ≡ ltb 0 (length (tasks_of bs))
      → Answered advance NoRequest s.launched s.req_thread bs t.req_thread
      → length (contents s.workers) < suc fuel
      → ((length (contents t.workers) < fuel) → GlbRounds fuel t)
      → GlbRounds (suc fuel) s
  glb-continue fuel s t false bs c served sends answers enough rest =
      (false, bs, t, c, served, refl, answers)
  glb-continue fuel s t true bs c served sends answers enough rest =
      let (success, cs, u, e, more, ends, later) =
        rest (omega (arith, ltb→lt 0 (length (tasks_of bs)) (sym sends), served.parts.number)) in
      (
        success,
        bs ++ cs,
        u,
        c ∙ e,
        Served-trans ranks me steal_n contents served more,
        ends,
        Answered-append advance NoRequest s.launched bs cs t.launched s.req_thread t.req_thread
            u.req_thread served.sent answers later,
      )

  pub serve_rounds_glb_lem :
      Takes steal contents
      → Appends ranks advance
      → steal_n ≤ 5
      → (fuel : ℕ) (s : Victim W) → length (contents s.workers) < fuel
      → IsValid ranks s.thieves
      → GlbRounds fuel s
  serve_rounds_glb_lem takes appends bound zero s enough v = absurd (omega arith)
  serve_rounds_glb_lem takes appends bound (suc fuel) s enough v =
      elim (request_cases s.req_thread) [
        | inr (i, r) ↦
            let (ts, w, e, few, p) =
              steal_loop_lem steal idle contents takes 0 steal_n s.workers (omega arith) in
            let (success, bs, t, result, served, sends, answers) =
              answer-of-batch appends s v bound i r ts w e few p in
            glb-continue fuel s t success bs (glb-answers fuel s t i success r result) served sends
              answers enough (λ k. serve_rounds_glb_lem takes appends bound fuel t k served.valid)
        | inl none_asks ↦ elim (Bool-cases (not (idle s.workers) && s.thieves.thieves_waiting)) [
          | inr off ↦ glb-stop fuel s none_asks off v
          | inl on ↦
              let (success, bs, t, result, served, sends, answers) =
                serve_asynchronous-Round steal idle ranks me steal_n advance contents NoRequest
                  takes appends bound s v (ground (arith, on)) none_asks in
              glb-continue fuel s t success bs (glb-serves fuel s t success none_asks on result)
                served sends answers enough
                (λ k. serve_rounds_glb_lem takes appends bound fuel t k served.valid)
        ]
      ]
