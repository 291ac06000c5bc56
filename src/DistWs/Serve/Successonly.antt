-- ===== src/DistWs/Serve/Successonly.antt =====
-- src/hcupc_spmd_distWS_common.cpp: serve_pending_distSteal_request_successonly as a whole.
use habanero_upc.Prelude.{
  ℕ, ◌≤◌, ◌<◌, ◌≡◌, refl, Bool, Option, some, List, ltb, if◌then◌else◌, length, true,
}
use habanero_upc.DistWs.ThiefQueue.Fifo.{IsValid}
use habanero_upc.DistWs.Serve.{Network, Victim, serve_successonly, publish_local_load_info}
use habanero_upc.DistWs.Serve.Batches.{Takes}
use habanero_upc.DistWs.Serve.Served.{Batches, Served}
use habanero_upc.DistWs.Serve.Rounds.{Appends, Ended, serve_rounds_lem}

module _ {W : Type 0} (steal : W → Option (ℕ × W)) (idle : W → Bool) (ranks me steal_n : ℕ)
    (advance : Network) (contents : W → List ℕ) (async_any pending : W → ℕ) where
  abbrev pub published : Victim W → Victim W
  published t = record t {
    work_avail = if ltb 0 (async_any t.workers) then async_any t.workers else pending t.workers;
  }

  pub published-Served :
      {bs : Batches} {s t : Victim W}
      → Served ranks me steal_n contents bs s t
      → Served ranks me steal_n contents bs s (published t)
  published-Served h = record {
    sent = h.sent;
    parts = h.parts;
    valid = h.valid;
    arrived = h.arrived;
    fifo = h.fifo;
    counted = h.counted;
    sizes = h.sizes;
    outgoing = h.outgoing;
  }

  -- With more fuel than the workers have tasks, serving the thieves of a valid queue ends and no
  -- assertion fails, if a place takes at most 5 tasks at once. The batches sent then hold exactly the
  -- tasks that the workers have lost, between one and `steal_n` each, and go to the first thieves of
  -- the queue in its order; one async in flight is counted for each batch. The loop ends as a worker
  -- is idle, no thief waits, or an attempt has found no task, and the load is published last.
  pub serve_successonly-Served :
      Takes steal contents
      → Appends ranks advance
      → steal_n ≤ 5
      → (fuel : ℕ) (s : Victim W) → length (contents s.workers) < fuel
      → IsValid ranks s.thieves
      → (success : Bool) × (bs : Batches) × (t : Victim W) × (serve_successonly steal idle ranks me
            steal_n advance async_any pending fuel s
          ≡ some (success, t))
        × Served ranks me steal_n contents bs s t
        × Ended steal idle ranks me steal_n advance contents s t success
        × (t.work_avail
            ≡ (if ltb 0 (async_any t.workers) then async_any t.workers else pending t.workers))
  unfolding serve_successonly publish_local_load_info
  serve_successonly-Served takes appends bound fuel s enough v =
      let (success, bs, t, e, served, why) =
        serve_rounds_lem steal idle ranks me steal_n advance contents takes appends bound fuel true
          s enough v in
      (success, bs, published t, rw e refl, published-Served served, why, refl)
