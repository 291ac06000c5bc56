-- ===== src/DistWs/Serve/Baseline.antt =====
-- src/hcupc_spmd_distWS_common.cpp: serve_pending_distSteal_request_baseline.
use habanero_upc.Prelude.{
  ℕ, ◌≤◌, ◌<◌, ◌≡◌, ◌⊎◌, Bool, true, Option, some, List, [], ◌∷◌, ◌++◌, ltb, length,
}
use habanero_upc.DistWs.Steal.{req_available, requested}
use habanero_upc.DistWs.Serve.{Network, Victim, serve_baseline}
use habanero_upc.DistWs.Serve.Batches.{Parts}

module _ {W : Type 0} (steal : W → Option (ℕ × W)) (idle : W → Bool) (ranks me steal_n : ℕ)
    (advance : Network) (contents : W → List ℕ) (async_any pending : W → ℕ) where
  -- A request is answered by one batch and taken off, or it stays.
  abbrev pub Answer : ℕ → List ℕ → Victim W → Victim W → Type 0
  Answer i ts s t =
      ((ts ≡ []) × (t.launched ≡ s.launched) × (t.req_thread ≡ requested i))
      ⊎ ((0 < length ts)
          × (t.launched ≡ s.launched ++ (i, ts, true) ∷ [])
          × (t.req_thread ≡ advance.request t.launched req_available))

  abbrev Baseline : ℕ → Victim W → Type 0
  Baseline i s =
      (ts : List ℕ) × (t : Victim W) × (serve_baseline steal idle ranks me steal_n advance async_any
          pending s
        ≡ some (ltb 0 (length ts), t))
      × (length ts ≤ steal_n)
      × Parts (contents s.workers) ts (contents t.workers)
      × Answer i ts s t
