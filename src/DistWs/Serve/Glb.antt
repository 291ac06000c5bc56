-- ===== src/DistWs/Serve/Glb.antt =====
-- src/hcupc_spmd_distWS_common.cpp: serve_pending_distSteal_request_glb as a whole.
use habanero_upc.Prelude.{ℕ, Bool, false, Option, List}
use habanero_upc.DistWs.Serve.Successonly.{published}
use habanero_upc.DistWs.Serve.{Network, Victim, renewed}
use habanero_upc.DistWs.Serve.Served.{Batches, Served}
use habanero_upc.DistWs.Serve.Answered.{Answered}

module _ {W : Type 0} (steal : W → Option (ℕ × W)) (idle : W → Bool) (ranks me steal_n : ℕ)
    (advance : Network) (contents : W → List ℕ) (async_any pending : W → ℕ) where
  -- The state in which the loop starts.
  abbrev started : Victim W → Victim W
  started s = record s {
    current_glb_max_rand_attempts = 0;
    thieves = record (s.thieves) { out_of_work = false };
    flights = record (s.flights) { out_of_work = false };
    req_thread = renewed (async_any s.workers) s.req_thread;
  }

  abbrev publish : Victim W → Victim W
  publish = published steal idle ranks me steal_n advance contents async_any pending
