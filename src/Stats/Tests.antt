-- ===== src/Stats/Tests.antt =====
-- The statistics after a few calls.
use habanero_upc.Prelude.{some, true, false, List, [], ◌∷◌, ltb}
use habanero_upc.Stats.Reports.{Call, failed_steal, search, success_steal, rdma_probe}

-- Failed steals in timestep 3, and after the estimated time.
abbrev calls : List Call
calls =
    rdma_probe
    ∷ failed_steal (some (ltb 2))
    ∷ search 2
    ∷ success_steal true
    ∷ failed_steal (some (λ _. false))
    ∷ search 0
    ∷ search 7
    ∷ []
