-- ===== src/DistWs/Lifeline/Crossing.antt =====
-- src/hcupc_spmd_distWS_common.cpp, the success-only work stealing with HCPP_CANCEL_CYCLIC_STEALS:
-- two steal requests that cross.
use habanero_upc.Prelude.{ℕ, ◌<◌, ◌≡◌, ◌≢◌, refl, true, arith}
use habanero_upc.DistWs.Lifeline.{
  System, attempt_steal_or_set_lifeline, queue_thief_of,
  serve_pending_dist_steal_request_asynchronous, receive_tasks, attempt, queue, serve, receive,
  init, Steps, here, next,
}

-- With cyclic steals cancelled, for any two of any number of places there is an interleaving in which
-- each asks the other before it has taken the other's request, and the assertion in
-- unmark_victimContacted fails when the first tasks arrive.
pub crossing_requests_fail :
    (n i v : ℕ) → i < n → v < n → i ≢ v → (s : System) × Steps n true init s × (s.failed ≡ true)
unfolding attempt_steal_or_set_lifeline queue_thief_of serve_pending_dist_steal_request_asynchronous
    receive_tasks init
crossing_requests_fail n i v li lv o = (
  _,
  next
      (next
        (next
          (next
            (next (next here (attempt i v li lv o refl))
              (attempt v i lv li (ground arith) (ground arith)))
            (queue i v li lv (ground arith)))
          (queue v i lv li (ground arith)))
        (serve i v li lv (ground arith)))
      (receive i v li lv (ground arith)),
  ground arith,
)
