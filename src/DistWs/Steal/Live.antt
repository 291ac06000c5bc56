-- ===== src/DistWs/Steal/Live.antt =====
-- src/hcupc_spmd_distWS_common.cpp, the baseline work stealing: no thief waits in vain.
use habanero_upc.Prelude.{ℕ, ◌<◌, ◌≡◌, ◌⊎◌, inl, inr, refl, true, false, arith, dec_lt}
use habanero_upc.Prelude.Counting.{total-single, total-positive}
use habanero_upc.DistWs.Steal.{
  Request, requested, Pc, running, invalidating, searching, awaiting, shipped, System, ship,
  deliver, invalidate, init, Steps, here, next,
}
use habanero_upc.DistWs.Steal.Requests.{
  owes, victims_state, answers, IsConsistent, Steps-IsConsistent,
}

-- In every interleaving, a place that waits for tasks is in steal_from_victim_baseline, and exactly
-- one answer to it is outstanding: either one victim holds its request and has not answered it, or
-- one async with tasks is on its way to it.
pub one_answer_outstanding :
    {n : ℕ} {s : System} (j : ℕ)
    → Steps n init s
    → j < n
    → s.wait_for_task_from_victim j ≡ true
    → (s.pc j ≡ awaiting) × (answers n s j ≡ 1)
one_answer_outstanding j r lt e =
    let v = Steps-IsConsistent r in (v.awake j e, ground (arith, v.answered j lt))

-- In every interleaving, a request that stands at a victim either has been answered and is about to
-- be cleared by the victim, or its thief is waiting; and the victim is not out of work.
pub request_live :
    {n : ℕ} {s : System} (i j : ℕ)
    → Steps n init s
    → i < n
    → j < n
    → s.req_thread i ≡ requested j
    → ((s.pc i ≡ shipped j) ⊎ ((s.pc j ≡ awaiting) × (s.wait_for_task_from_victim j ≡ true)))
      × (s.out_of_work i ≡ false)
request_live {n} {s} i j r li lj e = (go (s.pc i) refl, ground (arith, v.closed i))
  where
    v : IsConsistent n s
    v = Steps-IsConsistent r

    go :
        (p : Pc)
        → s.pc i ≡ p
        → (s.pc i ≡ shipped j) ⊎ ((s.pc j ≡ awaiting) × (s.wait_for_task_from_victim j ≡ true))
    go running q =
        inr (
          ground
            (arith, v.awake j, v.answered j lj, total-single (owes j) n (victims_state s) i li))
    go (shipped k) q = inl (ground (arith, v.held i k q))
    go (invalidating k) q = absurd (ground (arith, v.closed i (v.looking i (ground arith))))
    go searching q = absurd (ground (arith, v.closed i (v.looking i (ground arith))))
    go awaiting q = absurd (ground (arith, v.closed i (v.looking i (ground arith))))

-- The answers that are still to come can come.
answer_comes :
    {n : ℕ} {s : System} (i j : ℕ)
    → i < n
    → j < n
    → IsConsistent n s
    → (p : Pc) → s.pc i ≡ p
    → 0 < owes j (s.pc i, s.req_thread i)
    → (t : System) × Steps n s t × (t.wait_for_task_from_victim j ≡ false)
answer_comes {n} {s} i j li lj v running e h = (
  _,
  next (next here (ship i j li e (asks (s.req_thread i) refl))) (deliver j lj (ground arith)),
  ground arith,
)
  where
    asks : (q : Request) → s.req_thread i ≡ q → s.req_thread i ≡ requested j
    asks q f = ground arith
answer_comes {n} {s} i j li lj v (shipped k) e h = absurd (ground arith)
answer_comes {n} {s} i j li lj v (invalidating k) e h =
    (_, next here (invalidate i k li e), ground arith)
answer_comes {n} {s} i j li lj v searching e h =
    absurd (ground (arith, v.closed i (v.looking i (ground arith))))
answer_comes {n} {s} i j li lj v awaiting e h =
    absurd (ground (arith, v.closed i (v.looking i (ground arith))))

-- In every interleaving, if a place waits for tasks, there is a continuation in which its wait ends.
pub wait_ends :
    {n : ℕ} {s : System} (j : ℕ)
    → Steps n init s
    → j < n
    → s.wait_for_task_from_victim j ≡ true
    → (t : System) × Steps n s t × (t.wait_for_task_from_victim j ≡ false)
wait_ends {n} {s} j r lt e =
    let v = Steps-IsConsistent r in
    elim (dec_lt 0 (s.shipments j)) [
      | yes coming ↦ (_, next here (deliver j lt coming), ground arith)
      | no none_sent ↦
          let (i, li, h) =
            total-positive (owes j) n (victims_state s) (ground (arith, v.answered j lt)) in
          answer_comes i j li lt v (s.pc i) refl h
    ]
