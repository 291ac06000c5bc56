-- ===== src/Termination/Safety.antt =====
-- src/hcupc_spmd.cpp, hcpp_finish_barrier: what a place knows when its loop ends with TERM.
use habanero_upc.Prelude.{ℕ, ◌+◌, ◌-◌, ◌<◌, ◌≡◌, refl, ◌∙◌, Bool, true, false, arith, ltb, update}
use habanero_upc.Prelude.Counting.{total-const, total-weightless}
use habanero_upc.Termination.{
  System, Pc, working, sending, scanning, counted, polling, terminated, Step, work, count, send,
  receive, settle, no_local, scan_zero, scan_some, cbarrier_inc, inc_term, inc_no_term,
  cbarrier_dec, cbarrier_test, init, Steps, here, next,
}
use habanero_upc.Termination.Barrier.{inside, IsBarrier, inside-all, Step-IsBarrier}
use habanero_upc.Termination.Flight.{in_flight, arrivals, IsAccounted, arrived-le, Step-IsAccounted}

-- Place `i` has read its own flight counter as zero since it last worked.
abbrev pub past : ℕ → Pc → Bool
past i (scanning k) = ltb i k
past i counted = true
past i polling = true
past i terminated = true
past i _ = false

-- It has seen no local task since it last worked.
abbrev pub idle : Pc → Bool
idle working = false
idle (sending _) = false
idle _ = true

pub record IsQuiet (n : ℕ) (s : System) : Type 0 where
  no_flights : (i : ℕ) → i < n → past i (s.pc i) ≡ true → s.asyncs_in_flight i ≡ 0
  no_tasks : (i : ℕ) → i < n → idle (s.pc i) ≡ true → 0 < s.pending i → 0 < s.tasks_received i

moved-IsQuiet :
    {n : ℕ} {s : System} (i : ℕ) (p : Pc) (c : ℕ)
    → IsQuiet n s
    → (past i p ≡ true → s.asyncs_in_flight i ≡ 0)
    → (idle p ≡ true → 0 < s.pending i → 0 < s.tasks_received i)
    → IsQuiet n (record s { cb_count = c; pc = update s.pc i p })
moved-IsQuiet {n} {s} i p c v f t = record {
  no_flights = λ j lt q. ground (arith, v.no_flights j lt);
  no_tasks = λ j lt q h. ground (arith, v.no_tasks j lt);
}

Step-IsQuiet : {n : ℕ} {s t : System} → Step n s t → IsQuiet n s → IsQuiet n t
Step-IsQuiet (work i k lt h) v = record {
  no_flights = v.no_flights;
  no_tasks = λ j l q p. ground (arith, v.no_tasks j l);
}
Step-IsQuiet (count i j lt lj q h) v = record {
  no_flights = λ k l p. ground (arith, v.no_flights k l);
  no_tasks = λ k l p h'. ground (arith, v.no_tasks k l);
}
Step-IsQuiet (send i j lt lj q) v = record {
  no_flights = λ k l p. ground (arith, v.no_flights k l);
  no_tasks = λ k l p h'. ground (arith, v.no_tasks k l);
}
Step-IsQuiet (receive i j lt lj q h) v = record {
  no_flights = v.no_flights;
  no_tasks = λ k l p h'. ground (arith, v.no_tasks k l);
}
Step-IsQuiet (settle i j lt lj q) v = record {
  no_flights = λ k l p. ground (arith, v.no_flights k l);
  no_tasks = λ k l p h'. ground (arith, v.no_tasks k l);
}
Step-IsQuiet {n} {s} (no_local i lt q h) v =
    moved-IsQuiet i (scanning 0) s.cb_count v (λ p. ground arith) (λ p h'. absurd (omega arith))
Step-IsQuiet {n} {s} (scan_zero i k lt q lk h) v =
    moved-IsQuiet i (scanning (k + 1)) s.cb_count v (λ p. ground (arith, v.no_flights i lt))
      (λ p h'. ground (arith, v.no_tasks i lt))
Step-IsQuiet {n} {s} (scan_some i k lt q lk h) v =
    moved-IsQuiet i working s.cb_count v (λ p. cc) (λ p h'. cc)
Step-IsQuiet {n} {s} (cbarrier_inc i lt q) v =
    moved-IsQuiet i counted (s.cb_count + 1) v (λ p. ground (arith, v.no_flights i lt))
      (λ p h'. ground (arith, v.no_tasks i lt))
Step-IsQuiet {n} {s} (inc_term i lt q e) v =
    moved-IsQuiet i terminated s.cb_count v (λ p. ground (arith, v.no_flights i lt))
      (λ p h'. ground (arith, v.no_tasks i lt))
Step-IsQuiet {n} {s} (inc_no_term i lt q h) v =
    moved-IsQuiet i polling s.cb_count v (λ p. ground (arith, v.no_flights i lt))
      (λ p h'. ground (arith, v.no_tasks i lt))
Step-IsQuiet {n} {s} (cbarrier_dec i lt q h) v =
    moved-IsQuiet i working (s.cb_count - 1) v (λ p. cc) (λ p h'. cc)
Step-IsQuiet {n} {s} (cbarrier_test i lt q e) v =
    moved-IsQuiet i terminated s.cb_count v (λ p. ground (arith, v.no_flights i lt))
      (λ p h'. ground (arith, v.no_tasks i lt))

pub record Inv (n : ℕ) (s : System) : Type 0 where
  pub barrier : IsBarrier n s.cb_count s.pc
  accounted : IsAccounted n s
  pub quiet : IsQuiet n s

pub init-Inv : (n : ℕ) (pending : ℕ → ℕ) → Inv n (init pending)
unfolding init
init-Inv n pending = record {
  barrier = record { count_inside = total-const inside n working refl; all_in = λ i lt q. cc };
  accounted = record {
    sent = record {
      place =
          λ i lt. omega (arith, total-const in_flight n (record { moving = 0; arrived = 0 }) refl);
    };
    got = record {
      place =
          λ i lt. omega (arith, total-const arrivals n (record { moving = 0; arrived = 0 }) refl);
    };
  };
  quiet = record { no_flights = λ i lt q. cc; no_tasks = λ i lt q h. cc };
}

pub Steps-Inv : {n : ℕ} {s t : System} → Inv n s → Steps n s t → Inv n t
Steps-Inv v here = v
Steps-Inv v (next r st) =
    let w = Steps-Inv v r in
    record {
      barrier = Step-IsBarrier st w.barrier;
      accounted = Step-IsAccounted st w.accounted;
      quiet = Step-IsQuiet st w.quiet;
    }

-- What is known of place `j` when all places are inside the barrier.
pub record IsFinished (n : ℕ) (s : System) (j : ℕ) : Type 0 where
  pub in_barrier : inside (s.pc j) ≡ 1
  pub no_pending : s.pending j ≡ 0
  no_received : s.tasks_received j ≡ 0
  pub no_in_flight : s.asyncs_in_flight j ≡ 0
  pub no_moving : (k : ℕ) → k < n → (s.channel j k).moving ≡ 0

pub finished : {n : ℕ} {s : System} → Inv n s → s.cb_count ≡ n → (j : ℕ) → j < n → IsFinished n s j
finished {n} {s} v e j lt = record {
  in_barrier = all_inside j lt;
  no_pending = ground (arith, v.quiet.no_tasks j lt, all_inside j lt, nothing_received);
  no_received = nothing_received;
  no_in_flight = landed j lt;
  no_moving = λ k lk. omega (arith, (arrived-le v.accounted j k lt lk).1, landed j lt);
}
  where
    all_inside : (i : ℕ) → i < n → inside (s.pc i) ≡ 1
    all_inside i l = inside-all v.barrier e i l

    landed : (i : ℕ) → i < n → s.asyncs_in_flight i ≡ 0
    landed i l = ground (arith, v.quiet.no_flights i l, all_inside i l)

    nothing_received : s.tasks_received j ≡ 0
    nothing_received =
        v.accounted.got.place j lt
        ∙ total-weightless arrivals n (λ q. s.channel q j)
            (λ q l. omega (arith, (arrived-le v.accounted q j l lt).1, landed q l))

-- In every interleaving, when the loop of one place ends with TERM: every place is inside the
-- barrier with no local task and nothing received that is still to be settled, no flight counter is
-- above zero, and no task is on its way between any two places.
pub termination_safe :
    {n : ℕ} {s : System} (pending : ℕ → ℕ) (i : ℕ)
    → Steps n (init pending) s
    → i < n
    → s.pc i ≡ terminated
    → (j : ℕ) → j < n
    → IsFinished n s j
termination_safe {n} pending i r lt q =
    let v = Steps-Inv (init-Inv n pending) r in finished v (v.barrier.all_in i lt q)
