-- ===== src/DistWs/InFlight/Drain.antt =====
-- src/hcupc_spmd_distWS_common.cpp, decrement_tasks_in_flight_count: the loop ends, and takes from
-- the counter of each place exactly what was received from it.
use habanero_upc.Prelude.{
  ℕ, zero, suc, ◌+◌, ◌-◌, ◌≤◌, ◌<◌, ◌≡◌, ◌≢◌, refl, sym, ◌∙◌, none, some, arith, ltb, ◌==◌,
  if◌then◌else◌, update, dec_lt, inl, inr, Option-cases, lt→ltb,
}
use habanero_upc.Prelude.Int.{pos, ◌-ℤ◌, sub-zero}
use habanero_upc.Prelude.Counting.{total, total-update, total-single, total-zero}
use habanero_upc.DistWs.InFlight.{
  Flights, drain_one, decrement_tasks_in_flight_count, queue_source_place_of_remote_task,
}

-- The number of tasks received from the first `n` places.
abbrev pub received : ℕ → Flights → ℕ
received n s = total (λ k. k) n s.received_tasks_origin

pub record IsCounted (ranks : ℕ) (s : Flights) : Type 0 where
  pub sum : received ranks s ≡ s.tasks_received
  pub in_range : s.head_rto < ranks

queue-IsCounted :
    (ranks i : ℕ) (s : Flights)
    → i < ranks
    → IsCounted ranks s
    → IsCounted ranks (queue_source_place_of_remote_task i s)
unfolding queue_source_place_of_remote_task
queue-IsCounted ranks i s h v = ground (
  arith,
  total-update (λ (k : ℕ). k) ranks s.received_tasks_origin i (s.received_tasks_origin i + 1),
)

-- The place that the loop reads `d` rounds from now.
abbrev ahead : ℕ → ℕ → ℕ → ℕ
ahead ranks h d = if ltb (h + d) ranks then h + d else h + d - ranks

-- The last `j` places before the loop comes round have been reset.
abbrev IsReset : ℕ → ℕ → Flights → Type 0
IsReset ranks j s =
    (d : ℕ) → ranks ≤ d + j → d < ranks → s.received_tasks_origin (ahead ranks s.head_rto d) ≡ 0

-- What one round does.
record Round (ranks : ℕ) (s s' : Flights) : Type 0 where
  next_head : s'.head_rto ≡ (if s.head_rto + 1 == ranks then 0 else s.head_rto + 1)
  reset : s'.received_tasks_origin ≡ update s.received_tasks_origin s.head_rto 0
  counted : s'.tasks_received ≡ s.tasks_received - s.received_tasks_origin s.head_rto
  work : s'.out_of_work ≡ s.out_of_work
  owed :
      (p : ℕ)
      → s'.asyncs_in_flight p -ℤ pos (s'.received_tasks_origin p)
        ≡ s.asyncs_in_flight p -ℤ pos (s.received_tasks_origin p)

drain_one-Round :
    (ranks me : ℕ) (s : Flights) {s' : Flights} → drain_one ranks me s ≡ some s' → Round ranks s s'
unfolding drain_one
drain_one-Round ranks me s e = record {
  next_head = ground arith;
  reset = ground arith;
  counted = ground arith;
  work = ground arith;
  owed = λ p. ground (
    arith,
    sub-zero (s.asyncs_in_flight p -ℤ pos (s.received_tasks_origin p)),
    sub-zero (s.asyncs_in_flight p),
  );
}

drain_one-ne-none : (ranks me : ℕ) (s : Flights) → s.head_rto < ranks → drain_one ranks me s ≢ none
unfolding drain_one
drain_one-ne-none ranks me s h = ground arith

Round-IsCounted :
    (ranks : ℕ) {s s' : Flights} → Round ranks s s' → IsCounted ranks s → IsCounted ranks s'
Round-IsCounted ranks {s} r v = record {
  sum = rw r.reset (
      omega (
        arith,
        total-update (λ (k : ℕ). k) ranks s.received_tasks_origin s.head_rto 0 v.in_range,
        v.sum,
        r.counted,
      ));
  in_range = ground (arith, r.next_head, v.in_range);
}

Round-IsReset :
    (ranks j : ℕ) {s s' : Flights}
    → s.head_rto < ranks
    → Round ranks s s'
    → IsReset ranks j s
    → IsReset ranks (suc j) s'
Round-IsReset ranks j {s} {s'} h r v d lo hi = rw (r.next_head, r.reset) (ground (arith, v (d + 1)))

all-reset :
    (ranks : ℕ) (s : Flights)
    → s.head_rto < ranks
    → IsReset ranks ranks s
    → (p : ℕ) → p < ranks
    → s.received_tasks_origin p ≡ 0
all-reset ranks s h v p lt = elim (dec_lt p s.head_rto) [
  | yes before ↦ ground (arith, v (p + ranks - s.head_rto))
  | no after ↦ ground (arith, v (p - s.head_rto))
]

-- What the loop leaves.
pub record Drained (ranks : ℕ) (s t : Flights) : Type 0 where
  pub none_left : t.tasks_received ≡ 0
  pub counted : IsCounted ranks t
  taken_off :
      (p : ℕ)
      → p < ranks
      → t.asyncs_in_flight p ≡ s.asyncs_in_flight p -ℤ pos (s.received_tasks_origin p)
  pub cleared : (p : ℕ) → p < ranks → t.received_tasks_origin p ≡ 0
  pub work : t.out_of_work ≡ s.out_of_work

-- Nothing was received: nothing is taken off.
stop : (ranks : ℕ) (s : Flights) → IsCounted ranks s → s.tasks_received ≡ 0 → Drained ranks s s
stop ranks s v e = record {
  none_left = e;
  counted = v;
  taken_off = λ p lt. rw (zero_at p lt) (sym (sub-zero (s.asyncs_in_flight p)));
  cleared = zero_at;
  work = refl;
}
  where
    zero_at : (p : ℕ) → p < ranks → s.received_tasks_origin p ≡ 0
    zero_at p lt =
        omega (arith, total-single (λ (k : ℕ). k) ranks s.received_tasks_origin p lt, v.sum)

step : (ranks : ℕ) {s s' t : Flights} → Round ranks s s' → Drained ranks s' t → Drained ranks s t
step ranks {s} {s'} {t} r d = record {
  none_left = d.none_left;
  counted = d.counted;
  taken_off = λ p lt. d.taken_off p lt ∙ r.owed p;
  cleared = d.cleared;
  work = d.work ∙ r.work;
}

drain :
    (ranks me fuel j : ℕ) (s : Flights)
    → ranks < fuel + j
    → j ≤ ranks
    → IsCounted ranks s
    → IsReset ranks j s
    → (t : Flights) × (decrement_tasks_in_flight_count ranks me fuel s ≡ some t) × Drained ranks s t
unfolding decrement_tasks_in_flight_count
drain ranks me zero j s enough small v z = absurd (omega arith)
drain ranks me (suc fuel) j s enough small v z = elim (dec_lt 0 s.tasks_received) [
  | no done ↦ (s, ground arith, stop ranks s v (omega arith))
  | yes more ↦ elim (Option-cases (drain_one ranks me s)) [
    | inl e ↦ absurd (drain_one-ne-none ranks me s v.in_range e)
    | inr (s', e) ↦
        let r = drain_one-Round ranks me s e in
        let (t, run, d) =
          drain ranks me fuel (suc j) s' (omega arith) (unfinished more) (Round-IsCounted ranks r v)
            (Round-IsReset ranks j v.in_range r z) in
        (t, rw (lt→ltb 0 s.tasks_received more, e) run, step ranks r d)
  ]
]
  where
    unfinished : 0 < s.tasks_received → j < ranks
    unfinished more = elim (dec_lt j ranks) [
      | yes p ↦ p
      | no p ↦ absurd (
          omega (
            arith,
            v.sum,
            total-zero ranks s.received_tasks_origin
                (all-reset ranks s v.in_range (λ d lo hi. z d (omega arith) hi)),
          ))
    ]

-- The loop ends after at most one round for each place, with no failed assertion. It leaves no task
-- counted as received, and has taken off each place's counter of tasks in flight the number that
-- was received from that place.
pub decrement_tasks_in_flight_count_drains :
    (ranks me fuel : ℕ) (s : Flights)
    → ranks < fuel
    → IsCounted ranks s
    → (t : Flights) × (decrement_tasks_in_flight_count ranks me fuel s ≡ some t) × Drained ranks s t
decrement_tasks_in_flight_count_drains ranks me fuel s enough v =
    drain ranks me fuel 0 s (omega arith) (omega arith) v (λ d lo hi. absurd (omega arith))
