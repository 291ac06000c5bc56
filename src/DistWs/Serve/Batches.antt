-- ===== src/DistWs/Serve/Batches.antt =====
-- src/hcupc_spmd_distWS_common.cpp: the batch of tasks that steal_from_my_computation_workers takes.
use habanero_upc.Prelude.{
  ℕ, zero, suc, ◌+◌, ◌≤◌, ◌<◌, ◌≡◌, ◌⊎◌, inl, inr, refl, Bool, true, false, Option, none, some,
  List, [], ◌∷◌, ◌++◌, arith, ltb, if◌then◌else◌, length, length-append, count, count-append,
  Option-cases, Bool-cases, sym, ◌&&◌, lt→ltb,
}
use habanero_upc.Prelude.Int.{pos, ◌+ℤ◌, add-zero}
use habanero_upc.DistWs.InFlight.{Flights, increment_task_in_flight_self}
use habanero_upc.DistWs.Serve.{Victim, steal_loop, steal_from_my_computation_workers}

-- What the library hcpp documents of a steal: it takes one task out.
abbrev pub Takes : {W : Type 0} → (W → Option (ℕ × W)) → (W → List ℕ) → Type 0
Takes {W} steal contents =
    (w w1 : W) (t : ℕ)
    → steal w ≡ some (t, w1)
    → (xs : List ℕ) × (ys : List ℕ) × (contents w ≡ xs ++ t ∷ ys) × (contents w1 ≡ xs ++ ys)

-- The tasks of `before` are those of `taken` and those of `after`.
pub record Parts (before taken after : List ℕ) : Type 0 where
  pub tasks : (k : ℕ) → count k before ≡ count k taken + count k after
  pub number : length before ≡ length taken + length after

pub Parts-nil : (xs : List ℕ) → Parts xs [] xs
Parts-nil xs = record { tasks = λ k. omega arith; number = omega arith }

one-Parts : (t : ℕ) (xs ys : List ℕ) → Parts (xs ++ t ∷ ys) (t ∷ []) (xs ++ ys)
one-Parts t xs ys = record {
  tasks = λ k. ground (arith, count-append k xs (t ∷ ys), count-append k xs ys);
  number = omega (arith, length-append xs (t ∷ ys), length-append xs ys);
}

pub Parts-trans :
    {before taken middle taken2 after : List ℕ}
    → Parts before taken middle
    → Parts middle taken2 after
    → Parts before (taken ++ taken2) after
Parts-trans {before} {taken} {middle} {taken2} {after} p q = record {
  tasks = λ k. omega (arith, p.tasks k, q.tasks k, count-append k taken taken2);
  number = omega (arith, p.number, q.number, length-append taken taken2);
}

counted-batch :
    (me : ℕ) (f : Flights) (b : Bool)
    → (if b then increment_task_in_flight_self me f else f).asyncs_in_flight me
      ≡ f.asyncs_in_flight me +ℤ pos (if b then 1 else 0)
unfolding increment_task_in_flight_self
counted-batch me f true = ground arith
counted-batch me f false = sym (add-zero (f.asyncs_in_flight me))

module _ {W : Type 0} (steal : W → Option (ℕ × W)) (idle : W → Bool) where
  loop-stops :
      (i n : ℕ) (w : W)
      → ((ltb 0 i && idle w) ≡ true) ⊎ (steal w ≡ none)
      → steal_loop steal idle i (suc n) w ≡ some ([], w)
  unfolding steal_loop
  loop-stops i n w (inl e) = rw e
  loop-stops i n w (inr e) = elim (Bool-cases (ltb 0 i && idle w)) [
    | inl b ↦ rw b
    | inr b ↦ rw (b, e)
  ]

  loop-goes :
      (i n : ℕ) (w w1 w2 : W) (t : ℕ) (ts : List ℕ)
      → (ltb 0 i && idle w) ≡ false
      → steal w ≡ some (t, w1)
      → i < 5
      → steal_loop steal idle (i + 1) n w1 ≡ some (ts, w2)
      → steal_loop steal idle i (suc n) w ≡ some (t ∷ ts, w2)
  unfolding steal_loop
  loop-goes i n w w1 w2 t ts b e h r = rw (b, e, lt→ltb i 5 h, r)

  module _ (contents : W → List ℕ) where
    abbrev Loop : ℕ → ℕ → W → Type 0
    Loop i n w =
        (ts : List ℕ) × (w1 : W) × (steal_loop steal idle i n w ≡ some (ts, w1))
        × (length ts ≤ n)
        × Parts (contents w) ts (contents w1)

    stopped : (i n : ℕ) (w : W) → ((ltb 0 i && idle w) ≡ true) ⊎ (steal w ≡ none) → Loop i (suc n) w
    stopped i n w h = ([], w, loop-stops i n w h, omega arith, Parts-nil (contents w))

    pub steal_loop_lem : Takes steal contents → (i n : ℕ) (w : W) → i + n ≤ 5 → Loop i n w
    unfolding steal_loop
    steal_loop_lem takes i zero w h = ([], w, refl, omega arith, Parts-nil (contents w))
    steal_loop_lem takes i (suc n) w h = elim (Bool-cases (ltb 0 i && idle w)) [
      | inl b ↦ stopped i n w (inl b)
      | inr b ↦ elim (Option-cases (steal w)) [
        | inl e ↦ stopped i n w (inr e)
        | inr ((t, w1), e) ↦
            let (xs, ys, before, after) = takes w w1 t e in
            let one : Parts (contents w) (t ∷ []) (contents w1) =
              rw (before, after) (one-Parts t xs ys) in
            let (ts, w2, r, short, parts) = steal_loop_lem takes (i + 1) n w1 (omega arith) in
            (
              t ∷ ts,
              w2,
              loop-goes i n w w1 w2 t ts b e (omega arith) r,
              omega arith,
              Parts-trans one parts,
            )
      ]
    ]

  module _ (contents : W → List ℕ) (ranks me steal_n : ℕ) where
    -- If a place takes at most 5 tasks at once, steal_from_my_computation_workers writes inside its
    -- array: it returns at most `steal_n` tasks, those that the workers have lost, adds them to the
    -- counter of outgoing tasks, and counts one async in flight if there is a task and none otherwise.
    pub steal_from_my_computation_workers_lem :
        Takes steal contents
        → steal_n ≤ 5
        → (s : Victim W)
        → (ts : List ℕ) × (t : Victim W) × (steal_from_my_computation_workers steal idle ranks me
              steal_n s
            ≡ some (ts, t))
          × (length ts ≤ steal_n)
          × Parts (contents s.workers) ts (contents t.workers)
          × (t.outgoing_tasks ≡ s.outgoing_tasks + length ts)
          × (t.flights.asyncs_in_flight me
              ≡ s.flights.asyncs_in_flight me +ℤ pos (if ltb 0 (length ts) then 1 else 0))
    unfolding steal_from_my_computation_workers increment_task_in_flight_self
    steal_from_my_computation_workers_lem takes bound s =
        let (ts, w, e, few, parts) =
          steal_loop_lem contents takes 0 steal_n s.workers (omega arith) in
        (
          ts,
          record s {
            workers = w;
            outgoing_tasks = s.outgoing_tasks + length ts;
            flights =
                if ltb 0 (length ts) then increment_task_in_flight_self me s.flights else s.flights;
          },
          rw e refl,
          few,
          parts,
          refl,
          counted-batch me s.flights (ltb 0 (length ts)),
        )
