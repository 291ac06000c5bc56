-- ===== src/DistWs/Hunt/Contacted.antt =====
-- src/hcupc_spmd_distWS_common.cpp: what search_for_lifelines does at the other places.
use habanero_upc.Prelude.{
  ℕ, zero, suc, ◌+◌, ◌%◌, ◌^◌, ◌≤◌, ◌<◌, ◌≡◌, ◌≢◌, refl, sym, ap, Bool, true, false, Option, some,
  List, [], ◌∷◌, ◌++◌, arith, ltb, if◌then◌else◌, length, ==_iff, ℕ_discrete, Bool-cases,
  some-injective, Option-cases, inl, inr,
}
use mathlib.Core.List.{append-nil}
use native.Mathlib.Nat.{mod-lt, zero-add}
use habanero_upc.Victims.Selection.{Selection, Selects}
use habanero_upc.DistWs.ThiefQueue.{Thieves, victim_already_contacted, mark_victim_contacted}
use habanero_upc.DistWs.InFlight.{received_tasks_from_victim}
use habanero_upc.Stats.{contacted_victims_statistics, total_asyncany_rdma_probes_stats}
use habanero_upc.DistWs.Hunt.{exceeds, Place, Thief, Machine, count_probe, is_unreturned}
use habanero_upc.DistWs.Hunt.Lifelines.{
  set_lifeline, attempt_steal_or_set_lifeline, lifeline_victim, lifeline_turns,
  search_for_lifelines,
}
use habanero_upc.DistWs.Hunt.Waits.{Answers, advance_while_lem}
use habanero_upc.DistWs.Hunt.Asks.{
  Asks, Asks-none, Asks-trans, Along, Along-le, recounted, differs, counted,
}

module _ {W S : Type 0} (m : Machine W) (sel : Selection S) (ranks me : ℕ)
    (cyclic_steals_not_allowed : Bool) (tmp : ℕ → Option ℕ) (task_transfer_threshold fuel : ℕ)
    (answers : Answers m fuel) where
  marked_once :
      (v : ℕ) (q : Thieves)
      → victim_already_contacted v q ≡ false
      → (t : Thieves) × (mark_victim_contacted ranks cyclic_steals_not_allowed v tmp q ≡ some t)
  unfolding mark_victim_contacted victim_already_contacted
  marked_once v q e =
      elim (Option-cases (mark_victim_contacted ranks cyclic_steals_not_allowed v tmp q)) [
        | inl failed ↦ absurd (ground (arith, e, failed))
        | inr ok ↦ ok
      ]

  set_lifeline_lem :
      (v : ℕ) (s : Thief W S)
      → victim_already_contacted v s.place.thieves ≡ false
      → (p : Place W) × (set_lifeline m sel ranks me cyclic_steals_not_allowed tmp
            task_transfer_threshold fuel v s
          ≡ some (record s { place = p; asked = s.asked ++ v ∷ [] }))
  unfolding set_lifeline
  set_lifeline_lem v s e =
      let (q, marked) = marked_once v s.place.thieves e in
      let waiting : Thief W S = record s {
        place = record (s.place) { thieves = q; waiting_for_return_async = true };
        asked = s.asked ++ v ∷ [];
      } in
      let (k, within, over) = answers.answer (s.asked ++ v ∷ []) waiting.place in
      let (p, ended, _, _) = advance_while_lem m is_unreturned fuel k waiting within over in
      (p, rw marked ended)

  attempt_lem :
      (v : ℕ) (s : Thief W S)
      → v < ranks
      → v ≢ me
      → (success : Bool) × (t : Thief W S) × (attempt_steal_or_set_lifeline m sel ranks me
            cyclic_steals_not_allowed tmp task_transfer_threshold fuel v s
          ≡ some (success, t))
        × Asks ranks me 1 (if success then v ∷ [] else []) s.stats.searches s t
  unfolding attempt_steal_or_set_lifeline total_asyncany_rdma_probes_stats
  attempt_lem v s h o =
      let s1 : Thief W S =
        count_probe
          (record s { place = record (s.place) { shared = m.meanwhile s.place.shared } }) in
      elim (Bool-cases (victim_already_contacted v s.place.thieves)) [
        | inl marked ↦ (false, s, rw marked refl, Asks-none ranks me 1 s s.last_steal)
        | inr free ↦
            elim (Bool-cases
              (exceeds task_transfer_threshold ((m.meanwhile s.place.shared).work_avail v))) [
                | inl busy ↦
                    let (p, e) = set_lifeline_lem v s1 free in
                    (
                      true,
                      record s1 { place = p; asked = s1.asked ++ v ∷ [] },
                      rw (free, busy, e) refl,
                      record {
                        asked = refl;
                        others = ((h, o), tt);
                        bounded = omega arith;
                        attempts = refl;
                        failed = refl;
                        probes_least = omega arith;
                        probes_most = omega arith;
                        thieves = λ d. cc;
                        flights = λ d. cc;
                        searches = refl;
                      },
                    )
                | inr idle ↦ (
                  false,
                  s1,
                  rw (free, idle) refl,
                  record {
                    asked = sym (append-nil s.asked);
                    others = tt;
                    bounded = omega arith;
                    attempts = refl;
                    failed = refl;
                    probes_least = omega arith;
                    probes_most = omega arith;
                    thieves = λ _. refl;
                    flights = λ _. refl;
                    searches = refl;
                  },
                )
              ]
      ]

  abbrev Picks : Bool → ℕ → S → Type 0
  Picks is_glb i last =
      (v : ℕ) × (last' : S) × (lifeline_victim m sel ranks me cyclic_steals_not_allowed tmp
          task_transfer_threshold fuel is_glb i last
        ≡ some (v, last'))
      × (v < ranks)

  pub picks :
      (is_glb : Bool) (i : ℕ) (last : S)
      → 0 < ranks
      → (is_glb ≡ false → Selects ranks me sel)
      → Picks is_glb i last
  unfolding lifeline_victim
  picks true i last pos selects = ((2 ^ i + me) % ranks, last, refl, mod-lt (2 ^ i + me) pos)
  picks false i last pos selects =
      let (v, last', e, inside, _) = (selects refl).selects last in (v, last', e, inside)

  lifeline :
      {is_glb : Bool} {v : ℕ} {last' : S}
      → is_glb ≡ true
      → (i : ℕ) (last : S)
      → lifeline_victim m sel ranks me cyclic_steals_not_allowed tmp task_transfer_threshold fuel
          is_glb i last
        ≡ some (v, last')
      → v ≡ (2 ^ i + me) % ranks
  unfolding lifeline_victim
  lifeline glb i last e = sym (ap (λ r. r.0) (some-injective (rw glb at e)))

  asked_Along :
      (success : Bool) (i n v : ℕ) (vs : List ℕ)
      → v ≡ (2 ^ i + me) % ranks
      → Along ranks me (i + 1) (i + 1 + n) vs
      → Along ranks me i (i + suc n) ((if success then v ∷ [] else []) ++ vs)
  asked_Along true i n v vs e a =
      (i, omega arith, omega arith, e, Along-le ranks me vs (omega arith) (omega arith) a)
  asked_Along false i n v vs e a = Along-le ranks me vs (omega arith) (omega arith) a

  -- The turns of the loop, where every victim that it picks is a place.
  pub turns_lem :
      (is_glb : Bool) (i n c : ℕ) (s : Thief W S)
      → ((k : ℕ) (last : S) → i ≤ k → k < i + n → Picks is_glb k last)
      → (vs : List ℕ) × (t : Thief W S) × (lifeline_turns m sel ranks me cyclic_steals_not_allowed
            tmp task_transfer_threshold fuel is_glb i n c s
          ≡ some (c + length vs, t))
        × Asks ranks me n vs s.stats.searches s t
        × (is_glb ≡ true → Along ranks me i (i + n) vs)
  unfolding lifeline_turns lifeline_victim
  turns_lem is_glb i zero c s picks =
      ([], s, ap (λ k. some (k, s)) (omega arith), Asks-none ranks me 0 s s.last_steal, λ _. tt)
  turns_lem is_glb i (suc n) c s picks =
      elim (Bool-cases (received_tasks_from_victim s.place.flights)) [
        | inl received ↦ (
          [],
          s,
          rw received (ap (λ k. some (k, s)) (omega arith)),
          Asks-none ranks me (suc n) s s.last_steal,
          λ _. tt,
        )
        | inr go_on ↦
            let (v, last', e, inside) = picks i s.last_steal (omega arith) (omega arith) in
            let s1 : Thief W S = record s { last_steal = last' } in
            let later : (k : ℕ) (last : S) → i + 1 ≤ k → k < i + 1 + n → Picks is_glb k last =
              λ k last a b. picks k last (omega arith) (omega arith) in
            elim (ℕ_discrete me v) [
              | yes own ↦
                  let (vs, t, r, asks, along) = turns_lem is_glb (i + 1) n c s1 later in
                  (
                    vs,
                    t,
                    rw (go_on, e, (==_iff me v).1 own) r,
                    Asks-trans ranks me (omega arith) (Asks-none ranks me 1 s last') asks,
                    λ glb. Along-le ranks me vs (omega arith) (omega arith) (along glb),
                  )
              | no other ↦
                  let (success, s2, a, one) = attempt_lem v s1 inside (λ d. other (sym d)) in
                  let (vs, t, r, asks, along) =
                    turns_lem is_glb (i + 1) n (if success then c + 1 else c) s2 later in
                  (
                    (if success then v ∷ [] else []) ++ vs,
                    t,
                    rw (go_on, e, differs me v other, a, r)
                        (ap (λ k. some (k, t)) (counted success c v vs)),
                    Asks-trans ranks me {k = 1} {n = n} (omega arith)
                        (Asks-trans ranks me {k = 0} {n = 1} (omega arith)
                          (Asks-none ranks me 0 s last') one)
                        asks,
                    λ glb. asked_Along success i n v vs (lifeline glb i s.last_steal e) (along glb),
                  )
            ]
      ]

  -- search_for_lifelines along the lifelines of GLB, at any number of places, or with a selection that
  -- always answers: if UPC++ brings the answer to each steal request, the search ends and no assertion
  -- fails. It asks other places only, at most as many as it has turns, tells whether it has asked
  -- any, and counts the search by their number. It changes no attempt or failure count, and a search
  -- that asks nobody leaves the marks, the queue of thieves and the tasks in flight as they are.
  pub search_for_lifelines-Asks :
      (log : ℕ → ℕ) (is_glb : Bool) (s : Thief W S)
      → 0 < ranks
      → (is_glb ≡ false → Selects ranks me sel)
      → (vs : List ℕ) × (t : Thief W S) × (search_for_lifelines m sel ranks me
            cyclic_steals_not_allowed tmp task_transfer_threshold fuel log is_glb s
          ≡ some (ltb 0 (length vs), t))
        × Asks ranks me
            (if is_glb then log ranks else ranks)
            vs
            (contacted_victims_statistics (length vs) s.stats.searches)
            s
            t
  unfolding search_for_lifelines
  search_for_lifelines-Asks log is_glb s pos selects =
      let (vs, t, e, asks, _) =
        turns_lem is_glb 0 (if is_glb then log ranks else ranks) 0 s
          (λ k last _ _. picks is_glb k last pos selects) in
      let x = contacted_victims_statistics (length vs) s.stats.searches in
      (
        vs,
        record t { stats = record (t.stats) { searches = x } },
        rw (e, zero-add, asks.searches) refl,
        recounted ranks me asks x,
      )
