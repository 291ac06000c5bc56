-- ===== src/DistWs/Hunt/Attempts.antt =====
-- src/hcupc_spmd_distWS_common.cpp: what search_tasks_globally_synchronous does.
use habanero_upc.Prelude.{
  ℕ, zero, suc, ◌-◌, ◌≡◌, refl, Bool, true, false, ◌&&◌, some, List, [], ◌∷◌, arith, leb,
  Bool-cases, inl, inr, sym, ◌∙◌, ◌≤◌, ◌⊎◌, length,
}
use habanero_upc.Victims.Selection.{Selection, Selects}
use habanero_upc.DistWs.Hunt.{Thief, Machine}
use habanero_upc.DistWs.Hunt.Turns.{
  Turns, has_success, winner, has_success-cons, has_success-one, winner-cons, winner-one,
}
use habanero_upc.DistWs.Hunt.Attempt.{Ends, Waited, attempt_lem}
use habanero_upc.DistWs.Hunt.Tries.{Tries, Tries-none, Tries-trans, Tries-le, Capped, Capped-once}
use habanero_upc.DistWs.Hunt.Synchronous.{
  Status, count_attempt, is_success, synchronous_turns, search_tasks_globally_synchronous,
}

module _ {W S : Type 0} (m : Machine W) (sel : Selection S) (me task_transfer_threshold : ℕ)
    (glb_max_rand_attempts : ℕ) where
  -- A search of at most `n` turns: its turns `os` are those that the arrays of the other places
  -- determine, and it ends at a success, at the bound of GLB, or after the last turn.
  pub record Searched (is_glb : Bool) (n : ℕ) (os : List (ℕ × Status)) (success : Bool)
      (s t : Thief W S) : Type 0 where
    pub tries : Tries me is_glb n os success s t
    pub turns : Turns task_transfer_threshold m sel os s.last_steal s.place.shared
    pub result : success ≡ has_success os
    pub complete :
        success ≡ false
        → (length os ≡ n)
          ⊎ ((is_glb ≡ true) × (glb_max_rand_attempts ≤ t.current_glb_max_rand_attempts))
    pub waited : success ≡ true → (v : ℕ) × (winner os ≡ some v) × Waited m me v t
    pub capped : Capped glb_max_rand_attempts is_glb s t

module _ {W S : Type 0} (m : Machine W) (sel : Selection S) (ranks me : ℕ)
    (task_transfer_threshold fuel : ℕ) (ends : Ends m me fuel) where
  module _ (glb_max_rand_attempts : ℕ) (selects : Selects ranks me sel) where
    turns_lem :
        (is_glb : Bool) (n : ℕ) (s : Thief W S)
        → (success : Bool) × (t : Thief W S) × (os : List (ℕ × Status)) × (synchronous_turns m sel
              ranks me task_transfer_threshold fuel glb_max_rand_attempts is_glb n s
            ≡ some (success, t))
          × Searched m sel me task_transfer_threshold glb_max_rand_attempts is_glb n os success s t
    unfolding synchronous_turns
    turns_lem is_glb zero s = (
      false,
      s,
      [],
      refl,
      record {
        tries = Tries-none me is_glb 0 s;
        turns = tt;
        result = refl;
        complete = λ _. inl refl;
        waited = λ d. absurd cc;
        capped = λ _ h. omega arith;
      },
    )
    turns_lem is_glb (suc n) s =
        let (v, last, picked, _, _) = selects.selects s.last_steal in
        let (status, s1, e, one, joins, waits) =
          attempt_lem m sel ranks me task_transfer_threshold fuel ends is_glb v
            (record s { last_steal = last }) in
        let s2 = count_attempt is_glb status s1 in
        let (success, t, os, rest, others) = turns_lem is_glb n s2 in
        elim (Bool-cases (is_success status)) [
          | inl won ↦ (
            true,
            s2,
            (v, status) ∷ [],
            rw (picked, e, won) refl,
            record {
              tries = Tries-le me last (omega arith) won one;
              turns = joins [] s.last_steal picked (λ _. refl) tt;
              result = sym (has_success-one v status ∙ won);
              complete = λ d. cc;
              waited = λ _. (v, winner-one v status won, waits won);
              capped =
                  Capped-once me glb_max_rand_attempts {s = s} {t = s2}
                    (Tries-le me last (omega arith) won one);
            },
          )
          | inr lost ↦
              let missed : Tries me is_glb 1 ((v, status) ∷ []) false s s2 =
                Tries-le me last (omega arith) lost one in
              elim (Bool-cases
                (is_glb && leb glb_max_rand_attempts s2.current_glb_max_rand_attempts)) [
                  | inl enough ↦ (
                    false,
                    s2,
                    (v, status) ∷ [],
                    rw (picked, e, lost, enough) refl,
                    record {
                      tries = Tries-le me last (omega arith) lost one;
                      turns = joins [] s.last_steal picked (λ _. refl) tt;
                      result = sym (has_success-one v status ∙ lost);
                      complete = λ _. inr (ground arith);
                      waited = λ d. absurd cc;
                      capped = Capped-once me glb_max_rand_attempts {s = s} {t = s2} missed;
                    },
                  )
                  | inr more ↦ (
                    success,
                    t,
                    (v, status) ∷ os,
                    rw (picked, e, lost, more, rest) refl,
                    record {
                      tries = Tries-trans me missed others.tries;
                      turns =
                          joins os s.last_steal picked (λ d. absurd (ground (arith, d, lost)))
                            others.turns;
                      result = others.result ∙ sym (has_success-cons v status os lost);
                      complete = λ d. elim (others.complete d) [
                        | inl all ↦ inl (omega (arith, all))
                        | inr bound ↦ inr bound
                      ];
                      waited = λ d.
                          let (x, is, w) = others.waited d in
                          (x, winner-cons v status os lost ∙ is, w);
                      capped = λ glb h. others.capped glb (ground arith);
                    },
                  )
                ]
        ]

    -- search_tasks_globally_synchronous: if each wait for a victim ends and the selection always
    -- answers, the search ends. Its turns are at the victims that the selection gives, at most one for
    -- each other place: one succeeds if the victim declares enough tasks and takes a request, fails
    -- if it declares them and takes none, and finds nothing otherwise. It ends at the first
    -- success, at the bound of GLB, or after the last turn, and returns whether there was a success.
    -- It counts each turn as a probe and each failed one as a failed steal, also as an attempt of
    -- GLB, and these do not pass their bound. It sends no steal request of the lifelines. After a
    -- success the request of this place stood at the victim of that turn, the place waited for it, and
    -- is open to thieves, with its load set to 0, and the attempts of GLB are set
    -- back. After a failure the queue of thieves and the tasks in flight are as before.
    pub search_synchronous-Tries :
        (is_glb : Bool) (s : Thief W S)
        → (success : Bool) × (t : Thief W S) × (os : List (ℕ × Status))
          × (search_tasks_globally_synchronous m sel ranks me task_transfer_threshold fuel
                glb_max_rand_attempts is_glb s
              ≡ some (success, t))
          × Searched m sel me task_transfer_threshold glb_max_rand_attempts is_glb
              (ranks - 1)
              os
              success
              s
              t
    unfolding search_tasks_globally_synchronous
    search_synchronous-Tries is_glb s = turns_lem is_glb (ranks - 1) s
