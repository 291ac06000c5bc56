-- ===== src/DistWs/Hunt/Hypercube.antt =====
-- src/hcupc_spmd_distWS_common.cpp: the hypercube neighbours, along which search_for_lifelines goes in
-- the GLB mode.
mod Tests
use habanero_upc.Prelude.{
  ℕ, zero, suc, ◌+◌, ◌-◌, ◌*◌, ◌%◌, ◌^◌, ◌≤◌, ◌<◌, ◌≡◌, ◌≢◌, refl, sym, ap, ◌∙◌, Bool, true, false,
  Option, some, List, [], ◌∷◌, ◌++◌, arith, ltb, length, count, count-same, count-other, dec_lt,
  ℕ_discrete, if◌then◌else◌, if_pos, if_neg, ◌>>=◌,
}
use habanero_upc.Prelude.Ring.{slot-ne}
use native.Mathlib.Nat.{pow-succ', zero-add}
use mathlib.Core.Path.{subst}
use habanero_upc.Victims.Selection.{Selection, Selects}
use habanero_upc.Stats.{contacted_victims_statistics}
use habanero_upc.DistWs.Hunt.{Thief, Machine}
use habanero_upc.DistWs.Hunt.Lifelines.{lifeline_turns, search_for_lifelines}
use habanero_upc.DistWs.Hunt.Waits.{Answers}
use habanero_upc.DistWs.Hunt.Asks.{Along, Asks}
use habanero_upc.DistWs.Hunt.Contacted.{turns_lem, picks}

pow_pos : (i : ℕ) → 0 < 2 ^ i
pow_pos zero = omega arith
pow_pos (suc i) = omega (arith, pow_pos i, pow-succ' 2 i)

the_next : (d i : ℕ) → suc d + i ≡ suc (d + i)
the_next d i = omega arith

pow_lt : (i d : ℕ) → 2 ^ i < 2 ^ (suc d + i)
pow_lt i zero =
    omega (arith, pow_pos i, pow-succ' 2 i, ap (λ k. 2 ^ k) (the_next 0 i ∙ ap suc (zero-add i)))
pow_lt i (suc d) =
    omega (arith, pow_lt i d, pow-succ' 2 (suc d + i), ap (λ k. 2 ^ k) (the_next (suc d) i))

powers_lt : (i j : ℕ) → i < j → 2 ^ i < 2 ^ j
powers_lt i j h = subst (λ k. 2 ^ i < 2 ^ k) (omega arith) (pow_lt i (j - i - 1))

distinct : (ranks me a b : ℕ) → a < b → b < ranks → (a + me) % ranks ≢ (b + me) % ranks
distinct ranks me a b h k e =
    slot-ne ranks (a + me) (b - a) (omega arith) (omega arith)
      (ap (λ n. n % ranks) (omega arith) ∙ sym e)

later_absent :
    (ranks me i j end : ℕ) (vs : List ℕ)
    → ((k : ℕ) → k < end → 2 ^ k < ranks)
    → i < j
    → Along ranks me j end vs
    → count ((2 ^ i + me) % ranks) vs ≡ 0
later_absent ranks me i j end [] room l a = refl
later_absent ranks me i j end (v ∷ vs) room l (k, lo, hi, e, a) =
    count-other ((2 ^ i + me) % ranks) v vs
      (λ d. distinct ranks me (2 ^ i) (2 ^ k) (powers_lt i k (omega arith)) (room k hi) (d ∙ e))
    ∙ zero-add (count ((2 ^ i + me) % ranks) vs)
    ∙ later_absent ranks me i (k + 1) end vs room (omega arith) a

Along-once :
    (ranks me i end : ℕ) (vs : List ℕ)
    → ((k : ℕ) → k < end → 2 ^ k < ranks)
    → Along ranks me i end vs
    → (v : ℕ) → count v vs ≤ 1
Along-once ranks me i end [] room a v = omega arith
Along-once ranks me i end (x ∷ vs) room (k, lo, hi, e, a) v = elim (ℕ_discrete v x) [
  | yes same ↦
      let absent = later_absent ranks me k (k + 1) end vs room (omega arith) a in
      omega (arith, count-same v x vs same, rw (← (same ∙ e)) at absent)
  | no other ↦ omega (arith, count-other v x vs other, Along-once ranks me (k + 1) end vs room a v)
]

module _ {W S : Type 0} (m : Machine W) (sel : Selection S) (ranks me : ℕ)
    (cyclic_steals_not_allowed : Bool) (tmp : ℕ → Option ℕ) (task_transfer_threshold fuel : ℕ) where
  -- The search for lifelines in the GLB mode, where all 2 ^ k with k < log(ranks) are less than the
  -- number of places: if UPC++ brings the answer to each steal request, the search ends, asks the places
  -- that it appends to those asked before, and asks no place twice.
  pub search_for_lifelines-once :
      Answers m fuel
      → (log : ℕ → ℕ) (s : Thief W S) → 0 < ranks
      → ((k : ℕ) → k < log ranks → 2 ^ k < ranks)
      → (vs : List ℕ) × (t : Thief W S) × (search_for_lifelines m sel ranks me
            cyclic_steals_not_allowed tmp task_transfer_threshold fuel log true s
          ≡ some (ltb 0 (length vs), t))
        × (t.asked ≡ s.asked ++ vs)
        × ((v : ℕ) → count v vs ≤ 1)
  unfolding search_for_lifelines
  search_for_lifelines-once answers log s pos room =
      let (vs, t, e, asks, along) =
        turns_lem m sel ranks me cyclic_steals_not_allowed tmp task_transfer_threshold fuel answers
          true 0 (log ranks) 0 s
          (λ k last _ _.
            picks m sel ranks me cyclic_steals_not_allowed tmp task_transfer_threshold fuel answers
              true k last pos (λ d. absurd cc)) in
      let x = contacted_victims_statistics (length vs) s.stats.searches in
      (
        vs,
        record t { stats = record (t.stats) { searches = x } },
        rw (e, zero-add, asks.searches) refl,
        asks.asked,
        Along-once ranks me 0 (log ranks) vs room
            (subst (λ n. Along ranks me 0 n vs) (zero-add (log ranks)) (along refl)),
      )
