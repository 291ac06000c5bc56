-- ===== src/DistWs/Hunt/Waits.antt =====
-- src/hcupc_spmd_distWS_common.cpp: the loops of a thief around upcxx::advance.
use habanero_upc.Prelude.{
  ℕ, zero, suc, ◌<◌, ◌≡◌, refl, Bool, false, some, List, arith, Bool-cases, inl, inr,
}
use habanero_upc.DistWs.Hunt.{Place, Thief, Machine, met, advance_while}

module _ {W : Type 0} where
  -- The place after `k` calls of upcxx::advance.
  abbrev pub advanced : Machine W → List ℕ → ℕ → Place W → Place W
  advanced m asked zero p = met m p
  advanced m asked (suc k) p = advanced m asked k (m.advance asked (met m p))

-- The answer of UPC++ to a steal request comes within `fuel` calls of upcxx::advance.
pub record Answers {W : Type 0} (m : Machine W) (fuel : ℕ) : Type 0 where
  pub answer :
      (asked : List ℕ) (p : Place W)
      → (k : ℕ) × (k < fuel) × ((advanced m asked k p).waiting_for_return_async ≡ false)

module _ {W S : Type 0} (m : Machine W) where
  pub advance_while_lem :
      (test : Place W → Bool) (fuel k : ℕ) (s : Thief W S)
      → k < fuel
      → test (advanced m s.asked k s.place) ≡ false
      → (p : Place W) × (advance_while m test fuel s ≡ some (record s { place = p }))
        × (test p ≡ false)
        × ((j : ℕ) × (p ≡ advanced m s.asked j s.place))
  unfolding advance_while
  advance_while_lem test zero k s h e = absurd (omega arith)
  advance_while_lem test (suc fuel) zero s h e = (met m s.place, rw e refl, e, (0, refl))
  advance_while_lem test (suc fuel) (suc k) s h e = elim (Bool-cases (test (met m s.place))) [
    | inr done ↦ (met m s.place, rw done refl, done, (0, refl))
    | inl again ↦
        let (p, r, q, (j, reached)) =
          advance_while_lem test fuel k (record s { place = m.advance s.asked (met m s.place) })
            (omega arith) e in
        (p, rw again r, q, (suc j, reached))
  ]
