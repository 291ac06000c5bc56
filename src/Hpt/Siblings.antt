-- ===== src/Hpt/Siblings.antt =====
-- src/hcupc_spmd-distHPT.cpp: what add_place and a change at the place that it returns do to a sum
-- over the siblings, and to what stands at one id.
use habanero_upc.Prelude.{
  ℕ, ◌+◌, ◌≤◌, ◌<◌, ◌≡◌, ◌≢◌, refl, Option, none, some, List, [], ◌∷◌, arith, ℕ_discrete, ◌==◌,
  if◌then◌else◌, Option-cases, inl, inr,
}
use habanero_upc.Hpt.{Place, locate, add_place, at_place}
use habanero_upc.Hpt.Nearest.{around_from, alternate}

module _ {C : Type 0} (w : C → ℕ) where
  abbrev pub sum : List (Place C) → ℕ
  sum [] = 0
  sum (x ∷ xs) = w x.child + sum xs

  -- The weight at the first place with id `i`.
  abbrev pub weight_at : ℕ → List (Place C) → ℕ
  weight_at i [] = 0
  weight_at i (x ∷ xs) = if x.id == i then w x.child else weight_at i xs

  sum-locate :
      (empty : C) (i : ℕ) (xs : List (Place C)) → w empty ≡ 0 → sum (locate empty i xs) ≡ sum xs
  unfolding locate
  sum-locate empty i [] e = ground arith
  sum-locate empty i (x ∷ xs) e = ground (arith, sum-locate empty i xs)

  pub sum-add_place :
      (empty : C) (i : ℕ) (xs : List (Place C)) → w empty ≡ 0 → sum (add_place empty i xs) ≡ sum xs
  unfolding add_place
  sum-add_place empty i [] e = ground arith
  sum-add_place empty i (x ∷ xs) e = ground (arith, sum-locate empty i xs)

-- Ids that grow along the list, from `lo` on.
module _ {C : Type 0} where
  abbrev pub Ascending : ℕ → List (Place C) → Type 0
  Ascending lo [] = Unit {0}
  Ascending lo (x ∷ xs) = (lo ≤ x.id) × Ascending (x.id + 1) xs

  locate-Ascending :
      (empty : C) (i lo : ℕ) (xs : List (Place C))
      → lo ≤ i
      → Ascending lo xs
      → Ascending lo (locate empty i xs)
  unfolding locate
  locate-Ascending empty i lo [] h a = (h, tt)
  locate-Ascending empty i lo (x ∷ xs) h a = ground (arith, locate-Ascending empty i (x.id + 1) xs)

  pub add_place-Ascending :
      (empty : C) (i : ℕ) (xs : List (Place C))
      → Ascending 0 xs
      → Ascending 0 (add_place empty i xs)
  unfolding add_place
  add_place-Ascending empty i [] a = (omega arith, tt)
  add_place-Ascending empty i (x ∷ xs) a = ground (arith, locate-Ascending empty i (x.id + 1) xs)

  -- How `at_place` ends.
  pub data Changed (i : ℕ) (f : C → Option C) : List (Place C) → List (Place C) → Type 0 where
    found :
        (x : Place C) (xs : List (Place C)) (c : C)
        → x.id ≡ i
        → f x.child ≡ some c
        → Changed i f (x ∷ xs) (record x { child = c } ∷ xs)
    further :
        (x : Place C) {xs ys : List (Place C)}
        → x.id ≢ i
        → Changed i f xs ys
        → Changed i f (x ∷ xs) (x ∷ ys)

  pub at_place-Changed :
      (i : ℕ) (f : C → Option C) (xs : List (Place C)) {ys : List (Place C)}
      → at_place i f xs ≡ some ys
      → Changed i f xs ys
  unfolding at_place
  at_place-Changed i f [] e = cc
  at_place-Changed i f (x ∷ xs) {ys} e = elim (ℕ_discrete x.id i) [
    | yes same ↦ elim (Option-cases (f x.child)) [
      | inl none' ↦ ground arith
      | inr (c, q) ↦
          let eq : record x { child = c } ∷ xs ≡ ys = ground arith in
          rw (← eq) (found x xs c same q)
    ]
    | no other ↦ elim (Option-cases (at_place i f xs)) [
      | inl none' ↦ ground arith
      | inr (zs, q) ↦
          let eq : x ∷ zs ≡ ys = ground arith in
          rw (← eq) (further x other (at_place-Changed i f xs q))
    ]
  ]

  pub Changed-Ascending :
      {i : ℕ} {f : C → Option C} {xs ys : List (Place C)}
      → Changed i f xs ys
      → (lo : ℕ) → Ascending lo xs
      → Ascending lo ys
  Changed-Ascending (found x xs c h q) lo a = a
  Changed-Ascending (further x h r) lo a = (a.0, Changed-Ascending r (x.id + 1) a.1)

  -- A property of what stands below each sibling.
  abbrev pub Each : (C → Type 0) → List (Place C) → Type 0
  Each P [] = Unit {0}
  Each P (x ∷ xs) = P x.child × Each P xs

  locate-Each :
      (P : C → Type 0) (empty : C) (i : ℕ) (xs : List (Place C))
      → P empty
      → Each P xs
      → Each P (locate empty i xs)
  unfolding locate
  locate-Each P empty i [] p a = (p, tt)
  locate-Each P empty i (x ∷ xs) p a = ground (arith, locate-Each P empty i xs)

  pub add_place-Each :
      (P : C → Type 0) (empty : C) (i : ℕ) (xs : List (Place C))
      → P empty
      → Each P xs
      → Each P (add_place empty i xs)
  unfolding add_place
  add_place-Each P empty i [] p a = (p, tt)
  add_place-Each P empty i (x ∷ xs) p a = ground (arith, locate-Each P empty i xs)

  pub Changed-Each :
      (P : C → Type 0) {i : ℕ} {f : C → Option C} {xs ys : List (Place C)}
      → ((c c' : C) → P c → f c ≡ some c' → P c')
      → Changed i f xs ys
      → Each P xs
      → Each P ys
  Changed-Each P keep (found x xs c h q) a = (keep x.child c a.0 q, a.1)
  Changed-Each P keep (further x h r) a = (a.0, Changed-Each P keep r a.1)

module _ {C : Type 0} (w : C → ℕ) where
  weight_at-below :
      (j lo : ℕ) (xs : List (Place C)) → j < lo → Ascending lo xs → weight_at w j xs ≡ 0
  weight_at-below j lo [] h a = refl
  weight_at-below j lo (x ∷ xs) h a = ground (arith, weight_at-below j (x.id + 1) xs)

  weight_at-locate :
      (empty : C) (i j lo : ℕ) (xs : List (Place C))
      → w empty ≡ 0
      → Ascending lo xs
      → weight_at w j (locate empty i xs) ≡ weight_at w j xs
  unfolding locate
  weight_at-locate empty i j lo [] e a = ground arith
  weight_at-locate empty i j lo (x ∷ xs) e a =
      ground (arith, weight_at-locate empty i j (x.id + 1) xs, weight_at-below j (x.id + 1) xs)

  pub weight_at-add_place :
      (empty : C) (i j : ℕ) (xs : List (Place C))
      → w empty ≡ 0
      → Ascending 0 xs
      → weight_at w j (add_place empty i xs) ≡ weight_at w j xs
  unfolding add_place
  weight_at-add_place empty i j [] e a = ground arith
  weight_at-add_place empty i j (x ∷ xs) e a =
      ground (arith, weight_at-locate empty i j (x.id + 1) xs, weight_at-below j (x.id + 1) xs)

  pub Changed-sum :
      (d : ℕ) {i : ℕ} {f : C → Option C} {xs ys : List (Place C)}
      → ((c c' : C) → f c ≡ some c' → w c' ≡ w c + d)
      → Changed i f xs ys
      → sum w ys ≡ sum w xs + d
  Changed-sum d step (found x xs c h q) = omega (arith, step x.child c q)
  Changed-sum d step (further x h r) = omega (arith, Changed-sum d step r)

  pub Changed-weight_at :
      (P : C → Type 0) {i : ℕ} (j : ℕ) {f : C → Option C} {xs ys : List (Place C)}
      → ((c c' : C) → P c → f c ≡ some c' → w c ≤ w c')
      → Changed i f xs ys
      → Each P xs
      → weight_at w j xs ≤ weight_at w j ys
  Changed-weight_at P j step (found x xs c h q) a = ground (arith, step x.child c a.0 q)
  Changed-weight_at P j step (further x h r) a = ground (arith, Changed-weight_at P j step r a.1)

  pub Changed-weight_at_self :
      {i : ℕ} {f : C → Option C} {xs ys : List (Place C)}
      → ((c c' : C) → f c ≡ some c' → 0 < w c')
      → Changed i f xs ys
      → 0 < weight_at w i ys
  Changed-weight_at_self step (found x xs c h q) = ground (arith, step x.child c q)
  Changed-weight_at_self step (further x h r) = ground (arith, Changed-weight_at_self step r)

  weight_at-le : (i : ℕ) (xs : List (Place C)) → weight_at w i xs ≤ sum w xs
  weight_at-le i [] = omega arith
  weight_at-le i (x ∷ xs) = ground (arith, weight_at-le i xs)

  -- The loop over the siblings on both sides, and the place itself, make up the whole.
  pub sum-alternate : (ls rs : List (Place C)) → sum w (alternate ls rs) ≡ sum w ls + sum w rs
  unfolding alternate
  sum-alternate [] rs = omega arith
  sum-alternate (l ∷ ls) [] = omega arith
  sum-alternate (l ∷ ls) (r ∷ rs) = omega (arith, sum-alternate ls rs)

  pub around_from-sum :
      (left : List (Place C)) (i : ℕ) (xs : List (Place C)) {ls rs : List (Place C)} {y : Place C}
      → around_from left i xs ≡ some (ls, y, rs)
      → (sum w ls + w y.child + sum w rs ≡ sum w left + sum w xs) × (weight_at w i xs ≡ w y.child)
  unfolding around_from
  around_from-sum left i [] e = cc
  around_from-sum left i (x ∷ xs) {ls} {rs} {y} e =
      ground (arith, around_from-sum (x ∷ left) i xs {ls = ls} {rs = rs} {y = y})

  pub around_from-none :
      (left : List (Place C)) (i : ℕ) (xs : List (Place C))
      → around_from left i xs ≡ none
      → weight_at w i xs ≡ 0
  unfolding around_from
  around_from-none left i [] e = refl
  around_from-none left i (x ∷ xs) e = ground (arith, around_from-none (x ∷ left) i xs)
