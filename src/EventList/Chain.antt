-- ===== src/EventList/Chain.antt =====
-- src/hcupc_spmd.cpp: the nodes that are linked from the head of the list of events.
use habanero_upc.Prelude.{
  ℕ, ◌≡◌, ◌≢◌, refl, ◌∙◌, Option, none, some, List, [], ◌∷◌, ◌++◌, arith, count, update,
  update-here, update-other,
}

abbrev pub Nodes : Type 0
Nodes = ℕ → Option (Option ℕ)

-- The nodes `xs` are linked in this order from `head` on.
abbrev pub Chain : Nodes → Option ℕ → List ℕ → Type 0
Chain nodes head [] = head ≡ none
Chain nodes head (x ∷ xs) =
    (head ≡ some x) × ((next : Option ℕ) × (nodes x ≡ some next) × Chain nodes next xs)

-- A node outside the chain is written.
pub Chain-outside :
    (nodes : Nodes) (at : ℕ) (v : Option (Option ℕ)) (head : Option ℕ) (xs : List ℕ)
    → count at xs ≡ 0
    → Chain nodes head xs
    → Chain (update nodes at v) head xs
Chain-outside nodes at v head [] h c = c
Chain-outside nodes at v head (x ∷ xs) h (is, (next, here, rest)) =
    let other : at ≢ x = ground (arith, h) in
    (
      is,
      (
        next,
        update-other nodes at v x other ∙ here,
        Chain-outside nodes at v next xs (ground (arith, h)) rest,
      ),
    )

-- The last node gets a successor.
pub Chain-link :
    (nodes : Nodes) (head : Option ℕ) (xs : List ℕ) (last el : ℕ)
    → Chain nodes head (xs ++ last ∷ [])
    → nodes el ≡ some none
    → count last xs ≡ 0
    → last ≢ el
    → Chain (update nodes last (some (some el))) head (xs ++ last ∷ el ∷ [])
Chain-link nodes head [] last el (is, (next, here, rest)) new alone other = (
  is,
  (
    some el,
    update-here nodes last (some (some el)) last refl,
    (refl, (none, update-other nodes last (some (some el)) el other ∙ new, refl)),
  ),
)
Chain-link nodes head (x ∷ xs) last el (is, (next, here, rest)) new alone other =
    let apart : last ≢ x = ground (arith, alone) in
    (
      is,
      (
        next,
        update-other nodes last (some (some el)) x apart ∙ here,
        Chain-link nodes next xs last el rest new (ground (arith, alone)) other,
      ),
    )
