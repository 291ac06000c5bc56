-- ===== src/DistWs/Hunt/Asks.antt =====
-- src/hcupc_spmd_distWS_common.cpp: what a search for lifelines has sent and changed.
use habanero_upc.Prelude.{
  ◌%◌, ◌^◌, ◌<◌, ℕ, ◌+◌, ◌≤◌, ◌<◌, ◌≡◌, ◌≢◌, refl, sym, ap, ◌∙◌, Bool, true, false, List, [], ◌∷◌,
  ◌++◌, arith, ◌==◌, if◌then◌else◌, length, length-append,
}
use mathlib.Core.List.{append-nil, append_assoc}
use habanero_upc.Stats.{Searches}
use habanero_upc.DistWs.Hunt.{Thief}

abbrev pub All {ℓ κ} : {A : Type ℓ} → (A → Type κ) → List A → Type κ
All P [] = Unit
All P (x ∷ xs) = P x × All P xs

All-append {ℓ κ} :
    {A : Type ℓ} (P : A → Type κ) (xs ys : List A) → All P xs → All P ys → All P (xs ++ ys)
All-append P [] ys p q = q
All-append P (x ∷ xs) ys p q = (p.0, All-append P xs ys p.1 q)

nil_left : (xs ys : List ℕ) → xs ++ ys ≡ [] → xs ≡ []
nil_left [] ys e = refl
nil_left (x ∷ xs) ys e = absurd cc

nil_right : (xs ys : List ℕ) → xs ++ ys ≡ [] → ys ≡ []
nil_right [] ys e = e
nil_right (x ∷ xs) ys e = absurd cc

pub differs : (a b : ℕ) → a ≢ b → (a == b) ≡ false
differs a b h = ground arith

-- The counter of contacted victims after a turn.
pub counted :
    (success : Bool) (c v : ℕ) (vs : List ℕ)
    → (if success then c + 1 else c) + length vs
      ≡ c + length ((if success then v ∷ [] else []) ++ vs)
counted true c v vs = omega arith
counted false c v vs = refl

module _ {W S : Type 0} (ranks me : ℕ) where
  -- What at most `n` turns do: the victims in `vs` are asked, and nothing else leaves this place.
  pub record Asks (n : ℕ) (vs : List ℕ) (seen : Searches) (s t : Thief W S) : Type 0 where
    pub asked : t.asked ≡ s.asked ++ vs
    pub others : All (λ v. (v < ranks) × (v ≢ me)) vs
    pub bounded : length vs ≤ n
    pub attempts : t.current_glb_max_rand_attempts ≡ s.current_glb_max_rand_attempts
    pub failed : t.stats.totals.failed_steals ≡ s.stats.totals.failed_steals
    pub probes_least :
        s.stats.totals.asyncany_rdma_probes + length vs ≤ t.stats.totals.asyncany_rdma_probes
    pub probes_most : t.stats.totals.asyncany_rdma_probes ≤ s.stats.totals.asyncany_rdma_probes + n
    pub thieves : vs ≡ [] → t.place.thieves ≡ s.place.thieves
    pub flights : vs ≡ [] → t.place.flights ≡ s.place.flights
    pub searches : t.stats.searches ≡ seen

  pub Asks-none :
      (n : ℕ) (s : Thief W S) (last : S)
      → Asks n [] s.stats.searches s (record s { last_steal = last })
  Asks-none n s last = record {
    asked = sym (append-nil s.asked);
    others = tt;
    bounded = omega arith;
    attempts = refl;
    failed = refl;
    probes_least = omega arith;
    probes_most = omega arith;
    thieves = λ _. refl;
    flights = λ _. refl;
    searches = refl;
  }

  pub recounted :
      {n : ℕ} {vs : List ℕ} {seen : Searches} {s t : Thief W S}
      → Asks n vs seen s t
      → (x : Searches) → Asks n vs x s (record t { stats = record (t.stats) { searches = x } })
  recounted a x = record {
    asked = a.asked;
    others = a.others;
    bounded = a.bounded;
    attempts = a.attempts;
    failed = a.failed;
    probes_least = a.probes_least;
    probes_most = a.probes_most;
    thieves = a.thieves;
    flights = a.flights;
    searches = refl;
  }

  pub Asks-trans :
      {k n j : ℕ} {vs ws : List ℕ} {s t u : Thief W S}
      → k + n ≤ j
      → Asks k vs s.stats.searches s t
      → Asks n ws t.stats.searches t u
      → Asks j (vs ++ ws) s.stats.searches s u
  Asks-trans {vs = vs} {ws = ws} {s = s} enough a b = record {
    asked = b.asked ∙ ap (λ xs. xs ++ ws) a.asked ∙ append_assoc s.asked vs ws;
    others = All-append _ vs ws a.others b.others;
    bounded = omega (arith, a.bounded, b.bounded, length-append vs ws);
    attempts = b.attempts ∙ a.attempts;
    failed = b.failed ∙ a.failed;
    probes_least = omega (arith, a.probes_least, b.probes_least, length-append vs ws);
    probes_most = omega (arith, a.probes_most, b.probes_most);
    thieves = λ e. b.thieves (nil_right vs ws e) ∙ a.thieves (nil_left vs ws e);
    flights = λ e. b.flights (nil_right vs ws e) ∙ a.flights (nil_left vs ws e);
    searches = b.searches ∙ a.searches;
  }

-- The lifelines of GLB, of turns from `i` on and before `end`, in their order.
abbrev pub Along : (ranks me i end : ℕ) → List ℕ → Type 0
Along ranks me i end [] = Unit
Along ranks me i end (v ∷ vs) =
    (k : ℕ) × (i ≤ k) × (k < end) × (v ≡ (2 ^ k + me) % ranks) × Along ranks me (k + 1) end vs

pub Along-le :
    (ranks me : ℕ) (vs : List ℕ) {i j end end' : ℕ}
    → i ≤ j
    → end ≤ end'
    → Along ranks me j end vs
    → Along ranks me i end' vs
Along-le ranks me [] h l a = tt
Along-le ranks me (v ∷ vs) {i = i} {j = j} {end = end} {end' = end'} h l (k, lo, hi, e, a) =
    (k, omega arith, omega arith, e, Along-le ranks me vs (omega arith) l a)
