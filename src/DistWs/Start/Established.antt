-- ===== src/DistWs/Start/Established.antt =====
-- src/hcupc_spmd_distWS_common.cpp: what holds after initialize_distws_setOfThieves.
use habanero_upc.Prelude.{
  ℕ, zero, suc, ◌-◌, ◌≤◌, ◌<◌, ◌≡◌, ◌≢◌, refl, Bool, true, false, Option, none, some, ltb, leb,
  ◌==◌, ◌&&◌, lt→ltb, ==_iff, update-here, arith, if◌then◌else◌, Bool-cases, inl, inr, ◌⊎◌,
  Option-cases, some-injective,
}
use habanero_upc.Prelude.Int.{ℤ, pos, negsuc}
use habanero_upc.Prelude.Counting.{total, total-zero}
use habanero_upc.DistWs.ThiefQueue.{Contact, popped_entry, initialize}
use habanero_upc.DistWs.ThiefQueue.Fifo.{IsValid}
use habanero_upc.DistWs.InFlight.Drain.{IsCounted}
use habanero_upc.DistWs.Hunt.{Mode, glb, successonly, successonly_glb, baseline}
use habanero_upc.DistWs.Start.{
  Amount, negative, whole, between, Options, DistWs, turns, read_steal_n, read_glb_rand,
  at_least_one, within_shipment, report, started, initialize_distws_set_of_thieves,
}

-- The turns that HCPP_STEAL_N asks for.
abbrev turns_asked : Option Amount → ℕ
turns_asked none = 1
turns_asked (some a) = turns a

abbrev IsWhole : Amount → Type 0
IsWhole a = (n : ℕ) × (a ≡ whole n)

-- The state that the searches and the serving of thieves start from.
pub record Established (ranks me : ℕ) (o : Options) (s : DistWs) : Type 0 where
  some_stolen : 1 ≤ turns s.total_tasks_stolen_in_one_shot
  few_stolen : turns s.total_tasks_stolen_in_one_shot ≤ 5
  stolen : turns s.total_tasks_stolen_in_one_shot ≡ turns_asked o.hcpp_steal_n
  own_whole : me ≡ 0 → IsWhole s.total_tasks_stolen_in_one_shot
  pub thieves : IsValid ranks s.thieves
  nobody_waits : s.thieves.thieves_waiting ≡ false
  uncontacted : (v : ℕ) → v < ranks → s.thieves.contacted_victims v ≡ popped_entry
  pub flights : IsCounted ranks s.flights
  own_counter : s.flights.asyncs_in_flight me ≡ pos 0
  own_attempts :
      (r : ℤ)
      → me ≡ 0
      → o.mode ≡ glb
      → o.hcpp_dist_ws_glb_rand ≡ some r
      → s.glb_max_rand_attempts ≡ r
  other_attempts : me ≢ 0 → s.glb_max_rand_attempts ≡ pos 1

-- As many turns as asked, between one and five, which the last assertion tests.
abbrev FewTurns : Option Amount → Amount → Type 0
FewTurns x a =
    (1 ≤ turns a) × (turns a ≤ 5) × (turns a ≡ turns_asked x) × (within_shipment a ≡ true)

abbrev is_read : ℕ → Mode → Option ℤ → Bool
is_read ranks glb (some (pos n)) = leb n (ranks - 1)
is_read ranks glb (some (negsuc n)) = false
is_read ranks glb none = true
is_read ranks successonly r = true
is_read ranks successonly_glb r = true
is_read ranks baseline r = true

-- What the variable sets, where it is read.
abbrev Sets : Mode → Option ℤ → ℤ → Type 0
Sets mode x r = (r' : ℤ) → mode ≡ glb → x ≡ some r' → r ≡ r'

read_glb_rand-some :
    (ranks : ℕ) (mode : Mode) (x : Option ℤ)
    → is_read ranks mode x ≡ true
    → (r : ℤ) × (read_glb_rand ranks mode x ≡ some r) × Sets mode x r
unfolding read_glb_rand
read_glb_rand-some ranks glb (some (pos n)) e = (pos n, rw e refl, λ r' _ d. some-injective d)
read_glb_rand-some ranks glb (some (negsuc n)) e = absurd cc
read_glb_rand-some ranks glb none e = (pos 1, refl, λ r' _ d. absurd cc)
read_glb_rand-some ranks successonly x e = (pos 1, refl, λ r' d _. absurd cc)
read_glb_rand-some ranks successonly_glb x e = (pos 1, refl, λ r' d _. absurd cc)
read_glb_rand-some ranks baseline x e = (pos 1, refl, λ r' d _. absurd cc)

read_glb_rand-none :
    (ranks : ℕ) (mode : Mode) (x : Option ℤ)
    → is_read ranks mode x ≡ false
    → read_glb_rand ranks mode x ≡ none
unfolding read_glb_rand
read_glb_rand-none ranks glb (some (pos n)) e = rw e refl
read_glb_rand-none ranks glb (some (negsuc n)) e = refl
read_glb_rand-none ranks glb none e = absurd cc
read_glb_rand-none ranks successonly x e = absurd cc
read_glb_rand-none ranks successonly_glb x e = absurd cc
read_glb_rand-none ranks baseline x e = absurd cc

both : (a b : Bool) → (a && b) ≡ true → (a ≡ true) × (b ≡ true)
both true b e = (refl, e)
both false b e = absurd cc

-- HCPP_STEAL_N is not set, is between 0 and 1, or is a whole number from 1 to 5.
abbrev steals : Option Amount → Bool
steals none = true
steals (some negative) = false
steals (some (whole n)) = leb 1 n && leb n 5
steals (some (between n)) = n == 0

-- The initial values that are accepted at place `me`. Only place 0 reads HCPP_DIST_WS_GLB_RAND.
abbrev pub is_accepted : ℕ → ℕ → Options → Bool
is_accepted ranks me o =
    steals o.hcpp_steal_n
    && (if me == 0 then is_read ranks o.mode o.hcpp_dist_ws_glb_rand else true)

read_steal_n-some :
    (x : Option Amount)
    → steals x ≡ true
    → (a : Amount) × (read_steal_n x ≡ some a)
      × FewTurns x a
      × FewTurns x (at_least_one a)
      × IsWhole (at_least_one a)
unfolding read_steal_n turns within_shipment at_least_one
read_steal_n-some none e = (
  whole 1,
  refl,
  (omega arith, omega arith, refl, refl),
  (omega arith, omega arith, refl, refl),
  (1, refl),
)
read_steal_n-some (some negative) e = absurd cc
read_steal_n-some (some (whole zero)) e = absurd cc
read_steal_n-some (some (whole (suc n))) e = (
  whole (suc n),
  refl,
  (omega arith, ground arith, refl, ground arith),
  (omega arith, ground arith, refl, ground arith),
  (suc n, refl),
)
read_steal_n-some (some (between zero)) e = (
  between zero,
  refl,
  (omega arith, omega arith, refl, refl),
  (omega arith, omega arith, refl, refl),
  (1, refl),
)
read_steal_n-some (some (between (suc n))) e = absurd (ground arith)

-- The values of HCPP_STEAL_N that are not accepted fail at once, or are whole numbers above 5.
read_steal_n-refused :
    (x : Option Amount)
    → steals x ≡ false
    → (read_steal_n x ≡ none) ⊎ ((n : ℕ) × (read_steal_n x ≡ some (whole (suc n))) × (5 ≤ n))
unfolding read_steal_n
read_steal_n-refused none e = absurd cc
read_steal_n-refused (some negative) e = inl refl
read_steal_n-refused (some (whole zero)) e = inl refl
read_steal_n-refused (some (whole (suc n))) e = inr (n, refl, ground arith)
read_steal_n-refused (some (between zero)) e = absurd (ground arith)
read_steal_n-refused (some (between (suc n))) e = inl refl

report-some :
    (ranks me : ℕ) (o : Options) (a : Amount)
    → (if me == 0 then is_read ranks o.mode o.hcpp_dist_ws_glb_rand else true) ≡ true
    → FewTurns o.hcpp_steal_n a
    → FewTurns o.hcpp_steal_n (at_least_one a)
    → IsWhole (at_least_one a)
    → (b : Amount) × (r : ℤ) × (report ranks me o a ≡ some (b, r))
      × FewTurns o.hcpp_steal_n b
      × (me ≡ 0 → IsWhole b)
      × (me ≡ 0 → Sets o.mode o.hcpp_dist_ws_glb_rand r)
      × (me ≢ 0 → r ≡ pos 1)
unfolding report
report-some ranks me o a accepted few few' is_whole = elim (Bool-cases (me == 0)) [
  | inr other ↦ (
    a,
    pos 1,
    rw other refl,
    few,
    (λ d. let own : (me == 0) ≡ true = (==_iff me 0).1 d in absurd cc),
    λ d. let own : (me == 0) ≡ true = (==_iff me 0).1 d in absurd cc,
    λ _. refl,
  )
  | inl own ↦
      let (r, e, sets) =
        read_glb_rand-some ranks o.mode o.hcpp_dist_ws_glb_rand (rw own at accepted) in
      (
        at_least_one a,
        r,
        rw (own, e) refl,
        few',
        (λ _. is_whole),
        (λ _. sets),
        λ d. absurd (d ((==_iff me 0).0 own)),
      )
]

-- More than five tasks at once are refused at every place.
report-many :
    (ranks me : ℕ) (o : Options) (n : ℕ)
    → (report ranks me o (whole (suc n)) ≡ none)
      ⊎ ((r : ℤ) × (report ranks me o (whole (suc n)) ≡ some (whole (suc n), r)))
unfolding report at_least_one
report-many ranks me o n = elim (Bool-cases (me == 0)) [
  | inr other ↦ inr (pos 1, rw other refl)
  | inl own ↦ elim (Option-cases (read_glb_rand ranks o.mode o.hcpp_dist_ws_glb_rand)) [
    | inl failed ↦ inl (rw (own, failed) refl)
    | inr (r, e) ↦ inr (r, rw (own, e) refl)
  ]
]

report-none :
    (ranks me : ℕ) (o : Options) (a : Amount)
    → (if me == 0 then is_read ranks o.mode o.hcpp_dist_ws_glb_rand else true) ≡ false
    → report ranks me o a ≡ none
unfolding report
report-none ranks me o a refused = elim (Bool-cases (me == 0)) [
  | inr other ↦ let bad : true ≡ false = (rw other at refused) in absurd cc
  | inl own ↦
      rw (own, read_glb_rand-none ranks o.mode o.hcpp_dist_ws_glb_rand (rw own at refused)) refl
]

refused_parts : (a b : Bool) → (a && b) ≡ false → (a ≡ false) ⊎ ((a ≡ true) × (b ≡ false))
refused_parts false b e = inl refl
refused_parts true b e = inr (refl, e)

too_many : (n : ℕ) → 5 ≤ n → within_shipment (whole (suc n)) ≡ false
unfolding within_shipment
too_many n h = ground arith

fresh_IsCounted :
    (ranks : ℕ) (origin : ℕ → ℕ)
    → total (λ k. k) ranks (λ i. if ltb i ranks then 0 else origin i) ≡ 0
fresh_IsCounted ranks origin = total-zero ranks _ (λ i h. rw (lt→ltb i ranks h) refl)

module _ (contacted : ℕ → Contact) (queued : ℕ → Option ℕ) (origin : ℕ → ℕ) (in_flight : ℕ → ℤ)
    (ranks me : ℕ) (o : Options) where
  abbrev Starts : Option DistWs → Type 0
  Starts result = (s : DistWs) × (result ≡ some s) × Established ranks me o s

  accepted-Established :
      me < ranks
      → is_accepted ranks me o ≡ true
      → Starts (initialize_distws_set_of_thieves contacted queued origin in_flight ranks me o)
  unfolding initialize_distws_set_of_thieves initialize
  accepted-Established h accepted =
      let (ok, ok') = both _ _ accepted in
      let (a, e, few, few', is_whole) = read_steal_n-some o.hcpp_steal_n ok in
      let (b, r, e', (least, most, asked, within), own_whole, own, others) =
        report-some ranks me o a ok' few few' is_whole in
      (
        started contacted queued origin in_flight ranks me o b r,
        rw (e, e', within) refl,
        record {
          some_stolen = least;
          few_stolen = most;
          stolen = asked;
          own_whole = own_whole;
          thieves = record { ordered = omega arith; fits = omega arith; flag = refl; ranked = tt };
          nobody_waits = refl;
          uncontacted = λ v inside. rw (lt→ltb v ranks inside) refl;
          flights = record { sum = fresh_IsCounted ranks origin; in_range = omega arith };
          own_counter = update-here in_flight me (pos 0) me refl;
          own_attempts = λ x d. own d x;
          other_attempts = others;
        },
      )

  refused-none :
      is_accepted ranks me o ≡ false
      → initialize_distws_set_of_thieves contacted queued origin in_flight ranks me o ≡ none
  unfolding initialize_distws_set_of_thieves
  refused-none refused = elim (refused_parts _ _ refused) [
    | inl steal_n ↦ elim (read_steal_n-refused o.hcpp_steal_n steal_n) [
      | inl at_once ↦ rw at_once refl
      | inr (n, e, many) ↦ elim (report-many ranks me o n) [
        | inl failed ↦ rw (e, failed) refl
        | inr (r, e') ↦ rw (e, e', too_many n many) refl
      ]
    ]
    | inr (steal_n, rand) ↦
        let (a, e, _, _, _) = read_steal_n-some o.hcpp_steal_n steal_n in
        rw (e, report-none ranks me o a rand) refl
  ]

  -- An assertion of initialize_distws_setOfThieves fails exactly if HCPP_STEAL_N is set to a value that
  -- is neither between 0 and 1 nor a whole number from 1 to 5, or, at place 0 in the GLB mode,
  -- HCPP_DIST_WS_GLB_RAND is negative or more than the number of other places. Otherwise as many
  -- tasks are stolen at once as asked for, one for a fraction, which place 0 rounds up, and at most
  -- five, the queue of
  -- thieves is valid and empty, nobody is contacted, and the tasks received are counted as none.
  -- HCPP_DIST_WS_GLB_RAND sets the bound on the attempts at place 0 in the GLB mode; at every other
  -- place the bound is 1, whatever the environment says.
  pub initialize_distws_set_of_thieves-Established :
      me < ranks
      → ((is_accepted ranks me o ≡ true)
          × ((s : DistWs) × (initialize_distws_set_of_thieves contacted queued origin in_flight
                  ranks me o
                ≡ some s)
              × Established ranks me o s))
        ⊎ ((is_accepted ranks me o ≡ false)
            × (initialize_distws_set_of_thieves contacted queued origin in_flight ranks me o
                ≡ none))
  initialize_distws_set_of_thieves-Established h = elim (Bool-cases (is_accepted ranks me o)) [
    | inl accepted ↦ inl (accepted, accepted-Established h accepted)
    | inr refused ↦ inr (refused, refused-none refused)
  ]
