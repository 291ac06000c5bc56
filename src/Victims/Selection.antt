-- ===== src/Victims/Selection.antt =====
-- inc/hcupc_spmd-random.h: selectvictim and resetVictimArray as the search for tasks uses them, and
-- the selections that fill them.
use habanero_upc.Prelude.{
  ℕ, ◌+◌, ◌%◌, ◌<◌, ◌≡◌, ◌≢◌, refl, Option, none, some, List, arith, ltb, get_or, if◌then◌else◌,
  length, ◌>>=◌, dec_lt,
}
use native.Mathlib.Nat.{mod-eq_of_lt, mod_self, mod-lt}
use habanero_upc.Victims.{select_victim, select_random_victim}
use habanero_upc.Victims.RoundRobin.{select_random_victim-other}

-- selectvictim returns a victim and the new state; `none` is a read outside the array, or a loop
-- that does not end.
pub record Selection (S : Type 0) : Type 0 where
  pub next_victim : S → Option (ℕ × S)
  pub reset_victim_array : S → S

-- What the search relies on: a selection always answers, with another place.
pub record Selects {S : Type 0} (ranks me : ℕ) (sel : Selection S) : Type 0 where
  pub selects :
      (s : S) → (v : ℕ) × (s' : S) × (sel.next_victim s ≡ some (v, s')) × (v < ranks) × (v ≢ me)

-- __VS_RR__: the state is last_steal.
unfoldable pub round_robin : (ranks me : ℕ) → Selection ℕ
round_robin ranks me = record {
  next_victim =
      λ last_steal. some (select_victim ranks me last_steal, select_victim ranks me last_steal);
  reset_victim_array = λ _. me;
}

-- __VS_RAND__: the state is the number of calls so far, and `rand c` gives the numbers that rand()
-- returns from call `c` on.
unfoldable pub random : (ranks me fuel : ℕ) → (ℕ → ℕ → ℕ) → Selection ℕ
random ranks me fuel rand = record {
  next_victim =
      λ calls. (do v ← select_random_victim ranks me fuel (rand calls); some (v, calls + 1));
  reset_victim_array = λ calls. calls;
}

-- __VS_DIST_HPT__: the state is last_steal, and `victims` is the array of the nearest victims.
unfoldable pub nearest : List ℕ → Selection ℕ
nearest victims = record {
  next_victim = λ last_steal.
      if ltb last_steal (length victims)
      then some (get_or victims last_steal 0, last_steal + 1)
      else none;
  reset_victim_array = λ _. 0;
}

next_differs : (ranks me : ℕ) → 1 < ranks → me < ranks → (me + 1) % ranks ≢ me
next_differs ranks me h k = elim (dec_lt (me + 1) ranks) [
  | yes inside ↦ λ e. omega (arith, mod-eq_of_lt inside)
  | no last ↦
      let same : me + 1 ≡ ranks = omega arith in rw same (λ e. omega (arith, mod_self ranks))
]

select_victim-other :
    (ranks me last_steal : ℕ)
    → 1 < ranks
    → me < ranks
    → (select_victim ranks me last_steal < ranks) × (select_victim ranks me last_steal ≢ me)
unfolding select_victim
select_victim-other ranks me last_steal h k = ground (
  arith,
  mod-lt (last_steal + 1) {m = ranks} (omega arith),
  mod-lt ((last_steal + 1) % ranks + 1) {m = ranks} (omega arith),
  next_differs ranks me h k,
)

pub round_robin-Selects :
    (ranks me : ℕ) → 1 < ranks → me < ranks → Selects ranks me (round_robin ranks me)
unfolding round_robin
round_robin-Selects ranks me h k = record {
  selects = λ s.
      let v = select_victim ranks me s in
      let o = select_victim-other ranks me s h k in (v, v, refl, o.0, o.1);
}

-- Random selection, if each call draws another place within `fuel` numbers.
random-Selects :
    (ranks me fuel : ℕ) (rand : ℕ → ℕ → ℕ)
    → 0 < ranks
    → ((c : ℕ) → (k : ℕ) × (k < fuel) × (rand c k % ranks ≢ me))
    → Selects ranks me (random ranks me fuel rand)
unfolding random
random-Selects ranks me fuel rand h draws = record {
  selects = λ s.
      let (k, inside, o) = draws s in
      let (v, e, p, q) = select_random_victim-other ranks me fuel k (rand s) h inside o in
      (v, s + 1, rw e refl, p, q);
}
