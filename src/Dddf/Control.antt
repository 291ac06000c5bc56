-- ===== src/Dddf/Control.antt =====
-- src/hcupc_spmd_dddf.cpp: which requests, copies and values a DDDF has, besides their contents.
use habanero_upc.Prelude.{
  ℕ, ◌+◌, ◌<◌, ◌≡◌, ◌≢◌, refl, sym, Bool, true, false, Option, none, some, List, [], ◌∷◌, arith,
  length,
}
use habanero_upc.Dddf.{Pc, before_put, before_remote, done, System, is_some, init}

abbrev pub bit : Bool → ℕ
bit true = 1
bit false = 0

-- The put by `putter` in its own place has begun.
abbrev begun : Pc → Bool
begun before_put = false
begun _ = true

-- It has set put_initiator_rank of its own place.
abbrev pub marked : Pc → Bool
marked done = true
marked before_remote = true
marked _ = false

abbrev pub has_ended : Pc → Bool
has_ended done = true
has_ended _ = false

-- All copies of the datum for place `i` that are asked for or on their way.
abbrev pub pending : System → ℕ → ℕ
pending s i = s.requests i + s.awaiting i + length (s.copies i)

pub record IsSingle (home putter : ℕ) (s : System) : Type 0 where
  pub sound : s.failed ≡ false
  pub asked :
      (i : ℕ)
      → i ≢ home
      → i ≢ putter
      → pending s i + bit (is_some (s.value i)) ≡ bit (s.put_requested_from_home i)
  pub same : (i : ℕ) → i ≢ putter → is_some (s.put_initiator_rank i) ≡ is_some (s.value i)
  pub own_value : is_some (s.value putter) ≡ begun s.put_pc
  pub own_mark : is_some (s.put_initiator_rank putter) ≡ marked s.put_pc
  pub own_copies : s.copies putter ≡ []
  pub home_requests : s.requests home + s.awaiting home ≡ 0
  pub home_copies : s.copies home ≡ []
  pub sends : s.put_pc ≡ before_remote → putter ≢ home
  pub nothing_sent : putter ≡ home → s.copy_home ≡ none
  pub sent :
      putter ≢ home
      → bit (is_some (s.value home)) + bit (is_some s.copy_home) ≡ bit (has_ended s.put_pc)
  pub source : (k : ℕ) → s.put_initiator_rank home ≡ some k → k ≡ putter

pub init-IsSingle : (home putter : ℕ) (garbage : ℕ → ℕ) → IsSingle home putter (init garbage)
unfolding init
init-IsSingle home putter garbage = record {
  sound = refl;
  asked = λ i h p. refl;
  same = λ i p. refl;
  own_value = refl;
  own_mark = refl;
  own_copies = refl;
  home_requests = refl;
  home_copies = refl;
  sends = λ e. cc;
  nothing_sent = λ e. refl;
  sent = λ e. refl;
  source = λ k e. cc;
}

-- Only another place than the home sends the datum to it.
pub sent_from :
    {home putter d : ℕ} {s : System} → IsSingle home putter s → s.copy_home ≡ some d → putter ≢ home
sent_from v q e = ground (arith, v.nothing_sent e)

-- The home sends the datum neither to itself nor to the place that has put it.
pub sent_to :
    {home putter : ℕ} {s : System} (j d : ℕ) (ds : List ℕ)
    → IsSingle home putter s
    → s.copies j ≡ d ∷ ds
    → (j ≢ home) × (j ≢ putter)
sent_to j d ds v q = (λ e. ground (arith, v.home_copies), λ e. ground (arith, v.own_copies))

pub not_home :
    {home putter : ℕ} {s : System} (j : ℕ) → IsSingle home putter s → 0 < s.awaiting j → j ≢ home
not_home j v h e = ground (arith, v.home_requests)

-- What the home knows of the put once it has the datum.
pub known :
    {home putter x : ℕ} {s : System}
    → IsSingle home putter s
    → s.value home ≡ some x
    → putter ≢ home
    → s.put_initiator_rank home ≡ some putter
known {home} {putter} {x} {s} v q other = go (s.put_initiator_rank home) refl
  where
    go : (r : Option ℕ) → s.put_initiator_rank home ≡ r → s.put_initiator_rank home ≡ some putter
    go none e = ground (arith, v.same home (λ e. other (sym e)))
    go (some k) e = ground (arith, v.source k)
