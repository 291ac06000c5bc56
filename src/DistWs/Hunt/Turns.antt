-- ===== src/DistWs/Hunt/Turns.antt =====
-- src/hcupc_spmd_distWS_common.cpp: what the turns of search_tasks_globally_synchronous find at the
-- victims, described by the arrays that the place sees.
use habanero_upc.Prelude.{
  ℕ, ◌+◌, ◌≤◌, ◌<◌, ◌≡◌, ◌≢◌, refl, Bool, true, false, Option, none, some, List, [], ◌∷◌, arith,
}
use habanero_upc.Victims.Selection.{Selection}
use habanero_upc.DistWs.Steal.{Request, req_available, req_unavailable, requested}
use habanero_upc.DistWs.Hunt.{Load, not_working, load, exceeds, is_available, Shared, Machine}
use habanero_upc.DistWs.Hunt.Synchronous.{
  Status, success_steal, failed_steal, nothing_there, is_success,
}

-- The turns that have found tasks at a victim that takes no request.
abbrev pub failures : List (ℕ × Status) → ℕ
failures [] = 0
failures ((v, failed_steal) ∷ os) = 1 + failures os
failures ((v, success_steal) ∷ os) = failures os
failures ((v, nothing_there) ∷ os) = failures os

abbrev pub has_success : List (ℕ × Status) → Bool
has_success [] = false
has_success ((v, success_steal) ∷ os) = true
has_success ((v, failed_steal) ∷ os) = has_success os
has_success ((v, nothing_there) ∷ os) = has_success os

-- The victim of the turn that has succeeded.
abbrev pub winner : List (ℕ × Status) → Option ℕ
winner [] = none
winner ((v, success_steal) ∷ os) = some v
winner ((v, failed_steal) ∷ os) = winner os
winner ((v, nothing_there) ∷ os) = winner os

pub has_success-cons :
    (v : ℕ) (status : Status) (os : List (ℕ × Status))
    → is_success status ≡ false
    → has_success ((v, status) ∷ os) ≡ has_success os
has_success-cons v success_steal os e = absurd cc
has_success-cons v failed_steal os e = refl
has_success-cons v nothing_there os e = refl

pub winner-cons :
    (v : ℕ) (status : Status) (os : List (ℕ × Status))
    → is_success status ≡ false
    → winner ((v, status) ∷ os) ≡ winner os
winner-cons v success_steal os e = absurd cc
winner-cons v failed_steal os e = refl
winner-cons v nothing_there os e = refl

pub winner-one :
    (v : ℕ) (status : Status) → is_success status ≡ true → winner ((v, status) ∷ []) ≡ some v
winner-one v success_steal e = refl
winner-one v failed_steal e = absurd cc
winner-one v nothing_there e = absurd cc

pub has_success-one : (v : ℕ) (status : Status) → has_success ((v, status) ∷ []) ≡ is_success status
has_success-one v success_steal = refl
has_success-one v failed_steal = refl
has_success-one v nothing_there = refl

pub failures-cons :
    (v : ℕ) (status : Status) (os : List (ℕ × Status))
    → failures ((v, status) ∷ os) ≡ failures ((v, status) ∷ []) + failures os
failures-cons v success_steal os = omega arith
failures-cons v failed_steal os = omega arith
failures-cons v nothing_there os = omega arith

pub failures-one : (v : ℕ) (status : Status) → failures ((v, status) ∷ []) ≤ 1
failures-one v success_steal = omega arith
failures-one v failed_steal = omega arith
failures-one v nothing_there = omega arith

is_above :
    (task_transfer_threshold : ℕ) (l : Load) (n : ℕ)
    → l ≡ load n
    → task_transfer_threshold < n
    → exceeds task_transfer_threshold l ≡ true
is_above most l n e h = rw e (ground arith)

above :
    (task_transfer_threshold : ℕ) (l : Load)
    → exceeds task_transfer_threshold l ≡ true
    → (n : ℕ) × (l ≡ load n) × (task_transfer_threshold < n)
above most not_working e = absurd cc
above most (load n) e = (n, refl, ground arith)

available : (r : Request) → is_available r ≡ true → r ≡ req_available
available req_available e = refl
available req_unavailable e = absurd cc
available (requested i) e = absurd cc

module _ {W : Type 0} (task_transfer_threshold : ℕ) where
  -- A place that declares more tasks than the threshold.
  abbrev pub Offers : ℕ → Shared W → Type 0
  Offers v h = (n : ℕ) × (h.work_avail v ≡ load n) × (task_transfer_threshold < n)

  -- What a turn finds at victim `v`, which it first sees as in `seen`, and under the lock as in
  -- `locked`.
  abbrev pub Finds : ℕ → Status → Shared W → Shared W → Type 0
  Finds v success_steal seen locked = Offers v seen × (locked.req_thread v ≡ req_available)
  Finds v failed_steal seen locked = Offers v seen × (locked.req_thread v ≢ req_available)
  Finds v nothing_there seen locked = ¬ Offers v seen

  pub offers :
      (v : ℕ) (h : Shared W) → exceeds task_transfer_threshold (h.work_avail v) ≡ true → Offers v h
  offers v h e = above task_transfer_threshold (h.work_avail v) e

  pub none_on_offer :
      (v : ℕ) (h : Shared W)
      → exceeds task_transfer_threshold (h.work_avail v) ≡ false
      → ¬ Offers v h
  none_on_offer v h e (n, is, more) =
      let d = is_above task_transfer_threshold (h.work_avail v) n is more in absurd cc

  pub free :
      (v : ℕ) (h : Shared W) → is_available (h.req_thread v) ≡ true → h.req_thread v ≡ req_available
  free v h e = available (h.req_thread v) e

  pub taken :
      (v : ℕ) (h : Shared W)
      → is_available (h.req_thread v) ≡ false
      → h.req_thread v ≢ req_available
  taken v h e d = let b : is_available (h.req_thread v) ≡ true = rw d refl in absurd cc

  -- The turns at the victims that the selection gives, the last of them first after the others. Each
  -- turn looks at the arrays as the one before has left them, and only the last one can succeed.
  abbrev pub Turns :
      {S : Type 0} → Machine W → Selection S → List (ℕ × Status) → S → Shared W → Type 0
  Turns m sel [] last h = Unit {0}
  Turns {S} m sel ((v, success_steal) ∷ os) last h =
      (last' : S) × (sel.next_victim last ≡ some (v, last'))
      × Finds v success_steal (m.meanwhile h) (m.meanwhile (m.meanwhile h))
      × (os ≡ [])
  Turns {S} m sel ((v, failed_steal) ∷ os) last h =
      (last' : S) × (sel.next_victim last ≡ some (v, last'))
      × Finds v failed_steal (m.meanwhile h) (m.meanwhile (m.meanwhile h))
      × Turns m sel os last' (m.meanwhile (m.meanwhile h))
  Turns {S} m sel ((v, nothing_there) ∷ os) last h =
      (last' : S) × (sel.next_victim last ≡ some (v, last'))
      × Finds v nothing_there (m.meanwhile h) (m.meanwhile (m.meanwhile h))
      × Turns m sel os last' (m.meanwhile h)
