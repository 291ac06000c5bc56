-- ===== src/DistWs/Serve/Answered.antt =====
-- src/hcupc_spmd_distWS_common.cpp: req_thread of a place while it sends batches to thieves.
use habanero_upc.Prelude.{
  ℕ, ◌<◌, ◌≢◌, ltb, inl, inr, Bool-cases, arith, ◌≡◌, sym, ◌∙◌, true, false, [], ◌∷◌, ◌++◌, ◌⊎◌,
}
use mathlib.Core.List.{append_assoc, append-nil}
use habanero_upc.DistWs.Steal.{Request, req_available, req_unavailable, requested}
use habanero_upc.DistWs.Serve.{Network, renewed}
use habanero_upc.DistWs.Serve.Served.{Batches}

abbrev pub NoRequest : Request → Type 0
NoRequest r = (r ≡ req_available) ⊎ (r ≡ req_unavailable)

-- What renewed_as_victim does to req_thread: a request is neither lost nor made up, and a place with a
-- declared load can be asked.
abbrev pub Renewed : ℕ → Request → Request → Type 0
Renewed load r r' =
    ((i : ℕ) → r ≡ requested i → r' ≡ requested i)
    × ((i : ℕ) → r' ≡ requested i → r ≡ requested i)
    × (0 < load → r' ≢ req_unavailable)

pub renewed-Renewed : (load : ℕ) (r : Request) → Renewed load r (renewed load r)
renewed-Renewed load req_available = ((λ i e. e), (λ i e. e), λ h d. absurd cc)
renewed-Renewed load req_unavailable = elim (Bool-cases (ltb 0 load)) [
  | inl some_load ↦ rw some_load ((λ i e. absurd cc), (λ i e. absurd cc), λ h d. absurd cc)
  | inr none_there ↦
      rw none_there ((λ i e. e), (λ i e. e), λ h. absurd (ground (arith, none_there)))
]
renewed-Renewed load (requested i) = ((λ i e. e), (λ i e. e), λ h d. absurd cc)

module _ (advance : Network) (Free : Request → Type 0) where
  -- Batches that are sent one after the other, the first after those in `log` and with `r` in
  -- req_thread. A batch that answers a request goes to the thief that stands in req_thread, which is
  -- then made available; a batch to a thief of the queue is sent only if `Free` holds for req_thread.
  -- Each time upcxx::advance comes next. At the end `r'` is in req_thread.
  abbrev pub Answered : Batches → Request → Batches → Request → Type 0
  Answered log r [] r' = r' ≡ r
  Answered log r ((i, ts, true) ∷ bs) r' =
      (r ≡ requested i)
      × Answered (log ++ (i, ts, true) ∷ [])
          (advance.request (log ++ (i, ts, true) ∷ []) req_available) bs r'
  Answered log r ((i, ts, false) ∷ bs) r' =
      Free r
      × Answered (log ++ (i, ts, false) ∷ []) (advance.request (log ++ (i, ts, false) ∷ []) r) bs r'

  pub Answered-append :
      (log bs cs all : Batches) (r r1 r2 : Request)
      → all ≡ log ++ bs
      → Answered log r bs r1
      → Answered all r1 cs r2
      → Answered log r (bs ++ cs) r2
  Answered-append log [] cs all r r1 r2 e a b = let same = e ∙ append-nil log in rw (same, a) at b
  Answered-append log ((i, ts, true) ∷ bs) cs all r r1 r2 e a b = (
    a.0,
    Answered-append (log ++ (i, ts, true) ∷ []) bs cs all _ r1 r2
        (e ∙ sym (append_assoc log ((i, ts, true) ∷ []) bs)) a.1 b,
  )
  Answered-append log ((i, ts, false) ∷ bs) cs all r r1 r2 e a b = (
    a.0,
    Answered-append (log ++ (i, ts, false) ∷ []) bs cs all _ r1 r2
        (e ∙ sym (append_assoc log ((i, ts, false) ∷ []) bs)) a.1 b,
  )
