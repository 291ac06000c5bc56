-- ===== src/EventList/Freed.antt =====
-- src/hcupc_spmd.cpp: free_upcxx_event_list frees every event of the list, and each of them once.
use habanero_upc.Prelude.{
  ℕ, zero, suc, ◌+◌, ◌≤◌, ◌<◌, ◌≡◌, ◌≢◌, refl, sym, ap, ◌∙◌, Option, none, some, List, [], ◌∷◌,
  ◌++◌, arith, count, count-append, length, ◌>>=◌, update, update-here, update-other, ℕ_discrete,
  dec_lt, ◌⊎◌, inl, inr,
}
use mathlib.Core.List.{append_assoc, append-nil}
use habanero_upc.EventList.{EventList, get_upcxx_event, get_upcxx_events, free_upcxx_event_list}
use habanero_upc.EventList.Chain.{Nodes, Chain, Chain-outside, Chain-link}

-- What is left of the heap when the nodes `xs` are freed.
record Without (xs : List ℕ) (before after : Nodes) : Type 0 where
  freed : (k : ℕ) → 0 < count k xs → after k ≡ none
  others : (k : ℕ) → count k xs ≡ 0 → after k ≡ before k

Without-next :
    (before after : Nodes) (x : ℕ) (xs : List ℕ)
    → count x xs ≡ 0
    → Without xs (update before x none) after
    → Without (x ∷ xs) before after
Without-next before after x xs alone w = record {
  freed = λ k h. elim (ℕ_discrete x k) [
    | yes same ↦ w.others k (rw (← same) alone) ∙ update-here before x none k same
    | no other ↦ w.freed k (ground (arith, h, other))
  ];
  others = λ k h. w.others k (ground (arith, h)) ∙ update-other before x none k (ground (arith, h));
}

free-Without :
    (fuel : ℕ) (xs : List ℕ) (s : EventList)
    → Chain s.nodes s.event_list_head xs
    → ((k : ℕ) → count k xs ≤ 1)
    → length xs < fuel
    → (t : EventList) × (free_upcxx_event_list fuel s ≡ some t)
      × (t.event_list_head ≡ none)
      × Without xs s.nodes t.nodes
unfolding free_upcxx_event_list
free-Without zero xs s c once enough = absurd (omega arith)
free-Without (suc fuel) [] s c once enough = (
  record s { event_list_head = none; event_list_curr = none },
  rw (free_upcxx_event_list, c) refl,
  refl,
  record { freed = λ k h. absurd (omega arith); others = λ k h. refl },
)
free-Without (suc fuel) (x ∷ xs) s (is, (next, here, rest)) once enough =
    let u : EventList = record s { nodes = update s.nodes x none; event_list_head = next } in
    let alone : count x xs ≡ 0 = ground (arith, once x) in
    let (t, e, ends, w) =
      free-Without fuel xs u (Chain-outside s.nodes x none next xs alone rest)
        (λ k. omega (arith, once k)) (omega arith) in
    (t, rw (free_upcxx_event_list, is, here) e, ends, Without-next s.nodes t.nodes x xs alone w)

-- The list after some calls of get_upcxx_event, from a heap `base`.
record Listed (base : Nodes) (ps : List ℕ) (s : EventList) : Type 0 where
  chain : Chain s.nodes s.event_list_head ps
  last : (ps ≡ []) ⊎ ((qs : List ℕ) × (c : ℕ) × (ps ≡ qs ++ c ∷ []) × (s.event_list_curr ≡ some c))
  outside : (k : ℕ) → count k ps ≡ 0 → s.nodes k ≡ base k

Chain-head :
    (nodes : Nodes) (head : Option ℕ) (qs : List ℕ) (c : ℕ)
    → Chain nodes head (qs ++ c ∷ [])
    → (h : ℕ) × (head ≡ some h)
Chain-head nodes head [] c chain = (c, chain.0)
Chain-head nodes head (q ∷ qs) c chain = (q, chain.0)

Chain-last :
    (nodes : Nodes) (head : Option ℕ) (qs : List ℕ) (c : ℕ)
    → Chain nodes head (qs ++ c ∷ [])
    → nodes c ≡ some none
Chain-last nodes head [] c (is, (next, here, ends)) = here ∙ ap some ends
Chain-last nodes head (q ∷ qs) c (is, (next, here, rest)) = Chain-last nodes next qs c rest

get-first :
    (base : Nodes) (el : ℕ) (s : EventList)
    → Listed base [] s
    → (t : EventList) × (get_upcxx_event el s ≡ some t) × Listed base (el ∷ []) t
unfolding get_upcxx_event
get-first base el s l = (
  record {
    nodes = update s.nodes el (some none);
    event_list_head = some el;
    event_list_curr = some el;
  },
  rw l.chain refl,
  record {
    chain = (refl, (none, update-here s.nodes el (some none) el refl, refl));
    last = inr ([], el, refl, refl);
    outside = λ k h.
        update-other s.nodes el (some none) k (ground (arith, h)) ∙ l.outside k (omega arith);
  },
)

get-next :
    (base : Nodes) (el : ℕ) (s : EventList) (qs : List ℕ) (c h : ℕ)
    → Listed base (qs ++ c ∷ []) s
    → s.event_list_curr ≡ some c
    → s.event_list_head ≡ some h
    → count el (qs ++ c ∷ []) ≡ 0
    → count c qs ≡ 0
    → (t : EventList) × (get_upcxx_event el s ≡ some t) × Listed base (qs ++ c ∷ el ∷ []) t
unfolding get_upcxx_event
get-next base el s qs c h l curr head new alone =
    let fresh = update s.nodes el (some none) in
    let apart : el ≢ c = ground (arith, new, count-append el qs (c ∷ [])) in
    let there : fresh c ≡ some none =
      update-other s.nodes el (some none) c apart
      ∙ Chain-last s.nodes s.event_list_head qs c l.chain in
    (
      record s { nodes = update fresh c (some (some el)); event_list_curr = some el },
      rw (head, curr, there) refl,
      record {
        chain =
            Chain-link fresh s.event_list_head qs c el
              (Chain-outside s.nodes el (some none) s.event_list_head (qs ++ c ∷ []) new l.chain)
              (update-here s.nodes el (some none) el refl) alone (λ e. apart (sym e));
        last = inr (qs ++ c ∷ [], el, sym (append_assoc qs (c ∷ []) (el ∷ [])), refl);
        outside = λ k out.
            let split = count-append k qs (c ∷ el ∷ []) in
            update-other fresh c (some (some el)) k (ground (arith, out, split))
            ∙ update-other s.nodes el (some none) k (ground (arith, out, split))
            ∙ l.outside k (ground (arith, out, split, count-append k qs (c ∷ [])));
      },
    )

get-Listed :
    (base : Nodes) (el : ℕ) (s : EventList) (ps : List ℕ)
    → Listed base ps s
    → count el ps ≡ 0
    → ((k : ℕ) → count k ps ≤ 1)
    → (t : EventList) × (get_upcxx_event el s ≡ some t) × Listed base (ps ++ el ∷ []) t
get-Listed base el s ps l new once = elim l.last [
  | inl nothing ↦
      let l0 : Listed base [] s = (rw nothing at l) in rw nothing (get-first base el s l0)
  | inr (qs, c, is, curr) ↦
      let l1 : Listed base (qs ++ c ∷ []) s = (rw is at l) in
      let (h, head) = Chain-head s.nodes s.event_list_head qs c l1.chain in
      let alone : count c qs ≡ 0 =
        ground (arith, ap (count c) is, once c, count-append c qs (c ∷ [])) in
      rw (is, append_assoc qs (c ∷ []) (el ∷ []))
        (get-next base el s qs c h l1 curr head (sym (ap (count el) is) ∙ new) alone)
]

gets-Listed :
    (base : Nodes) (els ps : List ℕ) (s : EventList)
    → Listed base ps s
    → ((k : ℕ) → count k ps + count k els ≤ 1)
    → (t : EventList) × (get_upcxx_events els s ≡ some t) × Listed base (ps ++ els) t
unfolding get_upcxx_events
gets-Listed base [] ps s l once = (s, refl, rw (append-nil ps) l)
gets-Listed base (el ∷ els) ps s l once =
    let (u, e, one) =
      get-Listed base el s ps l (ground (arith, once el)) (λ k. omega (arith, once k)) in
    let (t, e2, all) =
      gets-Listed base els (ps ++ el ∷ []) u one
        (λ k. omega (arith, once k, count-append k ps (el ∷ []))) in
    (t, rw e e2, rw (← append_assoc ps (el ∷ []) els) all)

-- After any calls of get_upcxx_event from an empty list, where `new` gives different addresses of
-- nodes that are not allocated, free_upcxx_event_list ends after one turn for each event: no node is
-- used that is not allocated, every event is freed, the rest of the heap is as before, and the list
-- is empty.
pub events_freed :
    (els : List ℕ) (s : EventList)
    → s.event_list_head ≡ none
    → ((k : ℕ) → count k els ≤ 1)
    → ((k : ℕ) → 0 < count k els → s.nodes k ≡ none)
    → (t : EventList) × ((get_upcxx_events els s >>= free_upcxx_event_list (suc (length els)))
        ≡ some t)
      × (t.event_list_head ≡ none)
      × ((k : ℕ) → t.nodes k ≡ s.nodes k)
events_freed els s empty once unused =
    let start : Listed s.nodes [] s = record {
      chain = empty;
      last = inl refl;
      outside = λ k h. refl;
    } in
    let (u, e, l) = gets-Listed s.nodes els [] s start (λ k. omega (arith, once k)) in
    let (t, e2, ends, w) = free-Without (suc (length els)) els u l.chain once (omega arith) in
    (
      t,
      rw e e2,
      ends,
      λ k. elim (dec_lt 0 (count k els)) [
        | yes taken ↦ w.freed k taken ∙ sym (unused k taken)
        | no other ↦ w.others k (omega arith) ∙ l.outside k (omega arith)
      ],
    )
