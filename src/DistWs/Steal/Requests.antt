-- ===== src/DistWs/Steal/Requests.antt =====
-- src/hcupc_spmd_distWS_common.cpp, the baseline work stealing: where the request of a thief stands.
use habanero_upc.Prelude.{ℕ, ◌+◌, ◌<◌, ◌≡◌, ◌≢◌, refl, Bool, true, false, arith, ite, ℕ_discrete}
use habanero_upc.Prelude.Counting.{total, total-differ, total-const}
use habanero_upc.DistWs.Steal.{
  Request, req_available, req_unavailable, requested, Pc, running, invalidating, searching,
  awaiting, shipped, System, Step, renew, ship, reopen, deliver, mark_idle, already_idle,
  invalidate, request, wake, give_up, init, Steps, here, next,
}

abbrev is_thief : ℕ → Request → ℕ
is_thief j (requested i) = ite (ℕ_discrete j i) 1 0
is_thief j _ = 0

-- One if the victim still owes an answer to thief `j`.
abbrev pub owes : ℕ → Pc × Request → ℕ
owes j (shipped _, _) = 0
owes j (invalidating i, _) = ite (ℕ_discrete j i) 1 0
owes j (_, r) = is_thief j r

abbrev pub victims_state : System → ℕ → Pc × Request
victims_state s v = (s.pc v, s.req_thread v)

abbrev pub bit : Bool → ℕ
bit true = 1
bit false = 0

-- The answers that thief `j` is owed, and those on their way to it.
abbrev pub answers : ℕ → System → ℕ → ℕ
answers n s j = total (owes j) n (victims_state s) + s.shipments j

abbrev looks_for_work : Pc → Bool
looks_for_work (invalidating _) = true
looks_for_work searching = true
looks_for_work awaiting = true
looks_for_work _ = false

abbrev pub waits : Pc → Bool
waits awaiting = true
waits _ = false

pub record IsConsistent (n : ℕ) (s : System) : Type 0 where
  pub answered : (j : ℕ) → j < n → answers n s j ≡ bit (s.wait_for_task_from_victim j)
  pub awake : (j : ℕ) → s.wait_for_task_from_victim j ≡ true → s.pc j ≡ awaiting
  pub looking : (i : ℕ) → looks_for_work (s.pc i) ≡ true → s.out_of_work i ≡ true
  pub closed : (i : ℕ) → s.out_of_work i ≡ true → s.req_thread i ≡ req_unavailable
  pub held : (i j : ℕ) → s.pc i ≡ shipped j → s.req_thread i ≡ requested j

init-IsConsistent : (n : ℕ) → IsConsistent n init
unfolding init
init-IsConsistent n = record {
  answered = λ j l. omega (arith, total-const (owes j) n (running, req_unavailable) refl);
  awake = λ j e. cc;
  looking = λ i e. cc;
  closed = λ i e. cc;
  held = λ i j e. cc;
}

-- A step that changes the state of one victim.
move :
    {n : ℕ} (s t : System) (i : ℕ)
    → i < n
    → ((v : ℕ) → i ≢ v → (t.pc v ≡ s.pc v) × (t.req_thread v ≡ s.req_thread v))
    → (j : ℕ)
    → total (owes j) n (victims_state t) + owes j (s.pc i, s.req_thread i)
      ≡ total (owes j) n (victims_state s) + owes j (t.pc i, t.req_thread i)
move {n} s t i lt h j =
    total-differ (owes j) i n (victims_state s) (victims_state t) lt
      (λ v other. ground (arith, h v other))

-- A victim that is open for requests owes only what stands in its entry.
owes_when_open :
    {n : ℕ} (s : System) (w k : ℕ)
    → IsConsistent n s
    → s.req_thread w ≡ req_available
    → (r : Request) → owes k (s.pc w, r) ≡ is_thief k r
owes_when_open s w k v e r = go (s.pc w) refl
  where
    go : (p : Pc) → s.pc w ≡ p → owes k (p, r) ≡ is_thief k r
    go running q = refl
    go searching q = refl
    go awaiting q = refl
    go (shipped j) q = ground (arith, v.held w j q)
    go (invalidating j) q = ground (arith, v.closed w (v.looking w (ground arith)))

Step-IsConsistent : {n : ℕ} {s t : System} → Step n s t → IsConsistent n s → IsConsistent n t
Step-IsConsistent {n} {s} {t} (renew i lt p q) v = record {
  answered = λ k l. ground (arith, v.answered k l, move s t i lt (λ u other. ground arith) k);
  awake = λ k e. ground (arith, v.awake k);
  looking = λ k e. ground (arith, v.looking k);
  closed = λ k e. ground (arith, v.closed k);
  held = λ k m e. ground (arith, v.held k m);
}
Step-IsConsistent {n} {s} {t} (ship i j lt p q) v = record {
  answered = λ k l. ground (arith, v.answered k l, move s t i lt (λ u other. ground arith) k);
  awake = λ k e. ground (arith, v.awake k);
  looking = λ k e. ground (arith, v.looking k);
  closed = λ k e. ground (arith, v.closed k);
  held = λ k m e. ground (arith, v.held k m);
}
Step-IsConsistent {n} {s} {t} (reopen i j lt p) v = record {
  answered = λ k l.
      ground (arith, v.answered k l, v.held i j p, move s t i lt (λ u other. ground arith) k);
  awake = λ k e. ground (arith, v.awake k);
  looking = λ k e. ground (arith, v.looking k);
  closed = λ k e. ground (arith, v.closed k, v.held i j p);
  held = λ k m e. ground (arith, v.held k m);
}
Step-IsConsistent {n} {s} {t} (deliver j lt p) v = record {
  answered = λ k l. ground (arith, v.answered k l);
  awake = λ k e. ground (arith, v.awake k);
  looking = λ k e. ground (arith, v.looking k);
  closed = λ k e. ground (arith, v.closed k);
  held = λ k m e. ground (arith, v.held k m);
}
Step-IsConsistent {n} {s} {t} (mark_idle i lt p q) v = record {
  answered =
      λ k l. ground (arith, v.answered k l, v.closed i, move s t i lt (λ u other. ground arith) k);
  awake = λ k e. ground (arith, v.awake k);
  looking = λ k e. ground (arith, v.looking k);
  closed = λ k e. ground (arith, v.closed k);
  held = λ k m e. ground (arith, v.held k m);
}
Step-IsConsistent {n} {s} {t} (already_idle i lt p q) v = record {
  answered = λ k l. ground (arith, v.answered k l, move s t i lt (λ u other. ground arith) k);
  awake = λ k e. ground (arith, v.awake k);
  looking = λ k e. ground (arith, v.looking k);
  closed = λ k e. ground (arith, v.closed k);
  held = λ k m e. ground (arith, v.held k m);
}
Step-IsConsistent {n} {s} {t} (invalidate i j lt p) v = record {
  answered = λ k l. ground (
    arith,
    v.answered k l,
    v.closed i (v.looking i (ground arith)),
    move s t i lt (λ u other. ground arith) k,
  );
  awake = λ k e. ground (arith, v.awake k);
  looking = λ k e. ground (arith, v.looking k);
  closed = λ k e. ground (arith, v.closed k);
  held = λ k m e. ground (arith, v.held k m);
}
Step-IsConsistent {n} {s} {t} (request i w lt lw o p q) v = record {
  answered = λ k l. ground (
    arith,
    v.answered k l,
    v.awake i,
    owes_when_open s w k v q (requested i),
    owes_when_open s w k v q req_available,
    total-differ (owes k) w n (victims_state s) (victims_state t) lw (λ u other. ground arith),
  );
  awake = λ k e. ground (arith, v.awake k);
  looking = λ k e. ground (arith, v.looking k);
  closed = λ k e. ground (arith, v.closed k);
  held = λ k m e. ground (arith, v.held k m);
}
Step-IsConsistent {n} {s} {t} (wake i lt p q) v = record {
  answered = λ k l. ground (
    arith,
    v.answered k l,
    v.closed i (v.looking i (ground arith)),
    move s t i lt (λ u other. ground arith) k,
  );
  awake = λ k e. ground (arith, v.awake k);
  looking = λ k e. ground (arith, v.looking k);
  closed = λ k e. ground (arith, v.closed k);
  held = λ k m e. ground (arith, v.held k m);
}
Step-IsConsistent {n} {s} {t} (give_up i lt p) v = record {
  answered = λ k l. ground (
    arith,
    v.answered k l,
    v.closed i (v.looking i (ground arith)),
    move s t i lt (λ u other. ground arith) k,
  );
  awake = λ k e. ground (arith, v.awake k);
  looking = λ k e. ground (arith, v.looking k);
  closed = λ k e. ground (arith, v.closed k);
  held = λ k m e. ground (arith, v.held k m);
}

pub Steps-IsConsistent : {n : ℕ} {s : System} → Steps n init s → IsConsistent n s
Steps-IsConsistent {n} here = init-IsConsistent n
Steps-IsConsistent (next r st) = Step-IsConsistent st (Steps-IsConsistent r)
