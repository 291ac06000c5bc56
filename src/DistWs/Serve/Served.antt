-- ===== src/DistWs/Serve/Served.antt =====
-- src/hcupc_spmd_distWS_common.cpp: what a place has sent to thieves between two states.
use habanero_upc.Prelude.{
  ℕ, ◌+◌, ◌≤◌, ◌<◌, ◌≡◌, refl, sym, Bool, true, false, Option, some, List, [], ◌∷◌, ◌++◌, arith,
  ltb, length, length-append,
}
use mathlib.Core.List.{append_assoc, append-nil}
use habanero_upc.Prelude.Int.{pos, ◌+ℤ◌, add-add, add-zero}
use habanero_upc.DistWs.ThiefQueue.{Thieves}
use habanero_upc.DistWs.ThiefQueue.Fifo.{IsValid, waiting}
use habanero_upc.DistWs.InFlight.{increment_task_in_flight_self}
use habanero_upc.DistWs.Steal.{Request}
use habanero_upc.DistWs.Serve.{Victim}
use habanero_upc.DistWs.Serve.Batches.{Parts, Parts-nil, Parts-trans}

abbrev pub Batches : Type 0
Batches = List (ℕ × List ℕ × Bool)

abbrev pub tasks_of : Batches → List ℕ
tasks_of [] = []
tasks_of ((_, ts, _) ∷ bs) = ts ++ tasks_of bs

-- The thieves of the batches that do not answer a request of the baseline.
abbrev thieves_of : Batches → List (Option ℕ)
thieves_of [] = []
thieves_of ((_, _, true) ∷ bs) = thieves_of bs
thieves_of ((i, _, false) ∷ bs) = some i ∷ thieves_of bs

-- Each batch has between one and `n` tasks.
abbrev AllFit : ℕ → Batches → Type 0
AllFit n [] = Unit {0}
AllFit n ((_, ts, _) ∷ bs) = (0 < length ts) × (length ts ≤ n) × AllFit n bs

tasks_of-append : (bs cs : Batches) → tasks_of (bs ++ cs) ≡ tasks_of bs ++ tasks_of cs
tasks_of-append [] cs = refl
tasks_of-append ((_, ts, _) ∷ bs) cs =
    rw (tasks_of-append bs cs, append_assoc ts (tasks_of bs) (tasks_of cs)) refl

thieves_of-append : (bs cs : Batches) → thieves_of (bs ++ cs) ≡ thieves_of bs ++ thieves_of cs
thieves_of-append [] cs = refl
thieves_of-append ((_, _, true) ∷ bs) cs = thieves_of-append bs cs
thieves_of-append ((i, _, false) ∷ bs) cs = rw (thieves_of-append bs cs) refl

AllFit-append : (n : ℕ) (bs cs : Batches) → AllFit n bs → AllFit n cs → AllFit n (bs ++ cs)
AllFit-append n [] cs b c = c
AllFit-append n ((_, ts, _) ∷ bs) cs b c = (b.0, b.1, AllFit-append n bs cs b.2 c)

pub ge→ltb : (a b : ℕ) → b ≤ a → ltb a b ≡ false
ge→ltb a b h = ground arith

module _ {W : Type 0} (me : ℕ) where
  -- After a failed attempt to take tasks.
  abbrev pub robbed : W → Victim W → Victim W
  robbed w s = record s {
    workers = w;
    outgoing_tasks = s.outgoing_tasks + 0;
    thieves = record (s.thieves) { out_of_work = false };
    flights = record (s.flights) { out_of_work = false };
  }

  -- After `ts` are sent to thief `i`, where `q` is the queue then and `r` is req_thread.
  abbrev pub shipped : W → List ℕ → ℕ → Bool → Thieves → Request → Victim W → Victim W
  shipped w ts i baseline q r s = record s {
    workers = w;
    outgoing_tasks = s.outgoing_tasks + length ts;
    thieves = q;
    flights = increment_task_in_flight_self me (record (s.flights) { out_of_work = false });
    launched = s.launched ++ (i, ts, baseline) ∷ [];
    req_thread = r;
  }

module _ {W : Type 0} (ranks me steal_n : ℕ) (contents : W → List ℕ) where
  -- From `s` to `t` the place has sent `batches`: the tasks are those that the workers have lost, the
  -- thieves are the first of the queue, to which others may have come, in its order, and the place has
  -- counted one async in flight for each batch.
  pub record Served (batches : Batches) (s t : Victim W) : Type 0 where
    pub sent : t.launched ≡ s.launched ++ batches
    pub parts : Parts (contents s.workers) (tasks_of batches) (contents t.workers)
    pub valid : IsValid ranks t.thieves
    pub arrived : List (Option ℕ)
    pub fifo : waiting ranks s.thieves ++ arrived ≡ thieves_of batches ++ waiting ranks t.thieves
    pub counted :
        t.flights.asyncs_in_flight me ≡ s.flights.asyncs_in_flight me +ℤ pos (length batches)
    pub sizes : AllFit steal_n batches
    pub outgoing : t.outgoing_tasks ≡ s.outgoing_tasks + length (tasks_of batches)

  pub Served-trans :
      {bs cs : Batches} {s t u : Victim W} → Served bs s t → Served cs t u → Served (bs ++ cs) s u
  Served-trans {bs} {cs} {s} {t} {u} p q = record {
    sent = rw (q.sent, p.sent) (append_assoc s.launched bs cs);
    parts = rw (tasks_of-append bs cs) (Parts-trans p.parts q.parts);
    valid = q.valid;
    arrived = p.arrived ++ q.arrived;
    fifo =
        rw
          (
            ← append_assoc (waiting ranks s.thieves) p.arrived q.arrived,
            p.fifo,
            append_assoc (thieves_of bs) (waiting ranks t.thieves) q.arrived,
            q.fifo,
            thieves_of-append bs cs,
          )
          (sym (append_assoc (thieves_of bs) (thieves_of cs) (waiting ranks u.thieves)));
    counted =
        rw
          (
            q.counted,
            p.counted,
            add-add (s.flights.asyncs_in_flight me) (length bs) (length cs),
            length-append bs cs,
          )
          refl;
    sizes = AllFit-append steal_n bs cs p.sizes q.sizes;
    outgoing =
        rw
          (q.outgoing, p.outgoing, tasks_of-append bs cs, length-append (tasks_of bs) (tasks_of cs))
          (omega arith);
  }

  pub Served-nothing : (s : Victim W) → IsValid ranks s.thieves → Served [] s s
  Served-nothing s v = record {
    sent = sym (append-nil s.launched);
    parts = Parts-nil (contents s.workers);
    valid = v;
    arrived = [];
    fifo = append-nil (waiting ranks s.thieves);
    counted = sym (add-zero (s.flights.asyncs_in_flight me));
    sizes = tt;
    outgoing = omega arith;
  }

  pub busy-IsValid :
      (u : Thieves) → IsValid ranks u → IsValid ranks (record u { out_of_work = false })
  busy-IsValid u v = record { ordered = v.ordered; fits = v.fits; flag = v.flag; ranked = v.ranked }

  pub robbed-Served :
      (w : W) (s : Victim W)
      → IsValid ranks s.thieves
      → Parts (contents s.workers) [] (contents w)
      → Served [] s (robbed me w s)
  robbed-Served w s v p = record {
    sent = sym (append-nil s.launched);
    parts = p;
    valid = busy-IsValid s.thieves v;
    arrived = [];
    fifo = append-nil (waiting ranks s.thieves);
    counted = sym (add-zero (s.flights.asyncs_in_flight me));
    sizes = tt;
    outgoing = omega arith;
  }

  pub shipped-Served :
      (w : W) (ts : List ℕ) (i : ℕ) (baseline : Bool) (q : Thieves) (r : Request) (s : Victim W)
      (more : List (Option ℕ))
      → IsValid ranks q
      → Parts (contents s.workers) ts (contents w)
      → waiting ranks s.thieves ++ more ≡ thieves_of ((i, ts, baseline) ∷ []) ++ waiting ranks q
      → 0 < length ts
      → length ts ≤ steal_n
      → Served ((i, ts, baseline) ∷ []) s (shipped me w ts i baseline q r s)
  unfolding increment_task_in_flight_self
  shipped-Served w ts i baseline q r s more v p order some_tasks few = record {
    sent = refl;
    parts = rw (append-nil ts) p;
    valid = v;
    arrived = more;
    fifo = order;
    counted = ground arith;
    sizes = (some_tasks, few, tt);
    outgoing = rw (append-nil ts) refl;
  }
