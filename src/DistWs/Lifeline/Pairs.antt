-- ===== src/DistWs/Lifeline/Pairs.antt =====
-- src/hcupc_spmd_distWS_common.cpp, the success-only work stealing with cyclic steals allowed.
use habanero_upc.Prelude.{ℕ, ◌+◌, ◌<◌, ◌≡◌, refl, Bool, true, false, arith}
use habanero_upc.Prelude.Counting.{total-room}
use habanero_upc.DistWs.Lifeline.{
  System, queue_size, attempt_steal_or_set_lifeline, queue_thief_of,
  serve_pending_dist_steal_request_asynchronous, receive_tasks, Step, attempt, queue, serve,
  receive, init, Steps, here, next,
}

abbrev pub bit : Bool → ℕ
bit true = 1
bit false = 0

record IsPaired (s : System) : Type 0 where
  sound : s.failed ≡ false
  paired :
      (i v : ℕ)
      → (s.link i v).requests + (s.link i v).queued + (s.link i v).shipments
        ≡ bit (s.link i v).contacted
  no_self : (i : ℕ) → (s.link i i).contacted ≡ false

bit-le : (b : Bool) → bit b < 2
bit-le true = omega arith
bit-le false = omega arith

-- A place never stands in its own queue, so there is room for one more thief.
room : (n v : ℕ) (s : System) → v < n → IsPaired s → queue_size n v s < n
room n v s lt p =
    total-room (λ l. l.queued) n (λ i. s.link i v) v lt (ground (arith, p.paired v v, p.no_self v))
      (λ i. omega (arith, p.paired i v, bit-le (s.link i v).contacted))

Step-IsPaired : {n : ℕ} {s t : System} → Step n false s t → IsPaired s → IsPaired t
unfolding attempt_steal_or_set_lifeline queue_thief_of serve_pending_dist_steal_request_asynchronous
    receive_tasks
Step-IsPaired (attempt i v li lv o f) p = record {
  sound = p.sound;
  paired = λ j w. ground (arith, p.paired j w, f);
  no_self = λ j. ground (arith, p.no_self j, o);
}
Step-IsPaired {n} {s} (queue i v li lv h) p = record {
  sound = ground (arith, p.sound, room n v s lv p);
  paired = λ j w. ground (arith, p.paired j w);
  no_self = λ j. ground (arith, p.no_self j);
}
Step-IsPaired (serve i v li lv h) p = record {
  sound = p.sound;
  paired = λ j w. ground (arith, p.paired j w);
  no_self = λ j. ground (arith, p.no_self j);
}
Step-IsPaired (receive i v li lv h) p = record {
  sound = ground (arith, p.sound, p.paired i v);
  paired = λ j w. ground (arith, p.paired j w);
  no_self = λ j. ground (arith, p.no_self j);
}

Steps-IsPaired : {n : ℕ} {s : System} → Steps n false init s → IsPaired s
unfolding init
Steps-IsPaired here = record { sound = refl; paired = λ i v. refl; no_self = λ i. refl }
Steps-IsPaired (next r st) = Step-IsPaired st (Steps-IsPaired r)

-- With cyclic steals allowed, in every interleaving: no assertion fails, so no queue of thieves
-- overflows and no mark is taken off that is not there; a thief has marked a victim exactly if one
-- request of it is on its way, waits in the queue, or is being answered, and never more than one; and
-- each queue has room for one more thief.
pub lifelines_paired :
    {n : ℕ} {s : System} (i v : ℕ)
    → Steps n false init s
    → v < n
    → (s.failed ≡ false)
      × ((s.link i v).requests + (s.link i v).queued + (s.link i v).shipments
          ≡ bit (s.link i v).contacted)
      × (queue_size n v s < n)
lifelines_paired {n} {s} i v r lt =
    let p = Steps-IsPaired r in (p.sound, p.paired i v, room n v s lt p)
