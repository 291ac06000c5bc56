-- ===== src/DistWs/Hunt/Tests.antt =====
-- Place 1 of four places looks for tasks: place 2 has nine tasks, place 3 has eight, place 0 has none.
use habanero_upc.Prelude.{
  ℕ, ◌+◌, ◌≡◌, refl, Bool, true, false, Option, none, some, List, [], ◌∷◌, arith, ltb, length,
  update, update-here, ℕ_discrete, ◌>>=◌, if◌then◌else◌, ◌==◌,
}
use habanero_upc.Victims.{select_victim}
use habanero_upc.Victims.Selection.{round_robin, random, nearest, round_robin-Selects}
use habanero_upc.DistWs.ThiefQueue.{
  popped_entry, queued_entry, victim_already_contacted, mark_victim_contacted,
}
use habanero_upc.DistWs.InFlight.{received_tasks_from_victim}
use habanero_upc.Prelude.Int.{pos}
use habanero_upc.DistWs.Steal.{req_unavailable, requested}
use habanero_upc.Stats.{stats_init_timeline_events, contacted_victims_statistics}
use habanero_upc.DistWs.Hunt.{load, Thief, Machine}
use habanero_upc.DistWs.Hunt.Lifelines.{search_for_lifelines, search_tasks_globally_successonly}
use habanero_upc.DistWs.Hunt.Synchronous.{search_tasks_globally_synchronous}
use habanero_upc.DistWs.Hunt.GlbSearch.{search_tasks_globally_glb}
use habanero_upc.DistWs.Hunt.Waits.{Answers}
use habanero_upc.DistWs.Hunt.Asks.{Asks}
use habanero_upc.DistWs.Hunt.Contacted.{search_for_lifelines-Asks}
use habanero_upc.DistWs.Hunt.Turns.{Turns}
use habanero_upc.DistWs.Hunt.Synchronous.{Status}
use habanero_upc.DistWs.Hunt.Attempt.{Ends}
use habanero_upc.DistWs.Hunt.Attempts.{Searched, search_synchronous-Tries}
use habanero_upc.DistWs.Hunt.Boundary.{single_place_search_hangs, nearest_search_overruns}

-- Each call of upcxx::advance answers what place 1 waits for.
abbrev pub quick : Machine ℕ
quick = record {
  advance = λ _ p. record p {
    waiting_for_return_async = false;
    shared = record (p.shared) {
      wait_for_task_from_victim = update p.shared.wait_for_task_from_victim 1 false;
    };
  };
  meanwhile = λ h. h;
  before = λ _. none;
}

abbrev loads : ℕ → ℕ
loads i = if i == 2 then 9 else if i == 3 then 8 else 0

abbrev pub busy_place : Thief ℕ ℕ
busy_place = record {
  place = record {
    thieves = record {
      queued_thieves = λ _. none;
      head_next = 0;
      tail_next = 0;
      thieves_waiting = false;
      contacted_victims = λ i. if i == 3 then queued_entry else popped_entry;
      out_of_work = false;
      total_received_steal_requests_when_idle = 0;
      total_cyclic_steals = 0;
    };
    flights = record {
      received_tasks_origin = λ _. 0;
      head_rto = 0;
      tasks_received = 0;
      out_of_work = false;
      asyncs_in_flight = λ _. pos 0;
    };
    waiting_for_return_async = false;
    shared = record {
      work_avail = λ i. load (loads i);
      req_thread = λ i. if i == 1 then requested 0 else req_unavailable;
      wait_for_task_from_victim = λ _. true;
      world = 0;
    };
  };
  last_steal = 1;
  current_glb_max_rand_attempts = 0;
  stats = stats_init_timeline_events;
  asked = [];
}

abbrev idle_machine : Machine ℕ
idle_machine = record {
  advance = λ _ p. p;
  meanwhile = λ h. record h { work_avail = λ _. load 0 };
  before = λ _. none;
}

abbrev pub half : ℕ → ℕ
half n = 2

pub quick-Answers : Answers quick 2
quick-Answers = record { answer = λ asked p. (1, omega arith, refl) }

quick-Ends : Ends quick 1 2
quick-Ends = record {
  ends = λ asked p. (1, omega arith, update-here p.shared.wait_for_task_from_victim 1 false 1 refl);
}

abbrev victims_asked : Option (Bool × Thief ℕ ℕ) → Option (Bool × List ℕ)
victims_asked r = do (b, t) ← r; some (b, t.asked)

-- Place 3 is already contacted, and place 0 has no tasks.
lifelines_run :
    victims_asked
      (search_for_lifelines quick (round_robin 4 1) 4 1 false (λ _. none) 4 2 half false busy_place)
    ≡ some (true, 2 ∷ [])
unfolding search_for_lifelines round_robin received_tasks_from_victim select_victim
    victim_already_contacted mark_victim_contacted ℕ_discrete
lifelines_run = refl

-- The two random attempts find place 2 and place 3 closed to requests, and the lifeline to place 2 is
-- set.
glb_run :
    victims_asked (
      search_tasks_globally_glb quick (round_robin 4 1) 4 1 false (λ _. none) 4 2 half 2 busy_place)
    ≡ some (true, 2 ∷ [])
unfolding search_tasks_globally_glb round_robin received_tasks_from_victim select_victim
    victim_already_contacted mark_victim_contacted ℕ_discrete
glb_run = refl

search_for_lifelines-Asks_example :
    (vs : List ℕ) × (t : Thief ℕ ℕ) × (search_for_lifelines quick
        (round_robin 4 1)
        4
        1
        false
        (λ _. none)
        4
        2
        half
        false
        busy_place
      ≡ some (ltb 0 (length vs), t))
    × Asks 4 1 4 vs
        (contacted_victims_statistics (length vs) busy_place.stats.searches)
        busy_place
        t
search_for_lifelines-Asks_example =
    search_for_lifelines-Asks quick (round_robin 4 1) 4 1 false (λ _. none) 4 2 quick-Answers half
      false busy_place (omega arith) (λ _. round_robin-Selects 4 1 (omega arith) (omega arith))

search_synchronous-Tries_example :
    (success : Bool) × (t : Thief ℕ ℕ) × (os : List (ℕ × Status))
    × (search_tasks_globally_synchronous quick (round_robin 4 1) 4 1 4 2 2 true busy_place
        ≡ some (success, t))
    × Searched quick (round_robin 4 1) 1 4 2 true 3 os success busy_place t
search_synchronous-Tries_example =
    search_synchronous-Tries quick (round_robin 4 1) 4 1 4 2 quick-Ends 2
      (round_robin-Selects 4 1 (omega arith) (omega arith)) true busy_place

single_place_search_hangs_example :
    search_tasks_globally_successonly quick
      (random 1 0 50 (λ c k. c + k))
      1
      0
      false
      (λ _. none)
      4
      2
      half
      true
      busy_place
    ≡ none
unfolding received_tasks_from_victim
single_place_search_hangs_example =
    single_place_search_hangs quick false (λ _. none) 4 2 50 (λ c k. c + k) half busy_place refl

nearest_search_overruns_example :
    search_tasks_globally_successonly idle_machine
      (nearest (0 ∷ 2 ∷ 3 ∷ []))
      4
      1
      false
      (λ _. none)
      4
      2
      half
      true
      busy_place
    ≡ none
unfolding received_tasks_from_victim
nearest_search_overruns_example =
    nearest_search_overruns idle_machine false (λ _. none) 4 2 4 1 (0 ∷ 2 ∷ 3 ∷ []) refl
      (λ h v. refl) half busy_place refl
