-- ===== src/Remote.antt =====
-- inc/hcupc_spmd-commTask.h and src/hcupc_spmd_distWS_common.cpp: how a lambda gets to another place.
-- The sender copies it to a cell of its own segment of the global memory and sends a pointer; the
-- receiver copies it from there, runs the copy and frees both cells.
pub mod Cells
pub mod Sound
pub mod Delivered
mod Tests
use habanero_upc.Prelude.{
  ℕ, zero, suc, ◌+◌, ◌<◌, ◌≡◌, ◌≢◌, Bool, true, false, ◌&&◌, Option, none, some, List, [], ◌∷◌,
  ◌++◌, ◌==◌, ◌>>=◌, if◌then◌else◌, update,
}

-- A lambda that is sent: lambda_dest of asyncAt with the user's task, or lambda_for_thief of
-- ship_asyncAny_to_remote_thief with the tasks for a thief. A number stands for a task.
pub data Lambda : Type 0 where
  lambda_dest : (task : ℕ) → Lambda
  lambda_for_thief : (tasks : List ℕ) (count : ℕ) → Lambda

-- The tasks that the loop hands to hcpp::async.
unfoldable unwrap_n_async_any_tasks : List ℕ → ℕ → List ℕ
unwrap_n_async_any_tasks ts zero = []
unwrap_n_async_any_tasks [] (suc count) = []
unwrap_n_async_any_tasks (t ∷ ts) (suc count) = t ∷ unwrap_n_async_any_tasks ts count

-- The tasks that a lambda hands to async at the place where it runs.
unfoldable pub run_lambda : Lambda → List ℕ
unfolding unwrap_n_async_any_tasks
run_lambda (lambda_dest t) = t ∷ []
run_lambda (lambda_for_thief ts count) = unwrap_n_async_any_tasks ts count

-- The call of async_at_received or asyncAny_destination at place `dest`, with its pointer.
pub record Message : Type 0 where
  pub dest : ℕ
  pub source : ℕ
  pub address : ℕ

-- `segment i a` is the cell at address `a` of place `i`, `none` if it is not allocated. `asynced i` are
-- the tasks handed to async at place `i`; `sent i` those that were sent there.
pub record World : Type 0 where
  pub segment : ℕ → ℕ → Option Lambda
  pub messages : List Message
  pub asynced : ℕ → List ℕ
  pub sent : ℕ → List ℕ
  pub received_tasks_origin : ℕ → ℕ → ℕ
  pub tasks_received : ℕ → ℕ

abbrev pub set_cell : (ℕ → ℕ → Option Lambda) → ℕ → ℕ → Option Lambda → ℕ → ℕ → Option Lambda
set_cell segment i a x = update segment i (update (segment i) a x)

-- lambda2 of asyncAt, and launch_upcxx_async: `a` is the address that upcxx::allocate returns.
unfoldable pub launch_upcxx_async : ℕ → ℕ → Lambda → ℕ → World → World
launch_upcxx_async a me lambda dest w = record w {
  segment = set_cell w.segment me a (some lambda);
  messages = w.messages ++ record { dest = dest; source = me; address = a } ∷ [];
  sent = update w.sent dest (w.sent dest ++ run_lambda lambda);
}

-- asyncAt at place `me`, as far as the communication worker runs it; `none` is the failed assertion.
unfoldable pub async_at : ℕ → ℕ → ℕ → ℕ → World → Option World
unfolding launch_upcxx_async
async_at a me p task w =
    if p == me then none else some (launch_upcxx_async a me (lambda_dest task) p w)

-- queue_source_place_of_remoteTask, for a lambda of asyncAt.
unfoldable pub queue_source : Lambda → ℕ → ℕ → World → World
queue_source (lambda_dest t) me source w = record w {
  tasks_received = update w.tasks_received me (w.tasks_received me + 1);
  received_tasks_origin =
      update w.received_tasks_origin me
        (update (w.received_tasks_origin me) source (w.received_tasks_origin me source + 1));
}
queue_source (lambda_for_thief ts count) me source w = w

-- async_at_received and asyncAny_destination at place `me`: `b` is the address of the copy. `none` is a
-- failed assertion, or a read of a cell that is not allocated.
unfoldable pub async_at_received : ℕ → ℕ → ℕ → ℕ → World → Option World
unfolding run_lambda queue_source
async_at_received b me source address w = if source == me then none else (do
  lambda ← w.segment source address
  copy ← set_cell w.segment me b (some lambda) me b
  some (
      queue_source copy me source (record w {
        segment =
            set_cell (set_cell (set_cell w.segment me b (some lambda)) me b none) source address
              none;
        asynced = update w.asynced me (w.asynced me ++ run_lambda copy);
      })))

-- A step at one of the `n` places. upcxx::allocate returns an address that is not in use, and messages
-- arrive in any order.
pub data Step (n : ℕ) (w : World) : World → Type 0 where
  asynchronous :
      (a me p task : ℕ) {w' : World}
      → me < n
      → p < n
      → w.segment me a ≡ none
      → async_at a me p task w ≡ some w'
      → Step n w w'
  ship :
      (a me thief : ℕ) (tasks : List ℕ) (count : ℕ)
      → me < n
      → thief < n
      → thief ≢ me
      → w.segment me a ≡ none
      → Step n w (launch_upcxx_async a me (lambda_for_thief tasks count) thief w)
  receive :
      (b : ℕ) (before after : List Message) (m : Message) {w' : World}
      → w.messages ≡ before ++ m ∷ after
      → w.segment m.dest b ≡ none
      → async_at_received b m.dest m.source m.address (record w { messages = before ++ after })
        ≡ some w'
      → Step n w w'

pub data Steps (n : ℕ) (w : World) : World → Type 0 where
  here : Steps n w w
  next : {t u : World} → Steps n w t → Step n t u → Steps n w u

-- Before the first task is sent.
unfoldable pub init : World
init = record {
  segment = λ _ _. none;
  messages = [];
  asynced = λ _. [];
  sent = λ _. [];
  received_tasks_origin = λ _ _. 0;
  tasks_received = λ _. 0;
}
