-- ===== src/Remote/Delivered.antt =====
-- inc/hcupc_spmd-commTask.h: every task that is sent to another place gets there once, and no cell of
-- the global memory is read after it is freed, or left behind.
use habanero_upc.Prelude.{
  ℕ, ◌+◌, ◌≡◌, ◌≢◌, refl, sym, ap, ◌∙◌, false, Option, none, some, List, [], ◌∷◌, ◌++◌, ◌==◌, arith,
  count, ℕ_discrete, ==_iff, Option-cases, inl, inr, some-injective,
}
use habanero_upc.Remote.{
  Lambda, lambda_dest, lambda_for_thief, Message, World, launch_upcxx_async, async_at_received,
  Step, asynchronous, ship, async_at, receive, Steps, here, next, init,
}
use habanero_upc.Remote.Cells.{pointers, under_way, set_cell_same, is_used}
use habanero_upc.Remote.Sound.{
  AllAway, IsSound, launch-IsSound, received, counted, own_cell, received-IsSound,
}

AllAway-mid :
    (xs : List Message) (m : Message) (ys : List Message)
    → AllAway (xs ++ m ∷ ys)
    → m.source ≢ m.dest
AllAway-mid [] m ys a = a.0
AllAway-mid (x ∷ xs) m ys a = AllAway-mid xs m ys a.1

differs : (i p : ℕ) → i ≢ p → (i == p) ≡ false
differs i p h = ground arith

-- A message on its way can be received: its cell holds a lambda.
receive_lem :
    (b : ℕ) (before after : List Message) (m : Message) (w : World)
    → w.messages ≡ before ++ m ∷ after
    → w.segment m.dest b ≡ none
    → IsSound w
    → (l : Lambda) × (w.segment m.source m.address ≡ some l)
      × (async_at_received b m.dest m.source m.address (record w { messages = before ++ after })
          ≡ some (received b l (before ++ after) m w))
unfolding async_at_received
receive_lem b before after m w split free s = elim (Option-cases (w.segment m.source m.address)) [
  | inl freed ↦ absurd (
      omega (
        arith,
        rw (own_cell b before after m w split free s) at
            (counted b before after m w split free s m.source m.address),
        ap is_used freed,
      ))
  | inr (l, held) ↦ (
    l,
    held,
    rw
        (
          differs m.source m.dest (AllAway-mid before m after (rw split at s.away)),
          held,
          set_cell_same w.segment m.dest b (some l),
        )
        refl,
  )
]

some-ne-none : {w : World} → some w ≢ none
some-ne-none e = cc

-- asyncAt that does not fail.
async_at-launch :
    (a me p task : ℕ) (w : World) {w' : World}
    → async_at a me p task w ≡ some w'
    → (p ≢ me) × (launch_upcxx_async a me (lambda_dest task) p w ≡ w')
unfolding async_at
async_at-launch a me p task w e = elim (ℕ_discrete p me) [
  | yes own ↦ absurd (some-ne-none (sym e ∙ rw ((==_iff p me).1 own) refl))
  | no away ↦ (away, some-injective (rw (differs p me away) at e))
]

Step-IsSound : {n : ℕ} {w w' : World} → Step n w w' → IsSound w → IsSound w'
Step-IsSound {w = w} (asynchronous a me p task inside there fresh e) s =
    let (away, same) = async_at-launch a me p task w e in
    rw same at (launch-IsSound a me p (lambda_dest task) w away fresh s)
Step-IsSound (ship a me thief tasks count inside there away fresh) s =
    launch-IsSound a me thief (lambda_for_thief tasks count) _ away fresh s
Step-IsSound {w = w} (receive b before after m split free e) s =
    let (l, held, r) = receive_lem b before after m w split free s in
    let same : received b l (before ++ after) m w ≡ _ = some-injective (sym r ∙ e) in
    rw same at (received-IsSound b before after m w split free s l held)

init-IsSound : IsSound init
unfolding init
init-IsSound = record { cells = λ i a. refl; away = tt; tasks = λ p t. refl }

Steps-IsSound : {n : ℕ} {w : World} → Steps n init w → IsSound w
Steps-IsSound here = init-IsSound
Steps-IsSound (next r st) = Step-IsSound st (Steps-IsSound r)

unused : (o : Option Lambda) → 0 ≡ is_used o → o ≡ none
unused none e = refl
unused (some l) e = absurd (omega (arith, e))

-- What holds at any time.
pub record Arrives (w : World) : Type 0 where
  pub once :
      (p t : ℕ) → count t (w.sent p) ≡ count t (w.asynced p) + under_way w.segment p t w.messages
  received_safely :
      (b : ℕ) (before after : List Message) (m : Message)
      → w.messages ≡ before ++ m ∷ after
      → w.segment m.dest b ≡ none
      → (w' : World) × (async_at_received b m.dest m.source m.address
            (record w { messages = before ++ after })
          ≡ some w')
  pub freed : w.messages ≡ [] → (i a : ℕ) → w.segment i a ≡ none

-- Whatever the places send to each other with asyncAt and launch_upcxx_async, in whichever order the
-- messages arrive, and whichever free addresses upcxx::allocate returns: each task sent to a place has
-- been handed to async there once, or is on its way exactly once; every message on its way can be
-- received, with no failed assertion and no read of a cell that is not allocated; and once no message
-- is on its way no cell of the global memory is left allocated.
pub remote_tasks_arrive : (n : ℕ) {w : World} → Steps n init w → Arrives w
remote_tasks_arrive n {w} r =
    let s = Steps-IsSound r in
    record {
      once = s.tasks;
      received_safely = λ b before after m split free.
          let (l, _, e) = receive_lem b before after m w split free s in (_, e);
      freed = λ empty i a. unused (w.segment i a) (ap (pointers i a) (sym empty) ∙ s.cells i a);
    }
