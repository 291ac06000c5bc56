-- ===== src/Remote/Sound.antt =====
-- inc/hcupc_spmd-commTask.h: the cells and the tasks of the messages on their way, and that each step
-- keeps them.
use habanero_upc.Prelude.{
  ℕ, ◌+◌, ◌≤◌, ◌≡◌, ◌≢◌, refl, sym, ap, ◌∙◌, Bool, true, false, ◌&&◌, Option, none, some, List, [],
  ◌∷◌, ◌++◌, ◌==◌, if◌then◌else◌, update, update-here, update-other, arith, count, count-append,
  ℕ_discrete, ==_iff, Bool-cases, inl, inr,
}
use habanero_upc.Remote.{
  Lambda, lambda_dest, lambda_for_thief, Message, World, set_cell, run_lambda, launch_upcxx_async,
  queue_source,
}
use habanero_upc.Remote.Cells.{
  points_to, pointers, under_way, pointers-append, under_way-append, set_cell_same,
  under_way-set_cell, is_used, is_used-set_cell, same_cell,
}

abbrev pub AllAway : List Message → Type 0
AllAway [] = Unit
AllAway (m ∷ ms) = (m.source ≢ m.dest) × AllAway ms

AllAway-append : (xs ys : List Message) → AllAway xs → AllAway ys → AllAway (xs ++ ys)
AllAway-append [] ys p q = q
AllAway-append (m ∷ xs) ys p q = (p.0, AllAway-append xs ys p.1 q)

-- The tasks of place `p` after more have been added at place `i`.
count-added :
    (f : ℕ → List ℕ) (i : ℕ) (xs : List ℕ) (p t : ℕ)
    → count t (update f i (f i ++ xs) p) ≡ count t (f p) + (if i == p then count t xs else 0)
count-added f i xs p t = elim (ℕ_discrete i p) [
  | yes same ↦
      ap (count t) (update-here f i (f i ++ xs) p same)
      ∙ count-append t (f i) xs
      ∙ rw ((==_iff i p).1 same) (ap (λ k. count t (f k) + count t xs) same)
  | no other ↦
      ap (count t) (update-other f i (f i ++ xs) p other) ∙ rw (differs i p other) (omega arith)
]
  where
    differs : (i p : ℕ) → i ≢ p → (i == p) ≡ false
    differs i p h = ground arith

is_used-le : (o : Option Lambda) → is_used o ≤ 1
is_used-le none = omega arith
is_used-le (some l) = omega arith

AllAway-drop :
    (xs : List Message) (m : Message) (ys : List Message)
    → AllAway (xs ++ m ∷ ys)
    → AllAway (xs ++ ys)
AllAway-drop [] m ys a = a.1
AllAway-drop (x ∷ xs) m ys a = (a.0, AllAway-drop xs m ys a.1)

-- The use of a cell after the copy, if it is the copy, and the cell read are freed.
cleared :
    (read copy : Bool) (x y z u before after : ℕ)
    → x ≡ (if read then 0 else y)
    → y ≡ (if copy then 0 else z)
    → z ≡ (if copy then 1 else u)
    → before + ((if read then 1 else 0) + after) ≡ u
    → u ≤ 1
    → (copy ≡ true → u ≡ 0)
    → before + after ≡ x
cleared true copy x y z u before after p q r e h c = omega arith
cleared false true x y z u before after p q r e h c = omega (arith, c refl)
cleared false false x y z u before after p q r e h c = omega arith

-- Each allocated cell is that of exactly one message, no message goes to its own place, and each task
-- sent to a place is on its way or has been handed to async there.
pub record IsSound (w : World) : Type 0 where
  pub cells : (i a : ℕ) → pointers i a w.messages ≡ is_used (w.segment i a)
  pub away : AllAway w.messages
  pub tasks :
      (p t : ℕ) → count t (w.sent p) ≡ count t (w.asynced p) + under_way w.segment p t w.messages

pub launch-IsSound :
    (a me dest : ℕ) (lambda : Lambda) (w : World)
    → dest ≢ me
    → w.segment me a ≡ none
    → IsSound w
    → IsSound (launch_upcxx_async a me lambda dest w)
unfolding launch_upcxx_async
launch-IsSound a me dest lambda w away fresh s = record {
  cells = λ i b.
      pointers-append i b w.messages _
      ∙ launched i b
      ∙ sym (is_used-set_cell w.segment me a (some lambda) i b);
  away = AllAway-append w.messages _ s.away (λ e. away (sym e), tt);
  tasks = λ p t.
      let moved =
        under_way-append (set_cell w.segment me a (some lambda)) p t w.messages
          (record { dest = dest; source = me; address = a } ∷ []) in
      omega (
        arith,
        s.tasks p t,
        count-added w.sent dest (run_lambda lambda) p t,
        rw (set_cell_same w.segment me a (some lambda)) at moved,
        under_way-set_cell w.segment me a (some lambda) p t w.messages
            (s.cells me a ∙ ap is_used fresh),
      );
}
  where
    launched :
        (i b : ℕ)
        → pointers i b w.messages + ((if (me == i) && (a == b) then 1 else 0) + 0)
          ≡ (if (me == i) && (a == b) then 1 else is_used (w.segment i b))
    launched i b = elim (Bool-cases ((me == i) && (a == b))) [
      | inl same ↦
          let (p, q) = same_cell me a i b same in
          rw same (rw (← p, ← q) (omega (arith, s.cells me a, ap is_used fresh)))
      | inr other ↦ rw other (omega (arith, s.cells i b))
    ]

queue_source-IsSound :
    (l : Lambda) (me source : ℕ) {w : World} → IsSound w → IsSound (queue_source l me source w)
unfolding queue_source
queue_source-IsSound (lambda_dest t) me source s = record {
  cells = s.cells;
  away = s.away;
  tasks = s.tasks;
}
queue_source-IsSound (lambda_for_thief ts count) me source s = s

-- The state after the message `m` with lambda `l`, copied to address `b`.
abbrev pub received : ℕ → Lambda → List Message → Message → World → World
received b l rest m w = queue_source l m.dest m.source (record w {
  segment =
      set_cell (set_cell (set_cell w.segment m.dest b (some l)) m.dest b none) m.source m.address
        none;
  messages = rest;
  asynced = update w.asynced m.dest (w.asynced m.dest ++ run_lambda l);
})

module _ (b : ℕ) (before after : List Message) (m : Message) (w : World)
    (split : w.messages ≡ before ++ m ∷ after) (free : w.segment m.dest b ≡ none)
    (s : IsSound w) where
  pub counted :
      (i a : ℕ)
      → pointers i a before + ((if points_to i a m then 1 else 0) + pointers i a after)
        ≡ is_used (w.segment i a)
  counted i a =
      sym (pointers-append i a before (m ∷ after)) ∙ ap (pointers i a) (sym split) ∙ s.cells i a

  pub own_cell : points_to m.source m.address m ≡ true
  own_cell = ground arith

  rest_free : pointers m.source m.address (before ++ after) ≡ 0
  rest_free =
      pointers-append m.source m.address before after
      ∙ omega (
        arith,
        rw own_cell at (counted m.source m.address),
        is_used-le (w.segment m.source m.address),
      )

  copy_free : pointers m.dest b (before ++ after) ≡ 0
  copy_free =
      pointers-append m.dest b before after ∙ omega (arith, counted m.dest b, ap is_used free)

  pub received-IsSound :
      (l : Lambda)
      → w.segment m.source m.address ≡ some l
      → IsSound (received b l (before ++ after) m w)
  received-IsSound l held = queue_source-IsSound l m.dest m.source (record {
    cells = λ i a.
        pointers-append i a before after
        ∙ cleared (points_to i a m) ((m.dest == i) && (b == a)) _ _ _ _ _ _
            (is_used-set_cell copied_freed m.source m.address none i a)
            (is_used-set_cell copied m.dest b none i a)
            (is_used-set_cell w.segment m.dest b (some l) i a) (counted i a)
            (is_used-le (w.segment i a))
            (λ q. let (d, c) = same_cell m.dest b i a q in rw (← d, ← c) (ap is_used free));
    away = AllAway-drop before m after (rw split at s.away);
    tasks = λ p t. omega (
      arith,
      s.tasks p t,
      ap (under_way w.segment p t) split,
      rw held at (under_way-append w.segment p t before (m ∷ after)),
      under_way-append w.segment p t before after,
      under_way-set_cell copied_freed m.source m.address none p t (before ++ after) rest_free,
      under_way-set_cell copied m.dest b none p t (before ++ after) copy_free,
      under_way-set_cell w.segment m.dest b (some l) p t (before ++ after) copy_free,
      count-added w.asynced m.dest (run_lambda l) p t,
    );
  })
    where
      copied : ℕ → ℕ → Option Lambda
      copied = set_cell w.segment m.dest b (some l)

      copied_freed : ℕ → ℕ → Option Lambda
      copied_freed = set_cell copied m.dest b none
