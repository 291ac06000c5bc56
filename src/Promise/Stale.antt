-- ===== src/Promise/Stale.antt =====
-- src/hcupc_spmd-distributed-promise.cpp: PROMISE_PUT at the home releases the waiting tasks before it
-- has copied the bytes to its section of the shared array.
use habanero_upc.Prelude.{ℕ, ◌+◌, ◌*◌, ◌<◌, ◌≡◌, ◌≢◌, refl, sym, ap, ◌∙◌, true, some, [], ◌∷◌, ◌++◌}
use habanero_upc.Promise.{
  promise_kind_distributed_owner, promise_kind_distributed_remote, DPromise, copying, putting,
  calling_back, awaiting, World, store, send, put, mark_initiator, promise_put_home,
  promise_put_remote, promise_put_callback, put_back, promise_put_local, register_one,
  register_callback, future_get, run, Steps, here, next, take_message, register,
}
use habanero_upc.Promise.Carried.{stored, elsewhere, written, written-Holds}
use habanero_upc.Promise.RoundTrip.{made}

module _ (guid count home i : ℕ) (bytes : ℕ → ℕ) where
  abbrev owner : DPromise
  owner = made promise_kind_distributed_owner guid home count

  abbrev asker : DPromise
  asker = record (made promise_kind_distributed_remote guid home count) {
    put_requested_from_home = true;
  }

  -- Place `i` has asked for the bytes.
  abbrev asked : World → World
  asked w = send (calling_back guid home i) (store i guid asker w)

  register-asks :
      (w : World)
      → w.guid_map i guid ≡ some (made promise_kind_distributed_remote guid home count)
      → register_callback i (guid ∷ []) w ≡ some (asked w)
  unfolding register_callback register_one future_get
  register-asks w found = rw found refl

  -- The task at the home waits.
  calling-waits :
      (w : World)
      → w.guid_map home guid ≡ some owner
      → run (calling_back guid home i) w ≡ some (send (awaiting guid home i) w)
  unfolding run promise_put_callback
  calling-waits w found = rw found refl

  local-puts :
      (w : World)
      → w.guid_map home guid ≡ some owner
      → promise_put_local home guid bytes w
        ≡ some (store home guid (record owner { value = some bytes }) w)
  unfolding promise_put_local put
  local-puts w found = rw found refl

  waiting-sends :
      (w : World)
      → w.guid_map home guid ≡ some (record owner { value = some bytes })
      → run (awaiting guid home i) w ≡ some (send (copying guid count home i) w)
  unfolding run put_back promise_put_remote
  waiting-sends w found = rw found refl

  abbrev copied : World → World
  copied w =
      send (putting guid home i) (written guid count i (λ k. w.datum guid (home * count + k)) w)

  copying-runs : (w : World) → run (copying guid count home i) w ≡ some (copied w)
  unfolding run
  copying-runs w = refl

  abbrev got : World → DPromise
  got w = record asker {
    value = some (λ k. w.datum guid (i * count + k));
    put_initiator_rank = some home;
  }

  putting-stores :
      (w : World)
      → w.guid_map i guid ≡ some asker
      → run (putting guid home i) w ≡ some (store i guid (got w) w)
  unfolding run promise_put_home put mark_initiator
  putting-stores w found = rw found refl

  -- When the home puts on a promise with handles as __promiseHandle makes them, whatever it puts, there
  -- is an interleaving in which another place that has asked before gets what the section of the home
  -- held before: all its steps come before the home has copied the bytes there.
  pub home_put_stale :
      (ranks : ℕ) (w : World)
      → i ≢ home
      → w.sent ≡ []
      → w.guid_map i guid ≡ some (made promise_kind_distributed_remote guid home count)
      → w.guid_map home guid ≡ some owner
      → (u : World) × (v : World) × (t : World) × (p : DPromise) × (x : ℕ → ℕ) × Steps ranks guid w
          u
        × (promise_put_local home guid bytes u ≡ some v)
        × Steps ranks guid v t
        × (t.guid_map i guid ≡ some p)
        × (future_get p ≡ some x)
        × ((k : ℕ) → k < count → x k ≡ w.datum guid (home * count + k))
  unfolding future_get
  home_put_stale ranks w other none_sent theirs homes =
      let w1 = asked w in
      let w1r : World = record w1 { sent = [] } in
      let u = send (awaiting guid home i) w1r in
      let at_home : u.guid_map home guid ≡ some owner =
        elsewhere i home guid asker w other ∙ homes in
      let full : DPromise = record owner { value = some bytes } in
      let v = store home guid full u in
      let vr : World = record v { sent = [] } in
      let w3 = send (copying guid count home i) vr in
      let w3r : World = record w3 { sent = [] } in
      let w4 = copied w3r in
      let w4r : World = record w4 { sent = [] } in
      let t = store i guid (got w4r) w4r in
      let at_i : w4r.guid_map i guid ≡ some asker =
        elsewhere home i guid full u (λ d. other (sym d)) ∙ stored i guid asker w in
      (
        u,
        v,
        t,
        got w4r,
        (λ k. w4r.datum guid (i * count + k)),
        next (next here (register i (guid ∷ []) w1 (register-asks w theirs))) (
            take_message [] [] (calling_back guid home i) u
              (ap (λ xs. xs ++ calling_back guid home i ∷ []) none_sent)
              (calling-waits w1r at_home)),
        local-puts u at_home,
        next
            (next
              (next here (
                take_message [] [] (awaiting guid home i) w3 refl
                  (waiting-sends vr (stored home guid full u))))
              (take_message [] [] (copying guid count home i) w4 refl (copying-runs w3r)))
            (take_message [] [] (putting guid home i) t refl (putting-stores w4r at_i)),
        stored i guid (got w4r) w4r,
        refl,
        written-Holds (λ q. ⊥) guid count (λ k. w.datum guid (home * count + k)) guid count i
            (λ k. w3r.datum guid (home * count + k)) w3r (refl, (λ k l. refl)) refl,
      )
