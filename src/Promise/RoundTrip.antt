-- ===== src/Promise/RoundTrip.antt =====
-- src/hcupc_spmd-distributed-promise.cpp: what is put away from the home can be read at the home.
use habanero_upc.Prelude.{ℕ, ◌+◌, ◌*◌, ◌<◌, ◌≡◌, ◌≢◌, refl, ◌∙◌, true, false, none, some, [], ◌++◌}
use habanero_upc.Promise.{
  Kind, promise_kind_distributed_owner, promise_kind_distributed_remote, DPromise, copying, putting,
  World, store, send, put, mark_initiator, promise_put_home, promise_put_remote,
  copy_datum_from_private_to_global_address, promise_put, promise_put_local, promise_put_switch,
  future_get, run, Steps, here, next, take_message,
}
use habanero_upc.Promise.Bytes.{Holds}
use habanero_upc.Promise.Carried.{stored, elsewhere, written, written-Holds}

-- What __promiseHandle stores.
abbrev pub made : Kind → ℕ → ℕ → ℕ → DPromise
made kind guid home count = record {
  kind = kind;
  value = none;
  global_id = guid;
  home_rank = home;
  count = count;
  put_requested_from_home = false;
  put_initiator_rank = none;
}

module _ (guid count home me : ℕ) (bytes : ℕ → ℕ) where
  -- The handle of `me` after the local put.
  abbrev mine_put : DPromise
  mine_put = record (made promise_kind_distributed_remote guid home count) { value = some bytes }

  abbrev after_put : World → World
  after_put w = send (copying guid count me home) (
      store me guid
        (record mine_put { put_requested_from_home = true; put_initiator_rank = some me })
        (written guid count me bytes (store me guid mine_put w)))

  promise_put-sends :
      (w : World)
      → w.guid_map me guid ≡ some (made promise_kind_distributed_remote guid home count)
      → promise_put me guid bytes w ≡ some (after_put w)
  unfolding promise_put promise_put_local promise_put_switch promise_put_remote put mark_initiator
      copy_datum_from_private_to_global_address
  promise_put-sends w found = rw (found, stored me guid mine_put w) refl

  promise_put_home-stores :
      (w : World)
      → w.guid_map home guid ≡ some (made promise_kind_distributed_owner guid home count)
      → promise_put_home home guid me w
        ≡ some (
            store home guid
              (record (made promise_kind_distributed_owner guid home count) {
                value = some (λ k. w.datum guid (home * count + k));
                put_initiator_rank = some me;
              })
              w)
  unfolding promise_put_home put mark_initiator
  promise_put_home-stores w found = rw found refl

  -- After the copy.
  abbrev after_copy : World → World
  after_copy w =
      send (putting guid me home) (written guid count home (λ k. w.datum guid (me * count + k)) w)

  copy-runs : (w : World) → run (copying guid count me home) w ≡ some (after_copy w)
  unfolding run
  copy-runs w = refl

  putting-runs : (w : World) → run (putting guid me home) w ≡ promise_put_home home guid me w
  unfolding run
  putting-runs w = refl

  -- What is copied to the home.
  arrived :
      (w : World)
      → Holds count bytes
          ((after_copy (record (after_put w) { sent = w.sent ++ [] })).datum guid)
          home
  arrived w =
      let u = written guid count me bytes (store me guid mine_put w) in
      let there =
        written-Holds (λ q. ⊥) guid count bytes guid count me bytes (store me guid mine_put w)
          (refl, (λ k l. refl)) refl in
      written-Holds (λ q. ⊥) guid count bytes guid count home (λ k. u.datum guid (me * count + k))
        (record u { sent = w.sent ++ [] }) (refl, there) refl

  -- A put of `bytes` at a place that is not the home succeeds on handles as __promiseHandle makes them,
  -- and the two messages that follow it bring a value to the home; its bytes are those that were put.
  pub promise_put_round_trip :
      (ranks : ℕ) (w : World)
      → me ≢ home
      → w.guid_map me guid ≡ some (made promise_kind_distributed_remote guid home count)
      → w.guid_map home guid ≡ some (made promise_kind_distributed_owner guid home count)
      → (u : World) × (t : World) × (p : DPromise) × (v : ℕ → ℕ) × (promise_put me guid bytes w
          ≡ some u)
        × Steps ranks guid u t
        × (t.guid_map home guid ≡ some p)
        × (future_get p ≡ some v)
        × ((k : ℕ) → k < count → v k ≡ bytes k)
  unfolding future_get
  promise_put_round_trip ranks w away mine homes =
      let u = after_put w in
      let u0 : World = record u { sent = w.sent ++ [] } in
      let t1 = after_copy u0 in
      let t1r : World = record t1 { sent = (w.sent ++ []) ++ [] } in
      let p : DPromise = record (made promise_kind_distributed_owner guid home count) {
        value = some (λ k. t1r.datum guid (home * count + k));
        put_initiator_rank = some me;
      } in
      let t = store home guid p t1r in
      let e = promise_put-sends w mine in
      let steps : Steps ranks guid u t =
        next
          (next here (take_message w.sent [] (copying guid count me home) t1 refl (copy-runs u0)))
          (take_message (w.sent ++ []) [] (putting guid me home) t refl (
            putting-runs t1r
            ∙ promise_put_home-stores t1r (
                elsewhere me home guid _ (store me guid mine_put w) away
                ∙ elsewhere me home guid mine_put w away
                ∙ homes))) in
      (
        u,
        t,
        p,
        (λ k. t1r.datum guid (home * count + k)),
        e,
        steps,
        stored home guid p t1r,
        refl,
        arrived w,
      )
