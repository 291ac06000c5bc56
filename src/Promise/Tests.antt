-- ===== src/Promise/Tests.antt =====
-- Promise 5 of two bytes at two places, with its home at place 0; place 1 puts.
use habanero_upc.Prelude.{
  ℕ, true, ◌+◌, ◌*◌, ◌<◌, ◌∷◌, update, ◌≡◌, refl, Option, none, some, [], arith, ◌==◌,
  if◌then◌else◌, ◌>>=◌, ℕ_discrete,
}
use habanero_upc.Promise.{
  promise_kind_distributed_owner, promise_kind_distributed_remote, DPromise, World, promise_put,
  promise_handle, future_get, Steps, here, next, take_message, copying, putting, awaiting, store,
  send, memcpy, run, promise_put_home, put, mark_initiator, promise_put_local, promise_put_switch,
  promise_put_remote, copy_datum_from_private_to_global_address,
}
use habanero_upc.Promise.Delivered.{Since, after_switch, promise_put_delivers}
use habanero_upc.Promise.Stale.{home_put_stale}
use habanero_upc.Promise.Start.{Unput}
use habanero_upc.Promise.RoundTrip.{made, promise_put_round_trip}

abbrev handles : ℕ → ℕ → Option DPromise
handles q g =
    if g == 5
    then some (
        if q == 0
        then made promise_kind_distributed_owner 5 0 2
        else made promise_kind_distributed_remote 5 0 2)
    else none

abbrev two_places : World
two_places = record { guid_map = handles; datum = λ g k. 99; sent = [] }

handle_run :
    (promise_handle 2 0 5 0 2 (record { guid_map = λ q g. none; datum = λ g k. 99; sent = [] })
      >>= λ w. some (w.guid_map 0 5))
    ≡ some (handles 0 5)
unfolding promise_handle ℕ_discrete
handle_run = refl

-- Place 1 has asked for promise 5 before.
abbrev asked_before : World
asked_before = record two_places { sent = awaiting 5 0 1 ∷ [] }

asked_before-Unput : Unput 5 2 0 asked_before
asked_before-Unput = record {
  ids = λ q g p e. ground (arith, e);
  sizes = λ q p e. ground (arith, e);
  values = λ q p e. ground (arith, e);
  kinds = λ q p e h. ground (arith, e, h);
  homes = λ q p e. ground (arith, e);
  quiet = ((λ _. refl), tt);
}

abbrev letters : ℕ → ℕ
letters k = 65 + k

promise_put_round_trip_example :
    (u : World) × (t : World) × (p : DPromise) × (v : ℕ → ℕ) × (promise_put 1 5 letters two_places
      ≡ some u)
    × Steps 2 5 u t
    × (t.guid_map 0 5 ≡ some p)
    × (future_get p ≡ some v)
    × ((k : ℕ) → k < 2 → v k ≡ letters k)
promise_put_round_trip_example =
    promise_put_round_trip 5 2 0 1 letters 2 two_places (omega arith) refl refl

-- After the local put at place 1.
abbrev put_locally : World
put_locally =
    store 1 5 (record (made promise_kind_distributed_remote 5 0 2) { value = some letters })
      asked_before

-- After the rest of it.
abbrev put_wholly : World
put_wholly = send (copying 5 2 1 0) (
    store 1 5
      (record (made promise_kind_distributed_remote 5 0 2) {
        value = some letters;
        put_requested_from_home = true;
        put_initiator_rank = some 1;
      })
      (record put_locally {
        datum = update put_locally.datum 5 (memcpy (1 * 2) 2 letters (put_locally.datum 5));
      }))

-- The copy goes first, then the put at the home.
abbrev copied : World
copied = send (putting 5 1 0) (record put_wholly {
  sent = awaiting 5 0 1 ∷ [];
  datum =
      update put_wholly.datum 5
        (memcpy (0 * 2) 2 (λ k. put_wholly.datum 5 (1 * 2 + k)) (put_wholly.datum 5));
})

abbrev home_value : ℕ → ℕ
home_value k = copied.datum 5 (0 * 2 + k)

abbrev arrived : DPromise
arrived = record (made promise_kind_distributed_owner 5 0 2) {
  value = some home_value;
  put_initiator_rank = some 1;
}

abbrev put_at_home : World
put_at_home = store 0 5 arrived (record copied { sent = awaiting 5 0 1 ∷ [] })

whole_put : Since 2 5 1 letters put_locally put_at_home
unfolding run promise_put_home put mark_initiator promise_put_switch promise_put_remote
    copy_datum_from_private_to_global_address ℕ_discrete
whole_put = after_switch put_locally put_wholly here refl (
    next (next here (take_message (awaiting 5 0 1 ∷ []) [] (copying 5 2 1 0) copied refl refl))
      (take_message (awaiting 5 0 1 ∷ []) [] (putting 5 1 0) put_at_home refl refl))

promise_put_delivers_example : home_value 1 ≡ 66
unfolding promise_put_local put ℕ_discrete future_get
promise_put_delivers_example =
    promise_put_delivers 5 2 0 1 letters 2 asked_before put_locally put_at_home (omega arith)
      asked_before-Unput refl whole_put 0 arrived home_value refl refl 1 (omega arith)

home_put_stale_example :
    (u : World) × (v : World) × (t : World) × (p : DPromise) × (x : ℕ → ℕ) × Steps 2 5 two_places u
    × (promise_put_local 0 5 letters u ≡ some v)
    × Steps 2 5 v t
    × (t.guid_map 1 5 ≡ some p)
    × (future_get p ≡ some x)
    × ((k : ℕ) → k < 2 → x k ≡ 99)
home_put_stale_example = home_put_stale 5 2 0 1 letters 2 two_places (omega arith) refl refl refl
