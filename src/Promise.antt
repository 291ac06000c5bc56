-- ===== src/Promise.antt =====
-- src/hcupc_spmd-distributed-promise.cpp: distributed promises, many of them at many places. A promise
-- is known by its guid. A byte is a number, and a pointer to bytes is a function of the offset.
pub mod Bytes
pub mod Carried
pub mod Messages
pub mod Start
pub mod Delivered
pub mod RoundTrip
pub mod Stale
mod Tests
use habanero_upc.Prelude.{
  ℕ, ◌+◌, ◌-◌, ◌*◌, ◌<◌, ◌≡◌, ◌≢◌, Bool, true, false, ◌&&◌, ◌||◌, not, Option, none, some, List, [],
  ◌∷◌, ◌++◌, ltb, leb, ◌==◌, ◌>>=◌, if◌then◌else◌, update,
}

pub data Kind : Type 0 where
  promise_kind_shared promise_kind_distributed_owner promise_kind_distributed_remote : Kind
  -- any other number
  unknown_kind : Kind

-- dpromise_t, with the promise itself: what has been put is `value`. `put_initiator_rank` is `none`
-- for -1.
pub record DPromise : Type 0 where
  pub kind : Kind
  pub value : Option (ℕ → ℕ)
  pub global_id : ℕ
  pub home_rank : ℕ
  pub count : ℕ
  pub put_requested_from_home : Bool
  pub put_initiator_rank : Option ℕ

-- What is on its way: an async copy from `source` to `dest` with the async that follows it, a call of
-- PROMISE_PUT_home at `dest`, a call of PROMISE_PUT_callback at the home, and the task at the home
-- that waits there for the promise.
pub data Message : Type 0 where
  copying : (guid count source dest : ℕ) → Message
  putting : (guid source dest : ℕ) → Message
  calling_back : (guid home dest : ℕ) → Message
  awaiting : (guid home dest : ℕ) → Message

-- distributed_promise_guid_map of each place, the shared arrays of bytes, by guid, and the messages
-- in the order in which they were sent.
pub record World : Type 0 where
  pub guid_map : ℕ → ℕ → Option DPromise
  pub datum : ℕ → ℕ → ℕ
  pub sent : List Message

abbrev pub store : ℕ → ℕ → DPromise → World → World
store me guid p w = record w {
  guid_map = update w.guid_map me (update (w.guid_map me) guid (some p));
}

abbrev pub send : Message → World → World
send m w = record w { sent = w.sent ++ m ∷ [] }

-- memcpy of `count` bytes to `start`.
unfoldable pub memcpy : ℕ → ℕ → (ℕ → ℕ) → (ℕ → ℕ) → ℕ → ℕ
memcpy start count bytes array k =
    if leb start k && ltb k (start + count) then bytes (k - start) else array k

abbrev pub is_some : Option (ℕ → ℕ) → Bool
is_some (some _) = true
is_some none = false

abbrev pub is_rank : ℕ → Option ℕ → Bool
is_rank i none = false
is_rank i (some j) = i == j

-- Below, `none` is a failed assertion or a pointer to nothing.
module _ (ranks : ℕ) where
  -- The part of __promiseHandle that place `me` runs. The map keeps an older entry of the same guid.
  unfoldable pub promise_handle : ℕ → ℕ → ℕ → ℕ → World → Option World
  promise_handle me gid hid size w =
      if ltb 0 size && ltb hid ranks
      then elim (w.guid_map me gid) [
        | some p ↦ some w
        | none ↦ some (
            store me gid
              (record {
                kind =
                    if hid == me
                    then promise_kind_distributed_owner
                    else promise_kind_distributed_remote;
                value = none;
                global_id = gid;
                home_rank = hid;
                count = size;
                put_requested_from_home = false;
                put_initiator_rank = none;
              })
              w)
      ]
      else none

-- promise->put of the library: as the comment in PROMISE_PUT says, it refuses a second put.
unfoldable pub put : (ℕ → ℕ) → DPromise → Option DPromise
put bytes p = elim p.value [ none ↦ some (record p { value = some bytes }) | some _ ↦ none ]

-- The assertion that no place has put, and the mark of the one that does.
unfoldable pub mark_initiator : ℕ → DPromise → Option DPromise
mark_initiator source p = elim p.put_initiator_rank [
  | none ↦ some (record p { put_initiator_rank = some source })
  | some _ ↦ none
]

unfoldable pub promise_put_home : ℕ → ℕ → ℕ → World → Option World
unfolding put mark_initiator
promise_put_home me guid source w = do
  p ← w.guid_map me guid
  p1 ← mark_initiator source p
  p2 ← put (λ k. w.datum guid (me * p.count + k)) p1
  some (store me guid p2 w)

unfoldable pub promise_put_remote : ℕ → DPromise → ℕ → World → World
promise_put_remote me p dest w = send (copying p.global_id p.count me dest) w

unfoldable pub copy_datum_from_private_to_global_address :
    ℕ → ℕ → DPromise → (ℕ → ℕ) → World → Option World
unfolding mark_initiator memcpy
copy_datum_from_private_to_global_address me guid p bytes w = do
  p1 ← mark_initiator me p
  some (
      store me guid (record p1 { put_requested_from_home = true })
        (record w {
          datum = update w.datum guid (memcpy (me * p.count) p.count bytes (w.datum guid));
        }))

-- PROMISE_PUT at place `me`, first the local put, which the tasks that wait at this place see at once.
unfoldable pub promise_put_local : ℕ → ℕ → (ℕ → ℕ) → World → Option World
unfolding put
promise_put_local me guid bytes w = do
  p ← w.guid_map me guid
  p1 ← put bytes p
  some (store me guid p1 w)

-- The rest of PROMISE_PUT: the switch over the kind.
unfoldable pub promise_put_switch : ℕ → ℕ → (ℕ → ℕ) → World → Option World
unfolding copy_datum_from_private_to_global_address promise_put_remote
promise_put_switch me guid bytes w = do
  p ← w.guid_map me guid
  elim p.kind [
    | promise_kind_shared ↦ some w
    | promise_kind_distributed_owner ↦ copy_datum_from_private_to_global_address me guid p bytes w
    | promise_kind_distributed_remote ↦ do
      w1 ← copy_datum_from_private_to_global_address me guid p bytes w
      some (promise_put_remote me p p.home_rank w1)
    | unknown_kind ↦ none
  ]

-- PROMISE_PUT where nothing happens in between.
unfoldable pub promise_put : ℕ → ℕ → (ℕ → ℕ) → World → Option World
unfolding promise_put_local promise_put_switch
promise_put me guid bytes w = do
  w1 ← promise_put_local me guid bytes w
  promise_put_switch me guid bytes w1

unfoldable pub future_get : DPromise → Option (ℕ → ℕ)
future_get p = p.value

unfoldable promise_get_home : ℕ → DPromise → Option ℕ
promise_get_home me p = elim p.kind [
  | promise_kind_shared ↦ some me
  | promise_kind_distributed_owner ↦ some p.home_rank
  | promise_kind_distributed_remote ↦ some p.home_rank
  | unknown_kind ↦ none
]

-- PROMISE_PUT_callback: the task that waits for the promise at the home.
unfoldable pub promise_put_callback : ℕ → ℕ → ℕ → World → Option World
promise_put_callback home dest guid w = do
  p ← w.guid_map home guid
  some (send (awaiting guid home dest) w)

-- The body of that task; until the promise is there it goes on waiting.
unfoldable pub put_back : ℕ → ℕ → ℕ → World → Option World
unfolding promise_put_remote
put_back home dest guid w = do
  p ← w.guid_map home guid
  elim p.value [
    | none ↦ some (send (awaiting guid home dest) w)
    | some _ ↦
        some (if is_rank dest p.put_initiator_rank then w else promise_put_remote home p dest w)
  ]

-- One turn of the loop of the callback registration.
unfoldable pub register_one : ℕ → ℕ → World → Option World
unfolding future_get
register_one me guid w = do
  p ← w.guid_map me guid
  elim p.kind [
    | promise_kind_shared ↦ some w
    | promise_kind_distributed_owner ↦ some w
    | promise_kind_distributed_remote ↦ some (
        if is_some (future_get p) || p.put_requested_from_home
        then w
        else send (calling_back p.global_id p.home_rank me)
            (store me guid (record p { put_requested_from_home = true }) w))
    | unknown_kind ↦ none
  ]

unfoldable pub register_callback : ℕ → List ℕ → World → Option World
unfolding register_one
register_callback me [] w = some w
register_callback me (guid ∷ guids) w = do
  w1 ← register_one me guid w
  register_callback me guids w1

-- One message is taken.
unfoldable pub run : Message → World → Option World
unfolding memcpy promise_put_home promise_put_callback put_back
run (copying guid count source dest) w = some (
    send (putting guid source dest) (record w {
      datum =
          update w.datum guid
            (memcpy (dest * count) count (λ k. w.datum guid (source * count + k)) (w.datum guid));
    }))
run (putting guid source dest) w = promise_put_home dest guid source w
run (calling_back guid home dest) w = promise_put_callback home dest guid w
run (awaiting guid home dest) w = put_back home dest guid w

-- What the places do, except a put on promise `guid`. Any message can be the next.
pub data Step (ranks guid : ℕ) (w : World) : World → Type 0 where
  take_message :
      (before after : List Message) (m : Message) (t : World)
      → w.sent ≡ before ++ m ∷ after
      → run m (record w { sent = before ++ after }) ≡ some t
      → Step ranks guid w t
  register :
      (me : ℕ) (guids : List ℕ) (t : World)
      → register_callback me guids w ≡ some t
      → Step ranks guid w t
  put_other :
      (me other : ℕ) (bytes : ℕ → ℕ) (t : World)
      → other ≢ guid
      → promise_put_local me other bytes w ≡ some t
      → Step ranks guid w t
  switch_other :
      (me other : ℕ) (bytes : ℕ → ℕ) (t : World)
      → other ≢ guid
      → promise_put_switch me other bytes w ≡ some t
      → Step ranks guid w t
  new_handle :
      (me other hid size : ℕ) (t : World)
      → other ≢ guid
      → promise_handle ranks me other hid size w ≡ some t
      → Step ranks guid w t

pub data Steps (ranks guid : ℕ) (w : World) : World → Type 0 where
  here : Steps ranks guid w w
  next : {t u : World} → Steps ranks guid w t → Step ranks guid t u → Steps ranks guid w u
