-- ===== src/Promise/Messages.antt =====
-- src/hcupc_spmd-distributed-promise.cpp: the bytes that are put on a promise are the bytes that every
-- place gets: the messages and the registrations.
use habanero_upc.Prelude.{
  some-injective, ℕ, ◌+◌, ◌*◌, ◌<◌, ◌≡◌, refl, sym, ap, ◌∙◌, true, none, some, List, [], ◌∷◌, arith,
  ◌||◌, >>=-eq-some, if◌then◌else◌, inl, inr, Option-cases, Bool-cases,
}
use habanero_upc.Promise.{
  Kind, promise_kind_shared, promise_kind_distributed_owner, promise_kind_distributed_remote,
  unknown_kind, DPromise, Message, copying, putting, calling_back, awaiting, World, store, send,
  put, mark_initiator, promise_put_home, promise_put_remote,
  copy_datum_from_private_to_global_address, promise_put_callback, put_back, register_one,
  register_callback, future_get, is_some, is_rank, run,
}
use habanero_upc.Promise.Carried.{
  Entry, Good, Carried, send-Carried, store-Carried, written, written-Holds, written-Carried,
}

pub put-some : (b : ℕ → ℕ) (p q : DPromise) → put b p ≡ some q → q ≡ record p { value = some b }
unfolding put
put-some b p q e = elim (Option-cases p.value) [
  | inl h ↦ ground (arith, h, e)
  | inr (v, h) ↦ ground (arith, h, e)
]

mark_initiator-some :
    (s : ℕ) (p q : DPromise)
    → mark_initiator s p ≡ some q
    → q ≡ record p { put_initiator_rank = some s }
unfolding mark_initiator
mark_initiator-some s p q e = elim (Option-cases p.put_initiator_rank) [
  | inl h ↦ ground (arith, h, e)
  | inr (v, h) ↦ ground (arith, h, e)
]

promise_put_home-some :
    (me g s : ℕ) (w t : World)
    → promise_put_home me g s w ≡ some t
    → (p : DPromise) × (w.guid_map me g ≡ some p)
      × (t
          ≡ store me g
              (record p {
                value = some (λ k. w.datum g (me * p.count + k));
                put_initiator_rank = some s;
              })
              w)
unfolding promise_put_home
promise_put_home-some me g s w t e =
    let (p, found, e1) = >>=-eq-some (w.guid_map me g) _ e in
    let (p1, marked, e2) = >>=-eq-some (mark_initiator s p) _ e1 in
    let (p2, done, e3) = >>=-eq-some (put (λ k. w.datum g (me * p.count + k)) p1) _ e2 in
    (
      p,
      found,
      sym (some-injective e3)
          ∙ ap (λ x. store me g x w)
              (put-some (λ k. w.datum g (me * p.count + k)) p1 p2 done
                ∙ ap
                    (λ (x : DPromise). record x {
                      value = some (λ k. w.datum g (me * p.count + k));
                    })
                    (mark_initiator-some s p p1 marked)),
    )

pub copy_datum-some :
    (me g : ℕ) (p : DPromise) (b : ℕ → ℕ) (w t : World)
    → copy_datum_from_private_to_global_address me g p b w ≡ some t
    → t
      ≡ store me g
          (record p { put_initiator_rank = some me; put_requested_from_home = true })
          (written g p.count me b w)
unfolding copy_datum_from_private_to_global_address
copy_datum-some me g p b w t e =
    let (p1, marked, e1) = >>=-eq-some (mark_initiator me p) _ e in
    sym (some-injective e1)
    ∙ ap
        (λ (x : DPromise).
          store me g (record x { put_requested_from_home = true }) (written g p.count me b w))
        (mark_initiator-some me p p1 marked)

module _ (Late : ℕ → Type 0) (guid count : ℕ) (bytes : ℕ → ℕ) where
  moved :
      (g source dest : ℕ) (w : World) (p : DPromise)
      → Carried Late guid count bytes w
      → Good Late guid count bytes (w.datum guid) (putting g source dest)
      → w.guid_map dest g ≡ some p
      → g ≡ guid
      → Entry Late guid count bytes (w.datum guid) dest (record p {
        value = some (λ k. w.datum g (dest * p.count + k));
        put_initiator_rank = some source;
      })
  moved g source dest w p c good found same =
      let entry = c.entries dest p (rw (← same) found) in
      record {
        size = entry.size;
        distributed = entry.distributed;
        home = entry.home;
        section = λ d v h. good same;
        content = λ v h k l. rw (← some-injective h, same, entry.size) (good same k l);
      }

  putting-Carried :
      (g source dest : ℕ) (w t : World)
      → Carried Late guid count bytes w
      → Good Late guid count bytes (w.datum guid) (putting g source dest)
      → promise_put_home dest g source w ≡ some t
      → Carried Late guid count bytes t
  putting-Carried g source dest w t c good e =
      let (p, found, is_t) = promise_put_home-some dest g source w t e in
      rw is_t (
        store-Carried Late guid count bytes dest g _ w c (c.ids dest g p found)
          (λ same. moved g source dest w p c good found same))

  copying-Carried :
      (g n source dest : ℕ) (w : World)
      → Carried Late guid count bytes w
      → Good Late guid count bytes (w.datum guid) (copying g n source dest)
      → Carried Late guid count bytes
          (send (putting g source dest) (written g n dest (λ k. w.datum g (source * n + k)) w))
  copying-Carried g n source dest w c good =
      let copied = λ (k : ℕ). w.datum g (source * n + k) in
      let same : g ≡ guid → (n ≡ count) × ((k : ℕ) → k < count → copied k ≡ bytes k) =
        (λ h. ((good h).0, (λ k l. rw (h, (good h).0) ((good h).1 k l)))) in
      send-Carried Late guid count bytes (putting g source dest) (written g n dest copied w)
        (written-Carried Late guid count bytes g n dest copied w c same)
        (λ h. written-Holds Late guid count bytes g n dest copied w (same h) h)

  back-Carried :
      (g home dest : ℕ) (w : World) (p : DPromise) (v : ℕ → ℕ)
      → Carried Late guid count bytes w
      → w.guid_map home g ≡ some p
      → p.value ≡ some v
      → (g ≡ guid → ¬ Late home)
      → Carried Late guid count bytes (promise_put_remote home p dest w)
  unfolding promise_put_remote
  back-Carried g home dest w p v c found ready filled =
      send-Carried Late guid count bytes (copying p.global_id p.count home dest) w c (λ same.
        let entry = c.entries home p (rw (sym same ∙ c.ids home g p found) found) in
        (entry.size, entry.section (filled (sym (c.ids home g p found) ∙ same)) v ready))

  put_back-Carried :
      (g home dest : ℕ) (w t : World)
      → Carried Late guid count bytes w
      → (g ≡ guid → ¬ Late home)
      → put_back home dest g w ≡ some t
      → Carried Late guid count bytes t
  unfolding put_back
  put_back-Carried g home dest w t c filled e =
      let (p, found, e1) = >>=-eq-some (w.guid_map home g) _ e in
      elim (Option-cases p.value) [
        | inl waits ↦
            let is_t : send (awaiting g home dest) w ≡ t = some-injective (rw waits at e1) in
            rw (← is_t) (send-Carried Late guid count bytes (awaiting g home dest) w c filled)
        | inr (v, ready) ↦
            let is_t : (if is_rank dest p.put_initiator_rank
                  then w
                  else promise_put_remote home p dest w)
                ≡ t =
              some-injective (rw ready at e1) in
            elim (Bool-cases (is_rank dest p.put_initiator_rank)) [
              | inl source ↦ rw (← is_t, source) c
              | inr other ↦ rw (← is_t, other) (back-Carried g home dest w p v c found ready filled)
            ]
      ]

  pub run-Carried :
      (m : Message) (w t : World)
      → Carried Late guid count bytes w
      → Good Late guid count bytes (w.datum guid) m
      → run m w ≡ some t
      → Carried Late guid count bytes t
  unfolding run promise_put_callback
  run-Carried (copying g n source dest) w t c good e =
      rw (← some-injective e) (copying-Carried g n source dest w c good)
  run-Carried (putting g source dest) w t c good e = putting-Carried g source dest w t c good e
  run-Carried (calling_back g home dest) w t c good e =
      let (p, found, e1) = >>=-eq-some (w.guid_map home g) _ e in
      rw (← some-injective e1) (send-Carried Late guid count bytes (awaiting g home dest) w c good)
  run-Carried (awaiting g home dest) w t c good e = put_back-Carried g home dest w t c good e

  requested-Carried :
      (g me : ℕ) (w : World) (p : DPromise)
      → Carried Late guid count bytes w
      → w.guid_map me g ≡ some p
      → Carried Late guid count bytes (
          send
            (calling_back p.global_id p.home_rank me)
            (store me g (record p { put_requested_from_home = true }) w))
  requested-Carried g me w p c found =
      send-Carried Late guid count bytes (calling_back p.global_id p.home_rank me)
        (store me g (record p { put_requested_from_home = true }) w)
        (store-Carried Late guid count bytes me g (record p { put_requested_from_home = true }) w c
          (c.ids me g p found)
          (λ same.
            let entry = c.entries me p (rw (← same) found) in
            record {
              size = entry.size;
              distributed = entry.distributed;
              home = entry.home;
              section = entry.section;
              content = entry.content;
            }))
        (λ same. (c.entries me p (rw (sym same ∙ c.ids me g p found) found)).home)

  -- The turn of the registration for a promise that the place has found.
  register_found :
      (me g : ℕ) (w t : World) (p : DPromise) (k : Kind)
      → p.kind ≡ k
      → Carried Late guid count bytes w
      → w.guid_map me g ≡ some p
      → register_one me g w ≡ some t
      → Carried Late guid count bytes t
  unfolding register_one
  register_found me g w t p promise_kind_shared is_k c found e =
      let same : w ≡ t = some-injective (rw (found, is_k) at e) in rw (← same) c
  register_found me g w t p promise_kind_distributed_owner is_k c found e =
      let same : w ≡ t = some-injective (rw (found, is_k) at e) in rw (← same) c
  register_found me g w t p unknown_kind is_k c found e =
      let failed : none ≡ some t = (rw (found, is_k) at e) in absurd (cc)
  register_found me g w t p promise_kind_distributed_remote is_k c found e =
      let e1 = (rw (found, is_k) at e) in
      elim (Bool-cases (is_some (future_get p) || p.put_requested_from_home)) [
        | inl skip ↦ let same : w ≡ t = some-injective (rw skip at e1) in rw (← same) c
        | inr ask ↦ rw (← some-injective (rw ask at e1)) (requested-Carried g me w p c found)
      ]

  register_one-Carried :
      (me g : ℕ) (w t : World)
      → Carried Late guid count bytes w
      → register_one me g w ≡ some t
      → Carried Late guid count bytes t
  unfolding register_one
  register_one-Carried me g w t c e =
      let (p, found, _) = >>=-eq-some (w.guid_map me g) _ e in
      register_found me g w t p p.kind refl c found e

  pub register_callback-Carried :
      (me : ℕ) (gs : List ℕ) (w t : World)
      → Carried Late guid count bytes w
      → register_callback me gs w ≡ some t
      → Carried Late guid count bytes t
  unfolding register_callback
  register_callback-Carried me [] w t c e = rw (← some-injective e) c
  register_callback-Carried me (g ∷ gs) w t c e =
      let (w1, first, e1) = >>=-eq-some (register_one me g w) _ e in
      register_callback-Carried me gs w1 t (register_one-Carried me g w w1 c first) e1
