-- ===== src/Promise/Delivered.antt =====
-- src/hcupc_spmd-distributed-promise.cpp: the bytes that are put on a promise are the bytes that every
-- place gets.
use habanero_upc.Prelude.{
  some-injective, ℕ, ◌<◌, ◌≡◌, ◌≢◌, refl, sym, ap, ◌∙◌, true, none, some, ◌∷◌, ◌++◌, ltb, ◌&&◌,
  >>=-eq-some, inl, inr, Option-cases, Bool-cases,
}
use habanero_upc.Promise.{
  Kind, promise_kind_shared, promise_kind_distributed_owner, promise_kind_distributed_remote,
  unknown_kind, DPromise, copying, World, put, promise_put_remote,
  copy_datum_from_private_to_global_address, promise_put_local, promise_put_switch, promise_handle,
  future_get, Step, Steps, here, next, take_message, register, put_other, switch_other, new_handle,
}
use habanero_upc.Promise.Carried.{
  AllGood-append, AllGood-split, Carried, send-Carried, store-Carried, written, written-Carried,
}
use habanero_upc.Promise.Start.{Unput, Lagging, local-Carried, switch-Carried}
use habanero_upc.Promise.Messages.{
  put-some, copy_datum-some, run-Carried, register_callback-Carried,
}

module _ (Late : ℕ → Type 0) (guid count : ℕ) (bytes : ℕ → ℕ) where
  copied-Carried :
      (me g : ℕ) (p : DPromise) (b : ℕ → ℕ) (w t : World)
      → g ≢ guid
      → p.global_id ≡ g
      → Carried Late guid count bytes w
      → copy_datum_from_private_to_global_address me g p b w ≡ some t
      → Carried Late guid count bytes t
  copied-Carried me g p b w t other id c e = rw (copy_datum-some me g p b w t e) (
      store-Carried Late guid count bytes me g
        (record p { put_initiator_rank = some me; put_requested_from_home = true })
        (written g p.count me b w)
        (written-Carried Late guid count bytes g p.count me b w c (λ h. absurd (other h))) id
        (λ h. absurd (other h)))

  local_other-Carried :
      (me g : ℕ) (b : ℕ → ℕ) (w t : World)
      → g ≢ guid
      → Carried Late guid count bytes w
      → promise_put_local me g b w ≡ some t
      → Carried Late guid count bytes t
  unfolding promise_put_local
  local_other-Carried me g b w t other c e =
      let (p, found, e1) = >>=-eq-some (w.guid_map me g) _ e in
      let (p1, done, e2) = >>=-eq-some (put b p) _ e1 in
      rw (← some-injective e2) (
        store-Carried Late guid count bytes me g p1 w c
          (ap (λ x. x.global_id) (put-some b p p1 done) ∙ c.ids me g p found)
          (λ same. absurd (other same)))

  switch_found :
      (me g : ℕ) (b : ℕ → ℕ) (w t : World) (p : DPromise) (k : Kind)
      → p.kind ≡ k
      → g ≢ guid
      → w.guid_map me g ≡ some p
      → Carried Late guid count bytes w
      → promise_put_switch me g b w ≡ some t
      → Carried Late guid count bytes t
  unfolding promise_put_switch promise_put_remote
  switch_found me g b w t p promise_kind_shared is_k other found c e =
      let same : w ≡ t = some-injective (rw (found, is_k) at e) in rw (← same) c
  switch_found me g b w t p unknown_kind is_k other found c e =
      let failed : none ≡ some t = (rw (found, is_k) at e) in absurd cc
  switch_found me g b w t p promise_kind_distributed_owner is_k other found c e =
      copied-Carried me g p b w t other (c.ids me g p found) c (rw (found, is_k) at e)
  switch_found me g b w t p promise_kind_distributed_remote is_k other found c e =
      let id = c.ids me g p found in
      let (w1, copied, e1) =
        >>=-eq-some (copy_datum_from_private_to_global_address me g p b w) _
          (rw (found, is_k) at e) in
      rw (← some-injective e1) (
        send-Carried Late guid count bytes (copying p.global_id p.count me p.home_rank) w1
          (copied-Carried me g p b w w1 other id c copied) (λ same. absurd (other (sym id ∙ same))))

  switch_other-Carried :
      (me g : ℕ) (b : ℕ → ℕ) (w t : World)
      → g ≢ guid
      → Carried Late guid count bytes w
      → promise_put_switch me g b w ≡ some t
      → Carried Late guid count bytes t
  unfolding promise_put_switch
  switch_other-Carried me g b w t other c e =
      let (p, found, _) = >>=-eq-some (w.guid_map me g) _ e in
      switch_found me g b w t p p.kind refl other found c e

  -- What __promiseHandle makes.
  fresh-Carried :
      (ranks me g hid size : ℕ) (w t : World)
      → g ≢ guid
      → Carried Late guid count bytes w
      → promise_handle ranks me g hid size w ≡ some t
      → Carried Late guid count bytes t
  unfolding promise_handle
  fresh-Carried ranks me g hid size w t other c e =
      elim (Bool-cases (ltb 0 size && ltb hid ranks)) [
        | inr bad ↦ let failed : none ≡ some t = (rw bad at e) in absurd cc
        | inl good ↦ elim (Option-cases (w.guid_map me g)) [
          | inr (p, old) ↦ let same : w ≡ t = some-injective (rw (good, old) at e) in rw (← same) c
          | inl new ↦
              rw (← some-injective (rw (good, new) at e))
                (store-Carried Late guid count bytes me g _ w c refl (λ same. absurd (other same)))
        ]
      ]

  step-Carried :
      (ranks : ℕ) (w t : World)
      → Carried Late guid count bytes w
      → Step ranks guid w t
      → Carried Late guid count bytes t
  step-Carried ranks w t c (take_message before after m u is_sent e) =
      let all =
        AllGood-split Late guid count bytes (w.datum guid) before (m ∷ after)
          (rw is_sent at c.messages) in
      run-Carried Late guid count bytes m (record w { sent = before ++ after }) t
        (record {
          ids = c.ids;
          entries = c.entries;
          messages = AllGood-append Late guid count bytes (w.datum guid) before after all.0 all.1.1;
        })
        all.1.0 e
  step-Carried ranks w t c (register me guids u e) =
      register_callback-Carried Late guid count bytes me guids w t c e
  step-Carried ranks w t c (put_other me g b u other e) = local_other-Carried me g b w t other c e
  step-Carried ranks w t c (switch_other me g b u other e) =
      switch_other-Carried me g b w t other c e
  step-Carried ranks w t c (new_handle me g hid size u other e) =
      fresh-Carried ranks me g hid size w t other c e

  steps-Carried :
      (ranks : ℕ) (w t : World)
      → Carried Late guid count bytes w
      → Steps ranks guid w t
      → Carried Late guid count bytes t
  steps-Carried ranks w t c here = c
  steps-Carried ranks w t c (next {t = m} before last) =
      step-Carried ranks m t (steps-Carried ranks w m c before) last

-- What has happened since the local put of PROMISE_PUT at `me`, with the rest of it or before it.
pub data Since (ranks guid me : ℕ) (bytes : ℕ → ℕ) (w t : World) : Type 0 where
  before_switch : Steps ranks guid w t → Since ranks guid me bytes w t
  after_switch :
      (u v : World)
      → Steps ranks guid w u
      → promise_put_switch me guid bytes u ≡ some v
      → Steps ranks guid v t
      → Since ranks guid me bytes w t

module _ (guid count home me : ℕ) (bytes : ℕ → ℕ) where
  Since-content :
      (ranks : ℕ) (w t : World)
      → Carried (Lagging guid count home me bytes) guid count bytes w
      → Since ranks guid me bytes w t
      → (q : ℕ) (p : DPromise) (v : ℕ → ℕ) → t.guid_map q guid ≡ some p
      → p.value ≡ some v
      → (k : ℕ) → k < count
      → v k ≡ bytes k
  Since-content ranks w t c (before_switch steps) q p v found value =
      ((steps-Carried _ guid count bytes ranks w t c steps).entries q p found).content v value
  Since-content ranks w t c (after_switch u v steps e later) q p x found value =
      let c1 = steps-Carried _ guid count bytes ranks w u c steps in
      let c2 = switch-Carried guid count home me bytes u v c1 e in
      ((steps-Carried _ guid count bytes ranks v t c2 later).entries q p found).content x value

  -- PROMISE_PUT of `bytes` at a place that is not the home, on promise `guid`, whose handles have been
  -- made with `count` bytes and this home, on which nothing has been put, and for which places may have
  -- asked before. From the local put on, whatever the places do with it and with other promises before
  -- and after the rest of PROMISE_PUT, in whichever order messages are taken, as long as nobody else
  -- puts on this one, each place that has a value of it has those bytes.
  pub promise_put_delivers :
      (ranks : ℕ) (w u t : World)
      → me ≢ home
      → Unput guid count home w
      → promise_put_local me guid bytes w ≡ some u
      → Since ranks guid me bytes u t
      → (q : ℕ) (p : DPromise) (v : ℕ → ℕ) → t.guid_map q guid ≡ some p
      → future_get p ≡ some v
      → (k : ℕ) → k < count
      → v k ≡ bytes k
  unfolding future_get
  promise_put_delivers ranks w u t away unput e since =
      Since-content ranks u t (local-Carried guid count home me bytes w u away unput e) since
