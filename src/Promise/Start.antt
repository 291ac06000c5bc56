-- ===== src/Promise/Start.antt =====
-- src/hcupc_spmd-distributed-promise.cpp: the put on a promise that its places have made.
use habanero_upc.Prelude.{
  some-injective, ℕ, ◌<◌, ◌≡◌, ◌≢◌, refl, sym, ◌∙◌, true, none, some, List, [], ◌∷◌, >>=-eq-some,
  ℕ_discrete,
}
use habanero_upc.Promise.{
  Kind, promise_kind_shared, promise_kind_distributed_owner, promise_kind_distributed_remote,
  unknown_kind, DPromise, Message, copying, putting, calling_back, awaiting, World, put,
  promise_put_remote, copy_datum_from_private_to_global_address, promise_put_local,
  promise_put_switch,
}
use habanero_upc.Promise.Bytes.{Holds}
use habanero_upc.Promise.Carried.{
  Entry, AllGood, Carried, send-Carried, store-Carried, written, written-Holds, written-Carried,
}
use habanero_upc.Promise.Messages.{put-some, copy_datum-some}

-- No bytes of promise `guid` are on their way. Places may have asked the home for them.
abbrev Quiet : ℕ → ℕ → List Message → Type 0
Quiet guid home [] = Unit {0}
Quiet guid home (copying g n source dest ∷ ms) = (g ≢ guid) × Quiet guid home ms
Quiet guid home (putting g source dest ∷ ms) = (g ≢ guid) × Quiet guid home ms
Quiet guid home (calling_back g at dest ∷ ms) = (g ≡ guid → at ≡ home) × Quiet guid home ms
Quiet guid home (awaiting g at dest ∷ ms) = (g ≡ guid → at ≡ home) × Quiet guid home ms

-- The handles of promise `guid` have been made with `count` bytes and the home `home`, and nothing is
-- put on it yet.
pub record Unput (guid count home : ℕ) (w : World) : Type 0 where
  pub ids : (q g : ℕ) (p : DPromise) → w.guid_map q g ≡ some p → p.global_id ≡ g
  pub sizes : (q : ℕ) (p : DPromise) → w.guid_map q guid ≡ some p → p.count ≡ count
  pub homes : (q : ℕ) (p : DPromise) → w.guid_map q guid ≡ some p → p.home_rank ≡ home
  pub values : (q : ℕ) (p : DPromise) → w.guid_map q guid ≡ some p → p.value ≡ none
  pub kinds : (q : ℕ) (p : DPromise) → w.guid_map q guid ≡ some p → p.kind ≢ promise_kind_shared
  pub quiet : Quiet guid home w.sent

module _ (guid count home me : ℕ) (bytes : ℕ → ℕ) where
  -- Between the two parts of the put, the section of `me` lags behind.
  abbrev pub Lagging : ℕ → Type 0
  Lagging q = q ≡ me

  abbrev pub Nowhere : ℕ → Type 0
  Nowhere q = ⊥

  quiet-AllGood :
      (array : ℕ → ℕ) (ms : List Message)
      → me ≢ home
      → Quiet guid home ms
      → AllGood Lagging guid count bytes array ms
  quiet-AllGood array [] away q = tt
  quiet-AllGood array (copying g n source dest ∷ ms) away q =
      ((λ h. absurd (q.0 h)), quiet-AllGood array ms away q.1)
  quiet-AllGood array (putting g source dest ∷ ms) away q =
      ((λ h. absurd (q.0 h)), quiet-AllGood array ms away q.1)
  quiet-AllGood array (calling_back g at dest ∷ ms) away q =
      ((λ h late. away (sym late ∙ q.0 h)), quiet-AllGood array ms away q.1)
  quiet-AllGood array (awaiting g at dest ∷ ms) away q =
      ((λ h late. away (sym late ∙ q.0 h)), quiet-AllGood array ms away q.1)

  Unput-Carried :
      (w : World) → me ≢ home → Unput guid count home w → Carried Lagging guid count bytes w
  Unput-Carried w away u = record {
    ids = u.ids;
    entries = λ q p e. record {
      size = u.sizes q p e;
      distributed = u.kinds q p e;
      home = λ late. away (sym late ∙ u.homes q p e);
      section = λ d v h. let bad : none ≡ some v = sym (u.values q p e) ∙ h in absurd cc;
      content = λ v h. let bad : none ≡ some v = sym (u.values q p e) ∙ h in absurd cc;
    };
    messages = quiet-AllGood (w.datum guid) w.sent away u.quiet;
  }

  -- After the local put.
  pub local-Carried :
      (w t : World)
      → me ≢ home
      → Unput guid count home w
      → promise_put_local me guid bytes w ≡ some t
      → Carried Lagging guid count bytes t
  unfolding promise_put_local
  local-Carried w t away u e =
      let c = Unput-Carried w away u in
      let (p, found, e1) = >>=-eq-some (w.guid_map me guid) _ e in
      let (p1, done, e2) = >>=-eq-some (put bytes p) _ e1 in
      let is_p1 = put-some bytes p p1 done in
      let entry = c.entries me p found in
      rw (← some-injective e2, is_p1)
        (store-Carried Lagging guid count bytes me guid (record p { value = some bytes }) w c
          (c.ids me guid p found)
          (λ same. record {
            size = entry.size;
            distributed = entry.distributed;
            home = entry.home;
            section = λ d. absurd (d refl);
            content = λ v h k l. rw (← some-injective h) refl;
          }))

  -- Once the section of `me` has the bytes, no section lags behind.
  caught-Entry :
      (array : ℕ → ℕ) (q : ℕ) (p : DPromise)
      → Holds count bytes array me
      → Entry Lagging guid count bytes array q p
      → Entry Nowhere guid count bytes array q p
  caught-Entry array q p there entry = record {
    size = entry.size;
    distributed = entry.distributed;
    home = λ late. late;
    section = λ d v h. elim (ℕ_discrete q me) [
      | yes here ↦ rw here there
      | no other ↦ entry.section other v h
    ];
    content = entry.content;
  }

  caught-AllGood :
      (array : ℕ → ℕ) (ms : List Message)
      → AllGood Lagging guid count bytes array ms
      → AllGood Nowhere guid count bytes array ms
  caught-AllGood array [] a = tt
  caught-AllGood array (copying g n source dest ∷ ms) a = (a.0, caught-AllGood array ms a.1)
  caught-AllGood array (putting g source dest ∷ ms) a = (a.0, caught-AllGood array ms a.1)
  caught-AllGood array (calling_back g at dest ∷ ms) a =
      ((λ h late. late), caught-AllGood array ms a.1)
  caught-AllGood array (awaiting g at dest ∷ ms) a = ((λ h late. late), caught-AllGood array ms a.1)

  caught-Carried :
      (w : World)
      → Carried Lagging guid count bytes w
      → Holds count bytes (w.datum guid) me
      → Carried Nowhere guid count bytes w
  caught-Carried w c there = record {
    ids = c.ids;
    entries = λ q p e. caught-Entry (w.datum guid) q p there (c.entries q p e);
    messages = caught-AllGood (w.datum guid) w.sent c.messages;
  }

  copied-own :
      (p : DPromise) (w t : World)
      → Carried Lagging guid count bytes w
      → w.guid_map me guid ≡ some p
      → copy_datum_from_private_to_global_address me guid p bytes w ≡ some t
      → Carried Nowhere guid count bytes t × Holds count bytes (t.datum guid) me
  copied-own p w t c found e =
      let entry = c.entries me p found in
      let same : guid ≡ guid → (p.count ≡ count) × ((k : ℕ) → k < count → bytes k ≡ bytes k) =
        (λ h. (entry.size, (λ k l. refl))) in
      let there = written-Holds Lagging guid count bytes guid p.count me bytes w (same refl) refl in
      rw (copy_datum-some me guid p bytes w t e) (
        caught-Carried _
            (store-Carried Lagging guid count bytes me guid
              (record p { put_initiator_rank = some me; put_requested_from_home = true })
              (written guid p.count me bytes w)
              (written-Carried Lagging guid count bytes guid p.count me bytes w c same)
              (c.ids me guid p found)
              (λ h. record {
                size = entry.size;
                distributed = entry.distributed;
                home = entry.home;
                section = λ d x y. there;
                content = entry.content;
              }))
            there,
        there,
      )

  switched :
      (w t : World) (p : DPromise) (k : Kind)
      → p.kind ≡ k
      → w.guid_map me guid ≡ some p
      → Carried Lagging guid count bytes w
      → promise_put_switch me guid bytes w ≡ some t
      → Carried Nowhere guid count bytes t
  unfolding promise_put_switch promise_put_remote
  switched w t p promise_kind_shared is_k found c e =
      absurd ((c.entries me p found).distributed is_k)
  switched w t p unknown_kind is_k found c e =
      let failed : none ≡ some t = (rw (found, is_k) at e) in absurd cc
  switched w t p promise_kind_distributed_owner is_k found c e =
      (copied-own p w t c found (rw (found, is_k) at e)).0
  switched w t p promise_kind_distributed_remote is_k found c e =
      let (w1, copied, e1) =
        >>=-eq-some (copy_datum_from_private_to_global_address me guid p bytes w) _
          (rw (found, is_k) at e) in
      let (c1, there) = copied-own p w w1 c found copied in
      rw (← some-injective e1) (
        send-Carried Nowhere guid count bytes (copying p.global_id p.count me p.home_rank) w1 c1
          (λ same. ((c.entries me p found).size, there)))

  -- After the rest of the put.
  pub switch-Carried :
      (w t : World)
      → Carried Lagging guid count bytes w
      → promise_put_switch me guid bytes w ≡ some t
      → Carried Nowhere guid count bytes t
  unfolding promise_put_switch
  switch-Carried w t c e =
      let (p, found, _) = >>=-eq-some (w.guid_map me guid) _ e in
      switched w t p p.kind refl found c e
