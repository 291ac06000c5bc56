-- ===== src/Promise/Carried.antt =====
-- src/hcupc_spmd-distributed-promise.cpp: where the bytes of one promise are while they travel.
use habanero_upc.Prelude.{
  Option, ℕ, refl, ◌*◌, ◌<◌, ◌≡◌, ◌≢◌, sym, ap, ◌∙◌, some, List, [], ◌∷◌, ◌++◌, arith, update,
  ℕ_discrete, ◌⊎◌, inl, inr, update-here, update-other,
}
use habanero_upc.Promise.{
  promise_kind_shared, DPromise, Message, copying, putting, calling_back, awaiting, World, store,
  send, memcpy,
}
use habanero_upc.Promise.Bytes.{Holds, memcpy-Holds, memcpy-there}

pub stored : (q g : ℕ) (p : DPromise) (w : World) → (store q g p w).guid_map q g ≡ some p
stored q g p w =
    ap (λ (f : ℕ → Option DPromise). f g)
      (update-here w.guid_map q (update (w.guid_map q) g (some p)) q refl)
    ∙ update-here (w.guid_map q) g (some p) g refl

pub elsewhere :
    (q r g : ℕ) (p : DPromise) (w : World) → q ≢ r → (store q g p w).guid_map r g ≡ w.guid_map r g
elsewhere q r g p w h =
    ap (λ (f : ℕ → Option DPromise). f g)
      (update-other w.guid_map q (update (w.guid_map q) g (some p)) r h)

store-cases :
    (me g : ℕ) (p : DPromise) (w : World) (q g2 : ℕ) (r : DPromise)
    → (store me g p w).guid_map q g2 ≡ some r
    → ((q ≡ me) × (g2 ≡ g) × (r ≡ p)) ⊎ (w.guid_map q g2 ≡ some r)
store-cases me g p w q g2 r e = elim (ℕ_discrete me q) [
  | yes here ↦ elim (ℕ_discrete g g2) [
    | yes same ↦ inl (sym here, sym same, ground (arith, e, here, same))
    | no other ↦ inr (ground (arith, e, here, other))
  ]
  | no there ↦ inr (ground (arith, e, there))
]

abbrev pub written : ℕ → ℕ → ℕ → (ℕ → ℕ) → World → World
written g n dest copied w = record w {
  datum = update w.datum g (memcpy (dest * n) n copied (w.datum g));
}

-- `bytes` has been put on promise `guid`, of `count` bytes. A place where `Late` holds may have the value
-- before its section has the bytes.
module _ (Late : ℕ → Type 0) (guid count : ℕ) (bytes : ℕ → ℕ) where
  -- A place that has a value of the promise has the bytes, also in its section.
  pub record Entry (array : ℕ → ℕ) (me : ℕ) (p : DPromise) : Type 0 where
    pub size : p.count ≡ count
    pub distributed : p.kind ≢ promise_kind_shared
    pub home : ¬ Late p.home_rank
    pub section : ¬ Late me → (v : ℕ → ℕ) → p.value ≡ some v → Holds count bytes array me
    pub content : (v : ℕ → ℕ) → p.value ≡ some v → (k : ℕ) → k < count → v k ≡ bytes k

  -- A message of the promise comes from a section that holds the bytes, or is for the home.
  abbrev pub Good : (ℕ → ℕ) → Message → Type 0
  Good array (copying g n source dest) = g ≡ guid → (n ≡ count) × Holds count bytes array source
  Good array (putting g source dest) = g ≡ guid → Holds count bytes array dest
  Good array (calling_back g home dest) = g ≡ guid → ¬ Late home
  Good array (awaiting g home dest) = g ≡ guid → ¬ Late home

  abbrev pub AllGood : (ℕ → ℕ) → List Message → Type 0
  AllGood array [] = Unit {0}
  AllGood array (m ∷ ms) = Good array m × AllGood array ms

  pub record Carried (w : World) : Type 0 where
    pub ids : (q g : ℕ) (p : DPromise) → w.guid_map q g ≡ some p → p.global_id ≡ g
    pub entries : (q : ℕ) (p : DPromise) → w.guid_map q guid ≡ some p → Entry (w.datum guid) q p
    pub messages : AllGood (w.datum guid) w.sent

  pub AllGood-append :
      (array : ℕ → ℕ) (ms ns : List Message)
      → AllGood array ms
      → AllGood array ns
      → AllGood array (ms ++ ns)
  AllGood-append array [] ns a b = b
  AllGood-append array (m ∷ ms) ns a b = (a.0, AllGood-append array ms ns a.1 b)

  pub AllGood-split :
      (array : ℕ → ℕ) (ms ns : List Message)
      → AllGood array (ms ++ ns)
      → AllGood array ms × AllGood array ns
  AllGood-split array [] ns a = (tt, a)
  AllGood-split array (m ∷ ms) ns a = let (b, c) = AllGood-split array ms ns a.1 in ((a.0, b), c)

  -- Another array whose sections hold the bytes where those of the first do.
  abbrev Extends : (ℕ → ℕ) → (ℕ → ℕ) → Type 0
  Extends old new = (q : ℕ) → Holds count bytes old q → Holds count bytes new q

  AllGood-Extends :
      (old new : ℕ → ℕ) → Extends old new → (ms : List Message) → AllGood old ms → AllGood new ms
  AllGood-Extends old new e [] a = tt
  AllGood-Extends old new e (copying g n source dest ∷ ms) a =
      ((λ h. ((a.0 h).0, e source (a.0 h).1)), AllGood-Extends old new e ms a.1)
  AllGood-Extends old new e (putting g source dest ∷ ms) a =
      ((λ h. e dest (a.0 h)), AllGood-Extends old new e ms a.1)
  AllGood-Extends old new e (calling_back g home dest ∷ ms) a =
      (a.0, AllGood-Extends old new e ms a.1)
  AllGood-Extends old new e (awaiting g home dest ∷ ms) a = (a.0, AllGood-Extends old new e ms a.1)

  pub send-Carried :
      (m : Message) (w : World) → Carried w → Good (w.datum guid) m → Carried (send m w)
  send-Carried m w c good = record {
    ids = c.ids;
    entries = c.entries;
    messages = AllGood-append (w.datum guid) w.sent (m ∷ []) c.messages (good, tt);
  }

  pub store-Carried :
      (me g : ℕ) (p : DPromise) (w : World)
      → Carried w
      → p.global_id ≡ g
      → (g ≡ guid → Entry (w.datum guid) me p)
      → Carried (store me g p w)
  store-Carried me g p w c id entry = record {
    ids = λ q g2 r e. elim (store-cases me g p w q g2 r e) [
      | inl (_, is_g, is_p) ↦ ap (λ x. x.global_id) is_p ∙ id ∙ sym is_g
      | inr e2 ↦ c.ids q g2 r e2
    ];
    entries = λ q r e. elim (store-cases me g p w q guid r e) [
      | inl (is_me, is_g, is_p) ↦ rw (is_p, is_me) (entry (sym is_g))
      | inr e2 ↦ c.entries q r e2
    ];
    messages = c.messages;
  }

  Entry-Extends :
      (old new : ℕ → ℕ) (q : ℕ) (p : DPromise) → Extends old new → Entry old q p → Entry new q p
  Entry-Extends old new q p e entry = record {
    size = entry.size;
    distributed = entry.distributed;
    home = entry.home;
    section = λ d v h. e q (entry.section d v h);
    content = entry.content;
  }

  -- A copy into a section, of the bytes if it is for this promise.
  written-Extends :
      (g n dest : ℕ) (copied : ℕ → ℕ) (w : World)
      → (g ≡ guid → (n ≡ count) × ((k : ℕ) → k < count → copied k ≡ bytes k))
      → Extends (w.datum guid) ((written g n dest copied w).datum guid)
  written-Extends g n dest copied w same q h = elim (ℕ_discrete g guid) [
    | yes here ↦
        rw
          (
            update-here w.datum g (memcpy (dest * n) n copied (w.datum g)) guid here,
            (same here).0,
            here,
          )
          (memcpy-Holds dest q count bytes copied (w.datum guid) (same here).1 h)
    | no other ↦ rw (update-other w.datum g (memcpy (dest * n) n copied (w.datum g)) guid other) h
  ]

  pub written-Holds :
      (g n dest : ℕ) (copied : ℕ → ℕ) (w : World)
      → (n ≡ count) × ((k : ℕ) → k < count → copied k ≡ bytes k)
      → g ≡ guid
      → Holds count bytes ((written g n dest copied w).datum guid) dest
  written-Holds g n dest copied w same here =
      rw (update-here w.datum g (memcpy (dest * n) n copied (w.datum g)) guid here, same.0, here)
        (memcpy-there dest count bytes copied (w.datum guid) same.1)

  pub written-Carried :
      (g n dest : ℕ) (copied : ℕ → ℕ) (w : World)
      → Carried w
      → (g ≡ guid → (n ≡ count) × ((k : ℕ) → k < count → copied k ≡ bytes k))
      → Carried (written g n dest copied w)
  written-Carried g n dest copied w c same =
      let grows = written-Extends g n dest copied w same in
      record {
        ids = c.ids;
        entries = λ q p e.
            Entry-Extends (w.datum guid) ((written g n dest copied w).datum guid) q p grows
              (c.entries q p e);
        messages =
            AllGood-Extends (w.datum guid) ((written g n dest copied w).datum guid) grows w.sent
              c.messages;
      }
