-- ===== src/Dddf/Handles/Registered.antt =====
-- src/hcupc_spmd_dddf.cpp: the requests that dddf_register_callback sends.
use habanero_upc.Prelude.{
  ℕ, ◌+◌, ◌≡◌, ◌≢◌, refl, sym, ap, ◌∙◌, Bool, true, false, not, ◌&&◌, ◌||◌, Option, none, some,
  List, [], ◌∷◌, ◌++◌, map, ◌==◌, ==_iff, if◌then◌else◌, update, update-here, update-other, arith,
  count, count-same, count-other, ℕ_discrete, Bool-cases, inl, inr,
}
use mathlib.Core.Path.{subst}
use mathlib.Core.List.{append-nil, append_assoc}
use habanero_upc.Dddf.Handles.{
  DdfKind, shared, owner, remote, Dddf, Handles, HomeRequest, is_wanted, is_remote, has_value,
  request_of, register_ddf, register_ddfs,
}

abbrev pub contains : ℕ → List ℕ → Bool
contains x [] = false
contains x (y ∷ ys) = x == y || contains x ys

abbrev flagged : Dddf → Dddf
flagged d = record d { put_requested_from_home = true }

-- What the loop does, said without its order: each future of the list that is wanted is asked for once.
pub record Registered (me : ℕ) (ddf_list asked : List ℕ) (s t : Handles)
    (sent sent' : List HomeRequest) : Type 0 where
  pub requests : sent' ≡ sent ++ map (λ x. request_of me (s.heap x)) asked
  pub once :
      (x : ℕ) → count x asked ≡ (if contains x ddf_list && is_wanted (s.heap x) then 1 else 0)
  pub heap :
      (x : ℕ)
      → t.heap x
        ≡ (if contains x ddf_list && is_wanted (s.heap x) then flagged (s.heap x) else s.heap x)
  table : t.dddf_guid_map ≡ s.dddf_guid_map

-- The cases of the switch, as one test.
choose {ℓ} :
    {A : Type ℓ} (asks skips : A) (k : DdfKind) (v : Option ℕ) (requested : Bool)
    → (elim k [
      | shared ↦ skips
      | owner ↦ skips
      | remote ↦ if has_value v then skips else if requested then skips else asks
    ])
      ≡ (if is_remote k && (not (has_value v) && not requested) then asks else skips)
choose asks skips shared v requested = refl
choose asks skips owner v requested = refl
choose asks skips remote (some x) requested = refl
choose asks skips remote none true = refl
choose asks skips remote none false = refl

flagged-not_wanted : (d : Dddf) → is_wanted (flagged d) ≡ false
flagged-not_wanted d = off (is_remote d.kind) (not (has_value d.value))
  where
    off : (a b : Bool) → (a && (b && false)) ≡ false
    off true true = refl
    off true false = refl
    off false b = refl

-- A future at the head of the list that is wanted, and the counts of the rest of the list.
once_hit :
    (b c w w1 : Bool) (k : ℕ)
    → b ≡ true
    → w ≡ true
    → w1 ≡ false
    → k ≡ (if c && w1 then 1 else 0)
    → 1 + k ≡ (if (b || c) && w then 1 else 0)
once_hit b c w w1 k hb hw hw1 e = ground arith

once_miss :
    (b c w w1 : Bool) (k : ℕ)
    → b ≡ false
    → w1 ≡ w
    → k ≡ (if c && w1 then 1 else 0)
    → 0 + k ≡ (if (b || c) && w then 1 else 0)
once_miss b c w w1 k hb hw e = ground arith

-- A future that is not wanted, at the head of the list.
passed : (b c w : Bool) → (b ≡ true → w ≡ false) → (c && w) ≡ ((b || c) && w)
passed true true w h = refl
passed true false w h = sym (h refl)
passed false c w h = refl

differs : (a b : ℕ) → a ≢ b → (a == b) ≡ false
differs a b h = ground arith

map-same {ℓ} :
    {B : Type ℓ} (f g : ℕ → B) (xs : List ℕ) → ((x : ℕ) → f x ≡ g x) → map f xs ≡ map g xs
map-same f g [] h = refl
map-same f g (x ∷ xs) h = rw (h x, map-same f g xs h) refl

register_ddf_lem :
    (me ptr : ℕ) (s : Handles) (sent : List HomeRequest)
    → register_ddf me ptr (s, sent) ≡ (
        if is_wanted (s.heap ptr)
        then (
          record s { heap = update s.heap ptr (flagged (s.heap ptr)) },
          sent ++ request_of me (s.heap ptr) ∷ [],
        )
        else (s, sent))
unfolding register_ddf
register_ddf_lem me ptr s sent =
    choose _ _ (s.heap ptr).kind (s.heap ptr).value (s.heap ptr).put_requested_from_home

off : (c w : Bool) (p q : Dddf) → w ≡ false → (if c && w then p else q) ≡ q
off true w p q e = rw e refl
off false w p q e = refl

pass :
    (me ptr : ℕ) (ddf_list asked : List ℕ) (s t : Handles) (sent sent' : List HomeRequest)
    → is_wanted (s.heap ptr) ≡ false
    → Registered me ddf_list asked s t sent sent'
    → Registered me (ptr ∷ ddf_list) asked s t sent sent'
pass me ptr ddf_list asked s t sent sent' unwanted r = record {
  requests = r.requests;
  once = λ x. rw (← same x) (r.once x);
  heap = λ x. rw (← same x) (r.heap x);
  table = r.table;
}
  where
    same :
        (x : ℕ)
        → (contains x ddf_list && is_wanted (s.heap x))
          ≡ (contains x (ptr ∷ ddf_list) && is_wanted (s.heap x))
    same x =
        passed (x == ptr) (contains x ddf_list) (is_wanted (s.heap x))
          (λ e. ap (λ k. is_wanted (s.heap k)) ((==_iff x ptr).0 e) ∙ unwanted)

hit :
    (me ptr : ℕ) (ddf_list asked : List ℕ) (s t : Handles) (sent sent' : List HomeRequest)
    → is_wanted (s.heap ptr) ≡ true
    → Registered me ddf_list asked
        (record s { heap = update s.heap ptr (flagged (s.heap ptr)) })
        t
        (sent ++ request_of me (s.heap ptr) ∷ [])
        sent'
    → Registered me (ptr ∷ ddf_list) (ptr ∷ asked) s t sent sent'
hit me ptr ddf_list asked s t sent sent' wanted r = record {
  requests =
      r.requests
      ∙ append_assoc sent (request_of me (s.heap ptr) ∷ []) _
      ∙ ap (λ xs. sent ++ request_of me (s.heap ptr) ∷ xs)
          (map-same _ (λ x. request_of me (s.heap x)) asked kept);
  once = λ x. elim (ℕ_discrete x ptr) [
    | yes e ↦
        count-same x ptr asked e
        ∙ once_hit (x == ptr) (contains x ddf_list) (is_wanted (s.heap x))
            (is_wanted (update s.heap ptr (flagged (s.heap ptr)) x)) (count x asked)
            ((==_iff x ptr).1 e) (ap (λ k. is_wanted (s.heap k)) e ∙ wanted) (closed x e) (r.once x)
    | no e ↦
        count-other x ptr asked e
        ∙ once_miss (x == ptr) (contains x ddf_list) (is_wanted (s.heap x))
            (is_wanted (update s.heap ptr (flagged (s.heap ptr)) x)) (count x asked)
            (differs x ptr e) (ap is_wanted (other x e)) (r.once x)
  ];
  heap = λ x. elim (ℕ_discrete x ptr) [
    | yes e ↦
        rw ((==_iff x ptr).1 e, ap (λ k. is_wanted (s.heap k)) e ∙ wanted)
          (r.heap x
            ∙ off (contains x ddf_list) _ _ _ (closed x e)
            ∙ update-here s.heap ptr (flagged (s.heap ptr)) x (sym e)
            ∙ ap (λ k. flagged (s.heap k)) (sym e))
    | no e ↦ rw (differs x ptr e) (
        r.heap x
        ∙ ap (λ d. if contains x ddf_list && is_wanted d then flagged d else d) (other x e))
  ];
  table = r.table;
}
  where
    closed : (x : ℕ) → x ≡ ptr → is_wanted (update s.heap ptr (flagged (s.heap ptr)) x) ≡ false
    closed x e =
        ap is_wanted (update-here s.heap ptr (flagged (s.heap ptr)) x (sym e))
        ∙ flagged-not_wanted (s.heap ptr)

    other : (x : ℕ) → x ≢ ptr → update s.heap ptr (flagged (s.heap ptr)) x ≡ s.heap x
    other x e = update-other s.heap ptr (flagged (s.heap ptr)) x (λ d. e (sym d))

    kept :
        (x : ℕ)
        → request_of me (update s.heap ptr (flagged (s.heap ptr)) x) ≡ request_of me (s.heap x)
    kept x = elim (ℕ_discrete ptr x) [
      | yes e ↦
          ap (request_of me) (update-here s.heap ptr (flagged (s.heap ptr)) x e)
          ∙ ap (λ k. request_of me (s.heap k)) e
      | no e ↦ ap (request_of me) (update-other s.heap ptr (flagged (s.heap ptr)) x e)
    ]

-- dddf_register_callback on any list of futures, also with repetitions: it sends one request for each
-- future in the list that belongs to another place, has no value and is not yet requested, to its home
-- with its number and this place, marks it as requested, and changes nothing else.
pub register_ddfs-Registered :
    (me : ℕ) (ddf_list : List ℕ) (s : Handles) (sent : List HomeRequest)
    → (asked : List ℕ) × Registered me ddf_list asked s
        (register_ddfs me ddf_list (s, sent)).0
        sent
        (register_ddfs me ddf_list (s, sent)).1
unfolding register_ddfs
register_ddfs-Registered me [] s sent = (
  [],
  record { requests = sym (append-nil sent); once = λ x. refl; heap = λ x. refl; table = refl },
)
register_ddfs-Registered me (ptr ∷ ddf_list) s sent = elim (Bool-cases (is_wanted (s.heap ptr))) [
  | inr unwanted ↦
      let (asked, r) = register_ddfs-Registered me ddf_list s sent in
      let same : register_ddf me ptr (s, sent) ≡ (s, sent) =
        register_ddf_lem me ptr s sent ∙ rw unwanted refl in
      (
        asked,
        subst
            (λ (u : Handles × List HomeRequest).
              Registered me (ptr ∷ ddf_list) asked s (register_ddfs me ddf_list u).0 sent
                (register_ddfs me ddf_list u).1)
            (sym same) (pass me ptr ddf_list asked s _ sent _ unwanted r),
      )
  | inl wanted ↦
      let s1 : Handles = record s { heap = update s.heap ptr (flagged (s.heap ptr)) } in
      let sent1 : List HomeRequest = sent ++ request_of me (s.heap ptr) ∷ [] in
      let (asked, r) = register_ddfs-Registered me ddf_list s1 sent1 in
      let same : register_ddf me ptr (s, sent) ≡ (s1, sent1) =
        register_ddf_lem me ptr s sent ∙ rw wanted refl in
      (
        ptr ∷ asked,
        subst
            (λ (u : Handles × List HomeRequest).
              Registered me (ptr ∷ ddf_list) (ptr ∷ asked) s (register_ddfs me ddf_list u).0 sent
                (register_ddfs me ddf_list u).1)
            (sym same) (hit me ptr ddf_list asked s _ sent _ wanted r),
      )
]
