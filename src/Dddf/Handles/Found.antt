-- ===== src/Dddf/Handles/Found.antt =====
-- src/hcupc_spmd_dddf.cpp: a distributed future that is made by __ddfHandle, and found by its number.
use habanero_upc.Prelude.{
  ℕ, ◌+◌, ◌<◌, ◌≡◌, ◌≢◌, refl, ap, ◌∙◌, false, not, ◌&&◌, none, some, lt→ltb, ◌==◌, ==_iff,
  if◌then◌else◌, update, update-here, arith, Bool-cases, inl, inr,
}
use habanero_upc.Dddf.Handles.{
  owner, remote, Dddf, Handles, insert, ddf_handle, ddf_get_home, find_guid, is_wanted, is_remote,
  home_of,
}

differs : (a b : ℕ) → a ≢ b → (a == b) ≡ false
differs a b h = ground arith

-- __ddfHandle for a number that is not in use, with a size and a home in range: the number then leads
-- to the new future, which is without value, belongs to its home, and is asked for at its home exactly
-- if that is another place; the other numbers lead where they led.
ddf_handle-found :
    (ranks me gid hid size : ℕ) (s : Handles)
    → 0 < size
    → hid < ranks
    → s.dddf_guid_map gid ≡ none
    → (ptr : ℕ) × (t : Handles) × (d : Dddf) × (ddf_handle ranks me gid hid size s ≡ some (ptr, t))
      × (find_guid gid t ≡ some d)
      × (ddf_get_home me ptr t ≡ hid)
      × (d.value ≡ none)
      × (is_wanted d ≡ not (hid == me))
      × ((g : ℕ) → g ≢ gid → t.dddf_guid_map g ≡ s.dddf_guid_map g)
unfolding ddf_handle find_guid ddf_get_home
ddf_handle-found ranks me gid hid size s h k fresh =
    let d : Dddf = record {
      kind = if hid == me then owner else remote;
      value = none;
      global_id = gid;
      home_rank = hid;
      size = size;
      put_requested_from_home = false;
      put_initiator_rank = none;
    } in
    let new = update-here s.heap s.next d s.next refl in
    (
      s.next,
      record {
        heap = update s.heap s.next d;
        next = s.next + 1;
        dddf_guid_map = insert gid s.next s.dddf_guid_map;
      },
      d,
      rw (lt→ltb 0 size h, lt→ltb hid ranks k) refl,
      rw ((==_iff gid gid).1 refl, fresh) (ap some new),
      ap (λ x. home_of me x.kind x.home_rank) new ∙ homes me hid,
      refl,
      wants me hid,
      λ g other. rw (differs g gid other) refl,
    )
  where
    homes : (me hid : ℕ) → home_of me (if hid == me then owner else remote) hid ≡ hid
    homes me hid = elim (Bool-cases (hid == me)) [ inl own ↦ rw own refl | inr away ↦ rw away refl ]

    wants :
        (me hid : ℕ)
        → (is_remote (if hid == me then owner else remote) && (not false && not false))
          ≡ not (hid == me)
    wants me hid = elim (Bool-cases (hid == me)) [ inl own ↦ rw own refl | inr away ↦ rw away refl ]
