-- ===== src/Dddf/Handles.antt =====
-- src/hcupc_spmd_dddf.cpp: the futures of one place behind their handles: how a distributed one is made
-- and found by its number, and how a task that awaits a list of futures asks their homes.
pub mod Registered
pub mod Found
mod Tests
use habanero_upc.Prelude.{
  ℕ, zero, suc, ◌+◌, Bool, true, false, not, ◌&&◌, Option, none, some, List, [], ◌∷◌, ◌++◌, ltb,
  ◌==◌, ◌>>=◌, if◌then◌else◌, update,
}

-- DDF_KIND_SHARED, DDF_KIND_DISTRIBUTED_OWNER and DDF_KIND_DISTRIBUTED_REMOTE.
pub data DdfKind : Type 0 where
  shared owner remote : DdfKind

-- DDDF_t, and DDF_t as its first field. A local DDF has the kind `shared`, and its other fields mean
-- nothing. A number stands for the value that was put.
pub record Dddf : Type 0 where
  pub kind : DdfKind
  pub value : Option ℕ
  pub global_id : ℕ
  pub home_rank : ℕ
  pub size : ℕ
  pub put_requested_from_home : Bool
  pub put_initiator_rank : Option ℕ

-- `heap` are the structures behind the pointers, of which those below `next` are in use.
pub record Handles : Type 0 where
  pub heap : ℕ → Dddf
  pub next : ℕ
  pub dddf_guid_map : ℕ → Option ℕ

-- std::unordered_map::insert, which keeps an entry that is there.
abbrev pub insert : ℕ → ℕ → (ℕ → Option ℕ) → ℕ → Option ℕ
insert guid ptr m k =
    if k == guid then (elim (m guid) [ none ↦ some ptr | some q ↦ some q ]) else m k

-- __ddfHandle at place `me`, run by the communication worker: the pointer and the new state. `none` is
-- a failed assertion.
unfoldable pub ddf_handle : ℕ → ℕ → ℕ → ℕ → ℕ → Handles → Option (ℕ × Handles)
ddf_handle ranks me gid hid size s =
    if ltb 0 size && ltb hid ranks
    then some (
      s.next,
      record {
        heap = update s.heap s.next (record {
          kind = if hid == me then owner else remote;
          value = none;
          global_id = gid;
          home_rank = hid;
          size = size;
          put_requested_from_home = false;
          put_initiator_rank = none;
        });
        next = s.next + 1;
        dddf_guid_map = insert gid s.next s.dddf_guid_map;
      },
    )
    else none

-- The place by kind of a future: __ddfGetHome.
abbrev pub home_of : ℕ → DdfKind → ℕ → ℕ
home_of me shared home = me
home_of me owner home = home
home_of me remote home = home

unfoldable pub ddf_get_home : ℕ → ℕ → Handles → ℕ
ddf_get_home me ptr s = home_of me (s.heap ptr).kind (s.heap ptr).home_rank

-- The lookup with which DDF_PUT_home and DDF_PUT_callback start.
unfoldable pub find_guid : ℕ → Handles → Option Dddf
find_guid guid s = do ptr ← s.dddf_guid_map guid; some (s.heap ptr)

-- The call of DDF_PUT_callback that is sent to the home, for place `requester`.
pub record HomeRequest : Type 0 where
  pub dest : ℕ
  pub guid : ℕ
  pub requester : ℕ

abbrev pub is_remote : DdfKind → Bool
is_remote remote = true
is_remote owner = false
is_remote shared = false

abbrev pub has_value : Option ℕ → Bool
has_value none = false
has_value (some v) = true

-- A future that is not the place's own, without value, and not yet requested.
abbrev pub is_wanted : Dddf → Bool
is_wanted d = is_remote d.kind && (not (has_value d.value) && not d.put_requested_from_home)

abbrev pub request_of : ℕ → Dddf → HomeRequest
request_of me d = record { dest = d.home_rank; guid = d.global_id; requester = me }

-- One turn of the loop of dddf_register_callback, with the requests sent so far.
unfoldable pub register_ddf : ℕ → ℕ → Handles × List HomeRequest → Handles × List HomeRequest
register_ddf me ptr (s, sent) = elim ((s.heap ptr).kind) [
  | shared ↦ (s, sent)
  | owner ↦ (s, sent)
  | remote ↦
      if has_value (s.heap ptr).value
      then (s, sent)
      else if (s.heap ptr).put_requested_from_home
      then (s, sent)
      else (
        record s {
          heap = update s.heap ptr (record (s.heap ptr) { put_requested_from_home = true });
        },
        sent ++ request_of me (s.heap ptr) ∷ [],
      )
]

-- dddf_register_callback over the pointers before the NULL.
unfoldable pub register_ddfs : ℕ → List ℕ → Handles × List HomeRequest → Handles × List HomeRequest
register_ddfs me [] r = r
register_ddfs me (ptr ∷ ddf_list) r = register_ddfs me ddf_list (register_ddf me ptr r)
