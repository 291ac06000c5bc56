-- ===== src/Dddf.antt =====
-- src/hcupc_spmd_dddf.cpp: one distributed data-driven future at all places, and the one put on it
-- that the program makes. A number stands for the bytes of a datum. The functions run by one worker
-- are split where another worker of the place can run in between.
pub mod Control
pub mod Handles
pub mod Single
pub mod Delivered
pub mod Stale
mod Tests
use habanero_upc.Prelude.{
  ℕ, ◌+◌, ◌-◌, ◌<◌, ◌≡◌, ◌≢◌, Bool, true, false, Option, none, some, List, [], ◌∷◌, ◌++◌, update,
  if◌then◌else◌, ◌==◌, ◌||◌,
}

-- Where the worker stands that calls DDF_PUT.
pub data Pc : Type 0 where
  -- before ddf_put
  before_put : Pc
  -- before copy_datum_from_private_to_globalAddress
  before_copy : Pc
  -- before DDF_PUT_remote
  before_remote : Pc
  done : Pc

-- `value i` is the local DDF of place `i`, `datum i` its section of the shared array. `requests i` are
-- the calls of DDF_PUT_callback for place `i` on their way to the home, `awaiting i` those that the
-- home has taken and that wait for its DDF. `copies i` are the data on their way from the home to
-- place `i`, and `copy_home` is the datum on its way to the home. `failed`: an assertion, or the
-- single-assignment rule of ddf_put.
pub record System : Type 0 where
  pub value : ℕ → Option ℕ
  pub datum : ℕ → ℕ
  pub put_initiator_rank : ℕ → Option ℕ
  pub put_requested_from_home : ℕ → Bool
  pub requests : ℕ → ℕ
  pub awaiting : ℕ → ℕ
  pub copies : ℕ → List ℕ
  pub copy_home : Option ℕ
  pub put_pc : Pc
  pub failed : Bool

abbrev pub is_some : Option ℕ → Bool
is_some (some _) = true
is_some none = false

abbrev pub is_rank : ℕ → Option ℕ → Bool
is_rank i none = false
is_rank i (some j) = i == j

-- hcpp::ddf_put, which refuses a second put.
unfoldable pub ddf_put : ℕ → ℕ → System → System
ddf_put i content s = record s {
  value = update s.value i (some content);
  failed = s.failed || is_some (s.value i);
}

-- DDF_PUT_home(guid, source) at place `i`, once its section holds the datum.
unfoldable pub ddf_put_home : ℕ → ℕ → System → System
unfolding ddf_put
ddf_put_home i source s = ddf_put i (s.datum i) (record s {
  put_initiator_rank = update s.put_initiator_rank i (some source);
  failed = s.failed || is_some (s.put_initiator_rank i);
})

unfoldable pub copy_datum_from_private_to_global_address : ℕ → ℕ → System → System
copy_datum_from_private_to_global_address i content s = record s {
  put_initiator_rank = update s.put_initiator_rank i (some i);
  datum = update s.datum i content;
  put_requested_from_home = update s.put_requested_from_home i true;
  failed = s.failed || is_some (s.put_initiator_rank i);
}

-- The case of dddf_register_callback for a place that is not the home.
unfoldable pub dddf_register_callback : ℕ → System → System
dddf_register_callback i s =
    if is_some (s.value i) || s.put_requested_from_home i then s else record s {
      put_requested_from_home = update s.put_requested_from_home i true;
      requests = update s.requests i (s.requests i + 1);
    }

-- The task of DDF_PUT_callback for place `dest`, run once the home's DDF is there.
unfoldable pub ddf_put_callback : ℕ → ℕ → System → System
ddf_put_callback home dest s =
    if is_rank dest (s.put_initiator_rank home)
    then s
    else record s { copies = update s.copies dest (s.copies dest ++ s.datum home ∷ []) }

-- What follows copy_datum_from_private_to_globalAddress in DDF_PUT.
abbrev pub after_copy : ℕ → ℕ → Pc
after_copy home putter = if putter == home then done else before_remote

-- `home` is the home of the DDDF, and place `putter` puts `content`.
pub data Step (home putter content : ℕ) (s : System) : System → Type 0 where
  -- DDF_PUT, the local put
  put_local :
      s.put_pc ≡ before_put
      → Step home putter content s (record (ddf_put putter content s) { put_pc = before_copy })
  -- DDF_PUT, the copy to the section of the place
  put_copy :
      s.put_pc ≡ before_copy
      → Step home putter content s
          (record (copy_datum_from_private_to_global_address putter content s) {
            put_pc = after_copy home putter;
          })
  -- DDF_PUT_remote from a place that is not the home
  put_remote :
      s.put_pc ≡ before_remote
      → Step home putter content s (record s { copy_home = some (s.datum putter); put_pc = done })
  -- The copy is complete and DDF_PUT_home runs at the home
  arrive_home :
      (d : ℕ)
      → s.copy_home ≡ some d
      → Step home putter content s
          (ddf_put_home home putter (record s { datum = update s.datum home d; copy_home = none }))
  -- A task at place `i` waits for the DDDF
  register : (i : ℕ) → i ≢ home → Step home putter content s (dddf_register_callback i s)
  -- DDF_PUT_callback starts at the home
  take_request :
      (i : ℕ)
      → 0 < s.requests i
      → Step home putter content s (record s {
        requests = update s.requests i (s.requests i - 1);
        awaiting = update s.awaiting i (s.awaiting i + 1);
      })
  -- The home's DDF is there: the task that waits for it runs DDF_PUT_remote
  answer :
      (i x : ℕ)
      → s.value home ≡ some x
      → 0 < s.awaiting i
      → Step home putter content s
          (ddf_put_callback home i (record s { awaiting = update s.awaiting i (s.awaiting i - 1) }))
  -- The copy is complete and DDF_PUT_home runs at place `i`
  arrive :
      (i d : ℕ) (ds : List ℕ)
      → s.copies i ≡ d ∷ ds
      → Step home putter content s (
          ddf_put_home i home
            (record s { datum = update s.datum i d; copies = update s.copies i ds }))

-- After __ddfHandle at all places: what the sections hold is arbitrary.
unfoldable pub init : (ℕ → ℕ) → System
init garbage = record {
  value = λ _. none;
  datum = garbage;
  put_initiator_rank = λ _. none;
  put_requested_from_home = λ _. false;
  requests = λ _. 0;
  awaiting = λ _. 0;
  copies = λ _. [];
  copy_home = none;
  put_pc = before_put;
  failed = false;
}

pub data Steps (home putter content : ℕ) (s : System) : System → Type 0 where
  here : Steps home putter content s s
  next :
      {t u : System}
      → Steps home putter content s t
      → Step home putter content t u
      → Steps home putter content s u
