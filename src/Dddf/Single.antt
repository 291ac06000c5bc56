-- ===== src/Dddf/Single.antt =====
-- src/hcupc_spmd_dddf.cpp: the single-assignment rule.
pub mod Puts
pub mod Answers
use habanero_upc.Prelude.{ℕ, ◌+◌, ◌≡◌, ◌≢◌, sym, false, [], ◌∷◌, arith, length-append}
use habanero_upc.Dddf.{
  System, is_some, ddf_put, ddf_put_home, copy_datum_from_private_to_global_address,
  dddf_register_callback, ddf_put_callback, Step, put_local, put_copy, put_remote, arrive_home,
  register, take_request, answer, arrive, init, Steps, here, next,
}
use habanero_upc.Dddf.Control.{
  bit, pending, IsSingle, init-IsSingle, sent_from, sent_to, not_home, known,
}
use habanero_upc.Dddf.Single.Puts.{
  put_local-IsSingle, put_copy-IsSingle, put_remote-IsSingle, arrive_home-IsSingle,
}
use habanero_upc.Dddf.Single.Answers.{
  register-IsSingle, take_request-IsSingle, answer-IsSingle, arrive-IsSingle,
}

Step-IsSingle :
    {home putter content : ℕ} {s t : System}
    → Step home putter content s t
    → IsSingle home putter s
    → IsSingle home putter t
Step-IsSingle {home} {putter} {content} {s} (put_local q) v =
    put_local-IsSingle home putter content s q v
Step-IsSingle {home} {putter} {content} {s} (put_copy q) v =
    put_copy-IsSingle home putter content s q v
Step-IsSingle {home} {putter} {content} {s} (put_remote q) v =
    put_remote-IsSingle home putter content s q v
Step-IsSingle {home} {putter} {content} {s} (arrive_home d q) v =
    arrive_home-IsSingle home putter content s d q v
Step-IsSingle {home} {putter} {content} {s} (register j h) v =
    register-IsSingle home putter content s j h v
Step-IsSingle {home} {putter} {content} {s} (take_request j h) v =
    take_request-IsSingle home putter content s j h v
Step-IsSingle {home} {putter} {content} {s} (answer j x q h) v =
    answer-IsSingle home putter content s j x q h v
Step-IsSingle {home} {putter} {content} {s} (arrive j d ds q) v =
    arrive-IsSingle home putter content s j d ds q v

pub Steps-IsSingle :
    {home putter content : ℕ} (garbage : ℕ → ℕ) {s : System}
    → Steps home putter content (init garbage) s
    → IsSingle home putter s
Steps-IsSingle {home} {putter} garbage here = init-IsSingle home putter garbage
Steps-IsSingle garbage (next r st) = Step-IsSingle st (Steps-IsSingle garbage r)

-- With one call of DDF_PUT, at any place, in every interleaving with the registrations of all other
-- places: no assertion fails, and no place puts a second datum into its local DDF. A place other than
-- the home and the one that puts has exactly one request, copy or value when it has asked for the
-- datum, and none before.
pub single_assignment :
    {home putter content : ℕ} {s : System} (garbage : ℕ → ℕ) (i : ℕ)
    → Steps home putter content (init garbage) s
    → i ≢ home
    → i ≢ putter
    → (s.failed ≡ false)
      × (pending s i + bit (is_some (s.value i)) ≡ bit (s.put_requested_from_home i))
single_assignment garbage i r other other' =
    let v = Steps-IsSingle garbage r in (v.sound, v.asked i other other')
