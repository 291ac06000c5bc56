-- ===== src/Dddf/Delivered.antt =====
-- src/hcupc_spmd_dddf.cpp: what a place receives when the put is made away from the home.
use habanero_upc.Prelude.{ℕ, ◌≡◌, ◌≢◌, true, some, List, [], ◌∷◌, ◌++◌, arith}
use habanero_upc.Dddf.{
  System, ddf_put, ddf_put_home, copy_datum_from_private_to_global_address, dddf_register_callback,
  ddf_put_callback, Step, put_local, put_copy, put_remote, arrive_home, register, take_request,
  answer, arrive, init, Steps, here, next,
}
use habanero_upc.Dddf.Control.{marked, IsSingle, sent_to}
use habanero_upc.Dddf.Single.{Steps-IsSingle}

abbrev All : ℕ → List ℕ → Type 0
All x [] = Unit
All x (d ∷ ds) = (d ≡ x) × All x ds

All-snoc : (x d : ℕ) (ds : List ℕ) → All x ds → d ≡ x → All x (ds ++ d ∷ [])
All-snoc x d [] a e = (e, tt)
All-snoc x d (y ∷ ds) a e = (a.0, All-snoc x d ds a.1 e)

record IsCorrect (home putter content : ℕ) (s : System) : Type 0 where
  values : (i x : ℕ) → s.value i ≡ some x → x ≡ content
  home_datum : (x : ℕ) → s.value home ≡ some x → s.datum home ≡ content
  copies : (i : ℕ) → All content (s.copies i)
  copy_home : (d : ℕ) → s.copy_home ≡ some d → d ≡ content
  section : marked s.put_pc ≡ true → s.datum putter ≡ content

init-IsCorrect :
    (home putter content : ℕ) (garbage : ℕ → ℕ) → IsCorrect home putter content (init garbage)
unfolding init
init-IsCorrect home putter content garbage = record {
  values = λ i x e. cc;
  home_datum = λ x e. cc;
  copies = λ i. tt;
  copy_home = λ d e. cc;
  section = λ e. cc;
}

Step-IsCorrect :
    {home putter content : ℕ} {s t : System}
    → putter ≢ home
    → IsSingle home putter s
    → Step home putter content s t
    → IsCorrect home putter content s
    → IsCorrect home putter content t
unfolding ddf_put ddf_put_home copy_datum_from_private_to_global_address dddf_register_callback
    ddf_put_callback
Step-IsCorrect {home} {putter} {content} {s} o v (put_local q) w = record {
  values = λ i y e. ground (arith, w.values i y);
  home_datum = λ y e. ground (arith, w.home_datum y);
  copies = λ i. ground (arith, w.copies i);
  copy_home = λ y e. ground (arith, w.copy_home y);
  section = λ e. ground (arith, w.section);
}
Step-IsCorrect {home} {putter} {content} {s} o v (put_copy q) w = record {
  values = λ i y e. ground (arith, w.values i y);
  home_datum = λ y e. ground (arith, w.home_datum y);
  copies = λ i. ground (arith, w.copies i);
  copy_home = λ y e. ground (arith, w.copy_home y);
  section = λ e. ground (arith, w.section);
}
Step-IsCorrect {home} {putter} {content} {s} o v (put_remote q) w = record {
  values = λ i y e. ground (arith, w.values i y);
  home_datum = λ y e. ground (arith, w.home_datum y);
  copies = λ i. ground (arith, w.copies i);
  copy_home = λ y e. ground (arith, w.copy_home y);
  section = λ e. ground (arith, w.section);
}
Step-IsCorrect {home} {putter} {content} {s} o v (arrive_home d q) w = record {
  values = λ i y e. ground (arith, w.values i y, w.copy_home d q);
  home_datum = λ y e. ground (arith, w.home_datum y, w.copy_home d q);
  copies = λ i. ground (arith, w.copies i, w.copy_home d q);
  copy_home = λ y e. ground (arith, w.copy_home y, w.copy_home d q);
  section = λ e. ground (arith, w.section, w.copy_home d q);
}
Step-IsCorrect {home} {putter} {content} {s} o v (register j h) w = record {
  values = λ i y e. ground (arith, w.values i y);
  home_datum = λ y e. ground (arith, w.home_datum y);
  copies = λ i. ground (arith, w.copies i);
  copy_home = λ y e. ground (arith, w.copy_home y);
  section = λ e. ground (arith, w.section);
}
Step-IsCorrect {home} {putter} {content} {s} o v (take_request j h) w = record {
  values = λ i y e. ground (arith, w.values i y);
  home_datum = λ y e. ground (arith, w.home_datum y);
  copies = λ i. ground (arith, w.copies i);
  copy_home = λ y e. ground (arith, w.copy_home y);
  section = λ e. ground (arith, w.section);
}
Step-IsCorrect {home} {putter} {content} {s} o v (answer j x q h) w = record {
  values = λ i y e. ground (arith, w.values i y, w.home_datum x q);
  home_datum = λ y e. ground (arith, w.home_datum y, w.home_datum x q);
  copies = λ i. ground (
    arith,
    w.copies i,
    w.home_datum x q,
    All-snoc content (s.datum home) (s.copies j) (w.copies j) (w.home_datum x q),
  );
  copy_home = λ y e. ground (arith, w.copy_home y, w.home_datum x q);
  section = λ e. ground (arith, w.section, w.home_datum x q);
}
Step-IsCorrect {home} {putter} {content} {s} o v (arrive j d ds q) w = record {
  values = λ i y e. ground (arith, w.values i y, w.copies j, sent_to j d ds v q);
  home_datum = λ y e. ground (arith, w.home_datum y, w.copies j, sent_to j d ds v q);
  copies = λ i. ground (arith, w.copies i, w.copies j, sent_to j d ds v q);
  copy_home = λ y e. ground (arith, w.copy_home y, w.copies j, sent_to j d ds v q);
  section = λ e. ground (arith, w.section, w.copies j, sent_to j d ds v q);
}

Steps-IsCorrect :
    {home putter content : ℕ} (garbage : ℕ → ℕ) {s : System}
    → putter ≢ home
    → Steps home putter content (init garbage) s
    → IsCorrect home putter content s
Steps-IsCorrect {home} {putter} {content} garbage o here =
    init-IsCorrect home putter content garbage
Steps-IsCorrect garbage o (next r st) =
    Step-IsCorrect o (Steps-IsSingle garbage r) st (Steps-IsCorrect garbage o r)

-- When the put is made at a place that is not the home, in every interleaving, every place that holds
-- a value for the DDDF holds the datum that was put.
pub remote_put_delivers :
    {home putter content : ℕ} {s : System} (garbage : ℕ → ℕ) (i x : ℕ)
    → putter ≢ home
    → Steps home putter content (init garbage) s
    → s.value i ≡ some x
    → x ≡ content
remote_put_delivers garbage i x o r e = (Steps-IsCorrect garbage o r).values i x e
