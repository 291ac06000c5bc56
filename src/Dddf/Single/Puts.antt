-- ===== src/Dddf/Single/Puts.antt =====
-- src/hcupc_spmd_dddf.cpp: the single-assignment rule, at DDF_PUT and DDF_PUT_home at the home.
use habanero_upc.Prelude.{ℕ, ◌≡◌, sym, arith, some, update, none}
use habanero_upc.Dddf.{
  System, ddf_put, ddf_put_home, copy_datum_from_private_to_global_address, dddf_register_callback,
  ddf_put_callback, before_put, before_copy, before_remote, done, after_copy,
}
use habanero_upc.Dddf.Control.{IsSingle, sent_from}

pub put_local-IsSingle :
    (home putter content : ℕ) (s : System) (q : s.put_pc ≡ before_put)
    → IsSingle home putter s
    → IsSingle home putter (record (ddf_put putter content s) { put_pc = before_copy })
unfolding ddf_put ddf_put_home copy_datum_from_private_to_global_address dddf_register_callback
    ddf_put_callback
put_local-IsSingle home putter content s q v = record {
  sound = ground (arith, v.sound);
  asked = λ i ih ip. ground (arith, v.asked i ih ip);
  same = λ i ip. ground (arith, v.same i ip);
  own_value = ground (arith, v.own_value);
  own_mark = ground (arith, v.own_mark);
  own_copies = ground (arith, v.own_copies);
  home_requests = ground (arith, v.home_requests);
  home_copies = ground (arith, v.home_copies);
  sends = λ e. ground (arith, v.sends);
  nothing_sent = λ e. ground (arith, v.nothing_sent e);
  sent = λ e. ground (arith, v.sent e);
  source = λ k e. ground (arith, v.source k);
}

pub put_copy-IsSingle :
    (home putter content : ℕ) (s : System) (q : s.put_pc ≡ before_copy)
    → IsSingle home putter s
    → IsSingle home putter (record (copy_datum_from_private_to_global_address putter content s) {
      put_pc = after_copy home putter;
    })
unfolding ddf_put ddf_put_home copy_datum_from_private_to_global_address dddf_register_callback
    ddf_put_callback
put_copy-IsSingle home putter content s q v = record {
  sound = ground (arith, v.sound, v.nothing_sent);
  asked = λ i ih ip. ground (arith, v.asked i ih ip, v.nothing_sent);
  same = λ i ip. ground (arith, v.same i ip, v.nothing_sent);
  own_value = ground (arith, v.own_value, v.nothing_sent);
  own_mark = ground (arith, v.own_mark, v.nothing_sent);
  own_copies = ground (arith, v.own_copies, v.nothing_sent);
  home_requests = ground (arith, v.home_requests, v.nothing_sent);
  home_copies = ground (arith, v.home_copies, v.nothing_sent);
  sends = λ e. ground (arith, v.sends, v.nothing_sent);
  nothing_sent = λ e. ground (arith, v.nothing_sent e, v.nothing_sent);
  sent = λ e. ground (arith, v.sent e, v.nothing_sent);
  source = λ k e. ground (arith, v.source k, v.nothing_sent);
}

pub put_remote-IsSingle :
    (home putter content : ℕ) (s : System) (q : s.put_pc ≡ before_remote)
    → IsSingle home putter s
    → IsSingle home putter (record s { copy_home = some (s.datum putter); put_pc = done })
unfolding ddf_put ddf_put_home copy_datum_from_private_to_global_address dddf_register_callback
    ddf_put_callback
put_remote-IsSingle home putter content s q v = record {
  sound = ground (arith, v.sound);
  asked = λ i ih ip. ground (arith, v.asked i ih ip);
  same = λ i ip. ground (arith, v.same i ip);
  own_value = ground (arith, v.own_value);
  own_mark = ground (arith, v.own_mark);
  own_copies = ground (arith, v.own_copies);
  home_requests = ground (arith, v.home_requests);
  home_copies = ground (arith, v.home_copies);
  sends = λ e. ground (arith, v.sends);
  nothing_sent = λ e. ground (arith, v.nothing_sent e);
  sent = λ e. ground (arith, v.sent e);
  source = λ k e. ground (arith, v.source k);
}

pub arrive_home-IsSingle :
    (home putter content : ℕ) (s : System) (d : ℕ) (q : s.copy_home ≡ some d)
    → IsSingle home putter s
    → IsSingle home putter
        (ddf_put_home home putter (record s { datum = update s.datum home d; copy_home = none }))
unfolding ddf_put ddf_put_home copy_datum_from_private_to_global_address dddf_register_callback
    ddf_put_callback
arrive_home-IsSingle home putter content s d q v = record {
  sound = ground (
    arith,
    v.sound,
    v.same home (λ e. sent_from v q (sym e)),
    v.sent (sent_from v q),
    sent_from v q,
  );
  asked = λ i ih ip. ground (
    arith,
    v.asked i ih ip,
    v.same home (λ e. sent_from v q (sym e)),
    v.sent (sent_from v q),
    sent_from v q,
  );
  same = λ i ip. ground (
    arith,
    v.same i ip,
    v.same home (λ e. sent_from v q (sym e)),
    v.sent (sent_from v q),
    sent_from v q,
  );
  own_value = ground (
    arith,
    v.own_value,
    v.same home (λ e. sent_from v q (sym e)),
    v.sent (sent_from v q),
    sent_from v q,
  );
  own_mark = ground (
    arith,
    v.own_mark,
    v.same home (λ e. sent_from v q (sym e)),
    v.sent (sent_from v q),
    sent_from v q,
  );
  own_copies = ground (
    arith,
    v.own_copies,
    v.same home (λ e. sent_from v q (sym e)),
    v.sent (sent_from v q),
    sent_from v q,
  );
  home_requests = ground (
    arith,
    v.home_requests,
    v.same home (λ e. sent_from v q (sym e)),
    v.sent (sent_from v q),
    sent_from v q,
  );
  home_copies = ground (
    arith,
    v.home_copies,
    v.same home (λ e. sent_from v q (sym e)),
    v.sent (sent_from v q),
    sent_from v q,
  );
  sends = λ e. ground (
    arith,
    v.sends,
    v.same home (λ e. sent_from v q (sym e)),
    v.sent (sent_from v q),
    sent_from v q,
  );
  nothing_sent = λ e. ground (
    arith,
    v.nothing_sent e,
    v.same home (λ e. sent_from v q (sym e)),
    v.sent (sent_from v q),
    sent_from v q,
  );
  sent = λ e. ground (
    arith,
    v.sent e,
    v.same home (λ e. sent_from v q (sym e)),
    v.sent (sent_from v q),
    sent_from v q,
  );
  source = λ k e. ground (
    arith,
    v.source k,
    v.same home (λ e. sent_from v q (sym e)),
    v.sent (sent_from v q),
    sent_from v q,
  );
}
