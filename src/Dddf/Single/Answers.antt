-- ===== src/Dddf/Single/Answers.antt =====
-- src/hcupc_spmd_dddf.cpp: the single-assignment rule, at the registrations and the answers.
use habanero_upc.Prelude.{
  ℕ, ◌+◌, ◌≡◌, ◌≢◌, [], ◌∷◌, arith, length-append, some, update, List, ◌-◌, ◌<◌,
}
use habanero_upc.Dddf.{
  System, ddf_put, ddf_put_home, copy_datum_from_private_to_global_address, dddf_register_callback,
  ddf_put_callback,
}
use habanero_upc.Dddf.Control.{IsSingle, sent_to, not_home, known}

pub register-IsSingle :
    (home putter content : ℕ) (s : System) (j : ℕ) (h : j ≢ home)
    → IsSingle home putter s
    → IsSingle home putter (dddf_register_callback j s)
unfolding ddf_put ddf_put_home copy_datum_from_private_to_global_address dddf_register_callback
    ddf_put_callback
register-IsSingle home putter content s j h v = record {
  sound = ground (arith, v.sound);
  asked = λ i ih ip. ground (arith, v.asked i ih ip);
  same = λ i ip. ground (arith, v.same i ip);
  own_value = ground (arith, v.own_value);
  own_mark = ground (arith, v.own_mark);
  own_copies = ground (arith, v.own_copies);
  home_requests = ground (arith, v.home_requests);
  home_copies = ground (arith, v.home_copies);
  sends = λ e. ground (arith, v.sends);
  nothing_sent = λ e. ground (arith, v.nothing_sent e);
  sent = λ e. ground (arith, v.sent e);
  source = λ k e. ground (arith, v.source k);
}

pub take_request-IsSingle :
    (home putter content : ℕ) (s : System) (j : ℕ) (h : 0 < s.requests j)
    → IsSingle home putter s
    → IsSingle home putter (record s {
      requests = update s.requests j (s.requests j - 1);
      awaiting = update s.awaiting j (s.awaiting j + 1);
    })
unfolding ddf_put ddf_put_home copy_datum_from_private_to_global_address dddf_register_callback
    ddf_put_callback
take_request-IsSingle home putter content s j h v = record {
  sound = ground (arith, v.sound);
  asked = λ i ih ip. ground (arith, v.asked i ih ip);
  same = λ i ip. ground (arith, v.same i ip);
  own_value = ground (arith, v.own_value);
  own_mark = ground (arith, v.own_mark);
  own_copies = ground (arith, v.own_copies);
  home_requests = ground (arith, v.home_requests);
  home_copies = ground (arith, v.home_copies);
  sends = λ e. ground (arith, v.sends);
  nothing_sent = λ e. ground (arith, v.nothing_sent e);
  sent = λ e. ground (arith, v.sent e);
  source = λ k e. ground (arith, v.source k);
}

pub answer-IsSingle :
    (home putter content : ℕ) (s : System) (j x : ℕ) (q : s.value home ≡ some x)
    (h : 0 < s.awaiting j)
    → IsSingle home putter s
    → IsSingle home putter
        (ddf_put_callback home j (record s { awaiting = update s.awaiting j (s.awaiting j - 1) }))
unfolding ddf_put ddf_put_home copy_datum_from_private_to_global_address dddf_register_callback
    ddf_put_callback
answer-IsSingle home putter content s j x q h v = record {
  sound = ground (arith, v.sound, not_home j v h, v.source j, known v q);
  asked = λ i ih ip. ground (
    arith,
    length-append (s.copies j) (s.datum home ∷ []),
    v.asked i ih ip,
    not_home j v h,
    v.source j,
    known v q,
  );
  same = λ i ip. ground (arith, v.same i ip, not_home j v h, v.source j, known v q);
  own_value = ground (arith, v.own_value, not_home j v h, v.source j, known v q);
  own_mark = ground (arith, v.own_mark, not_home j v h, v.source j, known v q);
  own_copies = ground (arith, v.own_copies, not_home j v h, v.source j, known v q);
  home_requests = ground (arith, v.home_requests, not_home j v h, v.source j, known v q);
  home_copies = ground (arith, v.home_copies, not_home j v h, v.source j, known v q);
  sends = λ e. ground (arith, v.sends, not_home j v h, v.source j, known v q);
  nothing_sent = λ e. ground (arith, v.nothing_sent e, not_home j v h, v.source j, known v q);
  sent = λ e. ground (arith, v.sent e, not_home j v h, v.source j, known v q);
  source = λ k e. ground (arith, v.source k, not_home j v h, v.source j, known v q);
}

pub arrive-IsSingle :
    (home putter content : ℕ) (s : System) (j d : ℕ) (ds : List ℕ) (q : s.copies j ≡ d ∷ ds)
    → IsSingle home putter s
    → IsSingle home putter (
        ddf_put_home j home
          (record s { datum = update s.datum j d; copies = update s.copies j ds }))
unfolding ddf_put ddf_put_home copy_datum_from_private_to_global_address dddf_register_callback
    ddf_put_callback
arrive-IsSingle home putter content s j d ds q v = record {
  sound = ground (
    arith,
    v.sound,
    sent_to j d ds v q,
    v.same j (sent_to j d ds v q).1,
    v.asked j (sent_to j d ds v q).0 (sent_to j d ds v q).1,
  );
  asked = λ i ih ip. ground (
    arith,
    v.asked i ih ip,
    sent_to j d ds v q,
    v.same j (sent_to j d ds v q).1,
    v.asked j (sent_to j d ds v q).0 (sent_to j d ds v q).1,
  );
  same = λ i ip. ground (
    arith,
    v.same i ip,
    sent_to j d ds v q,
    v.same j (sent_to j d ds v q).1,
    v.asked j (sent_to j d ds v q).0 (sent_to j d ds v q).1,
  );
  own_value = ground (
    arith,
    v.own_value,
    sent_to j d ds v q,
    v.same j (sent_to j d ds v q).1,
    v.asked j (sent_to j d ds v q).0 (sent_to j d ds v q).1,
  );
  own_mark = ground (
    arith,
    v.own_mark,
    sent_to j d ds v q,
    v.same j (sent_to j d ds v q).1,
    v.asked j (sent_to j d ds v q).0 (sent_to j d ds v q).1,
  );
  own_copies = ground (
    arith,
    v.own_copies,
    sent_to j d ds v q,
    v.same j (sent_to j d ds v q).1,
    v.asked j (sent_to j d ds v q).0 (sent_to j d ds v q).1,
  );
  home_requests = ground (
    arith,
    v.home_requests,
    sent_to j d ds v q,
    v.same j (sent_to j d ds v q).1,
    v.asked j (sent_to j d ds v q).0 (sent_to j d ds v q).1,
  );
  home_copies = ground (
    arith,
    v.home_copies,
    sent_to j d ds v q,
    v.same j (sent_to j d ds v q).1,
    v.asked j (sent_to j d ds v q).0 (sent_to j d ds v q).1,
  );
  sends = λ e. ground (
    arith,
    v.sends,
    sent_to j d ds v q,
    v.same j (sent_to j d ds v q).1,
    v.asked j (sent_to j d ds v q).0 (sent_to j d ds v q).1,
  );
  nothing_sent = λ e. ground (
    arith,
    v.nothing_sent e,
    sent_to j d ds v q,
    v.same j (sent_to j d ds v q).1,
    v.asked j (sent_to j d ds v q).0 (sent_to j d ds v q).1,
  );
  sent = λ e. ground (
    arith,
    v.sent e,
    sent_to j d ds v q,
    v.same j (sent_to j d ds v q).1,
    v.asked j (sent_to j d ds v q).0 (sent_to j d ds v q).1,
  );
  source = λ k e. ground (
    arith,
    v.source k,
    sent_to j d ds v q,
    v.same j (sent_to j d ds v q).1,
    v.asked j (sent_to j d ds v q).0 (sent_to j d ds v q).1,
  );
}
