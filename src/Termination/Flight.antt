-- ===== src/Termination/Flight.antt =====
-- src/hcupc_spmd.cpp and src/hcupc_spmd_distWS_common.cpp: each task that has left a place stands in
-- the flight counter of that place until the place that received it has taken it off.
use habanero_upc.Prelude.{ℕ, ◌+◌, ◌≤◌, ◌<◌, ◌≡◌, ◌≢◌, refl, arith, update, ℕ_discrete}
use habanero_upc.Prelude.Counting.{total, total-update, total-same, total-single}
use habanero_upc.Termination.{
  System, Channel, set_channel, Pc, working, sending, scanning, counted, polling, terminated, Step,
  work, count, send, receive, settle, no_local, scan_zero, scan_some, cbarrier_inc, inc_term,
  inc_no_term, cbarrier_dec, cbarrier_test,
}

-- The sums over a row (one source) and a column (one destination) of the channels.
module _ (w : Channel → ℕ) (n : ℕ) (c : ℕ → ℕ → Channel) (q p : ℕ) (x : Channel) where
  row-set_channel : p < n → total w n (set_channel c q p x q) + w (c q p) ≡ total w n (c q) + w x
  row-set_channel h = ground (arith, total-update w n (c q) p x)

  row-set_channel_ne : (j : ℕ) → j ≢ q → total w n (set_channel c q p x j) ≡ total w n (c j)
  row-set_channel_ne j h = ground arith

  column-set_channel :
      q < n → total w n (λ j. set_channel c q p x j p) + w (c q p) ≡ total w n (λ j. c j p) + w x
  column-set_channel h = omega (
    arith,
    total-update w n (λ j. c j p) q x h,
    total-same w n (λ j. set_channel c q p x j p) (update (λ j. c j p) q x) (λ i lt. ground arith),
  )

  column-set_channel_ne :
      (k : ℕ) → k ≢ p → total w n (λ j. set_channel c q p x j k) ≡ total w n (λ j. c j k)
  column-set_channel_ne k h =
      total-same w n (λ j. set_channel c q p x j k) (λ j. c j k) (λ i lt. ground arith)

abbrev pub in_flight : Channel → ℕ
in_flight c = c.moving + c.arrived

abbrev pub arrivals : Channel → ℕ
arrivals c = c.arrived

-- Counted, and not yet sent.
abbrev in_hand : Pc → ℕ
in_hand (sending _) = 1
in_hand _ = 0

pub record Sent (n : ℕ) (pc : ℕ → Pc) (asyncs : ℕ → ℕ) (c : ℕ → ℕ → Channel) : Type 0 where
  pub place : (i : ℕ) → i < n → asyncs i ≡ total in_flight n (c i) + in_hand (pc i)

pub record Got (n : ℕ) (received : ℕ → ℕ) (c : ℕ → ℕ → Channel) : Type 0 where
  pub place : (i : ℕ) → i < n → received i ≡ total arrivals n (λ j. c j i)

pub record IsAccounted (n : ℕ) (s : System) : Type 0 where
  pub sent : Sent n s.pc s.asyncs_in_flight s.channel
  pub got : Got n s.tasks_received s.channel

moved-Sent :
    {n : ℕ} {pc : ℕ → Pc} {asyncs : ℕ → ℕ} {c : ℕ → ℕ → Channel} (i : ℕ) (p : Pc)
    → Sent n pc asyncs c
    → in_hand (pc i) ≡ in_hand p
    → Sent n (update pc i p) asyncs c
moved-Sent i p v e = record { place = λ j lt. ground (arith, v.place j lt) }

count-Sent :
    {n : ℕ} {pc : ℕ → Pc} {asyncs : ℕ → ℕ} {c : ℕ → ℕ → Channel} (i k : ℕ)
    → Sent n pc asyncs c
    → in_hand (pc i) ≡ 0
    → Sent n (update pc i (sending k)) (update asyncs i (asyncs i + 1)) c
count-Sent i k v e = record { place = λ j lt. ground (arith, v.place j lt) }

channel-Sent :
    {n : ℕ} {pc pc' : ℕ → Pc} {asyncs asyncs' : ℕ → ℕ} {c : ℕ → ℕ → Channel} (q p : ℕ) (x : Channel)
    → q < n
    → p < n
    → Sent n pc asyncs c
    → ((j : ℕ) → j ≢ q → (asyncs' j ≡ asyncs j) × (in_hand (pc' j) ≡ in_hand (pc j)))
    → asyncs' q + in_flight (c q p) + in_hand (pc q) ≡ asyncs q + in_flight x + in_hand (pc' q)
    → Sent n pc' asyncs' (set_channel c q p x)
channel-Sent {n} {c = c} q p x lq lp v other e = record {
  place = λ j lt. elim (ℕ_discrete j q) [
    | yes same ↦ rw same (omega (arith, v.place q lq, row-set_channel in_flight n c q p x lp, e))
    | no ne ↦ omega (arith, v.place j lt, other j ne, row-set_channel_ne in_flight n c q p x j ne)
  ];
}

channel-Got :
    {n : ℕ} {received received' : ℕ → ℕ} {c : ℕ → ℕ → Channel} (q p : ℕ) (x : Channel)
    → q < n
    → p < n
    → Got n received c
    → ((j : ℕ) → j ≢ p → received' j ≡ received j)
    → received' p + (c q p).arrived ≡ received p + x.arrived
    → Got n received' (set_channel c q p x)
channel-Got {n} {c = c} q p x lq lp v other e = record {
  place = λ j lt. elim (ℕ_discrete j p) [
    | yes same ↦ rw same (omega (arith, v.place p lp, column-set_channel arrivals n c q p x lq, e))
    | no ne ↦ omega (arith, v.place j lt, other j ne, column-set_channel_ne arrivals n c q p x j ne)
  ];
}

-- What arrived over one channel is part of both counters.
pub arrived-le :
    {n : ℕ} {s : System}
    → IsAccounted n s
    → (q p : ℕ) → q < n
    → p < n
    → ((s.channel q p).arrived ≤ s.tasks_received p)
      × ((s.channel q p).moving + (s.channel q p).arrived ≤ s.asyncs_in_flight q)
arrived-le {n} {s} v q p lq lp = (
  omega (arith, v.got.place p lp, total-single arrivals n (λ j. s.channel j p) q lq),
  omega (arith, v.sent.place q lq, total-single in_flight n (s.channel q) p lp),
)

pub Step-IsAccounted : {n : ℕ} {s t : System} → Step n s t → IsAccounted n s → IsAccounted n t
Step-IsAccounted (work i k lt h) v = record { sent = v.sent; got = v.got }
Step-IsAccounted (count i j lt lj q h) v = record {
  sent = count-Sent i j v.sent (ground arith);
  got = v.got;
}
Step-IsAccounted {n} {s} (send i j lt lj q) v = record {
  sent = channel-Sent i j _ lt lj v.sent (λ k ne. ground arith) (ground arith);
  got = channel-Got i j _ lt lj v.got (λ k ne. refl) (omega arith);
}
Step-IsAccounted {n} {s} (receive i j lt lj q h) v = record {
  sent = channel-Sent j i _ lj lt v.sent (λ k ne. (refl, refl)) (omega arith);
  got = channel-Got j i _ lj lt v.got (λ k ne. ground arith) (ground arith);
}
Step-IsAccounted {n} {s} (settle i j lt lj q) v = record {
  sent =
      channel-Sent j i _ lj lt v.sent (λ k ne. ground arith)
        (ground (arith, arrived-le v j i lj lt));
  got =
      channel-Got j i _ lj lt v.got (λ k ne. ground arith) (ground (arith, arrived-le v j i lj lt));
}
Step-IsAccounted (no_local i lt q h) v = record {
  sent = moved-Sent i (scanning 0) v.sent (ground arith);
  got = v.got;
}
Step-IsAccounted (scan_zero i k lt q lk h) v = record {
  sent = moved-Sent i (scanning (k + 1)) v.sent (ground arith);
  got = v.got;
}
Step-IsAccounted (scan_some i k lt q lk h) v = record {
  sent = moved-Sent i working v.sent (ground arith);
  got = v.got;
}
Step-IsAccounted (cbarrier_inc i lt q) v = record {
  sent = moved-Sent i counted v.sent (ground arith);
  got = v.got;
}
Step-IsAccounted (inc_term i lt q e) v = record {
  sent = moved-Sent i terminated v.sent (ground arith);
  got = v.got;
}
Step-IsAccounted (inc_no_term i lt q h) v = record {
  sent = moved-Sent i polling v.sent (ground arith);
  got = v.got;
}
Step-IsAccounted (cbarrier_dec i lt q h) v = record {
  sent = moved-Sent i working v.sent (ground arith);
  got = v.got;
}
Step-IsAccounted (cbarrier_test i lt q e) v = record {
  sent = moved-Sent i terminated v.sent (ground arith);
  got = v.got;
}
