-- ===== src/Tests/Radio.antt =====
-- The theorems about hellos and probes at concrete values.
use aodv_android.Base.{
  ◌≡◌, false, ◌≤◌, refl, [], ◌∷◌, ◌++◌, arith, IsSorted, insert_ordered, replicate, count,
}
use aodv_android.Params.{default_ett_metric}
use aodv_android.Neighs.{Ett}
use aodv_android.Ett.{delay_vector_add, compute_delay, window}
use aodv_android.Ett.Delays.{itself, capped, delay_vector_add-ordered}
use aodv_android.Ett.Range.{near, compute_delay-near}
use aodv_android.Etx.{update_neightx}
use aodv_android.Etx.Slots.{Outcome, update_neightx-Outcome}

abbrev measuring : Ett
measuring = record {
  count_rcv = 3;
  last_count = 7;
  ett_window = 4;
  sec = 0;
  usec = 0;
  meas_delay = 420;
  recv_delays = 400 ∷ 430 ∷ 440 ∷ 900 ∷ replicate 6 default_ett_metric;
  reset = false;
  interval = 20000;
  fixed_rate = false;
}

abbrev three_delays : Ett
three_delays = record measuring {
  recv_delays = (400 ∷ 430 ∷ 440 ∷ []) ++ replicate 7 default_ett_metric;
}

delay_vector_add-ordered_example :
    ((delay_vector_add 410 three_delays).recv_delays
      ≡ insert_ordered itself (capped 410) (400 ∷ 430 ∷ 440 ∷ []) ++ replicate 6 default_ett_metric)
    × IsSorted itself (insert_ordered itself (capped 410) (400 ∷ 430 ∷ 440 ∷ []))
delay_vector_add-ordered_example =
    delay_vector_add-ordered three_delays 410 (400 ∷ 430 ∷ 440 ∷ []) 6 refl refl (omega arith)
      (omega arith)

compute_delay-near_example : 3 ≤ count (near (compute_delay measuring)) (window measuring)
unfolding compute_delay
compute_delay-near_example =
    compute_delay-near measuring (omega arith) (omega arith) (omega arith) (omega arith)

update_neightx-Outcome_example : Outcome 9 (4 ∷ 0 ∷ 7 ∷ []) (update_neightx 9 (4 ∷ 0 ∷ 7 ∷ []))
update_neightx-Outcome_example = update_neightx-Outcome 9 (4 ∷ 0 ∷ 7 ∷ []) (omega arith)
