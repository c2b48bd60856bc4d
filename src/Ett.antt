-- ===== src/Ett.antt =====
-- probe_ett.c, the estimation of a link's rate from the delays that a neighbour measured.
pub mod Delays
pub mod Range
pub mod Rate
use aodv_android.Base.{
  ℕ, zero, suc, ◌+◌, ◌-◌, ◌*◌, ◌/◌, ◌%◌, ◌^◌, Bool, true, false, Option, none, some, List, [], ◌∷◌,
  if◌then◌else◌, ◌==◌, leb, ltb,
}
use aodv_android.Params.{
  u16, u32, ett_range, probe_packet_size, default_ett_metric, ett_probes_min, ett_fast_interval,
}
use aodv_android.Neighs.{Ett, no_delays}

-- The inner loop of delay_vector_add: the entries from this place to the place `count` move up by
-- one, and the last of them is lost.
unfoldable pub shift_in : (count delay : ℕ) → List ℕ → List ℕ
shift_in count delay [] = []
shift_in zero delay (x ∷ xs) = delay ∷ xs
shift_in (suc count) delay (x ∷ xs) = delay ∷ shift_in count x xs

-- The outer loop; `count` is what is left of the counter of the probes.
unfoldable pub add_delay : (count delay : ℕ) → List ℕ → List ℕ
unfolding shift_in
add_delay count delay [] = []
add_delay zero delay (x ∷ xs) = if ltb delay x then shift_in zero delay (x ∷ xs) else x ∷ xs
add_delay (suc count) delay (x ∷ xs) =
    let rest = add_delay count delay xs in
    if ltb delay x then shift_in (suc count) delay (x ∷ xs) else x ∷ rest

unfoldable pub delay_vector_add : (delay : ℕ) → Ett → Ett
unfolding add_delay
delay_vector_add delay e = record e { recv_delays = add_delay e.count_rcv delay e.recv_delays }

-- `difference <= ETT_RANGE`, of an unsigned difference.
unfoldable pub in_range : (delay d : ℕ) → Bool
in_range delay d = leb (u32 (d + 2 ^ 32 - delay)) ett_range

-- The entries of the vector behind `pos`, up to the window.
unfoldable pub find_delay_range : (delay : ℕ) → List ℕ → ℕ
unfolding in_range
find_delay_range delay [] = 0
find_delay_range delay (d ∷ ds) =
    let rest = find_delay_range delay ds in if in_range delay d then suc rest else 0

-- The first loop of compute_delay: `max_count`, and the vector from `max_pos` on.
unfoldable pub widest_range : (max_count : ℕ) (at_max : List ℕ) → List ℕ → ℕ × List ℕ
unfolding find_delay_range
widest_range max_count at_max [] = (max_count, at_max)
widest_range max_count at_max (d ∷ ds) =
    if ltb max_count (find_delay_range d ds)
    then widest_range (find_delay_range d ds) (d ∷ ds) ds
    else widest_range max_count at_max ds

-- The second loop, over this many entries; the sum is taken in 32 bits.
unfoldable pub sum_delays : (entries fin_delay : ℕ) → List ℕ → ℕ
sum_delays zero fin_delay ds = fin_delay
sum_delays (suc k) fin_delay [] = fin_delay
sum_delays (suc k) fin_delay (d ∷ ds) = sum_delays k (u32 (d + fin_delay)) ds

unfoldable pub take : ℕ → List ℕ → List ℕ
take zero ds = []
take (suc k) [] = []
take (suc k) (d ∷ ds) = d ∷ take k ds

abbrev pub mean_delay : ℕ × List ℕ → ℕ
mean_delay (count, ds) = if ltb count 2 then 0 else sum_delays (count + 1) 0 ds / (count + 1)

abbrev pub window : Ett → List ℕ
window e = take e.ett_window e.recv_delays

unfoldable pub compute_delay : Ett → ℕ
unfolding widest_range sum_delays take
compute_delay e = mean_delay (widest_range 0 (window e) (window e))

abbrev pub clear_delays : Ett → Ett
clear_delays e = record e { recv_delays = no_delays }

abbrev pub has_estimation : ℕ × List ℕ → Bool
has_estimation (count, ds) = leb 2 count

-- The vector after compute_delay: with an estimation it starts again.
unfoldable pub delays_after : Ett → Ett
unfolding widest_range take
delays_after e = if has_estimation (widest_range 0 (window e) (window e)) then clear_delays e else e

unfoldable pub rate_of : (bps : ℕ) → ℕ
rate_of bps =
    if ltb bps 38
    then 60
    else (if ltb bps 53
        then 90
        else (if ltb bps 78
            then 120
            else (if ltb bps 105
                then 180
                else (if ltb bps 150
                    then 240
                    else (if ltb bps 210 then 360 else (if ltb bps 255 then 480 else 540))))))

-- `none` is a division by zero: the delay is cut to 16 bits.
unfoldable pub compute_rate : (estimation : ℕ) → Option ℕ
unfolding rate_of
compute_rate estimation =
    if u16 estimation == 0 then none else some (rate_of (u16 (probe_packet_size / u16 estimation)))

-- The fields that reset_ett writes.
unfoldable pub reset_fields : Ett → Ett
reset_fields e = record {
  count_rcv = 0;
  last_count = 0;
  ett_window = ett_probes_min + 1;
  sec = 0;
  usec = 0;
  meas_delay = default_ett_metric;
  recv_delays = no_delays;
  reset = false;
  interval = ett_fast_interval;
  fixed_rate = false;
}

-- A new round of measurements.
abbrev pub new_round : (reset : Bool) → Ett → Ett
new_round reset e = record e {
  recv_delays = no_delays;
  count_rcv = 0;
  ett_window = ett_probes_min;
  reset = reset;
}

-- The delay of recv_lprobe between the packets of a pair. Where the second has changed, the seconds
-- of the first packet are subtracted, not its microseconds.
unfoldable pub pair_delay : (sec usec : ℕ) → Ett → ℕ
pair_delay sec usec e =
    if u32 (sec + 2 ^ 64 - e.sec) == 0
    then u32 (usec + 2 ^ 64 - e.usec)
    else (if u32 (sec + 2 ^ 64 - e.sec) == 1
        then u32 (1000000 + usec + 2 ^ 64 - e.sec)
        else default_ett_metric)
