-- ===== src/Ett/Rate.antt =====
-- The rate of an estimation: its range, and that a longer delay never gives a faster rate.
use aodv_android.Base.{ℕ, ◌/◌, ◌%◌, ◌^◌, ◌≡◌, ◌≤◌, ◌<◌, ◌↔◌, none, some, arith}
use native.Mathlib.Nat.{le-div_iff_mul-le, div-mul-le_self}
use aodv_android.Params.{probe_packet_size}
use aodv_android.Ett.{compute_rate, rate_of}

rate_of_mono : (a b : ℕ) → a ≤ b → (rate_of a ≤ rate_of b) × (60 ≤ rate_of a) × (rate_of b ≤ 540)
unfolding rate_of
rate_of_mono a b le = ground arith

quotient-le : (a b : ℕ) → 1 ≤ a → a ≤ b → probe_packet_size / b ≤ probe_packet_size / a
quotient-le a b pos le =
    (le-div_iff_mul-le {x = probe_packet_size / b} pos).1
      (grind (arith, div-mul-le_self probe_packet_size b))

rate_at : (a : ℕ) → 1 ≤ a → a < 2 ^ 16 → compute_rate a ≡ some (rate_of (probe_packet_size / a))
unfolding compute_rate
rate_at a pos lt = let small : probe_packet_size / a < 2 ^ 16 = grind arith in ground (arith, small)

positive : (a r : ℕ) → compute_rate a ≡ some r → 1 ≤ a
unfolding compute_rate
positive a r h = ground arith

-- For delays below 2^16, compute_rate gives a rate between 6 and 54 Mbps, and for a longer delay no
-- faster one.
compute_rate_mono :
    (a b ra rb : ℕ)
    → a ≤ b
    → b < 2 ^ 16
    → compute_rate a ≡ some ra
    → compute_rate b ≡ some rb
    → (rb ≤ ra) × (60 ≤ rb) × (ra ≤ 540)
compute_rate_mono a b ra rb le lt ha hb =
    let pos = positive a ra ha in
    let m = rate_of_mono (probe_packet_size / b) (probe_packet_size / a) (quotient-le a b pos le) in
    let at_a = rate_at a pos (omega arith) in
    let at_b = rate_at b (omega arith) lt in grind (arith, m, at_a, at_b, ha, hb)

-- compute_rate divides by zero exactly at the multiples of 2^16.
compute_rate_faults :
    (estimation : ℕ) → (compute_rate estimation ≡ none) ↔ (estimation % 2 ^ 16 ≡ 0)
unfolding compute_rate
compute_rate_faults estimation = ground arith
