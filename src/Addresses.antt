-- ===== src/Addresses.antt =====
-- utils.c: addresses, masks and sequence numbers.
pub mod Masks
pub mod Numbers
pub mod Text
use Prim.Native.Nat.{bit_and}
use aodv_android.Base.{
  ℕ, zero, suc, ◌+◌, ◌-◌, ◌*◌, ◌/◌, ◌%◌, ◌^◌, Bool, Option, none, some, if◌then◌else◌, ◌==◌, leb,
  ltb, List, [], ◌∷◌, true, false, ◌||◌,
}
use aodv_android.Params.{u32, u64}

unfoldable pub is_internal : (mesh_ip netmask dest_ip : ℕ) → Bool
is_internal mesh_ip netmask dest_ip = bit_and mesh_ip netmask == bit_and dest_ip netmask

-- `mesh_ip` and `netmask` are those of the device.
unfoldable aodv_subnet_test : (mesh_ip netmask tmp_ip : ℕ) → Bool
aodv_subnet_test mesh_ip netmask tmp_ip = bit_and mesh_ip netmask == bit_and netmask tmp_ip

-- getcurrtime, of the time that do_gettimeofday gives.
unfoldable pub getcurrtime : (tv_sec tv_usec : ℕ) → ℕ
getcurrtime tv_sec tv_usec = u64 (tv_sec * 1000 + tv_usec / 1000)

-- The loop of calculate_netmask.
unfoldable pub ones : (rounds final : ℕ) → ℕ
ones zero final = final
ones (suc k) final = ones k (u32 (u32 (final + 1) * 2))

-- For `t` up to 32.
unfoldable pub calculate_netmask : (t : ℕ) → ℕ
unfolding ones
calculate_netmask t = 2 ^ 32 - 1 - u32 (ones (32 - t) 0 + 1)

-- The loop of calculate_prefix on fuel; `none` is fuel that ran out.
unfoldable pub shift_out : (fuel t i : ℕ) → Option ℕ
shift_out zero t i = none
shift_out (suc fuel) t i =
    let rest = shift_out fuel (u32 (t * 2)) (i + 1) in if t == 0 then some i else rest

-- One round for each bit, and one to see the zero.
unfoldable pub calculate_prefix : (t : ℕ) → Option ℕ
unfolding shift_out
calculate_prefix t = shift_out 33 t 1

-- The 32-bit difference as an `int` is positive, or negative.
abbrev pub is_positive : ℕ → Bool
is_positive d = if d == 0 then false else ltb d (2 ^ 31)

abbrev pub is_negative : ℕ → Bool
is_negative d = leb (2 ^ 31) d

unfoldable pub seq_less_or_equal : (seq_one seq_two : ℕ) → Bool
seq_less_or_equal seq_one seq_two =
    if is_positive (u32 (seq_one + 2 ^ 32 - seq_two)) then false else true

unfoldable pub seq_greater : (seq_one seq_two : ℕ) → Bool
seq_greater seq_one seq_two = if is_negative (u32 (seq_one + 2 ^ 32 - seq_two)) then false else true

-- The results 1, 0 and -1.
pub data Comparison : Type 0 where
  above equal below : Comparison

unfoldable pub char_compar : (tos1 tos2 : ℕ) → Comparison
char_compar tos1 tos2 =
    if ltb tos2 tos1
    then Comparison.above
    else (if tos1 == tos2 then Comparison.equal else Comparison.below)

abbrev pub nominal_rates : List ℕ
nominal_rates = 10 ∷ 20 ∷ 55 ∷ 110 ∷ 60 ∷ 90 ∷ 120 ∷ 180 ∷ 240 ∷ 360 ∷ 480 ∷ 540 ∷ []

unfoldable pub is_rate : ℕ → List ℕ → Bool
is_rate rate [] = false
is_rate rate (r ∷ rs) = rate == r || is_rate rate rs

unfoldable pub get_nominalrate : (rate : ℕ) → ℕ
unfolding is_rate
get_nominalrate rate = if is_rate rate nominal_rates then rate else 0
