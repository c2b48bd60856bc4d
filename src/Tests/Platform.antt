-- ===== src/Tests/Platform.antt =====
-- A kernel for the examples: the time tests of linux/jiffies.h on 32 bits, and the byte order of a
-- little-endian machine.
use aodv_android.Base.{ℕ, ◌+◌, ◌-◌, ◌*◌, ◌/◌, ◌%◌, ◌^◌, ◌<◌, ◌≡◌, ◌↔◌, Bool, true, arith, ltb}
use aodv_android.Params.{u32}
use aodv_android.Kernel.{Kernel}

abbrev pub swap32 : ℕ → ℕ
swap32 x =
    x % 2 ^ 8 * 2 ^ 24
    + x / 2 ^ 8 % 2 ^ 8 * 2 ^ 16
    + x / 2 ^ 16 % 2 ^ 8 * 2 ^ 8
    + x / 2 ^ 24 % 2 ^ 8

abbrev pub swap16 : ℕ → ℕ
swap16 x = x % 2 ^ 8 * 2 ^ 8 + x / 2 ^ 8 % 2 ^ 8

pub swap16-swap16 : (x : ℕ) → x < 2 ^ 16 → swap16 (swap16 x) ≡ x
swap16-swap16 x h = omega arith

abbrev pub is_before : ℕ → ℕ → Bool
is_before a b = ltb (2 ^ 31) ((a + (2 ^ 32 - b)) % 2 ^ 32)

pub is_before_iff :
    (a b : ℕ) → a < b + 2 ^ 31 → b < a + 2 ^ 31 → (is_before (u32 a) (u32 b) ≡ true) ↔ (a < b)
is_before_iff a b h k = (λ e. ground arith, λ e. ground arith)

pub swap32-swap32 : (x : ℕ) → x < 2 ^ 32 → swap32 (swap32 x) ≡ x
swap32-swap32 x h = omega arith

pub swap32-lt : (x : ℕ) → x < 2 ^ 32 → swap32 x < 2 ^ 32
swap32-lt x h = omega arith

instance abbrev pub platform : Kernel
platform = record {
  time_before = is_before;
  time_after = λ a b. is_before b a;
  htonl = swap32;
  ntohl = swap32;
  htons = swap16;
  ntohs = swap16;
  time_before_iff = is_before_iff;
  time_after_iff = λ a b h k. is_before_iff b a k h;
  ntohl-htonl = swap32-swap32;
  ntohs-htons = swap16-swap16;
  htonl-ntohl = swap32-swap32;
  htonl-lt = swap32-lt;
  ntohl-lt = swap32-lt;
}
