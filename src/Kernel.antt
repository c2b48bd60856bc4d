-- ===== src/Kernel.antt =====
-- What the module takes from the Linux kernel: the wrap-around time tests of linux/jiffies.h and
-- the byte-order conversions of asm/byteorder.h, with their documented laws. The targets of the
-- Makefile and the README (i386, arm) have an `unsigned long` of 32 bits.
use aodv_android.Base.{ℕ, ◌+◌, ◌^◌, ◌<◌, ◌≡◌, ◌↔◌, Bool, true}
use aodv_android.Params.{u32}

pub record Kernel : Type 0 where
  pub time_before : ℕ → ℕ → Bool
  pub time_after : ℕ → ℕ → Bool
  pub htonl : ℕ → ℕ
  pub ntohl : ℕ → ℕ
  pub htons : ℕ → ℕ
  pub ntohs : ℕ → ℕ
  -- The tests are right for times less than half the range apart, also where the counter wraps.
  pub time_before_iff :
      (a b : ℕ) → a < b + 2 ^ 31 → b < a + 2 ^ 31 → (time_before (u32 a) (u32 b) ≡ true) ↔ (a < b)
  pub time_after_iff :
      (a b : ℕ) → a < b + 2 ^ 31 → b < a + 2 ^ 31 → (time_after (u32 a) (u32 b) ≡ true) ↔ (b < a)
  pub ntohl-htonl : (x : ℕ) → x < 2 ^ 32 → ntohl (htonl x) ≡ x
  pub ntohs-htons : (x : ℕ) → x < 2 ^ 16 → ntohs (htons x) ≡ x
  pub htonl-ntohl : (x : ℕ) → x < 2 ^ 32 → htonl (ntohl x) ≡ x
  pub htonl-lt : (x : ℕ) → x < 2 ^ 32 → htonl x < 2 ^ 32
  pub ntohl-lt : (x : ℕ) → x < 2 ^ 32 → ntohl x < 2 ^ 32

module _ ⦃k : Kernel⦄ where
  -- `time_before((unsigned long) a, (unsigned long) b)`.
  abbrev pub before : ℕ → ℕ → Bool
  before a b = k.time_before (u32 a) (u32 b)

  abbrev pub after : ℕ → ℕ → Bool
  after a b = k.time_after (u32 a) (u32 b)

  abbrev pub to_network : ℕ → ℕ
  to_network x = k.htonl x

  abbrev pub to_host : ℕ → ℕ
  to_host x = k.ntohl x
