-- ===== src/Addresses/Numbers.antt =====
-- The comparisons of sequence numbers, also where the counter wraps.
use aodv_android.Base.{ℕ, ◌+◌, ◌^◌, ◌≡◌, ◌≤◌, ◌<◌, ◌↔◌, true, arith}
use aodv_android.Params.{u32}
use aodv_android.Addresses.{seq_less_or_equal, seq_greater}

-- For sequence numbers less than half the range apart, cut to 32 bits, seq_less_or_equal is their
-- order, and seq_greater is the reverse order: it holds of equal numbers too.
seq_order :
    (a b : ℕ)
    → a < b + 2 ^ 31
    → b < a + 2 ^ 31
    → ((seq_less_or_equal (u32 a) (u32 b) ≡ true) ↔ (a ≤ b))
      × ((seq_greater (u32 a) (u32 b) ≡ true) ↔ (b ≤ a))
unfolding seq_less_or_equal seq_greater
seq_order a b h k = ((λ e. ground arith, λ e. ground arith), (λ e. ground arith, λ e. ground arith))
