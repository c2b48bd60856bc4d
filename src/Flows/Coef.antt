-- ===== src/Flows/Coef.antt =====
-- Bounds of compute_coef, and when compute_load divides by zero.
use aodv_android.Base.{
  ℕ, zero, suc, ◌+◌, ◌*◌, ◌≤◌, ◌<◌, ◌≡◌, ◌≢◌, ◌⊎◌, refl, inl, inr, Bool, true, ◌&&◌, none, some,
  List, arith, leb,
}
use native.Mathlib.Numerals.{add-one}
use aodv_android.Flows.{
  Flow, init_flow_type_table, find_flow_type, compute_coef, compute_load, activity, flow_activity,
}

range_holds : ℕ → ℕ → Bool
unfolding compute_coef
range_holds size r = let c = compute_coef size (r + 1) in leb 1 c && leb c 100

-- The rates from 1 up to a bound.
rates_in_range : (size top : ℕ) → Bool
rates_in_range size zero = true
rates_in_range size (suc r) = rates_in_range size r && range_holds size r

rates_in_range_sound :
    (size top r : ℕ) → r < top → rates_in_range size top ≡ true → range_holds size r ≡ true
unfolding rates_in_range
rates_in_range_sound size zero r lt h = elim lt [ ]
rates_in_range_sound size (suc top) r lt h = ground (arith, rates_in_range_sound size top r)

table_172 : rates_in_range 172 540 ≡ true
unfolding rates_in_range range_holds
table_172 = refl

table_972 : rates_in_range 972 540 ≡ true
unfolding rates_in_range range_holds
table_972 = refl

table_1472 : rates_in_range 1472 540 ≡ true
unfolding rates_in_range range_holds
table_1472 = refl

in_range_bounds :
    (size r : ℕ)
    → range_holds size r ≡ true
    → (1 ≤ compute_coef size (r + 1)) × (compute_coef size (r + 1) ≤ 100)
unfolding range_holds
in_range_bounds size r h = ground arith

coef_of_table :
    (size rate : ℕ)
    → rates_in_range size 540 ≡ true
    → 0 < rate
    → rate ≤ 540
    → (1 ≤ compute_coef size rate) × (compute_coef size rate ≤ 100)
coef_of_table size zero h pos le = elim pos [ ]
coef_of_table size (suc r) h pos le =
    rw (← add-one r) (in_range_bounds size r (rates_in_range_sound size 540 r (omega arith) h))

sizes :
    (tos : ℕ) (f : Flow)
    → find_flow_type tos init_flow_type_table ≡ some f
    → (f.avg_size ≡ 1472) ⊎ (f.avg_size ≡ 972) ⊎ (f.avg_size ≡ 172)
unfolding find_flow_type init_flow_type_table
sizes tos f h = ground arith

pub load_none :
    (rate tos : ℕ) (flows : List Flow)
    → 0 < rate
    → find_flow_type tos flows ≡ none
    → compute_load rate tos flows ≡ none
unfolding compute_load activity compute_coef
load_none (suc r) tos flows pos e = rw (e, flow_activity) (ground arith)
load_none zero tos flows pos e = elim pos [ ]

load_some :
    (rate tos : ℕ) (f : Flow)
    → 0 < rate
    → 1 ≤ compute_coef f.avg_size rate
    → find_flow_type tos init_flow_type_table ≡ some f
    → compute_load rate tos init_flow_type_table ≢ none
unfolding compute_load activity
load_some zero tos f pos b e h = elim pos [ ]
load_some (suc r) tos f pos b e h =
    let some_load : 0 < suc r * compute_coef f.avg_size (suc r) = grind arith in ground (arith, e)

pub compute_coef-bounds :
    (rate tos : ℕ) (f : Flow)
    → 0 < rate
    → rate ≤ 540
    → find_flow_type tos init_flow_type_table ≡ some f
    → (1 ≤ compute_coef f.avg_size rate) × (compute_coef f.avg_size rate ≤ 100)
compute_coef-bounds rate tos f pos le e = elim (sizes tos f e) [
  | inl s ↦ rw s (coef_of_table 1472 rate table_1472 pos le)
  | inr (inl s) ↦ rw s (coef_of_table 972 rate table_972 pos le)
  | inr (inr s) ↦ rw s (coef_of_table 172 rate table_172 pos le)
]

-- For every link rate of aodv.h (up to RATE_54, in units of 100 kbps) and every ToS of the table that
-- init_flow_type_table builds, compute_coef lies between 1 and 100, and compute_load does not divide
-- by zero.
pub compute_load-ne-none :
    (rate tos : ℕ) (f : Flow)
    → 0 < rate
    → rate ≤ 540
    → find_flow_type tos init_flow_type_table ≡ some f
    → (1 ≤ compute_coef f.avg_size rate)
      × (compute_coef f.avg_size rate ≤ 100)
      × (compute_load rate tos init_flow_type_table ≢ none)
compute_load-ne-none rate tos f pos le e =
    let b = compute_coef-bounds rate tos f pos le e in (b.0, b.1, load_some rate tos f pos b.0 e)
