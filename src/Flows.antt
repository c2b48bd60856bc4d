-- ===== src/Flows.antt =====
-- tos.c and route_alg.c: the traffic classes by ToS, the efficiency of a link for one of them, and
-- compute_load of aodv_route.c.
pub mod Coef
use aodv_android.Base.{
  ℕ, zero, suc, ◌+◌, ◌-◌, ◌*◌, ◌/◌, ◌%◌, ◌^◌, Bool, true, false, ◌||◌, Option, none, some, List, [],
  ◌∷◌, if◌then◌else◌, ◌==◌, leb, first,
}
use aodv_android.Params.{u8, u16, u32, undefined_load}

pub record Flow : Type 0 where
  pub tos : ℕ
  pub avg_size : ℕ
  pub avg_rate : ℕ

abbrev pub flow : ℕ → ℕ → ℕ → Flow
flow tos rate size = record { tos = tos; avg_size = size; avg_rate = rate }

-- The switch of insert_flow_type, for an allocation that succeeds. Any other count leaves the table.
unfoldable pub insert_flow_type : ℕ → List Flow → List Flow
insert_flow_type zero table = flow 0x02 1000 1472 ∷ table
insert_flow_type (suc zero) table = flow 0x04 750 1472 ∷ table
insert_flow_type (suc (suc zero)) table = flow 0x08 500 1472 ∷ table
insert_flow_type (suc (suc (suc zero))) table = flow 0x10 250 1472 ∷ table
insert_flow_type (suc (suc (suc (suc zero)))) table = flow 0x0c 100 172 ∷ table
insert_flow_type (suc (suc (suc (suc (suc zero))))) table = flow 0x14 300 972 ∷ table
insert_flow_type (suc (suc (suc (suc (suc (suc zero)))))) table = flow 0x18 250 1472 ∷ table
insert_flow_type (suc (suc (suc (suc (suc (suc (suc zero))))))) table = flow 0x1c 500 1472 ∷ table
insert_flow_type (suc (suc (suc (suc (suc (suc (suc (suc _)))))))) table = table

-- `for (i=0; i<n; i++) insert_flow_type(i)`.
unfoldable pub insert_flow_types : ℕ → List Flow
unfolding insert_flow_type
insert_flow_types zero = []
insert_flow_types (suc n) = insert_flow_type n (insert_flow_types n)

-- NUM_TOS is 9.
unfoldable pub init_flow_type_table : List Flow
unfolding insert_flow_types
init_flow_type_table = insert_flow_types 9

unfoldable pub find_flow_type : (tos : ℕ) → List Flow → Option Flow
find_flow_type tos [] = none
find_flow_type tos (f ∷ fs) = if f.tos == tos then some f else find_flow_type tos fs

-- 32-bit arithmetic; the result is cut to 8 bits.
unfoldable pub compute_coef : (size rate : ℕ) → ℕ
compute_coef size rate =
    let nominal = u32 (size * 8000) in
    let gross = u32 (nominal + 470 * 1000) in
    let nominal_delay = nominal / rate in
    let delay = u32 (gross / rate + 122 * 100) in
    if size == 0 || rate == 0 then 0 else u8 (u32 (nominal_delay * 100) / delay)

-- `rate*100/(rate_link*coef)`, cut to 8 bits; `none` is a division by zero.
unfoldable pub activity : (rate_link rate size : ℕ) → Option ℕ
activity rate_link rate size =
    let divisor = rate_link * compute_coef size rate_link in
    if divisor == 0 then none else some (u8 (rate * 100 / divisor))

-- Without a flow type the rate and the size are zero.
abbrev pub flow_activity : (rate_link : ℕ) → Option Flow → Option ℕ
flow_activity rate_link none = activity rate_link 0 0
flow_activity rate_link (some f) = activity rate_link f.avg_rate f.avg_size

unfoldable pub compute_load : (rate_link tos : ℕ) → List Flow → Option ℕ
compute_load rate_link tos table =
    if rate_link == 0
    then some undefined_load
    else flow_activity rate_link (find_flow_type tos table)
