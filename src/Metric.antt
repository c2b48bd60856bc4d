-- ===== src/Metric.antt =====
-- route_alg.c: the cost that a route request is charged for the link it came over.
pub mod Bandwidth
use aodv_android.Base.{
  ℕ, ◌+◌, ◌-◌, ◌*◌, ◌/◌, ◌%◌, ◌^◌, Bool, true, false, ◌||◌, ◌&&◌, not, Option, none, some, List, [],
  ◌∷◌, if◌then◌else◌, ◌==◌, leb, ltb,
}
use aodv_android.Params.{u8, u16, u32, probe_packet}
use aodv_android.Neighs.{Neigh, Neigh2h}
use aodv_android.Flows.{Flow, find_flow_type, compute_coef}

-- The answer 1, the new `path_metric` with the answer 0, or a read through NULL.
pub data Cost : Type 0 where
  too_high fault : Cost
  cost : ℕ → Cost

abbrev pub unmeasured : Neigh → Bool
unmeasured n = n.recv_rate == 0 || n.send_rate == 0 || n.etx_metric == 0

unfoldable pub ett_metric : Neigh → (path_metric : ℕ) → Cost
ett_metric n path_metric =
    if unmeasured n
    then too_high
    else cost (u32 (path_metric + probe_packet * 1000 / (n.recv_rate * n.etx_metric)))

-- Some slot of `neigh_tx` that is not zero holds the address.
unfoldable pub is_tx : (ip : ℕ) → List ℕ → Bool
is_tx ip [] = false
is_tx ip (t ∷ ts) = if not (t == 0) && t == ip then true else is_tx ip ts

-- The loop over the one-hop neighbours; the load is 8 bits wide.
unfoldable pub one_hop_load : Neigh → List Neigh → (load : ℕ) → ℕ
one_hop_load from [] load = load
one_hop_load from (n ∷ ns) load = one_hop_load from ns (
    if n.ip == from.ip
    then u8 (load + from.load)
    else u8 (load + n.load * (if is_tx n.ip from.neigh_tx then 1 else 2)))

-- The loop over the two-hop neighbours.
unfoldable pub two_hop_load : Neigh → List Neigh2h → (load : ℕ) → ℕ
two_hop_load from [] load = load
two_hop_load from (n ∷ ns) load =
    two_hop_load from ns (u8 (load + n.load * (if is_tx n.ip from.neigh_tx then 2 else 1) / 2))

-- `recv_bw = (recv_bw*(100-load))/100`: above a load of 100 the `int` is negative, its quotient is
-- cut towards zero, and the result is stored in 16 bits.
unfoldable pub reduced_bw : (recv_bw load : ℕ) → ℕ
reduced_bw recv_bw load =
    if leb load 100
    then u16 (recv_bw * (100 - load) / 100)
    else u16 (2 ^ 16 - u16 (recv_bw * (load - 100) / 100))

-- A hundredth of a product of `int`, which wraps at 32 bits, and whose quotient is cut towards zero,
-- in 16 bits.
abbrev pub hundredth : (product : ℕ) → ℕ
hundredth product =
    if ltb product (2 ^ 31)
    then u16 (product / 100)
    else u16 (2 ^ 16 - u16 ((2 ^ 32 - product) / 100))

-- The bandwidth of the link for a flow before the load is taken off.
unfoldable pub link_bw : Neigh → Flow → ℕ
link_bw n f = hundredth (u32 (n.recv_rate * n.etx_metric * compute_coef f.avg_size n.recv_rate))

unfoldable pub total_load : Neigh → List Neigh → List Neigh2h → (my_load : ℕ) → ℕ
unfolding one_hop_load two_hop_load
total_load n neighs neighs_2h my_load = two_hop_load n neighs_2h (one_hop_load n neighs my_load)

-- The tests behind the loops.
unfoldable pub charge : Flow → (recv_bw path_metric : ℕ) → Cost
charge f recv_bw path_metric =
    if leb recv_bw f.avg_rate
    then too_high
    else cost (u32 (path_metric + f.avg_size * 8000 / recv_bw))

-- Without a flow type `flow` is NULL when its size is read.
unfoldable pub wcim_metric :
    Neigh → List Flow → List Neigh → List Neigh2h → (my_load tos path_metric : ℕ) → Cost
unfolding charge reduced_bw link_bw total_load
wcim_metric n flows neighs neighs_2h my_load tos path_metric =
    if unmeasured n then too_high else (elim (find_flow_type tos flows) [
      | none ↦ fault
      | some f ↦
          charge f (reduced_bw (link_bw n f) (total_load n neighs neighs_2h my_load)) path_metric
    ])
