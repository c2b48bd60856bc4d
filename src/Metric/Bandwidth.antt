-- ===== src/Metric/Bandwidth.antt =====
-- What wcim_metric makes of the load around a link.
use aodv_android.Base.{
  ℕ, ◌+◌, ◌-◌, ◌*◌, ◌/◌, ◌^◌, ◌%◌, ◌≤◌, ◌<◌, ◌≡◌, ◌↔◌, inl, inr, false, some, List, arith,
  Bool-cases, leb, ltb,
}
use aodv_android.Neighs.{Neigh, Neigh2h}
use aodv_android.Params.{u32}
use aodv_android.Flows.{Flow, find_flow_type, compute_coef}
use aodv_android.Metric.{
  Cost, too_high, fault, cost, unmeasured, wcim_metric, reduced_bw, link_bw, total_load, charge,
}

abbrev pub Admits : Cost → Type 0
Admits too_high = ⊥
Admits fault = ⊥
Admits (cost m) = Unit {0}

left_le : (bw load : ℕ) → load ≤ 100 → bw * (100 - load) / 100 ≤ bw
left_le bw load h = let part : bw * (100 - load) ≤ bw * 100 = grind arith in omega arith

reduced_bw-low :
    (bw load : ℕ) → bw < 2 ^ 16 → load ≤ 100 → reduced_bw bw load ≡ bw * (100 - load) / 100
unfolding reduced_bw
reduced_bw-low bw load b h = ground (arith, left_le bw load)

link_bw-lt : (n : Neigh) (f : Flow) → link_bw n f < 2 ^ 16
unfolding link_bw
link_bw-lt n f =
    elim (Bool-cases
      (ltb (u32 (n.recv_rate * n.etx_metric * compute_coef f.avg_size n.recv_rate)) (2 ^ 31))) [
        | inl small ↦ rw small (omega arith)
        | inr wraps ↦ rw wraps (omega arith)
      ]

-- What is missing of the link's bandwidth, in percent of the load above 100, as 16 bits hold it.
abbrev pub deficit : Neigh → Flow → (load : ℕ) → ℕ
deficit n f load = link_bw n f * (load - 100) / 100 % 2 ^ 16

reduced_bw-high :
    (bw load rate : ℕ)
    → 100 < load
    → (rate < reduced_bw bw load) ↔ (
        (0 < bw * (load - 100) / 100 % 2 ^ 16) × (bw * (load - 100) / 100 % 2 ^ 16 + rate < 2 ^ 16))
unfolding reduced_bw
reduced_bw-high bw load rate h =
    let over : leb load 100 ≡ false = ground arith in
    rw over (λ e. (omega arith, omega arith), λ (pos, small). omega arith)

charge-Admits : (f : Flow) (bw metric : ℕ) → Admits (charge f bw metric) ↔ (f.avg_rate < bw)
unfolding charge
charge-Admits f bw metric = elim (Bool-cases (leb bw f.avg_rate)) [
  | inl e ↦ rw e (λ h. absurd h, λ h. ground (arith, e))
  | inr e ↦ rw e (λ h. ground (arith, e), λ h. tt)
]

module _ (n : Neigh) (flows : List Flow) (neighs : List Neigh) (neighs_2h : List Neigh2h)
    (my_load tos metric : ℕ) (measured : unmeasured n ≡ false) where
  wcim-charge :
      (f : Flow)
      → find_flow_type tos flows ≡ some f
      → wcim_metric n flows neighs neighs_2h my_load tos metric
        ≡ charge f (reduced_bw (link_bw n f) (total_load n neighs neighs_2h my_load)) metric
  unfolding wcim_metric
  wcim-charge f e = rw (measured, e, wcim_metric)

  -- Over a measured link, for a ToS that has a flow type, and as long as the load around the link is
  -- at most 100, wcim_metric admits the request exactly when the part of the link's bandwidth that
  -- the load leaves exceeds the rate of the flow.
  pub wcim_metric-Admits :
      (f : Flow)
      → find_flow_type tos flows ≡ some f
      → total_load n neighs neighs_2h my_load ≤ 100
      → Admits (wcim_metric n flows neighs neighs_2h my_load tos metric)
        ↔ (f.avg_rate < link_bw n f * (100 - total_load n neighs neighs_2h my_load) / 100)
  wcim_metric-Admits f e h =
      rw (wcim-charge f e, reduced_bw-low (link_bw n f) _ (link_bw-lt n f) h)
        (charge-Admits f _ metric)

  -- Over a measured link, for a ToS that has a flow type, and where the load around the link exceeds
  -- 100, the bandwidth that is left is negative and wraps around: wcim_metric admits the request
  -- exactly when the deficit, cut to 16 bits, is not 0 and together with the rate of the flow below 65536.
  pub wcim_metric-overload :
      (f : Flow)
      → find_flow_type tos flows ≡ some f
      → 100 < total_load n neighs neighs_2h my_load
      → Admits (wcim_metric n flows neighs neighs_2h my_load tos metric) ↔ (
          (0 < deficit n f (total_load n neighs neighs_2h my_load))
          × (deficit n f (total_load n neighs neighs_2h my_load) + f.avg_rate < 2 ^ 16))
  wcim_metric-overload f e over =
      let admits =
        charge-Admits f (reduced_bw (link_bw n f) (total_load n neighs neighs_2h my_load)) metric in
      let wraps =
        reduced_bw-high (link_bw n f) (total_load n neighs neighs_2h my_load) f.avg_rate over in
      rw (wcim-charge f e) (λ a. wraps.0 (admits.0 a), λ d. admits.1 (wraps.1 d))
