-- ===== src/Tests/Tables.antt =====
-- The theorems about sources, neighbours, traffic classes and metrics at concrete values.
use aodv_android.Base.{
  ◌^◌, ℕ, ◌+◌, ◌-◌, ◌*◌, ◌/◌, ◌≤◌, ◌<◌, ◌≡◌, ◌≢◌, ◌↔◌, refl, ◌⊎◌, false, none, some, List, [], ◌∷◌,
  arith, if◌then◌else◌, ◌==◌,
}
use aodv_android.Params.{max_route_tables}
use aodv_android.SrcList.{SrcEntry, find_first_rttable}
use aodv_android.SrcList.Tables.{Used, Free, find_first_rttable-least}
use aodv_android.Neighs.{
  Neigh2h, neigh_2h_ip, new_neigh_2h, find_neigh, insert_neigh, delete_neigh, is_duplicate, Neigh,
  new_neigh,
}
use aodv_android.Neighs.Search.{Ascends, find-insert_neigh, find-delete_neigh}
use aodv_android.Flows.{flow, init_flow_type_table, find_flow_type, compute_coef, compute_load}
use aodv_android.Flows.Coef.{compute_load-ne-none}
use aodv_android.Metric.{wcim_metric, link_bw, total_load}
use aodv_android.Metric.Bandwidth.{Admits, deficit, wcim_metric-Admits, wcim_metric-overload}

abbrev sources : List SrcEntry
sources =
    record { ip = 5; rt_table = 2; num_routes = 1 }
    ∷ record { ip = 6; rt_table = 1; num_routes = 1 }
    ∷ []

find_first_rttable_example :
    (((1 ≤ find_first_rttable sources)
        × (find_first_rttable sources ≤ max_route_tables)
        × Free (find_first_rttable sources) sources)
      ⊎ (find_first_rttable sources ≡ max_route_tables + 1))
    × ((u : ℕ) → 1 ≤ u → u < find_first_rttable sources → Used u sources)
find_first_rttable_example = find_first_rttable-least sources

abbrev two_hops : List Neigh2h
two_hops = new_neigh_2h 0 3 ∷ new_neigh_2h 0 8 ∷ []

find-insert_neigh_example :
    (is_duplicate neigh_2h_ip 5 two_hops ≡ false)
    × Ascends neigh_2h_ip 0 (insert_neigh neigh_2h_ip (new_neigh_2h 0 5) two_hops)
    × ((ip : ℕ)
        → find_neigh neigh_2h_ip ip (insert_neigh neigh_2h_ip (new_neigh_2h 0 5) two_hops)
          ≡ (if 5 == ip then some (new_neigh_2h 0 5) else find_neigh neigh_2h_ip ip two_hops))
unfolding new_neigh_2h find_neigh
find-insert_neigh_example =
    find-insert_neigh neigh_2h_ip (new_neigh_2h 0 5) two_hops (omega arith) refl

find-delete_neigh_example :
    Ascends neigh_2h_ip 0 (delete_neigh neigh_2h_ip 8 two_hops)
    × ((j : ℕ)
        → find_neigh neigh_2h_ip j (delete_neigh neigh_2h_ip 8 two_hops)
          ≡ (if j == 8 then none else find_neigh neigh_2h_ip j two_hops))
unfolding new_neigh_2h
find-delete_neigh_example = find-delete_neigh neigh_2h_ip 8 two_hops (omega arith)

compute_load-ne-none_example :
    (1 ≤ compute_coef 972 240)
    × (compute_coef 972 240 ≤ 100)
    × (compute_load 240 0x14 init_flow_type_table ≢ none)
unfolding find_flow_type init_flow_type_table
compute_load-ne-none_example =
    compute_load-ne-none 240 0x14 (flow 0x14 300 972) (omega arith) (omega arith) refl

abbrev link : ℕ → Neigh
link load = record (new_neigh 3 240) {
  recv_rate = 240;
  etx_metric = 90;
  load_seq = 1;
  load = load;
  neigh_tx = [];
}

wcim_metric-Admits_example :
    Admits (wcim_metric (link 10) init_flow_type_table (link 10 ∷ []) [] 20 0x14 0) ↔ (
      300
      < link_bw (link 10) (flow 0x14 300 972)
        * (100 - total_load (link 10) (link 10 ∷ []) [] 20)
        / 100)
unfolding find_flow_type init_flow_type_table total_load new_neigh
wcim_metric-Admits_example =
    wcim_metric-Admits (link 10) init_flow_type_table (link 10 ∷ []) [] 20 0x14 0 refl
      (flow 0x14 300 972) refl (omega arith)

wcim_metric-overload_example :
    Admits (wcim_metric (link 90) init_flow_type_table (link 90 ∷ []) [] 60 0x14 0) ↔ (
      (0 < deficit (link 90) (flow 0x14 300 972) (total_load (link 90) (link 90 ∷ []) [] 60))
      × (deficit (link 90) (flow 0x14 300 972) (total_load (link 90) (link 90 ∷ []) [] 60) + 300
          < 2 ^ 16))
unfolding find_flow_type init_flow_type_table total_load new_neigh
wcim_metric-overload_example =
    wcim_metric-overload (link 90) init_flow_type_table (link 90 ∷ []) [] 60 0x14 0 refl
      (flow 0x14 300 972) refl (omega arith)

-- With a load of 150 there is no bandwidth left, and the request is admitted.
overloaded : Admits (wcim_metric (link 90) init_flow_type_table (link 90 ∷ []) [] 60 0x14 0)
unfolding find_flow_type init_flow_type_table total_load link_bw compute_coef new_neigh
overloaded =
    (wcim_metric-overload (link 90) init_flow_type_table (link 90 ∷ []) [] 60 0x14 0 refl
        (flow 0x14 300 972) refl (omega arith)).1
      (omega arith, omega arith)
