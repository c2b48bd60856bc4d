-- ===== src/Tests/Routes.antt =====
-- The theorems about routes at concrete tables.
use aodv_android.Base.{
  find_ordered, ℕ, ◌≡◌, refl, ◌⊎◌, inl, true, false, ◌&&◌, some, List, [], ◌∷◌, arith, IsSorted,
  first, ◌==◌, if◌then◌else◌,
}
use aodv_android.RouteTable.{
  Route, RouteState, dst_of, find_aodv_route, find_aodv_route_by_id, insert_aodv_route,
}
use aodv_android.RouteTable.Search.{matches, find_aodv_route-first, find-insert_aodv_route}
use aodv_android.Neighs.{new_neigh}
use aodv_android.Flows.{init_flow_type_table}
use aodv_android.Node.{Node, Cell}
use aodv_android.SrcList.{SrcEntry, find_src_list_entry}
use aodv_android.Routing.Start.{rreq_aodv_route-new}
use aodv_android.Routing.{rreq_aodv_route, supersedes}
use aodv_android.Routing.Accept.{Replaced, Installed, rreq_aodv_route-existing}

abbrev route : (addr src dst dst_id : ℕ) → Route
route addr src dst dst_id = record {
  addr = addr;
  netmask = 0;
  num_hops = 2;
  next_hop = 5;
  lifetime = 9000;
  last_hop = src;
  dst_ip = dst;
  src_ip = src;
  dst_id = dst_id;
  path_metric = 2;
  tos = 0;
  load = 0;
  neigh_route = false;
  self_route = false;
  state = RouteState.active;
  dev = 1;
}

abbrev table : List Route
table = route 64 1 1 4 ∷ route 80 1 3 7 ∷ route 96 2 3 9 ∷ []

find_aodv_route-first_example :
    (find_aodv_route 2 3 0 table ≡ first (matches 2 3 0) table)
    × (find_aodv_route_by_id 3 9 table ≡ first (λ r. r.dst_ip == 3 && r.dst_id == 9) table)
find_aodv_route-first_example = find_aodv_route-first 2 3 0 9 table (omega arith)

find-insert_aodv_route_example :
    IsSorted dst_of (insert_aodv_route (route 112 4 2 1) table)
    × (find_aodv_route 4 2 0 (insert_aodv_route (route 112 4 2 1) table) ≡ (
        if matches 4 2 0 (route 112 4 2 1)
        then some (route 112 4 2 1)
        else find_aodv_route 4 2 0 table))
find-insert_aodv_route_example = find-insert_aodv_route 4 2 0 (route 112 4 2 1) table (omega arith)

abbrev pub node : Node
node = record {
  mesh_ip = 1;
  null_ip = 0;
  netmask = 255;
  blacklist = [];
  dtn_blacklist = [];
  initialized = true;
  broadcast_ip = 255;
  dev_index = 1;
  routing_metric = 0;
  is_gateway = false;
  dtn_hello_ip = 127;
  fixed_rate = 60;
  local_route = 64;
  dtn_register = 0;
  longitude = 0;
  latitude = 0;
  routes = table;
  freed_route = false;
  srcs = [];
  links = [];
  gws = [];
  default_gw = 0;
  neighs = [];
  neighs_2h = [];
  flows = init_flow_type_table;
  timers = [];
  load = 0;
  load_seq = 1;
  now = 5000;
  memory = [];
  netlink = true ∷ [];
  hello_count = 0;
  count_send = 0;
  random = [];
  log = [];
}

rreq_aodv_route-existing_example :
    ((supersedes (new_neigh 5 60) 1 10 1 (route 96 2 3 9) ≡ true)
      × (rreq_aodv_route (new_neigh 5 60) 1 10 1 2 3 0 node ≡ some (false, node)))
    ⊎ ((supersedes (new_neigh 5 60) 1 10 1 (route 96 2 3 9) ≡ false)
        × Replaced
            (new_neigh 5 60)
            1
            10
            1
            2
            3
            0
            (route 96 2 3 9)
            node
            (rreq_aodv_route (new_neigh 5 60) 1 10 1 2 3 0 node))
unfolding find_aodv_route find_ordered
rreq_aodv_route-existing_example =
    rreq_aodv_route-existing (new_neigh 5 60) 1 10 1 2 3 0 (route 96 2 3 9) node (omega arith)
      ((refl, (refl, tt)), ((refl, tt), (tt, tt))) (inl refl) refl

abbrev source : SrcEntry
source = record { ip = 4; rt_table = 1; num_routes = 0 }

abbrev cell : Cell
cell = record { addr = 112; junk = 0 }

abbrev ready : Node
ready = record node { memory = some cell ∷ []; srcs = source ∷ [] }

rreq_aodv_route-new_example :
    Installed
      (new_neigh 5 60)
      1
      10
      1
      4
      2
      0
      ready
      (rreq_aodv_route (new_neigh 5 60) 1 10 1 4 2 0 ready)
unfolding find_aodv_route find_ordered find_src_list_entry
rreq_aodv_route-new_example =
    rreq_aodv_route-new (new_neigh 5 60) 1 10 1 4 2 0 cell [] source ready (omega arith)
      ((refl, (refl, tt)), ((refl, tt), (tt, tt))) refl (refl, (refl, (refl, tt))) refl (inl refl)
      refl
