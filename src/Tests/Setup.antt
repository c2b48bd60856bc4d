-- ===== src/Tests/Setup.antt =====
-- The module loaded with concrete parameters.
use aodv_android.Base.{
  arith, ℕ, ◌≡◌, refl, ◌⊎◌, true, Option, none, some, List, [], ◌∷◌, first, modify, insert_ordered,
}
use aodv_android.TimerQueue
use aodv_android.RouteTable.{update_route, insert_aodv_route}
use aodv_android.SrcList.{find_src_list_entry, find_first_rttable, first_empty, find_empty_rttable}
use aodv_android.Sources.{insert_src_list_entry, add_with_rule}
use aodv_android.Routing.{create_aodv_route, new_route}
use aodv_android.Node.Timers.{insert_timer_simple, update_timer_queue}
use aodv_android.Addresses.Text.{inet_aton, read_parts, read_number, read_digits}
use aodv_android.Addresses.{get_nominalrate, is_rate}
use aodv_android.Flows.{init_flow_type_table}
use aodv_android.Node.{Node, Cell, kmalloc, rpdb_rule, rpdb_route, rtnetlink}
use aodv_android.Handlers.Rerr.Ends.{Ends}
use aodv_android.Setup.{
  Parameters, Machine, Loading, set_constants, set_gateway, prepared, set_parameters, init_lists,
  set_metric, set_network, split_at_slash, all_made, init_fbaodv_module, init_module, start_up,
  start_timers,
}
use aodv_android.Setup.Device.{NetDevice, to_self, create_aodv_dev, insert_aodv_dev, init_aodv_dev}
use aodv_android.Setup.Outcome.{Loads, init_fbaodv_module_outcome}
use aodv_android.Setup.Success.{Runs, init_fbaodv_module_loads}
use aodv_android.Tests.Platform.{platform}
use aodv_android.Tests.Text.{ascii}
use aodv_android.Tests.Routes.{node}

-- "10.0.0.1/255.0.0.0"
abbrev network : List ℕ
network =
    49 ∷ 48 ∷ 46 ∷ 48 ∷ 46 ∷ 48 ∷ 46 ∷ 49 ∷ 47 ∷ 50 ∷ 53 ∷ 53 ∷ 46 ∷ 48 ∷ 46 ∷ 48 ∷ 46 ∷ 48 ∷ []

-- mesh_dev=wlan0 routing_metric=WCIM
abbrev parameters : Parameters
parameters = record {
  mesh_dev = some (119 ∷ 108 ∷ 97 ∷ 110 ∷ 48 ∷ []);
  aodv_gateway = 0;
  network_ip = some network;
  routing_metric = some (87 ∷ 67 ∷ 73 ∷ 77 ∷ []);
  nominal_rate = 540;
  aodv_blacklist = [];
  dtn_blacklist = [];
}

abbrev wlan : NetDevice
wlan = record { index = 3; address = some (16777226, 255) }

abbrev machine : Machine
machine = record {
  device = some wlan;
  has_socket = true;
  proc_entries = true ∷ true ∷ true ∷ true ∷ true ∷ true ∷ true ∷ true ∷ true ∷ true ∷ [];
}

abbrev block : (addr : ℕ) → Cell
block addr = record { addr = addr; junk = 0 }

abbrev booted : Node
booted = record node {
  memory = some (block 128) ∷ some (block 256) ∷ some (block 384) ∷ [];
  netlink = true ∷ true ∷ [];
}

init_fbaodv_module_loads_example :
    Ends
      (λ a m. (a ≡ Loading.loaded) × Runs 3 16777226 m)
      (init_fbaodv_module parameters machine booted)
unfolding prepared set_parameters init_lists set_metric set_network split_at_slash inet_aton
    read_parts read_number read_digits get_nominalrate is_rate all_made
init_fbaodv_module_loads_example =
    init_fbaodv_module_loads parameters machine (119 ∷ 108 ∷ 97 ∷ 110 ∷ 48 ∷ []) network wlan booted
      (block 128) (block 256) (block 384) [] [] refl (omega arith) refl refl refl refl refl refl
      refl refl refl

abbrev left : {A : Type 0} → Option (A × Node) → Node → Node
left none n = n
left (some (a, m)) n = m

abbrev running : Node
unfolding init_fbaodv_module
running = left (init_fbaodv_module parameters machine booted) booted

loads : init_fbaodv_module parameters machine booted ≡ some (Loading.loaded, running)
unfolding init_fbaodv_module init_module prepared set_parameters init_lists set_metric set_network
    split_at_slash inet_aton read_parts read_number read_digits get_nominalrate is_rate all_made
    init_aodv_dev insert_aodv_dev create_aodv_dev kmalloc create_aodv_route new_route
    insert_aodv_route insert_ordered to_self insert_src_list_entry add_with_rule find_first_rttable
    first_empty find_empty_rttable rpdb_rule rpdb_route rtnetlink update_route modify first
    find_src_list_entry start_up start_timers insert_timer_simple update_timer_queue
    TimerQueue.update_timer_queue init_flow_type_table
loads = refl

init_fbaodv_module_outcome_example :
    ((Loading.loaded ≡ Loading.refused)
      × (((parameters.mesh_dev ≡ none) × (running ≡ set_constants booted))
          ⊎ ((parameters.network_ip ≡ none)
              × (running ≡ set_gateway parameters (set_constants booted)))))
    ⊎ ((text : List ℕ) × Loads parameters machine text booted Loading.loaded running)
init_fbaodv_module_outcome_example =
    init_fbaodv_module_outcome parameters machine booted Loading.loaded running
      (tt, (refl, (refl, tt)), (tt, (refl, tt), (tt, tt, tt))) loads
