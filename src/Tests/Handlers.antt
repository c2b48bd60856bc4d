-- ===== src/Tests/Handlers.antt =====
-- The theorems about the handlers at concrete packets and nodes.
use aodv_android.Base.{
  ◌≡◌, refl, true, Option, none, some, [], ◌∷◌, All, arith, first, modify, find_ordered,
}
use aodv_android.Message.{Rreq, Rrep, RreqSt}
use aodv_android.Task.{Task, create_task}
use aodv_android.TimerQueue
use aodv_android.TimerQueue.{queue_timer, directional_timer, resend_delay}
use aodv_android.RouteTable.{update_route, find_aodv_route}
use aodv_android.SrcList.{find_src_list_entry, find_first_rttable, find_empty_rttable}
use aodv_android.Sources.{insert_src_list_entry}
use aodv_android.Routing.{rreq_aodv_route}
use aodv_android.Thread.{Event, dispatch}
use aodv_android.Handlers.{Status, refresh_neigh, next_dst_id, local_broadcast}
use aodv_android.Handlers.Rreq.{
  is_destination, recv_rreq, convert_rreq_to_host, convert_rreq_to_network, gen_rreq, send_rreq,
  new_rreq, known_rreq, weigh_rreq, accept_rreq, forward_rreq, announce, is_for_other_gateway,
  rreq_cost,
}
use aodv_android.Handlers.Rerr.{gen_rerr}
use aodv_android.Handlers.Rerr.Ends.{Ends}
use aodv_android.Handlers.Rerr.Broken.{Broken, gen_rerr-Broken}
use aodv_android.Handlers.Rreq.Effects.{Below}
use aodv_android.Handlers.Rreq.Flooding.{recv_rreq_lowers}
use aodv_android.Neighs.{find_neigh, new_neigh}
use aodv_android.Node.{Node, kmalloc, rpdb_rule}
use aodv_android.Node.Timers.{
  insert_timer_simple, delete_timer, insert_timer_directional, update_timer_queue,
}
use aodv_android.Invariant.{WellFormed}
use aodv_android.Invariant.Thread.{Reaches, Reaches-WellFormed}
use aodv_android.Tests.Platform.{platform}
use aodv_android.Tests.Routes.{node}

abbrev request : Rreq
request = record {
  tos = 0;
  num_hops = 1;
  gateway = 0;
  dst_ip = 3;
  src_ip = 7;
  dst_id = 12;
  path_metric = 1;
  dttl = 0;
}

abbrev reply : Rrep
reply = record {
  tos = 0;
  num_hops = 1;
  dst_ip = 3;
  src_ip = 7;
  dst_id = 12;
  gateway = 0;
  path_metric = 4;
  src_id = 5;
  dttl = 0;
  x = 0;
  y = 0;
}

abbrev announcement : RreqSt
announcement = record { num_hops = 1; gw_ip = 9; dst_id = 300; path_metric = 70000 }

abbrev packet : Task
packet = record (create_task 5000 116) { src_ip = 5; dst_ip = 255; ttl = 7 }

abbrev relaying : Node
relaying = record node {
  neighs = new_neigh 5 60 ∷ [];
  memory =
      some (record { addr = 128; junk = 0 })
      ∷ some (record { addr = 144; junk = 0 })
      ∷ some (record { addr = 160; junk = 0 })
      ∷ [];
  netlink = true ∷ true ∷ [];
}

abbrev after : Option (Status × Node) → Node → Node
after none n = n
after (some (a, n)) m = n

abbrev relayed : Node
relayed = after (recv_rreq packet request relaying) relaying

relays : recv_rreq packet request relaying ≡ some (Status.ret0, relayed)
unfolding recv_rreq known_rreq weigh_rreq accept_rreq forward_rreq announce local_broadcast
    find_neigh new_neigh create_task is_destination convert_rreq_to_host refresh_neigh
    insert_timer_simple update_timer_queue TimerQueue.update_timer_queue delete_timer kmalloc
    is_for_other_gateway rreq_cost rreq_aodv_route queue_timer TimerQueue.delete_timer
    TimerQueue.simple_timer find_aodv_route find_ordered find_src_list_entry insert_src_list_entry
    find_first_rttable find_empty_rttable rpdb_rule
relays = refl

recv_rreq_lowers_example : All (Below 7) relayed.log
unfolding create_task
recv_rreq_lowers_example =
    recv_rreq_lowers packet request relaying relayed Status.ret0 (omega arith) (omega arith) refl
      relays

abbrev provided : Node
provided = record node {
  now = 5000;
  memory = some (record { addr = 128; junk = 0 }) ∷ some (record { addr = 144; junk = 0 }) ∷ [];
  netlink = true ∷ [];
}

abbrev supplied : Node
supplied = record node {
  memory =
      some (record { addr = 128; junk = 0 })
      ∷ some (record { addr = 144; junk = 0 })
      ∷ some (record { addr = 160; junk = 0 })
      ∷ some (record { addr = 176; junk = 0 })
      ∷ some (record { addr = 192; junk = 0 })
      ∷ [];
}

gen_rerr-Broken_example : Ends (Broken 5) (gen_rerr 5 supplied)
gen_rerr-Broken_example =
    gen_rerr-Broken 5 supplied ((refl, (refl, tt)), ((refl, tt), (tt, tt)))
      ((refl, (refl, (refl, (refl, (refl, tt))))), tt)

abbrev left : Option (Unit {0} × Node) → Node → Node
left none n = n
left (some (u, n)) m = n

abbrev wanted : Task
wanted = record (create_task 5000 132) { src_ip = 1; dst_ip = 9 }

serves_request :
    dispatch (Event.new_request wanted) provided
    ≡ some (tt, left (dispatch (Event.new_request wanted) provided) provided)
unfolding dispatch gen_rreq kmalloc send_rreq new_rreq next_dst_id local_broadcast
    convert_rreq_to_network insert_timer_directional queue_timer directional_timer create_task
    resend_delay update_timer_queue TimerQueue.update_timer_queue update_route modify first
serves_request = refl

abbrev served : Node
served = left (dispatch (Event.new_request wanted) provided) provided

served-Reaches : Reaches node served
served-Reaches =
    Reaches.serves (Event.new_request wanted)
      (Reaches.provides 5000 provided.memory provided.netlink Reaches.here refl
        ((refl, (refl, (refl, tt))), (refl, tt), ((refl, (refl, (refl, tt))), tt, tt)))
      refl serves_request

Reaches-WellFormed_example : WellFormed served
Reaches-WellFormed_example =
    Reaches-WellFormed node served
      (omega arith, ((refl, (refl, tt)), ((refl, tt), (tt, tt))), tt, tt) served-Reaches
