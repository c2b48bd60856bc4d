-- ===== src/Handlers/Rreq.antt =====
-- rreq.c: route requests. DEBUG and CaiDebug are off, DTN and DTN_HELLO are on.
pub mod Effects
pub mod Flooding
use aodv_android.Base.{ℕ, ◌+◌, ◌-◌, Bool, not, ◌&&◌, ◌||◌, if◌then◌else◌, ◌==◌, leb}
use aodv_android.Kernel.{Kernel, to_host, to_network}
use aodv_android.Params.{
  u8, rrep_timer, rreq_retries, net_diameter, dttl_max, dtn_location_port, ett_metric_id,
  wcim_metric_id,
}
use aodv_android.Message.{Message, Rreq}
use aodv_android.Task.{Task, task_send_rrep, task_resend_rreq}
use aodv_android.TimerQueue.{find_timer}
use aodv_android.Neighs.{Neigh, find_neigh}
use aodv_android.Metric.{Cost, ett_metric, wcim_metric}
use aodv_android.Routing.{rreq_aodv_route}
use aodv_android.Handlers.{Status, one_less, local_broadcast, next_dst_id, refresh_neigh}
use aodv_android.Node.{
  Node, M, pure, fail, ◌>>=◌, ◌>>◌, get, if_null, emit, kmalloc, to_dtn, drop_packets,
}
use aodv_android.Node.Timers.{insert_timer_directional, update_timer_queue}

module _ ⦃k : Kernel⦄ where
  unfoldable pub convert_rreq_to_host : Rreq → Rreq
  convert_rreq_to_host q = record q {
    dst_id = to_host q.dst_id;
    path_metric = to_host q.path_metric;
  }

  unfoldable pub convert_rreq_to_network : Rreq → Rreq
  convert_rreq_to_network q = record q {
    dst_id = to_network q.dst_id;
    path_metric = to_network q.path_metric;
  }

-- The new path metric of a request, by `g_routing_metric`.
unfoldable pub rreq_cost : Node → Neigh → Rreq → Cost
rreq_cost n neigh q =
    if n.routing_metric == ett_metric_id
    then ett_metric neigh q.path_metric
    else (if n.routing_metric == wcim_metric_id
        then wcim_metric neigh n.flows n.neighs n.neighs_2h n.load q.tos q.path_metric
        else Cost.cost q.num_hops)

unfoldable pub is_destination : Node → Rreq → Bool
is_destination n q = q.dst_ip == n.mesh_ip || q.gateway == n.mesh_ip

-- The request of gen_rreq and resend_rreq.
unfoldable pub new_rreq : Node → (src_ip dst_ip tos dst_id dttl : ℕ) → Rreq
new_rreq n src_ip dst_ip tos dst_id dttl = record {
  tos = tos;
  num_hops = 0;
  gateway = if dst_ip == n.null_ip then n.default_gw else n.null_ip;
  dst_ip = dst_ip;
  src_ip = src_ip;
  dst_id = dst_id;
  path_metric = 0;
  dttl = dttl;
}

-- A request for an outside address that names another gateway, at a gateway.
unfoldable pub is_for_other_gateway : Node → Rreq → Bool
is_for_other_gateway n q = n.is_gateway && q.dst_ip == n.null_ip && not (q.gateway == n.mesh_ip)

module _ ⦃k : Kernel⦄ where
  -- The answer of the destination is put off, for requests that take a better path.
  unfoldable pub answer_later : Rreq → M (Unit {0})
  unfolding insert_timer_directional update_timer_queue
  answer_later q = do
    n ← get
    if find_timer q.src_ip q.dst_ip q.tos task_send_rrep n.timers
        then pure tt
        else insert_timer_directional task_send_rrep rrep_timer 0 q.src_ip q.dst_ip q.tos
          >> update_timer_queue

  -- The DTN layer hears of a request that still looks for DTN neighbours.
  unfoldable pub announce : Rreq → M Rreq
  announce q = do
    n ← get
    if not (n.dtn_register == 0) && leb 1 q.dttl
        then emit (to_dtn q.src_ip q.tos 0 0 dtn_location_port)
          >> pure (record q { dttl = q.dttl - 1 })
        else pure q

  unfoldable pub forward_rreq : (ttl : ℕ) → Rreq → M (Unit {0})
  unfolding announce convert_rreq_to_network local_broadcast
  forward_rreq ttl q = do
    q ← announce q
    local_broadcast (one_less ttl) (Message.rreq (convert_rreq_to_network q))

  -- Behind the metric, with the request's hops and path metric written.
  unfoldable pub accept_rreq : Task → Neigh → Rreq → M Status
  unfolding rreq_aodv_route is_destination answer_later forward_rreq
  accept_rreq t neigh q = do
    ok ← rreq_aodv_route neigh q.num_hops q.dst_id q.path_metric q.dst_ip q.src_ip q.tos
    n ← get
    if ok
        then (if is_destination n q then answer_later q else forward_rreq t.ttl q)
          >> pure Status.ret0
        else pure Status.ret1

  abbrev pub accept_at : Task → Neigh → Rreq → Cost → M Status
  accept_at t neigh q Cost.fault = fail
  accept_at t neigh q Cost.too_high = pure Status.ret1
  accept_at t neigh q (Cost.cost c) = accept_rreq t neigh (record q { path_metric = c })

  -- From the count of the hop on.
  unfoldable pub weigh_rreq : Task → Neigh → Rreq → M Status
  unfolding rreq_cost accept_rreq
  weigh_rreq t neigh q = do
    let q' = record q { num_hops = u8 (q.num_hops + 1) }
    n ← get
    accept_at t neigh q' (rreq_cost n neigh q')

  unfoldable pub known_rreq : Task → Rreq → Neigh → M Status
  unfolding refresh_neigh is_for_other_gateway weigh_rreq
  known_rreq t q neigh = do
    refresh_neigh neigh.ip
    n ← get
    if n.mesh_ip == q.src_ip || is_for_other_gateway n q
        then pure Status.ret1
        else weigh_rreq t neigh q

  -- recv_rreq on the packet at `data`.
  unfoldable pub recv_rreq : Task → Rreq → M Status
  unfolding convert_rreq_to_host is_destination known_rreq
  recv_rreq t packet = do
    let q = convert_rreq_to_host packet
    n ← get
    if leb t.ttl 1 && not (is_destination n q)
        then pure Status.timed_out
        else if_null (find_neigh (λ m. m.ip) t.src_ip n.neighs) (pure Status.ret1) (known_rreq t q)

  -- The broadcast of a new request.
  unfoldable pub send_rreq : (src_ip dst_ip tos dttl retries : ℕ) → M (Unit {0})
  unfolding new_rreq next_dst_id local_broadcast convert_rreq_to_network insert_timer_directional
      update_timer_queue
  send_rreq src_ip dst_ip tos dttl retries = do
    dst_id ← next_dst_id
    n ← get
    local_broadcast net_diameter
        (Message.rreq (convert_rreq_to_network (new_rreq n src_ip dst_ip tos dst_id dttl)))
    insert_timer_directional task_resend_rreq 0 retries src_ip dst_ip tos
    update_timer_queue

  unfoldable pub resend_rreq : Task → M Status
  unfolding send_rreq
  resend_rreq t =
      if t.retries == 0 then emit (drop_packets t.src_ip t.dst_ip t.tos) >> pure Status.ret0 else do
        c ← kmalloc
        if_null c (pure tt) (λ _. send_rreq t.src_ip t.dst_ip t.tos 0 (t.retries - 1))
        pure Status.ret0

  -- It returns 1 also where it has sent the request.
  unfoldable pub gen_rreq : (src_ip dst_ip tos : ℕ) → M Status
  unfolding send_rreq
  gen_rreq src_ip dst_ip tos = do
    n ← get
    let dttl = if dst_ip == n.dtn_hello_ip then dttl_max else 0
    c ← kmalloc
    if_null c (pure tt) (λ _. send_rreq src_ip dst_ip tos dttl rreq_retries)
    pure Status.ret1
