-- ===== src/Handlers/StRreq.antt =====
-- st_rreq.c: the announcements of the gateways.
use aodv_android.Base.{ℕ, ◌+◌, ◌*◌, ◌/◌, Bool, true, false, Option, none, some, if◌then◌else◌, ◌==◌}
use aodv_android.Kernel.{Kernel, to_host, to_network}
use aodv_android.Params.{u8, u32, st_interval, net_diameter, probe_packet, hops_metric}
use aodv_android.Message.{Message, RreqSt}
use aodv_android.Task.{Task, task_st}
use aodv_android.RouteTable.{find_aodv_route}
use aodv_android.GwList.{Refresh, refresh, update_gw}
use aodv_android.Neighs.{Neigh, find_neigh}
use aodv_android.Metric.{unmeasured}
use aodv_android.Routing.{read_route, write_route}
use aodv_android.Handlers.{Status, one_less, local_broadcast, refresh_neigh}
use aodv_android.Node.{Node, M, pure, ◌>>=◌, ◌>>◌, get, update, if_null, kmalloc}
use aodv_android.Node.Timers.{insert_timer_simple, update_timer_queue}

module _ ⦃k : Kernel⦄ where
  unfoldable pub convert_rreq_to_host_st : RreqSt → RreqSt
  convert_rreq_to_host_st q = record q {
    dst_id = to_host q.dst_id;
    path_metric = to_host q.path_metric;
  }

  unfoldable pub convert_rreq_to_network_st : RreqSt → RreqSt
  convert_rreq_to_network_st q = record q {
    dst_id = to_network q.dst_id;
    path_metric = to_network q.path_metric;
  }

  -- The announcement with our next sequence number, in the route to ourselves at `addr`.
  unfoldable pub send_st_rreq : (addr : ℕ) → M Status
  unfolding convert_rreq_to_network_st local_broadcast insert_timer_simple update_timer_queue
  send_st_rreq addr = do
    write_route addr (λ r. record r { dst_id = u32 (r.dst_id + 1) })
    r ← read_route addr
    n ← get
    local_broadcast net_diameter (
        Message.st_rreq (
          convert_rreq_to_network_st
            (record { num_hops = 0; gw_ip = n.mesh_ip; dst_id = r.dst_id; path_metric = 0 })))
    insert_timer_simple task_st st_interval n.mesh_ip
    update_timer_queue
    pure Status.ret0

  unfoldable pub gen_st_rreq : M Status
  unfolding send_st_rreq
  gen_st_rreq = do
    n ← get
    if n.is_gateway
        then (do
          c ← kmalloc
          if_null c (pure Status.ret0) (λ _.
              if_null (find_aodv_route n.mesh_ip n.mesh_ip 0 n.routes) (pure Status.unreachable)
                (λ r. send_st_rreq r.addr)))
        else pure Status.ret0

abbrev pub is_unknown : Refresh → Bool
is_unknown Refresh.unknown = true
is_unknown Refresh.kept = false
is_unknown (Refresh.renewed gs) = false

-- update_gw on the state; only a gateway that is not known yet takes memory.
unfoldable pub learn_gw : (gw_ip dst_id num_hops path_metric : ℕ) → M Bool
learn_gw gw_ip dst_id num_hops path_metric = do
  n ← get
  found ←
      if is_unknown (refresh n.now gw_ip dst_id num_hops path_metric n.gws)
      then (do c ← kmalloc; if_null c (pure false) (λ _. pure true))
      else pure false
  let (gws, news) = update_gw found n.now gw_ip dst_id num_hops path_metric n.gws
  update λ m. record m { gws = gws }
  pure news

-- ETT in microseconds, or the hops; `none` is a link that is not measured.
unfoldable pub st_metric : Node → Neigh → (num_hops path_metric : ℕ) → Option ℕ
st_metric n neigh num_hops path_metric =
    if n.routing_metric == hops_metric
    then some num_hops
    else (if unmeasured neigh
        then none
        else some (u32 (path_metric + probe_packet * 1000 / (neigh.recv_rate * neigh.etx_metric))))

module _ ⦃k : Kernel⦄ where
  unfoldable pub pass_on : (ttl : ℕ) → RreqSt → M Status
  unfolding learn_gw convert_rreq_to_network_st local_broadcast
  pass_on ttl q = do
    news ← learn_gw q.gw_ip q.dst_id q.num_hops q.path_metric
    if news
        then local_broadcast (one_less ttl) (Message.st_rreq (convert_rreq_to_network_st q))
          >> pure Status.ret0
        else pure Status.ret1

  unfoldable pub known_st_rreq : Task → RreqSt → Neigh → M Status
  unfolding refresh_neigh st_metric pass_on
  known_st_rreq t q neigh = do
    refresh_neigh neigh.ip
    n ← get
    let hops = u8 (q.num_hops + 1)
    if n.mesh_ip == q.gw_ip
        then pure Status.ret1
        else if_null (st_metric n neigh hops q.path_metric) (pure Status.ret1)
            (λ c. pass_on t.ttl (record q { num_hops = hops; path_metric = c }))

  unfoldable pub recv_rreq_st : Task → RreqSt → M Status
  unfolding convert_rreq_to_host_st known_st_rreq
  recv_rreq_st t packet = do
    n ← get
    if_null (find_neigh (λ m. m.ip) t.src_ip n.neighs) (pure Status.ret1)
        (known_st_rreq t (convert_rreq_to_host_st packet))
