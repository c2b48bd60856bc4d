-- ===== src/Handlers/Rrep.antt =====
-- rrep.c: route replies. DEBUG and CaiDebug are off, DTN, DTN_HELLO and RECOVERYPATH are on.
use aodv_android.Base.{
  ℕ, ◌+◌, ◌-◌, Bool, not, ◌&&◌, ◌||◌, Option, none, some, if◌then◌else◌, ◌==◌, leb,
}
use aodv_android.Kernel.{Kernel, to_host, to_network}
use aodv_android.Params.{u8, sub32, net_diameter, dttl_max, re_dtn_hello}
use aodv_android.Message.{Message, Rrep}
use aodv_android.Task.{Task, task_resend_rreq}
use aodv_android.RouteTable.{Route, find_aodv_route, find_aodv_route_by_id}
use aodv_android.BrkList.{find_first_brk_link_with_dst}
use aodv_android.Neighs.{Neigh, find_neigh}
use aodv_android.Routing.{
  create_aodv_route, read_route, write_route, rreq_aodv_route, rrep_aodv_route,
}
use aodv_android.Handlers.{Status, next_dst_id, refresh_neigh}
use aodv_android.Handlers.Rcvp.{gen_rcvp}
use aodv_android.Node.{
  Node, M, pure, ◌>>=◌, ◌>>◌, get, when, if_null, deref, emit, kmalloc, send, to_dtn,
}
use aodv_android.Node.Timers.{delete_timer, update_timer_queue}

module _ ⦃k : Kernel⦄ where
  unfoldable pub convert_rrep_to_host : Rrep → Rrep
  convert_rrep_to_host p = record p {
    dst_id = to_host p.dst_id;
    src_id = to_host p.src_id;
    path_metric = to_host p.path_metric;
  }

  unfoldable pub convert_rrep_to_network : Rrep → Rrep
  convert_rrep_to_network p = record p {
    dst_id = to_network p.dst_id;
    src_id = to_network p.src_id;
    path_metric = to_network p.path_metric;
  }

  -- The source of the flow, with its new route at `addr`.
  unfoldable pub use_reply : Rrep → (addr : ℕ) → M (Unit {0})
  unfolding rrep_aodv_route gen_rcvp
  use_reply p addr = do
    rrep_aodv_route addr
    n ← get
    write_route addr (λ r. record r { last_hop = n.mesh_ip })
    when (leb 1 p.dttl) (emit (to_dtn p.dst_ip p.x p.y 0 re_dtn_hello))
    if_null (find_first_brk_link_with_dst p.dst_ip n.links) (pure tt)
        (λ _. gen_rcvp p.dst_ip >> pure tt)

  -- The branch of the flow's source.
  unfoldable pub finish_rrep : Neigh → Rrep → M Status
  unfolding update_timer_queue rreq_aodv_route delete_timer use_reply
  finish_rrep neigh p = do
    update_timer_queue
    rreq_aodv_route neigh p.num_hops p.dst_id p.path_metric p.src_ip p.dst_ip p.tos
    delete_timer p.src_ip p.dst_ip p.tos task_resend_rreq
    n ← get
    if_null (find_aodv_route_by_id p.dst_ip p.dst_id n.routes) (pure tt) (λ r. use_reply p r.addr)
    pure Status.ret0

  -- The reply of a DTN neighbour travels on a copy of the route of the hello. Without memory for it
  -- the code writes through NULL.
  unfoldable pub dtn_reverse_route : Rrep → M (Option ℕ)
  unfolding create_aodv_route
  dtn_reverse_route p = do
    n ← get
    if_null (find_aodv_route n.dtn_hello_ip p.src_ip p.tos n.routes) (pure none) (λ r. do
      a ← create_aodv_route p.dst_ip p.src_ip p.tos p.dst_id
      addr ← deref a
      write_route addr (λ s. record s { last_hop = r.last_hop; next_hop = r.next_hop })
      pure (some addr))

  -- The address of `recv_route`, by which the reply goes on.
  unfoldable pub reverse_route : Rrep → M (Option ℕ)
  unfolding dtn_reverse_route
  reverse_route p = do
    n ← get
    if leb 1 p.dttl
        then dtn_reverse_route p
        else if_null (find_aodv_route_by_id p.src_ip p.src_id n.routes) (pure none)
            (λ r. pure (some r.addr))

  -- Both directions are installed, and the reply goes on.
  unfoldable pub pass_reply : Rrep → (recv_addr send_addr : ℕ) → M (Unit {0})
  unfolding rrep_aodv_route convert_rrep_to_network
  pass_reply p recv_addr send_addr = do
    rrep_aodv_route recv_addr
    rrep_aodv_route send_addr
    back ← read_route recv_addr
    write_route send_addr (λ r. record r { last_hop = back.next_hop })
    forth ← read_route send_addr
    write_route recv_addr (λ r. record r { last_hop = forth.next_hop })
    emit (send back.next_hop net_diameter (Message.rrep (convert_rrep_to_network p)))

  -- The branch of the other nodes.
  unfoldable pub forward_rrep : Neigh → Rrep → M Status
  unfolding reverse_route rreq_aodv_route pass_reply
  forward_rrep neigh p = do
    n ← get
    a ← reverse_route p
    let p' = if leb 1 p.dttl && not (n.dtn_register == 0) then record p { dttl = p.dttl - 1 } else p
    if_null a (pure Status.ret1) (λ recv_addr. do
      back ← read_route recv_addr
      rreq_aodv_route neigh p.num_hops p.dst_id (sub32 p.path_metric back.path_metric) p.src_ip
          p.dst_ip p.tos
      n ← get
      if_null (find_aodv_route_by_id p.dst_ip p.dst_id n.routes) (pure tt)
          (λ r. pass_reply p' recv_addr r.addr)
      pure Status.ret0)

  abbrev pub is_source : Node → Rrep → Bool
  is_source n p = p.src_ip == n.mesh_ip || (p.src_ip == n.null_ip && p.gateway == n.mesh_ip)

  unfoldable pub known_rrep : Rrep → Neigh → M Status
  unfolding refresh_neigh finish_rrep forward_rrep
  known_rrep p neigh = do
    refresh_neigh neigh.ip
    n ← get
    let p' = record p { num_hops = u8 (p.num_hops + 1) }
    if is_source n p then finish_rrep neigh p' else forward_rrep neigh p'

  -- recv_rrep on the packet at `data`.
  unfoldable pub recv_rrep : Task → Rrep → M Status
  unfolding convert_rrep_to_host known_rrep
  recv_rrep t packet = do
    n ← get
    if_null (find_neigh (λ m. m.ip) t.src_ip n.neighs) (pure Status.ret1)
        (known_rrep (convert_rrep_to_host packet))

  -- The reply along the route at `addr`; `gateway` is what its memory held.
  unfoldable pub send_rrep : (addr tos dttl gateway : ℕ) → M Status
  unfolding next_dst_id rrep_aodv_route convert_rrep_to_network
  send_rrep addr tos dttl gateway = do
    dst_id ← next_dst_id
    r ← read_route addr
    n ← get
    rrep_aodv_route addr
    write_route addr (λ s. record s { last_hop = s.src_ip })
    emit (
        send r.next_hop net_diameter (
          Message.rrep (
            convert_rrep_to_network (record {
              tos = tos;
              num_hops = 0;
              dst_ip = r.src_ip;
              src_ip = r.dst_ip;
              dst_id = dst_id;
              gateway = gateway;
              path_metric = r.path_metric;
              src_id = r.dst_id;
              dttl = dttl;
              x = n.longitude;
              y = n.latitude;
            }))))
    pure Status.ret1

  -- The route of a reply to a DTN hello, from this node itself.
  unfoldable pub dtn_route : (src_ip tos : ℕ) → Route → M (Option ℕ)
  unfolding next_dst_id create_aodv_route
  dtn_route src_ip tos src_route = do
    dst_id ← next_dst_id
    n ← get
    a ← create_aodv_route n.mesh_ip src_ip tos dst_id
    if_null a (pure none) (λ addr. do
      write_route addr (λ s. record s { next_hop = src_route.next_hop; last_hop = 0 })
      pure a)

  -- The first block of memory is lost behind the second.
  unfoldable pub reply_on : (src_ip dst_ip tos : ℕ) → Route → M Status
  unfolding send_rrep dtn_route
  reply_on src_ip dst_ip tos r = do
    c ← kmalloc
    if_null c (pure Status.ret0) (λ c. do
      n ← get
      if not (n.dtn_register == 0) && dst_ip == n.dtn_hello_ip
          then (do
            a ← dtn_route src_ip tos r
            if_null a (pure Status.ret0) (λ addr. send_rrep addr tos dttl_max c.junk))
          else send_rrep r.addr tos 0 c.junk)

  unfoldable pub gen_rrep : (src_ip dst_ip tos : ℕ) → M Status
  unfolding reply_on
  gen_rrep src_ip dst_ip tos = do
    c ← kmalloc
    if_null c (pure Status.ret0) (λ _. do
      n ← get
      if_null (find_aodv_route dst_ip src_ip tos n.routes) (pure Status.ret1)
          (reply_on src_ip dst_ip tos))
