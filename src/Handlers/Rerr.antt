-- ===== src/Handlers/Rerr.antt =====
-- rerr.c: the errors of routes that broke, and the broken links that they leave behind.
pub mod Ends
pub mod Quiet
pub mod Broken
use aodv_android.Base.{
  ℕ, ◌+◌, Bool, true, false, not, ◌&&◌, ◌||◌, List, [], ◌∷◌, if◌then◌else◌, ◌==◌, modify,
}
use aodv_android.Kernel.{Kernel, to_host, to_network}
use aodv_android.Params.{u8, u64, net_diameter, wcim_metric_id, brk_link_timeout}
use aodv_android.Message.{Message, Rerr}
use aodv_android.Task.{Task, task_recv_rerr}
use aodv_android.RouteTable.{Route, is_invalid, find_aodv_route_by_id, expire_aodv_route}
use aodv_android.BrkList.{find_brk_link, create_brk_link, flush_brk_list}
use aodv_android.Routing.{write_route, update_my_load}
use aodv_android.Handlers.{Status, tell_dtn, reply_to_rrer}
use aodv_android.Node.{
  Node, M, pure, ◌>>=◌, ◌>>◌, get, update, when, if_null, deref, emit, kmalloc, send,
}

module _ ⦃k : Kernel⦄ where
  -- A new link, or a later end for the one there is; then the list is flushed.
  unfoldable pub note_link : (src_ip dst_ip last_hop last_avail : ℕ) → M (Unit {0})
  unfolding create_brk_link flush_brk_list
  note_link src_ip dst_ip last_hop last_avail = do
    n ← get
    if_null (find_brk_link src_ip dst_ip n.links)
        (do
          c ← kmalloc
          if_null c (pure tt) (λ c. update λ m. record m {
            links = create_brk_link n.now c.addr src_ip dst_ip last_hop last_avail m.links;
          }))
        (λ b. update λ m. record m {
          links =
              modify (λ l. l.addr == b.addr)
                (λ l. record l { lifetime = u64 (n.now + brk_link_timeout) }) m.links;
        })
    n ← get
    links ← deref (flush_brk_list n.now n.links)
    update λ m. record m { links = links }

  -- `last_avail_ip` of a new error: this node where a DTN layer is registered.
  abbrev pub last_dtn : Node → ℕ
  last_dtn n = if n.dtn_register == 1 then n.mesh_ip else 0

  -- The error for a route, to the hop before this node. The answer is whether there was memory.
  unfoldable pub send_rerr : Route → M Bool
  unfolding tell_dtn note_link
  send_rerr r = do
    n ← get
    c ← kmalloc
    if_null c (pure false) (λ _. do
      tell_dtn r.src_ip r.dst_ip (last_dtn n) task_recv_rerr
      emit (
          send r.last_hop net_diameter (
            Message.rerr (record {
              num_hops = 0;
              dst_ip = r.dst_ip;
              dst_id = to_network r.dst_id;
              last_avail_ip = last_dtn n;
              src_ip = r.src_ip;
            })))
      note_link r.src_ip r.dst_ip r.last_hop (last_dtn n)
      pure true)

  -- What gen_rerr does about a route before it expires it; `false` ends gen_rerr.
  unfoldable pub report_route : Route → M Bool
  unfolding reply_to_rrer tell_dtn note_link send_rerr
  report_route r = do
    n ← get
    if reply_to_rrer n r.src_ip
        then tell_dtn r.src_ip r.dst_ip (last_dtn n) task_recv_rerr
          >> note_link r.src_ip r.dst_ip 0 (last_dtn n)
          >> pure true
        else (if is_invalid r.state then pure true else send_rerr r)

  -- The answer is whether the route was in use.
  unfoldable pub break_route : Route → M Bool
  break_route r = do
    n ← get
    when (not (is_invalid r.state)) (write_route r.addr (expire_aodv_route n.now))
    pure (not (is_invalid r.state))

  abbrev pub goes_over : (brk_dst_ip : ℕ) → Route → Bool
  goes_over brk_dst_ip r = r.next_hop == brk_dst_ip && not r.self_route && not r.neigh_route

  abbrev pub recount : (expired : Bool) → M (Unit {0})
  recount expired = do n ← get; when (n.routing_metric == wcim_metric_id && expired) update_my_load

  -- The loop of gen_rerr over the entries that it meets, and what follows it. A round writes no
  -- entry but its own.
  unfoldable pub break_routes : (brk_dst_ip : ℕ) → List Route → (expired : Bool) → M Status
  unfolding report_route break_route update_my_load
  break_routes brk_dst_ip [] expired = recount expired >> pure Status.ret0
  break_routes brk_dst_ip (r ∷ rs) expired =
      let next = break_routes brk_dst_ip rs in
      if goes_over brk_dst_ip r
      then (do
        ok ← report_route r
        if ok then (do used ← break_route r; next (expired || used)) else pure Status.ret0)
      else next expired

  unfoldable pub gen_rerr : (brk_dst_ip : ℕ) → M Status
  unfolding break_routes
  gen_rerr brk_dst_ip = do n ← get; break_routes brk_dst_ip n.routes false

  -- Whether this node is the first on the way back that has a DTN layer.
  abbrev pub is_first_dtn : Node → Rerr → Bool
  is_first_dtn n p = n.dtn_register == 1 && p.last_avail_ip == 0

  -- recv_rerr for a route that goes over the sender.
  unfoldable pub pass_rerr : Rerr → Route → M (Unit {0})
  unfolding reply_to_rrer note_link
  pass_rerr p r = do
    n ← get
    let last_avail = if is_first_dtn n p then n.mesh_ip else p.last_avail_ip
    if reply_to_rrer n r.src_ip
        then note_link r.src_ip r.dst_ip 0 (if is_first_dtn n p then n.mesh_ip else 0)
        else when (not (is_invalid r.state)) (do
          emit (
              send r.last_hop net_diameter (
                Message.rerr (record {
                  num_hops = u8 (p.num_hops + 1);
                  dst_ip = r.dst_ip;
                  dst_id = to_network r.dst_id;
                  last_avail_ip = last_avail;
                  src_ip = r.src_ip;
                })))
          note_link r.src_ip r.dst_ip r.last_hop last_avail)

  unfoldable pub recv_rerr : Task → Rerr → M Status
  unfolding tell_dtn pass_rerr break_route update_my_load
  recv_rerr t p = do
    n ← get
    tell_dtn p.src_ip p.dst_ip (if is_first_dtn n p then n.mesh_ip else p.last_avail_ip)
        task_recv_rerr
    if_null (find_aodv_route_by_id p.dst_ip (to_host p.dst_id) n.routes) (pure tt)
        (λ r. when (r.next_hop == t.src_ip) (do pass_rerr p r; used ← break_route r; recount used))
    pure Status.ret0
