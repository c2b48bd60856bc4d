-- ===== src/Routing.antt =====
-- aodv_route.c on the state of a node: creation, update and installation of routes, the flush of the
-- expired ones, and the node's load.
pub mod Accept
pub mod Start
use aodv_android.Base.{
  ℕ, ◌+◌, ◌-◌, Bool, true, false, not, ◌&&◌, ◌||◌, Option, none, some, List, [], ◌∷◌, if◌then◌else◌,
  ◌==◌, ltb, leb, first,
}
use aodv_android.Kernel.{Kernel, before}
use aodv_android.Params.{u16, u64, delete_period, wcim_metric_id, hello_interval}
use aodv_android.Task.{task_cleanup}
use aodv_android.RouteTable.{
  Route, RouteState, is_invalid, is_active, at, insert_aodv_route, find_aodv_route,
  find_aodv_route_by_id, expire_aodv_route, remove_aodv_route, update_route, active_load,
}
use aodv_android.SrcList.{SrcEntry, find_src_list_entry, update_src}
use aodv_android.Neighs.{Neigh}
use aodv_android.Flows.{compute_load}
use aodv_android.Sources.{insert_src_list_entry, delete_src_list_entry}
use aodv_android.Node.{
  Node, Cell, M, pure, ◌>>=◌, ◌>>◌, get, update, when, if_null, emit, deref, kmalloc, rpdb_route,
  release_packets,
}
use aodv_android.Node.Timers.{insert_timer_simple, update_timer_queue}

unfoldable pub update_my_load : M (Unit {0})
update_my_load = update λ n.
    let new_load = active_load n.routes 0 in
    if n.load == new_load then n else record n {
      load = new_load;
      load_seq = if n.load_seq == 65535 then 1 else u16 (n.load_seq + 1);
    }

-- The entry of create_aodv_route; its lifetime is what the memory held.
unfoldable pub new_route : Node → Cell → (src_ip dst_ip tos dst_id : ℕ) → Route
new_route n c src_ip dst_ip tos dst_id = record {
  addr = c.addr;
  netmask = n.broadcast_ip;
  num_hops = 0;
  next_hop = 0;
  lifetime = c.junk;
  last_hop = src_ip;
  dst_ip = dst_ip;
  src_ip = src_ip;
  dst_id = dst_id;
  path_metric = 0;
  tos = tos;
  load = 0;
  neigh_route = false;
  self_route = false;
  state = RouteState.invalid;
  dev = n.dev_index;
}

-- The address of the new entry.
unfoldable pub create_aodv_route : (src_ip dst_ip tos dst_id : ℕ) → M (Option ℕ)
unfolding new_route
create_aodv_route src_ip dst_ip tos dst_id = do
  c ← kmalloc
  if_null c (pure none) (λ c.
      update (λ n. record n {
        routes = insert_aodv_route (new_route n c src_ip dst_ip tos dst_id) n.routes;
      })
      >> pure (some c.addr))

-- A write through the pointer to a route.
abbrev pub write_route : (addr : ℕ) → (Route → Route) → M (Unit {0})
write_route addr f = update λ n. record n { routes = update_route addr f n.routes }

abbrev pub read_route : (addr : ℕ) → M Route
read_route addr = do n ← get; deref (first (at addr) n.routes)

-- The values that rreq_aodv_route writes.
unfoldable pub accepted : (now dev next_hop hops dst_id path_metric : ℕ) → Route → Route
accepted now dev next_hop hops dst_id path_metric r = record r {
  dev = dev;
  path_metric = path_metric;
  dst_id = dst_id;
  num_hops = hops;
  next_hop = next_hop;
  lifetime = u64 (now + delete_period);
  state = RouteState.active;
}

module _ (next_hop : Neigh) (hops dst_id path_metric : ℕ) where
  -- The WCIM block at the end of rreq_aodv_route.
  unfoldable pub set_load : (addr : ℕ) (previous : RouteState) → M (Unit {0})
  unfolding update_my_load
  set_load addr previous = do
    r ← read_route addr
    n ← get
    load ← deref (compute_load next_hop.send_rate r.tos n.flows)
    write_route addr (λ r. record r { load = load })
    when (is_active previous) update_my_load

  -- The end of rreq_aodv_route, from "Update values in the RT entry".
  unfoldable pub install : (addr : ℕ) (previous : RouteState) → M Bool
  unfolding accepted set_load
  install addr previous = do
    n ← get
    write_route addr (accepted n.now n.dev_index next_hop.ip hops dst_id path_metric)
    when (n.routing_metric == wcim_metric_id) (set_load addr previous)
    pure true

  -- The branch with no route yet, behind the creation.
  unfoldable pub count_source : (src_ip : ℕ) → M Bool
  count_source src_ip = do
    n ← get
    ok ← if_null (find_src_list_entry src_ip n.srcs) (insert_src_list_entry src_ip) (λ _. pure true)
    when ok (
        update λ m. record m {
          srcs = update_src src_ip (λ s. record s { num_routes = s.num_routes + 1 }) m.srcs;
        })
    pure ok

  -- The route is newer than the request, or as new and no worse.
  abbrev pub supersedes : Route → Bool
  supersedes r = ltb dst_id r.dst_id || (dst_id == r.dst_id && leb r.path_metric path_metric)

  -- The branch with a route.
  unfoldable pub replace_route : Route → M Bool
  unfolding install
  replace_route r =
      if supersedes r
      then pure false
      else (if is_invalid r.state then install r.addr r.state else do
        ok ← rpdb_route false 0 r.tos r.src_ip r.dst_ip r.next_hop r.dev r.num_hops
        if ok then install r.addr r.state else pure false)

  unfoldable pub start_route : (src_ip dst_ip tos : ℕ) → M Bool
  unfolding install count_source create_aodv_route
  start_route src_ip dst_ip tos = do
    a ← create_aodv_route src_ip dst_ip tos dst_id
    if_null a (pure false) (λ addr. do
      ok ← count_source src_ip
      if ok then install addr RouteState.invalid else pure false)

  -- The answer is 1 or 0.
  unfoldable pub rreq_aodv_route : (src_ip dst_ip tos : ℕ) → M Bool
  unfolding replace_route start_route
  rreq_aodv_route src_ip dst_ip tos = do
    n ← get
    if_null (find_aodv_route src_ip dst_ip tos n.routes) (start_route src_ip dst_ip tos)
        replace_route

-- The end of rrep_aodv_route, behind the request to rtnetlink.
unfoldable pub reply_route : (addr src_ip dst_ip tos : ℕ) → M Bool
reply_route addr src_ip dst_ip tos = do
  n ← get
  write_route addr
      (λ r. record r { state = RouteState.replied; lifetime = u64 (n.now + delete_period) })
  emit (release_packets src_ip dst_ip tos)
  pure true

-- rrep_aodv_route on the route at `addr`. The answer is 1 or 0.
unfoldable pub rrep_aodv_route : (addr : ℕ) → M Bool
unfolding rpdb_route reply_route
rrep_aodv_route addr = do
  r ← read_route addr
  n ← get
  if_null (find_src_list_entry r.src_ip n.srcs) (pure false) (λ s. do
    ok ← rpdb_route true s.rt_table r.tos r.src_ip r.dst_ip r.next_hop r.dev r.num_hops
    if ok then reply_route addr r.src_ip r.dst_ip r.tos else pure false)

-- The entry of the source of an expired route that is invalid. A count that falls to 0 or below is
-- set anew or goes with the entry, so it does no harm that the subtraction stops at 0.
unfoldable pub release_source : Route → SrcEntry → M (Unit {0})
unfolding rpdb_route delete_src_list_entry
release_source r s = do
  n ← get
  let left = s.num_routes - 1
  set_routes left
  when (not r.neigh_route)
      (rpdb_route false s.rt_table r.tos r.src_ip r.dst_ip r.next_hop r.dev r.num_hops >> pure tt)
  when (left == 0) (if s.ip == n.mesh_ip then set_routes 1 else delete_src_list_entry r.src_ip)
  where
    set_routes : ℕ → M (Unit {0})
    set_routes c =
        update
          λ m. record m { srcs = update_src r.src_ip (λ s. record s { num_routes = c }) m.srcs }

module _ ⦃k : Kernel⦄ where
  -- A round of the loop of flush_aodv_route_table.
  unfoldable pub flush_route : Route → M (Unit {0})
  unfolding release_source
  flush_route r = do
    n ← get
    if before r.lifetime n.now && not r.self_route
        then (if is_invalid r.state
            then if_null (find_src_list_entry r.src_ip n.srcs) (pure tt) (release_source r)
              >> update (λ m. record m { routes = remove_aodv_route r.addr m.routes })
            else write_route r.addr (expire_aodv_route n.now))
        else pure tt

  -- The loop, over the entries that it meets: a round changes no entry but its own.
  unfoldable pub flush_routes : List Route → M (Unit {0})
  unfolding flush_route
  flush_routes [] = pure tt
  flush_routes (r ∷ rs) = flush_route r >> flush_routes rs

  unfoldable pub flush_aodv_route_table : M (Unit {0})
  unfolding flush_routes update_my_load insert_timer_simple update_timer_queue
  flush_aodv_route_table = do
    n ← get
    flush_routes n.routes
    when (n.routing_metric == wcim_metric_id) update_my_load
    insert_timer_simple task_cleanup hello_interval n.mesh_ip
    update_timer_queue
