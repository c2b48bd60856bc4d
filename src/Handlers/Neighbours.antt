-- ===== src/Handlers/Neighbours.antt =====
-- aodv_neigh.c and aodv_neigh_2h.c on the state of a node: a neighbour comes and goes.
use aodv_android.Base.{
  ℕ, ◌+◌, ◌*◌, ◌%◌, Bool, true, false, not, if◌then◌else◌, ◌==◌, first, List, [], ◌∷◌,
}
use aodv_android.Kernel.{Kernel}
use aodv_android.Params.{
  u32, no_tos, hops_metric, neighbor_2h_timeout, ett_interval, allowed_ett_loss,
}
use aodv_android.Task.{task_send_ett, task_ett_cleanup, task_neighbor_2h}
use aodv_android.RouteTable.{RouteState, find_aodv_route, remove_aodv_route}
use aodv_android.SrcList.{find_src_list_entry}
use aodv_android.Neighs.{
  Neigh, neigh_ip, neigh_2h_ip, new_neigh, new_neigh_2h, is_duplicate, insert_neigh, delete_neigh,
  update_neigh,
}
use aodv_android.Routing.{create_aodv_route, read_route, write_route}
use aodv_android.Handlers.{Status}
use aodv_android.Handlers.Rerr.{gen_rerr}
use aodv_android.Node.{
  M, pure, ◌>>=◌, ◌>>◌, get, update, when, if_null, kmalloc, get_random, rpdb_route,
}
use aodv_android.Node.Timers.{insert_timer_simple, delete_timer, update_timer_queue}

-- A write through the pointer to a neighbour.
abbrev pub write_neigh : (ip : ℕ) → (Neigh → Neigh) → M (Unit {0})
write_neigh ip f = update λ n. record n { neighs = update_neigh ip f n.neighs }

-- The kernel route of route_aodv_neigh on the entry of the neighbour. Where the kernel refuses it the
-- entry is freed while it stands in the table, the answer is 0, and the handler goes on. What the model
-- says of the table holds up to the next step of the thread, which may read the freed entry.
unfoldable pub install_neigh_route : (neigh_ip : ℕ) → M Bool
unfolding rpdb_route
install_neigh_route neigh_ip = do
  n ← get
  if_null (find_src_list_entry n.mesh_ip n.srcs) (pure false) (λ s. do
    ok ← rpdb_route true s.rt_table 0 n.mesh_ip neigh_ip neigh_ip n.dev_index 1
    if ok then pure true else update (λ m. record m { freed_route = true }) >> pure false)

-- The next hop stays the 0 that create_aodv_route wrote.
unfoldable pub route_aodv_neigh : (neigh_ip : ℕ) → M Bool
unfolding create_aodv_route install_neigh_route
route_aodv_neigh neigh_ip = do
  n ← get
  local ← read_route n.local_route
  a ← create_aodv_route n.mesh_ip neigh_ip 0 local.dst_id
  if_null a (pure false) (λ addr.
      write_route addr (λ r. record r {
        num_hops = 1;
        path_metric = 1;
        dev = n.dev_index;
        state = RouteState.active;
        neigh_route = true;
        self_route = true;
      })
      >> install_neigh_route neigh_ip)

-- The walk of cleanup_neigh_routes. The failure of a deletion is only printed.
unfoldable pub drop_neigh_routes : (rt_table : ℕ) → List Neigh → M (Unit {0})
unfolding rpdb_route
drop_neigh_routes rt_table [] = pure tt
drop_neigh_routes rt_table (m ∷ ms) = do
  n ← get
  rpdb_route false rt_table 0 n.mesh_ip m.ip m.ip n.dev_index 1
  n ← get
  if_null (find_aodv_route n.mesh_ip m.ip 0 n.routes) (pure tt)
      (λ r. update (λ n. record n { routes = remove_aodv_route r.addr n.routes }))
  drop_neigh_routes rt_table ms

unfoldable pub cleanup_neigh_routes : M (Unit {0})
unfolding drop_neigh_routes
cleanup_neigh_routes = do
  n ← get
  if_null (find_src_list_entry n.mesh_ip n.srcs) (pure tt)
      (λ s. drop_neigh_routes s.rt_table n.neighs)

-- `(rand*ip)%2000`: the product is taken in 32 bits.
abbrev pub ett_jitter : (rand ip : ℕ) → ℕ
ett_jitter rand ip = u32 (rand * ip) % 2000

module _ ⦃k : Kernel⦄ where
  -- The timers of the probes to a neighbour.
  unfoldable pub start_probes : (ip : ℕ) → M (Unit {0})
  unfolding insert_timer_simple update_timer_queue
  start_probes ip = do
    rand ← get_random
    insert_timer_simple task_send_ett (1000 + 10 * ett_jitter rand ip) ip
    insert_timer_simple task_ett_cleanup (ett_interval * (1 + allowed_ett_loss) + 100) ip
    update_timer_queue

  unfoldable pub link_neigh : (ip : ℕ) → M Bool
  unfolding start_probes
  link_neigh ip = do
    n ← get
    update λ m. record m { neighs = insert_neigh neigh_ip (new_neigh ip n.fixed_rate) m.neighs }
    when (not (n.routing_metric == hops_metric)) (start_probes ip)
    pure true

  -- Whether the new neighbour is not NULL; it is then the one with the address.
  unfoldable pub create_aodv_neigh : (ip : ℕ) → M Bool
  unfolding route_aodv_neigh link_neigh
  create_aodv_neigh ip = do
    c ← kmalloc
    n ← get
    if_null c (pure false) (λ _.
        if is_duplicate neigh_ip ip n.neighs
        then pure false
        else (do ok ← route_aodv_neigh ip; if ok then link_neigh ip else pure false))

  -- The place of the entry is found from the head, to the end of the list.
  unfoldable pub unlink_neigh : (ip : ℕ) → M (Unit {0})
  unfolding delete_timer update_timer_queue
  unlink_neigh ip = do
    update λ m. record m { neighs = delete_neigh neigh_ip ip m.neighs }
    n ← get
    when (not (n.routing_metric == hops_metric)) (
        delete_timer ip ip no_tos task_send_ett
        >> delete_timer ip ip no_tos task_ett_cleanup
        >> update_timer_queue)

  unfoldable pub delete_aodv_neigh : (ip : ℕ) → M Status
  unfolding unlink_neigh gen_rerr
  delete_aodv_neigh ip = do
    n ← get
    if_null (first (λ m. m.ip == ip) n.neighs) (pure Status.no_data)
        (λ _. unlink_neigh ip >> gen_rerr ip >> pure Status.ret0)

  -- Whether the new neighbour is not NULL.
  unfoldable pub create_aodv_neigh_2h : (ip : ℕ) → M Bool
  unfolding insert_timer_simple update_timer_queue
  create_aodv_neigh_2h ip = do
    c ← kmalloc
    n ← get
    if_null c (pure false) (λ _. if is_duplicate neigh_2h_ip ip n.neighs_2h then pure false else (do
      update
          λ m. record m { neighs_2h = insert_neigh neigh_2h_ip (new_neigh_2h n.now ip) m.neighs_2h }
      insert_timer_simple task_neighbor_2h (neighbor_2h_timeout + 100) ip
      update_timer_queue
      pure true))

  unfoldable pub delete_aodv_neigh_2h : (ip : ℕ) → M Status
  unfolding update_timer_queue
  delete_aodv_neigh_2h ip = do
    n ← get
    if_null (first (λ m. m.ip == ip) n.neighs_2h) (pure Status.ret0) (λ _.
        update (λ m. record m { neighs_2h = delete_neigh neigh_2h_ip ip m.neighs_2h })
        >> update_timer_queue
        >> pure Status.ret1)
