-- ===== src/Invariant/Routing.antt =====
-- The operations of aodv_route.c keep the form of the tables.
use aodv_android.Base.{ℕ, ◌-◌, refl, ◌==◌, ◌&&◌, not, true, false, List, [], ◌∷◌}
use aodv_android.Kernel.{Kernel, before}
use aodv_android.Params.{wcim_metric_id, hello_interval}
use aodv_android.Task.{task_cleanup}
use aodv_android.RouteTable.{
  Route, RouteState, is_invalid, is_active, find_aodv_route, expire_aodv_route,
}
use aodv_android.SrcList.{SrcEntry, find_src_list_entry}
use aodv_android.Neighs.{Neigh}
use aodv_android.Flows.{compute_load}
use aodv_android.Sources.{insert_src_list_entry}
use aodv_android.Routing.{
  update_my_load, create_aodv_route, write_route, read_route, accepted, set_load, install,
  count_source, supersedes, replace_route, start_route, rreq_aodv_route, reply_route,
  rrep_aodv_route, release_source, flush_route, flush_routes, flush_aodv_route_table,
}
use aodv_android.Node.{pure, ◌>>◌, when, deref, if_null, rpdb_route}
use aodv_android.Node.Timers.{insert_timer_simple}
use aodv_android.Invariant.{
  Keeps, bind-Keeps, then-Keeps, if-Keeps, when-Keeps, if_null-Keeps, deref-Keeps,
}
use aodv_android.Invariant.Tables.{write_route-Keeps, remove_route-Keeps, create_aodv_route-Keeps}
use aodv_android.Invariant.Platform.{
  rpdb_route-Keeps, update_my_load-Keeps, read_route-Keeps, insert_timer_simple-Keeps,
  update_timer_queue-Keeps, insert_src_list_entry-Keeps, delete_src_list_entry-Keeps,
}

module _ (next_hop : Neigh) (hops dst_id path_metric : ℕ) where
  set_load-Keeps :
      (addr : ℕ) (previous : RouteState)
      → Keeps (set_load next_hop hops dst_id path_metric addr previous)
  unfolding set_load
  set_load-Keeps addr previous = bind-Keeps (read_route addr) _ (read_route-Keeps addr) λ r n w.
      bind-Keeps (deref (compute_load next_hop.send_rate r.tos n.flows)) _ (deref-Keeps _)
        (λ load.
          then-Keeps (write_route addr (λ r. record r { load = load })) _
            (write_route-Keeps addr _ (λ _. refl) (λ _. refl))
            (when-Keeps (is_active previous) _ update_my_load-Keeps))
        n w

  install-Keeps :
      (addr : ℕ) (previous : RouteState)
      → Keeps (install next_hop hops dst_id path_metric addr previous)
  unfolding install accepted
  install-Keeps addr previous n w =
      then-Keeps (write_route addr (accepted n.now n.dev_index next_hop.ip hops dst_id path_metric))
        _ (write_route-Keeps addr _ (λ _. refl) (λ _. refl))
        (then-Keeps
          (when (n.routing_metric == wcim_metric_id)
            (set_load next_hop hops dst_id path_metric addr previous))
          _ (when-Keeps _ _ (set_load-Keeps addr previous)) (λ _ w. w))
        n w

  count_source-Keeps : (src_ip : ℕ) → Keeps (count_source next_hop hops dst_id path_metric src_ip)
  unfolding count_source
  count_source-Keeps src_ip n w =
      bind-Keeps (if_null (find_src_list_entry src_ip n.srcs) (insert_src_list_entry src_ip) _) _
        (if_null-Keeps (find_src_list_entry src_ip n.srcs) (insert_src_list_entry src_ip)
          (λ _. pure true) (insert_src_list_entry-Keeps src_ip) (λ _ _ w. w))
        (λ ok. then-Keeps (when ok _) _ (when-Keeps ok _ (λ _ w. w)) (λ _ w. w)) n w

  replace_route-Keeps : (r : Route) → Keeps (replace_route next_hop hops dst_id path_metric r)
  unfolding replace_route
  replace_route-Keeps r =
      if-Keeps (supersedes next_hop hops dst_id path_metric r) _ _ (λ _ w. w)
        (if-Keeps (is_invalid r.state) _ _ (install-Keeps r.addr r.state) (
          bind-Keeps (rpdb_route false 0 r.tos r.src_ip r.dst_ip r.next_hop r.dev r.num_hops) _
            (rpdb_route-Keeps _ _ _ _ _ _ _ _)
            (λ ok. if-Keeps ok _ _ (install-Keeps r.addr r.state) (λ _ w. w))))

  start_route-Keeps :
      (src_ip dst_ip tos : ℕ)
      → Keeps (start_route next_hop hops dst_id path_metric src_ip dst_ip tos)
  unfolding start_route
  start_route-Keeps src_ip dst_ip tos =
      bind-Keeps (create_aodv_route src_ip dst_ip tos dst_id) _ (create_aodv_route-Keeps _ _ _ _)
        (λ a.
          if_null-Keeps a _ _ (λ _ w. w)
            (λ addr.
              bind-Keeps (count_source next_hop hops dst_id path_metric src_ip) _
                (count_source-Keeps src_ip)
                (λ ok. if-Keeps ok _ _ (install-Keeps addr RouteState.invalid) (λ _ w. w))))

  -- rreq_aodv_route keeps the tables in form, on every branch.
  pub rreq_aodv_route-Keeps :
      (src_ip dst_ip tos : ℕ)
      → Keeps (rreq_aodv_route next_hop hops dst_id path_metric src_ip dst_ip tos)
  unfolding rreq_aodv_route
  rreq_aodv_route-Keeps src_ip dst_ip tos n w =
      if_null-Keeps (find_aodv_route src_ip dst_ip tos n.routes) _ _
        (start_route-Keeps src_ip dst_ip tos) replace_route-Keeps n w

reply_route-Keeps : (addr src_ip dst_ip tos : ℕ) → Keeps (reply_route addr src_ip dst_ip tos)
unfolding reply_route
reply_route-Keeps addr src_ip dst_ip tos n w = write_route-Keeps addr _ (λ _. refl) (λ _. refl) n w

pub rrep_aodv_route-Keeps : (addr : ℕ) → Keeps (rrep_aodv_route addr)
unfolding rrep_aodv_route
rrep_aodv_route-Keeps addr = bind-Keeps (read_route addr) _ (read_route-Keeps addr) λ r n w.
    if_null-Keeps (find_src_list_entry r.src_ip n.srcs) _ _ (λ _ w. w)
      (λ s.
        bind-Keeps (rpdb_route true s.rt_table r.tos r.src_ip r.dst_ip r.next_hop r.dev r.num_hops)
          _ (rpdb_route-Keeps _ _ _ _ _ _ _ _)
          (λ ok. if-Keeps ok _ _ (reply_route-Keeps addr r.src_ip r.dst_ip r.tos) (λ _ w. w)))
      n w

release_source-Keeps : (r : Route) (s : SrcEntry) → Keeps (release_source r s)
unfolding release_source
release_source-Keeps r s n w =
    then-Keeps
      (when (not r.neigh_route) (
        rpdb_route false s.rt_table r.tos r.src_ip r.dst_ip r.next_hop r.dev r.num_hops >> pure tt))
      _
      (when-Keeps (not r.neigh_route) _ (
        then-Keeps (rpdb_route false s.rt_table r.tos r.src_ip r.dst_ip r.next_hop r.dev r.num_hops)
          _ (rpdb_route-Keeps _ _ _ _ _ _ _ _) (λ _ w. w)))
      (when-Keeps (s.num_routes - 1 == 0) _
        (if-Keeps (s.ip == n.mesh_ip) _ _ (λ _ w. w) (delete_src_list_entry-Keeps r.src_ip)))
      _ w

module _ ⦃k : Kernel⦄ where
  flush_route-Keeps : (r : Route) → Keeps (flush_route r)
  unfolding flush_route expire_aodv_route
  flush_route-Keeps r n w =
      if-Keeps (before r.lifetime n.now && not r.self_route) _ _
        (if-Keeps (is_invalid r.state) _ _
          (then-Keeps (if_null (find_src_list_entry r.src_ip n.srcs) (pure tt) (release_source r)) _
            (if_null-Keeps (find_src_list_entry r.src_ip n.srcs) (pure tt) (release_source r)
              (λ _ w. w) (release_source-Keeps r))
            (remove_route-Keeps r.addr))
          (write_route-Keeps r.addr _ (λ _. refl) (λ _. refl)))
        (λ _ w. w) n w

  flush_routes-Keeps : (rs : List Route) → Keeps (flush_routes rs)
  unfolding flush_routes
  flush_routes-Keeps [] = λ _ w. w
  flush_routes-Keeps (r ∷ rs) =
      then-Keeps (flush_route r) _ (flush_route-Keeps r) (flush_routes-Keeps rs)

  pub flush_aodv_route_table-Keeps : Keeps flush_aodv_route_table
  unfolding flush_aodv_route_table
  flush_aodv_route_table-Keeps n w =
      then-Keeps (flush_routes n.routes) _ (flush_routes-Keeps n.routes)
        (then-Keeps (when (n.routing_metric == wcim_metric_id) update_my_load) _
          (when-Keeps (n.routing_metric == wcim_metric_id) _ update_my_load-Keeps)
          (then-Keeps (insert_timer_simple task_cleanup hello_interval n.mesh_ip) _
            (insert_timer_simple-Keeps _ _ _) update_timer_queue-Keeps))
        n w
