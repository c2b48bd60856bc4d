-- ===== src/Invariant/Neighbours.antt =====
-- A neighbour that comes or goes keeps the form of the tables.
use aodv_android.Base.{ℕ, ◌==◌, not, refl, true, false, first}
use aodv_android.Kernel.{Kernel}
use aodv_android.Params.{hops_metric}
use aodv_android.Task.{task_send_ett, task_ett_cleanup}
use aodv_android.SrcList.{find_src_list_entry}
use aodv_android.RouteTable.{Route, RouteState}
use aodv_android.Neighs.{neigh_ip, neigh_2h_ip, is_duplicate}
use aodv_android.Routing.{create_aodv_route, read_route, write_route}
use aodv_android.Handlers.{Status}
use aodv_android.Handlers.Rerr.{gen_rerr}
use aodv_android.Handlers.Neighbours.{
  install_neigh_route, route_aodv_neigh, start_probes, link_neigh, create_aodv_neigh, unlink_neigh,
  delete_aodv_neigh, create_aodv_neigh_2h, delete_aodv_neigh_2h,
}
use aodv_android.Node.{Node, pure, ◌>>◌, when, kmalloc, get_random, rpdb_route, next_random}
use aodv_android.Node.Timers.{insert_timer_simple, delete_timer, update_timer_queue}
use aodv_android.Invariant.{Keeps, bind-Keeps, then-Keeps, if-Keeps, when-Keeps, if_null-Keeps}
use aodv_android.Invariant.Tables.{kmalloc-Keeps, write_route-Keeps, create_aodv_route-Keeps}
use aodv_android.Invariant.Platform.{
  rpdb_route-Keeps, read_route-Keeps, insert_timer_simple-Keeps, update_timer_queue-Keeps,
}
use aodv_android.Invariant.Rerr.{gen_rerr-Keeps}
use aodv_android.Base.{List, [], ◌∷◌}

next_random-Keeps : (rs : List ℕ) → Keeps (next_random rs)
next_random-Keeps [] n w = w
next_random-Keeps (r ∷ rs) n w = w

pub get_random-Keeps : Keeps get_random
unfolding get_random
get_random-Keeps n w = next_random-Keeps n.random n w

install_neigh_route-Keeps : (ip : ℕ) → Keeps (install_neigh_route ip)
unfolding install_neigh_route
install_neigh_route-Keeps ip n w =
    if_null-Keeps (find_src_list_entry n.mesh_ip n.srcs) (pure false) _ (λ _ w. w)
      (λ s.
        bind-Keeps (rpdb_route true s.rt_table 0 n.mesh_ip ip ip n.dev_index 1) _
          (rpdb_route-Keeps _ _ _ _ _ _ _ _)
          (λ ok. if-Keeps ok (pure true) _ (λ _ w. w) (λ _ w. w)))
      n w

abbrev neigh_fields : Node → Route → Route
neigh_fields n r = record r {
  num_hops = 1;
  path_metric = 1;
  dev = n.dev_index;
  state = RouteState.active;
  neigh_route = true;
  self_route = true;
}

route_aodv_neigh-Keeps : (ip : ℕ) → Keeps (route_aodv_neigh ip)
unfolding route_aodv_neigh
route_aodv_neigh-Keeps ip n w =
    bind-Keeps (read_route n.local_route) _ (read_route-Keeps n.local_route)
      (λ local.
        bind-Keeps (create_aodv_route n.mesh_ip ip 0 local.dst_id) _
          (create_aodv_route-Keeps _ _ _ _)
          (λ a.
            if_null-Keeps a (pure false) _ (λ _ w. w)
              (λ addr.
                then-Keeps (write_route addr (neigh_fields n)) (install_neigh_route ip)
                  (write_route-Keeps addr _ (λ _. refl) (λ _. refl))
                  (install_neigh_route-Keeps ip))))
      n w

module _ ⦃k : Kernel⦄ where
  pub start_probes-Keeps : (ip : ℕ) → Keeps (start_probes ip)
  unfolding start_probes
  start_probes-Keeps ip = bind-Keeps get_random _ get_random-Keeps (λ rand.
      then-Keeps (insert_timer_simple task_send_ett _ ip) _ (insert_timer_simple-Keeps _ _ _) (
        then-Keeps (insert_timer_simple task_ett_cleanup _ ip) _ (insert_timer_simple-Keeps _ _ _)
          update_timer_queue-Keeps))

  link_neigh-Keeps : (ip : ℕ) → Keeps (link_neigh ip)
  unfolding link_neigh
  link_neigh-Keeps ip n w =
      then-Keeps (when (not (n.routing_metric == hops_metric)) (start_probes ip)) (pure true)
        (when-Keeps (not (n.routing_metric == hops_metric)) _ (start_probes-Keeps ip)) (λ _ w. w) _
        w

  pub create_aodv_neigh-Keeps : (ip : ℕ) → Keeps (create_aodv_neigh ip)
  unfolding create_aodv_neigh
  create_aodv_neigh-Keeps ip = bind-Keeps kmalloc _ kmalloc-Keeps (λ c n w.
      if_null-Keeps c (pure false) _ (λ _ w. w)
        (λ _.
          if-Keeps (is_duplicate neigh_ip ip n.neighs) _ _ (λ _ w. w)
            (bind-Keeps (route_aodv_neigh ip) _ (route_aodv_neigh-Keeps ip)
              (λ ok. if-Keeps ok _ _ (link_neigh-Keeps ip) (λ _ w. w))))
        n w)

  unlink_neigh-Keeps : (ip : ℕ) → Keeps (unlink_neigh ip)
  unfolding unlink_neigh delete_timer
  unlink_neigh-Keeps ip n w =
      when-Keeps (not (n.routing_metric == hops_metric)) _ (λ n w. update_timer_queue-Keeps _ w) _ w

  pub delete_aodv_neigh-Keeps : (ip : ℕ) → Keeps (delete_aodv_neigh ip)
  unfolding delete_aodv_neigh
  delete_aodv_neigh-Keeps ip n w =
      if_null-Keeps (first (λ m. m.ip == ip) n.neighs) (pure Status.no_data) _ (λ _ w. w)
        (λ _.
          then-Keeps (unlink_neigh ip >> gen_rerr ip) _
            (then-Keeps (unlink_neigh ip) (gen_rerr ip) (unlink_neigh-Keeps ip) (gen_rerr-Keeps ip))
            (λ _ w. w))
        n w

  pub create_aodv_neigh_2h-Keeps : (ip : ℕ) → Keeps (create_aodv_neigh_2h ip)
  unfolding create_aodv_neigh_2h
  create_aodv_neigh_2h-Keeps ip = bind-Keeps kmalloc _ kmalloc-Keeps (λ c n w.
      if_null-Keeps c (pure false) _ (λ _ w. w)
        (λ _.
          if-Keeps (is_duplicate neigh_2h_ip ip n.neighs_2h) _ _ (λ _ w. w)
            (λ m v.
              then-Keeps (insert_timer_simple _ _ ip) _ (insert_timer_simple-Keeps _ _ _)
                (then-Keeps update_timer_queue _ update_timer_queue-Keeps (λ _ w. w)) _ v))
        n w)

  pub delete_aodv_neigh_2h-Keeps : (ip : ℕ) → Keeps (delete_aodv_neigh_2h ip)
  unfolding delete_aodv_neigh_2h
  delete_aodv_neigh_2h-Keeps ip n w =
      if_null-Keeps (first (λ m. m.ip == ip) n.neighs_2h) (pure Status.ret0) _ (λ _ w. w)
        (λ _ n w.
          then-Keeps update_timer_queue (pure Status.ret1) update_timer_queue-Keeps (λ _ w. w) _ w)
        n w
