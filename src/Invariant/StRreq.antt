-- ===== src/Invariant/StRreq.antt =====
-- The handlers of gateway announcements keep the form of the tables.
use aodv_android.Base.{ℕ, ◌+◌, refl, ◌==◌, Bool, true, false, if◌then◌else◌}
use aodv_android.Kernel.{Kernel}
use aodv_android.Params.{u8, net_diameter}
use aodv_android.Message.{Message, RreqSt}
use aodv_android.Task.{Task}
use aodv_android.RouteTable.{find_aodv_route}
use aodv_android.Neighs.{Neigh, find_neigh}
use aodv_android.Routing.{write_route, read_route}
use aodv_android.Handlers.{local_broadcast, refresh_neigh, one_less}
use aodv_android.Node.{M, pure, ◌>>=◌, if_null, kmalloc}
use aodv_android.Node.Timers.{insert_timer_simple, update_timer_queue}
use aodv_android.Invariant.{Keeps, bind-Keeps, then-Keeps, if-Keeps, if_null-Keeps}
use aodv_android.Invariant.Tables.{write_route-Keeps, kmalloc-Keeps}
use aodv_android.Invariant.Platform.{
  read_route-Keeps, insert_timer_simple-Keeps, update_timer_queue-Keeps,
}
use aodv_android.GwList.{refresh}
use aodv_android.Params.{st_interval}
use aodv_android.Task.{task_st}
use aodv_android.Handlers.StRreq.{
  send_st_rreq, gen_st_rreq, is_unknown, learn_gw, st_metric, pass_on, known_st_rreq, recv_rreq_st,
  convert_rreq_to_network_st, convert_rreq_to_host_st,
}
use aodv_android.Invariant.Handlers.{local_broadcast-Keeps, refresh_neigh-Keeps}

module _ ⦃k : Kernel⦄ where
  send_st_rreq-Keeps : (addr : ℕ) → Keeps (send_st_rreq addr)
  unfolding send_st_rreq
  send_st_rreq-Keeps addr =
      then-Keeps (write_route addr _) _ (write_route-Keeps addr _ (λ _. refl) (λ _. refl)) (
        bind-Keeps (read_route addr) _ (read_route-Keeps addr) λ r n w.
          let m = Message.st_rreq (
            convert_rreq_to_network_st
              (record { num_hops = 0; gw_ip = n.mesh_ip; dst_id = r.dst_id; path_metric = 0 })) in
          then-Keeps (local_broadcast net_diameter m) _ (local_broadcast-Keeps net_diameter m)
            (then-Keeps (insert_timer_simple task_st st_interval n.mesh_ip) _
              (insert_timer_simple-Keeps task_st st_interval n.mesh_ip)
              (then-Keeps update_timer_queue _ update_timer_queue-Keeps (λ _ w. w)))
            n w)

  pub gen_st_rreq-Keeps : Keeps gen_st_rreq
  unfolding gen_st_rreq
  gen_st_rreq-Keeps n w =
      if-Keeps n.is_gateway _ _
        (bind-Keeps kmalloc _ kmalloc-Keeps (λ c.
          if_null-Keeps c _ _ (λ _ w. w)
            (λ _.
              if_null-Keeps (find_aodv_route n.mesh_ip n.mesh_ip 0 n.routes) _ _ (λ _ w. w)
                (λ r. send_st_rreq-Keeps r.addr))))
        (λ _ w. w) n w

learn_gw-Keeps :
    (gw_ip dst_id num_hops path_metric : ℕ) → Keeps (learn_gw gw_ip dst_id num_hops path_metric)
unfolding learn_gw
learn_gw-Keeps gw_ip dst_id num_hops path_metric n w =
    let fresh = is_unknown (refresh n.now gw_ip dst_id num_hops path_metric n.gws) in
    let room : M Bool = kmalloc >>= λ c. if_null c (pure false) (λ _. pure true) in
    bind-Keeps (if fresh then room else pure false) _
      (if-Keeps fresh room (pure false)
        (bind-Keeps kmalloc _ kmalloc-Keeps (λ c. if_null-Keeps c _ _ (λ _ w. w) (λ _ _ w. w)))
        (λ _ w. w))
      (λ found _ w. w) n w

module _ ⦃k : Kernel⦄ where
  pass_on-Keeps : (ttl : ℕ) (q : RreqSt) → Keeps (pass_on ttl q)
  unfolding pass_on
  pass_on-Keeps ttl q =
      let m = Message.st_rreq (convert_rreq_to_network_st q) in
      bind-Keeps (learn_gw q.gw_ip q.dst_id q.num_hops q.path_metric) _ (learn_gw-Keeps _ _ _ _)
        (λ news.
          if-Keeps news _ _
            (then-Keeps (local_broadcast (one_less ttl) m) _
              (local_broadcast-Keeps (one_less ttl) m) (λ _ w. w))
            (λ _ w. w))

  known_st_rreq-Keeps : (t : Task) (q : RreqSt) (neigh : Neigh) → Keeps (known_st_rreq t q neigh)
  unfolding known_st_rreq
  known_st_rreq-Keeps t q neigh =
      then-Keeps (refresh_neigh neigh.ip) _ (refresh_neigh-Keeps neigh.ip) λ n w.
        let hops = u8 (q.num_hops + 1) in
        if-Keeps (n.mesh_ip == q.gw_ip) _ _ (λ _ w. w)
          (if_null-Keeps (st_metric n neigh hops q.path_metric) _ _ (λ _ w. w)
            (λ c. pass_on-Keeps t.ttl (record q { num_hops = hops; path_metric = c })))
          n w

  pub recv_rreq_st-Keeps : (t : Task) (p : RreqSt) → Keeps (recv_rreq_st t p)
  unfolding recv_rreq_st
  recv_rreq_st-Keeps t p n w =
      if_null-Keeps (find_neigh (λ m. m.ip) t.src_ip n.neighs) _ _ (λ _ w. w)
        (known_st_rreq-Keeps t (convert_rreq_to_host_st p)) n w
