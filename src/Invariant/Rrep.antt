-- ===== src/Invariant/Rrep.antt =====
-- The handlers of route replies keep the form of the tables.
use aodv_android.Base.{ℕ, ◌+◌, ◌-◌, refl, ◌==◌, ◌&&◌, not, if◌then◌else◌, leb}
use aodv_android.Kernel.{Kernel}
use aodv_android.Params.{u8, sub32, dttl_max}
use aodv_android.Message.{Rrep}
use aodv_android.Task.{Task}
use aodv_android.RouteTable.{Route, find_aodv_route, find_aodv_route_by_id}
use aodv_android.Neighs.{Neigh, find_neigh}
use aodv_android.Routing.{
  create_aodv_route, rreq_aodv_route, rrep_aodv_route, write_route, read_route,
}
use aodv_android.Handlers.{next_dst_id, refresh_neigh}
use aodv_android.Node.{pure, when, deref, if_null, kmalloc}
use aodv_android.Node.Timers.{update_timer_queue, delete_timer}
use aodv_android.Invariant.{
  Keeps, bind-Keeps, then-Keeps, if-Keeps, when-Keeps, if_null-Keeps, deref-Keeps,
}
use aodv_android.Invariant.Tables.{write_route-Keeps, kmalloc-Keeps, create_aodv_route-Keeps}
use aodv_android.Invariant.Platform.{read_route-Keeps, update_timer_queue-Keeps}
use aodv_android.Invariant.Routing.{rreq_aodv_route-Keeps, rrep_aodv_route-Keeps}
use aodv_android.BrkList.{find_first_brk_link_with_dst}
use aodv_android.Handlers.Rcvp.{gen_rcvp}
use aodv_android.Handlers.Rrep.{
  use_reply, finish_rrep, dtn_reverse_route, reverse_route, pass_reply, forward_rrep, is_source,
  known_rrep, recv_rrep, send_rrep, dtn_route, reply_on, gen_rrep, convert_rrep_to_host,
}
use aodv_android.Invariant.Rcvp.{gen_rcvp-Keeps}
use aodv_android.Invariant.Handlers.{next_dst_id-Keeps, refresh_neigh-Keeps}

module _ ⦃k : Kernel⦄ where
  use_reply-Keeps : (p : Rrep) (addr : ℕ) → Keeps (use_reply p addr)
  unfolding use_reply
  use_reply-Keeps p addr = then-Keeps (rrep_aodv_route addr) _ (rrep_aodv_route-Keeps addr) λ n w.
      then-Keeps (write_route addr (λ r. record r { last_hop = n.mesh_ip })) _
        (write_route-Keeps addr _ (λ _. refl) (λ _. refl))
        (then-Keeps (when (leb 1 p.dttl) _) _ (when-Keeps (leb 1 p.dttl) _ (λ _ w. w)) (
          if_null-Keeps (find_first_brk_link_with_dst p.dst_ip n.links) _ _ (λ _ w. w)
            (λ _. then-Keeps (gen_rcvp p.dst_ip) _ (gen_rcvp-Keeps p.dst_ip) (λ _ w. w))))
        n w

  finish_rrep-Keeps : (neigh : Neigh) (p : Rrep) → Keeps (finish_rrep neigh p)
  unfolding finish_rrep delete_timer
  finish_rrep-Keeps neigh p = then-Keeps update_timer_queue _ update_timer_queue-Keeps (
      then-Keeps (rreq_aodv_route neigh p.num_hops p.dst_id p.path_metric p.src_ip p.dst_ip p.tos) _
        (rreq_aodv_route-Keeps neigh p.num_hops p.dst_id p.path_metric p.src_ip p.dst_ip p.tos)
        (λ n w.
          let found = find_aodv_route_by_id p.dst_ip p.dst_id n.routes in
          let follow = λ (r : Route). use_reply p r.addr in
          then-Keeps (if_null found (pure tt) follow) _
            (if_null-Keeps found (pure tt) follow (λ _ w. w) (λ r. use_reply-Keeps p r.addr))
            (λ _ w. w) _ w))

  dtn_reverse_route-Keeps : (p : Rrep) → Keeps (dtn_reverse_route p)
  unfolding dtn_reverse_route
  dtn_reverse_route-Keeps p n w =
      if_null-Keeps (find_aodv_route n.dtn_hello_ip p.src_ip p.tos n.routes) _ _ (λ _ w. w)
        (λ r.
          bind-Keeps (create_aodv_route p.dst_ip p.src_ip p.tos p.dst_id) _
            (create_aodv_route-Keeps p.dst_ip p.src_ip p.tos p.dst_id)
            (λ a.
              bind-Keeps (deref a) _ (deref-Keeps a)
                (λ addr. write_route-Keeps addr _ (λ _. refl) (λ _. refl))))
        n w

  reverse_route-Keeps : (p : Rrep) → Keeps (reverse_route p)
  unfolding reverse_route
  reverse_route-Keeps p n w =
      if-Keeps (leb 1 p.dttl) _ _ (dtn_reverse_route-Keeps p)
        (if_null-Keeps (find_aodv_route_by_id p.src_ip p.src_id n.routes) _ _ (λ _ w. w)
          (λ _ _ w. w))
        n w

  pass_reply-Keeps : (p : Rrep) (recv_addr send_addr : ℕ) → Keeps (pass_reply p recv_addr send_addr)
  unfolding pass_reply
  pass_reply-Keeps p recv_addr send_addr =
      then-Keeps (rrep_aodv_route recv_addr) _ (rrep_aodv_route-Keeps recv_addr) (
        then-Keeps (rrep_aodv_route send_addr) _ (rrep_aodv_route-Keeps send_addr) (
          bind-Keeps (read_route recv_addr) _ (read_route-Keeps recv_addr) (λ back.
            then-Keeps (write_route send_addr (λ r. record r { last_hop = back.next_hop })) _
              (write_route-Keeps send_addr _ (λ _. refl) (λ _. refl))
              (bind-Keeps (read_route send_addr) _ (read_route-Keeps send_addr) (λ forth.
                write_route-Keeps recv_addr (λ r. record r { last_hop = forth.next_hop })
                  (λ _. refl) (λ _. refl))))))

  forward_rrep-Keeps : (neigh : Neigh) (p : Rrep) → Keeps (forward_rrep neigh p)
  unfolding forward_rrep
  forward_rrep-Keeps neigh p n w =
      bind-Keeps (reverse_route p) _ (reverse_route-Keeps p)
        (λ a.
          if_null-Keeps a _ _ (λ _ w. w)
            (λ recv_addr. bind-Keeps (read_route recv_addr) _ (read_route-Keeps recv_addr) (λ back.
              let metric = sub32 p.path_metric back.path_metric in
              then-Keeps (rreq_aodv_route neigh p.num_hops p.dst_id metric p.src_ip p.dst_ip p.tos)
                _ (rreq_aodv_route-Keeps neigh p.num_hops p.dst_id metric p.src_ip p.dst_ip p.tos)
                (λ n' w'.
                  let p' =
                    if leb 1 p.dttl && not (n.dtn_register == 0)
                    then record p { dttl = p.dttl - 1 }
                    else p in
                  let found = find_aodv_route_by_id p.dst_ip p.dst_id n'.routes in
                  let pass = λ (r : Route). pass_reply p' recv_addr r.addr in
                  then-Keeps (if_null found (pure tt) pass) _
                    (if_null-Keeps found (pure tt) pass (λ _ w. w)
                      (λ r. pass_reply-Keeps p' recv_addr r.addr))
                    (λ _ w. w) n' w'))))
        n w

  known_rrep-Keeps : (p : Rrep) (neigh : Neigh) → Keeps (known_rrep p neigh)
  unfolding known_rrep
  known_rrep-Keeps p neigh =
      then-Keeps (refresh_neigh neigh.ip) _ (refresh_neigh-Keeps neigh.ip) λ n w.
        let p' = record p { num_hops = u8 (p.num_hops + 1) } in
        if-Keeps (is_source n p) _ _ (finish_rrep-Keeps neigh p') (forward_rrep-Keeps neigh p') n w

  pub recv_rrep-Keeps : (t : Task) (p : Rrep) → Keeps (recv_rrep t p)
  unfolding recv_rrep
  recv_rrep-Keeps t p n w =
      if_null-Keeps (find_neigh (λ m. m.ip) t.src_ip n.neighs) _ _ (λ _ w. w)
        (known_rrep-Keeps (convert_rrep_to_host p)) n w

  send_rrep-Keeps : (addr tos dttl gateway : ℕ) → Keeps (send_rrep addr tos dttl gateway)
  unfolding send_rrep
  send_rrep-Keeps addr tos dttl gateway = bind-Keeps next_dst_id _ next_dst_id-Keeps (λ dst_id.
      bind-Keeps (read_route addr) _ (read_route-Keeps addr) λ r n w.
        then-Keeps (rrep_aodv_route addr) _ (rrep_aodv_route-Keeps addr)
          (write_route-Keeps addr (λ s. record s { last_hop = s.src_ip }) (λ _. refl) (λ _. refl)) n
          w)

  dtn_route-Keeps : (src_ip tos : ℕ) (r : Route) → Keeps (dtn_route src_ip tos r)
  unfolding dtn_route
  dtn_route-Keeps src_ip tos r = bind-Keeps next_dst_id _ next_dst_id-Keeps λ dst_id n w.
      bind-Keeps (create_aodv_route n.mesh_ip src_ip tos dst_id) _
        (create_aodv_route-Keeps n.mesh_ip src_ip tos dst_id)
        (λ a.
          if_null-Keeps a _ _ (λ _ w. w) (λ addr. write_route-Keeps addr _ (λ _. refl) (λ _. refl)))
        n w

  reply_on-Keeps : (src_ip dst_ip tos : ℕ) (r : Route) → Keeps (reply_on src_ip dst_ip tos r)
  unfolding reply_on
  reply_on-Keeps src_ip dst_ip tos r = bind-Keeps kmalloc _ kmalloc-Keeps (λ c.
      if_null-Keeps c _ _ (λ _ w. w)
        (λ c n w.
          if-Keeps (not (n.dtn_register == 0) && dst_ip == n.dtn_hello_ip) _ _
            (bind-Keeps (dtn_route src_ip tos r) _ (dtn_route-Keeps src_ip tos r) (λ a.
              if_null-Keeps a _ _ (λ _ w. w) (λ addr. send_rrep-Keeps addr tos dttl_max c.junk)))
            (send_rrep-Keeps r.addr tos 0 c.junk) n w))

  pub gen_rrep-Keeps : (src_ip dst_ip tos : ℕ) → Keeps (gen_rrep src_ip dst_ip tos)
  unfolding gen_rrep
  gen_rrep-Keeps src_ip dst_ip tos = bind-Keeps kmalloc _ kmalloc-Keeps (λ c.
      if_null-Keeps c _ _ (λ _ w. w)
        (λ _ n w.
          if_null-Keeps (find_aodv_route dst_ip src_ip tos n.routes) _ _ (λ _ w. w)
            (reply_on-Keeps src_ip dst_ip tos) n w))
