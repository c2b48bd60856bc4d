-- ===== src/Invariant/Hooks.antt =====
-- The hooks keep the form of the tables.
use aodv_android.Base.{ℕ, ◌==◌, ◌&&◌, ◌||◌, not, refl, none, some}
use aodv_android.Kernel.{Kernel}
use aodv_android.Params.{aodv_port, wcim_metric_id}
use aodv_android.Message.{Message}
use aodv_android.Task.{task_dtn_hello, task_send_rrep, task_update_load}
use aodv_android.RouteTable.{Route, RouteState, find_aodv_route}
use aodv_android.Routing.{write_route}
use aodv_android.Handlers.Hello.{is_listed}
use aodv_android.Hooks.{Verdict, Packet, Sizes, answer, stamp, valid_aodv_packet}
use aodv_android.Hooks.Output.{
  mesh_address, usable, is_signalling, is_replied, without_route, over_route, output_handler,
}
use aodv_android.Hooks.Input.{insert_task, packet_in, serve_dtn, input_handler, dtn_broadcast}
use aodv_android.Node.{pure, ◌>>◌, when, deref, kmalloc}
use aodv_android.Node.Timers.{insert_timer_simple, insert_timer_directional, update_timer_queue}
use aodv_android.Invariant.{
  Keeps, bind-Keeps, then-Keeps, if-Keeps, when-Keeps, if_null-Keeps, deref-Keeps,
}
use aodv_android.Invariant.Tables.{kmalloc-Keeps, write_route-Keeps}
use aodv_android.Invariant.Platform.{
  insert_timer_simple-Keeps, insert_timer_directional-Keeps, update_timer_queue-Keeps,
}

insert_task-Keeps : (p : Packet) (m : Message) → Keeps (insert_task p m)
unfolding insert_task
insert_task-Keeps p m n w =
    bind-Keeps kmalloc _ kmalloc-Keeps
      (λ c.
        if_null-Keeps c (pure none) _ (λ _ w. w)
          (λ _.
            bind-Keeps kmalloc _ kmalloc-Keeps
              (λ d. if_null-Keeps d (pure none) _ (λ _ w. w) (λ _ _ w. w))))
      n w

packet_in-Keeps :
    (z : Sizes) (tv_sec tv_usec : ℕ) (p : Packet) → Keeps (packet_in z tv_sec tv_usec p)
unfolding packet_in
packet_in-Keeps z tv_sec tv_usec p =
    if_null-Keeps p.message (pure (answer Verdict.drop)) _ (λ _ w. w)
      (λ m.
        if-Keeps (valid_aodv_packet z p.size (some m)) _ (pure (answer Verdict.drop))
          (bind-Keeps (insert_task p (stamp tv_sec tv_usec m)) _ (insert_task-Keeps p _)
            (λ _ _ w. w))
          (λ _ w. w))

module _ ⦃k : Kernel⦄ where
  without_route-Keeps : (source destination tos : ℕ) → Keeps (without_route source destination tos)
  unfolding without_route
  without_route-Keeps source destination tos n w =
      if-Keeps (source == n.mesh_ip || source == n.null_ip && n.is_gateway) _ (pure _)
        (bind-Keeps kmalloc _ kmalloc-Keeps
          (λ c. then-Keeps (deref c) _ (deref-Keeps c) (λ _ w. w)))
        (λ _ w. w) n w

  over_route-Keeps : (r : Route) → Keeps (over_route r)
  unfolding over_route
  over_route-Keeps r n w =
      then-Keeps
        (when (is_replied r.state) (
          write_route r.addr (λ r. record r { state = RouteState.active })
          >> when (n.routing_metric == wcim_metric_id)
              (insert_timer_simple task_update_load 1 n.mesh_ip)))
        _
        (when-Keeps (is_replied r.state) _ (
          then-Keeps (write_route r.addr _) _
            (write_route-Keeps r.addr (λ r. record r { state = RouteState.active }) (λ _. refl)
              (λ _. refl))
            (when-Keeps (n.routing_metric == wcim_metric_id) _ (insert_timer_simple-Keeps _ _ _))))
        (λ m v. write_route-Keeps r.addr _ (λ _. refl) (λ _. refl) m v) n w

  pub output_handler-Keeps : (p : Packet) → Keeps (output_handler p)
  unfolding output_handler
  output_handler-Keeps p n w =
      if-Keeps
        (not n.initialized || is_signalling n p || mesh_address n p.daddr == mesh_address n p.saddr)
        (pure (answer Verdict.accept)) _ (λ _ w. w)
        (if_null-Keeps
          (usable
            (find_aodv_route (mesh_address n p.saddr) (mesh_address n p.daddr) p.tos n.routes))
          (without_route (mesh_address n p.saddr) (mesh_address n p.daddr) p.tos) over_route
          (without_route-Keeps _ _ _) over_route-Keeps)
        n w

  serve_dtn-Keeps : (p : Packet) → Keeps (serve_dtn p)
  unfolding serve_dtn
  serve_dtn-Keeps p n w =
      then-Keeps (when (n.dtn_register == 0 && p.dest == k.htons 9999) _) _
        (when-Keeps (n.dtn_register == 0 && p.dest == k.htons 9999) _ (λ _ w. w))
        (λ n w.
          then-Keeps
            (when (not (n.dtn_register == 0) && p.dest == k.htons 10001)
              (insert_timer_simple task_dtn_hello 0 n.mesh_ip >> update_timer_queue))
            _
            (when-Keeps (not (n.dtn_register == 0) && p.dest == k.htons 10001) _ (
              then-Keeps (insert_timer_simple task_dtn_hello 0 n.mesh_ip) update_timer_queue
                (insert_timer_simple-Keeps _ _ _) update_timer_queue-Keeps))
            (when-Keeps (not (n.dtn_register == 0) && p.dest == k.htons 10004) _ (λ m v.
              then-Keeps (insert_timer_directional task_send_rrep _ _ _ _ _) update_timer_queue
                (insert_timer_directional-Keeps _ _ _ _ _ _) update_timer_queue-Keeps _ v))
            n w)
        n w

  pub input_handler-Keeps :
      (z : Sizes) (local_ip tv_sec tv_usec : ℕ) (p : Packet)
      → Keeps (input_handler z local_ip tv_sec tv_usec p)
  unfolding input_handler
  input_handler-Keeps z local_ip tv_sec tv_usec p n w =
      if-Keeps n.initialized _ (pure (answer Verdict.accept))
        (then-Keeps (serve_dtn p) _ (serve_dtn-Keeps p) (
          if-Keeps
            (p.dest == k.htons 9556
              && p.daddr == dtn_broadcast
              && is_listed p.saddr n.dtn_blacklist)
            (pure (answer Verdict.drop)) _ (λ _ w. w)
            (if-Keeps
              (p.is_udp && p.is_ip && p.dest == k.htons aodv_port && not (p.saddr == local_ip))
              (packet_in z tv_sec tv_usec p) (pure (answer Verdict.accept))
              (packet_in-Keeps z tv_sec tv_usec p) (λ _ w. w))))
        (λ _ w. w) n w
