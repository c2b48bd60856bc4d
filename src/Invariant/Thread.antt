-- ===== src/Invariant/Thread.antt =====
-- The runs of the thread keep the form of the tables.
use aodv_android.Base.{false, ℕ, Bool, Option, some, List, ◌≡◌}
use aodv_android.Kernel.{Kernel}
use aodv_android.Params.{active_gwroute_timeout}
use aodv_android.Task.{task_gw_cleanup}
use aodv_android.GwList.{update_gw_lifetimes}
use aodv_android.Node.{deref}
use aodv_android.Node.Timers.{insert_timer_simple}
use aodv_android.Invariant.{bind-Keeps, deref-Keeps}
use aodv_android.Invariant.Platform.{insert_timer_simple-Keeps, update_timer_queue-Keeps}
use aodv_android.Thread.{Event, serve_gw_cleanup, dispatch}
use aodv_android.Handlers.Rreq.{recv_rreq, resend_rreq, gen_rreq}
use aodv_android.Handlers.Rrep.{recv_rrep, gen_rrep}
use aodv_android.Handlers.Rerr.{recv_rerr, gen_rerr}
use aodv_android.Handlers.Rcvp.{recv_rcvp, recv_rrdp}
use aodv_android.Handlers.StRreq.{recv_rreq_st, gen_st_rreq}
use aodv_android.Handlers.Neighbours.{delete_aodv_neigh, delete_aodv_neigh_2h}
use aodv_android.Handlers.Hello.{gen_hello, recv_hello}
use aodv_android.Node.{Node, Cell, M, pure, ◌>>◌}
use aodv_android.Invariant.{Fresh, WellFormed, Keeps, then-Keeps}
use aodv_android.Invariant.Platform.{update_my_load-Keeps}
use aodv_android.Invariant.Routing.{flush_aodv_route_table-Keeps}
use aodv_android.Invariant.Rreq.{recv_rreq-Keeps, resend_rreq-Keeps, gen_rreq-Keeps}
use aodv_android.Invariant.Rrep.{recv_rrep-Keeps, gen_rrep-Keeps}
use aodv_android.Invariant.Rerr.{recv_rerr-Keeps, gen_rerr-Keeps}
use aodv_android.Invariant.Rcvp.{recv_rcvp-Keeps, recv_rrdp-Keeps}
use aodv_android.Invariant.StRreq.{recv_rreq_st-Keeps, gen_st_rreq-Keeps}
use aodv_android.Invariant.Neighbours.{delete_aodv_neigh-Keeps, delete_aodv_neigh_2h-Keeps}
use aodv_android.Hooks.{Answer, Packet, Sizes}
use aodv_android.Hooks.Input.{input_handler}
use aodv_android.Hooks.Output.{output_handler}
use aodv_android.Invariant.Hooks.{input_handler-Keeps, output_handler-Keeps}
use aodv_android.Invariant.Hello.{gen_hello-Keeps, recv_hello-Keeps}
use aodv_android.Invariant.Probe.{
  send_probe-Keeps, recv_sprobe-Keeps, recv_lprobe-Keeps, reset_ett-Keeps, recv_ett_info-Keeps,
}

drop-Keeps : {A : Type 0} (m : M A) → Keeps m → Keeps (m >> pure tt)
drop-Keeps m h = then-Keeps m (pure tt) h (λ _ w. w)

module _ ⦃k : Kernel⦄ where
  serve_gw_cleanup-Keeps : Keeps serve_gw_cleanup
  unfolding serve_gw_cleanup
  serve_gw_cleanup-Keeps n w =
      bind-Keeps (deref (update_gw_lifetimes n.now n.null_ip n.gws)) _ (deref-Keeps _)
        (λ (gw, gws) m v.
          then-Keeps (insert_timer_simple task_gw_cleanup active_gwroute_timeout n.mesh_ip) _
            (insert_timer_simple-Keeps _ _ _) update_timer_queue-Keeps
            (record m { default_gw = gw; gws = gws }) v)
        n w

  dispatch-Keeps : (e : Event) → Keeps (dispatch e)
  unfolding dispatch
  dispatch-Keeps (Event.dtn_hello tos) =
      λ n w. drop-Keeps (gen_rreq n.mesh_ip n.dtn_hello_ip tos) (gen_rreq-Keeps _ _ _) n w
  dispatch-Keeps Event.cleanup = flush_aodv_route_table-Keeps
  dispatch-Keeps Event.st = drop-Keeps gen_st_rreq gen_st_rreq-Keeps
  dispatch-Keeps Event.gw_cleanup = serve_gw_cleanup-Keeps
  dispatch-Keeps Event.update_load = update_my_load-Keeps
  dispatch-Keeps (Event.got_rrep t p) = drop-Keeps (recv_rrep t p) (recv_rrep-Keeps t p)
  dispatch-Keeps (Event.got_rerr t p) = drop-Keeps (recv_rerr t p) (recv_rerr-Keeps t p)
  dispatch-Keeps (Event.got_rcvp p) = drop-Keeps (recv_rcvp p) (recv_rcvp-Keeps p)
  dispatch-Keeps (Event.got_rrdp t p) = drop-Keeps (recv_rrdp t p) (recv_rrdp-Keeps t p)
  dispatch-Keeps (Event.got_rreq t p) = drop-Keeps (recv_rreq t p) (recv_rreq-Keeps t p)
  dispatch-Keeps (Event.got_strreq t p) = drop-Keeps (recv_rreq_st t p) (recv_rreq_st-Keeps t p)
  dispatch-Keeps (Event.resend t) = drop-Keeps (resend_rreq t) (resend_rreq-Keeps t)
  dispatch-Keeps (Event.send_reply t) =
      drop-Keeps (gen_rrep t.src_ip t.dst_ip t.tos) (gen_rrep-Keeps _ _ _)
  dispatch-Keeps (Event.new_request t) =
      drop-Keeps (gen_rreq t.src_ip t.dst_ip t.tos) (gen_rreq-Keeps _ _ _)
  dispatch-Keeps (Event.lost_link ip) = drop-Keeps (gen_rerr ip) (gen_rerr-Keeps ip)
  dispatch-Keeps Event.hello = drop-Keeps gen_hello gen_hello-Keeps
  dispatch-Keeps (Event.got_hello t p) = drop-Keeps (recv_hello t p) (recv_hello-Keeps t p)
  dispatch-Keeps (Event.neighbor t) =
      drop-Keeps (delete_aodv_neigh t.src_ip) (delete_aodv_neigh-Keeps t.src_ip)
  dispatch-Keeps (Event.neighbor_2h t) =
      drop-Keeps (delete_aodv_neigh_2h t.src_ip) (delete_aodv_neigh_2h-Keeps t.src_ip)
  dispatch-Keeps (Event.send_ett t) = send_probe-Keeps t.dst_ip
  dispatch-Keeps (Event.got_sprobe t p) = recv_sprobe-Keeps t p
  dispatch-Keeps (Event.got_lprobe t p) = recv_lprobe-Keeps t p
  dispatch-Keeps (Event.ett_cleanup t) = reset_ett-Keeps t.src_ip
  dispatch-Keeps (Event.got_ett_info t p) = recv_ett_info-Keeps t p

  -- The states that a node comes to: the thread serves a task, a hook sees a packet of the device, or
  -- the environment sets the time, the coming blocks of memory, which no route stands in, and the
  -- kernel's coming answers. No step is taken from a state in which an entry of the table was freed.
  pub data Reaches (start : Node) : Node → Type 0 where
    here : Reaches start start
    serves :
        {n m : Node} (e : Event)
        → Reaches start n
        → n.freed_route ≡ false
        → dispatch e n ≡ some (tt, m)
        → Reaches start m
    receives :
        {n m : Node} {a : Answer} (z : Sizes) (local_ip tv_sec tv_usec : ℕ) (p : Packet)
        → Reaches start n
        → n.freed_route ≡ false
        → input_handler z local_ip tv_sec tv_usec p n ≡ some (a, m)
        → Reaches start m
    emits :
        {n m : Node} {a : Answer} (p : Packet)
        → Reaches start n
        → n.freed_route ≡ false
        → output_handler p n ≡ some (a, m)
        → Reaches start m
    provides :
        {n : Node} (now : ℕ) (memory : List (Option Cell)) (netlink : List Bool)
        → Reaches start n
        → n.freed_route ≡ false
        → Fresh memory n.routes
        → Reaches start (record n { now = now; memory = memory; netlink = netlink })

  -- From a state whose routing table and broken links are sorted, whose routes have distinct
  -- addresses, and whose coming memory is fresh, the thread and the hooks only come to states of that
  -- form, whatever tasks and packets come and whatever the time, memory and netlink answers are. The
  -- runs end at a fault, and where the kernel has refused the route to a new neighbour: then an entry of
  -- the table was freed.
  pub Reaches-WellFormed : (n m : Node) → WellFormed n → Reaches n m → WellFormed m
  Reaches-WellFormed n _ w here = w
  Reaches-WellFormed n m w (serves {n = p} e r live s) =
      rw s at (dispatch-Keeps e p (Reaches-WellFormed n p w r))
  Reaches-WellFormed n m w (receives {n = q} z l sec usec p r live s) =
      rw s at (input_handler-Keeps z l sec usec p q (Reaches-WellFormed n q w r))
  Reaches-WellFormed n m w (emits {n = q} p r live s) =
      rw s at (output_handler-Keeps p q (Reaches-WellFormed n q w r))
  Reaches-WellFormed n _ w (provides {n = p} now memory netlink r live f) =
      let v = Reaches-WellFormed n p w r in (v.0, v.1, f, v.3)
