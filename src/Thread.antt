-- ===== src/Thread.antt =====
-- aodv_thread.c: the tasks that the thread serves.
use aodv_android.Base.{ℕ}
use aodv_android.Kernel.{Kernel}
use aodv_android.Message.{Rreq, Rrep, Rerr, Rcvp, Rrdp, RreqSt, Hello, SProbe, LProbe, EttInfo}
use aodv_android.Params.{active_gwroute_timeout}
use aodv_android.Task.{Task, task_gw_cleanup}
use aodv_android.GwList.{update_gw_lifetimes}
use aodv_android.Node.{update, deref}
use aodv_android.Node.Timers.{insert_timer_simple, update_timer_queue}
use aodv_android.Routing.{update_my_load, flush_aodv_route_table}
use aodv_android.Handlers.Rreq.{recv_rreq, resend_rreq, gen_rreq}
use aodv_android.Handlers.Rrep.{recv_rrep, gen_rrep}
use aodv_android.Handlers.Rerr.{recv_rerr, gen_rerr}
use aodv_android.Handlers.Rcvp.{recv_rcvp, recv_rrdp}
use aodv_android.Handlers.StRreq.{recv_rreq_st, gen_st_rreq}
use aodv_android.Handlers.Neighbours.{delete_aodv_neigh, delete_aodv_neigh_2h}
use aodv_android.Handlers.Hello.{gen_hello, recv_hello}
use aodv_android.Handlers.Probe.{send_probe, recv_sprobe, recv_lprobe, reset_ett, recv_ett_info}
use aodv_android.Node.{M, pure, ◌>>=◌, ◌>>◌, get}

-- A task of the switch with the packet at its `data`, and the call of gen_rerr at a lost link.
pub data Event : Type 0 where
  cleanup st gw_cleanup update_load hello : Event
  dtn_hello : (tos : ℕ) → Event
  got_rrep : Task → Rrep → Event
  got_rerr : Task → Rerr → Event
  got_rcvp : Rcvp → Event
  got_rrdp : Task → Rrdp → Event
  got_rreq : Task → Rreq → Event
  got_strreq : Task → RreqSt → Event
  resend send_reply new_request : Task → Event
  got_hello : Task → Hello → Event
  got_sprobe : Task → SProbe → Event
  got_lprobe : Task → LProbe → Event
  got_ett_info : Task → EttInfo → Event
  send_ett ett_cleanup neighbor neighbor_2h : Task → Event
  lost_link : (brk_dst_ip : ℕ) → Event

module _ ⦃k : Kernel⦄ where
  -- TASK_GW_CLEANUP, with update_gw_lifetimes on the state.
  unfoldable pub serve_gw_cleanup : M (Unit {0})
  serve_gw_cleanup = do
    n ← get
    (gw, gws) ← deref (update_gw_lifetimes n.now n.null_ip n.gws)
    update λ m. record m { default_gw = gw; gws = gws }
    insert_timer_simple task_gw_cleanup active_gwroute_timeout n.mesh_ip
    update_timer_queue

  -- The switch; what the handlers return is dropped.
  unfoldable pub dispatch : Event → M (Unit {0})
  dispatch (Event.dtn_hello tos) = do n ← get; gen_rreq n.mesh_ip n.dtn_hello_ip tos; pure tt
  dispatch Event.cleanup = flush_aodv_route_table
  dispatch Event.st = gen_st_rreq >> pure tt
  dispatch Event.gw_cleanup = serve_gw_cleanup
  dispatch Event.update_load = update_my_load
  dispatch (Event.got_rrep t p) = recv_rrep t p >> pure tt
  dispatch (Event.got_rerr t p) = recv_rerr t p >> pure tt
  dispatch (Event.got_rcvp p) = recv_rcvp p >> pure tt
  dispatch (Event.got_rrdp t p) = recv_rrdp t p >> pure tt
  dispatch (Event.got_rreq t p) = recv_rreq t p >> pure tt
  dispatch (Event.got_strreq t p) = recv_rreq_st t p >> pure tt
  dispatch (Event.resend t) = resend_rreq t >> pure tt
  dispatch (Event.send_reply t) = gen_rrep t.src_ip t.dst_ip t.tos >> pure tt
  dispatch (Event.new_request t) = gen_rreq t.src_ip t.dst_ip t.tos >> pure tt
  dispatch (Event.lost_link ip) = gen_rerr ip >> pure tt
  dispatch Event.hello = gen_hello >> pure tt
  dispatch (Event.got_hello t p) = recv_hello t p >> pure tt
  dispatch (Event.neighbor t) = delete_aodv_neigh t.src_ip >> pure tt
  dispatch (Event.neighbor_2h t) = delete_aodv_neigh_2h t.src_ip >> pure tt
  dispatch (Event.send_ett t) = send_probe t.dst_ip
  dispatch (Event.got_sprobe t p) = recv_sprobe t p
  dispatch (Event.got_lprobe t p) = recv_lprobe t p
  dispatch (Event.ett_cleanup t) = reset_ett t.src_ip
  dispatch (Event.got_ett_info t p) = recv_ett_info t p
