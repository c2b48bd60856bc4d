-- ===== src/Invariant/Rreq.antt =====
-- The handlers of route requests keep the form of the tables.
use aodv_android.Base.{ℕ, ◌+◌, ◌==◌, ◌||◌, ◌&&◌, not, if◌then◌else◌, leb}
use aodv_android.Kernel.{Kernel}
use aodv_android.Params.{u8, net_diameter}
use aodv_android.Message.{Message, Rreq}
use aodv_android.Task.{Task, task_resend_rreq, task_send_rrep}
use aodv_android.TimerQueue.{find_timer}
use aodv_android.Neighs.{Neigh, find_neigh}
use aodv_android.Metric.{Cost}
use aodv_android.Routing.{rreq_aodv_route}
use aodv_android.Handlers.{local_broadcast, next_dst_id, refresh_neigh}
use aodv_android.Handlers.Rreq.{
  rreq_cost, is_destination, is_for_other_gateway, answer_later, announce, forward_rreq,
  accept_rreq, accept_at, new_rreq, weigh_rreq, known_rreq, recv_rreq, send_rreq, resend_rreq,
  gen_rreq, convert_rreq_to_host, convert_rreq_to_network,
}
use aodv_android.Node.{if_null, kmalloc}
use aodv_android.Node.Timers.{insert_timer_directional}
use aodv_android.Invariant.{Keeps, bind-Keeps, then-Keeps, if-Keeps, if_null-Keeps}
use aodv_android.Invariant.Tables.{kmalloc-Keeps}
use aodv_android.Invariant.Platform.{insert_timer_directional-Keeps, update_timer_queue-Keeps}
use aodv_android.Invariant.Routing.{rreq_aodv_route-Keeps}
use aodv_android.Invariant.Handlers.{local_broadcast-Keeps, next_dst_id-Keeps, refresh_neigh-Keeps}

module _ ⦃k : Kernel⦄ where
  answer_later-Keeps : (q : Rreq) → Keeps (answer_later q)
  unfolding answer_later
  answer_later-Keeps q n w =
      if-Keeps (find_timer q.src_ip q.dst_ip q.tos task_send_rrep n.timers) _ _ (λ _ w. w)
        (then-Keeps (insert_timer_directional _ _ _ _ _ _) _
          (insert_timer_directional-Keeps _ _ _ _ _ _) update_timer_queue-Keeps)
        n w

  announce-Keeps : (q : Rreq) → Keeps (announce q)
  unfolding announce
  announce-Keeps q n w =
      if-Keeps (not (n.dtn_register == 0) && leb 1 q.dttl) _ _ (λ _ w. w) (λ _ w. w) n w

  forward_rreq-Keeps : (ttl : ℕ) (q : Rreq) → Keeps (forward_rreq ttl q)
  unfolding forward_rreq
  forward_rreq-Keeps ttl q =
      bind-Keeps (announce q) _ (announce-Keeps q) (λ q. local_broadcast-Keeps _ _)

  accept_rreq-Keeps : (t : Task) (neigh : Neigh) (q : Rreq) → Keeps (accept_rreq t neigh q)
  unfolding accept_rreq
  accept_rreq-Keeps t neigh q =
      bind-Keeps (rreq_aodv_route neigh q.num_hops q.dst_id q.path_metric q.dst_ip q.src_ip q.tos) _
        (rreq_aodv_route-Keeps neigh q.num_hops q.dst_id q.path_metric q.dst_ip q.src_ip q.tos)
        λ ok n w.
          if-Keeps ok _ _
            (then-Keeps (if is_destination n q then answer_later q else forward_rreq t.ttl q) _
              (if-Keeps (is_destination n q) _ _ (answer_later-Keeps q)
                (forward_rreq-Keeps t.ttl q))
              (λ _ w. w))
            (λ _ w. w) n w

  accept_at-Keeps : (t : Task) (neigh : Neigh) (q : Rreq) (c : Cost) → Keeps (accept_at t neigh q c)
  accept_at-Keeps t neigh q Cost.fault n w = tt
  accept_at-Keeps t neigh q Cost.too_high n w = w
  accept_at-Keeps t neigh q (Cost.cost c) n w =
      accept_rreq-Keeps t neigh (record q { path_metric = c }) n w

  weigh_rreq-Keeps : (t : Task) (neigh : Neigh) (q : Rreq) → Keeps (weigh_rreq t neigh q)
  unfolding weigh_rreq
  weigh_rreq-Keeps t neigh q n w =
      let q' = record q { num_hops = u8 (q.num_hops + 1) } in
      accept_at-Keeps t neigh q' (rreq_cost n neigh q') n w

  known_rreq-Keeps : (t : Task) (q : Rreq) (neigh : Neigh) → Keeps (known_rreq t q neigh)
  unfolding known_rreq
  known_rreq-Keeps t q neigh =
      then-Keeps (refresh_neigh neigh.ip) _ (refresh_neigh-Keeps neigh.ip) λ n w.
        if-Keeps (n.mesh_ip == q.src_ip || is_for_other_gateway n q) _ _ (λ _ w. w)
          (weigh_rreq-Keeps t neigh q) n w

  pub recv_rreq-Keeps : (t : Task) (p : Rreq) → Keeps (recv_rreq t p)
  unfolding recv_rreq
  recv_rreq-Keeps t p n w =
      if-Keeps (leb t.ttl 1 && not (is_destination n (convert_rreq_to_host p))) _ _ (λ _ w. w)
        (if_null-Keeps (find_neigh (λ m. m.ip) t.src_ip n.neighs) _ _ (λ _ w. w)
          (known_rreq-Keeps t (convert_rreq_to_host p)))
        n w

  send_rreq-Keeps :
      (src_ip dst_ip tos dttl retries : ℕ) → Keeps (send_rreq src_ip dst_ip tos dttl retries)
  unfolding send_rreq
  send_rreq-Keeps src_ip dst_ip tos dttl retries =
      bind-Keeps next_dst_id _ next_dst_id-Keeps λ dst_id n w.
        let m = Message.rreq (convert_rreq_to_network (new_rreq n src_ip dst_ip tos dst_id dttl)) in
        then-Keeps (local_broadcast net_diameter m) _ (local_broadcast-Keeps net_diameter m)
          (then-Keeps (insert_timer_directional task_resend_rreq 0 retries src_ip dst_ip tos) _
            (insert_timer_directional-Keeps _ _ _ _ _ _) update_timer_queue-Keeps)
          n w

  pub resend_rreq-Keeps : (t : Task) → Keeps (resend_rreq t)
  unfolding resend_rreq
  resend_rreq-Keeps t =
      if-Keeps (t.retries == 0) _ _ (λ _ w. w)
        (bind-Keeps kmalloc _ kmalloc-Keeps (λ c.
          then-Keeps (if_null c _ _) _
            (if_null-Keeps c _ _ (λ _ w. w) (λ _. send_rreq-Keeps _ _ _ _ _)) (λ _ w. w)))

  pub gen_rreq-Keeps : (src_ip dst_ip tos : ℕ) → Keeps (gen_rreq src_ip dst_ip tos)
  unfolding gen_rreq
  gen_rreq-Keeps src_ip dst_ip tos n w =
      bind-Keeps kmalloc _ kmalloc-Keeps
        (λ c.
          then-Keeps (if_null c _ _) _
            (if_null-Keeps c _ _ (λ _ w. w) (λ _. send_rreq-Keeps _ _ _ _ _)) (λ _ w. w))
        n w
