-- ===== src/Handlers/Rreq/Flooding.antt =====
-- recv_rreq lowers the TTL of the requests that it forwards.
use mathlib.Core.Path.{subst}
use aodv_android.Base.{
  ℕ, ◌≤◌, ◌<◌, ◌+◌, ◌*◌, ◌≡◌, sym, ◌==◌, inl, inr, not, ◌&&◌, ◌||◌, some, [], if◌then◌else◌, All,
  Bool-cases, arith, leb,
}
use aodv_android.Kernel.{Kernel}
use aodv_android.Params.{u8, rrep_timer, no_tos, hello_interval, allowed_hello_loss}
use aodv_android.Message.{Message, Rreq}
use aodv_android.Task.{Task, task_send_rrep, task_neighbor}
use aodv_android.Neighs.{Neigh, find_neigh}
use aodv_android.TimerQueue.{find_timer}
use aodv_android.Routing.{rreq_aodv_route}
use aodv_android.Node.{Node}
use aodv_android.Node.Preserves.{
  Behind, Preserves, bind-Preserves, then-Preserves, if-Preserves, if_null-Preserves,
}
use aodv_android.Node.Timers.{
  insert_timer_simple, insert_timer_directional, delete_timer, update_timer_queue,
}
use aodv_android.Handlers.{Status, one_less, local_broadcast, refresh_neigh}
use aodv_android.Handlers.Rreq.{
  Cost, is_destination, is_for_other_gateway, rreq_cost, answer_later, announce, forward_rreq,
  accept_rreq, accept_at, weigh_rreq, known_rreq, recv_rreq, convert_rreq_to_host,
}
use aodv_android.Handlers.Rreq.Effects.{
  Below, Low, rreq_aodv_route-Low, insert_timer_simple-Low, insert_timer_directional-Low,
  update_timer_queue-Low,
}

module _ ⦃k : Kernel⦄ (t : Task) (positive : 1 ≤ t.ttl) (small : t.ttl < 256) where
  refresh_neigh-Low : (ip : ℕ) → Preserves (Low t.ttl) (refresh_neigh ip)
  unfolding refresh_neigh delete_timer
  refresh_neigh-Low ip =
      then-Preserves (Low t.ttl) (delete_timer ip ip no_tos task_neighbor) _ (λ _ w. w)
        (then-Preserves (Low t.ttl)
          (insert_timer_simple task_neighbor (hello_interval * (1 + allowed_hello_loss) + 100) ip) _
          (insert_timer_simple-Low t.ttl _ _ ip)
          (then-Preserves (Low t.ttl) update_timer_queue _ (update_timer_queue-Low t.ttl)
            (λ _ w. w)))

  answer_later-Low : (q : Rreq) → Preserves (Low t.ttl) (answer_later q)
  unfolding answer_later
  answer_later-Low q n w =
      if-Preserves (Low t.ttl) (find_timer q.src_ip q.dst_ip q.tos task_send_rrep n.timers) _ _
        (λ _ w. w)
        (then-Preserves (Low t.ttl)
          (insert_timer_directional task_send_rrep rrep_timer 0 q.src_ip q.dst_ip q.tos) _
          (insert_timer_directional-Low t.ttl _ _ _ _ _ _) (update_timer_queue-Low t.ttl))
        n w

  announce-Low : (q : Rreq) → Preserves (Low t.ttl) (announce q)
  unfolding announce
  announce-Low q n w =
      if-Preserves (Low t.ttl) (not (n.dtn_register == 0) && leb 1 q.dttl) _ _ (λ _ w. (tt, w))
        (λ _ w. w) n w

  local_broadcast-Low : (m : Message) → Preserves (Low t.ttl) (local_broadcast (one_less t.ttl) m)
  unfolding local_broadcast
  local_broadcast-Low m n w =
      let lower : one_less t.ttl < t.ttl = omega arith in
      elim (Bool-cases (leb 1 (one_less t.ttl))) [
        | inl out ↦ rw out (lower, w)
        | inr quiet ↦ rw quiet w
      ]

  forward_rreq-Low : (q : Rreq) → Preserves (Low t.ttl) (forward_rreq t.ttl q)
  unfolding forward_rreq
  forward_rreq-Low q =
      bind-Preserves (Low t.ttl) (announce q) _ (announce-Low q) (λ q. local_broadcast-Low _)

  accept_rreq-Low : (neigh : Neigh) (q : Rreq) → Preserves (Low t.ttl) (accept_rreq t neigh q)
  unfolding accept_rreq
  accept_rreq-Low neigh q =
      bind-Preserves (Low t.ttl)
        (rreq_aodv_route neigh q.num_hops q.dst_id q.path_metric q.dst_ip q.src_ip q.tos) _
        (rreq_aodv_route-Low t.ttl neigh q.num_hops q.dst_id q.path_metric q.dst_ip q.src_ip q.tos)
        (λ ok n w.
          if-Preserves (Low t.ttl) ok _ _
            (then-Preserves (Low t.ttl)
              (if is_destination n q then answer_later q else forward_rreq t.ttl q) _
              (if-Preserves (Low t.ttl) (is_destination n q) _ _ (answer_later-Low q)
                (forward_rreq-Low q))
              (λ _ w. w))
            (λ _ w. w) n w)

  accept_at-Low :
      (neigh : Neigh) (q : Rreq) (c : Cost) → Preserves (Low t.ttl) (accept_at t neigh q c)
  accept_at-Low neigh q Cost.fault n w = tt
  accept_at-Low neigh q Cost.too_high n w = w
  accept_at-Low neigh q (Cost.cost c) n w = accept_rreq-Low neigh (record q { path_metric = c }) n w

  known_rreq-Low : (q : Rreq) (neigh : Neigh) → Preserves (Low t.ttl) (known_rreq t q neigh)
  unfolding known_rreq weigh_rreq
  known_rreq-Low q neigh =
      bind-Preserves (Low t.ttl) (refresh_neigh neigh.ip) _ (refresh_neigh-Low neigh.ip) (λ _ n w.
        if-Preserves (Low t.ttl) (n.mesh_ip == q.src_ip || is_for_other_gateway n q) _ _ (λ _ w. w)
          (λ n w.
            let weighed = record q { num_hops = u8 (q.num_hops + 1) } in
            accept_at-Low neigh weighed (rreq_cost n neigh weighed) n w)
          n w)

  recv_rreq-Low : (packet : Rreq) → Preserves (Low t.ttl) (recv_rreq t packet)
  unfolding recv_rreq
  recv_rreq-Low packet n w =
      let q = convert_rreq_to_host packet in
      if-Preserves (Low t.ttl) (leb t.ttl 1 && not (is_destination n q)) _ _ (λ _ w. w)
        (if_null-Preserves (Low t.ttl) (find_neigh (λ m. m.ip) t.src_ip n.neighs) _ _ (λ _ w. w)
          (known_rreq-Low q))
        n w

module _ ⦃k : Kernel⦄ where
  -- Of a request that came with a TTL from 1 to 255, recv_rreq broadcasts only requests with a smaller
  -- TTL; nothing is said where it faults.
  pub recv_rreq_lowers :
      (t : Task) (packet : Rreq) (n m : Node) (a : Status)
      → 1 ≤ t.ttl
      → t.ttl < 256
      → n.log ≡ []
      → recv_rreq t packet n ≡ some (a, m)
      → All (Below t.ttl) m.log
  recv_rreq_lowers t packet n m a positive small empty e =
      subst (Behind (Low t.ttl)) e
        (recv_rreq-Low t positive small packet n (subst (All (Below t.ttl)) (sym empty) tt))
