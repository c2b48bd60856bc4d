-- ===== src/Handlers/Rreq/Effects.antt =====
-- The effects of recv_rreq on the log, up to the request that it forwards.
use aodv_android.Base.{
  ℕ, ◌<◌, ◌==◌, inl, inr, Bool, true, false, ◌||◌, Option, none, some, List, [], ◌∷◌, All, first,
  Bool-cases, ltb,
}
use aodv_android.Kernel.{Kernel}
use aodv_android.Params.{wcim_metric_id, max_route_tables}
use aodv_android.Task.{Task}
use aodv_android.Neighs.{Neigh}
use aodv_android.RouteTable.{
  Route, RouteState, active_load, is_active, is_invalid, find_aodv_route, at,
}
use aodv_android.SrcList.{find_src_list_entry, find_first_rttable}
use aodv_android.Flows.{compute_load}
use aodv_android.TimerQueue
use aodv_android.TimerQueue.{find_timer}
use aodv_android.Sources.{insert_src_list_entry, add_with_rule}
use aodv_android.Routing.{
  update_my_load, create_aodv_route, read_route, write_route, set_load, install, count_source,
  supersedes, replace_route, start_route, rreq_aodv_route,
}
use aodv_android.Node.{
  Node, Effect, Cell, pure, when, if_null, deref, kmalloc, allocate, next_answer, rtnetlink,
  rpdb_route, rpdb_rule,
}
use aodv_android.Node.Preserves.{
  Behind, Preserves, bind-Preserves, then-Preserves, if-Preserves, when-Preserves,
  if_null-Preserves, deref-Preserves,
}
use aodv_android.Node.Timers.{
  queue_new, set_timer, insert_timer_simple, insert_timer_directional, update_timer_queue,
}

-- No request is broadcast with this TTL or a greater one.
abbrev pub Below : (ttl : ℕ) → Effect → Type 0
Below ttl (Effect.broadcast sent m) = sent < ttl
Below ttl other = Unit {0}

module _ (ttl : ℕ) where
  abbrev pub Low : Node → Type 0
  Low n = All (Below ttl) n.log

  pub kmalloc-Low : Preserves Low kmalloc
  unfolding kmalloc
  kmalloc-Low n w = by_memory n.memory
    where
      by_memory : (cs : List (Option Cell)) → Behind Low (allocate cs n)
      by_memory [] = w
      by_memory (c ∷ cs) = w

  rtnetlink-Low : (e : Effect) → Below ttl e → Preserves Low (rtnetlink e)
  unfolding rtnetlink
  rtnetlink-Low e b n w = by_answers n.netlink
    where
      by_answers :
          (answers : List Bool) → Behind Low (next_answer answers (record n { log = e ∷ n.log }))
      by_answers [] = (b, w)
      by_answers (ok ∷ rest) = (b, w)

  pub rpdb_route-Low :
      (is_new : Bool) (table tos src_ip dst_ip next_hop dev hops : ℕ)
      → Preserves Low (rpdb_route is_new table tos src_ip dst_ip next_hop dev hops)
  unfolding rpdb_route
  rpdb_route-Low is_new table tos src_ip dst_ip next_hop dev hops n w =
      if-Preserves Low (dst_ip == n.dtn_hello_ip || src_ip == n.dtn_hello_ip) _ _ (λ _ w. w)
        (rtnetlink-Low (Effect.route_request is_new table tos src_ip dst_ip next_hop dev hops) tt) n
        w

  insert_src_list_entry-Low : (ip : ℕ) → Preserves Low (insert_src_list_entry ip)
  unfolding insert_src_list_entry add_with_rule rpdb_rule
  insert_src_list_entry-Low ip = bind-Preserves Low kmalloc _ kmalloc-Low λ c.
      if_null-Preserves Low c _ _ (λ _ w. w)
        (λ _ n w.
          if-Preserves Low (ip == n.null_ip) _ _ (λ _ w. w)
            (if-Preserves Low (ltb max_route_tables (find_first_rttable n.srcs)) _ _ (λ _ w. w)
              (bind-Preserves Low
                (rtnetlink (Effect.rule_request true (find_first_rttable n.srcs) ip)) _
                (rtnetlink-Low _ tt) (λ ok. if-Preserves Low ok _ _ (λ _ w. w) (λ _ w. w))))
            n w)

  update_my_load-Low : Preserves Low update_my_load
  unfolding update_my_load
  update_my_load-Low n w = elim (Bool-cases (n.load == active_load n.routes 0)) [
    | inl same ↦ rw same w
    | inr new ↦ rw new w
  ]

  read_route-Low : (addr : ℕ) → Preserves Low (read_route addr)
  read_route-Low addr n w = deref-Preserves Low (first (at addr) n.routes) n w

  create_aodv_route-Low :
      (src_ip dst_ip tos dst_id : ℕ) → Preserves Low (create_aodv_route src_ip dst_ip tos dst_id)
  unfolding create_aodv_route
  create_aodv_route-Low src_ip dst_ip tos dst_id =
      bind-Preserves Low kmalloc _ kmalloc-Low
        (λ c. if_null-Preserves Low c _ _ (λ _ w. w) (λ _ _ w. w))

  module _ (next_hop : Neigh) (hops dst_id path_metric : ℕ) where
    set_load-Low :
        (addr : ℕ) (previous : RouteState)
        → Preserves Low (set_load next_hop hops dst_id path_metric addr previous)
    unfolding set_load
    set_load-Low addr previous =
        bind-Preserves Low (read_route addr) _ (read_route-Low addr) λ r n w.
          bind-Preserves Low (deref (compute_load next_hop.send_rate r.tos n.flows)) _
            (deref-Preserves Low _)
            (λ load.
              then-Preserves Low (write_route addr (λ r. record r { load = load })) _ (λ _ w. w)
                (when-Preserves Low (is_active previous) _ update_my_load-Low))
            n w

    install-Low :
        (addr : ℕ) (previous : RouteState)
        → Preserves Low (install next_hop hops dst_id path_metric addr previous)
    unfolding install
    install-Low addr previous n w =
        then-Preserves Low
          (when (n.routing_metric == wcim_metric_id)
            (set_load next_hop hops dst_id path_metric addr previous))
          _ (when-Preserves Low (n.routing_metric == wcim_metric_id) _ (set_load-Low addr previous))
          (λ _ w. w) _ w

    count_source-Low :
        (src_ip : ℕ) → Preserves Low (count_source next_hop hops dst_id path_metric src_ip)
    unfolding count_source
    count_source-Low src_ip n w =
        bind-Preserves Low
          (if_null (find_src_list_entry src_ip n.srcs) (insert_src_list_entry src_ip) _) _
          (if_null-Preserves Low (find_src_list_entry src_ip n.srcs) (insert_src_list_entry src_ip)
            (λ _. pure true) (insert_src_list_entry-Low src_ip) (λ _ _ w. w))
          (λ ok. then-Preserves Low (when ok _) _ (when-Preserves Low ok _ (λ _ w. w)) (λ _ w. w)) n
          w

    replace_route-Low :
        (r : Route) → Preserves Low (replace_route next_hop hops dst_id path_metric r)
    unfolding replace_route
    replace_route-Low r =
        if-Preserves Low (supersedes next_hop hops dst_id path_metric r) _ _ (λ _ w. w)
          (if-Preserves Low (is_invalid r.state) _ _ (install-Low r.addr r.state) (
            bind-Preserves Low
              (rpdb_route false 0 r.tos r.src_ip r.dst_ip r.next_hop r.dev r.num_hops) _
              (rpdb_route-Low _ _ _ _ _ _ _ _)
              (λ ok. if-Preserves Low ok _ _ (install-Low r.addr r.state) (λ _ w. w))))

    start_route-Low :
        (src_ip dst_ip tos : ℕ)
        → Preserves Low (start_route next_hop hops dst_id path_metric src_ip dst_ip tos)
    unfolding start_route
    start_route-Low src_ip dst_ip tos =
        bind-Preserves Low (create_aodv_route src_ip dst_ip tos dst_id) _
          (create_aodv_route-Low _ _ _ _)
          (λ a.
            if_null-Preserves Low a _ _ (λ _ w. w)
              (λ addr.
                bind-Preserves Low (count_source next_hop hops dst_id path_metric src_ip) _
                  (count_source-Low src_ip)
                  (λ ok. if-Preserves Low ok _ _ (install-Low addr RouteState.invalid) (λ _ w. w))))

    pub rreq_aodv_route-Low :
        (src_ip dst_ip tos : ℕ)
        → Preserves Low (rreq_aodv_route next_hop hops dst_id path_metric src_ip dst_ip tos)
    unfolding rreq_aodv_route
    rreq_aodv_route-Low src_ip dst_ip tos n w =
        if_null-Preserves Low (find_aodv_route src_ip dst_ip tos n.routes) _ _
          (start_route-Low src_ip dst_ip tos) replace_route-Low n w

  module _ ⦃k : Kernel⦄ where
    queue_new-Low : (t : Task) (c : Option Cell) → Preserves Low (queue_new t c)
    queue_new-Low t none n w = w
    queue_new-Low t (some c) n w = w

    pub insert_timer_simple-Low :
        (type delay ip : ℕ) → Preserves Low (insert_timer_simple type delay ip)
    unfolding insert_timer_simple
    insert_timer_simple-Low type delay ip n w =
        bind-Preserves Low kmalloc (queue_new _) kmalloc-Low (queue_new-Low _) n w

    pub insert_timer_directional-Low :
        (type delay retries src_ip dst_ip tos : ℕ)
        → Preserves Low (insert_timer_directional type delay retries src_ip dst_ip tos)
    unfolding insert_timer_directional
    insert_timer_directional-Low type delay retries src_ip dst_ip tos n w =
        bind-Preserves Low kmalloc (queue_new _) kmalloc-Low (queue_new-Low _) n w

    set_timer-Low : (o : Option (ℕ × ℕ)) → Preserves Low (set_timer o)
    set_timer-Low none n w = w
    set_timer-Low (some t) n w = (tt, w)

    pub update_timer_queue-Low : Preserves Low update_timer_queue
    unfolding update_timer_queue
    update_timer_queue-Low n w = set_timer-Low (TimerQueue.update_timer_queue n.now n.timers) n w
