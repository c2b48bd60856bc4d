-- ===== src/Handlers/Hello.antt =====
-- hello.c: hello messages, by which a node learns its neighbours, their links and their load.
use aodv_android.Base.{
  ℕ, ◌+◌, Bool, true, false, not, ◌&&◌, ◌||◌, Option, none, some, List, [], ◌∷◌, if◌then◌else◌,
  ◌==◌,
}
use aodv_android.Kernel.{Kernel}
use aodv_android.Params.{
  u8, u64, no_tos, hops_metric, ett_metric_id, wcim_metric_id, hello_interval, dtn_port,
  neighbor_2h_timeout,
}
use aodv_android.Message.{Message, Hello, HelloExtension}
use aodv_android.Task.{Task, task_hello, task_neighbor_2h, task_recv_rrdp}
use aodv_android.RouteTable.{Route, is_invalid, is_overlapped_with_route}
use aodv_android.BrkList.{BrkLink}
use aodv_android.Neighs.{Neigh, Neigh2h, neigh_ip, neigh_2h_ip, find_neigh, update_neigh_2h}
use aodv_android.Etx.{
  update_neigh_load, update_neigh_2h_load, update_neightx, compute_etx, hello_jitter, extension_of,
}
use aodv_android.Handlers.{Status, local_broadcast, refresh_neigh}
use aodv_android.Handlers.Rreq.{gen_rreq}
use aodv_android.Handlers.Rcvp.{gen_rcvp, gen_rrdp}
use aodv_android.Handlers.Neighbours.{
  write_neigh, create_aodv_neigh, create_aodv_neigh_2h, delete_aodv_neigh_2h,
}
use aodv_android.Node.{
  M, pure, ◌>>=◌, ◌>>◌, get, update, when, if_null, deref, emit, kmalloc, get_random, to_dtn,
}
use aodv_android.Node.Timers.{insert_timer_simple, delete_timer, update_timer_queue}

abbrev pub is_listed : ℕ → List ℕ → Bool
is_listed ip [] = false
is_listed ip (i ∷ is) = i == ip || is_listed ip is

module _ ⦃k : Kernel⦄ where
  -- The counter of the hellos; each tenth computes the ETX.
  unfoldable pub count_hello : M (Unit {0})
  unfolding compute_etx
  count_hello = do
    n ← get
    let tenth = n.hello_count + 1 == 10
    update λ m. record m { hello_count = if tenth then 0 else m.hello_count + 1 }
    when (tenth && not (n.routing_metric == hops_metric))
        (update λ m. record m { neighs = compute_etx m.neighs })

  -- Without memory no timer is set, and no hello follows.
  unfoldable pub send_hello : List HelloExtension → M Status
  unfolding local_broadcast insert_timer_simple update_timer_queue count_hello hello_jitter
  send_hello extensions = do
    c ← kmalloc
    n ← get
    if_null c (pure Status.failed) (λ _. do
      local_broadcast 1
          (Message.hello (record { load = n.load; load_seq = n.load_seq; extensions = extensions }))
      rand ← get_random
      insert_timer_simple task_hello (u64 (hello_interval + hello_jitter rand)) n.mesh_ip
      update_timer_queue
      count_hello
      pure Status.ret1)

  -- The loop of gen_hello; the list grows at its head. `none` is a lack of memory.
  unfoldable pub collect_extensions :
      List Neigh → List HelloExtension → M (Option (List HelloExtension))
  collect_extensions [] total = pure (some total)
  collect_extensions (m ∷ ms) total = do
    c ← kmalloc
    if_null c (pure none) (λ _. collect_extensions ms (extension_of m ∷ total))

  unfoldable pub gen_hello : M Status
  unfolding collect_extensions send_hello
  gen_hello = do
    n ← get
    total ←
        if n.routing_metric == hops_metric then pure (some []) else collect_extensions n.neighs []
    if_null total (pure Status.ret0) (λ extensions. send_hello extensions >> pure Status.ret0)

  -- The walk of a new neighbour over the broken links: the first usable one to the neighbour itself
  -- ends it, and for the others a route is looked for.
  unfoldable pub try_links : (ip : ℕ) → List BrkLink → M (Unit {0})
  unfolding gen_rcvp gen_rreq
  try_links ip [] = pure tt
  try_links ip (b ∷ bs) =
      let rest = try_links ip bs in
      do
        n ← get
        if is_invalid b.state || is_overlapped_with_route b.src_ip b.last_avail_ip n.routes
            then rest
            else (if b.dst_ip == ip
                then gen_rcvp ip >> pure tt
                else gen_rreq n.mesh_ip b.dst_ip 0x02 >> rest)

  -- A flow that a new neighbour may give a better way: its source hears of it.
  unfoldable pub redirect_route : Route → M (Unit {0})
  unfolding gen_rrdp
  redirect_route r = do
    n ← get
    when (not (r.src_ip == r.dst_ip) && not (r.src_ip == n.mesh_ip))
        (gen_rrdp r.src_ip r.dst_ip r.last_hop r.tos >> pure tt)
    when (r.src_ip == n.mesh_ip && not (n.dtn_register == 0) && not (r.src_ip == r.dst_ip))
        (emit (to_dtn r.src_ip r.dst_ip 0 task_recv_rrdp dtn_port))

  -- The walk over the routes ends at the first invalid one.
  unfoldable pub redirect_routes : List Route → M (Unit {0})
  unfolding redirect_route
  redirect_routes [] = pure tt
  redirect_routes (r ∷ rs) =
      if is_invalid r.state then pure tt else redirect_route r >> redirect_routes rs

  -- The branch of a neighbour that is new; its load may be known from two hops away.
  unfoldable pub greet : (ip : ℕ) → M Bool
  unfolding create_aodv_neigh delete_aodv_neigh_2h try_links redirect_routes
  greet ip = do
    n ← get
    let known = find_neigh neigh_2h_ip ip n.neighs_2h
    if_null known (pure tt) (λ m. delete_aodv_neigh_2h m.ip >> pure tt)
    ok ← create_aodv_neigh ip
    if ok
        then (do
          n ← get
          try_links ip n.links
          n ← get
          redirect_routes n.routes
          write_neigh ip (λ m. record m { load = load_of known; load_seq = seq_of known })
          pure true)
        else pure false
    where
      load_of : Option Neigh2h → ℕ
      load_of none = 0
      load_of (some m) = m.load

      seq_of : Option Neigh2h → ℕ
      seq_of none = 0
      seq_of (some m) = m.load_seq

  -- The load of a neighbour of the sender: the values are those of the hello, not of the extension.
  unfoldable pub note_load : (load load_seq ip : ℕ) → M (Unit {0})
  unfolding update_neigh_load update_neigh_2h_load create_aodv_neigh_2h insert_timer_simple
      delete_timer update_timer_queue
  note_load load load_seq ip = do
    n ← get
    if_null (find_neigh neigh_ip ip n.neighs)
        (do
          found ← if_null (find_neigh neigh_2h_ip ip n.neighs_2h) (create_aodv_neigh_2h ip) (λ _. do
            delete_timer ip ip no_tos task_neighbor_2h
            insert_timer_simple task_neighbor_2h (neighbor_2h_timeout + 100) ip
            update_timer_queue
            write_2h (λ m. record m { lifetime = u64 (n.now + neighbor_2h_timeout) })
            pure true)
          when found (write_2h (update_neigh_2h_load load load_seq)))
        (λ _. write_neigh ip (update_neigh_load load load_seq))
    where
      write_2h : (Neigh2h → Neigh2h) → M (Unit {0})
      write_2h f = update λ m. record m { neighs_2h = update_neigh_2h ip f m.neighs_2h }

  -- An extension for another node than this one, under WCIM.
  unfoldable pub note_extension : (sender : ℕ) → Hello → HelloExtension → M (Unit {0})
  unfolding note_load update_neightx
  note_extension sender h e = do
    note_load h.load h.load_seq e.ip
    n ← get
    orig ← deref (find_neigh neigh_ip sender n.neighs)
    slots ← deref (update_neightx e.ip orig.neigh_tx)
    write_neigh sender (λ m. record m { neigh_tx = slots })

  -- The loop over the extensions; under ETT it ends at this node's own.
  unfoldable pub read_extensions : (sender : ℕ) → Hello → List HelloExtension → M (Unit {0})
  unfolding note_extension
  read_extensions sender h [] = pure tt
  read_extensions sender h (e ∷ es) =
      let rest = read_extensions sender h es in
      do
        n ← get
        if e.ip == n.mesh_ip
            then (do
              write_neigh sender (λ m. record m { etx = record m.etx { send_etx = e.count } })
              if n.routing_metric == ett_metric_id then pure tt else rest)
            else when (n.routing_metric == wcim_metric_id) (note_extension sender h e) >> rest

  -- From the neighbour's lifetime on.
  unfoldable pub measure : (sender : ℕ) → Hello → M (Unit {0})
  unfolding refresh_neigh read_extensions update_neigh_load
  measure sender h = do
    refresh_neigh sender
    n ← get
    when (not (n.routing_metric == hops_metric)) (do
      write_neigh sender (λ m. record m { etx = record m.etx { count = u8 (m.etx.count + 1) } })
      when (n.routing_metric == wcim_metric_id)
          (write_neigh sender (update_neigh_load h.load h.load_seq))
      read_extensions sender h h.extensions)

  unfoldable pub recv_hello : Task → Hello → M Status
  unfolding greet measure
  recv_hello t h = do
    n ← get
    if is_listed t.src_ip n.blacklist then pure Status.ret0 else (do
      ok ← if_null (find_neigh neigh_ip t.src_ip n.neighs) (greet t.src_ip) (λ _. pure true)
      if ok then measure t.src_ip h >> pure Status.ret0 else pure Status.failed)
