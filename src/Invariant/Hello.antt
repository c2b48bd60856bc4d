-- ===== src/Invariant/Hello.antt =====
-- Hello messages keep the form of the tables.
use aodv_android.Base.{
  ℕ, ◌+◌, ◌==◌, ◌&&◌, ◌||◌, not, true, false, if◌then◌else◌, none, some, List, [], ◌∷◌,
}
use aodv_android.Kernel.{Kernel}
use aodv_android.Params.{hops_metric, ett_metric_id, wcim_metric_id}
use aodv_android.Message.{Message, Hello, HelloExtension}
use aodv_android.Task.{Task}
use aodv_android.RouteTable.{Route, is_invalid, is_overlapped_with_route}
use aodv_android.BrkList.{BrkLink}
use aodv_android.Neighs.{Neigh, neigh_ip, neigh_2h_ip, find_neigh}
use aodv_android.Handlers.{Status, refresh_neigh, local_broadcast}
use aodv_android.Handlers.Rreq.{gen_rreq}
use aodv_android.Handlers.Rcvp.{gen_rcvp, gen_rrdp}
use aodv_android.Handlers.Neighbours.{create_aodv_neigh, create_aodv_neigh_2h, delete_aodv_neigh_2h}
use aodv_android.Handlers.Hello.{
  count_hello, send_hello, collect_extensions, gen_hello, try_links, redirect_route,
  redirect_routes, greet, note_load, note_extension, read_extensions, measure, recv_hello,
  is_listed,
}
use aodv_android.Etx.{extension_of, update_neightx}
use aodv_android.Node.{Node, M, pure, ◌>>◌, when, if_null, deref, kmalloc, get_random}
use aodv_android.Node.Timers.{insert_timer_simple, delete_timer, update_timer_queue}
use aodv_android.Invariant.{
  Keeps, bind-Keeps, then-Keeps, if-Keeps, when-Keeps, if_null-Keeps, deref-Keeps,
}
use aodv_android.Invariant.Tables.{kmalloc-Keeps}
use aodv_android.Invariant.Platform.{insert_timer_simple-Keeps, update_timer_queue-Keeps}
use aodv_android.Invariant.Handlers.{local_broadcast-Keeps, refresh_neigh-Keeps}
use aodv_android.Invariant.Rreq.{gen_rreq-Keeps}
use aodv_android.Invariant.Rcvp.{gen_rcvp-Keeps, gen_rrdp-Keeps}
use aodv_android.Invariant.Neighbours.{
  get_random-Keeps, create_aodv_neigh-Keeps, create_aodv_neigh_2h-Keeps, delete_aodv_neigh_2h-Keeps,
}

drop-Keeps : {A : Type 0} (m : M A) → Keeps m → Keeps (m >> pure tt)
drop-Keeps m h = then-Keeps m (pure tt) h (λ _ w. w)

module _ ⦃k : Kernel⦄ where
  count_hello-Keeps : Keeps count_hello
  unfolding count_hello
  count_hello-Keeps n w =
      when-Keeps (n.hello_count + 1 == 10 && not (n.routing_metric == hops_metric)) _ (λ _ w. w) _ w

  send_hello-Keeps : (es : List HelloExtension) → Keeps (send_hello es)
  unfolding send_hello
  send_hello-Keeps es = bind-Keeps kmalloc _ kmalloc-Keeps (λ c n w.
      if_null-Keeps c (pure Status.failed) _ (λ _ w. w)
        (λ _. then-Keeps (local_broadcast 1 (said n)) _ (local_broadcast-Keeps 1 (said n)) (
          bind-Keeps get_random _ get_random-Keeps (λ rand.
            then-Keeps (insert_timer_simple _ _ n.mesh_ip) _ (insert_timer_simple-Keeps _ _ _) (
              then-Keeps update_timer_queue _ update_timer_queue-Keeps
                (then-Keeps count_hello (pure Status.ret1) count_hello-Keeps (λ _ w. w))))))
        n w)
    where
      said : Node → Message
      said n = Message.hello (record { load = n.load; load_seq = n.load_seq; extensions = es })

  collect_extensions-Keeps :
      (ms : List Neigh) (total : List HelloExtension) → Keeps (collect_extensions ms total)
  unfolding collect_extensions
  collect_extensions-Keeps [] total = λ _ w. w
  collect_extensions-Keeps (m ∷ ms) total = bind-Keeps kmalloc _ kmalloc-Keeps (λ c.
      if_null-Keeps c (pure none) (λ _. collect_extensions ms (extension_of m ∷ total)) (λ _ w. w)
        (λ _. collect_extensions-Keeps ms (extension_of m ∷ total)))

  pub gen_hello-Keeps : Keeps gen_hello
  unfolding gen_hello
  gen_hello-Keeps n w =
      bind-Keeps
        (if n.routing_metric == hops_metric then pure (some []) else collect_extensions n.neighs [])
        _
        (if-Keeps (n.routing_metric == hops_metric) (pure (some []))
          (collect_extensions n.neighs []) (λ _ w. w) (collect_extensions-Keeps n.neighs []))
        (λ total.
          if_null-Keeps total (pure Status.ret0) _ (λ _ w. w)
            (λ es. then-Keeps (send_hello es) (pure Status.ret0) (send_hello-Keeps es) (λ _ w. w)))
        n w

  try_links-Keeps : (ip : ℕ) (bs : List BrkLink) → Keeps (try_links ip bs)
  unfolding try_links
  try_links-Keeps ip [] n w = w
  try_links-Keeps ip (b ∷ bs) n w =
      if-Keeps (is_invalid b.state || is_overlapped_with_route b.src_ip b.last_avail_ip n.routes)
        (try_links ip bs) _ (try_links-Keeps ip bs)
        (if-Keeps (b.dst_ip == ip) _ _ (drop-Keeps (gen_rcvp ip) (gen_rcvp-Keeps ip)) (
          then-Keeps (gen_rreq n.mesh_ip b.dst_ip 0x02) (try_links ip bs) (gen_rreq-Keeps _ _ _)
            (try_links-Keeps ip bs)))
        n w

  redirect_route-Keeps : (r : Route) → Keeps (redirect_route r)
  unfolding redirect_route
  redirect_route-Keeps r n w =
      then-Keeps (when (not (r.src_ip == r.dst_ip) && not (r.src_ip == n.mesh_ip)) _) _
        (when-Keeps (not (r.src_ip == r.dst_ip) && not (r.src_ip == n.mesh_ip)) _
          (drop-Keeps (gen_rrdp r.src_ip r.dst_ip r.last_hop r.tos) (gen_rrdp-Keeps _ _ _ _)))
        (when-Keeps
          (r.src_ip == n.mesh_ip && not (n.dtn_register == 0) && not (r.src_ip == r.dst_ip)) _
          (λ _ w. w))
        n w

  redirect_routes-Keeps : (rs : List Route) → Keeps (redirect_routes rs)
  unfolding redirect_routes
  redirect_routes-Keeps [] = λ _ w. w
  redirect_routes-Keeps (r ∷ rs) =
      if-Keeps (is_invalid r.state) (pure tt) (redirect_route r >> redirect_routes rs) (λ _ w. w)
        (then-Keeps (redirect_route r) (redirect_routes rs) (redirect_route-Keeps r)
          (redirect_routes-Keeps rs))

  greet-Keeps : (ip : ℕ) → Keeps (greet ip)
  unfolding greet
  greet-Keeps ip n w =
      then-Keeps (if_null (find_neigh neigh_2h_ip ip n.neighs_2h) (pure tt) _) _
        (if_null-Keeps (find_neigh neigh_2h_ip ip n.neighs_2h) (pure tt) _ (λ _ w. w)
          (λ m. drop-Keeps (delete_aodv_neigh_2h m.ip) (delete_aodv_neigh_2h-Keeps m.ip)))
        (bind-Keeps (create_aodv_neigh ip) _ (create_aodv_neigh-Keeps ip) (λ ok.
          if-Keeps ok _ (pure false)
            (λ p v.
              then-Keeps (try_links ip p.links) _ (try_links-Keeps ip p.links)
                (λ q u.
                  then-Keeps (redirect_routes q.routes) _ (redirect_routes-Keeps q.routes)
                    (λ _ w. w) q u)
                p v)
            (λ _ w. w)))
        n w

  note_load-Keeps : (load load_seq ip : ℕ) → Keeps (note_load load load_seq ip)
  unfolding note_load delete_timer
  note_load-Keeps load load_seq ip n w =
      if_null-Keeps (find_neigh neigh_ip ip n.neighs) _ _
        (bind-Keeps (if_null (find_neigh neigh_2h_ip ip n.neighs_2h) (create_aodv_neigh_2h ip) _) _
          (if_null-Keeps (find_neigh neigh_2h_ip ip n.neighs_2h) (create_aodv_neigh_2h ip) _
            (create_aodv_neigh_2h-Keeps ip)
            (λ _ m v.
              then-Keeps (insert_timer_simple _ _ ip) _ (insert_timer_simple-Keeps _ _ _)
                (then-Keeps update_timer_queue _ update_timer_queue-Keeps (λ _ w. w)) _ v))
          (λ found. when-Keeps found _ (λ _ w. w)))
        (λ _ _ w. w) n w

  note_extension-Keeps :
      (sender : ℕ) (h : Hello) (e : HelloExtension) → Keeps (note_extension sender h e)
  unfolding note_extension
  note_extension-Keeps sender h e =
      then-Keeps (note_load h.load h.load_seq e.ip) _ (note_load-Keeps _ _ _) (λ n w.
        bind-Keeps (deref (find_neigh neigh_ip sender n.neighs)) _ (deref-Keeps _)
          (λ orig.
            bind-Keeps (deref (update_neightx e.ip orig.neigh_tx)) _ (deref-Keeps _) (λ _ _ w. w))
          n w)

  read_extensions-Keeps :
      (sender : ℕ) (h : Hello) (es : List HelloExtension) → Keeps (read_extensions sender h es)
  unfolding read_extensions
  read_extensions-Keeps sender h [] n w = w
  read_extensions-Keeps sender h (e ∷ es) n w =
      if-Keeps (e.ip == n.mesh_ip) _ _
        (λ m v.
          if-Keeps (n.routing_metric == ett_metric_id) (pure tt) (read_extensions sender h es)
            (λ _ w. w) (read_extensions-Keeps sender h es) _ v)
        (then-Keeps (when (n.routing_metric == wcim_metric_id) (note_extension sender h e))
          (read_extensions sender h es)
          (when-Keeps (n.routing_metric == wcim_metric_id) _ (note_extension-Keeps sender h e))
          (read_extensions-Keeps sender h es))
        n w

  measure-Keeps : (sender : ℕ) (h : Hello) → Keeps (measure sender h)
  unfolding measure
  measure-Keeps sender h = then-Keeps (refresh_neigh sender) _ (refresh_neigh-Keeps sender) (λ n w.
      when-Keeps (not (n.routing_metric == hops_metric)) _
        (λ m v.
          then-Keeps (when (n.routing_metric == wcim_metric_id) _)
            (read_extensions sender h h.extensions)
            (when-Keeps (n.routing_metric == wcim_metric_id) _ (λ _ w. w))
            (read_extensions-Keeps sender h h.extensions) _ v)
        n w)

  pub recv_hello-Keeps : (t : Task) (h : Hello) → Keeps (recv_hello t h)
  unfolding recv_hello
  recv_hello-Keeps t h n w =
      if-Keeps (is_listed t.src_ip n.blacklist) (pure Status.ret0) _ (λ _ w. w)
        (bind-Keeps
          (if_null (find_neigh neigh_ip t.src_ip n.neighs) (greet t.src_ip) (λ _. pure true)) _
          (if_null-Keeps (find_neigh neigh_ip t.src_ip n.neighs) (greet t.src_ip) (λ _. pure true)
            (greet-Keeps t.src_ip) (λ _ _ w. w))
          (λ ok.
            if-Keeps ok _ (pure Status.failed)
              (then-Keeps (measure t.src_ip h) (pure Status.ret0) (measure-Keeps t.src_ip h)
                (λ _ w. w))
              (λ _ w. w)))
        n w
