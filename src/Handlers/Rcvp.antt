-- ===== src/Handlers/Rcvp.antt =====
-- rcvp.c: recovery paths, which take back broken links, and route redirections.
use aodv_android.Base.{ℕ, ◌+◌, not, List, [], ◌∷◌, if◌then◌else◌, ◌==◌, skip_below}
use aodv_android.Kernel.{Kernel, to_network}
use aodv_android.Params.{u8, net_diameter}
use aodv_android.Message.{Message, Rcvp, Rrdp}
use aodv_android.Task.{Task, task_recv_rcvp, task_recv_rrdp}
use aodv_android.RouteTable.{Route, is_invalid, find_aodv_route}
use aodv_android.BrkList.{BrkLink, link_dst, remove_brk_link, find_brk_link}
use aodv_android.Handlers.{Status, tell_dtn, reply_to_rrer}
use aodv_android.Node.{M, pure, ◌>>=◌, ◌>>◌, get, update, when, if_null, emit, kmalloc, send}

unfoldable pub drop_brk_link : (addr : ℕ) → M (Unit {0})
drop_brk_link addr = update λ n. record n { links = remove_brk_link addr n.links }

module _ ⦃k : Kernel⦄ where
  -- A new rcvp for a link, to the hop before it; `hops` is its count of hops.
  unfoldable pub send_rcvp : (hops dst_ip src_ip : ℕ) → BrkLink → M (Unit {0})
  send_rcvp hops dst_ip src_ip b = emit (
      send b.last_hop net_diameter (
        Message.rcvp (record {
          num_hops = hops;
          dst_ip = dst_ip;
          dst_id = to_network dst_ip;
          src_ip = src_ip;
          last_avail_ip = b.last_avail_ip;
        })))

  -- The loop of gen_rcvp from `tmp_link` on. Without memory for a packet it ends, with the links
  -- from this one on still there.
  unfoldable pub recover_links : (dst_ip : ℕ) → List BrkLink → M Status
  unfolding drop_brk_link send_rcvp tell_dtn
  recover_links dst_ip [] = pure Status.ret1
  recover_links dst_ip (b ∷ bs) =
      let rest = recover_links dst_ip bs in
      if b.dst_ip == dst_ip
      then (do
        n ← get
        if b.src_ip == n.mesh_ip
            then tell_dtn b.src_ip dst_ip b.last_avail_ip task_recv_rcvp
              >> drop_brk_link b.addr
              >> rest
            else (do
              c ← kmalloc
              if_null c (pure Status.ret0) (λ _.
                  tell_dtn b.src_ip dst_ip b.last_avail_ip task_recv_rcvp
                  >> send_rcvp 0 dst_ip b.src_ip b
                  >> drop_brk_link b.addr
                  >> rest)))
      else pure Status.ret1

  abbrev pub recover_from : (dst_ip : ℕ) → List BrkLink → M Status
  recover_from dst_ip [] = pure Status.ret0
  recover_from dst_ip (b ∷ bs) =
      if b.dst_ip == dst_ip then recover_links dst_ip (b ∷ bs) else pure Status.ret0

  -- find_first_brk_link_with_dst gives the first link that the skip leaves, if that has the
  -- destination, and the loop goes on from there.
  unfoldable pub gen_rcvp : (dst_ip : ℕ) → M Status
  unfolding recover_links
  gen_rcvp dst_ip = do n ← get; recover_from dst_ip (skip_below link_dst dst_ip n.links)

  unfoldable pub recv_rcvp : Rcvp → M Status
  unfolding tell_dtn send_rcvp drop_brk_link
  recv_rcvp p = do
    tell_dtn p.src_ip p.dst_ip p.last_avail_ip task_recv_rcvp
    n ← get
    if_null (find_brk_link p.src_ip p.dst_ip n.links) (pure Status.ret0) (λ b.
        if p.src_ip == n.mesh_ip then drop_brk_link b.addr >> pure Status.ret1 else (do
          c ← kmalloc
          if_null c (pure Status.ret0) (λ _.
              send_rcvp (u8 (p.num_hops + 1)) p.dst_ip p.src_ip b
              >> drop_brk_link b.addr
              >> pure Status.ret1)))

unfoldable pub gen_rrdp : (src_ip dst_ip last_hop tos : ℕ) → M Status
gen_rrdp src_ip dst_ip last_hop tos = do
  c ← kmalloc
  if_null c (pure Status.ret0) (λ _.
      emit (
        send last_hop net_diameter
          (Message.rrdp (record { num_hops = 0; dst_ip = dst_ip; src_ip = src_ip; tos = tos })))
      >> pure Status.ret1)

-- The packet that the source frees itself is left out.
unfoldable pub redirect : Rrdp → Route → M (Unit {0})
unfolding tell_dtn reply_to_rrer
redirect p r = do
  n ← get
  if reply_to_rrer n r.src_ip
      then tell_dtn p.src_ip p.dst_ip 0 task_recv_rrdp
      else when (not (is_invalid r.state)) (
          emit (
            send r.last_hop net_diameter
              (Message.rrdp (record p { num_hops = u8 (p.num_hops + 1) }))))

unfoldable pub recv_rrdp : Task → Rrdp → M Status
unfolding redirect
recv_rrdp t p = do
  n ← get
  if_null (find_aodv_route p.src_ip p.dst_ip p.tos n.routes) (pure tt)
      (λ r. when (r.next_hop == t.src_ip) (redirect p r))
  pure Status.ret1
