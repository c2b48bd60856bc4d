-- ===== src/Invariant/Rcvp.antt =====
-- The handlers of recovery paths and route redirections keep the form of the tables.
use aodv_android.Base.{ℕ, ◌==◌, not, List, [], ◌∷◌, unlink-Above, skip_below}
use aodv_android.Kernel.{Kernel}
use aodv_android.Message.{Rcvp, Rrdp}
use aodv_android.Task.{Task, task_recv_rcvp, task_recv_rrdp}
use aodv_android.RouteTable.{Route, find_aodv_route, is_invalid}
use aodv_android.BrkList.{BrkLink, link_dst, remove_brk_link, find_brk_link}
use aodv_android.Handlers.{tell_dtn, reply_to_rrer}
use aodv_android.Node.{pure, ◌>>◌, when, if_null, kmalloc}
use aodv_android.Invariant.{Keeps, bind-Keeps, then-Keeps, if-Keeps, when-Keeps, if_null-Keeps}
use aodv_android.Invariant.Tables.{kmalloc-Keeps}
use aodv_android.Handlers.Rcvp.{
  drop_brk_link, send_rcvp, recover_links, recover_from, gen_rcvp, recv_rcvp, gen_rrdp, redirect,
  recv_rrdp,
}
use aodv_android.Invariant.Handlers.{tell_dtn-Keeps}

drop_brk_link-Keeps : (addr : ℕ) → Keeps (drop_brk_link addr)
unfolding drop_brk_link remove_brk_link
drop_brk_link-Keeps addr n w = (w.0, w.1, w.2, unlink-Above link_dst 0 _ n.links w.3)

module _ ⦃k : Kernel⦄ where
  send_rcvp-Keeps : (hops dst_ip src_ip : ℕ) (b : BrkLink) → Keeps (send_rcvp hops dst_ip src_ip b)
  unfolding send_rcvp
  send_rcvp-Keeps hops dst_ip src_ip b n w = w

  recover_links-Keeps : (dst_ip : ℕ) (bs : List BrkLink) → Keeps (recover_links dst_ip bs)
  unfolding recover_links
  recover_links-Keeps dst_ip [] = λ _ w. w
  recover_links-Keeps dst_ip (b ∷ bs) =
      let rest = recover_links dst_ip bs in
      let rest-Keeps = recover_links-Keeps dst_ip bs in
      let told = tell_dtn b.src_ip dst_ip b.last_avail_ip task_recv_rcvp in
      let told-Keeps = tell_dtn-Keeps b.src_ip dst_ip b.last_avail_ip task_recv_rcvp in
      let drop = drop_brk_link b.addr in
      let drop-Keeps = drop_brk_link-Keeps b.addr in
      let sent = send_rcvp 0 dst_ip b.src_ip b in
      if-Keeps (b.dst_ip == dst_ip) _ _
        (λ n w.
          if-Keeps (b.src_ip == n.mesh_ip) _ _
            (then-Keeps (told >> drop) rest (then-Keeps told drop told-Keeps drop-Keeps) rest-Keeps)
            (bind-Keeps kmalloc _ kmalloc-Keeps (λ c.
              if_null-Keeps c _ _ (λ _ w. w)
                (λ _.
                  then-Keeps (told >> sent >> drop) rest
                    (then-Keeps (told >> sent) drop
                      (then-Keeps told sent told-Keeps (send_rcvp-Keeps 0 dst_ip b.src_ip b))
                      drop-Keeps)
                    rest-Keeps)))
            n w)
        (λ _ w. w)

  recover_from-Keeps : (dst_ip : ℕ) (bs : List BrkLink) → Keeps (recover_from dst_ip bs)
  recover_from-Keeps dst_ip [] = λ _ w. w
  recover_from-Keeps dst_ip (b ∷ bs) =
      if-Keeps (b.dst_ip == dst_ip) _ _ (recover_links-Keeps dst_ip (b ∷ bs)) (λ _ w. w)

  pub gen_rcvp-Keeps : (dst_ip : ℕ) → Keeps (gen_rcvp dst_ip)
  unfolding gen_rcvp
  gen_rcvp-Keeps dst_ip n w = recover_from-Keeps dst_ip (skip_below link_dst dst_ip n.links) n w

  pub recv_rcvp-Keeps : (p : Rcvp) → Keeps (recv_rcvp p)
  unfolding recv_rcvp
  recv_rcvp-Keeps p =
      then-Keeps (tell_dtn p.src_ip p.dst_ip p.last_avail_ip task_recv_rcvp) _
        (tell_dtn-Keeps p.src_ip p.dst_ip p.last_avail_ip task_recv_rcvp)
        λ n w.
          if_null-Keeps (find_brk_link p.src_ip p.dst_ip n.links) _ _ (λ _ w. w)
            (λ b. if-Keeps (p.src_ip == n.mesh_ip) _ _ (drop_brk_link-Keeps b.addr) (
              bind-Keeps kmalloc _ kmalloc-Keeps
                (λ c. if_null-Keeps c _ _ (λ _ w. w) (λ _ n w. drop_brk_link-Keeps b.addr n w))))
            n w

pub gen_rrdp-Keeps : (src_ip dst_ip last_hop tos : ℕ) → Keeps (gen_rrdp src_ip dst_ip last_hop tos)
unfolding gen_rrdp
gen_rrdp-Keeps src_ip dst_ip last_hop tos =
    bind-Keeps kmalloc _ kmalloc-Keeps (λ c. if_null-Keeps c _ _ (λ _ w. w) (λ _ _ w. w))

redirect-Keeps : (p : Rrdp) (r : Route) → Keeps (redirect p r)
unfolding redirect
redirect-Keeps p r n w =
    if-Keeps (reply_to_rrer n r.src_ip) _ _ (tell_dtn-Keeps p.src_ip p.dst_ip 0 task_recv_rrdp)
      (when-Keeps (not (is_invalid r.state)) _ (λ _ w. w)) n w

pub recv_rrdp-Keeps : (t : Task) (p : Rrdp) → Keeps (recv_rrdp t p)
unfolding recv_rrdp
recv_rrdp-Keeps t p n w =
    let answer = λ (r : Route). when (r.next_hop == t.src_ip) (redirect p r) in
    then-Keeps (if_null (find_aodv_route p.src_ip p.dst_ip p.tos n.routes) (pure tt) answer) _
      (if_null-Keeps (find_aodv_route p.src_ip p.dst_ip p.tos n.routes) (pure tt) answer (λ _ w. w)
        (λ r. when-Keeps (r.next_hop == t.src_ip) _ (redirect-Keeps p r)))
      (λ _ w. w) n w
