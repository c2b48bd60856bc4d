-- ===== src/Invariant/Rerr.antt =====
-- The handlers of route errors keep the form of the tables.
use aodv_android.Base.{
  ℕ, refl, ◌==◌, ◌||◌, ◌&&◌, not, Bool, true, false, Option, none, some, List, [], ◌∷◌,
  if◌then◌else◌, insert_ordered-Above, Above,
}
use aodv_android.Kernel.{Kernel}
use aodv_android.Params.{wcim_metric_id}
use aodv_android.Message.{Rerr}
use aodv_android.Task.{Task}
use aodv_android.RouteTable.{Route, find_aodv_route_by_id, is_invalid}
use aodv_android.BrkList.{BrkLink, link_dst, find_brk_link}
use aodv_android.Routing.{write_route, update_my_load}
use aodv_android.Handlers.{Status, tell_dtn, reply_to_rrer}
use aodv_android.Node.{Node, M, pure, ◌>>=◌, ◌>>◌, update, when, deref, if_null, kmalloc}
use aodv_android.Invariant.{
  WellFormed, After, Keeps, bind-Keeps, then-Keeps, if-Keeps, when-Keeps, if_null-Keeps,
}
use aodv_android.Invariant.Tables.{write_route-Keeps, kmalloc-Keeps}
use aodv_android.Invariant.Platform.{update_my_load-Keeps}
use aodv_android.Base.{◌≤◌, arith, Above-mono, modify-Above}
use aodv_android.BrkList.{
  cons_link, expire_brk_link, flush_brk_list, create_brk_link, insert_brk_link,
}
use aodv_android.Kernel.{before, to_host}
use aodv_android.Task.{task_recv_rerr}
use aodv_android.RouteTable.{expire_aodv_route}
use aodv_android.Handlers.Rerr.{
  note_link, last_dtn, send_rerr, report_route, break_route, goes_over, recount, break_routes,
  gen_rerr, is_first_dtn, pass_rerr, recv_rerr,
}
use aodv_android.Invariant.Handlers.{tell_dtn-Keeps}

abbrev AboveIf : ℕ → Option (List BrkLink) → Type 0
AboveIf j none = Unit {0}
AboveIf j (some bs) = Above link_dst j bs

AboveIf-mono : (i j : ℕ) (o : Option (List BrkLink)) → i ≤ j → AboveIf j o → AboveIf i o
AboveIf-mono i j none le h = tt
AboveIf-mono i j (some bs) le h = Above-mono link_dst i j bs le h

cons_link-AboveIf :
    (j : ℕ) (b : BrkLink) (o : Option (List BrkLink))
    → j ≤ b.dst_ip
    → AboveIf b.dst_ip o
    → AboveIf j (cons_link b o)
cons_link-AboveIf j b none le h = tt
cons_link-AboveIf j b (some bs) le h = (le, h)

if-AboveIf :
    (j : ℕ) (c : Bool) (o o' : Option (List BrkLink))
    → AboveIf j o
    → AboveIf j o'
    → AboveIf j (if c then o else o')
if-AboveIf j true o o' h h' = h
if-AboveIf j false o o' h h' = h'

module _ ⦃k : Kernel⦄ where
  flush_brk_list-AboveIf :
      (now j : ℕ) (links : List BrkLink)
      → Above link_dst j links
      → AboveIf j (flush_brk_list now links)
  unfolding flush_brk_list expire_brk_link
  flush_brk_list-AboveIf now j [] s = tt
  flush_brk_list-AboveIf now j (b ∷ []) s =
      if-AboveIf j (before b.lifetime now) none (some (b ∷ [])) tt s
  flush_brk_list-AboveIf now j (b ∷ c ∷ []) s =
      if-AboveIf j (before b.lifetime now) _ _
        (if-AboveIf j (is_invalid b.state) (some (c ∷ [])) none
          (Above-mono link_dst j b.dst_ip (c ∷ []) s.0 s.1) tt)
        (cons_link-AboveIf j b (flush_brk_list now (c ∷ [])) s.0
          (flush_brk_list-AboveIf now b.dst_ip (c ∷ []) s.1))
  flush_brk_list-AboveIf now j (b ∷ c ∷ d ∷ rest) s =
      let behind_d = flush_brk_list-AboveIf now d.dst_ip rest s.1.1.1 in
      let behind_c = flush_brk_list-AboveIf now c.dst_ip (d ∷ rest) s.1.1 in
      let all = flush_brk_list-AboveIf now b.dst_ip (c ∷ d ∷ rest) s.1 in
      let c_le : j ≤ c.dst_ip = omega (arith, s.0, s.1.0) in
      let d_le : b.dst_ip ≤ d.dst_ip = omega (arith, s.1.0, s.1.1.0) in
      if-AboveIf j (before b.lifetime now) _ _
        (if-AboveIf j (is_invalid b.state) _ _
          (cons_link-AboveIf j c (flush_brk_list now (d ∷ rest)) c_le behind_c)
          (cons_link-AboveIf j (expire_brk_link now b) (cons_link d (flush_brk_list now rest)) s.0
            (cons_link-AboveIf b.dst_ip d (flush_brk_list now rest) d_le behind_d)))
        (cons_link-AboveIf j b (flush_brk_list now (c ∷ d ∷ rest)) s.0 all)

  flush-After :
      (n : Node) (o : Option (List BrkLink))
      → AboveIf 0 o
      → WellFormed n
      → After ((deref o >>= λ links. update λ m. record m { links = links }) n)
  flush-After n none h w = tt
  flush-After n (some bs) h w = (w.0, w.1, w.2, h)

  note_link-Keeps :
      (src_ip dst_ip last_hop last_avail : ℕ) → Keeps (note_link src_ip dst_ip last_hop last_avail)
  unfolding note_link create_brk_link insert_brk_link
  note_link-Keeps src_ip dst_ip last_hop last_avail n w =
      then-Keeps (if_null (find_brk_link src_ip dst_ip n.links) _ _) _
        (if_null-Keeps (find_brk_link src_ip dst_ip n.links) _ _
          (bind-Keeps kmalloc _ kmalloc-Keeps (λ c.
            if_null-Keeps c _ _ (λ _ w. w)
              (λ c m v.
                (v.0, v.1, v.2, insert_ordered-Above link_dst 0 _ m.links (omega arith) v.3))))
          (λ b m v. (v.0, v.1, v.2, modify-Above link_dst 0 _ _ m.links (λ _. refl) v.3)))
        (λ m v. flush-After m _ (flush_brk_list-AboveIf m.now 0 m.links v.3) v) n w

  send_rerr-Keeps : (r : Route) → Keeps (send_rerr r)
  unfolding send_rerr
  send_rerr-Keeps r n w =
      bind-Keeps kmalloc _ kmalloc-Keeps
        (λ c.
          if_null-Keeps c _ _ (λ _ w. w)
            (λ _.
              then-Keeps (tell_dtn r.src_ip r.dst_ip (last_dtn n) task_recv_rerr) _
                (tell_dtn-Keeps r.src_ip r.dst_ip (last_dtn n) task_recv_rerr)
                (λ m v.
                  then-Keeps (note_link r.src_ip r.dst_ip r.last_hop (last_dtn n)) (pure true)
                    (note_link-Keeps r.src_ip r.dst_ip r.last_hop (last_dtn n)) (λ _ w. w) _ v)))
        n w

  report_route-Keeps : (r : Route) → Keeps (report_route r)
  unfolding report_route
  report_route-Keeps r n w =
      let told = tell_dtn r.src_ip r.dst_ip (last_dtn n) task_recv_rerr in
      let noted = note_link r.src_ip r.dst_ip 0 (last_dtn n) in
      if-Keeps (reply_to_rrer n r.src_ip) _ _
        (then-Keeps (told >> noted) (pure true)
          (then-Keeps told noted (tell_dtn-Keeps r.src_ip r.dst_ip (last_dtn n) task_recv_rerr)
            (note_link-Keeps r.src_ip r.dst_ip 0 (last_dtn n)))
          (λ _ w. w))
        (if-Keeps (is_invalid r.state) _ _ (λ _ w. w) (send_rerr-Keeps r)) n w

  break_route-Keeps : (r : Route) → Keeps (break_route r)
  unfolding break_route expire_aodv_route
  break_route-Keeps r n w =
      let write = write_route r.addr (expire_aodv_route n.now) in
      then-Keeps (when (not (is_invalid r.state)) write) (pure (not (is_invalid r.state)))
        (when-Keeps (not (is_invalid r.state)) write
          (write_route-Keeps r.addr (expire_aodv_route n.now) (λ _. refl) (λ _. refl)))
        (λ _ w. w) n w

  recount-Keeps : (expired : Bool) → Keeps (recount expired)
  recount-Keeps expired n w =
      when-Keeps (n.routing_metric == wcim_metric_id && expired) update_my_load update_my_load-Keeps
        n w

  break_routes-Keeps :
      (brk_dst_ip : ℕ) (rs : List Route) (expired : Bool)
      → Keeps (break_routes brk_dst_ip rs expired)
  unfolding break_routes
  break_routes-Keeps brk_dst_ip [] expired n w =
      then-Keeps (recount expired) (pure Status.ret0) (recount-Keeps expired) (λ _ w. w) n w
  break_routes-Keeps brk_dst_ip (r ∷ rs) expired n w =
      if-Keeps (goes_over brk_dst_ip r) _ _
        (bind-Keeps (report_route r) _ (report_route-Keeps r) (λ ok.
          if-Keeps ok _ _
            (bind-Keeps (break_route r) _ (break_route-Keeps r)
              (λ used. break_routes-Keeps brk_dst_ip rs (expired || used)))
            (λ _ w. w)))
        (break_routes-Keeps brk_dst_ip rs expired) n w

  pub gen_rerr-Keeps : (brk_dst_ip : ℕ) → Keeps (gen_rerr brk_dst_ip)
  unfolding gen_rerr
  gen_rerr-Keeps brk_dst_ip n w = break_routes-Keeps brk_dst_ip n.routes false n w

  pass_rerr-Keeps : (p : Rerr) (r : Route) → Keeps (pass_rerr p r)
  unfolding pass_rerr
  pass_rerr-Keeps p r n w =
      let last_avail = if is_first_dtn n p then n.mesh_ip else p.last_avail_ip in
      if-Keeps (reply_to_rrer n r.src_ip) _ _
        (note_link-Keeps r.src_ip r.dst_ip 0 (if is_first_dtn n p then n.mesh_ip else 0))
        (when-Keeps (not (is_invalid r.state)) _
          (λ m v. note_link-Keeps r.src_ip r.dst_ip r.last_hop last_avail _ v))
        n w

  pub recv_rerr-Keeps : (t : Task) (p : Rerr) → Keeps (recv_rerr t p)
  unfolding recv_rerr
  recv_rerr-Keeps t p n w =
      let last = if is_first_dtn n p then n.mesh_ip else p.last_avail_ip in
      let answer : Route → M (Unit {0}) = λ r.
        when (r.next_hop == t.src_ip) (pass_rerr p r >> (break_route r >>= λ used. recount used)) in
      let found = find_aodv_route_by_id p.dst_ip (to_host p.dst_id) n.routes in
      then-Keeps (tell_dtn p.src_ip p.dst_ip last task_recv_rerr) _
        (tell_dtn-Keeps p.src_ip p.dst_ip last task_recv_rerr)
        (then-Keeps (if_null found (pure tt) answer) (pure Status.ret0)
          (if_null-Keeps found (pure tt) answer (λ _ w. w)
            (λ r. when-Keeps (r.next_hop == t.src_ip) _ (
              then-Keeps (pass_rerr p r) _ (pass_rerr-Keeps p r)
                (bind-Keeps (break_route r) _ (break_route-Keeps r) (λ used. recount-Keeps used)))))
          (λ _ w. w))
        n w
