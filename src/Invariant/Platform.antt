-- ===== src/Invariant/Platform.antt =====
-- The operations of rpdb.c, src_list.c and timer_queue.c, and update_my_load, keep the form of the tables.
use aodv_android.Base.{
  ℕ, ◌==◌, ◌||◌, not, Bool, true, false, Option, none, some, List, [], ◌∷◌, ltb, if◌then◌else◌,
}
use aodv_android.Kernel.{Kernel}
use aodv_android.Params.{max_route_tables}
use aodv_android.Task.{Task}
use aodv_android.RouteTable.{active_load}
use aodv_android.SrcList.{SrcEntry, find_src_list_entry, find_first_rttable}
use aodv_android.Sources.{add_with_rule, insert_src_list_entry, delete_rule, delete_src_list_entry}
use aodv_android.Routing.{update_my_load, read_route}
use aodv_android.Node.{
  Node, Cell, Effect, route_request, pure, next_answer, rtnetlink, rpdb_route, rpdb_rule, kmalloc,
}
use aodv_android.Node.Timers.{
  queue_new, insert_timer_simple, insert_timer_directional, set_timer, update_timer_queue,
}
use aodv_android.Invariant.{
  WellFormed, Keeps, bind-Keeps, then-Keeps, if-Keeps, when-Keeps, if_null-Keeps, deref-Keeps,
}
use aodv_android.Invariant.Tables.{kmalloc-Keeps}

next_answer-Keeps : (bs : List Bool) → Keeps (next_answer bs)
next_answer-Keeps [] n w = w
next_answer-Keeps (b ∷ bs) n w = w

rtnetlink-Keeps : (e : Effect) → Keeps (rtnetlink e)
unfolding rtnetlink
rtnetlink-Keeps e n w = next_answer-Keeps n.netlink (record n { log = e ∷ n.log }) w

pub rpdb_route-Keeps :
    (is_new : Bool) (table tos src_ip dst_ip next_hop dev hops : ℕ)
    → Keeps (rpdb_route is_new table tos src_ip dst_ip next_hop dev hops)
unfolding rpdb_route
rpdb_route-Keeps is_new table tos src_ip dst_ip next_hop dev hops n w =
    if-Keeps (dst_ip == n.dtn_hello_ip || src_ip == n.dtn_hello_ip) (pure true)
      (rtnetlink (route_request is_new table tos src_ip dst_ip next_hop dev hops)) (λ _ w. w)
      (rtnetlink-Keeps _) n w

rpdb_rule-Keeps : (is_new : Bool) (table ip : ℕ) → Keeps (rpdb_rule is_new table ip)
unfolding rpdb_rule
rpdb_rule-Keeps is_new table ip = rtnetlink-Keeps _

if-WellFormed :
    (b : Bool) (n m : Node) → WellFormed n → WellFormed m → WellFormed (if b then n else m)
if-WellFormed true n m v w = v
if-WellFormed false n m v w = w

pub update_my_load-Keeps : Keeps update_my_load
unfolding update_my_load
update_my_load-Keeps n w = if-WellFormed (n.load == active_load n.routes 0) n _ w w

pub read_route-Keeps : (addr : ℕ) → Keeps (read_route addr)
read_route-Keeps addr n w = deref-Keeps _ n w

module _ ⦃k : Kernel⦄ where
  queue_new-Keeps : (t : Task) (c : Option Cell) → Keeps (queue_new t c)
  queue_new-Keeps t none n w = w
  queue_new-Keeps t (some c) n w = w

  pub insert_timer_simple-Keeps : (type delay ip : ℕ) → Keeps (insert_timer_simple type delay ip)
  unfolding insert_timer_simple
  insert_timer_simple-Keeps type delay ip n w =
      bind-Keeps kmalloc _ kmalloc-Keeps (λ c. queue_new-Keeps _ c) n w

  pub insert_timer_directional-Keeps :
      (type delay retries src_ip dst_ip tos : ℕ)
      → Keeps (insert_timer_directional type delay retries src_ip dst_ip tos)
  unfolding insert_timer_directional
  insert_timer_directional-Keeps type delay retries src_ip dst_ip tos n w =
      bind-Keeps kmalloc _ kmalloc-Keeps (λ c. queue_new-Keeps _ c) n w

  set_timer-Keeps : (o : Option (ℕ × ℕ)) → Keeps (set_timer o)
  set_timer-Keeps none n w = w
  set_timer-Keeps (some (s, u)) n w = w

  pub update_timer_queue-Keeps : Keeps update_timer_queue
  unfolding update_timer_queue
  update_timer_queue-Keeps n w = set_timer-Keeps _ n w

add_with_rule-Keeps : (ip : ℕ) → Keeps (add_with_rule ip)
unfolding add_with_rule
add_with_rule-Keeps ip n w =
    if-Keeps (ip == n.null_ip) _ _ (λ _ w. w)
      (if-Keeps (ltb max_route_tables (find_first_rttable n.srcs)) _ _ (λ _ w. w)
        (bind-Keeps (rpdb_rule true (find_first_rttable n.srcs) ip) _ (rpdb_rule-Keeps _ _ _)
          (λ ok. if-Keeps ok _ _ (λ _ w. w) (λ _ w. w))))
      n w

pub insert_src_list_entry-Keeps : (ip : ℕ) → Keeps (insert_src_list_entry ip)
unfolding insert_src_list_entry
insert_src_list_entry-Keeps ip =
    bind-Keeps kmalloc _ kmalloc-Keeps
      (λ c. if_null-Keeps c _ _ (λ _ w. w) (λ _. add_with_rule-Keeps ip))

delete_rule-Keeps : (s : SrcEntry) → Keeps (delete_rule s)
unfolding delete_rule
delete_rule-Keeps s n w =
    when-Keeps (not (s.ip == n.null_ip)) _
      (then-Keeps (rpdb_rule false s.rt_table s.ip) (pure tt) (rpdb_rule-Keeps _ _ _) (λ _ w. w)) n
      w

pub delete_src_list_entry-Keeps : (ip : ℕ) → Keeps (delete_src_list_entry ip)
unfolding delete_src_list_entry
delete_src_list_entry-Keeps ip n w =
    if_null-Keeps (find_src_list_entry ip n.srcs) (pure tt) delete_rule (λ _ w. w) delete_rule-Keeps
      _ w
