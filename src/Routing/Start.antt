-- ===== src/Routing/Start.antt =====
-- What rreq_aodv_route does for a flow without a route.
use aodv_android.Base.{
  ℕ, ◌+◌, ◌≡◌, refl, ◌==◌, true, Option, none, some, List, ◌∷◌, arith, first, IsSorted, All,
}
use aodv_android.RouteTable.{RouteState, dst_of, find_aodv_route, insert_aodv_route}
use aodv_android.RouteTable.Search.{matches, find_aodv_route-first, find-insert_aodv_route}
use aodv_android.RouteTable.Distinct.{Differs, Distinct, insert-Distinct}
use aodv_android.SrcList.{SrcEntry, find_src_list_entry, update_src}
use aodv_android.Neighs.{Neigh}
use aodv_android.Node.{Node, Cell, kmalloc}
use aodv_android.Routing.{new_route, create_aodv_route, count_source, start_route, rreq_aodv_route}
use aodv_android.Routing.Accept.{Installed, LoadKnown, install-Installed}

itself : (a : ℕ) → (a == a) ≡ true
itself a = ground arith

module _ (next_hop : Neigh) (hops dst_id path_metric : ℕ) (src_ip dst_ip tos : ℕ) where
  -- rreq_aodv_route for a flow that the table has no route for, in a table that is sorted and holds
  -- distinct entries, with memory for an entry, for a source that is listed, and where the load of
  -- the link can be computed: it ends, and leaves the flow with the route that the request brings,
  -- in a table of the same form.
  pub rreq_aodv_route-new :
      (c : Cell) (cs : List (Option Cell)) (s : SrcEntry) (n : Node)
      → IsSorted dst_of n.routes
      → Distinct n.routes
      → n.memory ≡ some c ∷ cs
      → All (Differs c.addr) n.routes
      → find_src_list_entry src_ip n.srcs ≡ some s
      → LoadKnown next_hop tos n
      → find_aodv_route src_ip dst_ip tos n.routes ≡ none
      → Installed next_hop hops dst_id path_metric src_ip dst_ip tos n
          (rreq_aodv_route next_hop hops dst_id path_metric src_ip dst_ip tos n)
  unfolding rreq_aodv_route start_route create_aodv_route kmalloc count_source new_route
  rreq_aodv_route-new c cs s n sorted distinct memory unused listed known missing =
      let new = new_route n c src_ip dst_ip tos dst_id in
      let found = find-insert_aodv_route src_ip dst_ip tos new n.routes sorted in
      let table = insert_aodv_route new n.routes in
      let n' = record n {
        memory = cs;
        routes = table;
        srcs = update_src src_ip (λ s. record s { num_routes = s.num_routes + 1 }) n.srcs;
      } in
      let here : first (matches src_ip dst_ip tos) table ≡ some new =
        rw (← (find_aodv_route-first src_ip dst_ip tos 0 table found.0).0)
          (rw (itself dst_ip, itself src_ip, itself tos) at found.1) in
      let m : matches src_ip dst_ip tos new ≡ true =
        rw (itself dst_ip, itself src_ip, itself tos) refl in
      rw (missing, memory, listed)
        (install-Installed next_hop hops dst_id path_metric src_ip dst_ip tos RouteState.invalid new
          n' found.0 (insert-Distinct new n.routes unused distinct) known here m)
