-- ===== src/Setup/Unload.antt =====
-- The way out of fbaodv_protocol.c: what cleanup_fbaodv_module and the label `out2` do after the
-- entries of /proc and the hooks.
use aodv_android.Base.{false, not, ◌&&◌, List, [], ◌∷◌, ◌==◌}
use aodv_android.RouteTable.{Route}
use aodv_android.SrcList.{SrcEntry, find_src_list_entry}
use aodv_android.Handlers.Neighbours.{cleanup_neigh_routes}
use aodv_android.Node.{M, pure, fail, ◌>>=◌, ◌>>◌, get, when, if_null, rpdb_route, rpdb_rule}

-- A round of cleanup_aodv_route_table.
unfoldable pub release_route : Route → M (Unit {0})
unfolding rpdb_route
release_route r = do
  n ← get
  if_null (find_src_list_entry r.src_ip n.srcs) (pure tt) (λ s.
      when (not r.neigh_route && not r.self_route) (
        rpdb_route false s.rt_table r.tos r.src_ip r.dst_ip r.next_hop r.dev r.num_hops >> pure tt))

unfoldable pub release_routes : List Route → M (Unit {0})
unfolding release_route
release_routes [] = pure tt
release_routes (r ∷ rs) = release_route r >> release_routes rs

-- find_aodv_route behind the loop: `aodv_route_table` still points to the first entry, which was
-- freed; without entries the result is NULL, and its `src_ip` is read.
abbrev pub find_among_freed : List Route → M (Unit {0})
find_among_freed [] = fail
find_among_freed (freed ∷ rs) = fail

unfoldable pub cleanup_aodv_route_table : M (Unit {0})
unfolding release_routes
cleanup_aodv_route_table = do n ← get; release_routes n.routes; find_among_freed n.routes

unfoldable pub flush_rules : List SrcEntry → M (Unit {0})
unfolding rpdb_rule
flush_rules [] = pure tt
flush_rules (s ∷ ss) = do
  n ← get
  when (not (s.ip == n.null_ip)) (rpdb_rule false s.rt_table s.ip >> pure tt)
  flush_rules ss

-- `src_list` keeps its value, and nothing reads it behind.
unfoldable pub flush_src_list : M (Unit {0})
unfolding flush_rules
flush_src_list = do n ← get; flush_rules n.srcs

-- The lists of the neighbours, of the gateways and of the traffic classes are freed by walks that read
-- no entry after its end.
unfoldable pub shut_down : M (Unit {0})
unfolding cleanup_neigh_routes cleanup_aodv_route_table flush_src_list
shut_down = cleanup_neigh_routes >> cleanup_aodv_route_table >> flush_src_list

-- `out1`: close_sock reads `g_mesh_dev`, which is NULL where the set-up of the device failed.
abbrev pub close_missing_sock : {A : Type 0} → M A
close_missing_sock = fail
