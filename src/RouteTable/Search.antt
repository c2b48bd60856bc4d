-- ===== src/RouteTable/Search.antt =====
-- The searches of the routing table stop at the first entry past the destination. On a table in
-- ascending order they find what a search of the whole table finds.
use aodv_android.Base.{
  ℕ, ◌≡◌, Bool, ◌&&◌, some, List, arith, if◌then◌else◌, ◌==◌, IsSorted, first, insert_ordered-Above,
  find_ordered-first, unlink-Above, first-insert_ordered, modify-Above,
}
use aodv_android.RouteTable.{
  Route, dst_of, at, insert_aodv_route, find_aodv_route, find_aodv_route_by_id, remove_aodv_route,
  update_route,
}

abbrev pub matches : (src_ip dst_ip tos : ℕ) → Route → Bool
matches src_ip dst_ip tos r = r.dst_ip == dst_ip && (r.src_ip == src_ip && r.tos == tos)

-- find_aodv_route on a sorted table is the first entry of the whole table with that source,
-- destination and ToS, and find_aodv_route_by_id the first with that destination and identifier;
-- each is none only where the table has no such entry.
pub find_aodv_route-first :
    (src_ip dst_ip tos dst_id : ℕ) (table : List Route)
    → IsSorted dst_of table
    → (find_aodv_route src_ip dst_ip tos table ≡ first (matches src_ip dst_ip tos) table)
      × (find_aodv_route_by_id dst_ip dst_id table
          ≡ first (λ r. r.dst_ip == dst_ip && r.dst_id == dst_id) table)
unfolding find_aodv_route find_aodv_route_by_id
find_aodv_route-first src_ip dst_ip tos dst_id table s =
    (find_ordered-first dst_of dst_ip 0 _ table s, find_ordered-first dst_of dst_ip 0 _ table s)

pub insert-IsSorted :
    (new : Route) (table : List Route)
    → IsSorted dst_of table
    → IsSorted dst_of (insert_aodv_route new table)
unfolding insert_aodv_route
insert-IsSorted new table s = insert_ordered-Above dst_of 0 new table (omega arith) s

pub remove-IsSorted :
    (dead : ℕ) (table : List Route)
    → IsSorted dst_of table
    → IsSorted dst_of (remove_aodv_route dead table)
unfolding remove_aodv_route
remove-IsSorted dead table s = unlink-Above dst_of 0 (at dead) table s

pub update-IsSorted :
    (addr : ℕ) (f : Route → Route) (table : List Route)
    → ((r : Route) → (f r).dst_ip ≡ r.dst_ip)
    → IsSorted dst_of table
    → IsSorted dst_of (update_route addr f table)
unfolding update_route
update-IsSorted addr f table same s = modify-Above dst_of 0 (at addr) f table same s

-- After insert_aodv_route the table is still sorted, and find_aodv_route finds the new entry under
-- its own source, destination and ToS, and under any other what it found before.
pub find-insert_aodv_route :
    (src_ip dst_ip tos : ℕ) (new : Route) (table : List Route)
    → IsSorted dst_of table
    → IsSorted dst_of (insert_aodv_route new table)
      × (find_aodv_route src_ip dst_ip tos (insert_aodv_route new table) ≡ (
          if matches src_ip dst_ip tos new
          then some new
          else find_aodv_route src_ip dst_ip tos table))
unfolding insert_aodv_route
find-insert_aodv_route src_ip dst_ip tos new table s = (
  insert-IsSorted new table s,
  rw
      (
        (find_aodv_route-first src_ip dst_ip tos 0 table s).0,
        (find_aodv_route-first src_ip dst_ip tos 0 (insert_aodv_route new table)
            (insert-IsSorted new table s)).0,
      )
      (first-insert_ordered dst_of dst_ip 0 (λ r. r.src_ip == src_ip && r.tos == tos) new table s),
)
