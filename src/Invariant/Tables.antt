-- ===== src/Invariant/Tables.antt =====
-- The single writes to the routing table and the list of links keep the form of the tables.
use aodv_android.Base.{
  ℕ, ◌≡◌, ◌==◌, refl, false, Option, none, some, List, [], ◌∷◌, arith, All-unlink,
  insert_ordered-Above, unlink-Above,
}
use aodv_android.RouteTable.{Route, dst_of, at, update_route, insert_aodv_route, remove_aodv_route}
use aodv_android.RouteTable.Search.{update-IsSorted}
use aodv_android.RouteTable.Distinct.{
  Differs, All-Differs-update, All-Differs-insert, update-Distinct, insert-Distinct,
  remove-Distinct,
}
use aodv_android.Node.{Node, Cell, update, kmalloc}
use aodv_android.Routing.{new_route, create_aodv_route, write_route}
use aodv_android.Invariant.{Unused, Fresh, WellFormed, After, Keeps}

Fresh-update :
    (cs : List (Option Cell)) (a : ℕ) (f : Route → Route) (rs : List Route)
    → ((r : Route) → (f r).addr ≡ r.addr)
    → Fresh cs rs
    → Fresh cs (update_route a f rs)
Fresh-update [] a f rs same h = tt
Fresh-update (none ∷ cs) a f rs same h = Fresh-update cs a f rs same h
Fresh-update (some c ∷ cs) a f rs same h =
    (All-Differs-update c.addr a f rs same h.0, h.1, Fresh-update cs a f rs same h.2)

Differs-sym : (a : ℕ) (r : Route) → (r.addr == a) ≡ false → (a == r.addr) ≡ false
Differs-sym a r h = ground arith

Fresh-insert :
    (cs : List (Option Cell)) (new : Route) (rs : List Route)
    → Unused new.addr cs
    → Fresh cs rs
    → Fresh cs (insert_aodv_route new rs)
Fresh-insert [] new rs u h = tt
Fresh-insert (none ∷ cs) new rs u h = Fresh-insert cs new rs u h
Fresh-insert (some c ∷ cs) new rs u h =
    (All-Differs-insert c.addr new rs u.0 h.0, h.1, Fresh-insert cs new rs u.1 h.2)

Fresh-remove :
    (cs : List (Option Cell)) (dead : ℕ) (rs : List Route)
    → Fresh cs rs
    → Fresh cs (remove_aodv_route dead rs)
unfolding remove_aodv_route
Fresh-remove [] dead rs h = tt
Fresh-remove (none ∷ cs) dead rs h = Fresh-remove cs dead rs h
Fresh-remove (some c ∷ cs) dead rs h =
    (All-unlink (Differs c.addr) (at dead) rs h.0, h.1, Fresh-remove cs dead rs h.2)

pub write_route-Keeps :
    (a : ℕ) (f : Route → Route)
    → ((r : Route) → (f r).addr ≡ r.addr)
    → ((r : Route) → (f r).dst_ip ≡ r.dst_ip)
    → Keeps (write_route a f)
write_route-Keeps a f same_addr same_dst n w = (
  update-IsSorted a f n.routes same_dst w.0,
  update-Distinct a f n.routes same_addr w.1,
  Fresh-update n.memory a f n.routes same_addr w.2,
  w.3,
)

pub remove_route-Keeps :
    (a : ℕ) → Keeps (update λ m. record m { routes = remove_aodv_route a m.routes })
unfolding remove_aodv_route
remove_route-Keeps a n w = (
  unlink-Above dst_of 0 (at a) n.routes w.0,
  remove-Distinct a n.routes w.1,
  Fresh-remove n.memory a n.routes w.2,
  w.3,
)

-- With the memory that is left.
kmalloc-After :
    (n : Node) (cs : List (Option Cell)) → n.memory ≡ cs → WellFormed n → After (kmalloc n)
unfolding kmalloc
kmalloc-After n [] e w = rw e (w.0, w.1, tt, w.3)
kmalloc-After n (none ∷ cs) e w = rw e (w.0, w.1, (rw e at w.2), w.3)
kmalloc-After n (some c ∷ cs) e w =
    let f : Fresh (some c ∷ cs) n.routes = rw e at w.2 in rw e (w.0, w.1, f.2, w.3)

pub kmalloc-Keeps : Keeps kmalloc
kmalloc-Keeps n w = kmalloc-After n n.memory refl w

create_with :
    (src_ip dst_ip tos dst_id : ℕ) (n : Node) (cs : List (Option Cell))
    → n.memory ≡ cs
    → WellFormed n
    → After (create_aodv_route src_ip dst_ip tos dst_id n)
unfolding create_aodv_route kmalloc new_route insert_aodv_route
create_with src_ip dst_ip tos dst_id n [] e w = rw e (w.0, w.1, tt, w.3)
create_with src_ip dst_ip tos dst_id n (none ∷ cs) e w = rw e (w.0, w.1, (rw e at w.2), w.3)
create_with src_ip dst_ip tos dst_id n (some c ∷ cs) e w =
    let f : Fresh (some c ∷ cs) n.routes = rw e at w.2 in
    let new = new_route n c src_ip dst_ip tos dst_id in
    rw e (
      insert_ordered-Above dst_of 0 new n.routes (omega arith) w.0,
      insert-Distinct new n.routes f.0 w.1,
      Fresh-insert cs new n.routes f.1 f.2,
      w.3,
    )

pub create_aodv_route-Keeps :
    (src_ip dst_ip tos dst_id : ℕ) → Keeps (create_aodv_route src_ip dst_ip tos dst_id)
create_aodv_route-Keeps src_ip dst_ip tos dst_id n w =
    create_with src_ip dst_ip tos dst_id n n.memory refl w
