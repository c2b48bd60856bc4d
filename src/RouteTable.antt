-- ===== src/RouteTable.antt =====
-- aodv_route.c, the routing table: the doubly linked list at `aodv_route_table`, as the list of its
-- entries from the head. `addr` is the entry's own address, by which the handlers hold a route.
pub mod Search
pub mod Distinct
use aodv_android.Base.{
  ℕ, Bool, true, false, ◌&&◌, Option, none, some, List, [], ◌∷◌, if◌then◌else◌, ◌==◌, ◌+◌, ◌%◌, ◌^◌,
  insert_ordered, find_ordered, unlink, modify, first,
}
use aodv_android.Params.{u64, delete_period}

pub data RouteState : Type 0 where
  invalid replied active : RouteState

pub record Route : Type 0 where
  pub addr : ℕ
  pub netmask : ℕ
  pub num_hops : ℕ
  pub next_hop : ℕ
  pub lifetime : ℕ
  pub last_hop : ℕ
  pub dst_ip : ℕ
  pub src_ip : ℕ
  pub dst_id : ℕ
  pub path_metric : ℕ
  pub tos : ℕ
  pub load : ℕ
  pub neigh_route : Bool
  pub self_route : Bool
  pub state : RouteState
  pub dev : ℕ

abbrev pub is_invalid : RouteState → Bool
is_invalid RouteState.invalid = true
is_invalid RouteState.replied = false
is_invalid RouteState.active = false

abbrev pub is_active : RouteState → Bool
is_active RouteState.invalid = false
is_active RouteState.replied = false
is_active RouteState.active = true

abbrev pub dst_of : Route → ℕ
dst_of r = r.dst_ip

-- The entry at an address.
abbrev pub at : ℕ → Route → Bool
at a r = r.addr == a

abbrev pub is_some : {A : Type 0} → Option A → Bool
is_some none = false
is_some (some a) = true

unfoldable pub insert_aodv_route : Route → List Route → List Route
insert_aodv_route new table = insert_ordered dst_of new table

unfoldable pub find_aodv_route : (src_ip dst_ip tos : ℕ) → List Route → Option Route
find_aodv_route src_ip dst_ip tos table =
    find_ordered dst_of dst_ip (λ r. r.src_ip == src_ip && r.tos == tos) table

unfoldable pub find_aodv_route_by_id : (dst_ip dst_id : ℕ) → List Route → Option Route
find_aodv_route_by_id dst_ip dst_id table =
    find_ordered dst_of dst_ip (λ r. r.dst_id == dst_id) table

-- is_overlapped_with_route, by the addresses of the broken link.
unfoldable pub is_overlapped_with_route : (src_ip last_avail_ip : ℕ) → List Route → Bool
is_overlapped_with_route src_ip last_avail_ip table =
    is_some (find_ordered dst_of last_avail_ip (λ r. r.src_ip == src_ip) table)

unfoldable pub expire_aodv_route : (now : ℕ) → Route → Route
expire_aodv_route now r = record r {
  lifetime = u64 (now + delete_period);
  state = RouteState.invalid;
}

-- `dead` is the address of the entry.
unfoldable pub remove_aodv_route : (dead : ℕ) → List Route → List Route
remove_aodv_route dead table = unlink (at dead) table

-- A write through a pointer to an entry.
unfoldable pub update_route : (addr : ℕ) → (Route → Route) → List Route → List Route
update_route addr f table = modify (at addr) f table

-- The sum of update_my_load over the active routes, in 8 bits.
unfoldable pub active_load : List Route → ℕ → ℕ
active_load [] acc = acc
active_load (r ∷ rs) acc =
    active_load rs (if is_active r.state then (acc + r.load) % 2 ^ 8 else acc)
