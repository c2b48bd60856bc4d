-- ===== src/Setup/Device.antt =====
-- aodv_dev.c: the device of the mesh, its route and its socket.
use aodv_android.Base.{
  ℕ, ◌-◌, ◌^◌, Bool, true, false, ◌&&◌, Option, none, some, if◌then◌else◌, ◌==◌,
}
use aodv_android.Params.{no_tos}
use aodv_android.RouteTable.{Route, RouteState}
use aodv_android.SrcList.{find_src_list_entry}
use aodv_android.Sources.{insert_src_list_entry}
use aodv_android.Routing.{create_aodv_route, write_route}
use aodv_android.Node.{M, pure, ◌>>=◌, ◌>>◌, get, update, if_null, deref, kmalloc, rpdb_route}

-- The index of a device, and the address and the mask of the first entry of its list.
pub record NetDevice : Type 0 where
  pub index : ℕ
  pub address : Option (ℕ × ℕ)

-- The route of the node to itself; its destination is the mesh address already.
unfoldable pub to_self : (mesh_ip index : ℕ) → Route → Route
to_self mesh_ip index r = record r {
  self_route = true;
  next_hop = mesh_ip;
  last_hop = mesh_ip;
  lifetime = 2 ^ 64 - 1;
  state = RouteState.active;
  dev = index;
  tos = 0;
  load = 0;
}

-- The device was found by its name. create_aodv_route gives NULL without memory, and the route is
-- written through without a test. The answer is whether the new device is not NULL.
unfoldable pub create_aodv_dev : (index : ℕ) → M Bool
unfolding create_aodv_route to_self insert_src_list_entry rpdb_route
create_aodv_dev index = do
  c ← kmalloc
  if_null c (pure false) (λ _. do
    n ← get
    a ← create_aodv_route n.mesh_ip n.mesh_ip no_tos 1
    addr ← deref a
    update λ n. record n { local_route = addr }
    write_route addr (to_self n.mesh_ip index)
    ok ← insert_src_list_entry n.mesh_ip
    if ok
        then (do
          m ← get
          s ← deref (find_src_list_entry n.mesh_ip m.srcs)
          rpdb_route true s.rt_table 0 n.mesh_ip n.mesh_ip n.mesh_ip index 0)
        else pure false)

-- The answer is whether it failed. The device of the module is set at the end.
unfoldable pub insert_aodv_dev : (index : ℕ) → (has_socket : Bool) → M Bool
unfolding create_aodv_dev
insert_aodv_dev index has_socket = do
  ok ← create_aodv_dev index
  if ok && has_socket
      then update (λ n. record n { dev_index = index; load = 0; load_seq = 1 }) >> pure false
      else pure true

abbrev pub has_address : Option (ℕ × ℕ) → (mesh_ip netmask : ℕ) → Bool
has_address none mesh_ip netmask = false
has_address (some (ip, mask)) mesh_ip netmask = ip == mesh_ip && mask == netmask

-- The answer is whether it failed.
unfoldable pub init_aodv_dev : Option NetDevice → (has_socket : Bool) → M Bool
unfolding insert_aodv_dev
init_aodv_dev none has_socket = pure true
init_aodv_dev (some dev) has_socket = do
  n ← get
  if has_address dev.address n.mesh_ip n.netmask
      then insert_aodv_dev dev.index has_socket
      else pure true
