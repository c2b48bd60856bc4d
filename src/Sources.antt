-- ===== src/Sources.antt =====
-- src_list.c on the state of a node: the operations that set the kernel's policy rules.
use aodv_android.Base.{ℕ, Bool, true, false, not, ◌∷◌, if◌then◌else◌, ◌==◌, ltb}
use aodv_android.Params.{max_route_tables, default_route_table}
use aodv_android.SrcList.{SrcEntry, find_src_list_entry, find_first_rttable, unlink_src}
use aodv_android.Node.{M, pure, ◌>>=◌, ◌>>◌, get, update, when, if_null, kmalloc, rpdb_rule}

abbrev pub add_src : (ip rt_table num_routes : ℕ) → M Bool
add_src ip rt_table num_routes =
    update (λ n. record n {
      srcs = record { ip = ip; rt_table = rt_table; num_routes = num_routes } ∷ n.srcs;
    })
    >> pure true

-- insert_src_list_entry behind its allocation.
unfoldable pub add_with_rule : (ip : ℕ) → M Bool
add_with_rule ip = do
  n ← get
  let num_routes = if ip == n.mesh_ip then 1 else 0
  if ip == n.null_ip
      then add_src ip default_route_table num_routes
      else (let table = find_first_rttable n.srcs in
          if ltb max_route_tables table then pure false else do
            ok ← rpdb_rule true table ip
            if ok then add_src ip table num_routes else pure false)

-- The answer is whether the new entry is not NULL.
unfoldable pub insert_src_list_entry : (ip : ℕ) → M Bool
unfolding add_with_rule
insert_src_list_entry ip = do c ← kmalloc; if_null c (pure false) (λ _. add_with_rule ip)

unfoldable pub delete_rule : SrcEntry → M (Unit {0})
delete_rule s = do
  n ← get
  when (not (s.ip == n.null_ip)) (rpdb_rule false s.rt_table s.ip >> pure tt)

unfoldable pub delete_src_list_entry : (ip : ℕ) → M (Unit {0})
unfolding delete_rule
delete_src_list_entry ip = do
  n ← get
  update λ m. record m { srcs = unlink_src ip m.srcs }
  if_null (find_src_list_entry ip n.srcs) (pure tt) delete_rule
