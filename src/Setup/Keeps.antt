-- ===== src/Setup/Keeps.antt =====
-- The set-up of the device and the first timers keep the form of the tables.
use aodv_android.Base.{ℕ, refl, Bool, true, ◌&&◌}
use aodv_android.Kernel.{Kernel}
use aodv_android.Params.{hello_interval, active_gwroute_timeout, no_tos}
use aodv_android.Task.{task_hello, task_st, task_gw_cleanup, task_cleanup}
use aodv_android.SrcList.{find_src_list_entry}
use aodv_android.Sources.{insert_src_list_entry}
use aodv_android.Routing.{create_aodv_route, write_route}
use aodv_android.Node.{update, when, deref, kmalloc}
use aodv_android.Node.Timers.{insert_timer_simple}
use aodv_android.Invariant.{
  Keeps, bind-Keeps, then-Keeps, if-Keeps, when-Keeps, if_null-Keeps, deref-Keeps,
}
use aodv_android.Invariant.Tables.{kmalloc-Keeps, create_aodv_route-Keeps, write_route-Keeps}
use aodv_android.Invariant.Platform.{
  rpdb_route-Keeps, insert_src_list_entry-Keeps, insert_timer_simple-Keeps,
  update_timer_queue-Keeps,
}
use aodv_android.Setup.Device.{to_self, create_aodv_dev, insert_aodv_dev}
use aodv_android.Setup.{start_timers}

create_aodv_dev-Keeps : (index : ℕ) → Keeps (create_aodv_dev index)
unfolding create_aodv_dev to_self
create_aodv_dev-Keeps index = bind-Keeps kmalloc _ kmalloc-Keeps (λ c.
    if_null-Keeps c _ _ (λ n w. w)
      (λ _ n.
        bind-Keeps (create_aodv_route n.mesh_ip n.mesh_ip no_tos 1) _
          (create_aodv_route-Keeps n.mesh_ip n.mesh_ip no_tos 1)
          (λ a. bind-Keeps (deref a) _ (deref-Keeps a) (λ addr.
            then-Keeps (update λ n. record n { local_route = addr }) _ (λ n w. w)
              (then-Keeps (write_route addr (to_self n.mesh_ip index)) _
                (write_route-Keeps addr (to_self n.mesh_ip index) (λ _. refl) (λ _. refl))
                (bind-Keeps (insert_src_list_entry n.mesh_ip) _
                  (insert_src_list_entry-Keeps n.mesh_ip)
                  (λ ok.
                    if-Keeps ok _ _
                      (λ m.
                        bind-Keeps (deref (find_src_list_entry n.mesh_ip m.srcs)) _
                          (deref-Keeps (find_src_list_entry n.mesh_ip m.srcs))
                          (λ s.
                            rpdb_route-Keeps true s.rt_table 0 n.mesh_ip n.mesh_ip n.mesh_ip index
                              0)
                          m)
                      (λ m w. w))))))
          n))

pub insert_aodv_dev-Keeps :
    (index : ℕ) (has_socket : Bool) → Keeps (insert_aodv_dev index has_socket)
unfolding insert_aodv_dev
insert_aodv_dev-Keeps index has_socket =
    bind-Keeps (create_aodv_dev index) _ (create_aodv_dev-Keeps index)
      (λ ok. if-Keeps (ok && has_socket) _ _ (λ n w. w) (λ n w. w))

module _ ⦃k : Kernel⦄ where
  pub start_timers-Keeps : Keeps start_timers
  unfolding start_timers
  start_timers-Keeps n =
      then-Keeps (when n.is_gateway (insert_timer_simple task_st hello_interval n.mesh_ip)) _
        (when-Keeps n.is_gateway _ (insert_timer_simple-Keeps task_st hello_interval n.mesh_ip))
        (then-Keeps (insert_timer_simple task_hello hello_interval n.mesh_ip) _
          (insert_timer_simple-Keeps task_hello hello_interval n.mesh_ip)
          (then-Keeps (insert_timer_simple task_gw_cleanup active_gwroute_timeout n.mesh_ip) _
            (insert_timer_simple-Keeps task_gw_cleanup active_gwroute_timeout n.mesh_ip)
            (then-Keeps (insert_timer_simple task_cleanup 1500 n.mesh_ip) _
              (insert_timer_simple-Keeps task_cleanup 1500 n.mesh_ip) update_timer_queue-Keeps)))
        n
