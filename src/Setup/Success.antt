-- ===== src/Setup/Success.antt =====
-- When init_fbaodv_module of fbaodv_protocol.c loads the module.
use mathlib.Core.Path.{subst}
use aodv_android.Base.{
  arith, length, leb, ◌<◌, eq_self, ℕ, ◌≡◌, ◌==◌, refl, sym, ◌∙◌, Bool, true, false, Option, none,
  some, List, [], ◌∷◌, first, modify, insert_ordered,
}
use aodv_android.Kernel.{Kernel}
use aodv_android.Params.{hello_interval, active_gwroute_timeout}
use aodv_android.Task.{Task, task_hello, task_st, task_gw_cleanup, task_cleanup}
use aodv_android.TimerQueue
use aodv_android.Addresses.Text.{Ctype}
use aodv_android.Node.Timers.{insert_timer_simple, update_timer_queue, queue_new, set_timer}
use aodv_android.Setup.{
  Parameters, Machine, Loading, set_constants, set_gateway, start_timers, all_made, start_up,
  init_module, init_fbaodv_module, init_lists, prepared,
}
use aodv_android.Setup.Prepared.{prepared-memory, prepared-netlink}
use aodv_android.RouteTable.{Route, RouteState, update_route, insert_aodv_route}
use aodv_android.SrcList.{find_src_list_entry, find_first_rttable, first_empty, find_empty_rttable}
use aodv_android.Sources.{insert_src_list_entry, add_with_rule}
use aodv_android.Routing.{create_aodv_route, new_route}
use aodv_android.Node.{
  Node, Cell, M, ◌>>=◌, when, kmalloc, allocate, rpdb_route, rpdb_rule, rtnetlink,
}
use aodv_android.Node.Preserves.{Behind, Preserves, bind-Preserves, then-Preserves, when-Preserves}
use aodv_android.Handlers.Rerr.Ends.{Ends, Ends-and_then}
use aodv_android.Setup.Device.{
  NetDevice, to_self, create_aodv_dev, insert_aodv_dev, has_address, init_aodv_dev,
}

-- Memory for the device, its route and its source, and a kernel that sets a rule and a route.
abbrev supplied :
    (device route source : Cell) (cells : List (Option Cell)) (answers : List Bool) → Node → Node
supplied device route source cells answers n = record n {
  memory = some device ∷ some route ∷ some source ∷ cells;
  netlink = true ∷ true ∷ answers;
  routes = [];
  srcs = [];
}

-- The node has one route, which is the route to itself, and one source, which is itself.
abbrev pub Settled : (index ip : ℕ) → Node → Type 0
Settled index ip n =
    ((r : Route) × (n.routes ≡ r ∷ [])
      × (n.local_route ≡ r.addr)
      × (r.self_route ≡ true)
      × (r.state ≡ RouteState.active)
      × (r.src_ip ≡ ip)
      × (r.dst_ip ≡ ip)
      × (r.next_hop ≡ ip)
      × (r.dev ≡ index))
    × (n.srcs ≡ record { ip = ip; rt_table = 1; num_routes = 1 } ∷ [])

create_aodv_dev-Ends :
    (index : ℕ) (device route source : Cell) (cells : List (Option Cell)) (answers : List Bool)
    (n : Node)
    → (n.mesh_ip == n.null_ip) ≡ false
    → (n.mesh_ip == n.dtn_hello_ip) ≡ false
    → Ends
        (λ ok m. (ok ≡ true) × Settled index n.mesh_ip m)
        (create_aodv_dev index (supplied device route source cells answers n))
unfolding create_aodv_dev kmalloc create_aodv_route new_route insert_aodv_route insert_ordered
    to_self insert_src_list_entry add_with_rule find_first_rttable first_empty find_empty_rttable
    rpdb_rule rpdb_route rtnetlink update_route modify first find_src_list_entry
create_aodv_dev-Ends index device route source cells answers n used other =
    rw (used, eq_self n.mesh_ip, eq_self route.addr, other)
      (refl, ((_, refl, refl, refl, refl, refl, refl, refl, refl), refl))

insert_aodv_dev-Ends :
    (index : ℕ) (device route source : Cell) (cells : List (Option Cell)) (answers : List Bool)
    (n : Node)
    → (n.mesh_ip == n.null_ip) ≡ false
    → (n.mesh_ip == n.dtn_hello_ip) ≡ false
    → Ends
        (λ failed m. (failed ≡ false) × (m.dev_index ≡ index) × Settled index n.mesh_ip m)
        (insert_aodv_dev index true (supplied device route source cells answers n))
unfolding insert_aodv_dev
insert_aodv_dev-Ends index device route source cells answers n used other =
    Ends-and_then (λ ok m. (ok ≡ true) × Settled index n.mesh_ip m)
      (λ failed m. (failed ≡ false) × (m.dev_index ≡ index) × Settled index n.mesh_ip m)
      (create_aodv_dev index (supplied device route source cells answers n)) _
      (create_aodv_dev-Ends index device route source cells answers n used other)
      (λ ok m e. rw e.0 (refl, refl, e.1))

-- The run ends from every state.
abbrev Total : {A : Type 0} → M A → Type 0
Total m = (n : Node) → Ends (λ _ _. Unit {0}) (m n)

bind-Total :
    {A B : Type 0} (m : M A) (f : A → M B) → Total m → ((a : A) → Total (f a)) → Total (m >>= f)
bind-Total m f h k n =
    Ends-and_then (λ _ _. Unit {0}) (λ _ _. Unit {0}) (m n) f (h n) (λ a n' _. k a n')

when-Total : (b : Bool) (m : M (Unit {0})) → Total m → Total (when b m)
when-Total true m h n = h n
when-Total false m h n = tt

kmalloc-Total : Total kmalloc
unfolding kmalloc
kmalloc-Total n = by_memory n.memory
  where
    by_memory : (cs : List (Option Cell)) → Ends (λ _ _. Unit {0}) (allocate cs n)
    by_memory [] = tt
    by_memory (c ∷ cs) = tt

module _ ⦃k : Kernel⦄ where
  queue_new-Total : (t : Task) (c : Option Cell) → Total (queue_new t c)
  queue_new-Total t none n = tt
  queue_new-Total t (some c) n = tt

  insert_timer_simple-Total : (type delay ip : ℕ) → Total (insert_timer_simple type delay ip)
  unfolding insert_timer_simple
  insert_timer_simple-Total type delay ip n =
      bind-Total kmalloc (queue_new _) kmalloc-Total (queue_new-Total _) n

  set_timer-Total : (o : Option (ℕ × ℕ)) → Total (set_timer o)
  set_timer-Total none n = tt
  set_timer-Total (some t) n = tt

  update_timer_queue-Total : Total update_timer_queue
  unfolding update_timer_queue
  update_timer_queue-Total n = set_timer-Total (TimerQueue.update_timer_queue n.now n.timers) n

  start_timers-Total : Total start_timers
  unfolding start_timers
  start_timers-Total n =
      bind-Total (when n.is_gateway (insert_timer_simple task_st hello_interval n.mesh_ip)) _
        (when-Total n.is_gateway _ (insert_timer_simple-Total task_st hello_interval n.mesh_ip))
        (λ _.
          bind-Total (insert_timer_simple task_hello hello_interval n.mesh_ip) _
            (insert_timer_simple-Total task_hello hello_interval n.mesh_ip)
            (λ _.
              bind-Total (insert_timer_simple task_gw_cleanup active_gwroute_timeout n.mesh_ip) _
                (insert_timer_simple-Total task_gw_cleanup active_gwroute_timeout n.mesh_ip)
                (λ _.
                  bind-Total (insert_timer_simple task_cleanup 1500 n.mesh_ip) _
                    (insert_timer_simple-Total task_cleanup 1500 n.mesh_ip)
                    (λ _. update_timer_queue-Total))))
        n

  -- The module runs with the device, and the node has its routes.
  module _ (index ip : ℕ) where
    abbrev pub Runs : Node → Type 0
    Runs n = (n.initialized ≡ true) × (n.dev_index ≡ index) × Settled index ip n

    kmalloc-Runs : Preserves Runs kmalloc
    unfolding kmalloc
    kmalloc-Runs n w = by_memory n.memory
      where
        by_memory : (cs : List (Option Cell)) → Behind Runs (allocate cs n)
        by_memory [] = w
        by_memory (c ∷ cs) = w

    queue_new-Runs : (t : Task) (c : Option Cell) → Preserves Runs (queue_new t c)
    queue_new-Runs t none n w = w
    queue_new-Runs t (some c) n w = w

    insert_timer_simple-Runs :
        (type delay ip : ℕ) → Preserves Runs (insert_timer_simple type delay ip)
    unfolding insert_timer_simple
    insert_timer_simple-Runs type delay ip n w =
        bind-Preserves Runs kmalloc (queue_new _) kmalloc-Runs (queue_new-Runs _) n w

    set_timer-Runs : (o : Option (ℕ × ℕ)) → Preserves Runs (set_timer o)
    set_timer-Runs none n w = w
    set_timer-Runs (some t) n w = w

    start_timers-Runs : Preserves Runs start_timers
    unfolding start_timers update_timer_queue
    start_timers-Runs n =
        then-Preserves Runs
          (when n.is_gateway (insert_timer_simple task_st hello_interval n.mesh_ip)) _
          (when-Preserves Runs n.is_gateway _
            (insert_timer_simple-Runs task_st hello_interval n.mesh_ip))
          (then-Preserves Runs (insert_timer_simple task_hello hello_interval n.mesh_ip) _
            (insert_timer_simple-Runs task_hello hello_interval n.mesh_ip)
            (then-Preserves Runs
              (insert_timer_simple task_gw_cleanup active_gwroute_timeout n.mesh_ip) _
              (insert_timer_simple-Runs task_gw_cleanup active_gwroute_timeout n.mesh_ip)
              (then-Preserves Runs (insert_timer_simple task_cleanup 1500 n.mesh_ip) _
                (insert_timer_simple-Runs task_cleanup 1500 n.mesh_ip)
                (λ m. set_timer-Runs (TimerQueue.update_timer_queue m.now m.timers) m))))
          n

    Ends-Runs :
        (o : Option (Unit {0} × Node))
        → Ends (λ _ _. Unit {0}) o
        → Behind Runs o
        → Ends (λ _ m. Runs m) o
    Ends-Runs none e w = e
    Ends-Runs (some (u, m)) e w = w

    start_up-Ends :
        (machine : Machine) (n : Node)
        → all_made 9 machine.proc_entries ≡ true
        → (n.dev_index ≡ index) × Settled index ip n
        → Ends (λ a m. (a ≡ Loading.loaded) × Runs m) (start_up machine n)
    unfolding start_up
    start_up-Ends machine n made set =
        let start = record n { initialized = true } in
        Ends-and_then (λ _ m. Runs m) (λ a m. (a ≡ Loading.loaded) × Runs m) (start_timers start) _
          (Ends-Runs (start_timers start) (start_timers-Total start)
            (start_timers-Runs start (refl, set.0, set.1)))
          (λ _ m w. rw made (refl, w))

module _ ⦃t : Ctype⦄ ⦃k : Kernel⦄ where
  prepared-supplied :
      (p : Parameters) (text : List ℕ) (n : Node) (device route source : Cell)
      (cells : List (Option Cell)) (answers : List Bool)
      → n.memory ≡ some device ∷ some route ∷ some source ∷ cells
      → n.netlink ≡ true ∷ true ∷ answers
      → prepared p text n ≡ supplied device route source cells answers (prepared p text n)
  unfolding prepared init_lists
  prepared-supplied p text n device route source cells answers e f = λ i.
      record (prepared p text n) {
        memory = (prepared-memory p text n ∙ e) i;
        netlink = (prepared-netlink p text n ∙ f) i;
      }

  -- Where the parameters are given, the name of the device with less than 8 characters, the device is
  -- there with the address and the mask that `network_ip` sets, which are not 0.0.0.0 and
  -- 127.127.127.127, kmalloc gives three blocks, the kernel makes a rule, a route, a socket and the
  -- entries of /proc, init_fbaodv_module ends and has loaded the module: it is initialized with the index
  -- of the device, its one route is the active route to itself, to which `g_local_route` points, and its
  -- one source is the node itself, with table 1. It ends also where there is no memory for the timers.
  pub init_fbaodv_module_loads :
      (p : Parameters) (machine : Machine) (name text : List ℕ) (dev : NetDevice) (n : Node)
      (device route source : Cell) (cells : List (Option Cell)) (answers : List Bool)
      → p.mesh_dev ≡ some name
      → length name < 8
      → p.network_ip ≡ some text
      → machine.device ≡ some dev
      → machine.has_socket ≡ true
      → all_made 9 machine.proc_entries ≡ true
      → n.memory ≡ some device ∷ some route ∷ some source ∷ cells
      → n.netlink ≡ true ∷ true ∷ answers
      → has_address dev.address
          (prepared p text (set_gateway p (set_constants n))).mesh_ip
          (prepared p text (set_gateway p (set_constants n))).netmask
        ≡ true
      → ((prepared p text (set_gateway p (set_constants n))).mesh_ip
          == (prepared p text (set_gateway p (set_constants n))).null_ip)
        ≡ false
      → ((prepared p text (set_gateway p (set_constants n))).mesh_ip
          == (prepared p text (set_gateway p (set_constants n))).dtn_hello_ip)
        ≡ false
      → Ends
          (λ a m.
            (a ≡ Loading.loaded)
            × Runs dev.index (prepared p text (set_gateway p (set_constants n))).mesh_ip m)
          (init_fbaodv_module p machine n)
  unfolding init_fbaodv_module init_module init_aodv_dev
  init_fbaodv_module_loads p machine name text dev n device route source cells answers given_dev
        short given_ip found socket made memory netlink fits used other =
      let start = set_gateway p (set_constants n) in
      let ready = prepared p text start in
      let copied : leb 8 (length name) ≡ false = ground (arith, short) in
      let set_up = λ (failed : Bool) (m : Node).
        (failed ≡ false) × (m.dev_index ≡ dev.index) × Settled dev.index ready.mesh_ip m in
      rw (given_dev, copied, given_ip, found, fits, socket)
        (Ends-and_then set_up (λ a m. (a ≡ Loading.loaded) × Runs dev.index ready.mesh_ip m)
          (insert_aodv_dev dev.index true ready) _
          (subst (λ m. Ends set_up (insert_aodv_dev dev.index true m))
            (sym (prepared-supplied p text start device route source cells answers memory netlink))
            (insert_aodv_dev-Ends dev.index device route source cells answers ready used other))
          (λ failed m e. rw e.0 (start_up-Ends dev.index ready.mesh_ip machine m made (e.1, e.2))))
