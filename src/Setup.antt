-- ===== src/Setup.antt =====
-- fbaodv_protocol.c and aodv_dev.c: how the module is loaded and unloaded. A text is the list of its
-- characters. `none` is a fault, as in the handlers.
pub mod Device
pub mod Unload
pub mod Prepared
pub mod Network
pub mod Keeps
pub mod Outcome
pub mod Success
use aodv_android.Base.{
  length, leb, ℕ, zero, suc, ◌+◌, ◌*◌, ◌-◌, ◌^◌, ◌/◌, Bool, true, false, not, ◌&&◌, ◌||◌, Option,
  none, some, List, [], ◌∷◌, map, if◌then◌else◌, ◌==◌,
}
use aodv_android.Kernel.{Kernel}
use aodv_android.Params.{u8, hello_interval, active_gwroute_timeout, ett_metric_id, wcim_metric_id}
use aodv_android.Task.{task_hello, task_st, task_gw_cleanup, task_cleanup}
use aodv_android.Addresses.{get_nominalrate}
use aodv_android.Addresses.Text.{Ctype, inet_aton}
use aodv_android.Flows.{init_flow_type_table}
use aodv_android.Node.{Node, M, pure, fail, ◌>>=◌, ◌>>◌, get, update, when, if_null, deref}
use aodv_android.Node.Timers.{insert_timer_simple, update_timer_queue}
use aodv_android.Setup.Device.{NetDevice, init_aodv_dev}
use aodv_android.Setup.Unload.{shut_down, close_missing_sock}

-- The parameters of insmod; a parameter that is not given is NULL, or 0.
pub record Parameters : Type 0 where
  pub mesh_dev : Option (List ℕ)
  pub aodv_gateway : ℕ
  pub network_ip : Option (List ℕ)
  pub routing_metric : Option (List ℕ)
  pub nominal_rate : ℕ
  pub aodv_blacklist : List (List ℕ)
  pub dtn_blacklist : List (List ℕ)

-- What the kernel has and does while the module is loaded: the device of the name `mesh_dev`, whether
-- a socket is created, and whether the entries of /proc are, in the order of their creation.
pub record Machine : Type 0 where
  pub device : Option NetDevice
  pub has_socket : Bool
  pub proc_entries : List Bool

pub data Loading : Type 0 where
  loaded : Loading
  refused : Loading

abbrev pub same_text : List ℕ → List ℕ → Bool
same_text [] [] = true
same_text [] (d ∷ ds) = false
same_text (c ∷ cs) [] = false
same_text (c ∷ cs) (d ∷ ds) = let rest = same_text cs ds in if c == d then rest else false

-- "HOPS", "ETT" and "WCIM".
abbrev pub hops_text : List ℕ
hops_text = 72 ∷ 79 ∷ 80 ∷ 83 ∷ []

abbrev pub ett_text : List ℕ
ett_text = 69 ∷ 84 ∷ 84 ∷ []

abbrev pub wcim_text : List ℕ
wcim_text = 87 ∷ 67 ∷ 73 ∷ 77 ∷ []

-- `g_fixed_rate` for ETT and WCIM, where it was `old`.
abbrev pub fixed_rate_of : (old nominal_rate : ℕ) → ℕ
fixed_rate_of old nominal_rate =
    if not (nominal_rate == 0) && not (get_nominalrate nominal_rate == 0)
    then nominal_rate
    else (if nominal_rate == 0 then 0 else old)

-- HOPS is 0; any other text leaves the metric as it is.
unfoldable pub set_metric : Option (List ℕ) → (nominal_rate : ℕ) → Node → Node
unfolding get_nominalrate
set_metric none nominal_rate n = record n { routing_metric = 0 }
set_metric (some name) nominal_rate n =
    if same_text name hops_text
    then record n { routing_metric = 0 }
    else (if same_text name ett_text
        then record n {
          routing_metric = ett_metric_id;
          fixed_rate = fixed_rate_of n.fixed_rate nominal_rate;
        }
        else (if same_text name wcim_text
            then record n {
              routing_metric = wcim_metric_id;
              fixed_rate = fixed_rate_of n.fixed_rate nominal_rate;
            }
            else n))

-- The text before the first '/', and, if there is one, that behind it.
abbrev pub add_char : ℕ → List ℕ × Option (List ℕ) → List ℕ × Option (List ℕ)
add_char c (front, behind) = (c ∷ front, behind)

unfoldable pub split_at_slash : List ℕ → List ℕ × Option (List ℕ)
split_at_slash [] = ([], none)
split_at_slash (c ∷ cs) =
    let rest = split_at_slash cs in if c == 47 then ([], some cs) else add_char c rest

-- The calls of the init functions of the lists.
unfoldable pub init_lists : Node → Node
unfolding init_flow_type_table
init_lists n = record n {
  routes = [];
  freed_route = false;
  links = [];
  timers = [];
  neighs = [];
  neighs_2h = [];
  srcs = [];
  gws = [];
  default_gw = n.null_ip;
  flows = init_flow_type_table;
}

-- The directory and its first eight entries; the test behind the ninth asks for the fifth again.
unfoldable pub all_made : (entries : ℕ) → List Bool → Bool
all_made zero made = true
all_made (suc k) [] = false
all_made (suc k) (ok ∷ made) = let rest = all_made k made in if ok then rest else false

module _ ⦃k : Kernel⦄ where
  unfoldable pub start_timers : M (Unit {0})
  unfolding insert_timer_simple update_timer_queue
  start_timers = do
    n ← get
    when n.is_gateway (insert_timer_simple task_st hello_interval n.mesh_ip)
    insert_timer_simple task_hello hello_interval n.mesh_ip
    insert_timer_simple task_gw_cleanup active_gwroute_timeout n.mesh_ip
    insert_timer_simple task_cleanup (hello_interval + hello_interval / 2) n.mesh_ip
    update_timer_queue

  -- Behind the device, to the hooks, or to `out2` where an entry of /proc is missing.
  unfoldable pub start_up : Machine → M Loading
  unfolding start_timers all_made shut_down
  start_up machine = do
    update λ n. record n { initialized = true }
    start_timers
    if all_made 9 machine.proc_entries
        then pure Loading.loaded
        else shut_down >> pure Loading.refused

-- What is set before the parameters are tested; "0.0.0.0" and "127.127.127.127" are written as
-- inet_aton reads them.
abbrev pub set_constants : Node → Node
set_constants n = record n {
  null_ip = 0;
  dtn_hello_ip = 127 * 2 ^ 24 + 127 * 2 ^ 16 + 127 * 2 ^ 8 + 127;
  longitude = 0;
  latitude = 0;
}

abbrev pub set_gateway : Parameters → Node → Node
set_gateway p n = record n { is_gateway = not (u8 p.aodv_gateway == 0) }

-- strcpy to the 8 bytes of `g_aodv_dev`: a name of 8 characters or more is written behind it.
abbrev pub copy_name : List ℕ → M (Unit {0})
copy_name name = if leb 8 (length name) then fail else pure tt

-- inet_aton on a variable that holds `old`.
abbrev pub or_old : ℕ → Option ℕ → ℕ
or_old old none = old
or_old old (some ip) = ip

module _ ⦃t : Ctype⦄ ⦃k : Kernel⦄ where
  abbrev pub aton : (old : ℕ) → List ℕ → ℕ
  aton old text = or_old old (inet_aton text)

  abbrev pub with_network : List ℕ × Option (List ℕ) → Node → Node
  with_network (ip, none) n = n
  with_network (ip, some mask) n = record n {
    mesh_ip = aton n.mesh_ip ip;
    netmask = aton n.netmask mask;
  }

  unfoldable pub set_network : List ℕ → Node → Node
  unfolding inet_aton split_at_slash
  set_network text n = with_network (split_at_slash text) n

  -- "255.255.255.255" is written as inet_aton reads it.
  unfoldable pub set_parameters : Parameters → (network_ip : List ℕ) → Node → Node
  unfolding inet_aton set_metric set_network
  set_parameters p network_ip n =
      let addressed = record n { broadcast_ip = 2 ^ 32 - 1 } in
      let networked =
        set_network network_ip (set_metric p.routing_metric p.nominal_rate addressed) in
      record networked {
        blacklist = map (aton 0) p.aodv_blacklist;
        dtn_blacklist = map (aton 0) p.dtn_blacklist;
      }

  -- The state before the device is set up.
  unfoldable pub prepared : Parameters → (network_ip : List ℕ) → Node → Node
  unfolding set_parameters init_lists
  prepared p network_ip n = init_lists (set_parameters p network_ip n)

  -- The test for a negative result of init_packet_queue never holds: it is 0 without memory.
  unfoldable pub init_module : Parameters → Machine → (network_ip : List ℕ) → M Loading
  unfolding prepared init_aodv_dev start_up
  init_module p machine network_ip = do
    update λ n. prepared p network_ip n
    failed ← init_aodv_dev machine.device machine.has_socket
    if failed then close_missing_sock else start_up machine

  unfoldable pub init_fbaodv_module : Parameters → Machine → M Loading
  unfolding init_module
  init_fbaodv_module p machine = do
    update set_constants
    if_null p.mesh_dev (pure Loading.refused) (λ name. do
      copy_name name
      update λ n. set_gateway p n
      if_null p.network_ip (pure Loading.refused) (init_module p machine))
