-- ===== src/Hooks/Output.antt =====
-- output_handler of packet_out.c on the state of a node.
use aodv_android.Base.{
  ℕ, ◌+◌, ◌/◌, ◌^◌, Bool, true, false, not, ◌&&◌, ◌||◌, Option, none, some, if◌then◌else◌, ◌==◌,
}
use aodv_android.Kernel.{Kernel}
use aodv_android.Params.{u64, aodv_port, active_route_timeout, wcim_metric_id}
use aodv_android.Task.{Task, task_gen_rreq, task_update_load, create_task}
use aodv_android.RouteTable.{Route, RouteState, is_invalid, find_aodv_route}
use aodv_android.Addresses.{is_internal}
use aodv_android.Routing.{write_route}
use aodv_android.Hooks.{Verdict, Answer, Packet, answer, answer_with}
use aodv_android.Node.{Node, M, pure, ◌>>=◌, ◌>>◌, get, when, if_null, deref, kmalloc}
use aodv_android.Node.Timers.{insert_timer_simple}

abbrev pub is_replied : RouteState → Bool
is_replied RouteState.invalid = false
is_replied RouteState.replied = true
is_replied RouteState.active = false

-- An address outside the mesh counts as `g_null_ip`.
abbrev pub mesh_address : Node → (ip : ℕ) → ℕ
mesh_address n ip = if is_internal n.mesh_ip n.netmask ip then ip else n.null_ip

-- The task of a route request; create_task is read through without a test for NULL.
abbrev pub rreq_task : (now src_ip dst_ip tos : ℕ) → Task
rreq_task now src_ip dst_ip tos = record (create_task now task_gen_rreq) {
  src_ip = src_ip;
  dst_ip = dst_ip;
  tos = tos;
}

-- A route that can be used, or none.
abbrev pub usable : Option Route → Option Route
usable none = none
usable (some r) = if is_invalid r.state then none else some r

module _ ⦃k : Kernel⦄ where
  -- "Case 1": broadcasts, and the ports of AODV and DHCP; on a little-endian machine the last octet of
  -- an address is its highest byte.
  unfoldable pub is_signalling : Node → Packet → Bool
  is_signalling n p =
      p.daddr == n.broadcast_ip
      || p.daddr / 2 ^ 24 == 255
      || p.dest == k.htons aodv_port
      || p.dest == k.htons 67
      || p.dest == k.htons 68

  -- The branch of a flow without a route.
  unfoldable pub without_route : (source destination tos : ℕ) → M Answer
  unfolding create_task
  without_route source destination tos = do
    n ← get
    if source == n.mesh_ip || source == n.null_ip && n.is_gateway
        then (do
          c ← kmalloc
          deref c
          pure (answer_with Verdict.queue (rreq_task n.now source destination tos)))
        else pure (
            answer
              (if destination == n.null_ip && n.is_gateway then Verdict.accept else Verdict.drop))

  -- The branch of a route.
  unfoldable pub over_route : Route → M Answer
  unfolding insert_timer_simple
  over_route r = do
    n ← get
    when (is_replied r.state) (do
      write_route r.addr (λ r. record r { state = RouteState.active })
      when (n.routing_metric == wcim_metric_id) (insert_timer_simple task_update_load 1 n.mesh_ip))
    write_route r.addr (λ r. record r { lifetime = u64 (n.now + active_route_timeout) })
    pure (answer Verdict.accept)

  unfoldable pub output_handler : Packet → M Answer
  unfolding is_signalling without_route over_route
  output_handler p = do
    n ← get
    let source = mesh_address n p.saddr
    let destination = mesh_address n p.daddr
    if not n.initialized || is_signalling n p || destination == source
        then pure (answer Verdict.accept)
        else if_null (usable (find_aodv_route source destination p.tos n.routes))
            (without_route source destination p.tos) over_route
