-- ===== src/Handlers.antt =====
-- The handlers of received packets and the generators of packets: what they share.
pub mod Rreq
pub mod Guards
pub mod Rcvp
pub mod Rrep
pub mod Rerr
pub mod StRreq
pub mod Neighbours
pub mod Hello
pub mod Probe
use aodv_android.Base.{ℕ, ◌+◌, ◌*◌, leb, Bool, ◌&&◌, ◌||◌, ◌==◌}
use aodv_android.Kernel.{Kernel}
use aodv_android.Params.{u8, u32, u64, no_tos, dtn_port, hello_interval, allowed_hello_loss}
use aodv_android.Task.{task_neighbor}
use aodv_android.Message.{Message}
use aodv_android.Neighs.{update_neigh}
use aodv_android.Routing.{read_route, write_route}
use aodv_android.Node.{Node, M, pure, ◌>>=◌, ◌>>◌, get, update, when, emit, broadcast, to_dtn}
use aodv_android.Node.Timers.{insert_timer_simple, delete_timer, update_timer_queue}

-- What a handler returns: 0, 1, -1, -ETIMEDOUT, -EHOSTUNREACH or -ENODATA.
pub data Status : Type 0 where
  ret0 ret1 failed timed_out unreachable no_data : Status

-- `ttl - 1` of C as a `u_int8_t`.
abbrev pub one_less : ℕ → ℕ
one_less ttl = u8 (ttl + 255)

-- local_broadcast up to the socket: without a TTL nothing is sent.
unfoldable pub local_broadcast : (ttl : ℕ) → Message → M (Unit {0})
local_broadcast ttl m = when (leb 1 ttl) (emit (broadcast ttl m))

-- send2dtn on DTNPORT with a packet's addresses and type, where a DTN layer is registered.
unfoldable pub tell_dtn : (word0 word1 word2 type : ℕ) → M (Unit {0})
tell_dtn word0 word1 word2 type = do
  n ← get
  when (n.dtn_register == 1) (emit (to_dtn word0 word1 word2 type dtn_port))

-- Whether this node is the source of the flow; the destination is not read.
unfoldable pub reply_to_rrer : Node → (source : ℕ) → Bool
reply_to_rrer n source = source == n.mesh_ip || (source == n.null_ip && n.is_gateway)

-- Our own next sequence number, in the route at `g_local_route`.
unfoldable pub next_dst_id : M ℕ
next_dst_id = do
  n ← get
  write_route n.local_route (λ r. record r { dst_id = u32 (r.dst_id + 1) })
  r ← read_route n.local_route
  pure r.dst_id

module _ ⦃k : Kernel⦄ where
  -- "Update neighbor timelife".
  unfoldable pub refresh_neigh : (ip : ℕ) → M (Unit {0})
  unfolding insert_timer_simple delete_timer update_timer_queue
  refresh_neigh ip = do
    delete_timer ip ip no_tos task_neighbor
    insert_timer_simple task_neighbor (hello_interval * (1 + allowed_hello_loss) + 100) ip
    update_timer_queue
    update λ n. record n {
      neighs =
          update_neigh ip
            (λ m. record m {
              lifetime = u64 (hello_interval * (1 + allowed_hello_loss) + 20 + n.now);
            })
            n.neighs;
    }
