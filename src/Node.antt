-- ===== src/Node.antt =====
-- The state of a node: the module's global variables, and what it exchanges with the kernel. A
-- handler is a function of the state; `none` is a fault, such as a read through NULL.
pub mod Timers
pub mod Preserves
use aodv_android.Base.{
  ℕ, Bool, true, false, ◌||◌, Option, none, some, List, [], ◌∷◌, if◌then◌else◌, ◌==◌,
}
use aodv_android.Message.{Message}
use aodv_android.Task.{Task}
use aodv_android.RouteTable.{Route}
use aodv_android.SrcList.{SrcEntry}
use aodv_android.BrkList.{BrkLink}
use aodv_android.GwList.{Gw}
use aodv_android.Neighs.{Neigh, Neigh2h}
use aodv_android.Flows.{Flow}

-- What a node sends to the network, to the kernel's routing and to the DTN layer.
pub data Effect : Type 0 where
  -- local_broadcast and send_message, with the TTL.
  broadcast : (ttl : ℕ) → Message → Effect
  send : (ip ttl : ℕ) → Message → Effect
  -- rpdb_route and rpdb_rule: a new entry, or a deletion.
  route_request : (is_new : Bool) (table tos src_ip dst_ip next_hop dev hops : ℕ) → Effect
  rule_request : (is_new : Bool) (table ip : ℕ) → Effect
  -- ipq_send_ip and ipq_drop_ip: the queued packets of a flow.
  release_packets : (src_ip dst_ip tos : ℕ) → Effect
  drop_packets : (src_ip dst_ip tos : ℕ) → Effect
  -- send2dtn: the four words and the port.
  to_dtn : (word0 word1 word2 word3 port : ℕ) → Effect
  -- mod_timer, in seconds and microseconds.
  arm : (sec usec : ℕ) → Effect

-- A block that kmalloc gives: its address, and what the memory holds where the code does not write.
pub record Cell : Type 0 where
  pub addr : ℕ
  pub junk : ℕ

pub record Node : Type 0 where
  -- Set once, when the module is loaded.
  pub mesh_ip : ℕ
  pub null_ip : ℕ
  pub netmask : ℕ
  pub blacklist : List ℕ
  pub dtn_blacklist : List ℕ
  pub initialized : Bool
  pub broadcast_ip : ℕ
  pub dev_index : ℕ
  pub routing_metric : ℕ
  pub is_gateway : Bool
  pub dtn_hello_ip : ℕ
  pub fixed_rate : ℕ
  -- The address of `g_local_route`.
  pub local_route : ℕ
  -- Set by the DTN layer.
  pub dtn_register : ℕ
  pub longitude : ℕ
  pub latitude : ℕ
  -- The tables.
  pub routes : List Route
  -- Whether an entry was freed that still stands in `routes`.
  pub freed_route : Bool
  pub srcs : List SrcEntry
  pub links : List BrkLink
  pub gws : List Gw
  pub default_gw : ℕ
  pub neighs : List Neigh
  pub neighs_2h : List Neigh2h
  pub flows : List Flow
  pub timers : List Task
  -- `g_mesh_dev->load` and `load_seq`.
  pub load : ℕ
  pub load_seq : ℕ
  -- The counters `count` of hello.c and `count_send` of probe_ett.c.
  pub hello_count : ℕ
  pub count_send : ℕ
  -- getcurrtime() while the handler runs, what the coming calls of kmalloc give, and whether the
  -- coming requests to rtnetlink succeed. Past its end a list of answers stands for failures.
  pub now : ℕ
  pub memory : List (Option Cell)
  pub netlink : List Bool
  -- What the coming calls of get_random_bytes give, as 32-bit patterns.
  pub random : List ℕ
  -- What was sent, latest first.
  pub log : List Effect

abbrev pub M : Type 0 → Type 0
M A = Node → Option (A × Node)

abbrev pub pure : {A : Type 0} → A → M A
pure a n = some (a, n)

abbrev pub fail : {A : Type 0} → M A
fail n = none

abbrev pub and_then : {A B : Type 0} → Option (A × Node) → (A → M B) → Option (B × Node)
and_then none f = none
and_then (some (a, n)) f = f a n

infixl 5 ◌>>=◌ ◌>>◌
abbrev pub ◌>>=◌ : {A B : Type 0} → M A → (A → M B) → M B
◌>>=◌ m f n = and_then (m n) f

abbrev pub ◌>>◌ : {A B : Type 0} → M A → M B → M B
m >> k = m >>= λ _. k

abbrev pub get : M Node
get n = some (n, n)

abbrev pub update : (Node → Node) → M (Unit {0})
update f n = some (tt, f n)

abbrev pub emit : Effect → M (Unit {0})
emit e = update λ n. record n { log = e ∷ n.log }

abbrev pub when : Bool → M (Unit {0}) → M (Unit {0})
when true m = m
when false m = pure tt

-- The pointer must not be NULL.
abbrev pub deref : {A : Type 0} → Option A → M A
deref none = fail
deref (some a) = pure a

-- Where a pointer may be NULL: what is done then, and with what it points to.
abbrev pub if_null : {A B : Type 0} → Option A → M B → (A → M B) → M B
if_null none m f = m
if_null (some a) m f = f a

abbrev pub allocate : List (Option Cell) → M (Option Cell)
allocate [] n = some (none, n)
allocate (c ∷ cs) n = some (c, record n { memory = cs })

unfoldable pub kmalloc : M (Option Cell)
kmalloc n = allocate n.memory n

abbrev pub next_answer : List Bool → M Bool
next_answer [] n = some (false, n)
next_answer (ok ∷ rest) n = some (ok, record n { netlink = rest })

abbrev pub next_random : List ℕ → M ℕ
next_random [] n = some (0, n)
next_random (r ∷ rest) n = some (r, record n { random = rest })

unfoldable pub get_random : M ℕ
get_random n = next_random n.random n

unfoldable pub rtnetlink : Effect → M Bool
rtnetlink request = do emit request; n ← get; next_answer n.netlink

-- rpdb_route up to the request: the flows of the DTN hello are not installed. The answer is whether
-- the result is not negative.
unfoldable pub rpdb_route : (is_new : Bool) (table tos src_ip dst_ip next_hop dev hops : ℕ) → M Bool
unfolding rtnetlink
rpdb_route is_new table tos src_ip dst_ip next_hop dev hops = do
  n ← get
  if dst_ip == n.dtn_hello_ip || src_ip == n.dtn_hello_ip
      then pure true
      else rtnetlink (route_request is_new table tos src_ip dst_ip next_hop dev hops)

unfoldable pub rpdb_rule : (is_new : Bool) (table ip : ℕ) → M Bool
unfolding rtnetlink
rpdb_rule is_new table ip = rtnetlink (rule_request is_new table ip)
