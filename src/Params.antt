-- ===== src/Params.antt =====
-- The constants of aodv.h and the machine words.
use aodv_android.Base.{ℕ, ◌+◌, ◌-◌, ◌*◌, ◌%◌, ◌^◌}

abbrev pub hello_interval : ℕ
hello_interval = 1000

abbrev pub allowed_hello_loss : ℕ
allowed_hello_loss = 3

abbrev pub delete_period : ℕ
delete_period = allowed_hello_loss * hello_interval

abbrev pub brk_link_timeout : ℕ
brk_link_timeout = 60000

abbrev pub net_diameter : ℕ
net_diameter = 10

abbrev pub net_traversal_time : ℕ
net_traversal_time = 2 * 40 * net_diameter

abbrev pub rreq_retries : ℕ
rreq_retries = 2

abbrev pub rrep_timer : ℕ
rrep_timer = 100

abbrev pub st_interval : ℕ
st_interval = 10000

abbrev pub active_gwroute_timeout : ℕ
active_gwroute_timeout = st_interval * 2 + 1000

abbrev pub neighbor_2h_timeout : ℕ
neighbor_2h_timeout = 10000

abbrev pub ett_interval : ℕ
ett_interval = 60000

abbrev pub allowed_ett_loss : ℕ
allowed_ett_loss = 2

abbrev pub ett_fast_interval : ℕ
ett_fast_interval = 20000

abbrev pub ett_probes_max : ℕ
ett_probes_max = 10

abbrev pub ett_probes_min : ℕ
ett_probes_min = 3

abbrev pub ett_range : ℕ
ett_range = 50

abbrev pub probe_packet_size : ℕ
probe_packet_size = 61740

abbrev pub active_route_timeout : ℕ
active_route_timeout = 4800

abbrev pub node_traversal_time : ℕ
node_traversal_time = 40

-- The ports: AODVPORT and the two of DHCP.
abbrev pub aodv_port : ℕ
aodv_port = 5002

abbrev pub default_ett_metric : ℕ
default_ett_metric = 1000000

abbrev pub probe_packet : ℕ
probe_packet = 11776

abbrev pub undefined_load : ℕ
undefined_load = 200

abbrev pub max_route_tables : ℕ
max_route_tables = 252

abbrev pub default_route_table : ℕ
default_route_table = 254

abbrev pub no_tos : ℕ
no_tos = 0

abbrev pub dttl_max : ℕ
dttl_max = 15

-- The ports of the messages to the DTN layer.
abbrev pub dtn_port : ℕ
dtn_port = 10000

abbrev pub re_dtn_hello : ℕ
re_dtn_hello = 10002

abbrev pub dtn_location_port : ℕ
dtn_location_port = 10003

-- The routing metrics.
abbrev pub hops_metric : ℕ
hops_metric = 0

abbrev pub ett_metric_id : ℕ
ett_metric_id = 1

abbrev pub wcim_metric_id : ℕ
wcim_metric_id = 2

-- `u_int8_t`, `u_int16_t`, `u_int32_t` and `u_int64_t` arithmetic wraps around.
abbrev pub u8 : ℕ → ℕ
u8 n = n % 2 ^ 8

abbrev pub u16 : ℕ → ℕ
u16 n = n % 2 ^ 16

abbrev pub u32 : ℕ → ℕ
u32 n = n % 2 ^ 32

abbrev pub u64 : ℕ → ℕ
u64 n = n % 2 ^ 64

-- `a - b` in 32 bits.
abbrev pub sub32 : ℕ → ℕ → ℕ
sub32 a b = (a + (2 ^ 32 - b % 2 ^ 32)) % 2 ^ 32
