-- ===== src/Tests/Packets.antt =====
-- The theorems about packets, the packet queue and addresses at concrete values.
use aodv_android.Base.{
  ℕ, ◌+◌, ◌*◌, ◌^◌, ◌≡◌, refl, true, false, none, some, [], ◌∷◌, map, arith, if◌then◌else◌,
}
use aodv_android.PacketQueue.{
  Entry, RtInfo, PacketQueue, Verdict, element, ip_cmp, dev_cmp, ipq_enqueue, ipq_send_ip,
  ipq_drop_ip, ipq_dev_drop, ipq_flush,
}
use aodv_android.PacketQueue.Drain.{matching, without, drains_matching}
use aodv_android.PacketQueue.View.{view, joined, takes_packets, rest_of, same_flow, view_refines}
use aodv_android.PacketQueue.Bounds.{IsQueue, keeps-IsQueue}
use aodv_android.Addresses.{is_internal}
use aodv_android.Hooks.{Packet, Sizes}
use aodv_android.Hooks.Answers.{Answered}
use aodv_android.Hooks.Output.{output_handler, is_signalling}
use aodv_android.Hooks.Input.{input_handler}
use aodv_android.Hooks.Decisions.{Decided, output_handler-Decided}
use aodv_android.Hooks.Arrivals.{Sound, input_handler-Sound}
use aodv_android.Message.{Message}
use aodv_android.Node.{Node}
use aodv_android.Tests.Platform.{platform}
use aodv_android.Tests.Routes.{node}

abbrev entry : (id daddr : ℕ) → Entry
entry id daddr = record {
  id = id;
  post_routing = true;
  saddr = 1;
  daddr = daddr;
  tos = 0;
  indev = none;
  outdev = some 2;
}

abbrev junk : RtInfo
junk = record { tos = 77; daddr = 77; saddr = 77 }

abbrev waiting : PacketQueue
waiting = record {
  len = 3;
  maxlen = 1024;
  flushing = false;
  terminate = false;
  list = element junk (entry 0 8) ∷ element junk (entry 1 9) ∷ element junk (entry 2 8) ∷ [];
}

drains_matching_example :
    (ipq_send_ip 1 8 0 waiting
      ≡ some
          (map Verdict.sent (matching (ip_cmp 1 8 0) waiting.list), without (ip_cmp 1 8 0) waiting))
    × (ipq_drop_ip 1 8 0 waiting
        ≡ some (
          map Verdict.unreachable (matching (ip_cmp 1 8 0) waiting.list),
          without (ip_cmp 1 8 0) waiting,
        ))
    × (ipq_dev_drop 2 waiting
        ≡ some
            (map Verdict.dropped (matching (dev_cmp 2) waiting.list), without (dev_cmp 2) waiting))
drains_matching_example = drains_matching 1 8 0 2 waiting

view_refines_example :
    (view ((ipq_enqueue true (some junk) (entry 3 8) waiting).1) 1 8 0
      ≡ joined
          (takes_packets waiting)
          (ip_cmp 1 8 0)
          (view waiting 1 8 0)
          (element junk (entry 3 8)))
    × (ipq_send_ip 1 8 0 waiting
        ≡ some (map Verdict.sent (view waiting 1 8 0), rest_of waiting (ipq_send_ip 1 8 0 waiting)))
    × (view (rest_of waiting (ipq_send_ip 1 8 0 waiting)) 1 9 0
        ≡ (if same_flow 1 8 0 1 9 0 then [] else view waiting 1 9 0))
view_refines_example = view_refines junk (entry 3 8) waiting 1 8 0 1 9 0

keeps-IsQueue_example :
    IsQueue ((ipq_enqueue true (some junk) (entry 3 8) waiting).1)
    × IsQueue (rest_of waiting (ipq_send_ip 1 8 0 waiting))
    × IsQueue (rest_of waiting (ipq_drop_ip 1 8 0 waiting))
    × IsQueue (rest_of waiting (ipq_dev_drop 2 waiting))
    × (ipq_flush waiting
        ≡ some (
          map Verdict.dropped waiting.list,
          record waiting { list = []; len = 0; flushing = false },
        ))
keeps-IsQueue_example =
    keeps-IsQueue true (some junk) (entry 3 8) 1 8 0 2 waiting (omega arith, omega arith)

abbrev mesh : Node
mesh = record node {
  netmask = 255;
  memory = some (record { addr = 900; junk = 3 }) ∷ some (record { addr = 901; junk = 3 }) ∷ [];
}

abbrev data_packet : Packet
data_packet = record {
  is_ip = true;
  is_udp = true;
  saddr = 1;
  daddr = 77 * 2 ^ 8 + 1;
  tos = 0;
  ttl = 9;
  dest = 5;
  size = 40;
  message = none;
  words = (0, 0, 0, 0);
}

output_handler-Decided_example :
    Answered (Decided mesh data_packet) (output_handler data_packet mesh)
unfolding is_signalling is_internal
output_handler-Decided_example = output_handler-Decided data_packet mesh refl refl refl

abbrev sizes : Sizes
sizes = record {
  rreq_st = 20;
  rrep = 44;
  rerr = 20;
  hello = 12;
  hello_extension = 8;
  rcvp = 20;
  rrdp = 16;
  s_probe = 116;
  l_probe = 1468;
  rreq = 28;
  ett_info = 8;
}

abbrev probe : Packet
probe = record data_packet {
  saddr = 3;
  dest = 138 * 2 ^ 8 + 19;
  size = 116;
  message =
      some (Message.s_probe (record { n_probe = 4; dst_ip = 1; src_ip = 3; sec = 0; usec = 0 }));
}

input_handler-Sound_example :
    Answered (Sound platform sizes 1 1000 250 probe) (input_handler sizes 1 1000 250 probe mesh)
input_handler-Sound_example = input_handler-Sound sizes 1 1000 250 probe mesh
