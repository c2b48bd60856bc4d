-- ===== src/PacketQueue.antt =====
-- packet_queue.c: the packets that wait for a route. The list runs from the oldest packet, as
-- ipq_dequeue walks it.
pub mod Drain
pub mod Bounds
pub mod View
use aodv_android.Base.{
  ℕ, zero, suc, ◌+◌, ◌-◌, Bool, true, false, ◌&&◌, ◌||◌, not, Option, none, some, List, [], ◌∷◌,
  ◌++◌, map, if◌then◌else◌, ◌==◌, leb, first, unlink, length,
}

-- What the queue reads of netfilter's entry and of the packet's IP header.
pub record Entry : Type 0 where
  pub id : ℕ
  pub post_routing : Bool
  pub saddr : ℕ
  pub daddr : ℕ
  pub tos : ℕ
  pub indev : Option ℕ
  pub outdev : Option ℕ

pub record RtInfo : Type 0 where
  pub tos : ℕ
  pub daddr : ℕ
  pub saddr : ℕ

pub record Element : Type 0 where
  pub entry : Entry
  pub rt_info : RtInfo

pub record PacketQueue : Type 0 where
  pub len : ℕ
  pub maxlen : ℕ
  pub flushing : Bool
  pub terminate : Bool
  pub list : List Element

-- What happens to a packet that leaves: route_me_harder and acceptance, a drop, or an ICMP message
-- that the host is unreachable and a drop.
pub data Verdict : Type 0 where
  sent dropped unreachable : Element → Verdict

abbrev pub ipq_qmax_default : ℕ
ipq_qmax_default = 1024

-- NULL without memory, or where netfilter does not take the handler.
unfoldable pub ipq_create_queue : (allocated registered : Bool) (qmax : ℕ) → Option PacketQueue
ipq_create_queue allocated registered qmax =
    if allocated && registered
    then some (record { len = 0; maxlen = qmax; flushing = false; terminate = false; list = [] })
    else none

unfoldable pub init_packet_queue : (allocated registered : Bool) → Option PacketQueue
unfolding ipq_create_queue
init_packet_queue allocated registered = ipq_create_queue allocated registered ipq_qmax_default

abbrev pub taken : (Element → Bool) → PacketQueue → Option Element → Option (Element × PacketQueue)
taken cmp q none = none
taken cmp q (some e) = some (e, record q { list = unlink cmp q.list; len = q.len - 1 })

unfoldable pub ipq_dequeue : (cmp : Element → Bool) → PacketQueue → Option (Element × PacketQueue)
ipq_dequeue cmp q = taken cmp q (first cmp q.list)

-- `cmp` is NULL.
abbrev pub any_packet : Element → Bool
any_packet e = true

abbrev pub is_device : (ifindex : ℕ) → Option ℕ → Bool
is_device ifindex none = false
is_device ifindex (some i) = i == ifindex

unfoldable pub dev_cmp : (ifindex : ℕ) → Element → Bool
dev_cmp ifindex e = is_device ifindex e.entry.indev || is_device ifindex e.entry.outdev

unfoldable pub ip_cmp : (src_ip dst_ip tos : ℕ) → Element → Bool
ip_cmp src_ip dst_ip tos e =
    e.rt_info.saddr == src_ip && e.rt_info.daddr == dst_ip && e.rt_info.tos == tos

abbrev pub if_taken :
    {B : Type 0} → Option (Element × PacketQueue) → B → (Element → PacketQueue → B) → B
if_taken none b f = b
if_taken (some (e, q)) b f = f e q

abbrev pub with_first :
    Element → Option (List Element × PacketQueue) → Option (List Element × PacketQueue)
with_first e none = none
with_first e (some (es, q)) = some (e ∷ es, q)

-- The loop over ipq_dequeue that the operations share, on fuel; `none` is fuel that ran out.
unfoldable pub drain :
    (fuel : ℕ) (cmp : Element → Bool) → PacketQueue → Option (List Element × PacketQueue)
unfolding ipq_dequeue
drain zero cmp q = none
drain (suc fuel) cmp q =
    if_taken (ipq_dequeue cmp q) (some ([], q)) (λ e q'. with_first e (drain fuel cmp q'))

-- One more than the packets of the queue.
abbrev pub enough : PacketQueue → ℕ
enough q = suc (length q.list)

abbrev pub with_verdict :
    (Element → Verdict) → Option (List Element × PacketQueue) → Option (List Verdict × PacketQueue)
with_verdict v none = none
with_verdict v (some (es, q)) = some (map v es, q)

unfoldable pub ipq_send_ip :
    (src_ip dst_ip tos : ℕ) → PacketQueue → Option (List Verdict × PacketQueue)
unfolding drain ip_cmp
ipq_send_ip src_ip dst_ip tos q =
    with_verdict Verdict.sent (drain (enough q) (ip_cmp src_ip dst_ip tos) q)

unfoldable pub ipq_drop_ip :
    (src_ip dst_ip tos : ℕ) → PacketQueue → Option (List Verdict × PacketQueue)
unfolding drain ip_cmp
ipq_drop_ip src_ip dst_ip tos q =
    with_verdict Verdict.unreachable (drain (enough q) (ip_cmp src_ip dst_ip tos) q)

unfoldable pub ipq_dev_drop : (ifindex : ℕ) → PacketQueue → Option (List Verdict × PacketQueue)
unfolding drain dev_cmp
ipq_dev_drop ifindex q = with_verdict Verdict.dropped (drain (enough q) (dev_cmp ifindex) q)

abbrev pub set_flushing : Bool → PacketQueue → PacketQueue
set_flushing b q = record q { flushing = b }

abbrev pub flushed : Option (List Verdict × PacketQueue) → Option (List Verdict × PacketQueue)
flushed none = none
flushed (some (vs, q)) = some (vs, set_flushing false q)

unfoldable pub ipq_flush : PacketQueue → Option (List Verdict × PacketQueue)
unfolding drain
ipq_flush q =
    flushed (with_verdict Verdict.dropped (drain (enough q) any_packet (set_flushing true q)))

-- The queue that is freed at the end.
unfoldable pub ipq_destroy_queue : PacketQueue → Option (List Verdict × PacketQueue)
unfolding ipq_flush
ipq_destroy_queue q = ipq_flush (record q { terminate = true })

unfoldable pub receive_event :
    (is_down : Bool) (ifindex : ℕ) → PacketQueue → Option (List Verdict × PacketQueue)
unfolding ipq_dev_drop
receive_event is_down ifindex q = if is_down then ipq_dev_drop ifindex q else some ([], q)

-- What ipq_enqueue returns: 0 for a queue that is not ours, -ENOMEM, -EBUSY, or the length.
pub data Enqueued : Type 0 where
  other_queue no_memory busy : Enqueued
  queued : (len : ℕ) → Enqueued

-- Outside the hook for outgoing packets the flow is what the memory holds.
abbrev pub element : (junk : RtInfo) → Entry → Element
element junk entry = record {
  entry = entry;
  rt_info =
      if entry.post_routing
      then record { tos = entry.tos; daddr = entry.daddr; saddr = entry.saddr }
      else junk;
}

unfoldable pub ipq_enqueue :
    (is_ours : Bool) (memory : Option RtInfo) → Entry → PacketQueue → Enqueued × PacketQueue
ipq_enqueue false memory entry q = (Enqueued.other_queue, q)
ipq_enqueue true none entry q = (Enqueued.no_memory, q)
ipq_enqueue true (some junk) entry q =
    if leb q.maxlen q.len || q.flushing || q.terminate then (Enqueued.busy, q) else (
      Enqueued.queued (q.len + 1),
      record q { list = q.list ++ element junk entry ∷ []; len = q.len + 1 },
    )
