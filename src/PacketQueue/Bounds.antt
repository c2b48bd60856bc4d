-- ===== src/PacketQueue/Bounds.antt =====
-- The counter of the packet queue is the number of its packets, and stays within the bound.
use aodv_android.Base.{
  ℕ, ◌+◌, ◌-◌, ◌≡◌, ◌∙◌, ap, ◌≤◌, ◌<◌, refl, inl, inr, Bool, true, false, ◌||◌, Option, none, some,
  List, [], ◌∷◌, map, leb, arith, Bool-cases, length, length-append,
}
use aodv_android.PacketQueue.{
  Entry, RtInfo, Element, PacketQueue, Verdict, ip_cmp, dev_cmp, any_packet, element, ipq_send_ip,
  ipq_drop_ip, ipq_dev_drop, ipq_flush, ipq_enqueue, set_flushing, enough, flushed, with_verdict,
}
use aodv_android.PacketQueue.Drain.{matching, others, without, drains_matching, drain-enough}
use aodv_android.PacketQueue.View.{rest_of}

abbrev pub IsQueue : PacketQueue → Type 0
IsQueue q = (q.len ≡ length q.list) × (q.len ≤ q.maxlen)

partition-length :
    (cmp : Element → Bool) (es : List Element)
    → length (matching cmp es) + length (others cmp es) ≡ length es
unfolding matching others
partition-length cmp [] = omega arith
partition-length cmp (e ∷ es) = ground (arith, partition-length cmp es)

without-IsQueue : (cmp : Element → Bool) (q : PacketQueue) → IsQueue q → IsQueue (without cmp q)
without-IsQueue cmp q (counted, bounded) = (omega (arith, partition-length cmp q.list), omega arith)

enqueue-IsQueue :
    (is_ours : Bool) (memory : Option RtInfo) (entry : Entry) (q : PacketQueue)
    → IsQueue q
    → IsQueue ((ipq_enqueue is_ours memory entry q).1)
unfolding ipq_enqueue
enqueue-IsQueue false memory entry q w = w
enqueue-IsQueue true none entry q w = w
enqueue-IsQueue true (some junk) entry q w =
    elim (Bool-cases (leb q.maxlen q.len || q.flushing || q.terminate)) [
      | inl refused ↦ rw refused w
      | inr taken ↦
          let room : q.len < q.maxlen = ground arith in
          rw taken (omega (arith, w, length-append q.list (element junk entry ∷ [])), omega arith)
    ]

any_all : (es : List Element) → (matching any_packet es ≡ es) × (others any_packet es ≡ [])
unfolding matching others
any_all [] = (refl, refl)
any_all (e ∷ es) = let ih = any_all es in ((rw ih.0 refl), ih.1)

abbrev emptied :
    PacketQueue → (dropped kept : List Element) (len : ℕ) → Option (List Verdict × PacketQueue)
emptied q dropped kept len =
    some (map Verdict.dropped dropped, record q { list = kept; len = len; flushing = false })

flush_empties : (q : PacketQueue) → q.len ≡ length q.list → ipq_flush q ≡ emptied q q.list [] 0
unfolding ipq_flush
flush_empties q counted =
    let all = any_all q.list in
    let drained = drain-enough (enough q) any_packet (set_flushing true q) (omega arith) in
    let none_left : q.len - length q.list ≡ 0 = omega (arith, counted) in
    ap (λ o. flushed (with_verdict Verdict.dropped o)) drained
    ∙ ap (λ ms. emptied q ms (others any_packet q.list) (q.len - length ms)) all.0
    ∙ ap (λ os. emptied q q.list os (q.len - length q.list)) all.1
    ∙ ap (emptied q q.list []) none_left

-- ipq_enqueue, ipq_send_ip, ipq_drop_ip and ipq_dev_drop keep the counter equal to the number of the
-- packets and within the bound; ipq_flush drops every packet, oldest first, and leaves the queue
-- empty.
pub keeps-IsQueue :
    (is_ours : Bool) (memory : Option RtInfo) (entry : Entry) (s d t ifindex : ℕ) (q : PacketQueue)
    → IsQueue q
    → IsQueue ((ipq_enqueue is_ours memory entry q).1)
      × IsQueue (rest_of q (ipq_send_ip s d t q))
      × IsQueue (rest_of q (ipq_drop_ip s d t q))
      × IsQueue (rest_of q (ipq_dev_drop ifindex q))
      × (ipq_flush q
          ≡ some (map Verdict.dropped q.list, record q { list = []; len = 0; flushing = false }))
keeps-IsQueue is_ours memory entry s d t ifindex q w =
    let all = drains_matching s d t ifindex q in
    (
      enqueue-IsQueue is_ours memory entry q w,
      rw (all.0) (without-IsQueue (ip_cmp s d t) q w),
      rw (all.1) (without-IsQueue (ip_cmp s d t) q w),
      rw (all.2) (without-IsQueue (dev_cmp ifindex) q w),
      flush_empties q w.0,
    )
