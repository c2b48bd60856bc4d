-- ===== src/PacketQueue/Drain.antt =====
-- The loops over ipq_dequeue take out the matching packets, oldest first, and nothing else.
use aodv_android.Base.{
  ℕ, zero, suc, ◌-◌, ◌≡◌, ◌≤◌, ◌<◌, ◌∙◌, sym, ap, refl, inl, inr, Bool, none, some, List, [], ◌∷◌,
  map, if◌then◌else◌, arith, length, first, unlink, Option-cases,
}
use aodv_android.PacketQueue.{
  Element, PacketQueue, Verdict, ipq_dequeue, drain, with_first, ip_cmp, dev_cmp, enough,
  ipq_send_ip, ipq_drop_ip, ipq_dev_drop,
}

unfoldable pub matching : (Element → Bool) → List Element → List Element
matching cmp [] = []
matching cmp (e ∷ es) = if cmp e then e ∷ matching cmp es else matching cmp es

unfoldable pub others : (Element → Bool) → List Element → List Element
others cmp [] = []
others cmp (e ∷ es) = if cmp e then others cmp es else e ∷ others cmp es

-- The queue without the packets that match.
abbrev pub without : (Element → Bool) → PacketQueue → PacketQueue
without cmp q = record q { list = others cmp q.list; len = q.len - length (matching cmp q.list) }

first-none :
    (cmp : Element → Bool) (es : List Element)
    → first cmp es ≡ none
    → (matching cmp es ≡ []) × (others cmp es ≡ es)
unfolding first matching others
first-none cmp [] h = (refl, refl)
first-none cmp (e ∷ es) h = ground (arith, first-none cmp es)

first-some :
    (cmp : Element → Bool) (es : List Element) (a : Element)
    → first cmp es ≡ some a
    → (matching cmp es ≡ a ∷ matching cmp (unlink cmp es))
      × (others cmp es ≡ others cmp (unlink cmp es))
      × (length es ≡ suc (length (unlink cmp es)))
unfolding first matching others unlink
first-some cmp [] a h = ground arith
first-some cmp (e ∷ es) a h = ground (arith, first-some cmp es a)

pub others-shorter : (cmp : Element → Bool) (es : List Element) → length (others cmp es) ≤ length es
unfolding others
others-shorter cmp [] = omega arith
others-shorter cmp (e ∷ es) = ground (arith, others-shorter cmp es)

abbrev set_len : ℕ → PacketQueue → PacketQueue
set_len k q = record q { len = k }

without-same :
    (cmp : Element → Bool) (q : PacketQueue) → first cmp q.list ≡ none → without cmp q ≡ q
without-same cmp q e =
    let m = first-none cmp q.list e in
    let len_same : q.len - 0 ≡ q.len = omega arith in rw (m.0, m.1) (ap (λ k. set_len k q) len_same)

without-step :
    (cmp : Element → Bool) (q : PacketQueue) (a : Element)
    → first cmp q.list ≡ some a
    → without cmp (record q { list = unlink cmp q.list; len = q.len - 1 }) ≡ without cmp q
without-step cmp q a e =
    let m = first-some cmp q.list a e in
    let k = length (matching cmp (unlink cmp q.list)) in
    let less : q.len - 1 - k ≡ q.len - suc k = omega arith in rw (m.0, m.1, less) refl

pub drain-enough :
    (fuel : ℕ) (cmp : Element → Bool) (q : PacketQueue)
    → length q.list < fuel
    → drain fuel cmp q ≡ some (matching cmp q.list, without cmp q)
unfolding drain ipq_dequeue
drain-enough zero cmp q lt = elim lt [ ]
drain-enough (suc fuel) cmp q lt = elim (Option-cases (first cmp q.list)) [
  | inl e ↦
      let m = first-none cmp q.list e in
      rw e (
        ap (λ ms. some (ms, q)) (sym m.0)
        ∙ ap (λ w. some (matching cmp q.list, w)) (sym (without-same cmp q e)))
  | inr (a, e) ↦
      let m = first-some cmp q.list a e in
      let q' : PacketQueue = record q { list = unlink cmp q.list; len = q.len - 1 } in
      let ih = drain-enough fuel cmp q' (omega (arith, m.2)) in
      rw e (
        ap (with_first a) ih
        ∙ ap (λ w. some (a ∷ matching cmp (unlink cmp q.list), w)) (without-step cmp q a e)
        ∙ ap (λ ms. some (ms, without cmp q)) (sym m.0))
]

-- The loops of ipq_send_ip, ipq_drop_ip and ipq_dev_drop end: each takes out the packets of the flow,
-- or of the device, from the oldest on, gives each its verdict, and leaves the other packets in
-- their order.
pub drains_matching :
    (src_ip dst_ip tos ifindex : ℕ) (q : PacketQueue)
    → (ipq_send_ip src_ip dst_ip tos q
        ≡ some (
          map Verdict.sent (matching (ip_cmp src_ip dst_ip tos) q.list),
          without (ip_cmp src_ip dst_ip tos) q,
        ))
      × (ipq_drop_ip src_ip dst_ip tos q
          ≡ some (
            map Verdict.unreachable (matching (ip_cmp src_ip dst_ip tos) q.list),
            without (ip_cmp src_ip dst_ip tos) q,
          ))
      × (ipq_dev_drop ifindex q
          ≡ some (
            map Verdict.dropped (matching (dev_cmp ifindex) q.list),
            without (dev_cmp ifindex) q,
          ))
unfolding ipq_send_ip ipq_drop_ip ipq_dev_drop
drains_matching src_ip dst_ip tos ifindex q =
    let by_flow = drain-enough (enough q) (ip_cmp src_ip dst_ip tos) q (omega arith) in
    let by_device = drain-enough (enough q) (dev_cmp ifindex) q (omega arith) in
    (rw by_flow refl, rw by_flow refl, rw by_device refl)
