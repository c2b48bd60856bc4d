-- ===== src/PacketQueue/View.antt =====
-- The packet queue as what it promises: a first-in first-out queue for each flow.
use aodv_android.Base.{
  ℕ, ◌≡◌, refl, inl, inr, Bool, true, false, not, ◌&&◌, ◌||◌, Option, none, some, List, [], ◌∷◌,
  ◌++◌, map, if◌then◌else◌, ◌==◌, leb, arith, Bool-cases,
}
use aodv_android.PacketQueue.{
  Entry, RtInfo, Element, PacketQueue, Verdict, ip_cmp, element, ipq_send_ip, ipq_enqueue,
}
use aodv_android.PacketQueue.Drain.{matching, others, without, drains_matching}

-- The packets of a flow, oldest first.
abbrev pub view : PacketQueue → (src_ip dst_ip tos : ℕ) → List Element
view q src_ip dst_ip tos = matching (ip_cmp src_ip dst_ip tos) q.list

matching-append :
    (p : Element → Bool) (es : List Element) (e : Element)
    → matching p (es ++ e ∷ []) ≡ (if p e then matching p es ++ e ∷ [] else matching p es)
unfolding matching
matching-append p [] e = ground arith
matching-append p (x ∷ es) e = ground (arith, matching-append p es e)

matching-others_self : (p : Element → Bool) (es : List Element) → matching p (others p es) ≡ []
unfolding matching others
matching-others_self p [] = refl
matching-others_self p (e ∷ es) = ground (arith, matching-others_self p es)

matching-others :
    (p q : Element → Bool) (es : List Element)
    → ((e : Element) → (p e && q e) ≡ false)
    → matching p (others q es) ≡ matching p es
unfolding matching others
matching-others p q [] h = refl
matching-others p q (e ∷ es) h = ground (arith, h e, matching-others p q es h)

abbrev pub same_flow : (s d t s' d' t' : ℕ) → Bool
same_flow s d t s' d' t' = s == s' && d == d' && t == t'

apart :
    (s d t s' d' t' : ℕ) (e : Element)
    → same_flow s d t s' d' t' ≡ false
    → (ip_cmp s' d' t' e && ip_cmp s d t e) ≡ false
unfolding ip_cmp
apart s d t s' d' t' e h = ground arith

together : (s d t s' d' t' : ℕ) → same_flow s d t s' d' t' ≡ true → (s ≡ s') × (d ≡ d') × (t ≡ t')
together s d t s' d' t' h = ground arith

view-without :
    (q : PacketQueue) (s d t s' d' t' : ℕ)
    → view (without (ip_cmp s d t) q) s' d' t'
      ≡ (if same_flow s d t s' d' t' then [] else view q s' d' t')
view-without q s d t s' d' t' = elim (Bool-cases (same_flow s d t s' d' t')) [
  | inl same ↦
      let e = together s d t s' d' t' same in
      rw (same, e.0, e.1, e.2) (matching-others_self (ip_cmp s' d' t') q.list)
  | inr other ↦
      rw other (
        matching-others (ip_cmp s' d' t') (ip_cmp s d t) q.list (λ e. apart s d t s' d' t' e other))
]

-- What a flow's queue becomes when a packet arrives: the packet at its end, where it is of the flow
-- and the queue takes it.
abbrev pub joined : (takes : Bool) → (Element → Bool) → List Element → Element → List Element
joined takes of_flow es e = if takes && of_flow e then es ++ e ∷ [] else es

abbrev pub takes_packets : PacketQueue → Bool
takes_packets q = not (leb q.maxlen q.len || q.flushing || q.terminate)

view-enqueue :
    (junk : RtInfo) (entry : Entry) (q : PacketQueue) (s d t : ℕ)
    → view ((ipq_enqueue true (some junk) entry q).1) s d t
      ≡ joined (takes_packets q) (ip_cmp s d t) (view q s d t) (element junk entry)
unfolding ipq_enqueue
view-enqueue junk entry q s d t =
    elim (Bool-cases (leb q.maxlen q.len || q.flushing || q.terminate)) [
      | inl refused ↦ rw refused refl
      | inr taken ↦ rw taken (matching-append (ip_cmp s d t) q.list (element junk entry))
    ]

abbrev pub rest_of : {A : Type 0} → PacketQueue → Option (A × PacketQueue) → PacketQueue
rest_of q none = q
rest_of q (some (a, q')) = q'

-- With memory, ipq_enqueue puts a packet at the end of the queue of its own flow, unless the queue is
-- full, flushed or at its end, and leaves the queues of the other flows; ipq_send_ip sends the whole
-- queue of its flow in order, and leaves that queue empty and those of the other flows as they were.
pub view_refines :
    (junk : RtInfo) (entry : Entry) (q : PacketQueue) (s d t s' d' t' : ℕ)
    → (view ((ipq_enqueue true (some junk) entry q).1) s d t
        ≡ joined (takes_packets q) (ip_cmp s d t) (view q s d t) (element junk entry))
      × (ipq_send_ip s d t q
          ≡ some (map Verdict.sent (view q s d t), rest_of q (ipq_send_ip s d t q)))
      × (view (rest_of q (ipq_send_ip s d t q)) s' d' t'
          ≡ (if same_flow s d t s' d' t' then [] else view q s' d' t'))
view_refines junk entry q s d t s' d' t' =
    let sends = (drains_matching s d t 0 q).0 in
    (view-enqueue junk entry q s d t, rw sends refl, rw sends (view-without q s d t s' d' t'))
