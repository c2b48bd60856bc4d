-- ===== src/Handlers/Rerr/Quiet.antt =====
-- What gen_rerr of rerr.c does for one route: the links it notes, the errors it sends, and that the
-- routes stay as they are.
use aodv_android.Base.{
  ℕ, ◌+◌, ◌<◌, ◌≡◌, ◌==◌, refl, ◌∙◌, ◌⊎◌, inl, inr, Bool, true, false, Option, none, some, List, [],
  if◌then◌else◌, arith, All, Bool-cases, modify, All-insert_ordered, All-modify,
}
use aodv_android.Kernel.{Kernel, before, to_network}
use aodv_android.Params.{u64, u32, brk_link_timeout, net_diameter}
use aodv_android.Task.{task_recv_rerr}
use aodv_android.RouteTable.{Route, is_invalid, is_some}
use aodv_android.BrkList.{BrkLink, link_dst, find_brk_link, insert_brk_link, create_brk_link}
use aodv_android.BrkList.Flush.{Lives, flush-Lives}
use aodv_android.Handlers.{tell_dtn, reply_to_rrer}
use aodv_android.Handlers.Rerr.{note_link, last_dtn, send_rerr, report_route}
use aodv_android.Message.{Message}
use aodv_android.Node.{Node, Cell, M, pure, emit, send, update, ◌>>=◌, ◌>>◌, if_null, kmalloc}
use aodv_android.Handlers.Rerr.Ends.{
  Ends, Ends-mono, Ends-and_then, Supplied, Kept, Quiet, bind-Quiet, when-Quiet, kmalloc-Supplied,
  kmalloc-Quiet,
}

module _ ⦃k : Kernel⦄ where
  later : (now : ℕ) → before (u64 (now + brk_link_timeout)) now ≡ false
  later now = not_before (Bool-cases (before (u64 (now + brk_link_timeout)) now))
    where
      same : u32 (u64 (now + brk_link_timeout)) ≡ u32 (now + brk_link_timeout)
      same = omega arith

      absurd : (x : ℕ) → x + brk_link_timeout < x → ⊥
      absurd x h = omega arith

      not_before :
          (before (u64 (now + brk_link_timeout)) now ≡ true)
            ⊎ (before (u64 (now + brk_link_timeout)) now ≡ false)
          → before (u64 (now + brk_link_timeout)) now ≡ false
      not_before (inr e) = e
      not_before (inl e) =
          let early =
            (k.time_before_iff (now + brk_link_timeout) now (omega arith) (omega arith)).0
              (rw (before, same) at e) in
          elim (absurd now early) [ ]

  create-Lives :
      (now now' fresh src_ip dst_ip last_hop last_avail : ℕ) (links : List BrkLink)
      → now' ≡ now
      → All (Lives now') links
      → All (Lives now') (create_brk_link now fresh src_ip dst_ip last_hop last_avail links)
  unfolding create_brk_link insert_brk_link
  create-Lives now now' fresh src_ip dst_ip last_hop last_avail links e h =
      All-insert_ordered link_dst (Lives now') _ links (rw e (later now)) h

  note-Quiet :
      (src_ip dst_ip last_hop last_avail : ℕ) (n : Node)
      → Supplied n
      → Ends
          (λ _ m. Kept n m)
          ((kmalloc >>= λ c. if_null c (pure tt) (λ c. update λ m. record m {
            links = create_brk_link n.now c.addr src_ip dst_ip last_hop last_avail m.links;
          }))
            n)
  note-Quiet src_ip dst_ip last_hop last_avail n s =
      Ends-and_then (λ _ m. Kept n m) (λ _ m. Kept n m) (kmalloc n) _ (kmalloc-Quiet n s) by_block
    where
      by_block :
          (c : Option Cell) (m : Node)
          → Kept n m
          → Ends
              (λ _ m. Kept n m)
              (if_null c
                (pure tt)
                (λ c. update λ m. record m {
                  links = create_brk_link n.now c.addr src_ip dst_ip last_hop last_avail m.links;
                })
                m)
      by_block none m kept = kept
      by_block (some c) m (same, s, e) = (
        same,
        (s.0, create-Lives n.now m.now c.addr src_ip dst_ip last_hop last_avail m.links e s.1),
        e,
      )

  note_link-Quiet :
      (src_ip dst_ip last_hop last_avail : ℕ) → Quiet (note_link src_ip dst_ip last_hop last_avail)
  unfolding note_link
  note_link-Quiet src_ip dst_ip last_hop last_avail n s =
      Ends-and_then (λ _ m. Kept n m) (λ _ m. Kept n m) _ _
        (by_link (find_brk_link src_ip dst_ip n.links))
        (λ _ m kept. rw (flush-Lives m.now m.links kept.1.1) kept)
    where
      by_link :
          (o : Option BrkLink)
          → Ends
              (λ _ m. Kept n m)
              (if_null o
                (kmalloc >>= λ c. if_null c (pure tt) (λ c. update λ m. record m {
                  links = create_brk_link n.now c.addr src_ip dst_ip last_hop last_avail m.links;
                }))
                (λ b. update λ m. record m {
                  links =
                      modify
                        (λ l. l.addr == b.addr)
                        (λ l. record l { lifetime = u64 (n.now + brk_link_timeout) })
                        m.links;
                })
                n)
      by_link none = note-Quiet src_ip dst_ip last_hop last_avail n s
      by_link (some b) =
          (refl, (s.0, All-modify (Lives n.now) _ _ n.links (λ _. later n.now) s.1), refl)

  -- Whether the run goes on; it ends only where the answers of kmalloc are used up.
  abbrev pub Reported : Node → Bool → Node → Type 0
  Reported n ok m = Kept n m × ((ok ≡ true) ⊎ (m.memory ≡ []))

  abbrev pub Reports : M Bool → Type 0
  Reports m = (n : Node) → Supplied n → Ends (Reported n) (m n)

  then-Reports : (m : M (Unit {0})) (m' : M Bool) → Quiet m → Reports m' → Reports (m >> m')
  then-Reports m m' h h' n s =
      Ends-and_then (λ _ n'. Kept n n') (Reported n) (m n) _ (h n s)
        (λ _ n' kept.
          Ends-mono (Reported n') (Reported n) (m' n')
            (λ _ n'' r. ((r.0.0 ∙ kept.0, r.0.1, r.0.2 ∙ kept.2), r.1)) (h' n' kept.1))

  tell_dtn-Quiet : (a b c type : ℕ) → Quiet (tell_dtn a b c type)
  unfolding tell_dtn
  tell_dtn-Quiet a b c type n s = when-Quiet (n.dtn_register == 1) _ (λ _ s. (refl, s, refl)) n s

  if-Reports : (b : Bool) (m m' : M Bool) → Reports m → Reports m' → Reports (if b then m else m')
  if-Reports true m m' h h' n s = h n s
  if-Reports false m m' h h' n s = h' n s

  send_rerr-Reported : (r : Route) (n : Node) → Supplied n → Ends (Reported n) (send_rerr r n)
  unfolding send_rerr
  send_rerr-Reported r n s =
      Ends-and_then (λ c m. Kept n m × ((is_some c ≡ true) ⊎ (m.memory ≡ []))) (Reported n)
        (kmalloc n) _ (kmalloc-Supplied n s) by_block
    where
      told : M (Unit {0})
      told = tell_dtn r.src_ip r.dst_ip (last_dtn n) task_recv_rerr

      said : M (Unit {0})
      said = emit (
          send r.last_hop net_diameter (
            Message.rerr (record {
              num_hops = 0;
              dst_ip = r.dst_ip;
              dst_id = to_network r.dst_id;
              last_avail_ip = last_dtn n;
              src_ip = r.src_ip;
            })))

      noted : M (Unit {0})
      noted = note_link r.src_ip r.dst_ip r.last_hop (last_dtn n)

      by_block :
          (c : Option Cell) (m : Node)
          → Kept n m × ((is_some c ≡ true) ⊎ (m.memory ≡ []))
          → Ends
              (Reported n)
              (if_null c (pure false) (λ _. told >> (said >> (noted >> pure true))) m)
      by_block none m (kept, inl e) = ground arith
      by_block none m (kept, inr e) = (kept, inr e)
      by_block (some c) m (kept, e) =
          Ends-mono (Reported m) (Reported n) _
            (λ _ _ r. ((r.0.0 ∙ kept.0, r.0.1, r.0.2 ∙ kept.2), r.1))
            (then-Reports told _ (tell_dtn-Quiet r.src_ip r.dst_ip (last_dtn n) task_recv_rerr)
              (then-Reports said _ (λ _ s. (refl, s, refl))
                (then-Reports noted (pure true)
                  (note_link-Quiet r.src_ip r.dst_ip r.last_hop (last_dtn n))
                  (λ _ s. ((refl, s, refl), inl refl))))
              m kept.1)

  pub report_route-Reports : (r : Route) → Reports (report_route r)
  unfolding report_route
  report_route-Reports r n s =
      if-Reports (reply_to_rrer n r.src_ip) _ _
        (then-Reports
          (tell_dtn r.src_ip r.dst_ip (last_dtn n) task_recv_rerr
            >> note_link r.src_ip r.dst_ip 0 (last_dtn n))
          (pure true)
          (bind-Quiet (tell_dtn r.src_ip r.dst_ip (last_dtn n) task_recv_rerr) _
            (tell_dtn-Quiet r.src_ip r.dst_ip (last_dtn n) task_recv_rerr)
            (λ _. note_link-Quiet r.src_ip r.dst_ip 0 (last_dtn n)))
          (λ _ s. ((refl, s, refl), inl refl)))
        (if-Reports (is_invalid r.state) (pure true) (send_rerr r)
          (λ _ s. ((refl, s, refl), inl refl)) (send_rerr-Reported r))
        n s
