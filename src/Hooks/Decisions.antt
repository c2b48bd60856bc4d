-- ===== src/Hooks/Decisions.antt =====
-- What output_handler decides about a packet.
use aodv_android.Base.{
  ℕ, ◌≡◌, ◌≢◌, refl, ◌⊎◌, inl, inr, Bool, true, false, not, ◌&&◌, ◌||◌, Option, none, some, ◌==◌,
  arith, Bool-cases,
}
use aodv_android.Kernel.{Kernel}
use aodv_android.Params.{wcim_metric_id}
use aodv_android.Task.{task_update_load}
use aodv_android.Node.Timers.{insert_timer_simple}
use aodv_android.RouteTable.{Route, RouteState, find_aodv_route}
use aodv_android.Routing.{write_route}
use aodv_android.Hooks.{Verdict, Answer, Packet, answer}
use aodv_android.Hooks.Output.{
  mesh_address, rreq_task, usable, is_signalling, without_route, over_route, output_handler,
  is_replied,
}
use aodv_android.Node.{Node, pure, ◌>>◌, when, if_null, deref, kmalloc}
use aodv_android.Hooks.Answers.{Answered, Answered-mono, else-Answered, bind-Answered}

abbrev pub source_of : Node → Packet → ℕ
source_of n p = mesh_address n p.saddr

abbrev pub destination_of : Node → Packet → ℕ
destination_of n p = mesh_address n p.daddr

abbrev pub is_own : Node → (source : ℕ) → Bool
is_own n source = source == n.mesh_ip || source == n.null_ip && n.is_gateway

-- The packet goes out: over a usable route, or from a gateway to the outside. Or it waits, and a
-- request for its flow is put into the queue. Or it is dropped.
abbrev pub Decided : Node → Packet → Answer → Type 0
Decided n p a =
    ((a ≡ answer Verdict.accept)
      × ((usable (find_aodv_route (source_of n p) (destination_of n p) p.tos n.routes) ≢ none)
          ⊎ ((destination_of n p == n.null_ip && n.is_gateway) ≡ true)))
    ⊎ (((a.verdict ≡ Verdict.queue)
          × (a.task ≡ some (rreq_task n.now (source_of n p) (destination_of n p) p.tos))
          × (is_own n (source_of n p) ≡ true))
        ⊎ (a ≡ answer Verdict.drop))

module _ ⦃k : Kernel⦄ where
  over_route-accepts :
      (r : Route) (n : Node) → Answered (λ a. a ≡ answer Verdict.accept) (over_route r n)
  unfolding over_route
  over_route-accepts r n =
      bind-Answered (λ a. a ≡ answer Verdict.accept)
        (when (is_replied r.state) (
          write_route r.addr (λ r. record r { state = RouteState.active })
          >> when (n.routing_metric == wcim_metric_id)
              (insert_timer_simple task_update_load 1 n.mesh_ip)))
        _ (λ _ _. refl) n

  -- Without a usable route.
  abbrev Undelivered : Node → (source destination tos : ℕ) → Answer → Type 0
  Undelivered n source destination tos a =
      ((a ≡ answer Verdict.accept) × ((destination == n.null_ip && n.is_gateway) ≡ true))
      ⊎ (((a.verdict ≡ Verdict.queue)
            × (a.task ≡ some (rreq_task n.now source destination tos))
            × (is_own n source ≡ true))
          ⊎ (a ≡ answer Verdict.drop))

  without_route-Undelivered :
      (source destination tos : ℕ) (n : Node)
      → Answered (Undelivered n source destination tos) (without_route source destination tos n)
  unfolding without_route
  without_route-Undelivered source destination tos n = elim (Bool-cases (is_own n source)) [
    | inl own ↦ rw own (
        bind-Answered (Undelivered n source destination tos) kmalloc _
          (λ c m.
            bind-Answered (Undelivered n source destination tos) (deref c) _
              (λ _ _. inr (inl (refl, refl, own))) m)
          n)
    | inr other ↦ elim (Bool-cases (destination == n.null_ip && n.is_gateway)) [
      | inl outside ↦ rw (other, outside) (inl (refl, refl))
      | inr inside ↦ rw (other, inside) (inr (inr refl))
    ]
  ]

  -- Where the module is initialized, for a packet that is neither signalling nor within one address of
  -- the mesh: if output_handler accepts it, then over a usable route of its flow, or as a gateway for
  -- an address outside; if it queues it, then with a task for a route request of its flow, which
  -- starts at this node, or outside of the mesh with this node as gateway; else it drops it.
  pub output_handler-Decided :
      (p : Packet) (n : Node)
      → n.initialized ≡ true
      → is_signalling n p ≡ false
      → (destination_of n p == source_of n p) ≡ false
      → Answered (Decided n p) (output_handler p n)
  unfolding output_handler
  output_handler-Decided p n ready data_packet apart =
      else-Answered (Decided n p)
        (not n.initialized || is_signalling n p || destination_of n p == source_of n p)
        (pure (answer Verdict.accept)) _ n (ground (arith, ready, data_packet, apart))
        (by_route (usable (find_aodv_route (source_of n p) (destination_of n p) p.tos n.routes))
          refl)
    where
      by_route :
          (o : Option Route)
          → usable (find_aodv_route (source_of n p) (destination_of n p) p.tos n.routes) ≡ o
          → Answered
              (Decided n p)
              (if_null o (without_route (source_of n p) (destination_of n p) p.tos) over_route n)
      by_route none e =
          Answered-mono (Undelivered n (source_of n p) (destination_of n p) p.tos) (Decided n p) _
            Undelivered-Decided
            (without_route-Undelivered (source_of n p) (destination_of n p) p.tos n)
        where
          Undelivered-Decided :
              (a : Answer)
              → Undelivered n (source_of n p) (destination_of n p) p.tos a
              → Decided n p a
          Undelivered-Decided a (inl (accepted, outside)) = inl (accepted, inr outside)
          Undelivered-Decided a (inr rest) = inr rest
      by_route (some r) e =
          Answered-mono (λ a. a ≡ answer Verdict.accept) (Decided n p) _
            (λ a accepted. inl (accepted, inl (ground (arith, e)))) (over_route-accepts r n)
