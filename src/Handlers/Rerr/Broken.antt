-- ===== src/Handlers/Rerr/Broken.antt =====
-- gen_rerr of rerr.c: the routes after a lost link.
use aodv_android.Base.{
  ℕ, ◌≡◌, ◌==◌, ◌&&◌, ◌||◌, not, refl, sym, ap, ◌∙◌, ◌⊎◌, inl, inr, Bool, true, false, List, [],
  ◌∷◌, ◌++◌, if◌then◌else◌, arith, All, Bool-cases, modify,
}
use aodv_android.Kernel.{Kernel}
use aodv_android.Params.{wcim_metric_id}
use aodv_android.RouteTable.{Route, is_invalid, expire_aodv_route, update_route, active_load}
use aodv_android.RouteTable.Distinct.{Differs, Distinct, update-Distinct}
use aodv_android.Routing.{update_my_load}
use aodv_android.Handlers.{Status}
use aodv_android.Handlers.Rerr.{
  report_route, break_route, goes_over, recount, break_routes, gen_rerr,
}
use aodv_android.Handlers.Rerr.Quiet.{Reported, report_route-Reports}
use aodv_android.Handlers.Rerr.Ends.{Ends, Ends-and_then, Supplied}
use aodv_android.Node.{Node, pure, ◌>>=◌, when}

middle-Differs :
    (ds : List Route) (r : Route) (rs : List Route) (a : ℕ)
    → All (Differs a) (ds ++ r ∷ rs)
    → (a == r.addr) ≡ false
middle-Differs [] r rs a h = let h0 = h.0 in ground arith
middle-Differs (x ∷ ds) r rs a h = middle-Differs ds r rs a h.1

-- The table from its middle on: an update of the entry there.
update-middle :
    (ds : List Route) (r : Route) (rs : List Route) (f : Route → Route)
    → Distinct (ds ++ r ∷ rs)
    → update_route r.addr f (ds ++ r ∷ rs) ≡ ds ++ f r ∷ rs
unfolding update_route modify
update-middle [] r rs f d = ground arith
update-middle (x ∷ ds) r rs f d =
    let other : (x.addr == r.addr) ≡ false = middle-Differs ds r rs x.addr d.0 in
    rw other (ap (λ ys. x ∷ ys) (update-middle ds r rs f d.1))

append_one : (ds : List Route) (r : Route) (rs : List Route) → (ds ++ r ∷ []) ++ rs ≡ ds ++ r ∷ rs
append_one [] r rs = refl
append_one (x ∷ ds) r rs = ap (λ ys. x ∷ ys) (append_one ds r rs)

append_none : (ds : List Route) → ds ++ [] ≡ ds
append_none [] = refl
append_none (x ∷ ds) = ap (λ ys. x ∷ ys) (append_none ds)

All-append_one :
    (P : Route → Type 0) (ds : List Route) (r : Route) → All P ds → P r → All P (ds ++ r ∷ [])
All-append_one P [] r h p = (p, tt)
All-append_one P (x ∷ ds) r h p = (h.0, All-append_one P ds r h.1 p)

and_false : (b : Bool) → (b && false) ≡ false
and_false true = refl
and_false false = refl

module _ ⦃k : Kernel⦄ where
  -- Not in use over the lost link.
  abbrev pub OutOfUse : (brk_dst_ip : ℕ) → Route → Type 0
  OutOfUse brk_dst_ip r = (goes_over brk_dst_ip r && not (is_invalid r.state)) ≡ false

  abbrev expired_at : (now : ℕ) → Route → Route
  expired_at now r = if is_invalid r.state then r else expire_aodv_route now r

  break_route-middle :
      (ds : List Route) (r : Route) (rs : List Route) (n : Node)
      → n.routes ≡ ds ++ r ∷ rs
      → Distinct n.routes
      → Ends
          (λ _ m.
            (m.routes ≡ ds ++ expired_at n.now r ∷ rs)
            × (Supplied n → Supplied m)
            × Distinct m.routes)
          (break_route r n)
  unfolding break_route expire_aodv_route
  break_route-middle ds r rs n e d = elim (Bool-cases (is_invalid r.state)) [
    | inl gone ↦ rw gone (e, λ s. s, d)
    | inr used ↦ rw used (
      ap (update_route r.addr (expire_aodv_route n.now)) e
          ∙ update-middle ds r rs (expire_aodv_route n.now) (rw e at d),
      λ s. s,
      update-Distinct r.addr _ n.routes (λ _. refl) d,
    )
  ]

  recount-routes :
      (expired : Bool) (n : Node) → Ends (λ _ m. m.routes ≡ n.routes) (recount expired n)
  unfolding update_my_load
  recount-routes expired n = when_load (n.routing_metric == wcim_metric_id && expired)
    where
      if-routes :
          (b : Bool) (m : Node) → m.routes ≡ n.routes → (if b then n else m).routes ≡ n.routes
      if-routes true m e = refl
      if-routes false m e = e

      when_load : (b : Bool) → Ends (λ _ m. m.routes ≡ n.routes) (when b update_my_load n)
      when_load true = if-routes (n.load == active_load n.routes 0) _ refl
      when_load false = refl

  expired_at-OutOfUse : (brk_dst_ip now : ℕ) (r : Route) → OutOfUse brk_dst_ip (expired_at now r)
  unfolding expire_aodv_route
  expired_at-OutOfUse brk_dst_ip now r = elim (Bool-cases (is_invalid r.state)) [
    | inl gone ↦ rw gone (ground (arith, gone))
    | inr used ↦ rw used (and_false (goes_over brk_dst_ip r))
  ]

  -- No route in use over the lost link, or no memory is left.
  abbrev pub Broken : (brk_dst_ip : ℕ) → Status → Node → Type 0
  Broken brk_dst_ip a m = All (OutOfUse brk_dst_ip) m.routes ⊎ (m.memory ≡ [])

  -- From a state in which the entries before `rs` are done.
  abbrev Goes : (brk_dst_ip : ℕ) → List Route → Type 0
  Goes brk_dst_ip rs =
      (expired : Bool) (ds : List Route) (n : Node)
      → n.routes ≡ ds ++ rs
      → Distinct n.routes
      → Supplied n
      → All (OutOfUse brk_dst_ip) ds
      → Ends (Broken brk_dst_ip) (break_routes brk_dst_ip rs expired n)

  module _ (ip : ℕ) (r : Route) (rs : List Route) (expired : Bool) (ds : List Route)
      (done : All (OutOfUse ip) ds) (rest : Goes ip rs) where
    after_break :
        (m : Node)
        → Supplied m
        → (used : Bool) (m' : Node)
        → (m'.routes ≡ ds ++ expired_at m.now r ∷ rs)
          × (Supplied m → Supplied m')
          × Distinct m'.routes
        → Ends (Broken ip) (break_routes ip rs (expired || used) m')
    after_break m s used m' (e', same, d') =
        rest (expired || used) (ds ++ expired_at m.now r ∷ []) m'
          (e' ∙ sym (append_one ds (expired_at m.now r) rs)) d' (same s)
          (All-append_one (OutOfUse ip) ds (expired_at m.now r) done
            (expired_at-OutOfUse ip m.now r))

    after_report :
        (n : Node)
        → n.routes ≡ ds ++ r ∷ rs
        → Distinct n.routes
        → (ok : Bool) (m : Node) → Reported n ok m
        → Ends (Broken ip) (
            (if ok
                then (break_route r >>= λ used. break_routes ip rs (expired || used))
                else pure Status.ret0)
              m)
    after_report n e d false m (kept, inl f) = ground arith
    after_report n e d false m (kept, inr empty) = inr empty
    after_report n e d true m (kept, f) =
        Ends-and_then
          (λ _ m'.
            (m'.routes ≡ ds ++ expired_at m.now r ∷ rs)
            × (Supplied m → Supplied m')
            × Distinct m'.routes)
          (Broken ip) (break_route r m) _ (break_route-middle ds r rs m (kept.0 ∙ e) (rw kept.0 d))
          (after_break m kept.1)

  break_routes-Goes : (ip : ℕ) (rs : List Route) → Goes ip rs
  unfolding break_routes
  break_routes-Goes ip [] expired ds n e d s done =
      Ends-and_then (λ _ m. m.routes ≡ n.routes) (Broken ip) (recount expired n) _
        (recount-routes expired n) (λ _ m same. inl (rw (same, e, append_none ds) done))
  break_routes-Goes ip (r ∷ rs) expired ds n e d s done =
      let rest = break_routes-Goes ip rs in
      elim (Bool-cases (goes_over ip r)) [
        | inr other ↦ rw other (
            rest expired (ds ++ r ∷ []) n (e ∙ sym (append_one ds r rs)) d s
              (All-append_one (OutOfUse ip) ds r done (ground (arith, other))))
        | inl over ↦ rw over (
            Ends-and_then (Reported n) (Broken ip) (report_route r n) _ (report_route-Reports r n s)
              (after_report ip r rs expired ds done rest n e d))
      ]

  -- From a state with distinct entries, without an expired broken link, and where no call of kmalloc
  -- gives NULL before the list of its answers is used up, gen_rerr ends, and then no route goes over
  -- the lost link but those to neighbours, those of this node itself and those marked invalid; or
  -- the answers of kmalloc are used up.
  pub gen_rerr-Broken :
      (brk_dst_ip : ℕ) (n : Node)
      → Distinct n.routes
      → Supplied n
      → Ends (Broken brk_dst_ip) (gen_rerr brk_dst_ip n)
  unfolding gen_rerr
  gen_rerr-Broken brk_dst_ip n d s = break_routes-Goes brk_dst_ip n.routes false [] n refl d s tt
