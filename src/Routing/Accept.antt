-- ===== src/Routing/Accept.antt =====
-- What rreq_aodv_route does to a route that the table already has.
use aodv_android.Base.{
  ℕ, ◌≡◌, refl, ◌⊎◌, inl, inr, Bool, true, false, ◌||◌, Option, some, List, [], ◌∷◌, arith, first,
  first_sound, ◌==◌, Bool-cases, IsSorted,
}
use aodv_android.Params.{wcim_metric_id}
use aodv_android.RouteTable.{
  Route, RouteState, dst_of, at, is_invalid, find_aodv_route, update_route,
}
use aodv_android.RouteTable.Search.{matches, find_aodv_route-first, update-IsSorted}
use aodv_android.RouteTable.Distinct.{Distinct, first-update, first-at, update-Distinct}
use aodv_android.Neighs.{Neigh}
use aodv_android.Flows.{compute_load}
use aodv_android.Node.{Node, Effect, rpdb_route, rtnetlink, route_request}
use aodv_android.Routing.{
  accepted, install, set_load, replace_route, rreq_aodv_route, supersedes, update_my_load,
}

-- The route that the request brings: through that neighbour, with the request's hops, sequence
-- number and metric, and in use.
abbrev pub Brings :
    (next_hop : Neigh) (hops dst_id path_metric src_ip dst_ip tos : ℕ) → Route → Type 0
Brings next_hop hops dst_id path_metric src_ip dst_ip tos r =
    (r.next_hop ≡ next_hop.ip)
    × (r.num_hops ≡ hops)
    × (r.dst_id ≡ dst_id)
    × (r.path_metric ≡ path_metric)
    × (r.state ≡ RouteState.active)
    × (matches src_ip dst_ip tos r ≡ true)

-- compute_load does not divide by zero, if it is called.
abbrev pub LoadKnown : (next_hop : Neigh) (tos : ℕ) → Node → Type 0
LoadKnown next_hop tos n =
    ((n.routing_metric == wcim_metric_id) ≡ false)
    ⊎ ((l : ℕ) × (compute_load next_hop.send_rate tos n.flows ≡ some l))

-- A request to rtnetlink answers, and changes nothing else.
pub rpdb_route-frame :
    (is_new : Bool) (table tos src_ip dst_ip next_hop dev hops : ℕ) (n : Node)
    → (ok : Bool) × (answers : List Bool) × (log : List Effect) × (rpdb_route is_new table tos
          src_ip dst_ip next_hop dev hops n
        ≡ some (ok, record n { netlink = answers; log = log }))
unfolding rpdb_route
rpdb_route-frame is_new table tos src_ip dst_ip next_hop dev hops n =
    elim (Bool-cases (dst_ip == n.dtn_hello_ip || src_ip == n.dtn_hello_ip)) [
      | inl e ↦ (true, n.netlink, n.log, rw e)
      | inr e ↦ rw e (answer n.netlink refl)
    ]
  where
    request : Effect
    request = route_request is_new table tos src_ip dst_ip next_hop dev hops

    answer :
        (bs : List Bool)
        → n.netlink ≡ bs
        → (ok : Bool) × (answers : List Bool) × (log : List Effect) × (rtnetlink request n
            ≡ some (ok, record n { netlink = answers; log = log }))
    answer [] e = (false, n.netlink, request ∷ n.log, rw (e, rtnetlink))
    answer (b ∷ bs) e = (b, bs, request ∷ n.log, rw (e, rtnetlink))

pub update_my_load-routes :
    (n : Node) → (n' : Node) × (update_my_load n ≡ some (tt, n')) × (n'.routes ≡ n.routes)
unfolding update_my_load
update_my_load-routes n = (_, refl, ground arith)

module _ (next_hop : Neigh) (hops dst_id path_metric : ℕ) (src_ip dst_ip tos : ℕ) where
  set_load-routes :
      (addr l : ℕ) (previous : RouteState) (r : Route) (n : Node)
      → first (at addr) n.routes ≡ some r
      → compute_load next_hop.send_rate r.tos n.flows ≡ some l
      → (n' : Node) × (set_load next_hop hops dst_id path_metric addr previous n ≡ some (tt, n'))
        × (n'.routes ≡ update_route addr (λ r. record r { load = l }) n.routes)
  unfolding set_load
  set_load-routes addr l RouteState.active r n e c =
      let (n', u, same) =
        update_my_load-routes
          (record n { routes = update_route addr (λ r. record r { load = l }) n.routes }) in
      (n', rw (e, c) u, same)
  set_load-routes addr l previous r n e c = (
    record n { routes = update_route addr (λ r. record r { load = l }) n.routes },
    rw (e, c),
    refl,
  )

  abbrev pub Installed : Node → Option (Bool × Node) → Type 0
  Installed n result =
      (n' : Node) × (result ≡ some (true, n'))
      × ((r' : Route) × (first (matches src_ip dst_ip tos) n'.routes ≡ some r')
          × Brings next_hop hops dst_id path_metric src_ip dst_ip tos r')
      × IsSorted dst_of n'.routes
      × Distinct n'.routes

  install-plain :
      (previous : RouteState) (r : Route) (n : Node)
      → IsSorted dst_of n.routes
      → Distinct n.routes
      → (n.routing_metric == wcim_metric_id) ≡ false
      → first (matches src_ip dst_ip tos) n.routes ≡ some r
      → matches src_ip dst_ip tos r ≡ true
      → Installed n (install next_hop hops dst_id path_metric r.addr previous n)
  unfolding install
  install-plain previous r n s d plain e m =
      let f = accepted n.now n.dev_index next_hop.ip hops dst_id path_metric in
      (
        record n { routes = update_route r.addr f n.routes },
        rw plain,
        (f r, first-update (matches src_ip dst_ip tos) f n.routes r d e m, ground arith),
        update-IsSorted r.addr f n.routes (λ _. refl) s,
        update-Distinct r.addr f n.routes (λ _. refl) d,
      )

  install-wcim :
      (l : ℕ) (previous : RouteState) (r : Route) (n : Node)
      → IsSorted dst_of n.routes
      → Distinct n.routes
      → (n.routing_metric == wcim_metric_id) ≡ true
      → compute_load next_hop.send_rate tos n.flows ≡ some l
      → first (matches src_ip dst_ip tos) n.routes ≡ some r
      → matches src_ip dst_ip tos r ≡ true
      → Installed n (install next_hop hops dst_id path_metric r.addr previous n)
  unfolding install
  install-wcim l previous r n s d wcim known e m =
      let p = matches src_ip dst_ip tos in
      let f = accepted n.now n.dev_index next_hop.ip hops dst_id path_metric in
      let g = λ (x : Route). record x { load = l } in
      let rs = update_route r.addr f n.routes in
      let d' = update-Distinct r.addr f n.routes (λ _. refl) d in
      let t : r.tos ≡ tos = ground (arith, m) in
      let here =
        first-update (at r.addr) f n.routes r d (first-at p n.routes r d e) (ground arith) in
      let (n', u, same) =
        set_load-routes r.addr l previous (f r) (record n { routes = rs }) here (rw t known) in
      (
        n',
        rw (wcim, u),
        (
          g (f r),
          rw same (first-update p g rs (f r) d' (first-update p f n.routes r d e m) m),
          ground arith,
        ),
        rw same (
            update-IsSorted r.addr g rs (λ _. refl)
              (update-IsSorted r.addr f n.routes (λ _. refl) s)),
        rw same (update-Distinct r.addr g rs (λ _. refl) d'),
      )

  pub install-Installed :
      (previous : RouteState) (r : Route) (n : Node)
      → IsSorted dst_of n.routes
      → Distinct n.routes
      → LoadKnown next_hop tos n
      → first (matches src_ip dst_ip tos) n.routes ≡ some r
      → matches src_ip dst_ip tos r ≡ true
      → Installed n (install next_hop hops dst_id path_metric r.addr previous n)
  install-Installed previous r n s d known e m =
      elim (Bool-cases (n.routing_metric == wcim_metric_id)) [
        | inr plain ↦ install-plain previous r n s d plain e m
        | inl wcim ↦ elim known [
          | inl plain ↦ install-plain previous r n s d plain e m
          | inr (l, c) ↦ install-wcim l previous r n s d wcim c e m
        ]
      ]

  replace_route_old :
      (r : Route) (n : Node)
      → supersedes next_hop hops dst_id path_metric r ≡ true
      → replace_route next_hop hops dst_id path_metric r n ≡ some (false, n)
  unfolding replace_route
  replace_route_old r n old = rw old

  -- What the kernel answers to the request to delete the route, and the state behind it, in which only
  -- the answers to come and the log are other ones.
  abbrev pub Asked : Route → Node → Bool → Node → Type 0
  Asked r n ok n' =
      (rpdb_route false 0 r.tos r.src_ip r.dst_ip r.next_hop r.dev r.num_hops n ≡ some (ok, n'))
      × (n'.routes ≡ n.routes)

  -- A route that does not supersede the request: one that is not in use is written at once, and one
  -- in use exactly if the kernel agrees to delete it.
  abbrev pub Replaced : Route → Node → Option (Bool × Node) → Type 0
  Replaced r n result =
      ((is_invalid r.state ≡ true) × Installed n result)
      ⊎ ((is_invalid r.state ≡ false)
          × ((n' : Node) × ((Asked r n true n' × Installed n' result)
                ⊎ (Asked r n false n' × (result ≡ some (false, n'))))))

  replace_route-Replaced :
      (r : Route) (n : Node)
      → IsSorted dst_of n.routes
      → Distinct n.routes
      → LoadKnown next_hop tos n
      → first (matches src_ip dst_ip tos) n.routes ≡ some r
      → matches src_ip dst_ip tos r ≡ true
      → supersedes next_hop hops dst_id path_metric r ≡ false
      → Replaced r n (replace_route next_hop hops dst_id path_metric r n)
  unfolding replace_route
  replace_route-Replaced r n s d known e m new = elim (Bool-cases (is_invalid r.state)) [
    | inl unused ↦ inl (unused, rw (new, unused) (install-Installed r.state r n s d known e m))
    | inr used ↦
        let (ok, answers, log, sent) =
          rpdb_route-frame false 0 r.tos r.src_ip r.dst_ip r.next_hop r.dev r.num_hops n in
        let behind = record n { netlink = answers; log = log } in
        inr (
          used,
          (
            behind,
            (elim (Bool-cases ok) [
              | inl yes' ↦ inl (
                (rw yes' at sent, refl),
                rw (new, used, sent, yes') (install-Installed r.state r behind s d known e m),
              )
              | inr no' ↦ inr ((rw no' at sent, refl), rw (new, used, sent, no'))
            ]),
          ),
        )
  ]

  -- rreq_aodv_route for a flow that the table has a route for, in a table that is sorted and holds
  -- distinct entries, and where the load of the link can be computed: it ends. A request that the
  -- route supersedes (older, or as new and no better) is refused and changes nothing. Any other
  -- leaves the flow with the route that the request brings, in a table of the same form, if the route
  -- was not in use or the kernel agrees to delete it; if the kernel refuses, the request is refused and
  -- the table is unchanged.
  pub rreq_aodv_route-existing :
      (r : Route) (n : Node)
      → IsSorted dst_of n.routes
      → Distinct n.routes
      → LoadKnown next_hop tos n
      → find_aodv_route src_ip dst_ip tos n.routes ≡ some r
      → ((supersedes next_hop hops dst_id path_metric r ≡ true)
          × (rreq_aodv_route next_hop hops dst_id path_metric src_ip dst_ip tos n
              ≡ some (false, n)))
        ⊎ ((supersedes next_hop hops dst_id path_metric r ≡ false)
            × Replaced r n (rreq_aodv_route next_hop hops dst_id path_metric src_ip dst_ip tos n))
  unfolding rreq_aodv_route
  rreq_aodv_route-existing r n s d known e =
      let found : first (matches src_ip dst_ip tos) n.routes ≡ some r =
        rw (← (find_aodv_route-first src_ip dst_ip tos 0 n.routes s).0) e in
      let m = first_sound (matches src_ip dst_ip tos) n.routes r found in
      elim (Bool-cases (supersedes next_hop hops dst_id path_metric r)) [
        | inl old ↦ inl (old, rw (e, rreq_aodv_route) (replace_route_old r n old))
        | inr new ↦
            inr (new, rw (e, rreq_aodv_route) (replace_route-Replaced r n s d known found m new))
      ]
