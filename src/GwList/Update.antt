-- ===== src/GwList/Update.antt =====
-- The effect of update_gw on the entry of one gateway.
use aodv_android.Base.{
  ℕ, ◌≡◌, refl, ap, inl, inr, ◌+◌, ==_iff, modify, Bool, true, false, Option, none, some, List, [],
  ◌∷◌, arith, first, ltb, ◌==◌, Bool-cases, if◌then◌else◌, ◌&&◌, ◌||◌, not,
}
use aodv_android.Params.{u64, active_gwroute_timeout}
use aodv_android.GwList.{Gw, Refresh, cons_gw, refresh, gw_entry, update_gw}

abbrev pub known : ℕ → List Gw → Option Gw
known ip gws = first (λ g. g.ip == ip) gws

-- The message is news: the gateway is unknown, or the sequence number is higher, or it is the same
-- and the metric is no larger.
abbrev pub is_news : (dst_id path_metric : ℕ) → Option Gw → Bool
is_news dst_id path_metric none = true
is_news dst_id path_metric (some g) =
    ltb g.dst_id dst_id || (g.dst_id == dst_id && not (ltb g.metric path_metric))

module _ (now gw_ip dst_id num_hops path_metric : ℕ) where
  abbrev Refreshed : List Gw → Refresh → Type 0
  Refreshed gws Refresh.unknown = known gw_ip gws ≡ none
  Refreshed gws Refresh.kept =
      (g : Gw) × (known gw_ip gws ≡ some g) × (is_news dst_id path_metric (some g) ≡ false)
  Refreshed gws (Refresh.renewed gs) =
      (g : Gw) × (known gw_ip gws ≡ some g)
      × (is_news dst_id path_metric (some g) ≡ true)
      × (gs ≡ modify (λ h. h.ip == gw_ip) (λ h. gw_entry now gw_ip dst_id num_hops path_metric) gws)
      × ((ip : ℕ)
          → known ip gs ≡ (
              if ip == gw_ip
              then some (gw_entry now gw_ip dst_id num_hops path_metric)
              else known ip gws))

  Refreshed-cons :
      (g : Gw) (gws : List Gw) (r : Refresh)
      → (g.ip == gw_ip) ≡ false
      → Refreshed gws r
      → Refreshed (g ∷ gws) (cons_gw g r)
  unfolding first modify
  Refreshed-cons g gws Refresh.unknown ne h = rw ne h
  Refreshed-cons g gws Refresh.kept ne (b, e, n) = (b, rw ne e, n)
  Refreshed-cons g gws (Refresh.renewed gs) ne (b, e, n, m, f) =
      (b, rw ne e, n, rw ne (ap (λ hs. g ∷ hs) m), λ ip. ground (arith, f ip))

  written :
      (g : Gw) (gs : List Gw)
      → (g.ip == gw_ip) ≡ true
      → record g {
        metric = path_metric;
        num_hops = num_hops;
        lifetime = u64 (now + active_gwroute_timeout);
        dst_id = dst_id;
      }
          ∷ gs
        ≡ modify (λ h. h.ip == gw_ip) (λ h. gw_entry now gw_ip dst_id num_hops path_metric) (g ∷ gs)
  unfolding modify gw_entry
  written g gs hit = let same : g.ip ≡ gw_ip = (==_iff g.ip gw_ip).0 hit in rw (hit, same) refl

  refresh-Refreshed :
      (gws : List Gw) → Refreshed gws (refresh now gw_ip dst_id num_hops path_metric gws)
  unfolding refresh first modify gw_entry
  refresh-Refreshed [] = refl
  refresh-Refreshed (g ∷ gs) = elim (Bool-cases (g.ip == gw_ip)) [
    | inr ne ↦ rw ne (Refreshed-cons g gs _ ne (refresh-Refreshed gs))
    | inl hit ↦ elim (Bool-cases (ltb dst_id g.dst_id)) [
      | inl old ↦ rw (hit, old) (g, rw hit, ground arith)
      | inr new ↦ elim (Bool-cases (g.dst_id == dst_id && ltb g.metric path_metric)) [
        | inl worse ↦ rw (hit, new, worse) (g, rw hit, ground arith)
        | inr better ↦
            rw (hit, new, better) (g, rw hit, ground arith, written g gs hit, λ ip. ground arith)
      ]
    ]
  ]

  -- What update_gw is to make of the list, from what is known of the gateway.
  unfoldable pub learned : Option Gw → List Gw → List Gw × Bool
  learned none gws = (gw_entry now gw_ip dst_id num_hops path_metric ∷ gws, true)
  learned (some g) gws =
      if is_news dst_id path_metric (some g)
      then (
        modify (λ h. h.ip == gw_ip) (λ h. gw_entry now gw_ip dst_id num_hops path_metric) gws,
        true,
      )
      else (gws, false)

  -- update_gw with memory for a new entry: an unknown gateway is put at the head of the list, with the
  -- message's values and a new lifetime; for a known one that the message is news for, its first entry
  -- becomes that one; otherwise the list is unchanged. The answer is whether the message is news, and
  -- every other gateway is known as before.
  pub update_gw_lem :
      (gws : List Gw)
      → (update_gw true now gw_ip dst_id num_hops path_metric gws ≡ learned (known gw_ip gws) gws)
        × ((update_gw true now gw_ip dst_id num_hops path_metric gws).1
            ≡ is_news dst_id path_metric (known gw_ip gws))
        × ((ip : ℕ)
            → known ip (update_gw true now gw_ip dst_id num_hops path_metric gws).0 ≡ (
                if ip == gw_ip && is_news dst_id path_metric (known gw_ip gws)
                then some (gw_entry now gw_ip dst_id num_hops path_metric)
                else known ip gws))
  unfolding update_gw learned first gw_entry
  update_gw_lem gws =
      go (refresh now gw_ip dst_id num_hops path_metric gws) refl (refresh-Refreshed gws)
    where
      go :
          (r : Refresh)
          → refresh now gw_ip dst_id num_hops path_metric gws ≡ r
          → Refreshed gws r
          → (update_gw true now gw_ip dst_id num_hops path_metric gws
              ≡ learned (known gw_ip gws) gws)
            × ((update_gw true now gw_ip dst_id num_hops path_metric gws).1
                ≡ is_news dst_id path_metric (known gw_ip gws))
            × ((ip : ℕ)
                → known ip (update_gw true now gw_ip dst_id num_hops path_metric gws).0 ≡ (
                    if ip == gw_ip && is_news dst_id path_metric (known gw_ip gws)
                    then some (gw_entry now gw_ip dst_id num_hops path_metric)
                    else known ip gws))
      go Refresh.unknown e h = rw (e, update_gw, h) (refl, refl, λ ip. ground arith)
      go Refresh.kept e (g, k, n) = rw (e, update_gw, k, n) (refl, refl, λ ip. ground arith)
      go (Refresh.renewed gs) e (g, k, n, m, f) =
          rw (e, update_gw, k, n) (rw m refl, refl, λ ip. rw (f ip) (ground arith))
