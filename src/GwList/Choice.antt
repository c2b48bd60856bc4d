-- ===== src/GwList/Choice.antt =====
-- Which gateway update_gw_lifetimes chooses.
use aodv_android.Base.{
  ℕ, ◌≤◌, ◌<◌, ◌≡◌, refl, sym, ap, ◌∙◌, ◌⊎◌, inl, inr, false, some, List, [], ◌∷◌, ◌++◌, arith, All,
  ltb, Bool-cases, append_thrice, append-nil,
}
use aodv_android.Kernel.{Kernel, after}
use aodv_android.Params.{default_ett_metric}
use aodv_android.GwList.{Gw, sweep, update_gw_lifetimes}

-- `ip` is the best choice: the start values where no metric is below the start metric, or an entry
-- of the list whose metric is below it and no larger than any other.
abbrev pub IsBest : (start_ip start_metric ip : ℕ) → List Gw → Type 0
IsBest start_ip start_metric ip gws =
    ((ip ≡ start_ip) × All (λ g. start_metric ≤ g.metric) gws)
    ⊎ ((front : List Gw) × (g : Gw) × (back : List Gw) × (gws ≡ front ++ g ∷ back)
        × (g.ip ≡ ip)
        × (g.metric < start_metric)
        × All (λ h. g.metric < h.metric) front
        × All (λ h. g.metric ≤ h.metric) back)

module _ ⦃k : Kernel⦄ (now : ℕ) where
  abbrev pub Alive : Gw → Type 0
  Alive g = after now g.lifetime ≡ false

  IsBest-skip :
      (ip m best : ℕ) (g : Gw) (gs : List Gw)
      → m ≤ g.metric
      → IsBest ip m best gs
      → IsBest ip m best (g ∷ gs)
  IsBest-skip ip m best g gs h (inl (e, a)) = inl (e, (h, a))
  IsBest-skip ip m best g gs h (inr (front, b, back, e, i, lt, f, a)) =
      inr (g ∷ front, b, back, rw e, i, lt, (omega arith, f), a)

  IsBest-take :
      (ip m best : ℕ) (g : Gw) (gs : List Gw)
      → g.metric < m
      → IsBest g.ip g.metric best gs
      → IsBest ip m best (g ∷ gs)
  IsBest-take ip m best g gs h (inl (e, a)) = inr ([], g, gs, refl, rw e, h, tt, a)
  IsBest-take ip m best g gs h (inr (front, b, back, e, i, lt, f, a)) =
      inr (g ∷ front, b, back, rw e, i, omega arith, (lt, f), a)

  pass_one :
      (passed : List Gw) (g : Gw) (gs : List Gw) → (passed ++ g ∷ []) ++ gs ≡ passed ++ g ∷ gs
  pass_one passed g gs = sym (append_thrice passed (g ∷ []) gs)

  sweep-IsBest :
      (ip m : ℕ) (passed gws : List Gw)
      → All Alive gws
      → (best : ℕ) × (sweep now ip m passed gws ≡ some (best, passed ++ gws)) × IsBest ip m best gws
  unfolding sweep
  sweep-IsBest ip m passed [] h =
      (ip, ap (λ l. some (ip, l)) (sym (append-nil passed)), inl (refl, tt))
  sweep-IsBest ip m passed (g ∷ gs) h = elim (Bool-cases (ltb g.metric m)) [
    | inl lt ↦
        let (best, e, b) = sweep-IsBest g.ip g.metric (passed ++ g ∷ []) gs h.1 in
        (
          best,
          rw (h.0, lt) (e ∙ ap (λ l. some (best, l)) (pass_one passed g gs)),
          IsBest-take ip m best g gs (ground arith) b,
        )
    | inr ge ↦
        let (best, e, b) = sweep-IsBest ip m (passed ++ g ∷ []) gs h.1 in
        (
          best,
          rw (h.0, ge) (e ∙ ap (λ l. some (best, l)) (pass_one passed g gs)),
          IsBest-skip ip m best g gs (ground arith) b,
        )
  ]

  -- As long as no gateway has expired, update_gw_lifetimes ends, leaves the list as it is and sets the
  -- default gateway to the first one with the least metric, if that is below DEFAULT_ETT_METRIC, and to
  -- the null address if none is.
  pub update_gw_lifetimes-IsBest :
      (null_ip : ℕ) (gws : List Gw)
      → All Alive gws
      → (best : ℕ) × (update_gw_lifetimes now null_ip gws ≡ some (best, gws))
        × IsBest null_ip default_ett_metric best gws
  unfolding update_gw_lifetimes
  update_gw_lifetimes-IsBest null_ip gws h = sweep-IsBest null_ip default_ett_metric [] gws h
