-- ===== src/GwList.antt =====
-- gw_list.c: the known gateways, as the list at `gw_list` from its head.
pub mod Update
pub mod Choice
use aodv_android.Base.{
  ℕ, ◌+◌, Bool, true, false, ◌&&◌, Option, none, some, List, [], ◌∷◌, ◌++◌, if◌then◌else◌, ◌==◌,
  ltb, unlink,
}
use aodv_android.Kernel.{Kernel, after}
use aodv_android.Params.{u64, active_gwroute_timeout, default_ett_metric}

pub record Gw : Type 0 where
  pub ip : ℕ
  pub lifetime : ℕ
  pub metric : ℕ
  pub num_hops : ℕ
  pub dst_id : ℕ

-- The answer of the loop of update_gw: no entry with the address, an entry that is kept, or the
-- list with the entry written.
pub data Refresh : Type 0 where
  unknown kept : Refresh
  renewed : List Gw → Refresh

abbrev pub cons_gw : Gw → Refresh → Refresh
cons_gw g Refresh.unknown = Refresh.unknown
cons_gw g Refresh.kept = Refresh.kept
cons_gw g (Refresh.renewed gs) = Refresh.renewed (g ∷ gs)

unfoldable pub gw_entry : (now gw_ip dst_id num_hops path_metric : ℕ) → Gw
gw_entry now gw_ip dst_id num_hops path_metric = record {
  ip = gw_ip;
  lifetime = u64 (now + active_gwroute_timeout);
  metric = path_metric;
  num_hops = num_hops;
  dst_id = dst_id;
}

unfoldable pub refresh : (now gw_ip dst_id num_hops path_metric : ℕ) → List Gw → Refresh
refresh now gw_ip dst_id num_hops path_metric [] = Refresh.unknown
refresh now gw_ip dst_id num_hops path_metric (g ∷ gs) =
    if g.ip == gw_ip
    then (if ltb dst_id g.dst_id
        then Refresh.kept
        else (if g.dst_id == dst_id && ltb g.metric path_metric
            then Refresh.kept
            else Refresh.renewed (
                record g {
                  metric = path_metric;
                  num_hops = num_hops;
                  lifetime = u64 (now + active_gwroute_timeout);
                  dst_id = dst_id;
                }
                ∷ gs)))
    else cons_gw g (refresh now gw_ip dst_id num_hops path_metric gs)

-- The result is the list and whether the message is to be passed on. `memory` is whether kmalloc
-- finds room for a new entry.
unfoldable pub update_gw :
    (memory : Bool) (now gw_ip dst_id num_hops path_metric : ℕ) → List Gw → List Gw × Bool
unfolding refresh gw_entry
update_gw memory now gw_ip dst_id num_hops path_metric gws =
    elim (refresh now gw_ip dst_id num_hops path_metric gws) [
      | Refresh.unknown ↦
          if memory
          then (gw_entry now gw_ip dst_id num_hops path_metric ∷ gws, true)
          else (gws, true)
      | Refresh.kept ↦ (gws, false)
      | Refresh.renewed gs ↦ (gs, true)
    ]

unfoldable pub delete_gw_list_entry : (gw_ip : ℕ) → List Gw → List Gw
delete_gw_list_entry gw_ip gws = unlink (λ g. g.ip == gw_ip) gws

unfoldable pub is_gw : (ip : ℕ) → List Gw → Bool
is_gw ip [] = false
is_gw ip (g ∷ gs) = if g.ip == ip then true else is_gw ip gs

module _ ⦃k : Kernel⦄ where
  -- The loop of update_gw_lifetimes with the best gateway so far, and the list as the entries that the
  -- walk has passed and those from `tmp_entry` on. The call of delete_gw_list_entry for an expired entry
  -- frees the first entry with its address. `none` is a read of freed memory: that was `tmp_entry`, and
  -- its `next` is read; where an entry that was passed has the address, it goes, and the walk goes on.
  unfoldable pub sweep :
      (now best_gw best_metric : ℕ) → (passed rest : List Gw) → Option (ℕ × List Gw)
  unfolding is_gw delete_gw_list_entry
  sweep now best_gw best_metric passed [] = some (best_gw, passed)
  sweep now best_gw best_metric passed (g ∷ gs) =
      let kept =
        if ltb g.metric best_metric
        then sweep now g.ip g.metric (passed ++ g ∷ []) gs
        else sweep now best_gw best_metric (passed ++ g ∷ []) gs in
      let deleted =
        sweep now best_gw best_metric (delete_gw_list_entry g.ip (passed ++ g ∷ [])) gs in
      if after now g.lifetime then (if is_gw g.ip passed then deleted else none) else kept

  -- The new default gateway, and the list behind.
  unfoldable pub update_gw_lifetimes : (now null_ip : ℕ) → List Gw → Option (ℕ × List Gw)
  unfolding sweep
  update_gw_lifetimes now null_ip gws = sweep now null_ip default_ett_metric [] gws
