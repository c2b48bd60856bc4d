-- ===== src/Tests/Links.antt =====
-- The theorems about broken links and gateways at concrete lists.
use aodv_android.Base.{
  ℕ, ◌≡◌, refl, true, ◌&&◌, none, some, List, [], ◌∷◌, arith, IsSorted, first, ◌==◌, if◌then◌else◌,
}
use aodv_android.Params.{default_ett_metric}
use aodv_android.RouteTable.{RouteState}
use aodv_android.BrkList.{
  BrkLink, link_dst, insert_brk_link, find_brk_link, find_first_brk_link_with_dst, flush_brk_list,
  expire_brk_link,
}
use aodv_android.BrkList.Search.{links_pair, find_brk_link-first}
use aodv_android.BrkList.Flush.{flush_brk_list-active, flush_brk_list-invalid}
use aodv_android.GwList.{Gw, gw_entry, update_gw, is_gw, sweep, update_gw_lifetimes}
use aodv_android.GwList.Update.{known, is_news, learned, update_gw_lem}
use aodv_android.GwList.Choice.{IsBest, update_gw_lifetimes-IsBest}
use aodv_android.Tests.Platform.{platform}

abbrev broken : (dst lifetime : ℕ) → RouteState → BrkLink
broken dst lifetime state = record {
  addr = dst;
  lifetime = lifetime;
  last_hop = 0;
  dst_ip = dst;
  src_ip = 1;
  dst_id = 0;
  state = state;
  last_avail_ip = 0;
}

abbrev fresh : ℕ → BrkLink
fresh dst = broken dst 9000 RouteState.active

find_brk_link-first_example :
    (find_brk_link 1 4 (fresh 2 ∷ fresh 4 ∷ []) ≡ first (links_pair 1 4) (fresh 2 ∷ fresh 4 ∷ []))
    × (find_first_brk_link_with_dst 4 (fresh 2 ∷ fresh 4 ∷ [])
        ≡ first (λ b. b.dst_ip == 4 && true) (fresh 2 ∷ fresh 4 ∷ []))
    × IsSorted link_dst (insert_brk_link (fresh 3) (fresh 2 ∷ fresh 4 ∷ []))
    × (find_brk_link 1 4 (insert_brk_link (fresh 3) (fresh 2 ∷ fresh 4 ∷ [])) ≡ (
        if links_pair 1 4 (fresh 3)
        then some (fresh 3)
        else find_brk_link 1 4 (fresh 2 ∷ fresh 4 ∷ [])))
find_brk_link-first_example =
    find_brk_link-first 1 4 (fresh 3) (fresh 2 ∷ fresh 4 ∷ []) (omega arith)

flush_brk_list-active_example :
    (flush_brk_list 5000 (fresh 2 ∷ broken 3 4000 RouteState.active ∷ []) ≡ none)
    × (flush_brk_list 5000 (fresh 2 ∷ broken 3 4000 RouteState.active ∷ fresh 4 ∷ []) ≡ none)
    × (flush_brk_list 5000
          (fresh 2 ∷ broken 3 4000 RouteState.active ∷ fresh 4 ∷ fresh 5 ∷ fresh 6 ∷ [])
        ≡ some (
            fresh 2
            ∷ expire_brk_link 5000 (broken 3 4000 RouteState.active)
            ∷ fresh 5
            ∷ fresh 6
            ∷ []))
flush_brk_list-active_example =
    flush_brk_list-active 5000 (fresh 2 ∷ []) (broken 3 4000 RouteState.active) (fresh 4) (fresh 5)
      (fresh 6 ∷ []) (refl, tt) refl refl (refl, tt)

flush_brk_list-invalid_example :
    (flush_brk_list 5000 (fresh 2 ∷ []) ≡ some (fresh 2 ∷ []))
    × (flush_brk_list 5000 (fresh 2 ∷ broken 3 4000 RouteState.invalid ∷ []) ≡ none)
    × (flush_brk_list 5000 (fresh 2 ∷ broken 3 4000 RouteState.invalid ∷ fresh 4 ∷ fresh 5 ∷ [])
        ≡ some (fresh 2 ∷ fresh 4 ∷ fresh 5 ∷ []))
flush_brk_list-invalid_example =
    flush_brk_list-invalid 5000 (fresh 2 ∷ []) (broken 3 4000 RouteState.invalid) (fresh 4)
      (fresh 5 ∷ []) (refl, tt) refl refl (refl, tt)

abbrev gateway : (ip lifetime metric : ℕ) → Gw
gateway ip lifetime metric = record {
  ip = ip;
  lifetime = lifetime;
  metric = metric;
  num_hops = 2;
  dst_id = 7;
}

abbrev gateways : List Gw
gateways = gateway 1 9000 300 ∷ gateway 2 9000 200 ∷ gateway 3 9000 200 ∷ []

update_gw_example :
    (update_gw true 5000 2 8 1 250 gateways ≡ learned 5000 2 8 1 250 (known 2 gateways) gateways)
    × ((update_gw true 5000 2 8 1 250 gateways).1 ≡ is_news 8 250 (known 2 gateways))
    × ((ip : ℕ)
        → known ip (update_gw true 5000 2 8 1 250 gateways).0 ≡ (
            if ip == 2 && is_news 8 250 (known 2 gateways)
            then some (gw_entry 5000 2 8 1 250)
            else known ip gateways))
update_gw_example = update_gw_lem 5000 2 8 1 250 gateways

update_gw_lifetimes-IsBest_example :
    (best : ℕ) × (update_gw_lifetimes 5000 0 gateways ≡ some (best, gateways))
    × IsBest 0 default_ett_metric best gateways
update_gw_lifetimes-IsBest_example =
    update_gw_lifetimes-IsBest 5000 0 gateways (refl, (refl, (refl, tt)))

reads_freed : update_gw_lifetimes 5000 0 (gateway 1 9000 300 ∷ gateway 2 4000 200 ∷ []) ≡ none
unfolding update_gw_lifetimes sweep is_gw
reads_freed = refl
