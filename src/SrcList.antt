-- ===== src/SrcList.antt =====
-- src_list.c, the part without the kernel's policy rules: the traffic sources and the route table
-- that each has, as the list at `src_list` from its head.
pub mod Tables
use aodv_android.Base.{
  ℕ, zero, suc, ◌+◌, Bool, true, false, Option, none, some, List, [], ◌∷◌, if◌then◌else◌, ◌==◌,
  unlink, modify,
}
use aodv_android.Params.{max_route_tables}

-- `num_routes` is an `int` that the module keeps from falling below zero.
pub record SrcEntry : Type 0 where
  pub ip : ℕ
  pub rt_table : ℕ
  pub num_routes : ℕ

unfoldable pub find_src_list_entry : (ip : ℕ) → List SrcEntry → Option SrcEntry
find_src_list_entry ip [] = none
find_src_list_entry ip (s ∷ ss) = if s.ip == ip then some s else find_src_list_entry ip ss

unfoldable pub find_empty_rttable : (index : ℕ) → List SrcEntry → Bool
find_empty_rttable index [] = true
find_empty_rttable index (s ∷ ss) =
    if s.rt_table == index then false else find_empty_rttable index ss

-- The loop of find_first_rttable from `rttable`, with the rounds that are left.
unfoldable pub first_empty : (rounds rttable : ℕ) → List SrcEntry → ℕ
first_empty zero rttable srcs = rttable
first_empty (suc rounds) rttable srcs =
    let next = first_empty rounds (rttable + 1) srcs in
    if find_empty_rttable rttable srcs then rttable else next

unfoldable pub find_first_rttable : List SrcEntry → ℕ
unfolding first_empty
find_first_rttable srcs = first_empty max_route_tables 1 srcs

-- A write through the pointer that find_src_list_entry gives.
unfoldable pub update_src : (ip : ℕ) → (SrcEntry → SrcEntry) → List SrcEntry → List SrcEntry
update_src ip f srcs = modify (λ s. s.ip == ip) f srcs

-- The list after delete_src_list_entry.
unfoldable pub unlink_src : (ip : ℕ) → List SrcEntry → List SrcEntry
unlink_src ip srcs = unlink (λ s. s.ip == ip) srcs
