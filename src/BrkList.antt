-- ===== src/BrkList.antt =====
-- brk_list.c: the list of broken links that wait for a recovery, as the list of its entries from
-- the head. `addr` is the entry's own address.
pub mod Search
pub mod Flush
use aodv_android.Base.{
  ℕ, ◌+◌, Bool, true, false, ◌&&◌, Option, none, some, List, [], ◌∷◌, if◌then◌else◌, ◌==◌,
  insert_ordered, find_ordered, unlink, modify,
}
use aodv_android.Kernel.{Kernel, before, to_network}
use aodv_android.Params.{u64, delete_period, brk_link_timeout}
use aodv_android.RouteTable.{RouteState, is_invalid}

pub record BrkLink : Type 0 where
  pub addr : ℕ
  pub lifetime : ℕ
  pub last_hop : ℕ
  pub dst_ip : ℕ
  pub src_ip : ℕ
  pub dst_id : ℕ
  pub state : RouteState
  pub last_avail_ip : ℕ

abbrev pub link_dst : BrkLink → ℕ
link_dst b = b.dst_ip

unfoldable pub expire_brk_link : (now : ℕ) → BrkLink → BrkLink
expire_brk_link now b = record b {
  lifetime = u64 (now + delete_period);
  state = RouteState.invalid;
}

-- `dead` is the address of the entry.
unfoldable pub remove_brk_link : (dead : ℕ) → List BrkLink → List BrkLink
remove_brk_link dead links = unlink (λ b. b.addr == dead) links

unfoldable pub find_first_brk_link_with_dst : (dst_ip : ℕ) → List BrkLink → Option BrkLink
find_first_brk_link_with_dst dst_ip links = find_ordered link_dst dst_ip (λ _. true) links

unfoldable pub find_brk_link : (src_ip dst_ip : ℕ) → List BrkLink → Option BrkLink
find_brk_link src_ip dst_ip links = find_ordered link_dst dst_ip (λ b. b.src_ip == src_ip) links

unfoldable pub insert_brk_link : BrkLink → List BrkLink → List BrkLink
insert_brk_link new links = insert_ordered link_dst new links

abbrev pub cons_link : BrkLink → Option (List BrkLink) → Option (List BrkLink)
cons_link b none = none
cons_link b (some bs) = some (b ∷ bs)

module _ ⦃k : Kernel⦄ where
  -- `fresh` is the address that kmalloc gives.
  unfoldable pub create_brk_link :
      (now fresh src_ip dst_ip last_hop last_avail : ℕ) → List BrkLink → List BrkLink
  unfolding insert_brk_link
  create_brk_link now fresh src_ip dst_ip last_hop last_avail links = insert_brk_link new links
    where
      new : BrkLink
      new = record {
        addr = fresh;
        lifetime = u64 (now + brk_link_timeout);
        last_hop = last_hop;
        dst_ip = dst_ip;
        src_ip = src_ip;
        dst_id = to_network dst_ip;
        state = RouteState.active;
        last_avail_ip = last_avail;
      }

  -- The walk of flush_brk_list from `tmp_link`, and the entries that it leaves there. `none` is a
  -- read through NULL. The block behind the empty `else` runs for both branches: an expired entry
  -- that is still valid is marked and the walk moves on before it removes, so what it removes is
  -- the entry behind; and the entry behind the removed one is passed over.
  unfoldable pub flush_brk_list : (now : ℕ) → List BrkLink → Option (List BrkLink)
  flush_brk_list now [] = some []
  flush_brk_list now (b ∷ []) = if before b.lifetime now then none else some (b ∷ [])
  flush_brk_list now (b ∷ c ∷ []) =
      let rest = flush_brk_list now (c ∷ []) in
      if before b.lifetime now
      then (if is_invalid b.state then some (c ∷ []) else none)
      else cons_link b rest
  flush_brk_list now (b ∷ c ∷ d ∷ rest) =
      let all = flush_brk_list now (c ∷ d ∷ rest) in
      let behind_c = flush_brk_list now (d ∷ rest) in
      let behind_d = flush_brk_list now rest in
      if before b.lifetime now
      then (if is_invalid b.state
          then cons_link c behind_c
          else cons_link (expire_brk_link now b) (cons_link d behind_d))
      else cons_link b all
