-- ===== src/BrkList/Search.antt =====
-- The searches of the broken-link list against a search of the whole list.
use aodv_android.Base.{
  ℕ, ◌≡◌, Bool, true, ◌&&◌, some, List, arith, if◌then◌else◌, ◌==◌, IsSorted, first,
  insert_ordered-Above, find_ordered-first, first-insert_ordered,
}
use aodv_android.BrkList.{
  BrkLink, link_dst, insert_brk_link, find_brk_link, find_first_brk_link_with_dst,
}

abbrev pub links_pair : (src_ip dst_ip : ℕ) → BrkLink → Bool
links_pair src_ip dst_ip b = b.dst_ip == dst_ip && b.src_ip == src_ip

-- On a sorted list find_brk_link is the first entry of the whole list with that source and
-- destination, and find_first_brk_link_with_dst the first with that destination. After
-- insert_brk_link the list is still sorted, and find_brk_link finds the new entry under its own
-- source and destination, and under any other pair what it found before.
pub find_brk_link-first :
    (src_ip dst_ip : ℕ) (new : BrkLink) (links : List BrkLink)
    → IsSorted link_dst links
    → (find_brk_link src_ip dst_ip links ≡ first (links_pair src_ip dst_ip) links)
      × (find_first_brk_link_with_dst dst_ip links ≡ first (λ b. b.dst_ip == dst_ip && true) links)
      × IsSorted link_dst (insert_brk_link new links)
      × (find_brk_link src_ip dst_ip (insert_brk_link new links)
          ≡ (if links_pair src_ip dst_ip new then some new else find_brk_link src_ip dst_ip links))
unfolding find_brk_link find_first_brk_link_with_dst insert_brk_link
find_brk_link-first src_ip dst_ip new links s =
    let sorted = insert_ordered-Above link_dst 0 new links (omega arith) s in
    (
      find_ordered-first link_dst dst_ip 0 _ links s,
      find_ordered-first link_dst dst_ip 0 _ links s,
      sorted,
      rw
          (
            find_ordered-first link_dst dst_ip 0 (λ b. b.src_ip == src_ip) links s,
            find_ordered-first link_dst dst_ip 0 (λ b. b.src_ip == src_ip)
                (insert_brk_link new links) sorted,
          )
          (first-insert_ordered link_dst dst_ip 0 (λ b. b.src_ip == src_ip) new links s),
    )
