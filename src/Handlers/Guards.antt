-- ===== src/Handlers/Guards.antt =====
-- What the handlers of route requests and gateway announcements refuse.
use aodv_android.Base.{
  ◌≡◌, refl, ◌<◌, ◌^◌, if◌then◌else◌, Bool-cases, inl, inr, not, ◌&&◌, none, some, leb,
}
use aodv_android.Kernel.{Kernel}
use aodv_android.Message.{Rreq, Rrep, RreqSt}
use aodv_android.Task.{Task}
use aodv_android.Neighs.{find_neigh}
use aodv_android.Handlers.{Status}
use aodv_android.Handlers.Rreq.{
  is_destination, recv_rreq, convert_rreq_to_host, convert_rreq_to_network,
}
use aodv_android.Handlers.Rrep.{convert_rrep_to_host, convert_rrep_to_network}
use aodv_android.Handlers.StRreq.{convert_rreq_to_host_st, convert_rreq_to_network_st}
use aodv_android.Node.{Node}

module _ ⦃k : Kernel⦄ where
  -- The conversions of the route request, the route reply and the gateway announcement to network
  -- order and back leave a packet whose 32-bit fields are below 2 ^ 32 as it was.
  convert_to_host-to_network :
      (q : Rreq) (p : Rrep) (s : RreqSt)
      → q.dst_id < 2 ^ 32
      → q.path_metric < 2 ^ 32
      → p.dst_id < 2 ^ 32
      → p.src_id < 2 ^ 32
      → p.path_metric < 2 ^ 32
      → s.dst_id < 2 ^ 32
      → s.path_metric < 2 ^ 32
      → (convert_rreq_to_host (convert_rreq_to_network q) ≡ q)
        × (convert_rrep_to_host (convert_rrep_to_network p) ≡ p)
        × (convert_rreq_to_host_st (convert_rreq_to_network_st s) ≡ s)
  unfolding convert_rreq_to_host convert_rreq_to_network convert_rrep_to_host
      convert_rrep_to_network convert_rreq_to_host_st convert_rreq_to_network_st
  convert_to_host-to_network q p s a b c d e f g = (
    rw (k.ntohl-htonl q.dst_id a, k.ntohl-htonl q.path_metric b) refl,
    rw (k.ntohl-htonl p.dst_id c, k.ntohl-htonl p.src_id d, k.ntohl-htonl p.path_metric e) refl,
    rw (k.ntohl-htonl s.dst_id f, k.ntohl-htonl s.path_metric g) refl,
  )

  -- recv_rreq answers -ETIMEDOUT, and changes nothing, for a request with a TTL of at most 1 that
  -- this node is not the destination of; and it answers 1, and changes nothing, for any other
  -- request from an address that is no neighbour's.
  recv_rreq-outside :
      (t : Task) (q : Rreq) (n : Node)
      → find_neigh (λ m. m.ip) t.src_ip n.neighs ≡ none
      → recv_rreq t q n
        ≡ some (
          (if leb t.ttl 1 && not (is_destination n (convert_rreq_to_host q))
              then Status.timed_out
              else Status.ret1),
          n,
        )
  unfolding recv_rreq
  recv_rreq-outside t q n e =
      elim (Bool-cases (leb t.ttl 1 && not (is_destination n (convert_rreq_to_host q)))) [
        | inl late ↦ rw late refl
        | inr early ↦ rw (early, e) refl
      ]
