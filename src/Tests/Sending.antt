-- ===== src/Tests/Sending.antt =====
-- Messages through a socket that runs full.
use aodv_android.Base.{ℕ, ◌≡◌, refl, true, false, Option, none, some, List, [], ◌∷◌, map, arith}
use aodv_android.Neighs.{Neigh, new_neigh, find_neigh}
use aodv_android.Sockets.{
  Socket, sock_sendmsg, where_space, local_broadcast, send2dtn, send_message, send_two,
  send_ett_probe,
}
use aodv_android.Sockets.Sends.{
  Call, broadcast_call, message_call, probe_call, dtn_call, call, calls, Sends, calls-Sends,
}
use aodv_android.Tests.Platform.{platform}

abbrev neighs : List Neigh
neighs = record (new_neigh 3 240) { ip = 3 } ∷ []

abbrev fresh : Socket
fresh = record {
  uc_ttl = 64;
  sock_broadcast = false;
  spaces = 100 ∷ 100 ∷ 100 ∷ 1 ∷ [];
  results = true ∷ true ∷ false ∷ true ∷ [];
  sent = [];
}

-- A broadcast, a packet for the DTN layer, a probe whose first packet fails, a message to a stranger,
-- and one for which there is no space.
abbrev made : List Call
made =
    broadcast_call 2 (7 ∷ 8 ∷ []) 2
    ∷ dtn_call 10000 (1 ∷ [])
    ∷ probe_call 3 (5 ∷ []) 1 (6 ∷ []) 1
    ∷ message_call 4 30 (9 ∷ []) 1
    ∷ message_call 3 30 (9 ∷ 9 ∷ []) 2
    ∷ []

calls-Sends_example : Sends neighs 1 255 fresh (calls neighs 1 255 made (some fresh))
calls-Sends_example = calls-Sends neighs 1 255 made fresh (omega arith)

-- The TTL of the second datagram is that of the broadcast.
abbrev ttls : Option Socket → List ℕ
ttls none = []
ttls (some s) = map (λ d. d.ttl) s.sent

two_sent : ttls (calls neighs 1 255 made (some fresh)) ≡ 2 ∷ 2 ∷ []
unfolding calls call local_broadcast send2dtn send_message send_ett_probe send_two sock_sendmsg
    where_space find_neigh new_neigh
two_sent = refl
