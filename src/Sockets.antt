-- ===== src/Sockets.antt =====
-- socket.c: what the module sends through the socket of its device. `payload`, the source's `data`, are the bytes that stand at
-- the pointer, of which `datalen` are sent.
pub mod Sends
use aodv_android.Base.{
  ℕ, ◌%◌, ◌^◌, Bool, true, false, not, ◌&&◌, Option, none, some, List, [], ◌∷◌, if◌then◌else◌, ◌==◌,
  ltb, take,
}
use aodv_android.Kernel.{Kernel}
use aodv_android.Params.{u16, aodv_port}
use aodv_android.Neighs.{Neigh, find_neigh}

-- The port is in network order.
pub record Datagram : Type 0 where
  pub ip : ℕ
  pub port : ℕ
  pub ttl : ℕ
  pub is_broadcast : Bool
  pub payload : List ℕ

-- The socket of `g_mesh_dev`: its TTL and the flag SOCK_BROADCAST, what the coming calls of
-- sock_wspace give, whether the coming calls of sock_sendmsg succeed, and what was sent, latest
-- first. Past its end a list of answers stands for no space, and for failures.
pub record Socket : Type 0 where
  pub uc_ttl : ℕ
  pub sock_broadcast : Bool
  pub spaces : List ℕ
  pub results : List Bool
  pub sent : List Datagram

abbrev pub space_of : List ℕ → ℕ
space_of [] = 0
space_of (space ∷ rest) = space

abbrev pub others : {A : Type 0} → List A → List A
others [] = []
others (x ∷ xs) = xs

abbrev pub succeeds : List Bool → Bool
succeeds [] = false
succeeds (ok ∷ rest) = ok

-- Whether it succeeded, and the socket behind.
unfoldable pub sock_sendmsg : (ip port : ℕ) → (payload : List ℕ) → Socket → Bool × Socket
sock_sendmsg ip port payload s =
    let asked = record s { results = others s.results } in
    if succeeds s.results
    then (
      true,
      record asked {
        sent =
            record {
              ip = ip;
              port = port;
              ttl = s.uc_ttl;
              is_broadcast = s.sock_broadcast;
              payload = payload;
            }
            ∷ s.sent;
      },
    )
    else (false, asked)

-- The call of sock_wspace: `send` is done where there is enough space.
unfoldable pub where_space : (enough : ℕ → Bool) → (send : Socket → Socket) → Socket → Socket
where_space enough send s =
    let asked = record s { spaces = others s.spaces } in
    if enough (space_of s.spaces) then send asked else asked

abbrev pub fits : (datalen space : ℕ) → Bool
fits datalen space = not (ltb space datalen)

-- With the flag and the TTL set first.
abbrev pub send_as : (is_broadcast : Bool) (ip port ttl : ℕ) (payload : List ℕ) → Socket → Socket
send_as is_broadcast ip port ttl payload s =
    (sock_sendmsg ip port payload (record s { sock_broadcast = is_broadcast; uc_ttl = ttl })).1

-- `g_mesh_dev` is NULL before the device is set up.
abbrev pub on_device : (Socket → Socket) → Option Socket → Option Socket
on_device f none = none
on_device f (some s) = some (f s)

module _ ⦃k : Kernel⦄ where
  abbrev pub to_port : (port : ℕ) → ℕ
  to_port port = k.htons (u16 port)

  -- All functions but local_broadcast return 0; what local_broadcast returns is not used.
  unfoldable pub local_broadcast :
      (broadcast_ip ttl : ℕ) (payload : List ℕ) (datalen : ℕ) → Option Socket → Option Socket
  unfolding sock_sendmsg where_space
  local_broadcast broadcast_ip ttl payload datalen dev =
      if ltb ttl 1
      then dev
      else on_device
          (where_space (fits datalen)
            (send_as true broadcast_ip (to_port aodv_port) ttl (take datalen payload)))
          dev

  -- The TTL and the flag are those of the call before.
  unfoldable pub send2dtn : (mesh_ip port : ℕ) (payload : List ℕ) → Option Socket → Option Socket
  unfolding sock_sendmsg where_space
  send2dtn mesh_ip port payload dev =
      on_device
        (where_space (fits 24) (λ s. (sock_sendmsg mesh_ip (to_port port) (take 24 payload) s).1))
        dev

  -- "Query Location", its final 0, and the byte of `str` that is not written.
  abbrev pub query_text : (junk : ℕ) → List ℕ
  query_text junk =
      81 ∷ 117 ∷ 101 ∷ 114 ∷ 121 ∷ 32 ∷ 76 ∷ 111 ∷ 99 ∷ 97 ∷ 116 ∷ 105 ∷ 111 ∷ 110 ∷ 0 ∷ junk ∷ []

  unfoldable pub query_location : (mesh_ip port junk : ℕ) → Option Socket → Option Socket
  unfolding sock_sendmsg where_space
  query_location mesh_ip port junk dev =
      on_device
        (where_space (fits 16)
          (λ s. (sock_sendmsg mesh_ip (to_port port) (take 16 (query_text junk)) s).1))
        dev

  -- What is done for a neighbour's address only.
  abbrev pub for_neigh :
      Option Neigh → (Option Socket → Option Socket) → Option Socket → Option Socket
  for_neigh none f dev = dev
  for_neigh (some neigh) f dev = f dev

  unfoldable pub send_message :
      (neighs : List Neigh) (dst_ip ttl : ℕ) (payload : List ℕ) (datalen : ℕ)
      → Option Socket
      → Option Socket
  unfolding find_neigh sock_sendmsg where_space
  send_message neighs dst_ip ttl payload datalen dev =
      if ttl == 0
      then dev
      else for_neigh (find_neigh (λ n. n.ip) dst_ip neighs)
          (on_device (
            where_space (fits datalen)
              (send_as false dst_ip (to_port aodv_port) ttl (take datalen payload))))
          dev

  -- The second packet of a probe follows the first only if that was sent.
  unfoldable pub send_two : (dst_ip : ℕ) (payload1 payload2 : List ℕ) → Socket → Socket
  unfolding sock_sendmsg
  send_two dst_ip payload1 payload2 s =
      let first = sock_sendmsg dst_ip (to_port aodv_port) payload1 s in
      if first.0 then (sock_sendmsg dst_ip (to_port aodv_port) payload2 first.1).1 else first.1

  unfoldable pub send_ett_probe :
      (neighs : List Neigh) (dst_ip : ℕ) (payload1 : List ℕ) (datalen1 : ℕ) (payload2 : List ℕ)
      (datalen2 : ℕ)
      → Option Socket
      → Option Socket
  unfolding find_neigh send_two where_space
  send_ett_probe neighs dst_ip payload1 datalen1 payload2 datalen2 dev =
      for_neigh (find_neigh (λ n. n.ip) dst_ip neighs)
        (on_device (
          where_space (λ space. fits datalen1 space && fits datalen2 space)
            (λ s.
              send_two dst_ip (take datalen1 payload1) (take datalen2 payload2)
                (record s { sock_broadcast = false; uc_ttl = 1 }))))
        dev
