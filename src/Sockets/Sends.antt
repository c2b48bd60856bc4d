-- ===== src/Sockets/Sends.antt =====
-- What the functions of socket.c send.
use aodv_android.Base.{
  ℕ, ◌≤◌, ◌≡◌, refl, ap, ◌∙◌, ◌⊎◌, inl, inr, Bool, true, false, ◌&&◌, Option, none, some, List, [],
  ◌∷◌, ◌++◌, ◌==◌, ltb, take, All, All-append, append_thrice, arith, Bool-cases,
}
use aodv_android.Kernel.{Kernel}
use aodv_android.Params.{aodv_port}
use aodv_android.Neighs.{Neigh, find_neigh}
use aodv_android.Sockets.{
  Datagram, Socket, succeeds, space_of, others, sock_sendmsg, where_space, fits, send_as, on_device,
  for_neigh, to_port, local_broadcast, send2dtn, query_location, query_text, send_message, send_two,
  send_ett_probe,
}

-- From a socket to a later one: the TTL is not 0, and what was sent in between is as P says.
abbrev Follows : (Datagram → Type 0) → Socket → Socket → Type 0
Follows P s s' = (1 ≤ s'.uc_ttl) × ((new : List Datagram) × (s'.sent ≡ new ++ s.sent) × All P new)

sock_sendmsg-sock_broadcast :
    (ip port : ℕ) (payload : List ℕ) (s : Socket)
    → (sock_sendmsg ip port payload s).1.sock_broadcast ≡ s.sock_broadcast
unfolding sock_sendmsg
sock_sendmsg-sock_broadcast ip port payload s = elim (Bool-cases (succeeds s.results)) [
  | inl ok ↦ rw ok refl
  | inr failed ↦ rw failed refl
]

module _ (P : Datagram → Type 0) where
  Follows-same : (s : Socket) → 1 ≤ s.uc_ttl → Follows P s s
  Follows-same s t = (t, ([], refl, tt))

  sock_sendmsg-Follows :
      (ip port : ℕ) (payload : List ℕ) (s : Socket)
      → 1 ≤ s.uc_ttl
      → P (record {
        ip = ip;
        port = port;
        ttl = s.uc_ttl;
        is_broadcast = s.sock_broadcast;
        payload = payload;
      })
      → Follows P s (sock_sendmsg ip port payload s).1
  unfolding sock_sendmsg
  sock_sendmsg-Follows ip port payload s t p = elim (Bool-cases (succeeds s.results)) [
    | inl ok ↦ rw ok (t, (_ ∷ [], refl, (p, tt)))
    | inr failed ↦ rw failed (t, ([], refl, tt))
  ]

  where_space-Follows :
      (enough : ℕ → Bool) (send : Socket → Socket) (s : Socket)
      → 1 ≤ s.uc_ttl
      → ((s' : Socket) → 1 ≤ s'.uc_ttl → Follows P s' (send s'))
      → Follows P s (where_space enough send s)
  unfolding where_space
  where_space-Follows enough send s t h = elim (Bool-cases (enough (space_of s.spaces))) [
    | inl ok ↦ rw ok (h (record s { spaces = others s.spaces }) t)
    | inr full ↦ rw full (t, ([], refl, tt))
  ]

  Follows-twice : (s s' s'' : Socket) → Follows P s s' → Follows P s' s'' → Follows P s s''
  Follows-twice s s' s'' f g = (
    g.0,
    (
      g.1.0 ++ f.1.0,
      g.1.1 ∙ ap (λ ds. g.1.0 ++ ds) f.1.1 ∙ append_thrice g.1.0 f.1.0 s.sent,
      All-append P g.1.0 f.1.0 g.1.2 f.1.2,
    ),
  )

-- The call that a handler makes.
pub data Call : Type 0 where
  broadcast_call : (ttl : ℕ) (payload : List ℕ) (datalen : ℕ) → Call
  message_call : (dst_ip ttl : ℕ) (payload : List ℕ) (datalen : ℕ) → Call
  probe_call :
      (dst_ip : ℕ) (payload1 : List ℕ) (datalen1 : ℕ) (payload2 : List ℕ) (datalen2 : ℕ) → Call
  dtn_call : (port : ℕ) (payload : List ℕ) → Call
  query_call : (port junk : ℕ) → Call

-- The neighbours while the calls are made.
module _ ⦃k : Kernel⦄ (neighs : List Neigh) (mesh_ip broadcast_ip : ℕ) where
  unfoldable pub call : Call → Option Socket → Option Socket
  unfolding local_broadcast send2dtn query_location send_message send_ett_probe
  call (broadcast_call ttl payload datalen) dev =
      local_broadcast broadcast_ip ttl payload datalen dev
  call (message_call dst_ip ttl payload datalen) dev =
      send_message neighs dst_ip ttl payload datalen dev
  call (probe_call dst_ip payload1 datalen1 payload2 datalen2) dev =
      send_ett_probe neighs dst_ip payload1 datalen1 payload2 datalen2 dev
  call (dtn_call port payload) dev = send2dtn mesh_ip port payload dev
  call (query_call port junk) dev = query_location mesh_ip port junk dev

  unfoldable pub calls : List Call → Option Socket → Option Socket
  unfolding call
  calls [] dev = dev
  calls (c ∷ cs) dev = calls cs (call c dev)

  abbrev IsNeigh : ℕ → Type 0
  IsNeigh ip = (n : Neigh) × (find_neigh (λ n. n.ip) ip neighs ≡ some n)

  -- To the node itself, for the DTN layer; to all; or to a neighbour.
  abbrev pub Proper : Datagram → Type 0
  Proper d =
      (1 ≤ d.ttl)
      × ((d.ip ≡ mesh_ip)
          ⊎ ((d.port ≡ to_port aodv_port)
              × (((d.is_broadcast ≡ true) × (d.ip ≡ broadcast_ip))
                  ⊎ ((d.is_broadcast ≡ false) × IsNeigh d.ip))))

  abbrev pub Sends : Socket → Option Socket → Type 0
  Sends s none = ⊥
  Sends s (some s') = Follows Proper s s'

  for_neigh-Sends :
      (o : Option Neigh) (f : Socket → Socket) (s : Socket)
      → 1 ≤ s.uc_ttl
      → ((n : Neigh) → o ≡ some n → Follows Proper s (f s))
      → Sends s (for_neigh o (on_device f) (some s))
  for_neigh-Sends none f s t h = Follows-same Proper s t
  for_neigh-Sends (some n) f s t h = h n refl

  send_two-Follows :
      (dst_ip : ℕ) (payload1 payload2 : List ℕ) (s : Socket)
      → 1 ≤ s.uc_ttl
      → s.sock_broadcast ≡ false
      → IsNeigh dst_ip
      → Follows Proper s (send_two dst_ip payload1 payload2 s)
  unfolding send_two
  send_two-Follows dst_ip payload1 payload2 s t b h =
      let port = to_port aodv_port in
      let first = sock_sendmsg dst_ip port payload1 s in
      let sent_first =
        sock_sendmsg-Follows Proper dst_ip port payload1 s t (t, inr (refl, inr (b, h))) in
      elim (Bool-cases (sock_sendmsg dst_ip port payload1 s).0) [
        | inl ok ↦
            let flag = sock_sendmsg-sock_broadcast dst_ip port payload1 s ∙ b in
            rw ok (
              Follows-twice Proper s first.1 (sock_sendmsg dst_ip port payload2 first.1).1
                sent_first
                (sock_sendmsg-Follows Proper dst_ip port payload2 first.1 sent_first.0
                  (sent_first.0, inr (refl, inr (flag, h)))))
        | inr failed ↦ rw failed sent_first
      ]

  call-Sends : (c : Call) (s : Socket) → 1 ≤ s.uc_ttl → Sends s (call c (some s))
  unfolding call
  call-Sends (broadcast_call ttl payload datalen) s t = elim (Bool-cases (ltb ttl 1)) [
    | inl zero_ttl ↦ rw zero_ttl (Follows-same Proper s t)
    | inr positive ↦
        let pos : 1 ≤ ttl = ground arith in
        rw positive (
          where_space-Follows Proper (fits datalen)
            (send_as true broadcast_ip (to_port aodv_port) ttl (take datalen payload)) s t
            (λ s' _.
              sock_sendmsg-Follows Proper broadcast_ip (to_port aodv_port) (take datalen payload)
                (record s' { sock_broadcast = true; uc_ttl = ttl }) pos
                (pos, inr (refl, inl (refl, refl)))))
  ]
  call-Sends (message_call dst_ip ttl payload datalen) s t = elim (Bool-cases (ttl == 0)) [
    | inl zero_ttl ↦ rw zero_ttl (Follows-same Proper s t)
    | inr positive ↦
        let pos : 1 ≤ ttl = ground arith in
        rw positive (
          for_neigh-Sends (find_neigh (λ n. n.ip) dst_ip neighs)
            (where_space (fits datalen)
              (send_as false dst_ip (to_port aodv_port) ttl (take datalen payload)))
            s t
            (λ n known.
              where_space-Follows Proper (fits datalen)
                (send_as false dst_ip (to_port aodv_port) ttl (take datalen payload)) s t
                (λ s' _.
                  sock_sendmsg-Follows Proper dst_ip (to_port aodv_port) (take datalen payload)
                    (record s' { sock_broadcast = false; uc_ttl = ttl }) pos
                    (pos, inr (refl, inr (refl, (n, known)))))))
  ]
  call-Sends (probe_call dst_ip payload1 datalen1 payload2 datalen2) s t =
      let enough : ℕ → Bool = λ space. fits datalen1 space && fits datalen2 space in
      let send : Socket → Socket = λ s.
        send_two dst_ip (take datalen1 payload1) (take datalen2 payload2)
          (record s { sock_broadcast = false; uc_ttl = 1 }) in
      for_neigh-Sends (find_neigh (λ n. n.ip) dst_ip neighs) (where_space enough send) s t
        (λ n known. where_space-Follows Proper enough send s t (λ s' _.
          send_two-Follows dst_ip (take datalen1 payload1) (take datalen2 payload2)
            (record s' { sock_broadcast = false; uc_ttl = 1 }) (omega arith) refl (n, known)))
  call-Sends (dtn_call port payload) s t =
      where_space-Follows Proper (fits 24)
        (λ s. (sock_sendmsg mesh_ip (to_port port) (take 24 payload) s).1) s t
        (λ s' t'.
          sock_sendmsg-Follows Proper mesh_ip (to_port port) (take 24 payload) s' t' (t', inl refl))
  call-Sends (query_call port junk) s t =
      where_space-Follows Proper (fits 16)
        (λ s. (sock_sendmsg mesh_ip (to_port port) (take 16 (query_text junk)) s).1) s t
        (λ s' t'.
          sock_sendmsg-Follows Proper mesh_ip (to_port port) (take 16 (query_text junk)) s' t'
            (t', inl refl))

  then_Sends : (s s' : Socket) (o : Option Socket) → Follows Proper s s' → Sends s' o → Sends s o
  then_Sends s s' none f e = elim e [ ]
  then_Sends s s' (some s'') f g = Follows-twice Proper s s' s'' f g

  behind_Sends :
      (s : Socket) (o : Option Socket) (rest : Option Socket → Option Socket)
      → Sends s o
      → ((s' : Socket) → 1 ≤ s'.uc_ttl → Sends s' (rest (some s')))
      → Sends s (rest o)
  behind_Sends s none rest e h = elim e [ ]
  behind_Sends s (some s') rest f h = then_Sends s s' (rest (some s')) f (h s' f.0)

  -- From a socket whose TTL is not 0, whatever the handlers call while the neighbours stay the same:
  -- no datagram leaves with a TTL of 0, also none to the DTN layer, which goes out with the TTL that the
  -- call before has left; and each goes to the node itself, or from the AODV port as a broadcast to the
  -- broadcast address, or without that flag to a neighbour. The TTL of the socket is not 0 behind.
  pub calls-Sends : (cs : List Call) (s : Socket) → 1 ≤ s.uc_ttl → Sends s (calls cs (some s))
  unfolding calls
  calls-Sends [] s t = Follows-same Proper s t
  calls-Sends (c ∷ cs) s t =
      behind_Sends s (call c (some s)) (calls cs) (call-Sends c s t) (λ s' t'. calls-Sends cs s' t')
