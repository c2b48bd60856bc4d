-- ===== src/Hooks/Arrivals.antt =====
-- What input_handler puts into the queue.
use aodv_android.Base.{
  ℕ, ◌≡◌, refl, ◌⊎◌, inl, inr, true, false, not, ◌&&◌, Option, none, some, if◌then◌else◌, ◌==◌,
  arith, Bool-cases, ==_iff, ◌∙◌,
}
use aodv_android.Kernel.{Kernel}
use aodv_android.Params.{aodv_port}
use aodv_android.Message.{Message}
use aodv_android.Task.{Task}
use aodv_android.Hooks.{
  Verdict, Answer, Packet, Sizes, message_size, message_type, stamp, valid_aodv_packet, answer,
}
use aodv_android.Handlers.Hello.{is_listed}
use aodv_android.Hooks.Input.{
  packet_task, dtn_broadcast, insert_task, packet_in, serve_dtn, input_handler,
}
use aodv_android.Node.{Node, Cell, pure, ◌>>=◌, if_null, kmalloc}
use aodv_android.Hooks.Answers.{Answered, Answered-and_then, if-Answered, bind-Answered}

-- No task; or the packet came to AODVPORT from another node, its size is that of a message of its type
-- (for a hello, with all its extensions), and the task has its sender, its type and the message with
-- the time of arrival.
abbrev pub Sound : Kernel → Sizes → (local_ip tv_sec tv_usec : ℕ) → Packet → Answer → Type 0
Sound k z local_ip tv_sec tv_usec p a =
    (a.task ≡ none)
    ⊎ ((m : Message) × (t : Task) × (a.task ≡ some t)
        × (p.message ≡ some m)
        × (p.size ≡ message_size z m)
        × ((p.dest == k.htons aodv_port) ≡ true)
        × ((p.saddr == local_ip) ≡ false)
        × (t.src_ip ≡ p.saddr)
        × (t.type ≡ message_type m)
        × (t.payload ≡ some (stamp tv_sec tv_usec m)))

stamp-message_type : (sec usec : ℕ) (m : Message) → message_type (stamp sec usec m) ≡ message_type m
unfolding stamp message_type
stamp-message_type sec usec (Message.st_rreq p) = refl
stamp-message_type sec usec (Message.rrep p) = refl
stamp-message_type sec usec (Message.rerr p) = refl
stamp-message_type sec usec (Message.hello p) = refl
stamp-message_type sec usec (Message.rcvp p) = refl
stamp-message_type sec usec (Message.rrdp p) = refl
stamp-message_type sec usec (Message.s_probe p) = refl
stamp-message_type sec usec (Message.l_probe p) = refl
stamp-message_type sec usec (Message.rreq p) = refl
stamp-message_type sec usec (Message.ett_info p) = refl

abbrev Inserted : Packet → Message → Option Task → Type 0
Inserted p m o =
    (o ≡ none)
    ⊎ ((t : Task) × (o ≡ some t)
        × (t.src_ip ≡ p.saddr)
        × (t.type ≡ message_type m)
        × (t.payload ≡ some m))

insert_task-Inserted :
    (p : Packet) (m : Message) (n : Node) → Answered (Inserted p m) (insert_task p m n)
unfolding insert_task
insert_task-Inserted p m n = bind-Answered (Inserted p m) kmalloc _ (λ c n'. with_task c n') n
  where
    with_data :
        (d : Option Cell) (n' : Node)
        → Answered
            (Inserted p m)
            (if_null d (pure none) (λ _. pure (some (packet_task n.now p m))) n')
    with_data none n' = inl refl
    with_data (some d) n' = inr (packet_task n.now p m, refl, refl, refl, refl)

    with_task :
        (c : Option Cell) (n' : Node)
        → Answered (Inserted p m) (
            if_null c
              (pure none)
              (λ _.
                kmalloc >>= λ d. if_null d (pure none) (λ _. pure (some (packet_task n.now p m))))
              n')
    with_task none n' = inl refl
    with_task (some c) n' = bind-Answered (Inserted p m) kmalloc _ with_data n'

module _ ⦃k : Kernel⦄ (z : Sizes) (local_ip tv_sec tv_usec : ℕ) (p : Packet) where
  packet_in-Sound :
      (n : Node)
      → (p.dest == k.htons aodv_port) ≡ true
      → (p.saddr == local_ip) ≡ false
      → Answered (Sound k z local_ip tv_sec tv_usec p) (packet_in z tv_sec tv_usec p n)
  unfolding packet_in valid_aodv_packet
  packet_in-Sound n to_us foreign = with_message p.message refl
    where
      with_task :
          (m : Message)
          → p.message ≡ some m
          → (p.size == message_size z m) ≡ true
          → (t : Option Task) → Inserted p (stamp tv_sec tv_usec m) t
          → Sound k z local_ip tv_sec tv_usec p (record { verdict = Verdict.accept; task = t })
      with_task m e fits t (inl e') = inl e'
      with_task m e fits t (inr (t', e', same_src, same_type, same_data)) = inr (
        m,
        t',
        e',
        e,
        (==_iff p.size (message_size z m)).0 fits,
        to_us,
        foreign,
        same_src,
        same_type ∙ stamp-message_type tv_sec tv_usec m,
        same_data,
      )

      with_message :
          (o : Option Message)
          → p.message ≡ o
          → Answered (Sound k z local_ip tv_sec tv_usec p) (
              if_null o
                (pure (answer Verdict.drop))
                (λ m.
                  if valid_aodv_packet z p.size (some m)
                  then (insert_task p (stamp tv_sec tv_usec m) >>= λ t.
                      pure (record { verdict = Verdict.accept; task = t }))
                  else pure (answer Verdict.drop))
                n)
      with_message none e = inl refl
      with_message (some m) e = elim (Bool-cases (p.size == message_size z m)) [
        | inr bad ↦ rw bad (inl refl)
        | inl fits ↦ rw fits (
            Answered-and_then (Inserted p (stamp tv_sec tv_usec m))
              (Sound k z local_ip tv_sec tv_usec p) (insert_task p (stamp tv_sec tv_usec m) n) _
              (insert_task-Inserted p (stamp tv_sec tv_usec m) n) (λ t n'. with_task m e fits t))
      ]

  -- The task that input_handler puts into the queue, if it does: the packet came to AODVPORT from
  -- another node, its size is that of a message of its type (for a hello, with all its extensions), and
  -- the task has its sender, its type and the message, with the time of arrival on a probe.
  pub input_handler-Sound :
      (n : Node)
      → Answered (Sound k z local_ip tv_sec tv_usec p) (input_handler z local_ip tv_sec tv_usec p n)
  unfolding input_handler
  input_handler-Sound n =
      if-Answered good n.initialized _ (pure (answer Verdict.accept)) n
        (λ _.
          bind-Answered good (serve_dtn p) _
            (λ _ n'.
              if-Answered good
                (p.dest == k.htons 9556
                  && p.daddr == dtn_broadcast
                  && is_listed p.saddr n.dtn_blacklist)
                (pure (answer Verdict.drop)) _ n' (λ _. inl refl)
                (λ _.
                  if-Answered good
                    (p.is_udp
                      && p.is_ip
                      && p.dest == k.htons aodv_port
                      && not (p.saddr == local_ip))
                    (packet_in z tv_sec tv_usec p) (pure (answer Verdict.accept)) n'
                    (λ h. packet_in-Sound n' (ground (arith, h)) (ground (arith, h)))
                    (λ _. inl refl)))
            n)
        (λ _. inl refl)
    where
      good : Answer → Type 0
      good = Sound k z local_ip tv_sec tv_usec p
