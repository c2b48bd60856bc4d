-- ===== src/Hooks/Input.antt =====
-- input_handler and packet_in of packet_in.c, and insert_task of task_queue.c.
use aodv_android.Base.{ℕ, ◌+◌, ◌*◌, ◌^◌, not, ◌&&◌, Option, none, some, if◌then◌else◌, ◌==◌}
use aodv_android.Kernel.{Kernel}
use aodv_android.Params.{u8, rrep_timer, aodv_port}
use aodv_android.Message.{Message}
use aodv_android.Task.{Task, task_dtn_hello, task_send_rrep, create_task}
use aodv_android.Handlers.Hello.{is_listed}
use aodv_android.Hooks.{
  Verdict, Answer, Packet, Sizes, message_type, stamp, valid_aodv_packet, answer,
}
use aodv_android.Node.{M, pure, ◌>>=◌, ◌>>◌, get, update, when, if_null, kmalloc}
use aodv_android.Node.Timers.{insert_timer_simple, insert_timer_directional, update_timer_queue}

-- The task with the packet's addresses and its data.
abbrev pub packet_task : (now : ℕ) → Packet → Message → Task
packet_task now p m = record (create_task now (message_type m)) {
  src_ip = p.saddr;
  dst_ip = p.daddr;
  ttl = p.ttl;
  payload = some m;
}

-- Without memory for the task or for its data there is no task.
unfoldable pub insert_task : Packet → Message → M (Option Task)
unfolding create_task message_type
insert_task p m = do
  n ← get
  c ← kmalloc
  if_null c (pure none)
      (λ _. do d ← kmalloc; if_null d (pure none) (λ _. pure (some (packet_task n.now p m))))

-- NF_ACCEPT also without a task.
unfoldable pub packet_in : Sizes → (tv_sec tv_usec : ℕ) → Packet → M Answer
unfolding insert_task stamp valid_aodv_packet
packet_in z tv_sec tv_usec p = if_null p.message (pure (answer Verdict.drop)) (λ m.
    if valid_aodv_packet z p.size (some m)
    then (do
      t ← insert_task p (stamp tv_sec tv_usec m)
      pure (record { verdict = Verdict.accept; task = t }))
    else pure (answer Verdict.drop))

-- 192.168.1.255, as a little-endian machine reads it.
abbrev pub dtn_broadcast : ℕ
dtn_broadcast = 192 + 168 * 2 ^ 8 + 1 * 2 ^ 16 + 255 * 2 ^ 24

module _ ⦃k : Kernel⦄ where
  -- The messages of the DTN layer. `t` of the code is cleared when `dtn_register` is set, which is for
  -- good.
  unfoldable pub serve_dtn : Packet → M (Unit {0})
  unfolding insert_timer_simple insert_timer_directional update_timer_queue
  serve_dtn p = do
    n ← get
    when (n.dtn_register == 0 && p.dest == k.htons 9999) (update λ n. record n { dtn_register = 1 })
    n ← get
    when (not (n.dtn_register == 0) && p.dest == k.htons 10001)
        (insert_timer_simple task_dtn_hello 0 n.mesh_ip >> update_timer_queue)
    when (not (n.dtn_register == 0) && p.dest == k.htons 10004) (do
      update λ n. record n { longitude = p.words.2; latitude = p.words.3 }
      insert_timer_directional task_send_rrep rrep_timer 0 p.words.0 n.dtn_hello_ip (u8 p.words.1)
      update_timer_queue)

  -- `local_ip` is the first address of the device; the time is the packet's arrival.
  unfoldable pub input_handler : Sizes → (local_ip tv_sec tv_usec : ℕ) → Packet → M Answer
  unfolding serve_dtn packet_in
  input_handler z local_ip tv_sec tv_usec p = do
    n ← get
    if n.initialized
        then (do
          serve_dtn p
          if p.dest == k.htons 9556 && p.daddr == dtn_broadcast && is_listed p.saddr n.dtn_blacklist
              then pure (answer Verdict.drop)
              else (if p.is_udp
                    && p.is_ip
                    && p.dest == k.htons aodv_port
                    && not (p.saddr == local_ip)
                  then packet_in z tv_sec tv_usec p
                  else pure (answer Verdict.accept)))
        else pure (answer Verdict.accept)
