-- ===== src/Handlers/Probe.antt =====
-- probe_ett.c on the state of a node: pairs of probes measure the delay of a link, and the delays
-- give its rate.
use aodv_android.Base.{ℕ, ◌+◌, ◌*◌, Bool, true, false, ◌&&◌, ◌||◌, if◌then◌else◌, ◌==◌, ltb}
use aodv_android.Kernel.{Kernel, to_network, to_host}
use aodv_android.Params.{
  u8, no_tos, net_diameter, ett_interval, ett_fast_interval, allowed_ett_loss, ett_probes_max,
  default_ett_metric,
}
use aodv_android.Message.{Message, SProbe, LProbe, EttInfo}
use aodv_android.Task.{Task, task_send_ett, task_ett_cleanup}
use aodv_android.Neighs.{Neigh, Ett, neigh_ip, find_neigh}
use aodv_android.Ett.{
  delay_vector_add, compute_delay, delays_after, compute_rate, reset_fields, new_round, pair_delay,
}
use aodv_android.Handlers.{refresh_neigh}
use aodv_android.Handlers.Rerr.{gen_rerr}
use aodv_android.Handlers.Neighbours.{write_neigh, start_probes}
use aodv_android.Node.{M, pure, ◌>>=◌, ◌>>◌, get, update, when, if_null, deref, emit, send, kmalloc}
use aodv_android.Node.Timers.{insert_timer_simple, delete_timer, update_timer_queue}

-- A write to the `ett` of a neighbour.
abbrev pub write_ett : (ip : ℕ) → (Ett → Ett) → M (Unit {0})
write_ett ip f = write_neigh ip (λ m. record m { ett = f m.ett })

-- What the pointer to a neighbour points to.
abbrev pub read_neigh : (ip : ℕ) → M Neigh
read_neigh ip = do n ← get; deref (find_neigh neigh_ip ip n.neighs)

-- An estimation is still to be done in one of the directions.
unfoldable pub next_interval : Neigh → ℕ
next_interval m = if m.recv_rate == 0 || m.send_rate == 0 then ett_fast_interval else ett_interval

unfoldable pub set_interval : (ip : ℕ) → M (Unit {0})
unfolding next_interval
set_interval ip =
    write_neigh ip (λ m. record m { ett = record m.ett { interval = next_interval m } })

unfoldable pub next_count : (count_send : ℕ) → ℕ
next_count count_send = if u8 (count_send + 1) == 100 then 0 else u8 (count_send + 1)

module _ ⦃k : Kernel⦄ where
  unfoldable pub send_ett_info : (ip my_rate : ℕ) (fixed : Bool) → M (Unit {0})
  send_ett_info ip my_rate fixed = do
    c ← kmalloc
    if_null c (pure tt) (λ _. do
      m ← read_neigh ip
      emit (
          send ip net_diameter (
            Message.ett_info (record {
              fixed_rate = fixed;
              my_rate = k.htons my_rate;
              last_meas_delay = to_network m.ett.meas_delay;
            }))))

  -- With a NULL pointer the first read of it faults.
  unfoldable pub reset_ett : (ip : ℕ) → M (Unit {0})
  unfolding reset_fields start_probes gen_rerr delete_timer
  reset_ett ip = do
    m ← read_neigh ip
    delete_timer ip ip no_tos task_send_ett
    write_neigh ip (λ m. record m { ett = reset_fields m.ett; send_rate = 0 })
    start_probes ip
    gen_rerr ip
    pure tt

  -- The window is at its largest, and there is no estimation.
  unfoldable pub give_up_round : (ip : ℕ) → M (Unit {0})
  unfolding reset_ett send_ett_info
  give_up_round ip = do
    m ← read_neigh ip
    if m.ett.reset then reset_ett ip else write_ett ip (new_round true)
    m ← read_neigh ip
    send_ett_info ip m.send_rate false

  -- The answer of compute_delay, in a round that is complete.
  unfoldable pub use_delay : (ip recv_delay : ℕ) → M (Unit {0})
  unfolding give_up_round reset_ett compute_rate send_ett_info
  use_delay ip recv_delay = do
    m ← read_neigh ip
    if recv_delay == 0 && m.ett.ett_window == ett_probes_max
        then give_up_round ip
        else (if recv_delay == 0
            then write_ett ip (λ e. record e { ett_window = wider e.ett_window })
            else (if recv_delay == default_ett_metric then reset_ett ip else (do
              write_ett ip (new_round false)
              rate ← deref (compute_rate recv_delay)
              write_neigh ip (λ m. record m { send_rate = rate })
              send_ett_info ip rate false)))
    where
      wider : ℕ → ℕ
      wider ett_window =
          if ltb ett_probes_max (u8 (ett_window + 2)) then ett_probes_max else u8 (ett_window + 2)

  unfoldable pub compute_estimation : (ip : ℕ) → M (Unit {0})
  unfolding compute_delay delays_after use_delay
  compute_estimation ip = do
    write_ett ip (λ e. record e { count_rcv = u8 (e.count_rcv + 1) })
    m ← read_neigh ip
    when (m.ett.count_rcv == m.ett.ett_window)
        (write_ett ip delays_after >> use_delay ip (compute_delay m.ett))

  -- The times of the messages are what the memory holds; the receiver sets them.
  unfoldable pub send_pair : (ip : ℕ) → M Bool
  send_pair ip = do
    s ← kmalloc
    if_null s (pure false) (λ s. do
      l ← kmalloc
      if_null l (pure false) (λ l. do
        n ← get
        m ← read_neigh ip
        emit (
            send ip 1 (
              Message.s_probe (record {
                n_probe = n.count_send;
                dst_ip = ip;
                src_ip = n.mesh_ip;
                sec = s.junk;
                usec = s.junk;
              })))
        emit (
            send ip 1 (
              Message.l_probe (record {
                n_probe = n.count_send;
                my_rate = k.htons m.send_rate;
                dst_ip = ip;
                src_ip = n.mesh_ip;
                sec = l.junk;
                usec = l.junk;
                last_meas_delay = to_network m.ett.meas_delay;
              })))
        pure true))

  -- Without memory for a pair no timer is set, and no further probe follows.
  unfoldable pub send_probe : (ip : ℕ) → M (Unit {0})
  unfolding next_count send_ett_info send_pair insert_timer_simple update_timer_queue
  send_probe ip = do
    n ← get
    if_null (find_neigh neigh_ip ip n.neighs) (pure tt) (λ m. do
      update λ n. record n { count_send = next_count n.count_send }
      ok ←
          if n.fixed_rate == 0
          then send_pair ip
          else send_ett_info ip n.fixed_rate true >> pure true
      when ok (insert_timer_simple task_send_ett m.ett.interval ip >> update_timer_queue))

  unfoldable pub recv_sprobe : Task → SProbe → M (Unit {0})
  recv_sprobe t p = do
    n ← get
    if_null (find_neigh neigh_ip t.src_ip n.neighs) (pure tt) (λ _.
        write_ett t.src_ip (λ e. record e { last_count = p.n_probe; sec = p.sec; usec = p.usec }))

  unfoldable pub reload_cleanup : (ip : ℕ) → M (Unit {0})
  unfolding insert_timer_simple delete_timer update_timer_queue
  reload_cleanup ip = do
    delete_timer ip ip no_tos task_ett_cleanup
    insert_timer_simple task_ett_cleanup (ett_interval * (1 + allowed_ett_loss) + 100) ip
    update_timer_queue

  -- A delay that the neighbour measured, in network order.
  unfoldable pub use_measurement : (ip last_meas_delay : ℕ) → M (Unit {0})
  unfolding delay_vector_add compute_estimation
  use_measurement ip last_meas_delay = do
    write_ett ip (delay_vector_add (to_host last_meas_delay))
    compute_estimation ip

  -- The second packet of a pair.
  unfoldable pub use_pair : (ip : ℕ) → LProbe → M (Unit {0})
  unfolding reload_cleanup pair_delay use_measurement set_interval
  use_pair ip p = do
    reload_cleanup ip
    write_neigh ip (λ m. record m {
      ett = record m.ett { meas_delay = pair_delay p.sec p.usec m.ett };
      recv_rate = k.ntohs p.my_rate;
    })
    n ← get
    when (n.fixed_rate == 0) (use_measurement ip p.last_meas_delay)
    set_interval ip

  unfoldable pub recv_lprobe : Task → LProbe → M (Unit {0})
  unfolding refresh_neigh use_pair
  recv_lprobe t p = do
    n ← get
    if_null (find_neigh neigh_ip t.src_ip n.neighs) (pure tt)
        (λ m. do refresh_neigh t.src_ip; when (p.n_probe == m.ett.last_count) (use_pair t.src_ip p))

  -- The neighbour sends no pairs.
  unfoldable pub use_fixed : (ip : ℕ) → EttInfo → M (Unit {0})
  unfolding reload_cleanup delay_vector_add compute_estimation
  use_fixed ip p = do
    write_ett ip (λ e. record e { fixed_rate = true })
    reload_cleanup ip
    write_ett ip (delay_vector_add (to_host p.last_meas_delay))
    n ← get
    when (n.fixed_rate == 0) (compute_estimation ip)

  unfoldable pub recv_ett_info : Task → EttInfo → M (Unit {0})
  unfolding refresh_neigh use_fixed set_interval
  recv_ett_info t p = do
    n ← get
    if_null (find_neigh neigh_ip t.src_ip n.neighs) (pure tt) (λ _. do
      refresh_neigh t.src_ip
      write_neigh t.src_ip (λ m. record m { recv_rate = k.ntohs p.my_rate })
      when p.fixed_rate (use_fixed t.src_ip p)
      set_interval t.src_ip)
