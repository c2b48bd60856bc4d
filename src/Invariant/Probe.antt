-- ===== src/Invariant/Probe.antt =====
-- The probes of links keep the form of the tables.
use aodv_android.Base.{ℕ, ◌==◌, ◌&&◌, Bool, true, false, if◌then◌else◌}
use aodv_android.Kernel.{Kernel}
use aodv_android.Params.{no_tos, ett_probes_max, default_ett_metric}
use aodv_android.Message.{SProbe, LProbe, EttInfo}
use aodv_android.Task.{Task, task_send_ett}
use aodv_android.Neighs.{Ett, neigh_ip, find_neigh}
use aodv_android.Ett.{compute_delay, delays_after, compute_rate, new_round}
use aodv_android.Handlers.{refresh_neigh}
use aodv_android.Handlers.Rerr.{gen_rerr}
use aodv_android.Handlers.Neighbours.{start_probes, write_neigh}
use aodv_android.Handlers.Probe.{
  write_ett, read_neigh, next_count, set_interval, send_ett_info, reset_ett, give_up_round,
  use_delay, compute_estimation, send_pair, send_probe, recv_sprobe, reload_cleanup,
  use_measurement, use_pair, recv_lprobe, use_fixed, recv_ett_info,
}
use aodv_android.Node.{pure, ◌>>◌, update, when, deref, kmalloc}
use aodv_android.Node.Timers.{insert_timer_simple, delete_timer, update_timer_queue}
use aodv_android.Invariant.{
  Keeps, bind-Keeps, then-Keeps, if-Keeps, when-Keeps, if_null-Keeps, deref-Keeps,
}
use aodv_android.Invariant.Tables.{kmalloc-Keeps}
use aodv_android.Invariant.Platform.{insert_timer_simple-Keeps, update_timer_queue-Keeps}
use aodv_android.Invariant.Handlers.{refresh_neigh-Keeps}
use aodv_android.Invariant.Rerr.{gen_rerr-Keeps}
use aodv_android.Invariant.Neighbours.{start_probes-Keeps}

write_ett-Keeps : (ip : ℕ) (f : Ett → Ett) → Keeps (write_ett ip f)
write_ett-Keeps ip f n w = w

read_neigh-Keeps : (ip : ℕ) → Keeps (read_neigh ip)
read_neigh-Keeps ip n w = deref-Keeps (find_neigh neigh_ip ip n.neighs) n w

set_interval-Keeps : (ip : ℕ) → Keeps (set_interval ip)
unfolding set_interval
set_interval-Keeps ip n w = w

module _ ⦃k : Kernel⦄ where
  send_ett_info-Keeps : (ip my_rate : ℕ) (fixed : Bool) → Keeps (send_ett_info ip my_rate fixed)
  unfolding send_ett_info
  send_ett_info-Keeps ip my_rate fixed = bind-Keeps kmalloc _ kmalloc-Keeps (λ c.
      if_null-Keeps c (pure tt) _ (λ _ w. w)
        (λ _. bind-Keeps (read_neigh ip) _ (read_neigh-Keeps ip) (λ _ _ w. w)))

  delete_timer-Keeps : (src_ip dst_ip tos type : ℕ) → Keeps (delete_timer src_ip dst_ip tos type)
  unfolding delete_timer
  delete_timer-Keeps src_ip dst_ip tos type n w = w

  pub reset_ett-Keeps : (ip : ℕ) → Keeps (reset_ett ip)
  unfolding reset_ett
  reset_ett-Keeps ip = bind-Keeps (read_neigh ip) _ (read_neigh-Keeps ip) (λ _.
      then-Keeps (delete_timer ip ip no_tos task_send_ett) _
        (delete_timer-Keeps ip ip no_tos task_send_ett)
        (then-Keeps (write_neigh ip _) _ (λ _ w. w)
          (then-Keeps (start_probes ip) _ (start_probes-Keeps ip)
            (then-Keeps (gen_rerr ip) (pure tt) (gen_rerr-Keeps ip) (λ _ w. w)))))

  give_up_round-Keeps : (ip : ℕ) → Keeps (give_up_round ip)
  unfolding give_up_round
  give_up_round-Keeps ip = bind-Keeps (read_neigh ip) _ (read_neigh-Keeps ip) (λ m.
      then-Keeps (if m.ett.reset then reset_ett ip else write_ett ip (new_round true)) _
        (if-Keeps m.ett.reset (reset_ett ip) (write_ett ip (new_round true)) (reset_ett-Keeps ip)
          (write_ett-Keeps ip (new_round true)))
        (bind-Keeps (read_neigh ip) _ (read_neigh-Keeps ip)
          (λ m. send_ett_info-Keeps ip m.send_rate false)))

  use_delay-Keeps : (ip recv_delay : ℕ) → Keeps (use_delay ip recv_delay)
  unfolding use_delay
  use_delay-Keeps ip d = bind-Keeps (read_neigh ip) _ (read_neigh-Keeps ip) (λ m.
      if-Keeps (d == 0 && m.ett.ett_window == ett_probes_max) (give_up_round ip) _
        (give_up_round-Keeps ip)
        (if-Keeps (d == 0) _ _ (λ _ w. w)
          (if-Keeps (d == default_ett_metric) (reset_ett ip) _ (reset_ett-Keeps ip) (
            then-Keeps (write_ett ip (new_round false)) _ (λ _ w. w)
              (bind-Keeps (deref (compute_rate d)) _ (deref-Keeps _) (λ rate.
                then-Keeps (write_neigh ip (λ m. record m { send_rate = rate })) _ (λ _ w. w)
                  (send_ett_info-Keeps ip rate false)))))))

  compute_estimation-Keeps : (ip : ℕ) → Keeps (compute_estimation ip)
  unfolding compute_estimation
  compute_estimation-Keeps ip =
      then-Keeps (write_ett ip _) _ (λ _ w. w)
        (bind-Keeps (read_neigh ip) _ (read_neigh-Keeps ip) (λ m.
          when-Keeps (m.ett.count_rcv == m.ett.ett_window) _ (
            then-Keeps (write_ett ip delays_after) (use_delay ip (compute_delay m.ett)) (λ _ w. w)
              (use_delay-Keeps ip (compute_delay m.ett)))))

  send_pair-Keeps : (ip : ℕ) → Keeps (send_pair ip)
  unfolding send_pair
  send_pair-Keeps ip = bind-Keeps kmalloc _ kmalloc-Keeps (λ s.
      if_null-Keeps s (pure false) _ (λ _ w. w)
        (λ s. bind-Keeps kmalloc _ kmalloc-Keeps (λ l.
          if_null-Keeps l (pure false) _ (λ _ w. w)
            (λ l n w. bind-Keeps (read_neigh ip) _ (read_neigh-Keeps ip) (λ _ _ w. w) n w))))

  pub send_probe-Keeps : (ip : ℕ) → Keeps (send_probe ip)
  unfolding send_probe
  send_probe-Keeps ip n w =
      if_null-Keeps (find_neigh neigh_ip ip n.neighs) (pure tt) _ (λ _ w. w)
        (λ m.
          then-Keeps (update λ n. record n { count_send = next_count n.count_send }) _ (λ _ w. w)
            (bind-Keeps
              (if n.fixed_rate == 0
                then send_pair ip
                else send_ett_info ip n.fixed_rate true >> pure true)
              _
              (if-Keeps (n.fixed_rate == 0) (send_pair ip) _ (send_pair-Keeps ip) (
                then-Keeps (send_ett_info ip n.fixed_rate true) (pure true)
                  (send_ett_info-Keeps ip n.fixed_rate true) (λ _ w. w)))
              (λ ok. when-Keeps ok _ (
                then-Keeps (insert_timer_simple _ _ ip) update_timer_queue
                  (insert_timer_simple-Keeps _ _ ip) update_timer_queue-Keeps))))
        n w

  pub recv_sprobe-Keeps : (t : Task) (p : SProbe) → Keeps (recv_sprobe t p)
  unfolding recv_sprobe
  recv_sprobe-Keeps t p n w =
      if_null-Keeps (find_neigh neigh_ip t.src_ip n.neighs) (pure tt) _ (λ _ w. w) (λ _ _ w. w) n w

  reload_cleanup-Keeps : (ip : ℕ) → Keeps (reload_cleanup ip)
  unfolding reload_cleanup delete_timer
  reload_cleanup-Keeps ip n w =
      then-Keeps (insert_timer_simple _ _ ip) update_timer_queue (insert_timer_simple-Keeps _ _ ip)
        update_timer_queue-Keeps _ w

  use_measurement-Keeps : (ip d : ℕ) → Keeps (use_measurement ip d)
  unfolding use_measurement
  use_measurement-Keeps ip d =
      then-Keeps (write_ett ip _) (compute_estimation ip) (λ _ w. w) (compute_estimation-Keeps ip)

  use_pair-Keeps : (ip : ℕ) (p : LProbe) → Keeps (use_pair ip p)
  unfolding use_pair
  use_pair-Keeps ip p = then-Keeps (reload_cleanup ip) _ (reload_cleanup-Keeps ip) (
      then-Keeps (write_neigh ip _) _ (λ _ w. w)
        (λ n w.
          then-Keeps (when (n.fixed_rate == 0) (use_measurement ip p.last_meas_delay))
            (set_interval ip)
            (when-Keeps (n.fixed_rate == 0) _ (use_measurement-Keeps ip p.last_meas_delay))
            (set_interval-Keeps ip) n w))

  pub recv_lprobe-Keeps : (t : Task) (p : LProbe) → Keeps (recv_lprobe t p)
  unfolding recv_lprobe
  recv_lprobe-Keeps t p n w =
      if_null-Keeps (find_neigh neigh_ip t.src_ip n.neighs) (pure tt) _ (λ _ w. w)
        (λ m.
          then-Keeps (refresh_neigh t.src_ip) _ (refresh_neigh-Keeps t.src_ip)
            (when-Keeps (p.n_probe == m.ett.last_count) _ (use_pair-Keeps t.src_ip p)))
        n w

  use_fixed-Keeps : (ip : ℕ) (p : EttInfo) → Keeps (use_fixed ip p)
  unfolding use_fixed
  use_fixed-Keeps ip p =
      then-Keeps (write_ett ip _) _ (λ _ w. w)
        (then-Keeps (reload_cleanup ip) _ (reload_cleanup-Keeps ip) (
          then-Keeps (write_ett ip _) _ (λ _ w. w)
            (λ n w. when-Keeps (n.fixed_rate == 0) _ (compute_estimation-Keeps ip) n w)))

  pub recv_ett_info-Keeps : (t : Task) (p : EttInfo) → Keeps (recv_ett_info t p)
  unfolding recv_ett_info
  recv_ett_info-Keeps t p n w =
      if_null-Keeps (find_neigh neigh_ip t.src_ip n.neighs) (pure tt) _ (λ _ w. w)
        (λ _. then-Keeps (refresh_neigh t.src_ip) _ (refresh_neigh-Keeps t.src_ip) (
          then-Keeps (write_neigh t.src_ip _) _ (λ _ w. w)
            (then-Keeps (when p.fixed_rate (use_fixed t.src_ip p)) (set_interval t.src_ip)
              (when-Keeps p.fixed_rate _ (use_fixed-Keeps t.src_ip p))
              (set_interval-Keeps t.src_ip))))
        n w
