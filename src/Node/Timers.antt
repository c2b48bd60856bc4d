-- ===== src/Node/Timers.antt =====
-- The operations of timer_queue.c on the state of a node.
use aodv_android.Base.{ℕ, Option, none, some}
use aodv_android.Kernel.{Kernel}
use aodv_android.Task.{Task}
use aodv_android.TimerQueue
use aodv_android.TimerQueue.{queue_timer, simple_timer, directional_timer}
use aodv_android.Node.{Cell, M, pure, ◌>>=◌, get, update, emit, kmalloc, arm}

module _ ⦃k : Kernel⦄ where
  abbrev pub queue_new : Task → Option Cell → M (Unit {0})
  queue_new t none = pure tt
  queue_new t (some c) = update λ n. record n { timers = queue_timer t n.timers }

  unfoldable pub insert_timer_simple : (type delay ip : ℕ) → M (Unit {0})
  insert_timer_simple type delay ip = do
    n ← get
    c ← kmalloc
    queue_new (simple_timer n.now type delay ip) c

  unfoldable pub insert_timer_directional :
      (type delay retries src_ip dst_ip tos : ℕ) → M (Unit {0})
  insert_timer_directional type delay retries src_ip dst_ip tos = do
    n ← get
    c ← kmalloc
    queue_new (directional_timer n.now type delay retries src_ip dst_ip tos) c

  unfoldable pub delete_timer : (src_ip dst_ip tos type : ℕ) → M (Unit {0})
  delete_timer src_ip dst_ip tos type =
      update λ n. record n { timers = TimerQueue.delete_timer src_ip dst_ip tos type n.timers }

  abbrev pub set_timer : Option (ℕ × ℕ) → M (Unit {0})
  set_timer none = pure tt
  set_timer (some (sec, usec)) = emit (arm sec usec)

  unfoldable pub update_timer_queue : M (Unit {0})
  update_timer_queue = do n ← get; set_timer (TimerQueue.update_timer_queue n.now n.timers)
