-- ===== src/TimerQueue.antt =====
-- timer_queue.c: the list `timer_queue` of tasks that wait for their time, and the operations on it.
-- The list is the value of each operation; the locks are left out.
pub mod Order
pub mod Delete
pub mod Signal
use Prim.Native.Nat.{bit_xor}
use aodv_android.Base.{
  ℕ, ◌+◌, ◌-◌, ◌*◌, ◌/◌, ◌%◌, ◌^◌, Bool, true, false, ◌&&◌, Option, none, some, List, [], ◌∷◌,
  if◌then◌else◌, ◌==◌, leb, unlink, first,
}
use aodv_android.Kernel.{Kernel, before, after}
use aodv_android.Params.{u64, net_traversal_time, rreq_retries, no_tos}
use aodv_android.Task.{Task, create_task, task_resend_rreq}

module _ ⦃k : Kernel⦄ where
  -- The due head of the queue, and the rest of it.
  unfoldable pub first_timer_due : ℕ → List Task → Option (Task × List Task)
  first_timer_due now [] = none
  first_timer_due now (t ∷ ts) = if before t.time now then some (t, ts) else none

  -- The loop of timer_queue_signal: the tasks that are handed to insert_task_from_timer, in order,
  -- and the queue that is left. The list is its own bound on the rounds.
  unfoldable pub timer_queue_signal : ℕ → List Task → List Task × List Task
  timer_queue_signal now [] = ([], [])
  timer_queue_signal now (t ∷ ts) =
      let (due, rest) = timer_queue_signal now ts in
      if before t.time now then (t ∷ due, rest) else ([], t ∷ ts)

  -- The delay that update_timer_queue sets the kernel timer to, in seconds and microseconds.
  unfoldable pub update_timer_queue : ℕ → List Task → Option (ℕ × ℕ)
  update_timer_queue now [] = none
  update_timer_queue now (t ∷ ts) =
      if before t.time now
      then some (0, 1)
      else (let wait = u64 (t.time + (2 ^ 64 - now)) in some (wait / 1000, wait % 1000 * 1000))

  unfoldable pub queue_timer : Task → List Task → List Task
  queue_timer new [] = new ∷ []
  queue_timer new (t ∷ ts) = if after new.time t.time then t ∷ queue_timer new ts else new ∷ t ∷ ts

-- The task of insert_timer_simple.
unfoldable pub simple_timer : (now type delay ip : ℕ) → Task
unfolding create_task
simple_timer now type delay ip = record (create_task now type) {
  src_ip = ip;
  dst_ip = ip;
  tos = no_tos;
  time = u64 (now + delay);
}

-- `(2 ^ (RREQ_RETRIES - retries)) * NET_TRAVERSAL_TIME` of C, as it is added to a 64-bit number:
-- `^` is the exclusive or, and below zero the `int` is its 32-bit pattern, sign-extended.
unfoldable pub resend_delay : ℕ → ℕ
resend_delay retries =
    if leb retries rreq_retries
    then bit_xor 2 (rreq_retries - retries) * net_traversal_time
    else 2 ^ 64 - (2 ^ 32 - bit_xor 2 (2 ^ 32 + rreq_retries - retries)) * net_traversal_time

-- The task of insert_timer_directional.
unfoldable pub directional_timer : (now type delay retries src_ip dst_ip tos : ℕ) → Task
unfolding create_task resend_delay
directional_timer now type delay retries src_ip dst_ip tos =
    if delay == 0 && type == task_resend_rreq
    then record timer { retries = retries; ttl = 30; time = u64 (now + resend_delay retries) }
    else record timer { time = u64 (now + delay) }
  where
    timer : Task
    timer = record (create_task now type) { src_ip = src_ip; dst_ip = dst_ip; tos = tos }

-- The test of find_timer and delete_timer.
abbrev pub is_timer : (src_ip dst_ip tos type : ℕ) → Task → Bool
is_timer src_ip dst_ip tos type t =
    t.src_ip == src_ip && t.dst_ip == dst_ip && t.tos == tos && t.type == type

unfoldable pub find_timer : (src_ip dst_ip tos type : ℕ) → List Task → Bool
find_timer src_ip dst_ip tos type [] = false
find_timer src_ip dst_ip tos type (t ∷ ts) =
    if is_timer src_ip dst_ip tos type t then true else find_timer src_ip dst_ip tos type ts

-- The first entry that matches is unlinked.
unfoldable pub delete_timer : (src_ip dst_ip tos type : ℕ) → List Task → List Task
unfolding unlink
delete_timer src_ip dst_ip tos type ts = unlink (is_timer src_ip dst_ip tos type) ts
