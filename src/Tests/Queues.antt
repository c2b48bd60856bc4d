-- ===== src/Tests/Queues.antt =====
-- The timer queue's theorems at concrete queues.
use aodv_android.Base.{
  ℕ, ◌≤◌, ◌<◌, ◌≡◌, ◌+◌, refl, ◌⊎◌, Bool, true, false, List, [], ◌∷◌, ◌++◌, arith, All, count,
}
use aodv_android.Task.{Task, task_neighbor, task_hello}
use aodv_android.TimerQueue.{
  simple_timer, queue_timer, timer_queue_signal, find_timer, delete_timer, is_timer, resend_delay,
}
use aodv_android.TimerQueue.Order.{IsQueue, queue_timer-IsQueue}
use aodv_android.TimerQueue.Signal.{timer_queue_signal_lem}
use aodv_android.TimerQueue.Delete.{delete_timer_lem}
use aodv_android.Tests.Platform.{platform}

-- At 1,400,000,000,000 milliseconds, where 32 bits have wrapped around.
abbrev start : ℕ
start = 1400000000000

abbrev hello_timer : Task
hello_timer = simple_timer start task_hello 1000 7

abbrev neighbor_timer : Task
neighbor_timer = simple_timer start task_neighbor 4100 9

abbrev timers : List Task
timers = hello_timer ∷ neighbor_timer ∷ []

timers-IsQueue : IsQueue start timers
unfolding simple_timer
timers-IsQueue = record { sorted = omega arith; window = omega arith }

queue_timer-IsQueue_example :
    IsQueue start (queue_timer (simple_timer start task_hello 2000 7) timers)
    × ((p : Task → Bool)
        → count p (queue_timer (simple_timer start task_hello 2000 7) timers)
          ≡ count p (simple_timer start task_hello 2000 7 ∷ timers))
unfolding simple_timer
queue_timer-IsQueue_example =
    queue_timer-IsQueue start (simple_timer start task_hello 2000 7) timers (omega arith)
      timers-IsQueue

timer_queue_signal_example :
    ((timer_queue_signal (start + 1500) timers).0 ++ (timer_queue_signal (start + 1500) timers).1
      ≡ timers)
    × All (λ t. t.time < start + 1500) (timer_queue_signal (start + 1500) timers).0
    × All (λ t. start + 1500 ≤ t.time) (timer_queue_signal (start + 1500) timers).1
timer_queue_signal_example =
    timer_queue_signal_lem start (start + 1500) timers (omega arith) timers-IsQueue

delete_timer_example :
    ((find_timer 9 9 0 task_neighbor timers ≡ false)
      × (delete_timer 9 9 0 task_neighbor timers ≡ timers))
    ⊎ ((t : Task) × (find_timer 9 9 0 task_neighbor timers ≡ true)
        × (is_timer 9 9 0 task_neighbor t ≡ true)
        × ((q : Task → Bool)
            → count q timers ≡ count q (t ∷ delete_timer 9 9 0 task_neighbor timers)))
delete_timer_example = delete_timer_lem 9 9 0 task_neighbor timers

-- The last retry waits for no time at all, the first one 1600 ms and the second 2400 ms.
resend_delays : (resend_delay 2 ≡ 1600) × (resend_delay 1 ≡ 2400) × (resend_delay 0 ≡ 0)
unfolding resend_delay
resend_delays = (refl, refl, refl)
