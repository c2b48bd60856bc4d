-- ===== src/Tests/Tasks.antt =====
-- The task queue at concrete tasks.
use aodv_android.Base.{ℕ, ◌≡◌, ◌==◌, refl, Option, none, some, List, [], ◌∷◌, first, modify, unlink}
use aodv_android.Task.{
  create_task, is_control_task, is_one_of, task_send_ett, task_hello, task_recv_rreq, task_ett_info,
}
use aodv_android.TaskQueue.Freeing.{Cleanup, free_tasks, cleanup_task_queue}
use aodv_android.TaskQueue.{
  TaskEntry, TaskQueue, Run, pure, ◌>>=◌, ◌>>◌, init_task_queue, new_entry, queue_aodv_task,
  queue_control_task_at_front, get_task, read, write, take_between, drop_end, drop_start,
  take_only_control, take_oldest_control, drop_oldest_control, take_control, take_end, link_newest,
  link_oldest, link_newest_control, link_oldest_control,
}

abbrev entry : (addr type : ℕ) → TaskEntry
entry addr type = new_entry addr (create_task 0 type)

abbrev probe_then_hellos : TaskQueue
unfolding init_task_queue
probe_then_hellos = init_task_queue (
    entry 10 task_send_ett
    ∷ entry 20 task_hello
    ∷ entry 30 task_recv_rreq
    ∷ entry 40 task_ett_info
    ∷ entry 50 task_hello
    ∷ [])

abbrev answer : Option (List ℕ × TaskQueue) → Option (List ℕ)
answer none = none
answer (some (answers, q)) = some answers

abbrev served : Run (List ℕ)
served = do
  queue_aodv_task 10
  queue_aodv_task 20
  queue_aodv_task 30
  queue_aodv_task 40
  queue_control_task_at_front 50
  a ← get_task
  b ← get_task
  c ← get_task
  d ← get_task
  e ← get_task
  f ← get_task
  pure (a ∷ b ∷ c ∷ d ∷ e ∷ f ∷ [])

-- Control tasks before the others, each class oldest first.
served_order : answer (served probe_then_hellos) ≡ some (50 ∷ 20 ∷ 30 ∷ 10 ∷ 40 ∷ 0 ∷ [])
unfolding link_newest link_oldest link_newest_control link_oldest_control take_control take_end
    drop_oldest_control queue_aodv_task queue_control_task_at_front get_task read write take_between
    drop_end drop_start take_only_control take_oldest_control is_control_task is_one_of create_task
    first modify init_task_queue
served_order = refl

abbrev cleaned_up : Option (ℕ × TaskQueue) → Cleanup
unfolding cleanup_task_queue
cleaned_up none = Cleanup.fault
cleaned_up (some (a, q)) = cleanup_task_queue (record q { heap = unlink (λ e. e.addr == a) q.heap })

abbrev one_served : Run ℕ
one_served = queue_aodv_task 10 >> (queue_aodv_task 40 >> get_task)

-- cleanup_task_queue follows the `next` of the last task into the task before, which the thread
-- has freed.
cleanup_faults : cleaned_up (one_served probe_then_hellos) ≡ Cleanup.fault
unfolding link_newest link_oldest link_newest_control link_oldest_control take_control take_end
    drop_oldest_control queue_aodv_task get_task read write drop_end take_only_control
    take_oldest_control is_control_task is_one_of create_task first modify unlink init_task_queue
    cleanup_task_queue free_tasks
cleanup_faults = refl
