-- ===== src/TaskQueue/Service.antt =====
-- Tasks from their creation to kfree: create_task with queue_aodv_task or queue_control_task_at_front,
-- as insert_task of task_queue.c and output_handler of packet_out.c call them, and the rounds of the
-- thread of aodv_thread.c, but for what it does with a task.
pub mod Heap
pub mod Refines
use aodv_android.Base.{
  ℕ, zero, suc, Bool, true, false, Option, none, some, List, [], ◌∷◌, unlink, if◌then◌else◌, ◌==◌,
}
use aodv_android.Task.{Task}
use aodv_android.TaskQueue.{
  TaskEntry, TaskQueue, Run, pure, ◌>>=◌, ◌>>◌, get, update, read, new_entry, queue_aodv_task,
  queue_control_task_at_front, get_task,
}

pub data Op : Type 0 where
  arrive arrive_at_front : Task → Op
  serve : Op

-- create_task, with memory: `alloc` is the address that kmalloc gives.
unfoldable pub create : (alloc : List TaskEntry → ℕ) → Task → Run ℕ
create alloc t = do
  q ← get
  update λ q. record q { heap = new_entry (alloc q.heap) t ∷ q.heap }
  pure (alloc q.heap)

unfoldable pub kfree : (p : ℕ) → Run (Unit {0})
kfree p = update λ q. record q { heap = unlink (λ e. e.addr == p) q.heap }

-- A round of the thread: the task that it serves, if there is one.
unfoldable pub serve_task : Run (Option Task)
unfolding get_task read kfree
serve_task = do
  p ← get_task
  if p == 0 then pure none else (do e ← read p; kfree p; pure (some e.task))

unfoldable pub step : (alloc : List TaskEntry → ℕ) → Op → Run (Option Task)
unfolding create queue_aodv_task queue_control_task_at_front serve_task
step alloc (Op.arrive t) = do p ← create alloc t; queue_aodv_task p; pure none
step alloc (Op.arrive_at_front t) = do p ← create alloc t; queue_control_task_at_front p; pure none
step alloc Op.serve = serve_task

-- The tasks that were served.
unfoldable pub run : (alloc : List TaskEntry → ℕ) → List Op → Run (List (Option Task))
unfolding step
run alloc [] = pure []
run alloc (o ∷ ops) = do t ← step alloc o; rest ← run alloc ops; pure (t ∷ rest)

abbrev pub cons_task : Task → Option (List Task) → Option (List Task)
cons_task t none = none
cons_task t (some ts) = some (t ∷ ts)

-- The inner loop of the thread, on a number of rounds: the tasks that it serves until get_task gives
-- NULL; `none` where the rounds run out.
unfoldable pub drain : (rounds : ℕ) → Run (Option (List Task))
unfolding serve_task
drain zero = pure none
drain (suc rounds) = serve_task >>= λ t. elim t [
  | none ↦ pure (some [])
  | some t ↦ drain rounds >>= λ ts. pure (cons_task t ts)
]
