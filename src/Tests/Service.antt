-- ===== src/Tests/Service.antt =====
-- The task queue with a heap that grows.
use aodv_android.Base.{
  ℕ, suc, ◌+◌, ◌<◌, ◌≡◌, ◌==◌, refl, false, none, some, List, [], ◌∷◌, first, arith,
}
use aodv_android.Task.{Task, create_task, is_control_task, is_one_of, task_send_ett, task_hello}
use aodv_android.TaskQueue.{TaskEntry, TaskQueue, init_task_queue, new_entry}
use aodv_android.TaskQueue.Fields.{at, Item}
use aodv_android.TaskQueue.Shape.{laid_items}
use aodv_android.TaskQueue.Priority.{in_order}
use aodv_android.TaskQueue.Service.{Op, run, drain}
use aodv_android.TaskQueue.Service.Refines.{
  Allocates, Stands, answers, is_control_of, run_refines, drain-in_order,
}

abbrev total : List TaskEntry → ℕ
total [] = 0
total (e ∷ h) = e.addr + total h

abbrev next_free : List TaskEntry → ℕ
next_free h = suc (total h)

at-total : (h : List TaskEntry) (p : ℕ) → total h < p → at p h ≡ none
unfolding first
at-total [] p lt = refl
at-total (e ∷ h) p lt =
    let other : (e.addr == p) ≡ false = ground arith in rw other (at-total h p (omega arith))

next_free-Allocates : Allocates next_free
next_free-Allocates h = (at-total h (next_free h) (omega arith), ground arith)

abbrev probe_task : Task
unfolding create_task
probe_task = create_task 0 task_send_ett

abbrev hello_task : Task
unfolding create_task
hello_task = create_task 0 task_hello

abbrev probe_and_hello : List Op
probe_and_hello =
    Op.arrive probe_task
    ∷ Op.arrive hello_task
    ∷ Op.serve
    ∷ Op.arrive hello_task
    ∷ Op.serve
    ∷ Op.serve
    ∷ Op.serve
    ∷ []

run_refines_example :
    (q' : TaskQueue) × (run next_free probe_and_hello (init_task_queue [])
      ≡ some (answers probe_and_hello [], q'))
run_refines_example = run_refines next_free next_free-Allocates probe_and_hello []

abbrev items : List Item
items = record { addr = 10; task = probe_task } ∷ record { addr = 20; task = hello_task } ∷ []

abbrev two_entries : List TaskEntry
two_entries =
    record (new_entry 10 probe_task) { prev = 20 }
    ∷ record (new_entry 20 hello_task) { next = 10 }
    ∷ []

two_stand : Stands (probe_task ∷ hello_task ∷ []) (laid_items two_entries items)
unfolding first create_task is_control_task is_one_of
two_stand = (
  items,
  refl,
  (
    two_entries,
    refl,
    (
      (
        (
          (record (new_entry 10 probe_task) { prev = 20 }, refl, refl),
          ((record (new_entry 20 hello_task) { next = 10 }, refl, refl), tt),
        ),
        ((refl, tt), (tt, tt)),
        (refl, (refl, tt)),
      ),
      ((refl, (refl, tt)), (refl, tt)),
      tt,
    ),
  ),
)

drain-in_order_example :
    (q' : TaskQueue) × (drain 3 (laid_items two_entries items)
      ≡ some (some (in_order is_control_of (probe_task ∷ hello_task ∷ [])), q'))
    × Stands [] q'
drain-in_order_example =
    drain-in_order (probe_task ∷ hello_task ∷ []) (laid_items two_entries items) two_stand
