-- ===== src/TaskQueue/Service/Refines.antt =====
-- The task queue as the priority queue of its tasks.
use mathlib.Core.Path.{subst}
use aodv_android.Base.{
  eq_self, zero, suc, ◌<◌, arith, length, ℕ, ◌≡◌, ◌==◌, refl, ap, ◌∙◌, Bool, false, Option, none,
  some, List, [], ◌∷◌, ◌++◌, map, unlink, first,
}
use aodv_android.Task.{Task, is_control_task}
use aodv_android.TaskQueue.{TaskEntry, TaskQueue, get_task, new_entry, init_task_queue}
use aodv_android.TaskQueue.Fields.{at, Item, read-runs}
use aodv_android.TaskQueue.Shape.{is_control, laid_items, Sound, Shape}
use aodv_android.TaskQueue.Chains.{}
use aodv_android.TaskQueue.Arrive.{Waits, queue_aodv_task-Shape, queue_control_task_at_front-Shape}
use aodv_android.TaskQueue.Priority.{
  in_order, Ordered, pick-Ordered, pick, picked, left, map_pick, pick-map,
}
use aodv_android.TaskQueue.Serve.{address, Out, get_task-Shape}
use aodv_android.TaskQueue.Service.{drain, Op, create, kfree, serve_task, step, run}
use aodv_android.TaskQueue.Service.Heap.{
  new_entry-SameBut, kfree-SameBut, Sound-SameBut, Apart-none,
}

-- What kmalloc does with memory: the address is not NULL, and no entry stands there.
abbrev pub Allocates : (List TaskEntry → ℕ) → Type 0
Allocates alloc = (h : List TaskEntry) → (at (alloc h) h ≡ none) × ((alloc h == 0) ≡ false)

abbrev pub is_control_of : Task → Bool
is_control_of t = is_control_task t.type

-- The priority queue: what an operation answers, and the tasks after it, oldest first.
abbrev pub answer_of : Op → List Task → Option Task
answer_of (Op.arrive t) ts = none
answer_of (Op.arrive_at_front t) ts = none
answer_of Op.serve ts = picked (pick is_control_of ts)

abbrev pub after : Op → List Task → List Task
after (Op.arrive t) ts = ts ++ t ∷ []
after (Op.arrive_at_front t) ts = t ∷ ts
after Op.serve ts = left (pick is_control_of ts)

abbrev pub answers : List Op → List Task → List (Option Task)
answers [] ts = []
answers (o ∷ ops) ts = answer_of o ts ∷ answers ops (after o ts)

abbrev pub tasks : List Item → List Task
tasks xs = map (λ x. x.task) xs

tasks-append : (xs : List Item) (x : Item) → tasks (xs ++ x ∷ []) ≡ tasks xs ++ x.task ∷ []
tasks-append [] x = refl
tasks-append (y ∷ xs) x = ap (λ ts. y.task ∷ ts) (tasks-append xs x)

-- The queue `q` of the tasks `ts`.
abbrev pub Stands : List Task → TaskQueue → Type 0
Stands ts q = (xs : List Item) × (tasks xs ≡ ts) × Shape xs q

module _ (alloc : List TaskEntry → ℕ) (allocates : Allocates alloc) where
  module _ (h : List TaskEntry) (xs : List Item) (sound : Sound h xs) (t : Task) where
    abbrev grown : List TaskEntry
    grown = new_entry (alloc h) t ∷ h

    abbrev item : Item
    item = record { addr = alloc h; task = t }

    grown-Waits : Shape xs (laid_items grown xs) × Waits item xs (laid_items grown xs)
    unfolding first
    grown-Waits =
        let apart = Apart-none (alloc h) h xs (allocates h).0 sound.0.0 in
        (
          (
            grown,
            refl,
            Sound-SameBut (alloc h) h grown (new_entry-SameBut (alloc h) t h) xs apart sound,
          ),
          ((new_entry (alloc h) t, rw (eq_self (alloc h)) refl, refl), apart, (allocates h).1),
        )

    arrive_lem :
        (q' : TaskQueue) × (step alloc (Op.arrive t) (laid_items h xs) ≡ some (none, q'))
        × Stands (tasks xs ++ t ∷ []) q'
    unfolding step create
    arrive_lem =
        let done =
          queue_aodv_task-Shape xs item (laid_items grown xs) grown-Waits.0 grown-Waits.1 in
        (done.0, rw done.1 refl, (xs ++ item ∷ [], tasks-append xs item, done.2))

    arrive_at_front_lem :
        (q' : TaskQueue) × (step alloc (Op.arrive_at_front t) (laid_items h xs) ≡ some (none, q'))
        × Stands (t ∷ tasks xs) q'
    unfolding step create
    arrive_at_front_lem =
        let done =
          queue_control_task_at_front-Shape xs item (laid_items grown xs) grown-Waits.0
            grown-Waits.1 in
        (done.0, rw done.1 refl, (item ∷ xs, refl, done.2))

freed : ℕ → TaskQueue → TaskQueue
freed p q = record q { heap = unlink (λ e. e.addr == p) q.heap }

serve_picked :
    (o : Option (Item × List Item)) (q q1 : TaskQueue)
    → get_task q ≡ some (address o, q1)
    → Shape (left o) q1
    → Out q1.heap o
    → (q' : TaskQueue) × (serve_task q ≡ some (picked (map_pick (λ x. x.task) o), q'))
      × Stands (left (map_pick (λ x. x.task) o)) q'
unfolding serve_task kfree freed
serve_picked none q q1 e shape out = (q1, rw e refl, ([], refl, shape))
serve_picked (some (x, rest)) q q1 e shape (there, apart, used) = (
  freed x.addr q1,
  rw (e, used, read-runs q1 x.addr there.0 there.1)
      (ap (λ t. some (some t, freed x.addr q1)) there.2),
  (
    rest,
    refl,
    (
      unlink (λ e. e.addr == x.addr) shape.0,
      ap (freed x.addr) shape.1,
      Sound-SameBut x.addr shape.0 _ (kfree-SameBut x.addr shape.0) rest apart shape.2,
    ),
  ),
)

pub serve_lem :
    (xs : List Item) (q : TaskQueue)
    → Shape xs q
    → (q' : TaskQueue) × (serve_task q ≡ some (picked (pick is_control_of (tasks xs)), q'))
      × Stands (left (pick is_control_of (tasks xs))) q'
serve_lem xs q shape =
    let served = get_task-Shape xs q shape in
    rw (pick-map (λ x. x.task) is_control_of xs)
      (serve_picked (pick is_control xs) q served.0 served.1 served.2 served.4)

module _ (alloc : List TaskEntry → ℕ) (allocates : Allocates alloc) where
  pub step_lem :
      (o : Op) (ts : List Task) (q : TaskQueue)
      → Stands ts q
      → (q' : TaskQueue) × (step alloc o q ≡ some (answer_of o ts, q')) × Stands (after o ts) q'
  unfolding step
  step_lem (Op.arrive t) ts q (xs, e, shape) =
      let done = arrive_lem alloc allocates shape.0 xs shape.2 t in
      (
        done.0,
        ap (step alloc (Op.arrive t)) shape.1 ∙ done.1,
        subst (λ ts. Stands (ts ++ t ∷ []) done.0) e done.2,
      )
  step_lem (Op.arrive_at_front t) ts q (xs, e, shape) =
      let done = arrive_at_front_lem alloc allocates shape.0 xs shape.2 t in
      (
        done.0,
        ap (step alloc (Op.arrive_at_front t)) shape.1 ∙ done.1,
        subst (λ ts. Stands (t ∷ ts) done.0) e done.2,
      )
  step_lem Op.serve ts q (xs, e, shape) = rw⁻¹ e (serve_lem xs q shape)

  run-Stands :
      (ops : List Op) (ts : List Task) (q : TaskQueue)
      → Stands ts q
      → (q' : TaskQueue) × (run alloc ops q ≡ some (answers ops ts, q'))
  unfolding run
  run-Stands [] ts q stands = (q, refl)
  run-Stands (o ∷ ops) ts q stands =
      let first_step = step_lem o ts q stands in
      let rest = run-Stands ops (after o ts) first_step.0 first_step.2 in
      (rest.0, rw (first_step.1, rest.1) refl)

  -- Where kmalloc has memory and gives addresses that are not in use, any sequence of arrivals, at
  -- either side, and of rounds of the thread, from init_task_queue, ends without a use of NULL or of
  -- freed memory, and each round serves what a priority queue of the same tasks gives: the oldest
  -- control task, or, without one, the oldest task, or nothing.
  pub run_refines :
      (ops : List Op) (heap : List TaskEntry)
      → (q' : TaskQueue) × (run alloc ops (init_task_queue heap) ≡ some (answers ops [], q'))
  unfolding init_task_queue
  run_refines ops heap =
      run-Stands ops [] (init_task_queue heap)
        ([], refl, (heap, refl, ((tt, tt, tt), (tt, tt), tt)))

serve_task-Stands :
    (ts : List Task) (q : TaskQueue)
    → Stands ts q
    → (q' : TaskQueue) × (serve_task q ≡ some (picked (pick is_control_of ts), q'))
      × Stands (left (pick is_control_of ts)) q'
serve_task-Stands ts q (xs, e, shape) = rw⁻¹ e (serve_lem xs q shape)

abbrev Drained : ℕ → List Task → TaskQueue → Type 0
Drained k ts q =
    (q' : TaskQueue) × (drain k q ≡ some (some (in_order is_control_of ts), q')) × Stands [] q'

drain-pick :
    (k : ℕ) (ts : List Task) (q q1 : TaskQueue) (o : Option (Task × List Task))
    → Ordered is_control_of o ts
    → serve_task q ≡ some (picked o, q1)
    → Stands (left o) q1
    → ((ts : List Task) → length ts < k → (q : TaskQueue) → Stands ts q → Drained k ts q)
    → length ts < suc k
    → Drained (suc k) ts q
unfolding drain
drain-pick k ts q q1 none e run s rest lt = (q1, rw (run, e) refl, s)
drain-pick k ts q q1 (some (t, others)) e run s rest lt =
    let more = rest others (omega (arith, e.1)) q1 s in (more.0, rw (run, more.1, e.0) refl, more.2)

drained : (k : ℕ) (ts : List Task) → length ts < k → (q : TaskQueue) → Stands ts q → Drained k ts q
drained zero ts lt q s = ground arith
drained (suc k) ts lt q s =
    let served = serve_task-Stands ts q s in
    drain-pick k ts q served.0 (pick is_control_of ts) (pick-Ordered is_control_of ts) served.1
      served.2 (drained k) lt

-- From a queue of these tasks in good form the inner loop of the thread, which no arrival
-- interrupts, ends after one round more than the queue has tasks. It serves every task of the queue once: the control tasks first, oldest first, and
-- then the others, oldest first; and it leaves the queue empty.
pub drain-in_order :
    (ts : List Task) (q : TaskQueue)
    → Stands ts q
    → (q' : TaskQueue) × (drain (suc (length ts)) q ≡ some (some (in_order is_control_of ts), q'))
      × Stands [] q'
drain-in_order ts q stands = drained (suc (length ts)) ts (omega arith) q stands
