-- ===== src/TaskQueue/Freeing.antt =====
-- cleanup_task_queue of task_queue.c.
use aodv_android.Base.{
  ℕ, zero, suc, if◌then◌else◌, ◌≡◌, ◌≢◌, ◌<◌, refl, ap, Bool, Option, none, some, List, [], ◌∷◌,
  length, first, unlink, ◌==◌, arith, Bool-cases, inl, inr,
}
use aodv_android.TaskQueue.{TaskEntry, TaskQueue}

-- The loop of cleanup_task_queue, on a number of rounds: it ends with the heap that is left, by a use
-- of freed memory, or not at all.
pub data Cleanup : Type 0 where
  cleaned : List TaskEntry → Cleanup
  fault : Cleanup
  goes_on : Cleanup

abbrev pub freed : Option TaskEntry → (TaskEntry → Cleanup) → Cleanup
freed none f = Cleanup.fault
freed (some e) f = f e

unfoldable pub free_tasks : (rounds tmp : ℕ) → List TaskEntry → Cleanup
free_tasks zero tmp heap = Cleanup.goes_on
free_tasks (suc rounds) tmp heap =
    let rest = free_tasks rounds in
    if tmp == 0
    then Cleanup.cleaned heap
    else freed (first (λ e. e.addr == tmp) heap)
        (λ e. rest e.next (unlink (λ e. e.addr == tmp) heap))

unfoldable pub cleanup_task_queue : TaskQueue → Cleanup
unfolding free_tasks
cleanup_task_queue q = free_tasks (suc (length q.heap)) q.task_q q.heap

length-unlink :
    (p : TaskEntry → Bool) (es : List TaskEntry) (e : TaskEntry)
    → first p es ≡ some e
    → length es ≡ suc (length (unlink p es))
unfolding first unlink
length-unlink p [] e h = ground arith
length-unlink p (x ∷ es) e h = elim (Bool-cases (p x)) [
  | inl hit ↦ rw hit refl
  | inr miss ↦ rw miss (ap suc (length-unlink p es e (rw miss at h)))
]

free_tasks_ends :
    (rounds tmp : ℕ) (heap : List TaskEntry)
    → length heap < rounds
    → free_tasks rounds tmp heap ≢ Cleanup.goes_on
unfolding free_tasks
free_tasks_ends zero tmp heap lt = ground arith
free_tasks_ends (suc rounds) tmp heap lt = elim (Bool-cases (tmp == 0)) [
  | inl null ↦ rw null (λ e. ground arith)
  | inr used ↦ rw used (
      by_entry (λ e. free_tasks_ends rounds e.next (unlink (λ e. e.addr == tmp) heap))
        (first (λ e. e.addr == tmp) heap) refl)
]
  where
    by_entry :
        ((e : TaskEntry)
          → length (unlink (λ e. e.addr == tmp) heap) < rounds
          → free_tasks rounds e.next (unlink (λ e. e.addr == tmp) heap) ≢ Cleanup.goes_on)
        → (o : Option TaskEntry) → first (λ e. e.addr == tmp) heap ≡ o
        → freed o (λ e. free_tasks rounds e.next (unlink (λ e. e.addr == tmp) heap))
          ≢ Cleanup.goes_on
    by_entry rest none h = λ e. ground arith
    by_entry rest (some e) h = rest e (omega (arith, length-unlink (λ e. e.addr == tmp) heap e h))

-- The rounds of cleanup_task_queue are enough.
cleanup_task_queue_ends : (q : TaskQueue) → cleanup_task_queue q ≢ Cleanup.goes_on
unfolding cleanup_task_queue
cleanup_task_queue_ends q = free_tasks_ends (suc (length q.heap)) q.task_q q.heap (omega arith)
