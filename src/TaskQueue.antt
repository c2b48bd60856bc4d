-- ===== src/TaskQueue.antt =====
-- task_queue.c: the queue of tasks and, inside it, that of control tasks, on a heap of entries. A
-- pointer is the address of an entry, or 0; no entry stands at 0.
pub mod Freeing
pub mod Chains
pub mod Fields
pub mod Shape
pub mod Joins
pub mod JoinsControl
pub mod Classes
pub mod TakesHead
pub mod Arrive
pub mod Takes
pub mod TakesControl
pub mod Priority
pub mod Serve
pub mod Service
use aodv_android.Base.{
  ℕ, zero, suc, Bool, true, false, not, ◌&&◌, Option, none, some, List, [], ◌∷◌, length, first,
  modify, unlink, if◌then◌else◌, ◌==◌,
}
use aodv_android.Task.{Task, is_control_task}

pub record TaskEntry : Type 0 where
  pub addr : ℕ
  pub task : Task
  pub next : ℕ
  pub prev : ℕ
  pub prev_control : ℕ

-- `heap` holds the entries that are allocated, in the queue or not.
pub record TaskQueue : Type 0 where
  pub heap : List TaskEntry
  pub task_q : ℕ
  pub task_end : ℕ
  pub sub_q : ℕ
  pub sub_end : ℕ

-- `none` is a use of NULL or of freed memory.
abbrev pub Run : Type 0 → Type 0
Run A = TaskQueue → Option (A × TaskQueue)

abbrev pub pure : {A : Type 0} → A → Run A
pure a q = some (a, q)

abbrev pub and_then : {A B : Type 0} → Option (A × TaskQueue) → (A → Run B) → Option (B × TaskQueue)
and_then none f = none
and_then (some (a, q)) f = f a q

infixl 5 ◌>>=◌ ◌>>◌
abbrev pub ◌>>=◌ : {A B : Type 0} → Run A → (A → Run B) → Run B
◌>>=◌ m f q = and_then (m q) f

abbrev pub ◌>>◌ : {A B : Type 0} → Run A → Run B → Run B
m >> k = m >>= λ _. k

abbrev pub get : Run TaskQueue
get q = some (q, q)

abbrev pub update : (TaskQueue → TaskQueue) → Run (Unit {0})
update f q = some (tt, f q)

abbrev pub when : Bool → Run (Unit {0}) → Run (Unit {0})
when true m = m
when false m = pure tt

abbrev pub found : Option TaskEntry → Run TaskEntry
found none q = none
found (some e) q = some (e, q)

-- `*p`
unfoldable pub read : (p : ℕ) → Run TaskEntry
read p q = found (first (λ e. e.addr == p) q.heap) q

abbrev pub rewritten : (p : ℕ) → (TaskEntry → TaskEntry) → TaskQueue → TaskQueue
rewritten p f q = record q { heap = modify (λ e. e.addr == p) f q.heap }

unfoldable pub write : (p : ℕ) → (TaskEntry → TaskEntry) → Run (Unit {0})
unfolding read
write p f = read p >> update (rewritten p f)

unfoldable pub init_task_queue : List TaskEntry → TaskQueue
init_task_queue heap = record { heap = heap; task_q = 0; task_end = 0; sub_q = 0; sub_end = 0 }

-- The entry that create_task allocates.
abbrev pub new_entry : (addr : ℕ) → Task → TaskEntry
new_entry addr t = record { addr = addr; task = t; next = 0; prev = 0; prev_control = 0 }

abbrev pub no_control : TaskQueue → Bool
no_control q = q.sub_q == 0 && q.sub_end == 0

abbrev pub only_control : (new : ℕ) → TaskQueue → TaskQueue
only_control new q = record q { sub_q = new; sub_end = new }

-- A task at the side of the newest, at `task_q`.
unfoldable pub link_newest : (new : ℕ) → Run (Unit {0})
unfolding write read
link_newest new = do
  q ← get
  write new (λ e. record e { next = q.task_q; prev = 0 })
  when (not (q.task_q == 0)) (write q.task_q (λ e. record e { prev = new }))
  when (q.task_end == 0) (update λ q. record q { task_end = new })
  update λ q. record q { task_q = new }

-- A task at the side of the oldest, at `task_end`.
unfoldable pub link_oldest : (new : ℕ) → Run (Unit {0})
unfolding write read
link_oldest new = do
  q ← get
  write new (λ e. record e { next = 0; prev = q.task_end })
  when (not (q.task_end == 0)) (write q.task_end (λ e. record e { next = new }))
  when (q.task_q == 0) (update λ q. record q { task_q = new })
  update λ q. record q { task_end = new }

-- The same for the control tasks.
unfoldable pub link_newest_control : (new : ℕ) → Run (Unit {0})
unfolding write read
link_newest_control new = do
  q ← get
  if no_control q
      then update (only_control new)
      else write q.sub_q (λ e. record e { prev_control = new })
        >> update (λ q. record q { sub_q = new })

unfoldable pub link_oldest_control : (new : ℕ) → Run (Unit {0})
unfolding write read
link_oldest_control new = do
  q ← get
  if no_control q
      then update (only_control new)
      else write new (λ e. record e { prev_control = q.sub_end })
        >> update (λ q. record q { sub_end = new })

-- queue_aodv_task to the call of kick_aodv.
unfoldable pub queue_aodv_task : (new : ℕ) → Run (Unit {0})
unfolding link_newest link_newest_control read
queue_aodv_task new = do
  link_newest new
  e ← read new
  when (is_control_task e.task.type) (link_newest_control new)

-- queue_control_task_at_front to the call of kick_aodv.
unfoldable pub queue_control_task_at_front : (new : ℕ) → Run (Unit {0})
unfolding link_oldest link_oldest_control read
queue_control_task_at_front new = do
  link_oldest new
  e ← read new
  when (is_control_task e.task.type) (link_oldest_control new)

-- `none` is the answer -ENOMEM.
unfoldable insert_task_at_front : (new : ℕ) → Run (Option ℕ)
unfolding queue_control_task_at_front
insert_task_at_front new =
    if new == 0 then pure none else queue_control_task_at_front new >> pure (some 0)

unfoldable insert_task_from_timer : (new : ℕ) → Run (Option ℕ)
unfolding queue_aodv_task
insert_task_from_timer new = if new == 0 then pure none else queue_aodv_task new >> pure (some 1)

-- An entry from between two others.
unfoldable pub take_between : (p : ℕ) → Run (Unit {0})
unfolding write read
take_between p = do
  e ← read p
  write e.prev (λ d. record d { next = e.next })
  write e.next (λ d. record d { prev = e.prev })

-- `task_end = task_end->prev`; the `next` of the new end stays as it is.
unfoldable pub drop_end : Run (Unit {0})
unfolding read
drop_end = do q ← get; e ← read q.task_end; update λ q. record q { task_end = e.prev }

-- `task_q = task_q->next`
unfoldable pub drop_start : Run (Unit {0})
unfolding read write
drop_start = do
  q ← get
  e ← read q.task_q
  update λ q. record q { task_q = e.next }
  write e.next (λ d. record d { prev = 0 })

abbrev pub cleared : TaskQueue → TaskQueue
cleared q = record q { task_q = 0; task_end = 0 }

-- The entry of the one control task, wherever it stands.
unfoldable pub take_only_control : Run (Unit {0})
unfolding take_between drop_end drop_start
take_only_control = do
  q ← get
  if q.task_end == q.task_q && q.task_end == q.sub_end
      then update cleared
      else (if q.task_end == q.sub_end
          then drop_end
          else (if q.task_q == q.sub_q then drop_start else take_between q.sub_end))

-- The entry of the oldest of several control tasks.
unfoldable pub take_oldest_control : Run (Unit {0})
unfolding take_between drop_end
take_oldest_control = do
  q ← get
  if q.task_end == q.sub_end then drop_end else take_between q.sub_end

-- `sub_end = sub_end->prev_control`
unfoldable pub drop_oldest_control : Run (Unit {0})
unfolding read
drop_oldest_control = do
  q ← get
  e ← read q.sub_end
  update λ r. record r { sub_end = e.prev_control }

-- The control task that is next.
unfoldable pub take_control : Run (Unit {0})
unfolding take_only_control take_oldest_control drop_oldest_control
take_control = do
  q ← get
  if q.sub_end == q.sub_q
      then take_only_control >> update (only_control 0)
      else take_oldest_control >> drop_oldest_control

-- The oldest task, where none is a control task.
unfoldable pub take_end : Run (Unit {0})
unfolding drop_end
take_end = do q ← get; if q.task_end == q.task_q then update cleared else drop_end

-- The answer is the address of the task, or 0.
unfoldable pub get_task : Run ℕ
unfolding take_control take_end
get_task = do
  q ← get
  if not (q.sub_end == 0)
      then take_control >> pure q.sub_end
      else (if not (q.task_end == 0) then take_end >> pure q.task_end else pure 0)
