-- ===== src/TaskQueue/Fields.antt =====
-- The fields of the entries on the heap of task_queue.c, and what a write changes.
use mathlib.Core.Path.{fun_ext}
use aodv_android.Base.{
  eq_self, ℕ, ◌≡◌, ◌==◌, refl, sym, ap, ==_iff, ◌∙◌, inl, inr, true, false, Option, none, some,
  List, [], ◌∷◌, arith, first, modify, Bool-cases,
}
use aodv_android.Task.{Task}
use aodv_android.TaskQueue.{TaskEntry, TaskQueue, read, write, rewritten}
use aodv_android.TaskQueue.Chains.{upd}

abbrev pub at : ℕ → List TaskEntry → Option TaskEntry
at p h = first (λ e. e.addr == p) h

abbrev pub from : (TaskEntry → ℕ) → Option TaskEntry → ℕ
from g none = 0
from g (some e) = g e

abbrev pub field : (TaskEntry → ℕ) → List TaskEntry → ℕ → ℕ
field g h p = from g (at p h)

abbrev pub prev_of : List TaskEntry → ℕ → ℕ
prev_of h = field (λ e. e.prev) h

abbrev pub next_of : List TaskEntry → ℕ → ℕ
next_of h = field (λ e. e.next) h

abbrev pub control_of : List TaskEntry → ℕ → ℕ
control_of h = field (λ e. e.prev_control) h

-- A task of the queue, and the address of its entry.
pub record Item : Type 0 where
  pub addr : ℕ
  pub task : Task

abbrev pub Holds : Item → List TaskEntry → Type 0
Holds x h = (e : TaskEntry) × (at x.addr h ≡ some e) × (e.task ≡ x.task)

-- The heap after a write at `p`.
abbrev pub put : (p : ℕ) → (TaskEntry → TaskEntry) → List TaskEntry → List TaskEntry
put p f h = modify (λ e. e.addr == p) f h

-- The write leaves the address and the task as they are.
abbrev pub Keeps : (TaskEntry → TaskEntry) → Type 0
Keeps f = (e : TaskEntry) → ((f e).addr ≡ e.addr) × ((f e).task ≡ e.task)

some_injective : (x e : TaskEntry) → some x ≡ some e → x ≡ e
some_injective x e h = ap (or_else x) h
  where
    or_else : TaskEntry → Option TaskEntry → TaskEntry
    or_else d none = d
    or_else d (some e) = e

module _ (p : ℕ) (f : TaskEntry → TaskEntry) (keeps : Keeps f) where
  at-modify_other :
      (r : ℕ) (h : List TaskEntry)
      → (r == p) ≡ false
      → at r (modify (λ e. e.addr == p) f h) ≡ at r h
  unfolding first modify
  at-modify_other r [] o = refl
  at-modify_other r (x ∷ h) o = elim (Bool-cases (x.addr == p)) [
    | inl hit ↦
        let moved : (x.addr == r) ≡ false = ground arith in
        let kept = (keeps x).0 in rw (hit, kept, moved) refl
    | inr miss ↦ let rest = at-modify_other r h o in rw (miss, rest) refl
  ]

  at-modify_self :
      (h : List TaskEntry) (e : TaskEntry)
      → at p h ≡ some e
      → at p (modify (λ e. e.addr == p) f h) ≡ some (f e)
  unfolding first modify
  at-modify_self [] e o = ground arith
  at-modify_self (x ∷ h) e o = elim (Bool-cases (x.addr == p)) [
    | inl hit ↦
        let kept : ((f x).addr == p) ≡ true = ap (λ a. a == p) (keeps x).0 ∙ hit in
        let same : some x ≡ some e = rw hit at o in
        rw (hit, kept) (ap (λ y. some (f y)) (some_injective x e same))
    | inr miss ↦ rw (miss, miss) (at-modify_self h e (rw miss at o))
  ]

  -- A field that the write sets.
  pub field-write :
      (g : TaskEntry → ℕ) (v : ℕ) (e : TaskEntry) (h : List TaskEntry)
      → at p h ≡ some e
      → g (f e) ≡ v
      → field g (modify (λ e. e.addr == p) f h) ≡ upd (field g h) p v
  field-write g v e h o s = fun_ext λ r. elim (Bool-cases (r == p)) [
    | inl hit ↦
        let same = (==_iff r p).0 hit in
        rw (same, eq_self p) (ap (from g) (at-modify_self h e o) ∙ s)
    | inr miss ↦ rw miss (ap (from g) (at-modify_other r h miss))
  ]

  -- A field that the write leaves alone.
  pub field-write_same :
      (g : TaskEntry → ℕ) (e : TaskEntry) (h : List TaskEntry)
      → at p h ≡ some e
      → g (f e) ≡ g e
      → field g (modify (λ e. e.addr == p) f h) ≡ field g h
  field-write_same g e h o s = fun_ext λ r. elim (Bool-cases (r == p)) [
    | inl hit ↦
        let same = (==_iff r p).0 hit in
        rw same (ap (from g) (at-modify_self h e o) ∙ s ∙ sym (ap (from g) o))
    | inr miss ↦ ap (from g) (at-modify_other r h miss)
  ]

  pub at-modify :
      (r : ℕ) (h : List TaskEntry) (e : TaskEntry)
      → at r h ≡ some e
      → (d : TaskEntry) × (at r (modify (λ e. e.addr == p) f h) ≡ some d) × (d.task ≡ e.task)
  at-modify r h e o = elim (Bool-cases (r == p)) [
    | inl hit ↦
        let same = (==_iff r p).0 hit in
        (f e, rw same (at-modify_self h e (rw same at o)), (keeps e).1)
    | inr miss ↦ (e, at-modify_other r h miss ∙ o, refl)
  ]

  pub Holds-write :
      (x : Item) (h : List TaskEntry) → Holds x h → Holds x (modify (λ e. e.addr == p) f h)
  Holds-write x h (e, o, t) = let after = at-modify x.addr h e o in (after.0, after.1, after.2 ∙ t)

module _ (q : TaskQueue) (p : ℕ) (e : TaskEntry) (o : at p q.heap ≡ some e) where
  pub read-runs : read p q ≡ some (e, q)
  unfolding read
  read-runs = rw o refl

  pub write-runs : (f : TaskEntry → TaskEntry) → write p f q ≡ some (tt, rewritten p f q)
  unfolding write
  write-runs f = rw read-runs refl
