-- ===== src/TaskQueue/Shape.antt =====
-- The form of the two queues of task_queue.c on their heap.
use mathlib.Core.Path.{subst}
use aodv_android.Base.{
  All-append, eq_sym, sym, ℕ, ◌≡◌, ◌==◌, refl, Bool, false, some, List, [], ◌∷◌, ◌++◌,
  if◌then◌else◌, All, ap, inl, inr, Bool-cases,
}
use aodv_android.Task.{is_control_task}
use aodv_android.TaskQueue.{TaskEntry, TaskQueue}
use aodv_android.TaskQueue.Chains.{Apart, Distinct, head_or, last_or, Chain, Nexts, Linked}
use aodv_android.TaskQueue.Fields.{at, prev_of, next_of, control_of, Item, Holds}

abbrev pub addrs : List Item → List ℕ
addrs [] = []
addrs (x ∷ xs) = x.addr ∷ addrs xs

abbrev pub is_control : Item → Bool
is_control x = is_control_task x.task.type

abbrev pub controls : List Item → List Item
controls [] = []
controls (x ∷ xs) = let rest = controls xs in if is_control x then x ∷ rest else rest

-- The queue whose tasks have these addresses, oldest first, `cs` those of the control tasks.
abbrev pub laid : List TaskEntry → (xs cs : List ℕ) → TaskQueue
laid h xs cs = record {
  heap = h;
  task_q = last_or 0 xs;
  task_end = head_or 0 xs;
  sub_q = last_or 0 cs;
  sub_end = head_or 0 cs;
}

abbrev pub Stored : List TaskEntry → List ℕ → Type 0
Stored h xs = All (λ a. (e : TaskEntry) × (at a h ≡ some e)) xs

-- `prev` and `next`. The `next` of the oldest task is not looked at.
abbrev pub Joined : List TaskEntry → List ℕ → Type 0
Joined h xs = Chain (prev_of h) 0 xs × Nexts (next_of h) xs

abbrev pub Lasts : (h h' : List TaskEntry) → Type 0
Lasts h h' = (x : Item) → Holds x h → Holds x h'

pub Joined-same :
    (h h' : List TaskEntry) (xs : List ℕ)
    → prev_of h' ≡ prev_of h
    → next_of h' ≡ next_of h
    → Joined h xs
    → Joined h' xs
Joined-same h h' xs p n j =
    (subst (λ f. Chain f 0 xs) (sym p) j.0, subst (λ f. Nexts f xs) (sym n) j.1)

-- The addresses are distinct, none is 0, and entries with the tasks stand there.
abbrev pub Valid : List TaskEntry → List Item → Type 0
Valid h xs = All (λ x. Holds x h) xs × Distinct (addrs xs) × Apart 0 (addrs xs)

abbrev pub Sound : List TaskEntry → List Item → Type 0
Sound h xs = Valid h xs × Joined h (addrs xs) × Linked (control_of h) (addrs (controls xs))

abbrev pub laid_items : List TaskEntry → List Item → TaskQueue
laid_items h xs = laid h (addrs xs) (addrs (controls xs))

-- The queue of these tasks, oldest first.
abbrev pub Shape : List Item → TaskQueue → Type 0
Shape xs q = (h : List TaskEntry) × (q ≡ laid_items h xs) × Sound h xs

pub All-controls {κ} : (P : Item → Type κ) (xs : List Item) → All P xs → All P (controls xs)
All-controls P [] h = tt
All-controls P (x ∷ xs) h = elim (Bool-cases (is_control x)) [
  | inl hit ↦ rw hit (h.0, All-controls P xs h.1)
  | inr miss ↦ rw miss (All-controls P xs h.1)
]

pub Apart-controls : (p : ℕ) (xs : List Item) → Apart p (addrs xs) → Apart p (addrs (controls xs))
Apart-controls p [] h = tt
Apart-controls p (x ∷ xs) h = elim (Bool-cases (is_control x)) [
  | inl hit ↦ rw hit (h.0, Apart-controls p xs h.1)
  | inr miss ↦ rw miss (Apart-controls p xs h.1)
]

pub Distinct-controls : (xs : List Item) → Distinct (addrs xs) → Distinct (addrs (controls xs))
Distinct-controls [] h = tt
Distinct-controls (x ∷ xs) h = elim (Bool-cases (is_control x)) [
  | inl hit ↦ rw hit (Apart-controls x.addr xs h.0, Distinct-controls xs h.1)
  | inr miss ↦ rw miss (Distinct-controls xs h.1)
]

pub addrs-append : (xs ys : List Item) → addrs (xs ++ ys) ≡ addrs xs ++ addrs ys
addrs-append [] ys = refl
addrs-append (x ∷ xs) ys = ap (λ bs. x.addr ∷ bs) (addrs-append xs ys)

pub controls-append : (xs ys : List Item) → controls (xs ++ ys) ≡ controls xs ++ controls ys
controls-append [] ys = refl
controls-append (x ∷ xs) ys = elim (Bool-cases (is_control x)) [
  | inl hit ↦ rw hit (ap (λ cs. x ∷ cs) (controls-append xs ys))
  | inr miss ↦ rw miss (controls-append xs ys)
]

pub Distinct-append_one : (xs : List ℕ) (b : ℕ) → Distinct xs → Apart b xs → Distinct (xs ++ b ∷ [])
Distinct-append_one [] b d h = (tt, tt)
Distinct-append_one (x ∷ xs) b d h = (
  All-append (λ a. (a == x) ≡ false) xs (b ∷ []) d.0 (eq_sym x b h.0, tt),
  Distinct-append_one xs b d.1 h.1,
)

pub All-Lasts :
    (h h' : List TaskEntry) (xs : List Item)
    → Lasts h h'
    → All (λ x. Holds x h) xs
    → All (λ x. Holds x h') xs
All-Lasts h h' [] k s = tt
All-Lasts h h' (x ∷ xs) k s = (k x s.0, All-Lasts h h' xs k s.1)

pub All-Stored :
    (h : List TaskEntry) (xs : List Item) → All (λ x. Holds x h) xs → Stored h (addrs xs)
All-Stored h [] s = tt
All-Stored h (x ∷ xs) s = ((s.0.0, s.0.1), All-Stored h xs s.1)

pub Stored-last :
    (h : List TaskEntry) (a : ℕ) (xs : List ℕ)
    → Stored h (a ∷ xs)
    → (e : TaskEntry) × (at (last_or a xs) h ≡ some e)
Stored-last h a [] s = s.0
Stored-last h a (x ∷ xs) s = Stored-last h x xs s.1

pub Stored-at :
    (h : List TaskEntry) (xs : List ℕ) (b : ℕ) (r : List ℕ)
    → Stored h (xs ++ b ∷ r)
    → (e : TaskEntry) × (at b h ≡ some e)
Stored-at h [] b r s = s.0
Stored-at h (x ∷ xs) b r s = Stored-at h xs b r s.1
