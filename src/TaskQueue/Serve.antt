-- ===== src/TaskQueue/Serve.antt =====
-- get_task of task_queue.c as the choice of a priority queue.
use mathlib.Core.Path.{subst}
use aodv_android.Base.{
  All-append, eq_self, eq_sym, ℕ, ◌≡◌, ◌==◌, refl, sym, ap, ◌∙◌, ◌⊎◌, inl, inr, true, false, Option,
  none, some, List, [], ◌∷◌, ◌++◌,
}
use aodv_android.TaskQueue.{TaskEntry, TaskQueue, take_end, get_task}
use aodv_android.TaskQueue.Chains.{
  Apart, Distinct, last_or, Linked, Apart-last, Distinct-middle, Apart-middle,
}
use aodv_android.TaskQueue.Fields.{control_of, Item, Holds}
use aodv_android.TaskQueue.Shape.{
  addrs, controls, is_control, laid, laid_items, Joined, Lasts, Sound, Shape, All-Stored, All-Lasts,
  addrs-append,
}
use aodv_android.TaskQueue.Priority.{or_oldest, pick, left}
use aodv_android.TaskQueue.Takes.{drop_end_lem}
use aodv_android.TaskQueue.Classes.{
  NoControl, Split, split, pick-control, controls-control, controls-others, controls-none,
  pick-others, All-remove,
}
use aodv_android.TaskQueue.TakesHead.{take_any}

abbrev pub address : Option (Item × List Item) → ℕ
address none = 0
address (some (x, rest)) = x.addr

-- The task that was picked is on the heap and outside of the queue.
abbrev pub Out : List TaskEntry → Option (Item × List Item) → Type 0
Out h none = Unit {0}
Out h (some (x, rest)) = Holds x h × Apart x.addr (addrs rest) × ((x.addr == 0) ≡ false)

module _ (h : List TaskEntry) (xs : List Item) (c : Item) where
  -- The queue after get_task gave this task.
  abbrev Served : (before after : List Item) → Type 0
  Served before after =
      (h' : List TaskEntry) × (get_task (laid_items h before) ≡ some (c.addr, laid_items h' after))
      × Sound h' after
      × Lasts h h'
      × Out h' (some (c, after))

  serve_control :
      (bs : List Item)
      → NoControl xs
      → is_control c ≡ true
      → Sound h (xs ++ c ∷ bs)
      → Served (xs ++ c ∷ bs) (xs ++ bs)
  unfolding get_task
  serve_control bs plain hit (v, j, l) =
      let parts = addrs-append xs (c ∷ bs) in
      let rest = addrs-append xs bs in
      let heads = ap addrs (controls-control c bs hit xs plain) in
      let tails = ap addrs (controls-others xs bs plain) in
      let distinct = Distinct-middle (addrs xs) c.addr (addrs bs) (subst Distinct parts v.1) in
      let used = Apart-middle 0 (addrs xs) c.addr (addrs bs) (subst (Apart 0) parts v.2) in
      let used_c = used.0 in
      let taken =
        take_any h xs c bs (addrs (controls bs)) refl v (subst (Joined h) parts j)
          (subst (Linked (control_of h)) heads l) in
      (
        taken.0,
        rw (parts, heads, used_c, taken.1, rest, tails) refl,
        (
          (
            All-Lasts h taken.0 (xs ++ bs) taken.4 (All-remove (λ x. Holds x h) xs c bs v.0).1,
            subst Distinct (sym rest) distinct.2,
            subst (Apart 0) (sym rest) used.1,
          ),
          subst (Joined taken.0) (sym rest) taken.2,
          subst (Linked (control_of taken.0)) (sym tails) taken.3,
        ),
        taken.4,
        (
          taken.4 c (All-remove (λ x. Holds x h) xs c bs v.0).0,
          subst (Apart c.addr) (sym rest)
              (All-append (λ a. (a == c.addr) ≡ false) (addrs xs) (addrs bs) distinct.0 distinct.1),
          used_c,
        ),
      )

serve_oldest :
    (h : List TaskEntry) (x : Item) (xs : List Item)
    → NoControl (x ∷ xs)
    → Sound h (x ∷ xs)
    → Served h [] x (x ∷ xs) xs
unfolding get_task take_end
serve_oldest h x [] plain (v, j, l) =
    let miss = plain.0 in
    let used = v.2.0 in
    (
      h,
      rw (miss, used, eq_self x.addr) refl,
      ((tt, tt, tt), (tt, tt), tt),
      λ x holds. holds,
      (v.0.0, tt, used),
    )
serve_oldest h x (y ∷ xs) plain (v, j, l) =
    let heads = ap addrs (controls-none (x ∷ y ∷ xs) plain) in
    let tails = ap addrs (controls-none (y ∷ xs) plain.1) in
    let used = v.2.0 in
    let last =
      eq_sym (last_or y.addr (addrs xs)) x.addr (Apart-last x.addr y.addr (addrs xs) v.1.0) in
    let dropped = drop_end_lem h [] x.addr y.addr (addrs xs) (All-Stored h (x ∷ y ∷ xs) v.0) j in
    let run : get_task (laid h (x.addr ∷ y.addr ∷ addrs xs) [])
        ≡ some (x.addr, laid h (y.addr ∷ addrs xs) []) =
      rw (used, last, dropped.0) refl in
    (
      h,
      ap (λ cs. get_task (laid h (x.addr ∷ y.addr ∷ addrs xs) cs)) heads
          ∙ run
          ∙ ap (λ cs. some (x.addr, laid h (y.addr ∷ addrs xs) cs)) (sym tails),
      ((v.0.1, v.1.1, v.2.1), dropped.1.0, subst (Linked (control_of h)) (sym tails) tt),
      λ x holds. holds,
      (v.0.0, v.1.0, used),
    )

-- The state after get_task, for the queue of these tasks.
abbrev pub Serves : List Item → TaskQueue → Type 0
Serves xs q =
    (q' : TaskQueue) × (get_task q ≡ some (address (pick is_control xs), q'))
    × Shape (left (pick is_control xs)) q'
    × Lasts q.heap q'.heap
    × Out q'.heap (pick is_control xs)

serve_plain : (xs : List Item) (q : TaskQueue) → NoControl xs → Shape xs q → Serves xs q
unfolding get_task
serve_plain [] q plain shape = (
  laid_items shape.0 [],
  ap get_task shape.1,
  (shape.0, refl, shape.2),
  subst (λ q. Lasts q.heap shape.0) (sym shape.1) (λ x holds. holds),
  tt,
)
serve_plain (x ∷ xs) q plain shape =
    let picked : pick is_control (x ∷ xs) ≡ some (x, xs) =
      ap (λ r. or_oldest r (x ∷ xs)) (pick-others (x ∷ xs) plain) in
    let served = serve_oldest shape.0 x xs plain shape.2 in
    (
      laid_items served.0 xs,
      ap get_task shape.1
          ∙ served.1
          ∙ ap (λ p. some (address p, laid_items served.0 xs)) (sym picked),
      subst (λ p. Shape (left p) (laid_items served.0 xs)) (sym picked) (served.0, refl, served.2),
      subst (λ q. Lasts q.heap served.0) (sym shape.1) served.3,
      subst (Out served.0) (sym picked) served.4,
    )

-- get_task answers with the address of the task that the priority queue picks, or 0 without one, and
-- leaves the queue of the others.
pub get_task-Shape : (xs : List Item) (q : TaskQueue) → Shape xs q → Serves xs q
get_task-Shape xs q shape = by_split (split xs)
  where
    by_split : NoControl xs ⊎ Split xs → Serves xs q
    by_split (inl plain) = serve_plain xs q plain shape
    by_split (inr (ys, c, bs, e, plain, hit)) =
        let picked : pick is_control xs ≡ some (c, ys ++ bs) =
          ap (pick is_control) e
          ∙ ap (λ r. or_oldest r (ys ++ c ∷ bs)) (pick-control c bs hit ys plain) in
        let served = serve_control shape.0 ys c bs plain hit (subst (Sound shape.0) e shape.2) in
        (
          laid_items served.0 (ys ++ bs),
          rw picked
              (ap get_task shape.1 ∙ ap (λ zs. get_task (laid_items shape.0 zs)) e ∙ served.1),
          rw picked (served.0, refl, served.2),
          subst (λ q. Lasts q.heap served.0) (sym shape.1) served.3,
          rw picked served.4,
        )
