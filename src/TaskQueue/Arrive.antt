-- ===== src/TaskQueue/Arrive.antt =====
-- queue_aodv_task and queue_control_task_at_front of task_queue.c, on the queue of tasks.
use mathlib.Core.Path.{subst}
use aodv_android.Base.{
  All-append, ℕ, ◌≡◌, ◌==◌, refl, sym, ap, ◌∙◌, inl, inr, true, false, some, List, [], ◌∷◌, ◌++◌,
  Bool-cases,
}
use aodv_android.Task.{is_control_task}
use aodv_android.TaskQueue.{TaskEntry, TaskQueue, queue_aodv_task, queue_control_task_at_front}
use aodv_android.TaskQueue.Chains.{Apart, Linked}
use aodv_android.TaskQueue.Fields.{control_of, Item, Holds, read-runs}
use aodv_android.TaskQueue.Shape.{
  addrs, controls, is_control, laid, laid_items, Joined, Lasts, Valid, Sound, Shape, Joined-same,
  All-Stored, All-controls, Apart-controls, Distinct-controls, addrs-append, controls-append,
  Distinct-append_one, All-Lasts,
}
use aodv_android.TaskQueue.Joins.{link_newest_joins, link_oldest_joins}
use aodv_android.TaskQueue.JoinsControl.{link_newest_control_links, link_oldest_control_links}

-- An entry with the task, outside the queue.
abbrev pub Waits : Item → List Item → TaskQueue → Type 0
Waits x xs q = Holds x q.heap × Apart x.addr (addrs xs) × ((x.addr == 0) ≡ false)

append_nil : (bs : List ℕ) → bs ++ [] ≡ bs
append_nil [] = refl
append_nil (b ∷ bs) = ap (λ cs. b ∷ cs) (append_nil bs)

module _ (xs : List Item) (x : Item) where
  addrs_one : addrs (xs ++ x ∷ []) ≡ addrs xs ++ x.addr ∷ []
  addrs_one = addrs-append xs (x ∷ [])

  controls_other : is_control x ≡ false → addrs (controls (xs ++ x ∷ [])) ≡ addrs (controls xs)
  controls_other miss =
      rw (controls-append xs (x ∷ []), addrs-append (controls xs) (controls (x ∷ [])), miss)
        (append_nil (addrs (controls xs)))

  controls_one :
      is_control x ≡ true → addrs (controls (xs ++ x ∷ [])) ≡ addrs (controls xs) ++ x.addr ∷ []
  controls_one hit =
      rw (controls-append xs (x ∷ []), addrs-append (controls xs) (controls (x ∷ [])), hit) refl

  Valid-append :
      (h h' : List TaskEntry)
      → Valid h xs
      → Lasts h h'
      → Holds x h
      → Apart x.addr (addrs xs)
      → (x.addr == 0) ≡ false
      → Valid h' (xs ++ x ∷ [])
  Valid-append h h' v last holds apart used = rw (addrs-append xs (x ∷ [])) (
    All-append (λ x. Holds x h') xs (x ∷ []) (All-Lasts h h' xs last v.0) (last x holds, tt),
    Distinct-append_one (addrs xs) x.addr v.1 apart,
    All-append (λ a. (a == 0) ≡ false) (addrs xs) (x.addr ∷ []) v.2 (used, tt),
  )

  newest_laid :
      (h : List TaskEntry)
      → Sound h xs
      → Holds x h
      → Apart x.addr (addrs xs)
      → (x.addr == 0) ≡ false
      → (h' : List TaskEntry) × (queue_aodv_task x.addr (laid_items h xs)
          ≡ some (tt, laid_items h' (xs ++ x ∷ [])))
        × Sound h' (xs ++ x ∷ [])
  unfolding queue_aodv_task
  newest_laid h sound holds apart used =
      let join =
        link_newest_joins h x.addr holds.0 holds.1 (addrs xs) (addrs (controls xs))
          (All-Stored h xs sound.0.0) sound.0.1 apart sound.0.2 sound.1 in
      let there = join.4 x holds in
      let test = ap (λ t. is_control_task t.type) there.2 in
      let valid = Valid-append h join.0 sound.0 join.4 holds apart used in
      let joined = subst (Joined join.0) (sym addrs_one) join.2 in
      let links = subst (λ f. Linked f (addrs (controls xs))) (sym join.3) sound.2 in
      elim (Bool-cases (is_control x)) [
        | inr miss ↦ (
          join.0,
          rw
              (
                addrs_one,
                controls_other miss,
                join.1,
                read-runs (laid join.0 (addrs xs ++ x.addr ∷ []) (addrs (controls xs))) x.addr
                    there.0 there.1,
                test ∙ miss,
              )
              refl,
          (valid, joined, subst (Linked (control_of join.0)) (sym (controls_other miss)) links),
        )
        | inl hit ↦
            let link =
              link_newest_control_links join.0 x.addr there.0 there.1 (addrs xs ++ x.addr ∷ [])
                (addrs (controls xs))
                (All-Stored join.0 (controls xs)
                  (All-controls (λ x. Holds x join.0) xs (All-Lasts h join.0 xs join.4 sound.0.0)))
                (Distinct-controls xs sound.0.1) (Apart-controls 0 xs sound.0.2) links in
            (
              link.0,
              rw
                  (
                    addrs_one,
                    controls_one hit,
                    join.1,
                    read-runs (laid join.0 (addrs xs ++ x.addr ∷ []) (addrs (controls xs))) x.addr
                        there.0 there.1,
                    test ∙ hit,
                    link.1,
                  )
                  refl,
              (
                Valid-append h link.0 sound.0 (λ y k. link.2.3 y (join.4 y k)) holds apart used,
                Joined-same join.0 link.0 (addrs (xs ++ x ∷ [])) link.2.1 link.2.2 joined,
                subst (Linked (control_of link.0)) (sym (controls_one hit)) link.2.0,
              ),
            )
      ]

  oldest_laid :
      (h : List TaskEntry)
      → Sound h xs
      → Holds x h
      → Apart x.addr (addrs xs)
      → (x.addr == 0) ≡ false
      → (h' : List TaskEntry) × (queue_control_task_at_front x.addr (laid_items h xs)
          ≡ some (tt, laid_items h' (x ∷ xs)))
        × Sound h' (x ∷ xs)
  unfolding queue_control_task_at_front
  oldest_laid h sound holds apart used =
      let join =
        link_oldest_joins h x.addr holds.0 holds.1 (addrs xs) (addrs (controls xs))
          (All-Stored h xs sound.0.0) sound.0.1 apart sound.0.2 sound.1 in
      let there = join.4 x holds in
      let test = ap (λ t. is_control_task t.type) there.2 in
      let valid : (h' : List TaskEntry) → Lasts h h' → Valid h' (x ∷ xs) = λ h' last.
        ((last x holds, All-Lasts h h' xs last sound.0.0), (apart, sound.0.1), (used, sound.0.2)) in
      let links = subst (λ f. Linked f (addrs (controls xs))) (sym join.3) sound.2 in
      let reads =
        read-runs (laid join.0 (x.addr ∷ addrs xs) (addrs (controls xs))) x.addr there.0 there.1 in
      elim (Bool-cases (is_control x)) [
        | inr miss ↦ (
          join.0,
          rw (miss, join.1, reads, test ∙ miss) refl,
          (valid join.0 join.4, join.2, rw miss links),
        )
        | inl hit ↦
            let link =
              link_oldest_control_links join.0 x.addr there.0 there.1 (x.addr ∷ addrs xs)
                (addrs (controls xs)) (Apart-controls x.addr xs apart)
                (Apart-controls 0 xs sound.0.2) links in
            (
              link.0,
              rw (hit, join.1, reads, test ∙ hit, link.1) refl,
              (
                valid link.0 (λ y k. link.2.3 y (join.4 y k)),
                Joined-same join.0 link.0 (x.addr ∷ addrs xs) link.2.1 link.2.2 join.2,
                rw hit link.2.0,
              ),
            )
      ]

  -- queue_aodv_task puts a task behind the newest.
  pub queue_aodv_task-Shape :
      (q : TaskQueue)
      → Shape xs q
      → Waits x xs q
      → (q' : TaskQueue) × (queue_aodv_task x.addr q ≡ some (tt, q')) × Shape (xs ++ x ∷ []) q'
  queue_aodv_task-Shape q shape waits =
      let laid_q = shape.1 in
      let after =
        newest_laid shape.0 shape.2 (subst (λ q. Holds x q.heap) laid_q waits.0) waits.1 waits.2 in
      (
        laid_items after.0 (xs ++ x ∷ []),
        ap (queue_aodv_task x.addr) laid_q ∙ after.1,
        (after.0, refl, after.2),
      )

  -- queue_control_task_at_front puts a task before the oldest.
  pub queue_control_task_at_front-Shape :
      (q : TaskQueue)
      → Shape xs q
      → Waits x xs q
      → (q' : TaskQueue) × (queue_control_task_at_front x.addr q ≡ some (tt, q'))
        × Shape (x ∷ xs) q'
  queue_control_task_at_front-Shape q shape waits =
      let laid_q = shape.1 in
      let after =
        oldest_laid shape.0 shape.2 (subst (λ q. Holds x q.heap) laid_q waits.0) waits.1 waits.2 in
      (
        laid_items after.0 (x ∷ xs),
        ap (queue_control_task_at_front x.addr) laid_q ∙ after.1,
        (after.0, refl, after.2),
      )
