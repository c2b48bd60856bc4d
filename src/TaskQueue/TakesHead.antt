-- ===== src/TaskQueue/TakesHead.antt =====
-- How get_task of task_queue.c takes the oldest control task out of both queues.
use mathlib.Core.Path.{subst}
use aodv_android.Base.{
  eq_self, eq_sym, ℕ, ◌≡◌, refl, sym, ap, ◌∙◌, some, List, [], ◌∷◌, ◌++◌, arith,
}
use aodv_android.TaskQueue.{TaskEntry, drop_oldest_control, take_control}
use aodv_android.TaskQueue.Chains.{Apart, Distinct, last_or, Linked, Apart-last, Distinct-middle}
use aodv_android.TaskQueue.Fields.{from, control_of, Item, Holds, read-runs}
use aodv_android.TaskQueue.Shape.{
  addrs, controls, laid, Stored, Joined, Lasts, Valid, All-Stored, addrs-append, Apart-controls,
}
use aodv_android.TaskQueue.TakesControl.{only_any, oldest_any}
use aodv_android.TaskQueue.Classes.{All-remove}

module _ (h : List TaskEntry) (xs : List Item) (c : Item) where
  -- The control task at the head of its queue is taken out of both queues.
  abbrev pub Taken : List Item → List ℕ → Type 0
  Taken bs cs =
      (h' : List TaskEntry) × (take_control (laid h (addrs xs ++ c.addr ∷ addrs bs) (c.addr ∷ cs))
        ≡ some (tt, laid h' (addrs xs ++ addrs bs) cs))
      × Joined h' (addrs xs ++ addrs bs)
      × Linked (control_of h') cs
      × Lasts h h'

  take_only :
      (bs : List Item)
      → Valid h (xs ++ c ∷ bs)
      → Joined h (addrs xs ++ c.addr ∷ addrs bs)
      → Taken bs []
  unfolding take_control
  take_only bs v j =
      let parts = addrs-append xs (c ∷ bs) in
      let stored = subst (Stored h) parts (All-Stored h (xs ++ c ∷ bs) v.0) in
      let taken = only_any h (addrs xs) c.addr (addrs bs) stored (subst Distinct parts v.1) j in
      (taken.0, rw (eq_self c.addr, taken.1) refl, taken.2.0, tt, taken.2.2)

  take_oldest :
      (bs : List Item) (d : ℕ) (ds : List ℕ)
      → addrs (controls bs) ≡ d ∷ ds
      → Valid h (xs ++ c ∷ bs)
      → Joined h (addrs xs ++ c.addr ∷ addrs bs)
      → Linked (control_of h) (c.addr ∷ d ∷ ds)
      → Taken bs (d ∷ ds)
  unfolding take_control drop_oldest_control
  take_oldest [] d ds e v j l = ground (arith, e)
  take_oldest (b ∷ bs) d ds e v j l =
      let parts = addrs-append xs (c ∷ b ∷ bs) in
      let stored = subst (Stored h) parts (All-Stored h (xs ++ c ∷ b ∷ bs) v.0) in
      let distinct = subst Distinct parts v.1 in
      let taken = oldest_any h (addrs xs) c.addr b.addr (addrs bs) (d ∷ ds) stored distinct j in
      let apart = (Distinct-middle (addrs xs) c.addr (addrs (b ∷ bs)) distinct).1 in
      let apart_cs : Apart c.addr (d ∷ ds) =
        subst (Apart c.addr) e (Apart-controls c.addr (b ∷ bs) apart) in
      let several = eq_sym (last_or d ds) c.addr (Apart-last c.addr d ds apart_cs) in
      let there = taken.2.2 c (All-remove (λ x. Holds x h) xs c (b ∷ bs) v.0).0 in
      let behind : there.0.prev_control ≡ d =
        sym (ap (from λ e. e.prev_control) there.1) ∙ ap (λ f. f c.addr) taken.2.1 ∙ l.0 in
      (
        taken.0,
        rw
            (
              several,
              taken.1,
              read-runs (laid taken.0 (addrs xs ++ addrs (b ∷ bs)) (c.addr ∷ d ∷ ds)) c.addr there.0
                  there.1,
              behind,
            )
            refl,
        taken.2.0,
        subst (λ f. Linked f (d ∷ ds)) (sym taken.2.1) l.1,
        taken.2.2,
      )

  pub take_any :
      (bs : List Item) (cs : List ℕ)
      → addrs (controls bs) ≡ cs
      → Valid h (xs ++ c ∷ bs)
      → Joined h (addrs xs ++ c.addr ∷ addrs bs)
      → Linked (control_of h) (c.addr ∷ cs)
      → Taken bs cs
  take_any bs [] e v j l = take_only bs v j
  take_any bs (d ∷ ds) e v j l = take_oldest bs d ds e v j l
