-- ===== src/TaskQueue/Joins.antt =====
-- How queue_aodv_task and queue_control_task_at_front of task_queue.c link an entry.
use mathlib.Core.Path.{subst}
use aodv_android.Base.{ℕ, ◌≡◌, refl, sym, ap, ◌∙◌, some, List, [], ◌∷◌, ◌++◌}
use aodv_android.TaskQueue.{TaskEntry, link_newest, link_oldest}
use aodv_android.TaskQueue.Chains.{
  Back, upd_self, Apart, Distinct, last_or, Chain, upd, last-append, Apart-last, Chain-append,
  Back-append, Chain-upd, Back-upd,
}
use aodv_android.TaskQueue.Fields.{
  at, prev_of, next_of, control_of, Keeps, put, field-write, field-write_same, at-modify,
  Holds-write, write-runs,
}
use aodv_android.TaskQueue.Shape.{laid, Stored, Joined, Lasts, Stored-last}

module _ (h : List TaskEntry) (new : ℕ) (e : TaskEntry) (o : at new h ≡ some e) where
  abbrev pub Extended : (xs cs : List ℕ) → Type 0
  Extended xs cs =
      (h' : List TaskEntry) × (link_newest new (laid h xs cs)
        ≡ some (tt, laid h' (xs ++ new ∷ []) cs))
      × Joined h' (xs ++ new ∷ [])
      × (control_of h' ≡ control_of h)
      × Lasts h h'

  pub link_newest_joins :
      (xs cs : List ℕ)
      → Stored h xs
      → Distinct xs
      → Apart new xs
      → Apart 0 xs
      → Joined h xs
      → Extended xs cs
  unfolding link_newest
  link_newest_joins [] cs s d apart some_addr j =
      let prevs = field-write new between kept (λ e. e.prev) 0 e h o refl in
      (
        put new between h,
        rw (write-runs (laid h [] cs) new e o between) refl,
        ((ap (λ f. f new) prevs ∙ upd_self (prev_of h) new 0, tt), tt),
        field-write_same new between kept (λ e. e.prev_control) e h o refl,
        λ x. Holds-write new between kept x h,
      )
    where
      between : TaskEntry → TaskEntry
      between e = record e { next = 0; prev = 0 }

      kept : Keeps between
      kept e = (refl, refl)
  link_newest_joins (a ∷ xs) cs s d apart some_addr j =
      let h1 = put new between h in
      let last = Stored-last h a xs s in
      let before = at-modify new between kept (last_or a xs) h last.0 last.1 in
      let prevs =
        field-write (last_or a xs) onto kept_onto (λ e. e.prev) new before.0 h1 before.1 refl
        ∙ ap (λ f. upd f (last_or a xs) new)
            (field-write new between kept (λ e. e.prev) 0 e h o refl) in
      let nexts =
        field-write_same (last_or a xs) onto kept_onto (λ e. e.next) before.0 h1 before.1 refl
        ∙ field-write new between kept (λ e. e.next) (last_or a xs) e h o refl in
      let used = Apart-last 0 a xs some_addr in
      let first_used = some_addr.0 in
      (
        put (last_or a xs) onto h1,
        rw
            (
              write-runs (laid h (a ∷ xs) cs) new e o between,
              used,
              first_used,
              write-runs (laid h1 (a ∷ xs) cs) (last_or a xs) before.0 before.1 onto,
              last-append a xs new [],
            )
            refl,
        (
          subst (λ f. Chain f 0 (a ∷ xs ++ new ∷ [])) (sym prevs)
              (Chain-append (prev_of h) new a xs d apart j.0),
          subst (λ f. Back f a (xs ++ new ∷ [])) (sym nexts)
              (Back-append (next_of h) new a xs apart.1 j.1),
        ),
        field-write_same (last_or a xs) onto kept_onto (λ e. e.prev_control) before.0 h1 before.1
              refl
            ∙ field-write_same new between kept (λ e. e.prev_control) e h o refl,
        λ x holds.
            Holds-write (last_or a xs) onto kept_onto x h1 (Holds-write new between kept x h holds),
      )
    where
      between : TaskEntry → TaskEntry
      between e = record e { next = last_or a xs; prev = 0 }

      onto : TaskEntry → TaskEntry
      onto e = record e { prev = new }

      kept : Keeps between
      kept e = (refl, refl)

      kept_onto : Keeps onto
      kept_onto e = (refl, refl)

  abbrev pub Fronted : (xs cs : List ℕ) → Type 0
  Fronted xs cs =
      (h' : List TaskEntry) × (link_oldest new (laid h xs cs) ≡ some (tt, laid h' (new ∷ xs) cs))
      × Joined h' (new ∷ xs)
      × (control_of h' ≡ control_of h)
      × Lasts h h'

  pub link_oldest_joins :
      (xs cs : List ℕ)
      → Stored h xs
      → Distinct xs
      → Apart new xs
      → Apart 0 xs
      → Joined h xs
      → Fronted xs cs
  unfolding link_oldest
  link_oldest_joins [] cs s d apart some_addr j =
      let prevs = field-write new between kept (λ e. e.prev) 0 e h o refl in
      (
        put new between h,
        rw (write-runs (laid h [] cs) new e o between) refl,
        ((ap (λ f. f new) prevs ∙ upd_self (prev_of h) new 0, tt), tt),
        field-write_same new between kept (λ e. e.prev_control) e h o refl,
        λ x. Holds-write new between kept x h,
      )
    where
      between : TaskEntry → TaskEntry
      between e = record e { next = 0; prev = 0 }

      kept : Keeps between
      kept e = (refl, refl)
  link_oldest_joins (a ∷ xs) cs s d apart some_addr j =
      let h1 = put new between h in
      let behind = at-modify new between kept a h s.0.0 s.0.1 in
      let prevs =
        field-write_same a onto kept_onto (λ e. e.prev) behind.0 h1 behind.1 refl
        ∙ field-write new between kept (λ e. e.prev) a e h o refl in
      let nexts =
        field-write a onto kept_onto (λ e. e.next) new behind.0 h1 behind.1 refl
        ∙ ap (λ f. upd f a new) (field-write new between kept (λ e. e.next) 0 e h o refl) in
      let used = Apart-last 0 a xs some_addr in
      let first_used = some_addr.0 in
      (
        put a onto h1,
        rw
            (
              write-runs (laid h (a ∷ xs) cs) new e o between,
              used,
              first_used,
              write-runs (laid h1 (a ∷ xs) cs) a behind.0 behind.1 onto,
            )
            refl,
        (
          subst (λ f. Chain f 0 (new ∷ a ∷ xs)) (sym prevs)
              (upd_self (prev_of h) new a, Chain-upd (prev_of h) new a 0 (a ∷ xs) apart j.0),
          subst (λ f. Back f new (a ∷ xs)) (sym nexts)
              (
                upd_self (upd (next_of h) new 0) a new,
                Back-upd (upd (next_of h) new 0) a new a xs d.0
                    (Back-upd (next_of h) new 0 a xs apart.1 j.1),
              ),
        ),
        field-write_same a onto kept_onto (λ e. e.prev_control) behind.0 h1 behind.1 refl
            ∙ field-write_same new between kept (λ e. e.prev_control) e h o refl,
        λ x holds. Holds-write a onto kept_onto x h1 (Holds-write new between kept x h holds),
      )
    where
      between : TaskEntry → TaskEntry
      between e = record e { next = 0; prev = a }

      onto : TaskEntry → TaskEntry
      onto e = record e { next = new }

      kept : Keeps between
      kept e = (refl, refl)

      kept_onto : Keeps onto
      kept_onto e = (refl, refl)
