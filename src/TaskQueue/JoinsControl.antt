-- ===== src/TaskQueue/JoinsControl.antt =====
-- How queue_aodv_task and queue_control_task_at_front of task_queue.c link an entry in the queue of control
-- tasks.
use mathlib.Core.Path.{subst}
use aodv_android.Base.{ℕ, ◌≡◌, refl, sym, some, List, [], ◌∷◌, ◌++◌}
use aodv_android.TaskQueue.{TaskEntry, link_newest_control, link_oldest_control}
use aodv_android.TaskQueue.Chains.{
  upd_self, Apart, Distinct, last_or, Linked, last-append, Apart-last, Linked-append, Linked-upd,
}
use aodv_android.TaskQueue.Fields.{
  at, prev_of, next_of, control_of, Keeps, put, field-write, field-write_same, Holds-write,
  write-runs,
}
use aodv_android.TaskQueue.Shape.{laid, Stored, Lasts, Stored-last}

-- The heap after the control queue was written, of which the rest is as before.
abbrev pub Relinked : (h h' : List TaskEntry) → List ℕ → Type 0
Relinked h h' cs =
    Linked (control_of h') cs × (prev_of h' ≡ prev_of h) × (next_of h' ≡ next_of h) × Lasts h h'

module _ (h : List TaskEntry) (new : ℕ) (e : TaskEntry) (o : at new h ≡ some e) (xs : List ℕ) where
  pub link_newest_control_links :
      (cs : List ℕ)
      → Stored h cs
      → Distinct cs
      → Apart 0 cs
      → Linked (control_of h) cs
      → (h' : List TaskEntry) × (link_newest_control new (laid h xs cs)
          ≡ some (tt, laid h' xs (cs ++ new ∷ [])))
        × Relinked h h' (cs ++ new ∷ [])
  unfolding link_newest_control
  link_newest_control_links [] s d some_addr l = (h, refl, (tt, refl, refl, λ x holds. holds))
  link_newest_control_links (c ∷ cs) s d some_addr l =
      let last = Stored-last h c cs s in
      let links =
        field-write (last_or c cs) onto kept (λ e. e.prev_control) new last.0 h last.1 refl in
      let used = Apart-last 0 c cs some_addr in
      (
        put (last_or c cs) onto h,
        rw
            (
              used,
              write-runs (laid h xs (c ∷ cs)) (last_or c cs) last.0 last.1 onto,
              last-append c cs new [],
            )
            refl,
        (
          subst (λ f. Linked f (c ∷ cs ++ new ∷ [])) (sym links)
              (Linked-append (control_of h) new c cs d l),
          field-write_same (last_or c cs) onto kept (λ e. e.prev) last.0 h last.1 refl,
          field-write_same (last_or c cs) onto kept (λ e. e.next) last.0 h last.1 refl,
          λ x. Holds-write (last_or c cs) onto kept x h,
        ),
      )
    where
      onto : TaskEntry → TaskEntry
      onto e = record e { prev_control = new }

      kept : Keeps onto
      kept e = (refl, refl)

  pub link_oldest_control_links :
      (cs : List ℕ)
      → Apart new cs
      → Apart 0 cs
      → Linked (control_of h) cs
      → (h' : List TaskEntry) × (link_oldest_control new (laid h xs cs)
          ≡ some (tt, laid h' xs (new ∷ cs)))
        × Relinked h h' (new ∷ cs)
  unfolding link_oldest_control
  link_oldest_control_links [] apart some_addr l = (h, refl, (tt, refl, refl, λ x holds. holds))
  link_oldest_control_links (c ∷ cs) apart some_addr l =
      let links = field-write new onto kept (λ e. e.prev_control) c e h o refl in
      let used = Apart-last 0 c cs some_addr in
      (
        put new onto h,
        rw (used, write-runs (laid h xs (c ∷ cs)) new e o onto) refl,
        (
          subst (λ f. Linked f (new ∷ c ∷ cs)) (sym links)
              (upd_self (control_of h) new c, Linked-upd (control_of h) new c (c ∷ cs) apart l),
          field-write_same new onto kept (λ e. e.prev) e h o refl,
          field-write_same new onto kept (λ e. e.next) e h o refl,
          λ x. Holds-write new onto kept x h,
        ),
      )
    where
      onto : TaskEntry → TaskEntry
      onto e = record e { prev_control = c }

      kept : Keeps onto
      kept e = (refl, refl)
