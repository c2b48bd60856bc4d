-- ===== src/TaskQueue/Takes.antt =====
-- How get_task of task_queue.c takes an entry out of the queue.
use mathlib.Core.Path.{subst}
use aodv_android.Base.{eq_sym, ℕ, ◌≡◌, refl, sym, ap, ◌∙◌, some, List, [], ◌∷◌, ◌++◌}
use aodv_android.TaskQueue.{TaskEntry, rewritten, drop_end, drop_start, take_between}
use aodv_android.TaskQueue.Chains.{
  Distinct, last_or, Chain, Nexts, upd, last-append, head-append, Distinct-middle, Chain-remove,
  Chain-behind, All-behind, Nexts-at, Nexts-drop, Nexts-remove,
}
use aodv_android.TaskQueue.Fields.{
  at, from, prev_of, next_of, control_of, Keeps, put, field-write, field-write_same, at-modify,
  Holds-write, read-runs, write-runs,
}
use aodv_android.TaskQueue.Shape.{laid, Stored, Joined, Lasts, Stored-at}

-- The heap after the queue became `xs`, of which the rest is as before.
abbrev pub Rejoined : (h h' : List TaskEntry) → List ℕ → Type 0
Rejoined h h' xs = Joined h' xs × (control_of h' ≡ control_of h) × Lasts h h'

module _ (h : List TaskEntry) (cs : List ℕ) where
  pub drop_end_lem :
      (c b : ℕ) (bs : List ℕ)
      → Stored h (c ∷ b ∷ bs)
      → Joined h (c ∷ b ∷ bs)
      → (drop_end (laid h (c ∷ b ∷ bs) cs) ≡ some (tt, laid h (b ∷ bs) cs)) × Rejoined h h (b ∷ bs)
  unfolding drop_end
  drop_end_lem c b bs s j =
      let behind = sym (ap (from λ e. e.prev) s.0.1) ∙ j.0.0 in
      (
        rw (read-runs (laid h (c ∷ b ∷ bs) cs) c s.0.0 s.0.1, behind) refl,
        ((j.0.1, j.1.1), refl, λ x holds. holds),
      )

  pub drop_start_lem :
      (xs : List ℕ) (b c : ℕ)
      → Stored h (xs ++ b ∷ c ∷ [])
      → Distinct (xs ++ b ∷ c ∷ [])
      → Joined h (xs ++ b ∷ c ∷ [])
      → (e : TaskEntry) → at c h ≡ some e
      → (h' : List TaskEntry) × (drop_start (laid h (xs ++ b ∷ c ∷ []) cs)
          ≡ some (tt, laid h' (xs ++ b ∷ []) cs))
        × Rejoined h h' (xs ++ b ∷ [])
  unfolding drop_start
  drop_start_lem xs b c s d j e o =
      let before : e.next ≡ b =
        sym (ap (from λ e. e.next) o) ∙ Nexts-at (next_of h) xs b c [] j.1 in
      let there = Stored-at h xs b (c ∷ []) s in
      let found_last = subst (λ a. at a h ≡ some e) (sym (last-append 0 xs b (c ∷ []))) o in
      let apart = Distinct-middle xs b (c ∷ []) d in
      let prevs = field-write b onto kept (λ e. e.prev) 0 there.0 h there.1 refl in
      let nexts = field-write_same b onto kept (λ e. e.next) there.0 h there.1 refl in
      (
        put b onto h,
        rw
            (
              read-runs (laid h (xs ++ b ∷ c ∷ []) cs) (last_or 0 (xs ++ b ∷ c ∷ [])) e found_last,
              before,
              write-runs (record (laid h (xs ++ b ∷ c ∷ []) cs) { task_q = b }) b there.0 there.1
                  onto,
              head-append 0 xs b (c ∷ []) [],
              last-append 0 xs b [],
            )
            refl,
        (
          (
            subst (λ f. Chain f 0 (xs ++ b ∷ [])) (sym prevs)
                (Chain-remove (prev_of h) 0 xs b c [] apart.0 tt j.0),
            subst (λ f. Nexts f (xs ++ b ∷ [])) (sym nexts)
                (Nexts-drop (next_of h) xs b (c ∷ []) j.1),
          ),
          field-write_same b onto kept (λ e. e.prev_control) there.0 h there.1 refl,
          λ x. Holds-write b onto kept x h,
        ),
      )
    where
      onto : TaskEntry → TaskEntry
      onto e = record e { prev = 0 }

      kept : Keeps onto
      kept e = (refl, refl)

  pub take_between_lem :
      (xs : List ℕ) (b c d : ℕ) (ds : List ℕ)
      → Stored h (xs ++ b ∷ c ∷ d ∷ ds)
      → Distinct (xs ++ b ∷ c ∷ d ∷ ds)
      → Joined h (xs ++ b ∷ c ∷ d ∷ ds)
      → (h' : List TaskEntry) × (take_between c (laid h (xs ++ b ∷ c ∷ d ∷ ds) cs)
          ≡ some (tt, laid h' (xs ++ b ∷ d ∷ ds) cs))
        × Rejoined h h' (xs ++ b ∷ d ∷ ds)
  unfolding take_between
  take_between_lem xs b c d ds s dis j =
      let stored = All-behind (λ a. (e : TaskEntry) × (at a h ≡ some e)) xs (b ∷ c ∷ d ∷ ds) s in
      let e = stored.1.0.0 in
      let o = stored.1.0.1 in
      let there_d = stored.1.1.0 in
      let behind : e.prev ≡ d =
        sym (ap (from λ e. e.prev) o) ∙ Chain-behind (prev_of h) 0 xs b c (d ∷ ds) j.0 in
      let before : e.next ≡ b =
        sym (ap (from λ e. e.next) o) ∙ Nexts-at (next_of h) xs b c (d ∷ ds) j.1 in
      let apart_b = Distinct-middle xs b (c ∷ d ∷ ds) dis in
      let apart_d = Distinct-middle xs d ds (Distinct-middle xs c (d ∷ ds) apart_b.2).2 in
      let h1 = put d onto_d h in
      let there_b = at-modify d onto_d kept_d b h stored.0.0 stored.0.1 in
      let prevs =
        field-write b onto_b kept_b (λ e. e.prev) d there_b.0 h1 there_b.1 refl
        ∙ ap (λ f. upd f b d)
            (field-write_same d onto_d kept_d (λ e. e.prev) there_d.0 h there_d.1 refl) in
      let nexts =
        field-write_same b onto_b kept_b (λ e. e.next) there_b.0 h1 there_b.1 refl
        ∙ field-write d onto_d kept_d (λ e. e.next) b there_d.0 h there_d.1 refl in
      (
        put b onto_b h1,
        rw
            (
              read-runs (laid h (xs ++ b ∷ c ∷ d ∷ ds) cs) c e o,
              behind,
              before,
              write-runs (laid h (xs ++ b ∷ c ∷ d ∷ ds) cs) d there_d.0 there_d.1 onto_d,
              write-runs (rewritten d onto_d (laid h (xs ++ b ∷ c ∷ d ∷ ds) cs)) b there_b.0
                  there_b.1 onto_b,
              head-append 0 xs b (c ∷ d ∷ ds) (d ∷ ds),
              last-append 0 xs b (c ∷ d ∷ ds),
              last-append 0 xs b (d ∷ ds),
            )
            refl,
        (
          (
            subst (λ f. Chain f 0 (xs ++ b ∷ d ∷ ds)) (sym prevs)
                (Chain-remove (prev_of h) 0 xs b c (d ∷ ds) apart_b.0 apart_b.1.1 j.0),
            subst (λ f. Nexts f (xs ++ b ∷ d ∷ ds)) (sym nexts)
                (Nexts-remove (next_of h) xs b c d ds apart_d.0 (eq_sym d b apart_b.1.1.0) apart_d.1
                  j.1),
          ),
          field-write_same b onto_b kept_b (λ e. e.prev_control) there_b.0 h1 there_b.1 refl
              ∙ field-write_same d onto_d kept_d (λ e. e.prev_control) there_d.0 h there_d.1 refl,
          λ x holds. Holds-write b onto_b kept_b x h1 (Holds-write d onto_d kept_d x h holds),
        ),
      )
    where
      onto_d : TaskEntry → TaskEntry
      onto_d e = record e { next = b }

      onto_b : TaskEntry → TaskEntry
      onto_b e = record e { prev = d }

      kept_d : Keeps onto_d
      kept_d e = (refl, refl)

      kept_b : Keeps onto_b
      kept_b e = (refl, refl)
