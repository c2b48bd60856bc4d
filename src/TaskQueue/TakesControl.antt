-- ===== src/TaskQueue/TakesControl.antt =====
-- How get_task of task_queue.c takes the entry of a control task out of the queue of all tasks.
use aodv_android.Base.{
  eq_self, eq_sym, ℕ, ◌≡◌, ◌==◌, refl, ap, ◌∙◌, ◌&&◌, ◌⊎◌, inl, inr, Bool, true, false, some, List,
  [], ◌∷◌, ◌++◌,
}
use aodv_android.TaskQueue.{TaskEntry, Run, take_only_control, take_oldest_control}
use aodv_android.TaskQueue.Chains.{
  Apart, Distinct, head_or, last_or, last-append, Apart-last, Distinct-middle, All-behind,
}
use aodv_android.TaskQueue.Fields.{at}
use aodv_android.TaskQueue.Shape.{laid, Stored, Joined}
use aodv_android.TaskQueue.Takes.{Rejoined, drop_end_lem, drop_start_lem, take_between_lem}

and_false : (b : Bool) → (b && false) ≡ false
and_false true = refl
and_false false = refl

head_or-Apart :
    (xs : List ℕ) (b c : ℕ) (r : List ℕ)
    → Apart c xs
    → (b == c) ≡ false
    → (head_or 0 (xs ++ b ∷ r) == c) ≡ false
head_or-Apart [] b c r h o = o
head_or-Apart (x ∷ xs) b c r h o = h.0

append_one : (xs : List ℕ) (b : ℕ) (r : List ℕ) → (xs ++ b ∷ []) ++ r ≡ xs ++ b ∷ r
append_one [] b r = refl
append_one (x ∷ xs) b r = ap (λ ys. x ∷ ys) (append_one xs b r)

ends_of : (xs : List ℕ) → (xs ≡ []) ⊎ ((ys : List ℕ) × (b : ℕ) × (xs ≡ ys ++ b ∷ []))
ends_of [] = inl refl
ends_of (x ∷ xs) = inr (behind (ends_of xs))
  where
    behind :
        (xs ≡ []) ⊎ ((ys : List ℕ) × (b : ℕ) × (xs ≡ ys ++ b ∷ []))
        → (ys : List ℕ) × (b : ℕ) × (x ∷ xs ≡ ys ++ b ∷ [])
    behind (inl e) = ([], x, ap (λ ys. x ∷ ys) e)
    behind (inr (ys, b, e)) = (x ∷ ys, b, ap (λ zs. x ∷ zs) e)

-- The run ends with the queue `ys` in place of `xs`.
abbrev pub Takes : List TaskEntry → Run (Unit {0}) → (xs ys cs : List ℕ) → Type 0
Takes h m xs ys cs =
    (h' : List TaskEntry) × (m (laid h xs cs) ≡ some (tt, laid h' ys cs)) × Rejoined h h' ys

module _ (h : List TaskEntry) where
  -- The only control task, where it is the oldest task.
  only_first :
      (c : ℕ) (bs : List ℕ)
      → Stored h (c ∷ bs)
      → Distinct (c ∷ bs)
      → Joined h (c ∷ bs)
      → Takes h take_only_control (c ∷ bs) bs (c ∷ [])
  unfolding take_only_control
  only_first c [] s d j = (h, rw (eq_self c) refl, ((tt, tt), refl, λ x holds. holds))
  only_first c (b ∷ bs) s d j =
      let dropped = drop_end_lem h (c ∷ []) c b bs s j in
      let other = eq_sym (last_or b bs) c (Apart-last c b bs d.0) in
      (h, rw (other, eq_self c) dropped.0, dropped.1)

  only_later :
      (xs : List ℕ) (b c : ℕ) (bs : List ℕ)
      → Stored h (xs ++ b ∷ c ∷ bs)
      → Distinct (xs ++ b ∷ c ∷ bs)
      → Joined h (xs ++ b ∷ c ∷ bs)
      → Takes h take_only_control (xs ++ b ∷ c ∷ bs) (xs ++ b ∷ bs) (c ∷ [])
  unfolding take_only_control
  only_later xs b c [] s d j =
      let apart = Distinct-middle xs b (c ∷ []) d in
      let apart_c = Distinct-middle xs c [] apart.2 in
      let later = head_or-Apart xs b c (c ∷ []) apart_c.0 (eq_sym c b apart.1.0) in
      let e = (All-behind (λ a. (e : TaskEntry) × (at a h ≡ some e)) xs (b ∷ c ∷ []) s).1.0 in
      let taken = drop_start_lem h (c ∷ []) xs b c s d j e.0 e.1 in
      let last : (last_or 0 (xs ++ b ∷ c ∷ []) == c) ≡ true =
        ap (λ a. a == c) (last-append 0 xs b (c ∷ [])) ∙ eq_self c in
      (taken.0, rw (later, and_false, last) taken.1, taken.2)
  only_later xs b c (d ∷ ds) s dis j =
      let apart = Distinct-middle xs b (c ∷ d ∷ ds) dis in
      let apart_c = Distinct-middle xs c (d ∷ ds) apart.2 in
      let later = head_or-Apart xs b c (c ∷ d ∷ ds) apart_c.0 (eq_sym c b apart.1.0) in
      let taken = take_between_lem h (c ∷ []) xs b c d ds s dis j in
      let last : (last_or 0 (xs ++ b ∷ c ∷ d ∷ ds) == c) ≡ false =
        ap (λ a. a == c) (last-append 0 xs b (c ∷ d ∷ ds)) ∙ Apart-last c d ds apart_c.1 in
      (taken.0, rw (later, and_false, last) taken.1, taken.2)

  -- The oldest of several control tasks.
  oldest_first :
      (c b : ℕ) (bs cs : List ℕ)
      → Stored h (c ∷ b ∷ bs)
      → Joined h (c ∷ b ∷ bs)
      → Takes h take_oldest_control (c ∷ b ∷ bs) (b ∷ bs) (c ∷ cs)
  unfolding take_oldest_control
  oldest_first c b bs cs s j =
      let dropped = drop_end_lem h (c ∷ cs) c b bs s j in (h, rw (eq_self c) dropped.0, dropped.1)

  oldest_later :
      (xs : List ℕ) (b c d : ℕ) (ds cs : List ℕ)
      → Stored h (xs ++ b ∷ c ∷ d ∷ ds)
      → Distinct (xs ++ b ∷ c ∷ d ∷ ds)
      → Joined h (xs ++ b ∷ c ∷ d ∷ ds)
      → Takes h take_oldest_control (xs ++ b ∷ c ∷ d ∷ ds) (xs ++ b ∷ d ∷ ds) (c ∷ cs)
  unfolding take_oldest_control
  oldest_later xs b c d ds cs s dis j =
      let apart = Distinct-middle xs b (c ∷ d ∷ ds) dis in
      let apart_c = Distinct-middle xs c (d ∷ ds) apart.2 in
      let later = head_or-Apart xs b c (c ∷ d ∷ ds) apart_c.0 (eq_sym c b apart.1.0) in
      let taken = take_between_lem h (c ∷ cs) xs b c d ds s dis j in
      (taken.0, rw later taken.1, taken.2)

  pub only_any :
      (xs : List ℕ) (c : ℕ) (bs : List ℕ)
      → Stored h (xs ++ c ∷ bs)
      → Distinct (xs ++ c ∷ bs)
      → Joined h (xs ++ c ∷ bs)
      → Takes h take_only_control (xs ++ c ∷ bs) (xs ++ bs) (c ∷ [])
  only_any xs c bs = by_end (ends_of xs)
    where
      by_end :
          (xs ≡ []) ⊎ ((ys : List ℕ) × (b : ℕ) × (xs ≡ ys ++ b ∷ []))
          → Stored h (xs ++ c ∷ bs)
          → Distinct (xs ++ c ∷ bs)
          → Joined h (xs ++ c ∷ bs)
          → Takes h take_only_control (xs ++ c ∷ bs) (xs ++ bs) (c ∷ [])
      by_end (inl e) = rw e (only_first c bs)
      by_end (inr (ys, b, e)) =
          rw (e, append_one ys b (c ∷ bs), append_one ys b bs) (only_later ys b c bs)

  pub oldest_any :
      (xs : List ℕ) (c d : ℕ) (ds cs : List ℕ)
      → Stored h (xs ++ c ∷ d ∷ ds)
      → Distinct (xs ++ c ∷ d ∷ ds)
      → Joined h (xs ++ c ∷ d ∷ ds)
      → Takes h take_oldest_control (xs ++ c ∷ d ∷ ds) (xs ++ d ∷ ds) (c ∷ cs)
  oldest_any xs c d ds cs = by_end (ends_of xs)
    where
      by_end :
          (xs ≡ []) ⊎ ((ys : List ℕ) × (b : ℕ) × (xs ≡ ys ++ b ∷ []))
          → Stored h (xs ++ c ∷ d ∷ ds)
          → Distinct (xs ++ c ∷ d ∷ ds)
          → Joined h (xs ++ c ∷ d ∷ ds)
          → Takes h take_oldest_control (xs ++ c ∷ d ∷ ds) (xs ++ d ∷ ds) (c ∷ cs)
      by_end (inl e) = rw e (λ s dis j. oldest_first c d ds cs s j)
      by_end (inr (ys, b, e)) =
          rw (e, append_one ys b (c ∷ d ∷ ds), append_one ys b (d ∷ ds))
            (oldest_later ys b c d ds cs)
