-- ===== src/TimerQueue/Order.antt =====
-- The timer queue is ordered by time as long as its times lie within half the range of the clock.
use aodv_android.Base.{
  ℕ, ◌+◌, ◌^◌, ◌≤◌, ◌<◌, ◌≡◌, refl, ◌↔◌, inl, inr, true, List, [], ◌∷◌, arith, All, count, Bool,
  Above, IsSorted, Bool-cases,
}
use aodv_android.Kernel.{Kernel, before, after}
use aodv_android.Task.{Task}
use aodv_android.TimerQueue.{queue_timer}

-- The time lies in the half range that starts at `base`.
abbrev pub InWindow : ℕ → ℕ → Type 0
InWindow base t = (base ≤ t) × (t < base + 2 ^ 31)

abbrev pub due_time : Task → ℕ
due_time t = t.time

module _ ⦃k : Kernel⦄ where
  after_iff : (base a b : ℕ) → InWindow base a → InWindow base b → (after a b ≡ true) ↔ (b < a)
  after_iff base a b ha hb = k.time_after_iff a b (omega arith) (omega arith)

  pub before_iff :
      (base a b : ℕ) → InWindow base a → InWindow base b → (before a b ≡ true) ↔ (a < b)
  before_iff base a b ha hb = k.time_before_iff a b (omega arith) (omega arith)

  queue_timer-Above :
      (base j : ℕ) (new : Task) (ts : List Task)
      → InWindow base new.time
      → All (λ t. InWindow base t.time) ts
      → j ≤ new.time
      → Above due_time j ts
      → Above due_time j (queue_timer new ts)
  unfolding queue_timer
  queue_timer-Above base j new [] hn ht h s = (h, tt)
  queue_timer-Above base j new (t ∷ ts) hn ht h s = elim (Bool-cases (after new.time t.time)) [
    | inl e ↦
        let later : t.time < new.time = (after_iff base new.time t.time hn ht.0).0 e in
        rw e (s.0, queue_timer-Above base t.time new ts hn ht.1 (omega arith) s.1)
    | inr e ↦
        let sooner : new.time ≤ t.time = ground (arith, after_iff base new.time t.time hn ht.0) in
        rw e (h, (sooner, s.1))
  ]

  queue_timer-InWindow :
      (base : ℕ) (new : Task) (ts : List Task)
      → InWindow base new.time
      → All (λ t. InWindow base t.time) ts
      → All (λ t. InWindow base t.time) (queue_timer new ts)
  unfolding queue_timer
  queue_timer-InWindow base new [] hn ht = (hn, tt)
  queue_timer-InWindow base new (t ∷ ts) hn ht = elim (Bool-cases (after new.time t.time)) [
    | inl e ↦ rw e (ht.0, queue_timer-InWindow base new ts hn ht.1)
    | inr e ↦ rw e (hn, ht)
  ]

  pub count-queue_timer :
      (p : Task → Bool) (new : Task) (ts : List Task)
      → count p (queue_timer new ts) ≡ count p (new ∷ ts)
  unfolding queue_timer count
  count-queue_timer p new [] = refl
  count-queue_timer p new (t ∷ ts) = ground (arith, count-queue_timer p new ts)

  -- The invariant of the queue: ascending times, all within the half range that starts at `base`.
  pub record IsQueue (base : ℕ) (ts : List Task) : Type 0 where
    pub sorted : IsSorted due_time ts
    pub window : All (λ t. InWindow base t.time) ts

  -- queue_timer keeps the queue sorted by due time, for times within half the range of the clock,
  -- and afterwards the queue holds the new task and the old ones, each as often as before.
  pub queue_timer-IsQueue :
      (base : ℕ) (new : Task) (ts : List Task)
      → InWindow base new.time
      → IsQueue base ts
      → IsQueue base (queue_timer new ts)
        × ((p : Task → Bool) → count p (queue_timer new ts) ≡ count p (new ∷ ts))
  queue_timer-IsQueue base new ts h q = (
    record {
      sorted = queue_timer-Above base 0 new ts h q.window (omega arith) q.sorted;
      window = queue_timer-InWindow base new ts h q.window;
    },
    λ p. count-queue_timer p new ts,
  )
