-- ===== src/TimerQueue/Signal.antt =====
-- What timer_queue_signal takes from the queue.
use aodv_android.Base.{
  ℕ, ◌≤◌, ◌<◌, ◌≡◌, refl, ap, inl, inr, List, [], ◌∷◌, ◌++◌, arith, All, Above, Bool-cases,
}
use aodv_android.Kernel.{Kernel, before}
use aodv_android.Task.{Task}
use aodv_android.TimerQueue.{timer_queue_signal}
use aodv_android.TimerQueue.Order.{IsQueue, InWindow, due_time, before_iff}

module _ ⦃k : Kernel⦄ where
  pub signal-append :
      (now : ℕ) (ts : List Task)
      → (timer_queue_signal now ts).0 ++ (timer_queue_signal now ts).1 ≡ ts
  unfolding timer_queue_signal
  signal-append now [] = refl
  signal-append now (t ∷ ts) = elim (Bool-cases (before t.time now)) [
    | inl e ↦ rw e (ap (◌∷◌ t) (signal-append now ts))
    | inr e ↦ rw e
  ]

  signal-due :
      (base now : ℕ) (ts : List Task)
      → InWindow base now
      → All (λ t. InWindow base t.time) ts
      → All (λ t. t.time < now) (timer_queue_signal now ts).0
  unfolding timer_queue_signal
  signal-due base now [] hn ht = tt
  signal-due base now (t ∷ ts) hn ht = elim (Bool-cases (before t.time now)) [
    | inl e ↦ rw e ((before_iff base t.time now ht.0 hn).0 e, signal-due base now ts hn ht.1)
    | inr e ↦ rw e tt
  ]

  Above-All :
      (now j : ℕ) (ts : List Task) → now ≤ j → Above due_time j ts → All (λ t. now ≤ t.time) ts
  Above-All now j [] h s = tt
  Above-All now j (t ∷ ts) h s = (omega arith, Above-All now t.time ts (omega arith) s.1)

  signal-rest :
      (base now j : ℕ) (ts : List Task)
      → InWindow base now
      → All (λ t. InWindow base t.time) ts
      → Above due_time j ts
      → All (λ t. now ≤ t.time) (timer_queue_signal now ts).1
  unfolding timer_queue_signal
  signal-rest base now j [] hn ht s = tt
  signal-rest base now j (t ∷ ts) hn ht s = elim (Bool-cases (before t.time now)) [
    | inl e ↦ rw e (signal-rest base now t.time ts hn ht.1 s.1)
    | inr e ↦
        let later : now ≤ t.time = ground (arith, before_iff base t.time now ht.0 hn) in
        rw e (later, Above-All now t.time ts later s.1)
  ]

  -- On a queue that meets the invariant, at a time within the same half range, timer_queue_signal
  -- hands over the tasks whose time has passed, in the queue's order, and no other: what it hands
  -- over and what it leaves are together the queue, and every task that is left is not yet due.
  pub timer_queue_signal_lem :
      (base now : ℕ) (ts : List Task)
      → InWindow base now
      → IsQueue base ts
      → ((timer_queue_signal now ts).0 ++ (timer_queue_signal now ts).1 ≡ ts)
        × All (λ t. t.time < now) (timer_queue_signal now ts).0
        × All (λ t. now ≤ t.time) (timer_queue_signal now ts).1
  timer_queue_signal_lem base now ts hn q = (
    signal-append now ts,
    signal-due base now ts hn q.window,
    signal-rest base now 0 ts hn q.window q.sorted,
  )
