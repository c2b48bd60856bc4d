-- ===== src/TimerQueue/Delete.antt =====
-- find_timer and delete_timer against counts of the matching timers.
use aodv_android.Base.{
  ℕ, ◌≤◌, ◌≡◌, refl, ◌⊎◌, inl, inr, Bool, true, false, Option, none, some, List, [], ◌∷◌, arith,
  count, first, Bool-cases, Option-cases, unlink, first_sound, count-unlink, count-unlink_self,
  unlink-none, first-count, unlink-Above, All-unlink,
}
use aodv_android.Kernel.{Kernel}
use aodv_android.Task.{Task}
use aodv_android.TimerQueue.{is_timer, find_timer, delete_timer}
use aodv_android.TimerQueue.Order.{IsQueue, InWindow, due_time}

module _ (src_ip dst_ip tos type : ℕ) where
  found : Option Task → Bool
  found none = false
  found (some t) = true

  find_timer-first :
      (ts : List Task)
      → find_timer src_ip dst_ip tos type ts ≡ found (first (is_timer src_ip dst_ip tos type) ts)
  unfolding find_timer first found
  find_timer-first [] = refl
  find_timer-first (t ∷ ts) = elim (Bool-cases (is_timer src_ip dst_ip tos type t)) [
    | inl e ↦ rw e
    | inr e ↦ rw e (find_timer-first ts)
  ]

  -- delete_timer on a queue with no matching timer changes nothing; otherwise it takes out exactly
  -- one timer, which matches, and leaves every other as often as before.
  pub delete_timer_lem :
      (ts : List Task)
      → ((find_timer src_ip dst_ip tos type ts ≡ false)
          × (delete_timer src_ip dst_ip tos type ts ≡ ts))
        ⊎ ((t : Task) × (find_timer src_ip dst_ip tos type ts ≡ true)
            × (is_timer src_ip dst_ip tos type t ≡ true)
            × ((q : Task → Bool)
                → count q ts ≡ count q (t ∷ delete_timer src_ip dst_ip tos type ts)))
  unfolding delete_timer found
  delete_timer_lem ts =
      let p = is_timer src_ip dst_ip tos type in
      elim (Option-cases (first p ts)) [
        | inl e ↦ inl (rw (find_timer-first ts, e), unlink-none p ts e)
        | inr (t, e) ↦
            inr (t, rw (find_timer-first ts, e), first_sound p ts t e, λ q. count-unlink p q ts t e)
      ]

  -- Where at most one matching timer is queued, find_timer finds none after delete_timer.
  find-delete_timer :
      (ts : List Task)
      → count (is_timer src_ip dst_ip tos type) ts ≤ 1
      → find_timer src_ip dst_ip tos type (delete_timer src_ip dst_ip tos type ts) ≡ false
  unfolding delete_timer found
  find-delete_timer ts h =
      let p = is_timer src_ip dst_ip tos type in
      elim (Option-cases (first p ts)) [
        | inl e ↦ rw (unlink-none p ts e, find_timer-first ts, e)
        | inr (t, e) ↦
            let gone : count p (unlink p ts) ≡ 0 = omega (arith, count-unlink_self p ts t e) in
            rw (find_timer-first (unlink p ts), first-count p (unlink p ts) gone)
      ]

  -- delete_timer keeps the order of the queue.
  pub delete_timer-IsQueue :
      ⦃k : Kernel⦄
      → (base : ℕ) (ts : List Task) → IsQueue base ts
      → IsQueue base (delete_timer src_ip dst_ip tos type ts)
  unfolding delete_timer
  delete_timer-IsQueue base ts q = record {
    sorted = unlink-Above due_time 0 (is_timer src_ip dst_ip tos type) ts q.sorted;
    window = All-unlink (λ t. InWindow base t.time) (is_timer src_ip dst_ip tos type) ts q.window;
  }
