-- ===== src/Invariant/Handlers.antt =====
-- What the handlers share keeps the form of the tables.
use aodv_android.Base.{ℕ, refl, ◌==◌, leb}
use aodv_android.Kernel.{Kernel}
use aodv_android.Message.{Message}
use aodv_android.Routing.{write_route, read_route}
use aodv_android.Handlers.{local_broadcast, tell_dtn, next_dst_id, refresh_neigh}
use aodv_android.Node.Timers.{insert_timer_simple, update_timer_queue, delete_timer}
use aodv_android.Invariant.{Keeps, bind-Keeps, then-Keeps, when-Keeps}
use aodv_android.Invariant.Tables.{write_route-Keeps}
use aodv_android.Invariant.Platform.{
  read_route-Keeps, insert_timer_simple-Keeps, update_timer_queue-Keeps,
}

pub local_broadcast-Keeps : (ttl : ℕ) (m : Message) → Keeps (local_broadcast ttl m)
unfolding local_broadcast
local_broadcast-Keeps ttl m = when-Keeps (leb 1 ttl) _ (λ _ w. w)

pub tell_dtn-Keeps : (a b c type : ℕ) → Keeps (tell_dtn a b c type)
unfolding tell_dtn
tell_dtn-Keeps a b c type n w = when-Keeps (n.dtn_register == 1) _ (λ _ w. w) n w

pub next_dst_id-Keeps : Keeps next_dst_id
unfolding next_dst_id
next_dst_id-Keeps n w =
    then-Keeps (write_route n.local_route _) _
      (write_route-Keeps n.local_route _ (λ _. refl) (λ _. refl))
      (bind-Keeps (read_route n.local_route) _ (read_route-Keeps n.local_route) (λ r _ w. w)) n w

module _ ⦃k : Kernel⦄ where
  pub refresh_neigh-Keeps : (ip : ℕ) → Keeps (refresh_neigh ip)
  unfolding refresh_neigh delete_timer
  refresh_neigh-Keeps ip n w =
      then-Keeps (insert_timer_simple _ _ ip) _ (insert_timer_simple-Keeps _ _ ip)
        (then-Keeps update_timer_queue _ update_timer_queue-Keeps (λ _ w. w)) _ w
