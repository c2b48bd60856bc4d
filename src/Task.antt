-- ===== src/Task.antt =====
-- The `task` of aodv.h, and create_task and is_control_task of task_queue.c.
use aodv_android.Base.{ℕ, Bool, false, ◌||◌, Option, none, ◌==◌, List, [], ◌∷◌}
use aodv_android.Message.{Message}

-- `payload` is the packet at `data`.
pub record Task : Type 0 where
  pub type : ℕ
  pub time : ℕ
  pub dst_ip : ℕ
  pub src_ip : ℕ
  pub ttl : ℕ
  pub retries : ℕ
  pub tos : ℕ
  pub payload : Option Message

abbrev pub task_hello : ℕ
task_hello = 102

abbrev pub task_neighbor : ℕ
task_neighbor = 103

abbrev pub task_cleanup : ℕ
task_cleanup = 104

abbrev pub task_route_cleanup : ℕ
task_route_cleanup = 105

abbrev pub task_st : ℕ
task_st = 106

abbrev pub task_gw_cleanup : ℕ
task_gw_cleanup = 107

abbrev pub task_send_ett : ℕ
task_send_ett = 109

abbrev pub task_recv_s_ett : ℕ
task_recv_s_ett = 110

abbrev pub task_recv_l_ett : ℕ
task_recv_l_ett = 111

abbrev pub task_ett_cleanup : ℕ
task_ett_cleanup = 112

abbrev pub task_neighbor_2h : ℕ
task_neighbor_2h = 113

abbrev pub task_recv_rreq : ℕ
task_recv_rreq = 116

abbrev pub task_resend_rreq : ℕ
task_resend_rreq = 119

abbrev pub task_dtn_hello : ℕ
task_dtn_hello = 121

abbrev pub task_recv_rcvp : ℕ
task_recv_rcvp = 122

abbrev pub task_recv_rrdp : ℕ
task_recv_rrdp = 123

abbrev pub task_ett_info : ℕ
task_ett_info = 124

abbrev pub task_send_rrep : ℕ
task_send_rrep = 125

abbrev pub task_recv_rerr : ℕ
task_recv_rerr = 126

abbrev pub task_recv_strreq : ℕ
task_recv_strreq = 128

abbrev pub task_recv_hello : ℕ
task_recv_hello = 129

abbrev pub task_recv_rrep : ℕ
task_recv_rrep = 130

abbrev pub task_update_load : ℕ
task_update_load = 131

abbrev pub task_gen_rreq : ℕ
task_gen_rreq = 132

-- The new task after its allocation; `now` is getcurrtime().
unfoldable pub create_task : (now type : ℕ) → Task
create_task now type = record {
  type = type;
  time = now;
  dst_ip = 0;
  src_ip = 0;
  ttl = 0;
  retries = 0;
  tos = 0;
  payload = none;
}

unfoldable pub is_one_of : ℕ → List ℕ → Bool
is_one_of t [] = false
is_one_of t (u ∷ us) = (t == u) || is_one_of t us

abbrev pub control_types : List ℕ
control_types =
    task_hello ∷ task_neighbor ∷ task_cleanup ∷ task_route_cleanup ∷ task_recv_rreq
    ∷ task_resend_rreq ∷ task_recv_rerr ∷ task_recv_hello ∷ task_recv_rrep ∷ task_send_rrep
    ∷ task_st ∷ task_gw_cleanup ∷ task_recv_strreq ∷ task_ett_cleanup ∷ task_neighbor_2h
    ∷ task_update_load ∷ task_recv_rcvp ∷ task_recv_rrdp ∷ task_dtn_hello ∷ task_gen_rreq ∷ []

-- The switch: the four ETT probe types and the default are 0.
unfoldable pub is_control_task : ℕ → Bool
unfolding is_one_of
is_control_task t = is_one_of t control_types
