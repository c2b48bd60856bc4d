-- ===== src/Hooks.antt =====
-- packet_in.c and packet_out.c: the two hooks on the packets of the device.
pub mod Input
pub mod Output
pub mod Answers
pub mod Decisions
pub mod Arrivals
use aodv_android.Base.{
  ℕ, ◌+◌, ◌*◌, Bool, true, false, Option, none, some, List, [], ◌∷◌, length, ◌==◌,
}
use aodv_android.Params.{u32}
use aodv_android.Message.{Message}
use aodv_android.Task.{
  Task, task_recv_rreq, task_recv_rerr, task_recv_hello, task_recv_rrep, task_recv_rcvp,
  task_recv_rrdp, task_recv_strreq, task_recv_s_ett, task_recv_l_ett, task_ett_info,
}

-- NF_ACCEPT, NF_DROP and NF_QUEUE.
pub data Verdict : Type 0 where
  accept drop queue : Verdict

-- What a hook answers, and the task that it puts into the queue.
pub record Answer : Type 0 where
  pub verdict : Verdict
  pub task : Option Task

abbrev pub answer : Verdict → Answer
answer v = record { verdict = v; task = none }

abbrev pub answer_with : Verdict → Task → Answer
answer_with v t = record { verdict = v; task = some t }

-- The headers of a packet, in network order, and its data. `message` is what the handler of its type
-- reads there, and `none` for a type that is not known; for a hello it has as many extensions as
-- `neigh_count` says. `words` are the first four words of the data.
pub record Packet : Type 0 where
  pub is_ip : Bool
  pub is_udp : Bool
  pub saddr : ℕ
  pub daddr : ℕ
  pub tos : ℕ
  pub ttl : ℕ
  pub dest : ℕ
  pub size : ℕ
  pub message : Option Message
  pub words : ℕ × ℕ × ℕ × ℕ

-- The sizes of the packets of aodv.h, which the compiler chooses.
pub record Sizes : Type 0 where
  pub rreq_st : ℕ
  pub rrep : ℕ
  pub rerr : ℕ
  pub hello : ℕ
  pub hello_extension : ℕ
  pub rcvp : ℕ
  pub rrdp : ℕ
  pub s_probe : ℕ
  pub l_probe : ℕ
  pub rreq : ℕ
  pub ett_info : ℕ

unfoldable pub message_size : Sizes → Message → ℕ
message_size z (Message.st_rreq p) = z.rreq_st
message_size z (Message.rrep p) = z.rrep
message_size z (Message.rerr p) = z.rerr
message_size z (Message.hello p) = z.hello + z.hello_extension * length p.extensions
message_size z (Message.rcvp p) = z.rcvp
message_size z (Message.rrdp p) = z.rrdp
message_size z (Message.s_probe p) = z.s_probe
message_size z (Message.l_probe p) = z.l_probe
message_size z (Message.rreq p) = z.rreq
message_size z (Message.ett_info p) = z.ett_info

-- The types of the packets, which are those of the tasks.
unfoldable pub message_type : Message → ℕ
message_type (Message.st_rreq p) = task_recv_strreq
message_type (Message.rrep p) = task_recv_rrep
message_type (Message.rerr p) = task_recv_rerr
message_type (Message.hello p) = task_recv_hello
message_type (Message.rcvp p) = task_recv_rcvp
message_type (Message.rrdp p) = task_recv_rrdp
message_type (Message.s_probe p) = task_recv_s_ett
message_type (Message.l_probe p) = task_recv_l_ett
message_type (Message.rreq p) = task_recv_rreq
message_type (Message.ett_info p) = task_ett_info

-- The time of arrival, on the packets of a pair.
unfoldable pub stamp : (sec usec : ℕ) → Message → Message
stamp sec usec (Message.s_probe p) = Message.s_probe (record p { sec = u32 sec; usec = u32 usec })
stamp sec usec (Message.l_probe p) = Message.l_probe (record p { sec = u32 sec; usec = u32 usec })
stamp sec usec (Message.st_rreq p) = Message.st_rreq p
stamp sec usec (Message.rrep p) = Message.rrep p
stamp sec usec (Message.rerr p) = Message.rerr p
stamp sec usec (Message.hello p) = Message.hello p
stamp sec usec (Message.rcvp p) = Message.rcvp p
stamp sec usec (Message.rrdp p) = Message.rrdp p
stamp sec usec (Message.rreq p) = Message.rreq p
stamp sec usec (Message.ett_info p) = Message.ett_info p

unfoldable pub valid_aodv_packet : Sizes → (numbytes : ℕ) → Option Message → Bool
unfolding message_size
valid_aodv_packet z numbytes none = false
valid_aodv_packet z numbytes (some m) = numbytes == message_size z m
