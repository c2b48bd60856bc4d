-- ===== src/Message.antt =====
-- The packets of aodv.h. A constructor stands for the `type` byte; flag bits and reserved fields,
-- which the handlers write and never read, are left out.
use aodv_android.Base.{ℕ, Bool, List}

pub record Rreq : Type 0 where
  pub tos : ℕ
  pub num_hops : ℕ
  pub gateway : ℕ
  pub dst_ip : ℕ
  pub src_ip : ℕ
  pub dst_id : ℕ
  pub path_metric : ℕ
  pub dttl : ℕ

pub record Rrep : Type 0 where
  pub tos : ℕ
  pub num_hops : ℕ
  pub dst_ip : ℕ
  pub src_ip : ℕ
  pub dst_id : ℕ
  pub gateway : ℕ
  pub path_metric : ℕ
  pub src_id : ℕ
  pub dttl : ℕ
  pub x : ℕ
  pub y : ℕ

pub record Rerr : Type 0 where
  pub num_hops : ℕ
  pub dst_ip : ℕ
  pub dst_id : ℕ
  pub last_avail_ip : ℕ
  pub src_ip : ℕ

pub record Rcvp : Type 0 where
  pub num_hops : ℕ
  pub dst_ip : ℕ
  pub dst_id : ℕ
  pub src_ip : ℕ
  pub last_avail_ip : ℕ

pub record Rrdp : Type 0 where
  pub num_hops : ℕ
  pub dst_ip : ℕ
  pub src_ip : ℕ
  pub tos : ℕ

pub record RreqSt : Type 0 where
  pub num_hops : ℕ
  pub gw_ip : ℕ
  pub dst_id : ℕ
  pub path_metric : ℕ

pub record HelloExtension : Type 0 where
  pub ip : ℕ
  pub count : ℕ
  pub load : ℕ
  pub load_seq : ℕ

-- With the `neigh_count` extensions that follow it.
pub record Hello : Type 0 where
  pub load : ℕ
  pub load_seq : ℕ
  pub extensions : List HelloExtension

-- The arrival times are those that valid_aodv_packet writes.
pub record SProbe : Type 0 where
  pub n_probe : ℕ
  pub dst_ip : ℕ
  pub src_ip : ℕ
  pub sec : ℕ
  pub usec : ℕ

pub record LProbe : Type 0 where
  pub n_probe : ℕ
  pub my_rate : ℕ
  pub dst_ip : ℕ
  pub src_ip : ℕ
  pub sec : ℕ
  pub usec : ℕ
  pub last_meas_delay : ℕ

pub record EttInfo : Type 0 where
  pub fixed_rate : Bool
  pub my_rate : ℕ
  pub last_meas_delay : ℕ

pub data Message : Type 0 where
  rreq : Rreq → Message
  rrep : Rrep → Message
  rerr : Rerr → Message
  rcvp : Rcvp → Message
  rrdp : Rrdp → Message
  st_rreq : RreqSt → Message
  hello : Hello → Message
  s_probe : SProbe → Message
  l_probe : LProbe → Message
  ett_info : EttInfo → Message
