-- ===== src/Neighs.antt =====
-- aodv_neigh.c and aodv_neigh_2h.c, the lists: the one-hop and the two-hop neighbours, each as the
-- list of its entries from the head, in ascending order of the address.
pub mod Search
use aodv_android.Base.{
  ℕ, ◌+◌, Bool, true, false, Option, none, some, List, [], ◌∷◌, if◌then◌else◌, ◌==◌, leb, ltb,
  unlink, modify, insert_ordered, skip_below, replicate,
}
use aodv_android.Params.{
  u64, default_ett_metric, ett_probes_max, ett_probes_min, ett_fast_interval, neighbor_2h_timeout,
}

pub record Etx : Type 0 where
  pub count : ℕ
  pub send_etx : ℕ
  pub recv_etx : ℕ

pub record Ett : Type 0 where
  pub count_rcv : ℕ
  pub last_count : ℕ
  pub ett_window : ℕ
  pub sec : ℕ
  pub usec : ℕ
  pub meas_delay : ℕ
  pub recv_delays : List ℕ
  pub reset : Bool
  pub interval : ℕ
  pub fixed_rate : Bool

pub record Neigh : Type 0 where
  pub ip : ℕ
  pub lifetime : ℕ
  pub recv_rate : ℕ
  pub send_rate : ℕ
  pub etx_metric : ℕ
  pub load_seq : ℕ
  pub load : ℕ
  pub neigh_tx : List ℕ
  pub etx : Etx
  pub ett : Ett

pub record Neigh2h : Type 0 where
  pub ip : ℕ
  pub lifetime : ℕ
  pub load : ℕ
  pub load_seq : ℕ

abbrev pub neigh_ip : Neigh → ℕ
neigh_ip n = n.ip

abbrev pub neigh_2h_ip : Neigh2h → ℕ
neigh_2h_ip n = n.ip

-- delay_vector_init.
abbrev pub no_delays : List ℕ
no_delays = replicate ett_probes_max default_ett_metric

-- NEIGH_TABLESIZE is 32.
unfoldable pub new_neigh : (ip fixed_rate : ℕ) → Neigh
new_neigh ip fixed_rate = record {
  ip = ip;
  lifetime = 0;
  recv_rate = 0;
  send_rate = fixed_rate;
  etx_metric = 0;
  load_seq = 0;
  load = 0;
  neigh_tx = replicate 32 0;
  etx = record { count = 0; send_etx = 0; recv_etx = 0 };
  ett = record {
    count_rcv = 0;
    last_count = 0;
    ett_window = ett_probes_min + 1;
    sec = 0;
    usec = 0;
    meas_delay = default_ett_metric;
    recv_delays = no_delays;
    reset = false;
    interval = ett_fast_interval;
    fixed_rate = false;
  };
}

unfoldable pub new_neigh_2h : (now ip : ℕ) → Neigh2h
new_neigh_2h now ip = record {
  ip = ip;
  lifetime = u64 (now + neighbor_2h_timeout);
  load = 0;
  load_seq = 0;
}

module _ {A : Type 0} (key : A → ℕ) where
  -- The loop of find_aodv_neigh and find_aodv_neigh_2h.
  unfoldable pub find_neigh : (target_ip : ℕ) → List A → Option A
  find_neigh target_ip [] = none
  find_neigh target_ip (n ∷ ns) =
      if leb (key n) target_ip
      then (if key n == target_ip then some n else find_neigh target_ip ns)
      else none

  -- The entry at the head has the address.
  abbrev pub heads : ℕ → List A → Bool
  heads ip [] = false
  heads ip (n ∷ ns) = key n == ip

  -- The loop and the test for a duplicate that create_aodv_neigh and create_aodv_neigh_2h share.
  unfoldable pub is_duplicate : (ip : ℕ) → List A → Bool
  is_duplicate ip ns = heads ip (skip_below key ip ns)

  -- The new entry behind `prev_neigh`.
  unfoldable pub insert_neigh : A → List A → List A
  insert_neigh new ns = insert_ordered key new ns

  -- The unlinking of delete_aodv_neigh and delete_aodv_neigh_2h.
  unfoldable pub delete_neigh : (ip : ℕ) → List A → List A
  delete_neigh ip ns = unlink (λ n. key n == ip) ns

-- A write through the pointer that find_aodv_neigh gives.
unfoldable pub update_neigh : (ip : ℕ) → (Neigh → Neigh) → List Neigh → List Neigh
update_neigh ip f ns = modify (λ n. n.ip == ip) f ns

abbrev pub update_neigh_2h : (ip : ℕ) → (Neigh2h → Neigh2h) → List Neigh2h → List Neigh2h
update_neigh_2h ip f ns = modify (λ n. n.ip == ip) f ns
