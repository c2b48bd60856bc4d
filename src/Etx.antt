-- ===== src/Etx.antt =====
-- hello.c, without the state of a node: loads and their numbers, the slots of a neighbour's
-- neighbours, and the ETX of a link.
pub mod Slots
pub mod Quality
use aodv_android.Base.{
  ℕ, zero, suc, ◌+◌, ◌-◌, ◌*◌, ◌/◌, ◌%◌, ◌^◌, Bool, true, false, not, ◌&&◌, ◌||◌, Option, none,
  some, List, [], ◌∷◌, map, if◌then◌else◌, ◌==◌, leb, ltb, modify,
}
use aodv_android.Params.{u8, u64, node_traversal_time}
use aodv_android.Message.{HelloExtension}
use aodv_android.Neighs.{Neigh, Neigh2h, Etx}

-- Whether a load with this number replaces one with the old number: it is later, or the numbers
-- have started again.
unfoldable pub is_newer_load : (load_seq old_seq : ℕ) → Bool
is_newer_load load_seq old_seq =
    ltb old_seq load_seq || (ltb load_seq old_seq && ltb 64000 (old_seq - load_seq))

-- update_neigh_load for a neighbour, and for a neighbour of a neighbour.
unfoldable pub update_neigh_load : (load load_seq : ℕ) → Neigh → Neigh
unfolding is_newer_load
update_neigh_load load load_seq n =
    if is_newer_load load_seq n.load_seq then record n { load = load; load_seq = load_seq } else n

unfoldable pub update_neigh_2h_load : (load load_seq : ℕ) → Neigh2h → Neigh2h
unfolding is_newer_load
update_neigh_2h_load load load_seq n =
    if is_newer_load load_seq n.load_seq then record n { load = load; load_seq = load_seq } else n

-- The loop of update_neightx: the slot of the address, or else the first empty one.
unfoldable pub tx_slot : (neightx i : ℕ) (first_empty : Option ℕ) → List ℕ → Option ℕ
tx_slot neightx i first_empty [] = first_empty
tx_slot neightx i first_empty (t ∷ ts) =
    let rest = tx_slot neightx (i + 1) (mark first_empty) ts in
    if t == neightx then some i else rest
  where
    mark : Option ℕ → Option ℕ
    mark none = if t == 0 then some i else none
    mark (some j) = some j

unfoldable pub set_slot : ℕ → ℕ → List ℕ → List ℕ
set_slot i v [] = []
set_slot zero v (t ∷ ts) = v ∷ ts
set_slot (suc i) v (t ∷ ts) = t ∷ set_slot i v ts

abbrev pub put_slot : (neightx : ℕ) → List ℕ → Option ℕ → Option (List ℕ)
put_slot neightx ts none = none
put_slot neightx ts (some i) = some (set_slot i neightx ts)

-- `none` is a write to the slot -1, in front of the array.
unfoldable pub update_neightx : (neightx : ℕ) → List ℕ → Option (List ℕ)
unfolding tx_slot set_slot
update_neightx neightx ts = put_slot neightx ts (tx_slot neightx 0 none ts)

abbrev pub at_most_10 : ℕ → ℕ
at_most_10 x = if ltb 10 x then 10 else x

-- The loop of compute_etx: without a hello the neighbour is passed over.
unfoldable pub neigh_etx : Neigh → Neigh
neigh_etx n = if n.etx.count == 0 then n else record n {
  etx = record {
    count = 0;
    send_etx = at_most_10 n.etx.send_etx;
    recv_etx = at_most_10 n.etx.count;
  };
  etx_metric = u8 (at_most_10 n.etx.count * at_most_10 n.etx.send_etx);
}

unfoldable pub compute_etx : List Neigh → List Neigh
unfolding neigh_etx
compute_etx ns = map neigh_etx ns

-- `(u_int64_t)(rand%NODE_TRAVERSAL_TIME)`, of a signed number.
unfoldable pub hello_jitter : (rand : ℕ) → ℕ
hello_jitter rand =
    if ltb rand (2 ^ 31)
    then rand % node_traversal_time
    else u64 (2 ^ 64 - (2 ^ 32 - rand) % node_traversal_time)

abbrev pub extension_of : Neigh → HelloExtension
extension_of n = record { ip = n.ip; count = n.etx.recv_etx; load = n.load; load_seq = n.load_seq }
