-- ===== src/RouteTable/Distinct.antt =====
-- Entries have distinct addresses, so a write through the pointer to an entry changes that entry.
use aodv_android.Base.{
  ℕ, ◌≡◌, inl, inr, Bool, true, false, some, List, [], ◌∷◌, arith, ◌==◌, ltb, first, modify, unlink,
  insert_ordered, Bool-cases, All, All-unlink,
}
use aodv_android.RouteTable.{Route, at, update_route, insert_aodv_route, remove_aodv_route}

abbrev pub Differs : ℕ → Route → Type 0
Differs a r = (r.addr == a) ≡ false

abbrev pub Distinct : List Route → Type 0
Distinct [] = Unit {0}
Distinct (r ∷ rs) = All (Differs r.addr) rs × Distinct rs

All-first :
    (a : ℕ) (p : Route → Bool) (rs : List Route) (r : Route)
    → All (Differs a) rs
    → first p rs ≡ some r
    → Differs a r
unfolding first
All-first a p [] r h e = ground arith
All-first a p (x ∷ xs) r h e = elim (Bool-cases (p x)) [
  | inl hit ↦ let same : x ≡ r = ground (arith, e, hit) in rw same at h.0
  | inr miss ↦ All-first a p xs r h.1 (rw miss at e)
]

-- The write reaches the entry that the search found.
pub first-update :
    (p : Route → Bool) (f : Route → Route) (rs : List Route) (r : Route)
    → Distinct rs
    → first p rs ≡ some r
    → p (f r) ≡ true
    → first p (update_route r.addr f rs) ≡ some (f r)
unfolding first update_route modify
first-update p f [] r d e h = ground arith
first-update p f (x ∷ xs) r d e h = elim (Bool-cases (p x)) [
  | inl hit ↦ ground (arith, e, hit, h)
  | inr miss ↦
      let found : first p xs ≡ some r = rw miss at e in
      let other = All-first x.addr p xs r d.0 found in
      ground (arith, first-update p f xs r d.1 found, other, miss)
]

-- The entry that the search found is the one at its address.
pub first-at :
    (p : Route → Bool) (rs : List Route) (r : Route)
    → Distinct rs
    → first p rs ≡ some r
    → first (at r.addr) rs ≡ some r
unfolding first
first-at p [] r d e = ground arith
first-at p (x ∷ xs) r d e = elim (Bool-cases (p x)) [
  | inl hit ↦ ground (arith, e, hit)
  | inr miss ↦
      let found : first p xs ≡ some r = rw miss at e in
      let other = All-first x.addr p xs r d.0 found in
      ground (arith, first-at p xs r d.1 found, other)
]

pub All-Differs-update :
    (a b : ℕ) (f : Route → Route) (rs : List Route)
    → ((r : Route) → (f r).addr ≡ r.addr)
    → All (Differs a) rs
    → All (Differs a) (update_route b f rs)
unfolding update_route modify
All-Differs-update a b f [] same h = tt
All-Differs-update a b f (x ∷ xs) same h = elim (Bool-cases (x.addr == b)) [
  | inl hit ↦ rw (hit, same x) h
  | inr miss ↦ rw miss (h.0, All-Differs-update a b f xs same h.1)
]

pub update-Distinct :
    (b : ℕ) (f : Route → Route) (rs : List Route)
    → ((r : Route) → (f r).addr ≡ r.addr)
    → Distinct rs
    → Distinct (update_route b f rs)
unfolding update_route modify
update-Distinct b f [] same d = tt
update-Distinct b f (x ∷ xs) same d = elim (Bool-cases (x.addr == b)) [
  | inl hit ↦ rw (hit, same x) d
  | inr miss ↦ rw miss (All-Differs-update x.addr b f xs same d.0, update-Distinct b f xs same d.1)
]

pub All-Differs-insert :
    (a : ℕ) (new : Route) (rs : List Route)
    → Differs a new
    → All (Differs a) rs
    → All (Differs a) (insert_aodv_route new rs)
unfolding insert_aodv_route insert_ordered
All-Differs-insert a new [] n h = (n, tt)
All-Differs-insert a new (x ∷ xs) n h = elim (Bool-cases (ltb x.dst_ip new.dst_ip)) [
  | inl lt ↦ rw lt (h.0, All-Differs-insert a new xs n h.1)
  | inr ge ↦ rw ge (n, h)
]

Differs-sym : (new r : Route) → Differs new.addr r → Differs r.addr new
Differs-sym new r h = ground arith

pub insert-Distinct :
    (new : Route) (rs : List Route)
    → All (Differs new.addr) rs
    → Distinct rs
    → Distinct (insert_aodv_route new rs)
unfolding insert_aodv_route insert_ordered
insert-Distinct new [] h d = (tt, tt)
insert-Distinct new (x ∷ xs) h d = elim (Bool-cases (ltb x.dst_ip new.dst_ip)) [
  | inl lt ↦
      rw lt (
        All-Differs-insert x.addr new xs (Differs-sym new x h.0) d.0,
        insert-Distinct new xs h.1 d.1,
      )
  | inr ge ↦ rw ge (h, d)
]

pub remove-Distinct :
    (dead : ℕ) (rs : List Route) → Distinct rs → Distinct (remove_aodv_route dead rs)
unfolding remove_aodv_route unlink
remove-Distinct dead [] d = tt
remove-Distinct dead (x ∷ xs) d = elim (Bool-cases (x.addr == dead)) [
  | inl hit ↦ rw hit d.1
  | inr miss ↦ rw miss (All-unlink (Differs x.addr) (at dead) xs d.0, remove-Distinct dead xs d.1)
]
