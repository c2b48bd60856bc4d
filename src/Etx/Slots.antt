-- ===== src/Etx/Slots.antt =====
-- The slots of a neighbour's neighbours as the set that the metrics read from them.
use aodv_android.Base.{
  ℕ, zero, suc, ◌+◌, ◌≡◌, ◌≢◌, ◌↔◌, ◌∙◌, sym, ap, refl, inl, inr, true, false, ◌||◌, Option, none,
  some, List, [], ◌∷◌, if◌then◌else◌, ◌==◌, arith, length, Option-cases, count,
}
use aodv_android.Etx.{tx_slot, set_slot, put_slot, update_neightx}
use aodv_android.Metric.{is_tx}

abbrev one_on : Option ℕ → Option ℕ
one_on none = none
one_on (some k) = some (suc k)

-- The place of the first slot that holds `v`.
abbrev index : ℕ → List ℕ → Option ℕ
index v [] = none
index v (t ∷ ts) = let rest = one_on (index v ts) in if t == v then some 0 else rest

abbrev offset : ℕ → Option ℕ → Option ℕ
offset i none = none
offset i (some k) = some (i + k)

abbrev or_else : Option ℕ → Option ℕ → Option ℕ
or_else none o = o
or_else (some k) o = some k

offset-one_on : (i : ℕ) (o : Option ℕ) → offset (i + 1) o ≡ offset i (one_on o)
offset-one_on i none = refl
offset-one_on i (some k) = ground arith

offset-zero : (o : Option ℕ) → offset 0 o ≡ o
offset-zero none = refl
offset-zero (some k) = ground arith

tx_slot-some :
    (x i j : ℕ) (ts : List ℕ) → tx_slot x i (some j) ts ≡ or_else (offset i (index x ts)) (some j)
unfolding tx_slot
tx_slot-some x i j [] = refl
tx_slot-some x i j (t ∷ ts) =
    let ih = tx_slot-some x (i + 1) j ts in
    let shift = offset-one_on i (index x ts) in ground (arith, ih, shift)

tx_slot-none :
    (x i : ℕ) (ts : List ℕ)
    → tx_slot x i none ts ≡ or_else (offset i (index x ts)) (offset i (index 0 ts))
unfolding tx_slot
tx_slot-none x i [] = refl
tx_slot-none x i (t ∷ ts) =
    let ih = tx_slot-none x (i + 1) ts in
    let found = tx_slot-some x (i + 1) i ts in
    let shift = offset-one_on i (index x ts) in
    let shift_zero = offset-one_on i (index 0 ts) in ground (arith, ih, found, shift, shift_zero)

one_on-zero : (o : Option ℕ) → one_on o ≢ some 0
one_on-zero none h = ground arith
one_on-zero (some k) h = ground arith

one_on-suc : (o : Option ℕ) (k : ℕ) → one_on o ≡ some (suc k) → o ≡ some k
one_on-suc none k h = ground arith
one_on-suc (some j) k h = ground arith

one_on-none : (o : Option ℕ) → one_on o ≡ none → o ≡ none
one_on-none none h = refl
one_on-none (some j) h = ground arith

index-zero : (v t : ℕ) (ts : List ℕ) → index v (t ∷ ts) ≡ some 0 → t ≡ v
index-zero v t ts h = ground (arith, one_on-zero (index v ts))

index-suc :
    (v t k : ℕ) (ts : List ℕ)
    → index v (t ∷ ts) ≡ some (suc k)
    → ((t == v) ≡ false) × (index v ts ≡ some k)
index-suc v t k ts h = ground (arith, one_on-suc (index v ts) k)

-- An address that stands in a slot stays there.
set_slot-same :
    (x k : ℕ) (ts : List ℕ)
    → x ≢ 0
    → index x ts ≡ some k
    → (set_slot k x ts ≡ ts) × (is_tx x ts ≡ true)
unfolding set_slot is_tx
set_slot-same x k [] pos h = ground arith
set_slot-same x zero (t ∷ ts) pos h =
    let e = index-zero x t ts h in (ap (λ y. y ∷ ts) (sym e), ground (arith, e))
set_slot-same x (suc k) (t ∷ ts) pos h =
    let e = index-suc x t k ts h in
    let ih = set_slot-same x k ts pos e.1 in (ap (λ ys. t ∷ ys) ih.0, ground (arith, ih.1))

-- An empty slot takes the address.
set_slot-empty :
    (x k y : ℕ) (ts : List ℕ)
    → x ≢ 0
    → index 0 ts ≡ some k
    → is_tx y (set_slot k x ts) ≡ (x == y || is_tx y ts)
unfolding set_slot is_tx
set_slot-empty x k y [] pos h = ground arith
set_slot-empty x zero y (t ∷ ts) pos h = let e = index-zero 0 t ts h in ground (arith, e)
set_slot-empty x (suc k) y (t ∷ ts) pos h =
    let e = index-suc 0 t k ts h in ground (arith, set_slot-empty x k y ts pos e.1)

set_slot-length : (k x : ℕ) (ts : List ℕ) → length (set_slot k x ts) ≡ length ts
unfolding set_slot
set_slot-length k x [] = refl
set_slot-length zero x (t ∷ ts) = refl
set_slot-length (suc k) x (t ∷ ts) = ap suc (set_slot-length k x ts)

index-none_tx : (x : ℕ) (ts : List ℕ) → index x ts ≡ none → is_tx x ts ≡ false
unfolding is_tx
index-none_tx x [] h = refl
index-none_tx x (t ∷ ts) h = ground (arith, one_on-none (index x ts), index-none_tx x ts)

index-none_empty : (ts : List ℕ) → (index 0 ts ≡ none) ↔ (count (λ t. t == 0) ts ≡ 0)
unfolding count
index-none_empty [] = ground arith
index-none_empty (t ∷ ts) =
    let ih = index-none_empty ts in
    elim (Option-cases (index 0 ts)) [
      | inl e ↦ ground (arith, ih, e)
      | inr (k, e) ↦ ground (arith, ih, e)
    ]

slot : (x : ℕ) (ts : List ℕ) → tx_slot x 0 none ts ≡ or_else (index x ts) (index 0 ts)
slot x ts = tx_slot-none x 0 ts ∙ rw (offset-zero (index x ts), offset-zero (index 0 ts)) refl

-- What update_neightx gives for the place of the address and of the first empty slot.
abbrev pub Outcome : ℕ → List ℕ → Option (List ℕ) → Type 0
Outcome x ts none = (is_tx x ts ≡ false) × (count (λ t. t == 0) ts ≡ 0)
Outcome x ts (some ts') =
    ((y : ℕ) → is_tx y ts' ≡ (x == y || is_tx y ts)) × (length ts' ≡ length ts)

put_slot-Outcome :
    (x : ℕ) (ts : List ℕ) (o o' : Option ℕ)
    → x ≢ 0
    → index x ts ≡ o
    → index 0 ts ≡ o'
    → Outcome x ts (put_slot x ts (or_else o o'))
put_slot-Outcome x ts (some k) o' pos e e' =
    let same = set_slot-same x k ts pos e in
    ((λ y. rw same.0 (grind (arith, same.1))), set_slot-length k x ts)
put_slot-Outcome x ts none (some k) pos e e' =
    ((λ y. set_slot-empty x k y ts pos e'), set_slot-length k x ts)
put_slot-Outcome x ts none none pos e e' = (index-none_tx x ts e, (index-none_empty ts).0 e')

-- For an address that is not zero, update_neightx adds the address to those that the slots hold,
-- keeps all others and the number of slots; it writes in front of the array only where the address
-- stands in no slot and no slot is empty.
pub update_neightx-Outcome : (x : ℕ) (ts : List ℕ) → x ≢ 0 → Outcome x ts (update_neightx x ts)
unfolding update_neightx
update_neightx-Outcome x ts pos =
    rw (slot x ts) (put_slot-Outcome x ts (index x ts) (index 0 ts) pos refl refl)
