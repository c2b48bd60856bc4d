-- ===== src/Ett/Delays.antt =====
-- The vector of delays: the delays of the round in ascending order, then default values.
use aodv_android.Base.{
  ℕ, zero, suc, ◌≡◌, ◌≤◌, ◌∙◌, ap, refl, List, [], ◌∷◌, ◌++◌, if◌then◌else◌, ltb, arith, length,
  replicate, All, Above, IsSorted, insert_ordered, insert_ordered-Above,
}
use aodv_android.Params.{default_ett_metric}
use aodv_android.Neighs.{Ett}
use aodv_android.Ett.{shift_in, add_delay, delay_vector_add}

abbrev pub itself : ℕ → ℕ
itself d = d

abbrev pub AtMost : ℕ → ℕ → Type 0
AtMost top d = d ≤ top

-- A delay of a second or more counts as the default.
abbrev pub capped : ℕ → ℕ
capped d = if ltb d default_ett_metric then d else default_ett_metric

shift_in-length :
    (xs : List ℕ) (d y : ℕ) (ys : List ℕ) → shift_in (length xs) d (xs ++ y ∷ ys) ≡ d ∷ xs ++ ys
unfolding shift_in
shift_in-length [] d y ys = refl
shift_in-length (x ∷ xs) d y ys = ap (λ zs. d ∷ zs) (shift_in-length xs x y ys)

insert_ordered-least :
    (d : ℕ) (xs : List ℕ) → Above itself d xs → insert_ordered itself d xs ≡ d ∷ xs
unfolding insert_ordered
insert_ordered-least d [] s = refl
insert_ordered-least d (x ∷ xs) s = ground arith

add_delay-ordered :
    (k : ℕ) (xs : List ℕ) (d top : ℕ) (ys : List ℕ)
    → Above itself k xs
    → d ≤ top
    → add_delay (length xs) d (xs ++ top ∷ ys) ≡ insert_ordered itself d xs ++ ys
unfolding add_delay insert_ordered shift_in
add_delay-ordered k [] d top ys s le = ground arith
add_delay-ordered k (x ∷ xs) d top ys s le = ground (
  arith,
  add_delay-ordered x xs d top ys s.1 le,
  shift_in-length xs x top ys,
  insert_ordered-least x xs,
)

add_delay-capped :
    (count d : ℕ) (xs : List ℕ)
    → All (AtMost default_ett_metric) xs
    → add_delay count d xs ≡ add_delay count (capped d) xs
unfolding add_delay shift_in
add_delay-capped count d [] h = refl
add_delay-capped zero d (x ∷ xs) h = let h0 = h.0 in ground arith
add_delay-capped (suc count) d (x ∷ xs) h =
    let h0 = h.0 in ground (arith, add_delay-capped count d xs h.1)

All-defaults :
    (xs : List ℕ) (m : ℕ)
    → All (AtMost default_ett_metric) xs
    → All (AtMost default_ett_metric) (xs ++ replicate m default_ett_metric)
All-defaults [] zero h = tt
All-defaults [] (suc m) h = (omega arith, All-defaults [] m tt)
All-defaults (x ∷ xs) m h = (h.0, All-defaults xs m h.1)

capped-le : (d : ℕ) → capped d ≤ default_ett_metric
capped-le d = ground arith

-- Where the vector holds the delays of the round, as many as were counted, in ascending order and
-- of at most a second, and default values behind them, delay_vector_add puts the new delay, or the
-- default for a longer one, in its place among them, and loses only a default value.
pub delay_vector_add-ordered :
    (e : Ett) (d : ℕ) (xs : List ℕ) (m : ℕ)
    → e.count_rcv ≡ length xs
    → e.recv_delays ≡ xs ++ replicate (suc m) default_ett_metric
    → IsSorted itself xs
    → All (AtMost default_ett_metric) xs
    → ((delay_vector_add d e).recv_delays
        ≡ insert_ordered itself (capped d) xs ++ replicate m default_ett_metric)
      × IsSorted itself (insert_ordered itself (capped d) xs)
unfolding delay_vector_add
delay_vector_add-ordered e d xs m counted holds sorted short = (
  (rw (counted, holds)
      (add_delay-capped (length xs) d (xs ++ replicate (suc m) default_ett_metric)
          (All-defaults xs (suc m) short)
        ∙ add_delay-ordered 0 xs (capped d) default_ett_metric _ sorted (capped-le d))),
  insert_ordered-Above itself 0 (capped d) xs (omega arith) sorted,
)
