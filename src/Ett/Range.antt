-- ===== src/Ett/Range.antt =====
-- The estimation is the mean of the largest group of delays that lie close together.
use aodv_android.Base.{
  ℕ, zero, suc, ◌+◌, ◌*◌, ◌/◌, ◌^◌, ◌≡◌, ◌≢◌, ◌≤◌, ◌<◌, refl, ◌⊎◌, inl, inr, Bool, true, false,
  ◌&&◌, List, [], ◌∷◌, ltb, leb, arith, All, Above, IsSorted, count, Above-mono, Bool-cases,
}
use native.Mathlib.Nat.{mul_comm, le_trans, le-div_iff_mul-le, div-le_of_le-mul}
use native.Mathlib.Numerals.{add-one}
use aodv_android.Params.{u32, ett_range, ett_probes_max, default_ett_metric}
use aodv_android.Neighs.{Ett}
use aodv_android.Ett.{
  in_range, find_delay_range, widest_range, sum_delays, mean_delay, take, window, compute_delay,
}
use aodv_android.Ett.Delays.{itself, AtMost}

abbrev Short : List ℕ → Type 0
Short ds = All (AtMost default_ett_metric) ds

in_range-le : (d x : ℕ) → d ≤ x → x ≤ default_ett_metric → in_range d x ≡ true → x ≤ d + ett_range
unfolding in_range
in_range-le d x le short h = ground arith

-- The sum of a group lies between multiples of its least delay and of the greatest it may hold.
sum_delays-bounds :
    (k d acc : ℕ) (ds : List ℕ)
    → k ≤ find_delay_range d ds
    → Above itself d ds
    → Short ds
    → acc + k * default_ett_metric < 2 ^ 32
    → (acc + k * d ≤ sum_delays k acc ds) × (sum_delays k acc ds ≤ acc + k * (d + ett_range))
unfolding sum_delays find_delay_range
sum_delays-bounds zero d acc ds le s short fits = (omega arith, omega arith)
sum_delays-bounds (suc k) d acc [] le s short fits = ground arith
sum_delays-bounds (suc k) d acc (x ∷ xs) le s short fits =
    let near : in_range d x ≡ true = ground arith in
    let rest : k ≤ find_delay_range d xs = ground arith in
    let x_le = short.0 in
    let x_ge = s.0 in
    let top = in_range-le d x x_ge x_le near in
    let split_m : suc k * default_ett_metric ≡ k * default_ett_metric + default_ett_metric =
      omega arith in
    let split_d : suc k * d ≡ k * d + d = grind arith in
    let split_t : suc k * (d + ett_range) ≡ k * (d + ett_range) + (d + ett_range) = grind arith in
    let whole : u32 (x + acc) ≡ x + acc = omega arith in
    let ih =
      sum_delays-bounds k d (x + acc) xs rest (Above-mono itself d x xs x_ge s.1) short.1
        (omega arith) in
    rw whole (omega arith, omega arith)

-- The entries of a group are near the least.
find_delay_range-count :
    (d : ℕ) (q : ℕ → Bool) (ds : List ℕ)
    → ((x : ℕ) → d ≤ x → x ≤ d + ett_range → q x ≡ true)
    → Above itself d ds
    → Short ds
    → find_delay_range d ds ≤ count q ds
unfolding find_delay_range count
find_delay_range-count d q [] h s short = omega arith
find_delay_range-count d q (x ∷ xs) h s short = elim (Bool-cases (in_range d x)) [
  | inr far ↦ rw far (omega arith)
  | inl near ↦
      let hit = h x s.0 (in_range-le d x s.0 short.0 near) in
      let ih = find_delay_range-count d q xs h (Above-mono itself d x xs s.0 s.1) short.1 in
      rw (near, hit) (omega arith)
]

-- A group that the first loop may stop at: its size is that of the delays behind its first that are
-- near it, and its delays are among those of the window.
abbrev Group : List ℕ → ℕ → List ℕ → Type 0
Group ws c [] = c ≡ 0
Group ws c (d ∷ ds) =
    ((c ≡ 0) ⊎ (c ≡ find_delay_range d ds))
    × Above itself d ds
    × Short (d ∷ ds)
    × ((q : ℕ → Bool) → count q (d ∷ ds) ≤ count q ws)

count_tail : (q : ℕ → Bool) (d : ℕ) (ds : List ℕ) → count q ds ≤ count q (d ∷ ds)
unfolding count
count_tail q d ds = ground arith

widest_range-Group :
    (ws : List ℕ) (c : ℕ) (m ds : List ℕ)
    → Group ws c m
    → IsSorted itself ds
    → Short ds
    → ((q : ℕ → Bool) → count q ds ≤ count q ws)
    → Group ws (widest_range c m ds).0 (widest_range c m ds).1
unfolding widest_range
widest_range-Group ws c m [] g s short part = g
widest_range-Group ws c m (d ∷ ds) g s short part =
    let sorted = Above-mono itself 0 d ds (omega arith) s.1 in
    let part_tail = λ (q : ℕ → Bool). le_trans (count_tail q d ds) (part q) in
    elim (Bool-cases (ltb c (find_delay_range d ds))) [
      | inl more ↦ rw more (
          widest_range-Group ws (find_delay_range d ds) (d ∷ ds) ds (inr refl, s.1, short, part)
            sorted short.1 part_tail)
      | inr less ↦ rw less (widest_range-Group ws c m ds g sorted short.1 part_tail)
    ]

-- Within the range of `r`, to either side.
abbrev pub near : ℕ → ℕ → Bool
near r d = leb d (r + ett_range) && leb r (d + ett_range)

count_head :
    (q : ℕ → Bool) (d : ℕ) (ds : List ℕ) → q d ≡ true → 2 ≤ count q ds → 3 ≤ count q (d ∷ ds)
unfolding count
count_head q d ds h two = ground arith

near_hit : (d r x : ℕ) → d ≤ r → r ≤ d + ett_range → d ≤ x → x ≤ d + ett_range → near r x ≡ true
near_hit d r x lr rl lx xl = ground arith

quotient_between :
    (n l t total : ℕ) → 0 < n → n * l ≤ total → total ≤ n * t → (l ≤ total / n) × (total / n ≤ t)
quotient_between n l t total pos low high =
    ((le-div_iff_mul-le {x = l} pos).1 (omega (arith, low, mul_comm l n)), div-le_of_le-mul n high)

sum_start :
    (c d : ℕ) (ds : List ℕ)
    → d ≤ default_ett_metric
    → sum_delays (c + 1) 0 (d ∷ ds) ≡ sum_delays c d ds
unfolding sum_delays
sum_start c d ds le = let whole : u32 (d + 0) ≡ d = omega arith in rw (add-one c, whole) refl

mean_bounds :
    (c d : ℕ) (ds : List ℕ)
    → c ≤ 100
    → c ≡ find_delay_range d ds
    → Above itself d ds
    → Short (d ∷ ds)
    → (d ≤ sum_delays (c + 1) 0 (d ∷ ds) / (c + 1))
      × (sum_delays (c + 1) 0 (d ∷ ds) / (c + 1) ≤ d + ett_range)
mean_bounds c d ds most e s short =
    let le = short.0 in
    let b = sum_delays-bounds c d d ds (omega arith) s short.1 (omega arith) in
    let low : (c + 1) * d ≡ d + c * d = grind arith in
    let high : (c + 1) * (d + ett_range) ≡ (d + ett_range) + c * (d + ett_range) = grind arith in
    rw (sum_start c d ds le) (
      quotient_between (c + 1) d (d + ett_range) (sum_delays c d ds) (omega arith) (omega arith)
        (omega arith))

mean_near :
    (ws : List ℕ) (c : ℕ) (ds : List ℕ)
    → Group ws c ds
    → c ≤ 100
    → 2 ≤ c
    → 3 ≤ count (near (mean_delay (c, ds))) ws
mean_near ws c [] g most two = omega arith
mean_near ws c (d ∷ ds) (inl e, s, short, part) most two = omega arith
mean_near ws c (d ∷ ds) (inr e, s, short, part) most two =
    let r = sum_delays (c + 1) 0 (d ∷ ds) / (c + 1) in
    let b = mean_bounds c d ds most e s short in
    let enough : ltb c 2 ≡ false = ground arith in
    let all =
      find_delay_range-count d (near r) ds (λ x lx xl. near_hit d r x b.0 b.1 lx xl) s short.1 in
    let first_hit = near_hit d r d b.0 b.1 (omega arith) (omega arith) in
    rw enough (le_trans (count_head (near r) d ds first_hit (omega arith)) (part (near r)))

take-Above : (j k : ℕ) (ds : List ℕ) → Above itself j ds → Above itself j (take k ds)
unfolding take
take-Above j zero ds s = tt
take-Above j (suc k) [] s = tt
take-Above j (suc k) (d ∷ ds) s = (s.0, take-Above d k ds s.1)

take-Short : (k : ℕ) (ds : List ℕ) → Short ds → Short (take k ds)
unfolding take
take-Short zero ds s = tt
take-Short (suc k) [] s = tt
take-Short (suc k) (d ∷ ds) s = (s.0, take-Short k ds s.1)

count-take : (q : ℕ → Bool) (k : ℕ) (ds : List ℕ) → count q (take k ds) ≤ k
unfolding take count
count-take q zero ds = omega arith
count-take q (suc k) [] = omega arith
count-take q (suc k) (d ∷ ds) = ground (arith, count-take q k ds)

Group-le : (ws : List ℕ) (c : ℕ) (ds : List ℕ) → Group ws c ds → c ≤ count (λ _. true) ws
unfolding count
Group-le ws c [] g = omega arith
Group-le ws c (d ∷ ds) (inl e, s, short, part) = omega arith
Group-le ws c (d ∷ ds) (inr e, s, short, part) =
    let all = find_delay_range-count d (λ _. true) ds (λ _ _ _. refl) s short.1 in
    omega (arith, part (λ _. true))

Group-start : (ws : List ℕ) → IsSorted itself ws → Short ws → Group ws 0 ws
Group-start [] s short = refl
Group-start (d ∷ ds) s short = (inl refl, s.1, short, λ _. omega arith)

mean_or_zero :
    (ws : List ℕ) (o : ℕ × List ℕ)
    → Group ws o.0 o.1
    → o.0 ≤ 100
    → mean_delay o ≢ 0
    → 3 ≤ count (near (mean_delay o)) ws
mean_or_zero ws (c, ds) g most found = mean_near ws c ds g most (ground (arith, found))

-- Where the vector is in ascending order, of delays of at most a second, and the window is at most
-- ETT_PROBES_MAX, an estimation that compute_delay gives is within 50 microseconds of at least three
-- of the delays in the window.
pub compute_delay-near :
    (e : Ett)
    → e.ett_window ≤ ett_probes_max
    → IsSorted itself e.recv_delays
    → All (AtMost default_ett_metric) e.recv_delays
    → compute_delay e ≢ 0
    → 3 ≤ count (near (compute_delay e)) (window e)
unfolding compute_delay
compute_delay-near e fits sorted short found =
    let ws = window e in
    let s = take-Above 0 e.ett_window e.recv_delays sorted in
    let all_short = take-Short e.ett_window e.recv_delays short in
    let g =
      widest_range-Group ws 0 ws ws (Group-start ws s all_short) s all_short (λ _. omega arith) in
    mean_or_zero ws (widest_range 0 ws ws) g
      (omega (arith, Group-le ws _ _ g, count-take (λ _. true) e.ett_window e.recv_delays)) found
