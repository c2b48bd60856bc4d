-- ===== src/TaskQueue/Priority.antt =====
-- What the queues of task_queue.c promise together: a priority queue with two classes.
use mathlib.Core.Path.{subst}
use aodv_android.Base.{
  ◌≡◌, refl, ap, inl, inr, Bool, true, false, Option, none, some, List, [], ◌∷◌, ◌++◌,
  if◌then◌else◌, map, Bool-cases, not, suc, length, arith, sym,
}

module _ {A : Type 0} where
  abbrev pub pass_over : A → Option (A × List A) → Option (A × List A)
  pass_over x none = none
  pass_over x (some (c, rest)) = some (c, x ∷ rest)

  abbrev pub pick_control : (control : A → Bool) → List A → Option (A × List A)
  pick_control control [] = none
  pick_control control (x ∷ xs) =
      let later = pick_control control xs in if control x then some (x, xs) else pass_over x later

  abbrev pub or_oldest : Option (A × List A) → List A → Option (A × List A)
  or_oldest (some picked) xs = some picked
  or_oldest none [] = none
  or_oldest none (x ∷ xs) = some (x, xs)

  -- The oldest task of the class `control`, or, without one, the oldest task; and the others.
  abbrev pub pick : (control : A → Bool) → List A → Option (A × List A)
  pick control xs = or_oldest (pick_control control xs) xs

  abbrev pub left : Option (A × List A) → List A
  left none = []
  left (some (x, rest)) = rest

  abbrev pub picked : Option (A × List A) → Option A
  picked none = none
  picked (some (x, rest)) = some x

module _ {A B : Type 0} (f : A → B) where
  abbrev pub map_pick : Option (A × List A) → Option (B × List B)
  map_pick none = none
  map_pick (some (x, rest)) = some (f x, map f rest)

  module _ (control : B → Bool) where
    pick_control-map :
        (xs : List A)
        → pick_control control (map f xs) ≡ map_pick (pick_control (λ x. control (f x)) xs)
    pick_control-map [] = refl
    pick_control-map (x ∷ xs) = elim (Bool-cases (control (f x))) [
      | inl hit ↦ rw hit refl
      | inr miss ↦
          let rest = pick_control-map xs in
          rw (miss, rest) (passed x (pick_control (λ x. control (f x)) xs))
    ]
      where
        passed :
            (x : A) (o : Option (A × List A))
            → pass_over (f x) (map_pick o) ≡ map_pick (pass_over x o)
        passed x none = refl
        passed x (some p) = refl

    pub pick-map : (xs : List A) → pick control (map f xs) ≡ map_pick (pick (λ x. control (f x)) xs)
    pick-map xs = rw (pick_control-map xs) (by_pick (pick_control (λ x. control (f x)) xs) xs)
      where
        by_pick :
            (o : Option (A × List A)) (xs : List A)
            → or_oldest (map_pick o) (map f xs) ≡ map_pick (or_oldest o xs)
        by_pick none [] = refl
        by_pick none (x ∷ xs) = refl
        by_pick (some p) xs = refl

-- The order in which a priority queue without arrivals gives its tasks.
module _ {A : Type 0} (control : A → Bool) where
  abbrev of_class : Bool → List A → List A
  of_class b [] = []
  of_class b (x ∷ xs) =
      let rest = of_class b xs in
      if (if b then control x else not (control x)) then x ∷ rest else rest

  abbrev pub in_order : List A → List A
  in_order xs = of_class true xs ++ of_class false xs

  abbrev tail : List A → List A
  tail [] = []
  tail (x ∷ xs) = xs

  -- What the search for a control task says of the classes.
  abbrev Found : Option (A × List A) → List A → Type 0
  Found none xs = (of_class true xs ≡ []) × (of_class false xs ≡ xs)
  Found (some (c, rest)) xs =
      (of_class true xs ≡ c ∷ of_class true rest)
      × (of_class false xs ≡ of_class false rest)
      × (length xs ≡ suc (length rest))

  passed :
      (x : A) (xs : List A) (o : Option (A × List A))
      → control x ≡ false
      → Found o xs
      → Found (pass_over x o) (x ∷ xs)
  passed x xs none miss f = rw miss (f.0, ap (λ ys. x ∷ ys) f.1)
  passed x xs (some (c, rest)) miss f = rw miss (f.0, ap (λ ys. x ∷ ys) f.1, ap suc f.2)

  skips :
      (x : A) (xs : List A)
      → control x ≡ false
      → pick_control control (x ∷ xs) ≡ pass_over x (pick_control control xs)
  skips x xs miss = rw miss refl

  pick_control-Found : (xs : List A) → Found (pick_control control xs) xs
  pick_control-Found [] = (refl, refl)
  pick_control-Found (x ∷ xs) = elim (Bool-cases (control x)) [
    | inl hit ↦ rw hit (rw hit refl, rw hit refl, refl)
    | inr miss ↦
        subst (λ o. Found o (x ∷ xs)) (sym (skips x xs miss))
          (passed x xs (pick_control control xs) miss (pick_control-Found xs))
  ]

  -- What the queue gives stands first in the order, and the rest keeps its order.
  abbrev pub Ordered : Option (A × List A) → List A → Type 0
  Ordered none xs = xs ≡ []
  Ordered (some (x, rest)) xs = (in_order xs ≡ x ∷ in_order rest) × (length xs ≡ suc (length rest))

  pub pick-Ordered : (xs : List A) → Ordered (pick control xs) xs
  pick-Ordered xs = by_pick (pick_control control xs) xs (pick_control-Found xs)
    where
      by_pick : (o : Option (A × List A)) (xs : List A) → Found o xs → Ordered (or_oldest o xs) xs
      by_pick none [] f = refl
      by_pick none (x ∷ xs) f = elim (Bool-cases (control x)) [
        | inl hit ↦ let clash : x ∷ of_class true xs ≡ [] = rw hit at f.0 in ground (arith, clash)
        | inr miss ↦
            let early : of_class true xs ≡ [] = rw miss at f.0 in
            let late : x ∷ of_class false xs ≡ x ∷ xs = rw miss at f.1 in
            let same : of_class false xs ≡ xs = ap tail late in (rw (miss, early, same) refl, refl)
      ]
      by_pick (some (c, rest)) xs f = (rw (f.0, f.1) refl, f.2)
