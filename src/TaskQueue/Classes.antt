-- ===== src/TaskQueue/Classes.antt =====
-- The queue of task_queue.c at its oldest control task.
use aodv_android.Base.{
  ◌≡◌, refl, ap, ◌⊎◌, inl, inr, true, false, none, some, List, [], ◌∷◌, ◌++◌, All, Bool-cases,
}
use aodv_android.TaskQueue.Fields.{Item}
use aodv_android.TaskQueue.Shape.{controls, is_control}
use aodv_android.TaskQueue.Priority.{pick_control}

abbrev pub NoControl : List Item → Type 0
NoControl xs = All (λ x. is_control x ≡ false) xs

module _ (c : Item) (bs : List Item) (hit : is_control c ≡ true) where
  pub pick-control :
      (xs : List Item) → NoControl xs → pick_control is_control (xs ++ c ∷ bs) ≡ some (c, xs ++ bs)
  pick-control [] plain = rw hit refl
  pick-control (x ∷ xs) plain =
      let miss = plain.0 in let rest = pick-control xs plain.1 in rw (miss, rest) refl

  pub controls-control : (xs : List Item) → NoControl xs → controls (xs ++ c ∷ bs) ≡ c ∷ controls bs
  controls-control [] plain = rw hit refl
  controls-control (x ∷ xs) plain = let miss = plain.0 in rw miss (controls-control xs plain.1)

pub controls-others : (xs bs : List Item) → NoControl xs → controls (xs ++ bs) ≡ controls bs
controls-others [] bs plain = refl
controls-others (x ∷ xs) bs plain = let miss = plain.0 in rw miss (controls-others xs bs plain.1)

pub controls-none : (xs : List Item) → NoControl xs → controls xs ≡ []
controls-none [] plain = refl
controls-none (x ∷ xs) plain = let miss = plain.0 in rw miss (controls-none xs plain.1)

pub pick-others : (xs : List Item) → NoControl xs → pick_control is_control xs ≡ none
pick-others [] plain = refl
pick-others (x ∷ xs) plain =
    let miss = plain.0 in let rest = pick-others xs plain.1 in rw (miss, rest) refl

-- The oldest control task and what stands before and behind it.
abbrev pub Split : List Item → Type 0
Split xs =
    (ys : List Item) × (c : Item) × (bs : List Item) × (xs ≡ ys ++ c ∷ bs)
    × NoControl ys
    × (is_control c ≡ true)

pub split : (xs : List Item) → NoControl xs ⊎ Split xs
split [] = inl tt
split (x ∷ xs) = elim (Bool-cases (is_control x)) [
  | inl hit ↦ inr ([], x, xs, refl, tt, hit)
  | inr miss ↦ behind miss (split xs)
]
  where
    behind : is_control x ≡ false → NoControl xs ⊎ Split xs → NoControl (x ∷ xs) ⊎ Split (x ∷ xs)
    behind miss (inl plain) = inl (miss, plain)
    behind miss (inr (ys, c, bs, e, plain, hit)) =
        inr (x ∷ ys, c, bs, ap (λ zs. x ∷ zs) e, (miss, plain), hit)

pub All-remove :
    {A : Type 0} (P : A → Type 0) (xs : List A) (c : A) (bs : List A)
    → All P (xs ++ c ∷ bs)
    → P c × All P (xs ++ bs)
All-remove P [] c bs h = h
All-remove P (x ∷ xs) c bs h = let rest = All-remove P xs c bs h.1 in (rest.0, (h.0, rest.1))
