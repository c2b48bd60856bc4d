-- ===== src/Base/Lists.antt =====
-- Lists measured by native numbers, and the searches and updates that the tables share.
use Prim.Native.Nat.{ℕ, zero, suc, ◌+◌}
use mathlib.Core.Path.{ap, ◌≡◌, refl}
use mathlib.Core.Bool.{Bool, true}
use mathlib.Core.List.{List, [], ◌∷◌, ◌++◌}
use mathlib.Core.Option.{Option, none, some}
use native.Mathlib.Omega.{arith}
use mathlib.Core.Logic.{inl, inr}
use aodv_android.Base.Tests.{if◌then◌else◌, Bool-cases}

module _ {ℓ} {A : Type ℓ} where
  abbrev pub length : List A → ℕ
  length [] = 0
  length (x ∷ xs) = suc (length xs)

  abbrev pub take : ℕ → List A → List A
  take zero xs = []
  take (suc n) [] = []
  take (suc n) (x ∷ xs) = x ∷ take n xs

  abbrev pub replicate : ℕ → A → List A
  replicate zero a = []
  replicate (suc n) a = a ∷ replicate n a

  -- Every entry satisfies `P`.
  abbrev pub All {κ} : (A → Type κ) → List A → Type κ
  All P [] = Unit
  All P (x ∷ xs) = P x × All P xs

  -- The walk from the head to the first entry that passes the test.
  unfoldable pub first : (A → Bool) → List A → Option A
  first p [] = none
  first p (x ∷ xs) = if p x then some x else first p xs

  -- The first entry that passes the test is rewritten in place.
  unfoldable pub modify : (A → Bool) → (A → A) → List A → List A
  modify p f [] = []
  modify p f (x ∷ xs) = if p x then f x ∷ xs else x ∷ modify p f xs

  -- The first entry that passes the test is unlinked.
  unfoldable pub unlink : (A → Bool) → List A → List A
  unlink p [] = []
  unlink p (x ∷ xs) = if p x then xs else x ∷ unlink p xs

  -- How many entries pass the test.
  unfoldable pub count : (A → Bool) → List A → ℕ
  count p [] = 0
  count p (x ∷ xs) = if p x then suc (count p xs) else count p xs

  pub append-nil : (xs : List A) → xs ++ [] ≡ xs
  append-nil [] = refl
  append-nil (x ∷ xs) = ap (λ l. x ∷ l) (append-nil xs)

  pub append_thrice : (xs ys zs : List A) → xs ++ (ys ++ zs) ≡ (xs ++ ys) ++ zs
  append_thrice [] ys zs = refl
  append_thrice (x ∷ xs) ys zs = ap (λ l. x ∷ l) (append_thrice xs ys zs)

  pub All-append {κ} : (P : A → Type κ) (xs ys : List A) → All P xs → All P ys → All P (xs ++ ys)
  All-append P [] ys h k = k
  All-append P (x ∷ xs) ys h k = (h.0, All-append P xs ys h.1 k)

  pub length-append : (xs ys : List A) → length (xs ++ ys) ≡ length xs + length ys
  length-append [] ys = omega arith
  length-append (x ∷ xs) ys = omega (arith, length-append xs ys)

  pub first_sound : (p : A → Bool) (xs : List A) (a : A) → first p xs ≡ some a → p a ≡ true
  unfolding first
  first_sound p [] a h = ground arith
  first_sound p (x ∷ xs) a h = ground (arith, first_sound p xs a)

  pub All-unlink {κ} :
      (P : A → Type κ) (p : A → Bool) (xs : List A) → All P xs → All P (unlink p xs)
  unfolding unlink
  All-unlink P p [] h = h
  All-unlink P p (x ∷ xs) h = ground (arith, All-unlink P p xs h.1)

  pub All-modify {κ} :
      (P : A → Type κ) (p : A → Bool) (f : A → A) (xs : List A)
      → ((x : A) → P (f x))
      → All P xs
      → All P (modify p f xs)
  unfolding modify
  All-modify P p f [] h s = s
  All-modify P p f (x ∷ xs) h s = elim (Bool-cases (p x)) [
    | inl hit ↦ rw hit (h x, s.1)
    | inr miss ↦ rw miss (s.0, All-modify P p f xs h s.1)
  ]

  -- Unlinking takes out the entry that the search finds, and nothing else.
  pub count-unlink :
      (p q : A → Bool) (xs : List A) (a : A)
      → first p xs ≡ some a
      → count q xs ≡ count q (a ∷ unlink p xs)
  unfolding first unlink count
  count-unlink p q [] a h = ground arith
  count-unlink p q (x ∷ xs) a h = ground (arith, count-unlink p q xs a)

  pub unlink-none : (p : A → Bool) (xs : List A) → first p xs ≡ none → unlink p xs ≡ xs
  unfolding first unlink
  unlink-none p [] h = refl
  unlink-none p (x ∷ xs) h = ground (arith, unlink-none p xs)

  pub first-count : (p : A → Bool) (xs : List A) → count p xs ≡ 0 → first p xs ≡ none
  unfolding first count
  first-count p [] h = refl
  first-count p (x ∷ xs) h = ground (arith, first-count p xs)

  pub count-unlink_self :
      (p : A → Bool) (xs : List A) (a : A)
      → first p xs ≡ some a
      → count p xs ≡ suc (count p (unlink p xs))
  unfolding first unlink count
  count-unlink_self p [] a h = ground arith
  count-unlink_self p (x ∷ xs) a h = ground (arith, count-unlink_self p xs a)
