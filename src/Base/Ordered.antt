-- ===== src/Base/Ordered.antt =====
-- Linked lists kept in ascending order of a key: the loops that brk_list.c, aodv_route.c,
-- aodv_neigh.c and aodv_neigh_2h.c share, and their laws.
use Prim.Native.Nat.{ℕ, ◌≤◌, ◌<◌}
use mathlib.Core.Path.{◌≡◌, refl}
use mathlib.Core.Bool.{Bool, ◌&&◌}
use mathlib.Core.List.{List, [], ◌∷◌}
use mathlib.Core.Option.{Option, none, some}
use mathlib.Core.Logic.{inl, inr}
use native.Mathlib.Omega.{arith}
use aodv_android.Base.Tests.{if◌then◌else◌, ltb, ◌==◌, Bool-cases}
use aodv_android.Base.Lists.{first, unlink, modify, All}

module _ {ℓ} {A : Type ℓ} (key : A → ℕ) where
  -- The new entry goes in front of the first entry whose key is not below its own.
  unfoldable pub insert_ordered : A → List A → List A
  insert_ordered new [] = new ∷ []
  insert_ordered new (x ∷ xs) =
      if ltb (key x) (key new) then x ∷ insert_ordered new xs else new ∷ x ∷ xs

  -- The loop that skips the entries whose key is below `k`.
  unfoldable pub skip_below : ℕ → List A → List A
  skip_below k [] = []
  skip_below k (x ∷ xs) = if ltb (key x) k then skip_below k xs else x ∷ xs

  -- The loop over the entries whose key is `k`; it ends at the first other key.
  unfoldable pub scan_equal : ℕ → (A → Bool) → List A → Option A
  scan_equal k p [] = none
  scan_equal k p (x ∷ xs) = if key x == k then (if p x then some x else scan_equal k p xs) else none

  -- The two loops one after the other.
  unfoldable pub find_ordered : ℕ → (A → Bool) → List A → Option A
  unfolding skip_below scan_equal
  find_ordered k p xs = scan_equal k p (skip_below k xs)

  -- Ascending keys, none below `k`.
  abbrev pub Above : ℕ → List A → Type 0
  Above k [] = Unit {0}
  Above k (x ∷ xs) = (k ≤ key x) × Above (key x) xs

  abbrev pub IsSorted : List A → Type 0
  IsSorted xs = Above 0 xs

  pub Above-mono : (m n : ℕ) (xs : List A) → m ≤ n → Above n xs → Above m xs
  Above-mono m n [] h s = tt
  Above-mono m n (x ∷ xs) h s = (omega arith, s.1)

  pub insert_ordered-Above :
      (k : ℕ) (new : A) (xs : List A) → k ≤ key new → Above k xs → Above k (insert_ordered new xs)
  unfolding insert_ordered
  insert_ordered-Above k new [] h s = (h, tt)
  insert_ordered-Above k new (x ∷ xs) h s = elim (Bool-cases (ltb (key x) (key new))) [
    | inl lt ↦ rw lt (s.0, insert_ordered-Above (key x) new xs (ground arith) s.1)
    | inr ge ↦ rw ge (h, (ground arith, s.1))
  ]

  pub All-insert_ordered {κ} :
      (P : A → Type κ) (new : A) (xs : List A) → P new → All P xs → All P (insert_ordered new xs)
  unfolding insert_ordered
  All-insert_ordered P new [] p h = (p, tt)
  All-insert_ordered P new (x ∷ xs) p h = elim (Bool-cases (ltb (key x) (key new))) [
    | inl lt ↦ rw lt (h.0, All-insert_ordered P new xs p h.1)
    | inr ge ↦ rw ge (p, h)
  ]

  pub unlink-Above : (k : ℕ) (p : A → Bool) (xs : List A) → Above k xs → Above k (unlink p xs)
  unfolding unlink
  unlink-Above k p [] s = tt
  unlink-Above k p (x ∷ xs) s = elim (Bool-cases (p x)) [
    | inl hit ↦ rw hit (Above-mono k (key x) xs s.0 s.1)
    | inr miss ↦ rw miss (s.0, unlink-Above (key x) p xs s.1)
  ]

  -- An update that leaves the key alone leaves the order alone.
  pub modify-Above :
      (k : ℕ) (p : A → Bool) (f : A → A) (xs : List A)
      → ((x : A) → key (f x) ≡ key x)
      → Above k xs
      → Above k (modify p f xs)
  unfolding modify
  modify-Above k p f [] same s = tt
  modify-Above k p f (x ∷ xs) same s = elim (Bool-cases (p x)) [
    | inl hit ↦ rw (hit, same x) s
    | inr miss ↦ rw miss (s.0, modify-Above (key x) p f xs same s.1)
  ]

  -- Above the key there is nothing to find.
  first-Above :
      (k j : ℕ) (p : A → Bool) (xs : List A)
      → k < j
      → Above j xs
      → first (λ x. key x == k && p x) xs ≡ none
  unfolding first
  first-Above k j p [] h s = refl
  first-Above k j p (x ∷ xs) h s = ground (arith, first-Above k (key x) p xs)

  scan_equal-first :
      (k j : ℕ) (p : A → Bool) (xs : List A)
      → k ≤ j
      → Above j xs
      → scan_equal k p xs ≡ first (λ x. key x == k && p x) xs
  unfolding first scan_equal
  scan_equal-first k j p [] h s = refl
  scan_equal-first k j p (x ∷ xs) h s =
      ground (arith, scan_equal-first k (key x) p xs, first-Above k (key x) p xs)

  -- On a sorted list the search that stops early finds what a search of the whole list finds.
  pub find_ordered-first :
      (k j : ℕ) (p : A → Bool) (xs : List A)
      → Above j xs
      → find_ordered k p xs ≡ first (λ x. key x == k && p x) xs
  unfolding find_ordered first
  find_ordered-first k j p [] s = refl
  find_ordered-first k j p (x ∷ xs) s = ground (
    arith,
    find_ordered-first k (key x) p xs,
    scan_equal-first k (key x) p xs,
    first-Above k (key x) p xs,
  )

  -- A search after an insertion finds the new entry first.
  pub first-insert_ordered :
      (k j : ℕ) (p : A → Bool) (new : A) (xs : List A)
      → Above j xs
      → first (λ x. key x == k && p x) (insert_ordered new xs)
        ≡ (if key new == k && p new then some new else first (λ x. key x == k && p x) xs)
  unfolding insert_ordered first
  first-insert_ordered k j p new [] s = refl
  first-insert_ordered k j p new (x ∷ xs) s =
      ground (arith, first-insert_ordered k (key x) p new xs)
