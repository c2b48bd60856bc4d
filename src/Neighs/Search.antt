-- ===== src/Neighs/Search.antt =====
-- The neighbour lists have distinct addresses in ascending order, and the searches that stop early
-- find what a search of the whole list finds.
use aodv_android.Base.{
  ℕ, ◌+◌, ◌≤◌, ◌<◌, ◌≡◌, refl, inl, inr, Bool, true, false, Option, none, some, List, [], ◌∷◌,
  arith, if◌then◌else◌, ◌==◌, ltb, first, insert_ordered, skip_below, unlink, Bool-cases,
}
use aodv_android.Neighs.{find_neigh, is_duplicate, insert_neigh, delete_neigh}

module _ {A : Type 0} (key : A → ℕ) where
  -- Strictly ascending addresses, none below `k`.
  abbrev pub Ascends : ℕ → List A → Type 0
  Ascends k [] = Unit {0}
  Ascends k (n ∷ ns) = (k ≤ key n) × Ascends (key n + 1) ns

  Ascends-mono : (j k : ℕ) (ns : List A) → j ≤ k → Ascends k ns → Ascends j ns
  Ascends-mono j k [] h s = tt
  Ascends-mono j k (n ∷ ns) h s = (omega arith, s.1)

  first-Ascends :
      (ip k : ℕ) (ns : List A) → ip < k → Ascends k ns → first (λ n. key n == ip) ns ≡ none
  unfolding first
  first-Ascends ip k [] h s = refl
  first-Ascends ip k (n ∷ ns) h s = ground (arith, first-Ascends ip (key n + 1) ns)

  find_neigh-first :
      (ip k : ℕ) (ns : List A) → Ascends k ns → find_neigh key ip ns ≡ first (λ n. key n == ip) ns
  unfolding find_neigh first
  find_neigh-first ip k [] s = refl
  find_neigh-first ip k (n ∷ ns) s =
      ground (arith, find_neigh-first ip (key n + 1) ns, first-Ascends ip (key n + 1) ns)

  abbrev pub holds : Option A → Bool
  holds none = false
  holds (some n) = true

  is_duplicate-first :
      (ip k : ℕ) (ns : List A)
      → Ascends k ns
      → is_duplicate key ip ns ≡ holds (first (λ n. key n == ip) ns)
  unfolding is_duplicate skip_below first
  is_duplicate-first ip k [] s = refl
  is_duplicate-first ip k (n ∷ ns) s =
      ground (arith, is_duplicate-first ip (key n + 1) ns, first-Ascends ip (key n + 1) ns)

  insert_neigh-Ascends :
      (k : ℕ) (new : A) (ns : List A)
      → k ≤ key new
      → is_duplicate key (key new) ns ≡ false
      → Ascends k ns
      → Ascends k (insert_neigh key new ns)
  unfolding insert_neigh insert_ordered is_duplicate skip_below
  insert_neigh-Ascends k new [] h d s = (h, tt)
  insert_neigh-Ascends k new (n ∷ ns) h d s = elim (Bool-cases (ltb (key n) (key new))) [
    | inl lt ↦ rw lt (s.0, insert_neigh-Ascends (key n + 1) new ns (ground arith) (rw lt at d) s.1)
    | inr ge ↦ let miss : key new + 1 ≤ key n = ground (arith, d) in rw ge (h, (miss, s.1))
  ]

  first-insert :
      (ip : ℕ) (k : ℕ) (new : A) (ns : List A)
      → Ascends k ns
      → first (λ n. key n == ip) (insert_neigh key new ns)
        ≡ (if key new == ip then some new else first (λ n. key n == ip) ns)
  unfolding insert_neigh insert_ordered first
  first-insert ip k new [] s = refl
  first-insert ip k new (n ∷ ns) s = ground (arith, first-insert ip (key n + 1) new ns)

  delete_neigh-Ascends :
      (ip k : ℕ) (ns : List A) → Ascends k ns → Ascends k (delete_neigh key ip ns)
  unfolding delete_neigh unlink
  delete_neigh-Ascends ip k [] s = tt
  delete_neigh-Ascends ip k (n ∷ ns) s = elim (Bool-cases (key n == ip)) [
    | inl e ↦ rw e (Ascends-mono k (key n + 1) ns (omega (arith, s.0)) s.1)
    | inr e ↦ rw e (s.0, delete_neigh-Ascends ip (key n + 1) ns s.1)
  ]

  first-delete :
      (ip j k : ℕ) (ns : List A)
      → Ascends k ns
      → first (λ n. key n == j) (delete_neigh key ip ns)
        ≡ (if j == ip then none else first (λ n. key n == j) ns)
  unfolding delete_neigh unlink first
  first-delete ip j k [] s = ground arith
  first-delete ip j k (n ∷ ns) s =
      ground (arith, first-delete ip j (key n + 1) ns, first-Ascends j (key n + 1) ns)

  -- On a list with distinct ascending addresses that the search finds the new address none in: the
  -- duplicate test of create_aodv_neigh and create_aodv_neigh_2h lets it through, after the
  -- insertion the list is again of that form, and the search finds the new entry under its address
  -- and under any other what it found before.
  pub find-insert_neigh :
      (new : A) (ns : List A)
      → Ascends 0 ns
      → find_neigh key (key new) ns ≡ none
      → (is_duplicate key (key new) ns ≡ false)
        × Ascends 0 (insert_neigh key new ns)
        × ((ip : ℕ)
            → find_neigh key ip (insert_neigh key new ns)
              ≡ (if key new == ip then some new else find_neigh key ip ns))
  find-insert_neigh new ns s e =
      let absent : first (λ n. key n == key new) ns ≡ none =
        rw (← find_neigh-first (key new) 0 ns s) e in
      let d : is_duplicate key (key new) ns ≡ false =
        rw (is_duplicate-first (key new) 0 ns s, absent) refl in
      let s' = insert_neigh-Ascends 0 new ns (omega arith) d s in
      (
        d,
        s',
        λ ip.
            rw (find_neigh-first ip 0 ns s, find_neigh-first ip 0 (insert_neigh key new ns) s')
              (first-insert ip 0 new ns s),
      )

  -- After the deletion of an address the list is again of that form, and the search finds nothing
  -- there and at any other address what it found before.
  pub find-delete_neigh :
      (ip : ℕ) (ns : List A)
      → Ascends 0 ns
      → Ascends 0 (delete_neigh key ip ns)
        × ((j : ℕ)
            → find_neigh key j (delete_neigh key ip ns)
              ≡ (if j == ip then none else find_neigh key j ns))
  find-delete_neigh ip ns s =
      let s' = delete_neigh-Ascends ip 0 ns s in
      (
        s',
        λ j.
            rw (find_neigh-first j 0 ns s, find_neigh-first j 0 (delete_neigh key ip ns) s')
              (first-delete ip j 0 ns s),
      )
