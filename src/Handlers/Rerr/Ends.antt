-- ===== src/Handlers/Rerr/Ends.antt =====
-- For the proofs about gen_rerr of rerr.c: runs that end and leave the routes alone, where kmalloc
-- does not fail.
use aodv_android.Base.{
  ◌≡◌, refl, ◌∙◌, ◌⊎◌, inl, inr, Bool, true, false, Option, none, some, List, [], ◌∷◌,
  if◌then◌else◌, All,
}
use aodv_android.Kernel.{Kernel}
use aodv_android.RouteTable.{is_some}
use aodv_android.BrkList.Flush.{Lives}
use aodv_android.Node.{Node, Cell, M, and_then, ◌>>=◌, when, if_null, kmalloc, allocate}

-- The run ends, and this holds of the answer and the state.
abbrev pub Ends : {A : Type 0} → (A → Node → Type 0) → Option (A × Node) → Type 0
Ends P none = ⊥
Ends P (some (a, n)) = P a n

module _ {A : Type 0} where
  pub Ends-mono :
      (P Q : A → Node → Type 0) (o : Option (A × Node))
      → ((a : A) (n : Node) → P a n → Q a n)
      → Ends P o
      → Ends Q o
  Ends-mono P Q none f h = h
  Ends-mono P Q (some (a, n)) f h = f a n h

pub Ends-and_then :
    {A B : Type 0} (P : A → Node → Type 0) (Q : B → Node → Type 0) (o : Option (A × Node))
    (f : A → M B)
    → Ends P o
    → ((a : A) (n : Node) → P a n → Ends Q (f a n))
    → Ends Q (and_then o f)
Ends-and_then P Q none f h k = elim h [ ]
Ends-and_then P Q (some (a, n)) f h k = k a n h

module _ ⦃k : Kernel⦄ where
  -- No call of kmalloc gives NULL before the list of its answers is used up, and no broken link has
  -- expired.
  abbrev pub Supplied : Node → Type 0
  Supplied n = All (λ c. is_some c ≡ true) n.memory × All (Lives n.now) n.links

  abbrev pub Kept : Node → Node → Type 0
  Kept n m = (m.routes ≡ n.routes) × Supplied m × (m.now ≡ n.now)

  -- The run leaves the routes alone.
  abbrev pub Quiet : {A : Type 0} → M A → Type 0
  Quiet m = (n : Node) → Supplied n → Ends (λ _ m. Kept n m) (m n)

  pub if-Quiet :
      {A : Type 0} (b : Bool) (m m' : M A) → Quiet m → Quiet m' → Quiet (if b then m else m')
  if-Quiet true m m' h h' = h
  if-Quiet false m m' h h' = h'

  pub if_null-Quiet :
      {A B : Type 0} (o : Option B) (m : M A) (f : B → M A)
      → Quiet m
      → ((b : B) → Quiet (f b))
      → Quiet (if_null o m f)
  if_null-Quiet none m f h h' = h
  if_null-Quiet (some b) m f h h' = h' b

  pub bind-Quiet :
      {A B : Type 0} (m : M A) (f : A → M B) → Quiet m → ((a : A) → Quiet (f a)) → Quiet (m >>= f)
  bind-Quiet m f h k n s =
      Ends-and_then (λ _ n'. Kept n n') (λ _ n'. Kept n n') (m n) f (h n s)
        (λ a n' kept.
          Ends-mono (λ _ n''. Kept n' n'') (λ _ n''. Kept n n'') (f a n')
            (λ _ n'' kept'. (kept'.0 ∙ kept.0, kept'.1, kept'.2 ∙ kept.2)) (k a n' kept.1))

  pub when-Quiet : (b : Bool) (m : M (Unit {0})) → Quiet m → Quiet (when b m)
  when-Quiet true m h n s = h n s
  when-Quiet false m h n s = (refl, s, refl)

  -- kmalloc gives NULL only where the answers are used up.
  pub kmalloc-Supplied :
      (n : Node)
      → Supplied n
      → Ends (λ c m. Kept n m × ((is_some c ≡ true) ⊎ (m.memory ≡ []))) (kmalloc n)
  unfolding kmalloc
  kmalloc-Supplied n s = by_memory n.memory refl
    where
      by_memory :
          (cs : List (Option Cell))
          → n.memory ≡ cs
          → Ends (λ c m. Kept n m × ((is_some c ≡ true) ⊎ (m.memory ≡ []))) (allocate cs n)
      by_memory [] e = ((refl, s, refl), inr e)
      by_memory (c ∷ cs) e =
          let t : All (λ c. is_some c ≡ true) (c ∷ cs) = rw e at s.0 in
          ((refl, (t.1, s.1), refl), inl t.0)

  pub kmalloc-Quiet : Quiet kmalloc
  kmalloc-Quiet n s = Ends-mono _ _ (kmalloc n) (λ _ _ h. h.0) (kmalloc-Supplied n s)
