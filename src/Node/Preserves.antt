-- ===== src/Node/Preserves.antt =====
-- What runs of handlers preserve, for any property of states.
use aodv_android.Base.{Bool, true, false, Option, none, some, if◌then◌else◌}
use aodv_android.Node.{Node, M, and_then, ◌>>=◌, ◌>>◌, when, deref, if_null}

module _ (I : Node → Type 0) where
  abbrev pub Behind : {A : Type 0} → Option (A × Node) → Type 0
  Behind none = Unit {0}
  Behind (some (a, n)) = I n

  abbrev pub Preserves : {A : Type 0} → M A → Type 0
  Preserves m = (n : Node) → I n → Behind (m n)

  and_then-Behind :
      {A B : Type 0} (o : Option (A × Node)) (f : A → M B)
      → Behind o
      → ((a : A) → Preserves (f a))
      → Behind (and_then o f)
  and_then-Behind none f h k = tt
  and_then-Behind (some (a, n)) f h k = k a n h

  pub bind-Preserves :
      {A B : Type 0} (m : M A) (f : A → M B)
      → Preserves m
      → ((a : A) → Preserves (f a))
      → Preserves (m >>= f)
  bind-Preserves m f h k n w = and_then-Behind (m n) f (h n w) k

  pub then-Preserves :
      {A B : Type 0} (m : M A) (m' : M B) → Preserves m → Preserves m' → Preserves (m >> m')
  then-Preserves m m' h k n w = and_then-Behind (m n) (λ _. m') (h n w) (λ _. k)

  pub if-Preserves :
      {A : Type 0} (b : Bool) (m m' : M A)
      → Preserves m
      → Preserves m'
      → Preserves (if b then m else m')
  if-Preserves true m m' h k n w = h n w
  if-Preserves false m m' h k n w = k n w

  pub when-Preserves : (b : Bool) (m : M (Unit {0})) → Preserves m → Preserves (when b m)
  when-Preserves true m h n w = h n w
  when-Preserves false m h n w = w

  pub if_null-Preserves :
      {A B : Type 0} (o : Option A) (m : M B) (f : A → M B)
      → Preserves m
      → ((a : A) → Preserves (f a))
      → Preserves (if_null o m f)
  if_null-Preserves none m f h k n w = h n w
  if_null-Preserves (some a) m f h k n w = k a n w

  pub deref-Preserves : {A : Type 0} (o : Option A) → Preserves (deref o)
  deref-Preserves none n w = tt
  deref-Preserves (some a) n w = w
