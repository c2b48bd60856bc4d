-- ===== src/Hooks/Answers.antt =====
-- Predicates on the answers of runs.
use aodv_android.Base.{◌≡◌, refl, Bool, true, false, Option, none, some, if◌then◌else◌, arith}
use aodv_android.Node.{Node, M, and_then, ◌>>=◌}

-- What holds of the answer of a run.
abbrev pub Answered : {A : Type 0} → (A → Type 0) → Option (A × Node) → Type 0
Answered P none = Unit {0}
Answered P (some (a, n)) = P a

module _ {A B : Type 0} (P : B → Type 0) where
  and_then-Answered :
      (o : Option (A × Node)) (f : A → M B)
      → ((a : A) (n : Node) → Answered P (f a n))
      → Answered P (and_then o f)
  and_then-Answered none f h = tt
  and_then-Answered (some (a, n)) f h = h a n

  pub bind-Answered :
      (m : M A) (f : A → M B)
      → ((a : A) (n : Node) → Answered P (f a n))
      → (n : Node) → Answered P ((m >>= f) n)
  bind-Answered m f h n = and_then-Answered (m n) f h

pub Answered-and_then :
    {A B : Type 0} (P : A → Type 0) (Q : B → Type 0) (o : Option (A × Node)) (f : A → M B)
    → Answered P o
    → ((a : A) (n : Node) → P a → Answered Q (f a n))
    → Answered Q (and_then o f)
Answered-and_then P Q none f h k = tt
Answered-and_then P Q (some (a, n)) f h k = k a n h

pub Answered-mono :
    {A : Type 0} (P Q : A → Type 0) (o : Option (A × Node))
    → ((a : A) → P a → Q a)
    → Answered P o
    → Answered Q o
Answered-mono P Q none f h = tt
Answered-mono P Q (some (a, n)) f h = f a h

pub if-Answered :
    {A : Type 0} (P : A → Type 0) (b : Bool) (m m' : M A) (n : Node)
    → (b ≡ true → Answered P (m n))
    → (b ≡ false → Answered P (m' n))
    → Answered P ((if b then m else m') n)
if-Answered P true m m' n h h' = h refl
if-Answered P false m m' n h h' = h' refl

pub else-Answered :
    {A : Type 0} (P : A → Type 0) (b : Bool) (m m' : M A) (n : Node)
    → b ≡ false
    → Answered P (m' n)
    → Answered P ((if b then m else m') n)
else-Answered P true m m' n e h = ground arith
else-Answered P false m m' n e h = h
