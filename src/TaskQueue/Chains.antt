-- ===== src/TaskQueue/Chains.antt =====
-- Lists of addresses that a field of their entries links, for the queues of task_queue.c. The oldest
-- entry stands first.
use aodv_android.Base.{
  eq_self, eq_sym, ℕ, ◌≡◌, ◌==◌, refl, false, List, [], ◌∷◌, ◌++◌, if◌then◌else◌, All,
}

-- The field after a write at `p`.
abbrev pub upd : (ℕ → ℕ) → (p v : ℕ) → ℕ → ℕ
upd f p v r = if r == p then v else f r

abbrev pub Apart : ℕ → List ℕ → Type 0
Apart p xs = All (λ a. (a == p) ≡ false) xs

abbrev pub Distinct : List ℕ → Type 0
Distinct [] = Unit {0}
Distinct (a ∷ xs) = Apart a xs × Distinct xs

abbrev pub head_or : ℕ → List ℕ → ℕ
head_or d [] = d
head_or d (a ∷ xs) = a

abbrev pub last_or : ℕ → List ℕ → ℕ
last_or d [] = d
last_or d (a ∷ xs) = last_or a xs

-- The field of each entry is the entry behind, and that of the last is `stop`.
abbrev pub Chain : (ℕ → ℕ) → (stop : ℕ) → List ℕ → Type 0
Chain f stop [] = Unit {0}
Chain f stop (a ∷ xs) = (f a ≡ head_or stop xs) × Chain f stop xs

-- The field of each entry is the entry before, and that of the first is `before`.
abbrev pub Back : (ℕ → ℕ) → (before : ℕ) → List ℕ → Type 0
Back f before [] = Unit {0}
Back f before (a ∷ xs) = (f a ≡ before) × Back f a xs

-- The field of each entry but the first is the entry before.
abbrev pub Nexts : (ℕ → ℕ) → List ℕ → Type 0
Nexts f [] = Unit {0}
Nexts f (a ∷ xs) = Back f a xs

-- The field of each entry but the last is the entry behind.
abbrev pub Linked : (ℕ → ℕ) → List ℕ → Type 0
Linked f [] = Unit {0}
Linked f (a ∷ []) = Unit {0}
Linked f (a ∷ b ∷ xs) = (f a ≡ b) × Linked f (b ∷ xs)

module _ (f : ℕ → ℕ) (p v : ℕ) where
  pub Chain-upd :
      (stop : ℕ) (xs : List ℕ) → Apart p xs → Chain f stop xs → Chain (upd f p v) stop xs
  Chain-upd stop [] h c = tt
  Chain-upd stop (a ∷ xs) h c = let other = h.0 in rw other (c.0, Chain-upd stop xs h.1 c.1)

  pub Back-upd :
      (before : ℕ) (xs : List ℕ) → Apart p xs → Back f before xs → Back (upd f p v) before xs
  Back-upd before [] h c = tt
  Back-upd before (a ∷ xs) h c = let other = h.0 in rw other (c.0, Back-upd a xs h.1 c.1)

  pub Nexts-upd : (xs : List ℕ) → Apart p xs → Nexts f xs → Nexts (upd f p v) xs
  Nexts-upd [] h c = tt
  Nexts-upd (a ∷ xs) h c = Back-upd a xs h.1 c

  pub Linked-upd : (xs : List ℕ) → Apart p xs → Linked f xs → Linked (upd f p v) xs
  Linked-upd [] h c = tt
  Linked-upd (a ∷ []) h c = tt
  Linked-upd (a ∷ b ∷ xs) h c = let other = h.0 in rw other (c.0, Linked-upd (b ∷ xs) h.1 c.1)

pub upd_self : (f : ℕ → ℕ) (p v : ℕ) → upd f p v p ≡ v
upd_self f p v = rw (eq_self p) refl

pub Apart-middle :
    (p : ℕ) (xs : List ℕ) (b : ℕ) (r : List ℕ)
    → Apart p (xs ++ b ∷ r)
    → ((b == p) ≡ false) × Apart p (xs ++ r)
Apart-middle p [] b r h = h
Apart-middle p (x ∷ xs) b r h = let rest = Apart-middle p xs b r h.1 in (rest.0, (h.0, rest.1))

-- What distinct entries say of one in their midst.
pub Distinct-middle :
    (xs : List ℕ) (b : ℕ) (r : List ℕ)
    → Distinct (xs ++ b ∷ r)
    → Apart b xs × Apart b r × Distinct (xs ++ r)
Distinct-middle [] b r d = (tt, d.0, d.1)
Distinct-middle (a ∷ xs) b r d =
    let rest = Distinct-middle xs b r d.1 in
    let split = Apart-middle a xs b r d.0 in
    ((eq_sym b a split.0, rest.0), rest.1, (split.1, rest.2))

-- An entry is taken out: the one before it is linked to the one behind.
pub Chain-remove :
    (f : ℕ → ℕ) (stop : ℕ) (xs : List ℕ) (b c : ℕ) (bs : List ℕ)
    → Apart b xs
    → Apart b bs
    → Chain f stop (xs ++ b ∷ c ∷ bs)
    → Chain (upd f b (head_or stop bs)) stop (xs ++ b ∷ bs)
Chain-remove f stop [] b c bs h k l =
    rw (eq_self b) (refl, Chain-upd f b (head_or stop bs) stop bs k l.1.1)
Chain-remove f stop (x ∷ []) b c bs h k l =
    let other = h.0 in rw other (l.0, Chain-remove f stop [] b c bs tt k l.1)
Chain-remove f stop (x ∷ y ∷ xs) b c bs h k l =
    let other = h.0 in rw other (l.0, Chain-remove f stop (y ∷ xs) b c bs h.1 k l.1)

pub Back-split :
    (f : ℕ → ℕ) (a : ℕ) (xs : List ℕ) (b : ℕ) (r : List ℕ)
    → Back f a (xs ++ b ∷ r)
    → Back f a (xs ++ b ∷ []) × Back f b r
Back-split f a [] b r h = ((h.0, tt), h.1)
Back-split f a (x ∷ xs) b r h = let rest = Back-split f x xs b r h.1 in ((h.0, rest.0), rest.1)

pub Back-join :
    (f : ℕ → ℕ) (a : ℕ) (xs : List ℕ) (b : ℕ) (r : List ℕ)
    → Back f a (xs ++ b ∷ [])
    → Back f b r
    → Back f a (xs ++ b ∷ r)
Back-join f a [] b r h k = (h.0, k)
Back-join f a (x ∷ xs) b r h k = (h.0, Back-join f x xs b r h.1 k)

pub Nexts-drop :
    (f : ℕ → ℕ) (xs : List ℕ) (b : ℕ) (r : List ℕ) → Nexts f (xs ++ b ∷ r) → Nexts f (xs ++ b ∷ [])
Nexts-drop f [] b r h = tt
Nexts-drop f (x ∷ xs) b r h = (Back-split f x xs b r h).0

pub Nexts-remove :
    (f : ℕ → ℕ) (xs : List ℕ) (b c d : ℕ) (ds : List ℕ)
    → Apart d xs
    → (b == d) ≡ false
    → Apart d ds
    → Nexts f (xs ++ b ∷ c ∷ d ∷ ds)
    → Nexts (upd f d b) (xs ++ b ∷ d ∷ ds)
Nexts-remove f [] b c d ds h k l n = rw (eq_self d) (refl, Back-upd f d b d ds l n.1.1)
Nexts-remove f (x ∷ xs) b c d ds h k l n =
    let split = Back-split f x xs b (c ∷ d ∷ ds) n in
    Back-join (upd f d b) x xs b (d ∷ ds)
      (Back-upd f d b x (xs ++ b ∷ []) (Apart-append d xs b h.1 k) split.0)
      (rw (eq_self d) (refl, Back-upd f d b d ds l split.1.1.1))
  where
    Apart-append :
        (p : ℕ) (xs : List ℕ) (b : ℕ) → Apart p xs → (b == p) ≡ false → Apart p (xs ++ b ∷ [])
    Apart-append p [] b h k = (k, tt)
    Apart-append p (x ∷ xs) b h k = (h.0, Apart-append p xs b h.1 k)

pub Chain-behind :
    (f : ℕ → ℕ) (stop : ℕ) (xs : List ℕ) (b c : ℕ) (r : List ℕ)
    → Chain f stop (xs ++ b ∷ c ∷ r)
    → f c ≡ head_or stop r
Chain-behind f stop [] b c r h = h.1.0
Chain-behind f stop (x ∷ xs) b c r h = Chain-behind f stop xs b c r h.1

pub All-behind : {A : Type 0} (P : A → Type 0) (xs r : List A) → All P (xs ++ r) → All P r
All-behind P [] r h = h
All-behind P (x ∷ xs) r h = All-behind P xs r h.1

pub Nexts-at :
    (f : ℕ → ℕ) (xs : List ℕ) (b c : ℕ) (r : List ℕ) → Nexts f (xs ++ b ∷ c ∷ r) → f c ≡ b
Nexts-at f [] b c r h = h.0
Nexts-at f (x ∷ xs) b c r h = (Back-split f x xs b (c ∷ r) h).1.0

pub last-append : (d : ℕ) (xs : List ℕ) (b : ℕ) (r : List ℕ) → last_or d (xs ++ b ∷ r) ≡ last_or b r
last-append d [] b r = refl
last-append d (x ∷ xs) b r = last-append x xs b r

pub head-append :
    (d : ℕ) (xs : List ℕ) (b : ℕ) (r s : List ℕ) → head_or d (xs ++ b ∷ r) ≡ head_or d (xs ++ b ∷ s)
head-append d [] b r s = refl
head-append d (x ∷ xs) b r s = refl

pub Apart-last : (p a : ℕ) (xs : List ℕ) → Apart p (a ∷ xs) → (last_or a xs == p) ≡ false
Apart-last p a [] h = h.0
Apart-last p a (x ∷ xs) h = Apart-last p x xs h.1

-- An entry is linked behind the last one.
pub Chain-append :
    (f : ℕ → ℕ) (n a : ℕ) (xs : List ℕ)
    → Distinct (a ∷ xs)
    → Apart n (a ∷ xs)
    → Chain f 0 (a ∷ xs)
    → Chain (upd (upd f n 0) (last_or a xs) n) 0 (a ∷ xs ++ n ∷ [])
Chain-append f n a [] d h c = rw (eq_self a, eq_self n, eq_sym a n h.0) (refl, (refl, tt))
Chain-append f n a (x ∷ xs) d h c =
    let other = h.0 in
    let early = eq_sym (last_or x xs) a (Apart-last a x xs d.0) in
    rw (early, other) (c.0, Chain-append f n x xs d.1 h.1 c.1)

pub Back-append :
    (f : ℕ → ℕ) (n a : ℕ) (xs : List ℕ)
    → Apart n xs
    → Back f a xs
    → Back (upd f n (last_or a xs)) a (xs ++ n ∷ [])
Back-append f n a [] h b = rw (eq_self n) (refl, tt)
Back-append f n a (x ∷ xs) h b = let other = h.0 in rw other (b.0, Back-append f n x xs h.1 b.1)

pub Linked-append :
    (f : ℕ → ℕ) (n a : ℕ) (xs : List ℕ)
    → Distinct (a ∷ xs)
    → Linked f (a ∷ xs)
    → Linked (upd f (last_or a xs) n) (a ∷ xs ++ n ∷ [])
Linked-append f n a [] d l = rw (eq_self a) (refl, tt)
Linked-append f n a (x ∷ xs) d l =
    let early = eq_sym (last_or x xs) a (Apart-last a x xs d.0) in
    rw early (l.0, Linked-append f n x xs d.1 l.1)
