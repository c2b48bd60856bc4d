-- ===== src/TaskQueue/Service/Heap.antt =====
-- Entries that kmalloc and kfree put on the heap and take from it.
use mathlib.Core.Path.{subst, fun_ext}
use aodv_android.Base.{
  eq_self, ℕ, ◌≡◌, ◌==◌, refl, sym, ap, ◌∙◌, inl, inr, false, none, some, List, [], ◌∷◌, arith, All,
  Bool-cases, ==_iff, first, unlink,
}
use aodv_android.Task.{Task}
use aodv_android.TaskQueue.{TaskEntry, new_entry}
use aodv_android.TaskQueue.Chains.{
  Apart, Chain-upd, Nexts-upd, Linked-upd, Chain, Nexts, Linked, upd,
}
use aodv_android.TaskQueue.Fields.{at, from, field, Item, Holds, prev_of, next_of, control_of}
use aodv_android.TaskQueue.Shape.{addrs, controls, Sound, Apart-controls}

-- The heaps differ at most at `p`.
abbrev pub SameBut : ℕ → (h h' : List TaskEntry) → Type 0
SameBut p h h' = (r : ℕ) → (r == p) ≡ false → at r h' ≡ at r h

module _ (p : ℕ) (h h' : List TaskEntry) (same : SameBut p h h') where
  field-SameBut : (g : TaskEntry → ℕ) → field g h' ≡ upd (field g h) p (field g h' p)
  field-SameBut g = fun_ext λ r. elim (Bool-cases (r == p)) [
    | inl hit ↦ let here = (==_iff r p).0 hit in rw (here, eq_self p) refl
    | inr miss ↦ rw miss (ap (from g) (same r miss))
  ]

  All-SameBut :
      (xs : List Item) → Apart p (addrs xs) → All (λ x. Holds x h) xs → All (λ x. Holds x h') xs
  All-SameBut [] apart s = tt
  All-SameBut (x ∷ xs) apart s =
      ((s.0.0, same x.addr apart.0 ∙ s.0.1, s.0.2), All-SameBut xs apart.1 s.1)

  -- A queue that `p` does not stand in stays as it is.
  pub Sound-SameBut : (xs : List Item) → Apart p (addrs xs) → Sound h xs → Sound h' xs
  Sound-SameBut xs apart (v, j, l) = (
    (All-SameBut xs apart v.0, v.1, v.2),
    (
      subst (λ f. Chain f 0 (addrs xs)) (sym (field-SameBut (λ e. e.prev)))
          (Chain-upd (prev_of h) p (prev_of h' p) 0 (addrs xs) apart j.0),
      subst (λ f. Nexts f (addrs xs)) (sym (field-SameBut (λ e. e.next)))
          (Nexts-upd (next_of h) p (next_of h' p) (addrs xs) apart j.1),
    ),
    subst (λ f. Linked f (addrs (controls xs))) (sym (field-SameBut (λ e. e.prev_control)))
        (Linked-upd (control_of h) p (control_of h' p) (addrs (controls xs))
          (Apart-controls p xs apart) l),
  )

pub new_entry-SameBut : (p : ℕ) (t : Task) (h : List TaskEntry) → SameBut p h (new_entry p t ∷ h)
unfolding first
new_entry-SameBut p t h r miss = let other : (p == r) ≡ false = ground arith in rw other refl

pub kfree-SameBut : (p : ℕ) (h : List TaskEntry) → SameBut p h (unlink (λ e. e.addr == p) h)
unfolding first unlink
kfree-SameBut p [] r miss = refl
kfree-SameBut p (e ∷ h) r miss = elim (Bool-cases (e.addr == p)) [
  | inl hit ↦ let other : (e.addr == r) ≡ false = ground arith in rw (hit, other) refl
  | inr stays ↦ let rest = kfree-SameBut p h r miss in rw (stays, rest) refl
]

-- An address that kmalloc may give stands for no task of the queue.
pub Apart-none :
    (p : ℕ) (h : List TaskEntry) (xs : List Item)
    → at p h ≡ none
    → All (λ x. Holds x h) xs
    → Apart p (addrs xs)
Apart-none p h [] e s = tt
Apart-none p h (x ∷ xs) e s = elim (Bool-cases (x.addr == p)) [
  | inl hit ↦
      let here = (==_iff x.addr p).0 hit in
      let there = s.0.1 in
      let clash : some s.0.0 ≡ none = sym there ∙ ap (λ a. at a h) here ∙ e in ground (arith, clash)
  | inr miss ↦ (miss, Apart-none p h xs e s.1)
]
