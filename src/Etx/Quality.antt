-- ===== src/Etx/Quality.antt =====
-- The ETX of a link, and which of two loads is kept.
use aodv_android.Base.{
  ℕ, ◌+◌, ◌*◌, ◌≡◌, ◌≢◌, ◌∙◌, ap, sym, ◌≤◌, ◌<◌, ◌⊎◌, inl, inr, refl, true, false, List, [], ◌∷◌,
  ◌==◌, leb, ltb, arith, All, Bool-cases, ==_iff,
}
use native.Mathlib.Nat.{mul-le-mul}
use aodv_android.Neighs.{Neigh}
use aodv_android.Etx.{at_most_10, neigh_etx, compute_etx, is_newer_load, update_neigh_load}

-- What compute_etx has left: no hellos counted, and a metric of at most 100 percent.
abbrev pub Computed : Neigh → Type 0
Computed n = (n.etx.count ≡ 0) × (n.etx_metric ≤ 100)

product_at_most : (a b : ℕ) → at_most_10 a * at_most_10 b ≤ 100
product_at_most a b =
    let la : at_most_10 a ≤ 10 = ground arith in
    let lb : at_most_10 b ≤ 10 = ground arith in mul-le-mul la lb

neigh_etx-Computed : (n : Neigh) → n.etx_metric ≤ 100 → Computed (neigh_etx n)
unfolding neigh_etx
neigh_etx-Computed n le =
    let small = product_at_most n.etx.count n.etx.send_etx in
    elim (Bool-cases (n.etx.count == 0)) [
      | inl idle ↦ rw idle ((==_iff n.etx.count 0).0 idle, le)
      | inr heard ↦ rw heard (refl, omega (arith, small))
    ]

le-or-lt : (a b : ℕ) → (a ≤ b) ⊎ (b < a)
le-or-lt a b = elim (Bool-cases (leb a b)) [
  | inl le ↦ inl (ground arith)
  | inr gt ↦ inr (ground arith)
]

-- The numbers of two loads are close: neither has started again since the other.
abbrev pub Close : ℕ → ℕ → Type 0
Close s t = (s ≤ t + 64000) × (t ≤ s + 64000)

is_newer_load-Close : (s t : ℕ) → Close s t → is_newer_load s t ≡ ltb t s
unfolding is_newer_load
is_newer_load-Close s t c = let c0 = c.0 in let c1 = c.1 in ground arith

abbrev written : (load load_seq : ℕ) → Neigh → Neigh
written load load_seq n = record n { load = load; load_seq = load_seq }

taken :
    (l s : ℕ) (n : Neigh)
    → Close s n.load_seq
    → n.load_seq < s
    → update_neigh_load l s n ≡ written l s n
unfolding update_neigh_load
taken l s n c lt =
    let newer : ltb n.load_seq s ≡ true = ground arith in
    rw (is_newer_load-Close s n.load_seq c, newer) refl

left : (l s : ℕ) (n : Neigh) → Close s n.load_seq → s ≤ n.load_seq → update_neigh_load l s n ≡ n
unfolding update_neigh_load
left l s n c le =
    let older : ltb n.load_seq s ≡ false = ground arith in
    rw (is_newer_load-Close s n.load_seq c, older) refl

-- The later load stays, whichever comes first.
newer_stays :
    (l l' s s' : ℕ) (n : Neigh)
    → s < s'
    → Close s s'
    → Close s n.load_seq
    → Close s' n.load_seq
    → update_neigh_load l s (update_neigh_load l' s' n)
      ≡ update_neigh_load l' s' (update_neigh_load l s n)
newer_stays l l' s s' n lt c d d' =
    let back : Close s' s = (c.1, c.0) in
    elim (le-or-lt s' n.load_seq) [
      | inl old' ↦
          let old = left l s n d (omega arith) in
          ap (update_neigh_load l s) (left l' s' n d' old')
          ∙ old
          ∙ sym (left l' s' n d' old')
          ∙ ap (update_neigh_load l' s') (sym old)
      | inr late' ↦
          let second =
            ap (update_neigh_load l s) (taken l' s' n d' late')
            ∙ left l s (written l' s' n) c (omega arith) in
          elim (le-or-lt s n.load_seq) [
            | inl old ↦
                second
                ∙ sym (taken l' s' n d' late')
                ∙ ap (update_neigh_load l' s') (sym (left l s n d old))
            | inr late ↦
                second
                ∙ sym (
                    ap (update_neigh_load l' s') (taken l s n d late)
                    ∙ taken l' s' (written l s n) back lt)
          ]
    ]

-- Two loads of a neighbour whose numbers differ, and are close to each other and to the number of the
-- load that is known, leave the same load in either order.
update_neigh_load_swap :
    (l l' s s' : ℕ) (n : Neigh)
    → s ≢ s'
    → Close s s'
    → Close s n.load_seq
    → Close s' n.load_seq
    → update_neigh_load l s (update_neigh_load l' s' n)
      ≡ update_neigh_load l' s' (update_neigh_load l s n)
update_neigh_load_swap l l' s s' n ne c d d' = elim (le-or-lt s s') [
  | inl le ↦ newer_stays l l' s s' n (omega arith) c d d'
  | inr lt ↦ sym (newer_stays l' l s' s n lt (c.1, c.0) d' d)
]

-- From neighbours whose metric is at most 100, compute_etx leaves no hello counted and every metric
-- at most 100: the product of the two counts does not leave its 8 bits.
compute_etx-Computed :
    (ns : List Neigh) → All (λ n. n.etx_metric ≤ 100) ns → All Computed (compute_etx ns)
unfolding compute_etx
compute_etx-Computed [] h = tt
compute_etx-Computed (n ∷ ns) h = (neigh_etx-Computed n h.0, compute_etx-Computed ns h.1)
