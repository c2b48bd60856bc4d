-- ===== src/SrcList/Tables.antt =====
-- find_first_rttable and the distinctness of the route tables of the sources.
use aodv_android.Base.{
  ℕ, zero, suc, ◌+◌, ◌≤◌, ◌<◌, ◌≡◌, ◌⊎◌, inl, inr, true, false, List, arith, Bool-cases,
}
use native.Mathlib.Decide.{dec_le}
use aodv_android.Params.{max_route_tables}
use aodv_android.SrcList.{SrcEntry, find_empty_rttable, first_empty, find_first_rttable}

-- The table is no entry's, or some entry's.
abbrev pub Free : ℕ → List SrcEntry → Type 0
Free t srcs = find_empty_rttable t srcs ≡ true

abbrev pub Used : ℕ → List SrcEntry → Type 0
Used t srcs = find_empty_rttable t srcs ≡ false

first_empty-least :
    (rounds t : ℕ) (srcs : List SrcEntry)
    → (t ≤ first_empty rounds t srcs)
      × (first_empty rounds t srcs ≤ t + rounds)
      × (first_empty rounds t srcs < t + rounds → Free (first_empty rounds t srcs) srcs)
      × ((u : ℕ) → t ≤ u → u < first_empty rounds t srcs → Used u srcs)
unfolding first_empty
first_empty-least zero t srcs =
    (omega arith, omega arith, λ h. absurd (omega arith), λ u h l. absurd (omega arith))
first_empty-least (suc n) t srcs =
    let (low, high, free, used) = first_empty-least n (t + 1) srcs in
    elim (Bool-cases (find_empty_rttable t srcs)) [
      | inl e ↦ rw e (omega arith, omega arith, λ _. e, λ u h l. absurd (omega arith))
      | inr e ↦
          rw e (omega arith, omega arith, λ h. free (omega arith), λ u h l. ground (arith, used u))
    ]

-- find_first_rttable gives either a table from 1 to 252 that no source has, or 253; and every table
-- from 1 on below the one that it gives is some source's.
pub find_first_rttable-least :
    (srcs : List SrcEntry)
    → (((1 ≤ find_first_rttable srcs)
          × (find_first_rttable srcs ≤ max_route_tables)
          × Free (find_first_rttable srcs) srcs)
        ⊎ (find_first_rttable srcs ≡ max_route_tables + 1))
      × ((u : ℕ) → 1 ≤ u → u < find_first_rttable srcs → Used u srcs)
unfolding find_first_rttable
find_first_rttable-least srcs =
    let (low, high, free, used) = first_empty-least max_route_tables 1 srcs in
    (
      elim (dec_le (first_empty max_route_tables 1 srcs) max_route_tables) [
        | yes h ↦ inl (low, h, free (omega arith))
        | no h ↦ inr (omega arith)
      ],
      used,
    )
