-- ===== src/Setup/Network.antt =====
-- How the parameter `network_ip` of fbaodv_protocol.c is read.
use mathlib.Core.Path.{subst}
use aodv_android.Base.{
  ℕ, ◌≡◌, refl, ap, ◌⊎◌, inl, inr, true, false, Option, none, some, List, [], ◌∷◌, ◌++◌, ◌^◌, ◌-◌,
  ◌==◌, All, arith, Bool-cases, ==_iff,
}
use aodv_android.Kernel.{Kernel}
use aodv_android.Addresses.Text.{Ctype, inet_aton}
use aodv_android.Node.{Node}
use aodv_android.Setup.{
  Parameters, set_metric, or_old, add_char, split_at_slash, with_network, set_network,
  set_parameters, init_lists, prepared,
}
use aodv_android.Setup.Device.{has_address}
use aodv_android.Setup.Prepared.{set_metric_leaves}

abbrev pub NoSlash : List ℕ → Type 0
NoSlash text = All (λ c. (c == 47) ≡ false) text

abbrev Splits : List ℕ → List ℕ × Option (List ℕ) → Type 0
Splits text (front, none) = NoSlash text
Splits text (front, some behind) = (text ≡ front ++ 47 ∷ behind) × NoSlash front

Splits-add_char :
    (c : ℕ) (cs : List ℕ) (s : List ℕ × Option (List ℕ))
    → (c == 47) ≡ false
    → Splits cs s
    → Splits (c ∷ cs) (add_char c s)
Splits-add_char c cs (front, none) other h = (other, h)
Splits-add_char c cs (front, some behind) other (e, h) = (ap (λ l. c ∷ l) e, (other, h))

split_at_slash-Splits : (text : List ℕ) → Splits text (split_at_slash text)
unfolding split_at_slash
split_at_slash-Splits [] = tt
split_at_slash-Splits (c ∷ cs) = elim (Bool-cases (c == 47)) [
  | inl slash ↦ let same : c ≡ 47 = (==_iff c 47).0 slash in rw slash (ap (λ d. d ∷ cs) same, tt)
  | inr other ↦ rw other (Splits-add_char c cs (split_at_slash cs) other (split_at_slash-Splits cs))
]

pub has_address-some :
    (o : Option (ℕ × ℕ)) (ip mask : ℕ) → has_address o ip mask ≡ true → o ≡ some (ip, mask)
has_address-some none ip mask h = ground (arith, h)
has_address-some (some (a, b)) ip mask h = elim (Bool-cases (a == ip)) [
  | inl same ↦
      let ip_same : a ≡ ip = (==_iff a ip).0 same in
      let mask_same : b ≡ mask = (==_iff b mask).0 (rw same at h) in rw (ip_same, mask_same) refl
  | inr other ↦ ground (arith, other, h)
]

module _ ⦃t : Ctype⦄ ⦃k : Kernel⦄ where
  -- The text "ip/mask" sets both variables, each to the address that inet_aton finds there, or to what
  -- it held where inet_aton finds none; a text without '/' sets none.
  abbrev pub Network : (text : List ℕ) (old_ip old_mask ip mask : ℕ) → Type 0
  Network text old_ip old_mask ip mask =
      (NoSlash text × (ip ≡ old_ip) × (mask ≡ old_mask))
      ⊎ ((front : List ℕ) × (behind : List ℕ) × (text ≡ front ++ 47 ∷ behind)
          × NoSlash front
          × (ip ≡ or_old old_ip (inet_aton front))
          × (mask ≡ or_old old_mask (inet_aton behind)))

  with_network-Network :
      (text : List ℕ) (s : List ℕ × Option (List ℕ)) (n : Node)
      → Splits text s
      → Network text n.mesh_ip n.netmask (with_network s n).mesh_ip (with_network s n).netmask
  with_network-Network text (front, none) n h = inl (h, refl, refl)
  with_network-Network text (front, some behind) n (e, h) = inr (front, behind, e, h, refl, refl)

  pub prepared-Network :
      (p : Parameters) (text : List ℕ) (n : Node)
      → Network text n.mesh_ip n.netmask (prepared p text n).mesh_ip (prepared p text n).netmask
  unfolding prepared set_parameters init_lists set_network
  prepared-Network p text n =
      let start = record n { broadcast_ip = 2 ^ 32 - 1 } in
      let chosen = set_metric p.routing_metric p.nominal_rate start in
      subst
        (λ ip. Network text ip n.netmask (prepared p text n).mesh_ip (prepared p text n).netmask)
        (set_metric_leaves (λ m. m.mesh_ip) start p.routing_metric p.nominal_rate
          (λ metric fixed. refl))
        (subst
          (λ mask.
            Network text chosen.mesh_ip mask (prepared p text n).mesh_ip
              (prepared p text n).netmask)
          (set_metric_leaves (λ m. m.netmask) start p.routing_metric p.nominal_rate
            (λ metric fixed. refl))
          (with_network-Network text (split_at_slash text) chosen (split_at_slash-Splits text)))
