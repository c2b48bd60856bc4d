-- ===== src/Setup/Prepared.antt =====
-- The parameters of fbaodv_protocol.c leave the memory and the kernel's answers as they are.
use mathlib.Core.Path.{subst}
use aodv_android.Base.{
  ℕ, ◌≡◌, refl, sym, ◌∙◌, Bool, true, false, Option, none, some, List, [], if◌then◌else◌,
}
use aodv_android.Kernel.{Kernel}
use aodv_android.Addresses.Text.{Ctype}
use aodv_android.Node.{Node}
use aodv_android.Invariant.{Fresh, WellFormed}
use aodv_android.Setup.{
  Parameters, set_metric, with_network, set_network, split_at_slash, set_parameters, init_lists,
  prepared, same_text, hops_text, ett_text, wcim_text,
}

either_way :
    {A B : Type 0} (b : Bool) (f : A → B) {x y : A} {z : B}
    → f x ≡ z
    → f y ≡ z
    → f (if b then x else y) ≡ z
either_way true f p q = p
either_way false f p q = q

-- What the choice of the metric leaves.
module _ {A : Type 0} (f : Node → A) (n : Node) where
  pub set_metric_leaves :
      (o : Option (List ℕ)) (rate : ℕ)
      → ((metric fixed : ℕ) → f (record n { routing_metric = metric; fixed_rate = fixed }) ≡ f n)
      → f (set_metric o rate n) ≡ f n
  unfolding set_metric
  set_metric_leaves none rate h = h 0 n.fixed_rate
  set_metric_leaves (some name) rate h =
      either_way (same_text name hops_text) f (h 0 n.fixed_rate) (
        either_way (same_text name ett_text) f (h _ _)
          (either_way (same_text name wcim_text) f (h _ _) refl))

module _ ⦃t : Ctype⦄ ⦃k : Kernel⦄ where
  with_network-memory :
      (s : List ℕ × Option (List ℕ)) (n : Node) → (with_network s n).memory ≡ n.memory
  with_network-memory (ip, none) n = refl
  with_network-memory (ip, some mask) n = refl

  with_network-netlink :
      (s : List ℕ × Option (List ℕ)) (n : Node) → (with_network s n).netlink ≡ n.netlink
  with_network-netlink (ip, none) n = refl
  with_network-netlink (ip, some mask) n = refl

  module _ (p : Parameters) (text : List ℕ) (n : Node) where
    pub prepared-memory : (prepared p text n).memory ≡ n.memory
    unfolding prepared set_parameters init_lists set_network
    prepared-memory =
        with_network-memory (split_at_slash text) _
        ∙ set_metric_leaves (λ m. m.memory) _ p.routing_metric p.nominal_rate (λ metric fixed. refl)

    pub prepared-netlink : (prepared p text n).netlink ≡ n.netlink
    unfolding prepared set_parameters init_lists set_network
    prepared-netlink =
        with_network-netlink (split_at_slash text) _
        ∙ set_metric_leaves (λ m. m.netlink) _ p.routing_metric p.nominal_rate
            (λ metric fixed. refl)

    pub prepared-WellFormed : Fresh n.memory [] → WellFormed (prepared p text n)
    unfolding prepared init_lists
    prepared-WellFormed f = (tt, tt, subst (λ cs. Fresh cs []) (sym prepared-memory) f, tt)
