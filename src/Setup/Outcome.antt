-- ===== src/Setup/Outcome.antt =====
-- What init_fbaodv_module of fbaodv_protocol.c can end with.
use mathlib.Core.Path.{subst}
use aodv_android.Base.{
  length, leb, ◌<◌, ℕ, ◌≡◌, refl, ap, ◌⊎◌, inl, inr, Bool, true, false, ◌&&◌, Option, none, some,
  List, [], ◌∷◌, if◌then◌else◌, arith, Bool-cases,
}
use aodv_android.Kernel.{Kernel}
use aodv_android.Addresses.Text.{Ctype}
use aodv_android.RouteTable.{Route}
use aodv_android.Handlers.Neighbours.{cleanup_neigh_routes}
use aodv_android.Node.{Node, M, pure, and_then, ◌>>◌, update, if_null}
use aodv_android.Invariant.{Fresh, WellFormed, After}
use aodv_android.Setup.Device.{
  NetDevice, create_aodv_dev, insert_aodv_dev, has_address, init_aodv_dev,
}
use aodv_android.Setup.Unload.{
  release_routes, find_among_freed, cleanup_aodv_route_table, flush_src_list, shut_down,
  close_missing_sock,
}
use aodv_android.Setup.{
  Parameters, Machine, Loading, copy_name, set_constants, set_gateway, prepared, start_timers,
  all_made, start_up, init_module, init_fbaodv_module,
}
use aodv_android.Setup.Prepared.{prepared-WellFormed}
use aodv_android.Setup.Keeps.{insert_aodv_dev-Keeps, start_timers-Keeps}
use aodv_android.Setup.Network.{Network, prepared-Network, has_address-some}

and_then-none :
    {A B : Type 0} (o : Option (A × Node)) (f : A → M B)
    → ((a : A) (n : Node) → f a n ≡ none)
    → and_then o f ≡ none
and_then-none none f h = refl
and_then-none (some (a, n)) f h = h a n

find_among_freed-none : (rs : List Route) (n : Node) → find_among_freed rs n ≡ none
find_among_freed-none [] n = refl
find_among_freed-none (r ∷ rs) n = refl

shut_down-none : (n : Node) → shut_down n ≡ none
unfolding shut_down cleanup_aodv_route_table
shut_down-none n =
    ap (λ o. and_then o (λ _. flush_src_list))
      (and_then-none (cleanup_neigh_routes n) (λ _. cleanup_aodv_route_table)
        (λ _ m.
          and_then-none (release_routes m.routes m) (λ _. find_among_freed m.routes)
            (λ _ m'. find_among_freed-none m.routes m')))

-- A property of the answer and the state, where the run ends.
abbrev pub Says : {A : Type 0} → (A → Node → Type 0) → Option (A × Node) → Type 0
Says P none = Unit {0}
Says P (some (a, n)) = P a n

Says-some :
    {A : Type 0} (P : A → Node → Type 0) (o : Option (A × Node)) (a : A) (n : Node)
    → Says P o
    → o ≡ some (a, n)
    → P a n
Says-some P none a n h e = ground (arith, e)
Says-some P (some (b, m)) a n h e = subst (Says P) e h

-- The device is set up only with a socket.
insert_aodv_dev-has_socket :
    (index : ℕ) (has_socket : Bool) (n : Node)
    → Says (λ failed m. failed ≡ false → has_socket ≡ true) (insert_aodv_dev index has_socket n)
unfolding insert_aodv_dev
insert_aodv_dev-has_socket index has_socket n = by_device (create_aodv_dev index n)
  where
    by_device :
        (o : Option (Bool × Node))
        → Says
            (λ failed m. failed ≡ false → has_socket ≡ true)
            (and_then o (λ ok.
              if ok && has_socket
              then update (λ n. record n { dev_index = index; load = 0; load_seq = 1 })
                >> pure false
              else pure true))
    by_device none = tt
    by_device (some (false, m)) = λ e. ground (arith, e)
    by_device (some (true, m)) = elim (Bool-cases has_socket) [
      | inl socket ↦ rw socket (λ e. refl)
      | inr missing ↦ rw missing (λ e. ground (arith, e))
    ]

module _ ⦃t : Ctype⦄ ⦃k : Kernel⦄ where
  module _ (p : Parameters) (machine : Machine) (text : List ℕ) (n : Node) where
    -- The device of the name has the address and the mask that the text sets.
    abbrev pub DeviceFits : Type 0
    DeviceFits =
        (dev : NetDevice) × (ip : ℕ) × (mask : ℕ) × (machine.device ≡ some dev)
        × (dev.address ≡ some (ip, mask))
        × Network text n.mesh_ip n.netmask ip mask

    abbrev Good : Loading → Node → Type 0
    Good a m =
        (a ≡ Loading.loaded)
        × WellFormed m
        × (all_made 9 machine.proc_entries ≡ true)
        × (machine.has_socket ≡ true)

    start_up-Says :
        (m : Node) → WellFormed m → machine.has_socket ≡ true → Says Good (start_up machine m)
    unfolding start_up
    start_up-Says m w socket =
        after_timers (start_timers (record m { initialized = true }))
          (start_timers-Keeps (record m { initialized = true }) w)
      where
        after_timers :
            (o : Option (Unit {0} × Node))
            → After o
            → Says Good (
                and_then o (λ _.
                  if all_made 9 machine.proc_entries
                  then pure Loading.loaded
                  else (shut_down >> pure Loading.refused)))
        after_timers none w = tt
        after_timers (some (u, m')) w = elim (Bool-cases (all_made 9 machine.proc_entries)) [
          | inl made ↦ rw made (refl, w, made, socket)
          | inr missing ↦ rw (missing, shut_down-none m') tt
        ]

    behind_device :
        (o : Option (Bool × Node))
        → After o
        → Says (λ failed m. failed ≡ false → machine.has_socket ≡ true) o
        → Says Good (and_then o (λ failed. if failed then close_missing_sock else start_up machine))
    behind_device none w socket = tt
    behind_device (some (true, m)) w socket = tt
    behind_device (some (false, m)) w socket = start_up-Says m w (socket refl)

    Fitting : Loading → Node → Type 0
    Fitting a m = Good a m × DeviceFits

    also_fits : (o : Option (Loading × Node)) → DeviceFits → Says Good o → Says Fitting o
    unfolding Fitting
    also_fits none fits says = tt
    also_fits (some (a, m)) fits says = (says, fits)

    init_module-Says : Fresh n.memory [] → Says Fitting (init_module p machine text n)
    unfolding init_module init_aodv_dev
    init_module-Says f = by_device machine.device refl
      where
        by_device :
            (d : Option NetDevice)
            → machine.device ≡ d
            → Says Fitting (
                and_then
                  (init_aodv_dev d machine.has_socket (prepared p text n))
                  (λ failed. if failed then close_missing_sock else start_up machine))
        by_device none e = tt
        by_device (some dev) e =
            let ready = prepared p text n in
            elim (Bool-cases (has_address dev.address ready.mesh_ip ready.netmask)) [
              | inl same ↦
                  let there = has_address-some dev.address ready.mesh_ip ready.netmask same in
                  rw same (
                    also_fits _
                      (dev, ready.mesh_ip, ready.netmask, e, there, prepared-Network p text n)
                      (behind_device (insert_aodv_dev dev.index machine.has_socket ready)
                        (insert_aodv_dev-Keeps dev.index machine.has_socket ready
                          (prepared-WellFormed p text n f))
                        (insert_aodv_dev-has_socket dev.index machine.has_socket ready)))
              | inr other ↦ rw other tt
            ]

    -- What loading has found: the parameters, of which the name of the device is copied into 8 bytes.
    abbrev pub Loads : Loading → Node → Type 0
    Loads a m =
        ((name : List ℕ) × (p.mesh_dev ≡ some name) × (length name < 8))
        × (p.network_ip ≡ some text)
        × (a ≡ Loading.loaded)
        × WellFormed m
        × (all_made 9 machine.proc_entries ≡ true)
        × (machine.has_socket ≡ true)
        × DeviceFits

  -- From a state in which kmalloc gives distinct blocks, whenever init_fbaodv_module ends, either a
  -- parameter is missing, and it is refused with only the variables set that stand before the test of
  -- the parameter, or it is loaded. Then the name of the device has less than 8 characters, the device is
  -- there, with the address and the mask that `network_ip` sets, or that the variables held before where
  -- it sets none; the socket, the directory and the first eight entries of /proc were made; and the
  -- tables are in the form that the handlers keep.
  pub init_fbaodv_module_outcome :
      (p : Parameters) (machine : Machine) (n : Node) (a : Loading) (m : Node)
      → Fresh n.memory []
      → init_fbaodv_module p machine n ≡ some (a, m)
      → ((a ≡ Loading.refused)
          × (((p.mesh_dev ≡ none) × (m ≡ set_constants n))
              ⊎ ((p.network_ip ≡ none) × (m ≡ set_gateway p (set_constants n)))))
        ⊎ ((text : List ℕ) × Loads p machine text n a m)
  unfolding init_fbaodv_module Fitting
  init_fbaodv_module_outcome p machine n a m f e = by_name p.mesh_dev refl e
    where
      by_network :
          (name : List ℕ) (network_ip : Option (List ℕ))
          → p.mesh_dev ≡ some name
          → length name < 8
          → p.network_ip ≡ network_ip
          → if_null network_ip
              (pure Loading.refused)
              (init_module p machine)
              (set_gateway p (set_constants n))
            ≡ some (a, m)
          → ((a ≡ Loading.refused)
              × (((p.mesh_dev ≡ none) × (m ≡ set_constants n))
                  ⊎ ((p.network_ip ≡ none) × (m ≡ set_gateway p (set_constants n)))))
            ⊎ ((text : List ℕ) × Loads p machine text n a m)
      by_network name none d short t e =
          let same =
            Says-some (λ b n'. (b ≡ Loading.refused) × (n' ≡ set_gateway p (set_constants n)))
              (some (Loading.refused, set_gateway p (set_constants n))) a m (refl, refl) e in
          inl (same.0, inr (t, same.1))
      by_network name (some text) d short t e =
          let start = set_gateway p (set_constants n) in
          let good =
            Says-some (Fitting p machine text start) (init_module p machine text start) a m
              (init_module-Says p machine text start f) e in
          inr (text, ((name, d, short), t, good.0.0, good.0.1, good.0.2, good.0.3, good.1))

      by_name :
          (mesh_dev : Option (List ℕ))
          → p.mesh_dev ≡ mesh_dev
          → if_null mesh_dev
              (pure Loading.refused)
              (λ name. do
                copy_name name
                update λ n. set_gateway p n
                if_null p.network_ip (pure Loading.refused) (init_module p machine))
              (set_constants n)
            ≡ some (a, m)
          → ((a ≡ Loading.refused)
              × (((p.mesh_dev ≡ none) × (m ≡ set_constants n))
                  ⊎ ((p.network_ip ≡ none) × (m ≡ set_gateway p (set_constants n)))))
            ⊎ ((text : List ℕ) × Loads p machine text n a m)
      by_name none d e =
          let same =
            Says-some (λ b n'. (b ≡ Loading.refused) × (n' ≡ set_constants n))
              (some (Loading.refused, set_constants n)) a m (refl, refl) e in
          inl (same.0, inl (d, same.1))
      by_name (some name) d e = elim (Bool-cases (leb 8 (length name))) [
        | inl long ↦ ground (arith, rw long at e)
        | inr short ↦ by_network name p.network_ip d (ground arith) refl (rw short at e)
      ]
