-- ===== src/Addresses/Masks.antt =====
-- Masks and their lengths.
use aodv_android.Base.{
  ℕ, zero, suc, ◌+◌, ◌*◌, ◌^◌, ◌≡◌, ◌≢◌, ◌≤◌, ◌<◌, refl, Bool, true, false, ◌&&◌, Option, none,
  some, arith, ◌==◌, Bool-cases, inl, inr,
}
use aodv_android.Params.{u32}
use aodv_android.Addresses.{calculate_netmask, shift_out, calculate_prefix}

-- What is left of a number after this many shifts.
abbrev shifted : ℕ → ℕ → ℕ
shifted zero t = t
shifted (suc k) t = shifted k (u32 (t * 2))

-- Without the bits that are lost.
abbrev doubled : ℕ → ℕ → ℕ
doubled zero t = t
doubled (suc k) t = doubled k (t * 2)

shifted-doubled : (k t t' : ℕ) → u32 t ≡ u32 t' → u32 (shifted k t) ≡ u32 (doubled k t')
shifted-doubled zero t t' e = e
shifted-doubled (suc k) t t' e = shifted-doubled k (u32 (t * 2)) (t' * 2) (omega arith)

shift_out-some : (k t i : ℕ) → shifted k t ≡ 0 → shift_out (suc k) t i ≢ none
unfolding shift_out
shift_out-some zero t i h = ground arith
shift_out-some (suc k) t i h = ground (arith, shift_out-some k (u32 (t * 2)) (i + 1) h)

shifted-lt : (k t : ℕ) → t < 2 ^ 32 → shifted k t < 2 ^ 32
shifted-lt zero t lt = lt
shifted-lt (suc k) t lt = shifted-lt k (u32 (t * 2)) (omega arith)

shifted_zero : (t : ℕ) → t < 2 ^ 32 → shifted 32 t ≡ 0
shifted_zero t lt =
    let gone : u32 (doubled 32 t) ≡ 0 = omega arith in
    omega (arith, shifted-doubled 32 t t refl, shifted-lt 32 t lt, gone)

-- The loop of calculate_prefix ends, for any 32-bit mask, within 33 rounds.
calculate_prefix_ends : (t : ℕ) → t < 2 ^ 32 → calculate_prefix t ≢ none
unfolding calculate_prefix
calculate_prefix_ends t lt = shift_out-some 32 t 1 (shifted_zero t lt)

holds : ℕ → Option ℕ → Bool
holds t none = false
holds t (some i) = i == t

holds-some : (t : ℕ) (o : Option ℕ) → holds t o ≡ true → o ≡ some t
unfolding holds
holds-some t none h = ground arith
holds-some t (some i) h = ground arith

round_trips : ℕ → Bool
round_trips zero = true
round_trips (suc k) =
    let rest = round_trips k in holds (suc k) (calculate_prefix (calculate_netmask (suc k))) && rest

and_first : (a b : Bool) → (a && b) ≡ true → a ≡ true
and_first a b h = ground arith

and_second : (a b : Bool) → (a && b) ≡ true → b ≡ true
and_second a b h = ground arith

round_trips_sound :
    (n t : ℕ)
    → 1 ≤ t
    → t ≤ n
    → round_trips n ≡ true
    → calculate_prefix (calculate_netmask t) ≡ some t
unfolding round_trips
round_trips_sound zero t pos le h = ground arith
round_trips_sound (suc n) t pos le h = elim (Bool-cases (t == suc n)) [
  | inl last ↦ let e : t ≡ suc n = ground arith in rw e (holds-some (suc n) _ (and_first _ _ h))
  | inr before ↦ round_trips_sound n t pos (ground arith) (and_second _ _ h)
]

round_trips_32 : round_trips 32 ≡ true
unfolding round_trips holds calculate_prefix calculate_netmask
round_trips_32 = refl

-- For each `t` from 1 to 32, calculate_prefix gives back the number that calculate_netmask was given,
-- which is one more than the length of the mask.
prefix-netmask : (t : ℕ) → 1 ≤ t → t ≤ 32 → calculate_prefix (calculate_netmask t) ≡ some t
prefix-netmask t pos le = round_trips_sound 32 t pos le round_trips_32
