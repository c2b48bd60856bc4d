-- ===== src/Addresses/Text.antt =====
-- inet_ntoa and inet_aton of utils.c, on the codes of the characters before the final 0.
pub mod Octets
use Prim.Native.Nat.{bit_and}
use aodv_android.Base.{
  ℕ, zero, suc, ◌+◌, ◌-◌, ◌*◌, ◌/◌, ◌%◌, ◌^◌, ◌≤◌, ◌<◌, ◌≡◌, Bool, true, false, not, ◌&&◌, ◌||◌,
  Option, none, some, List, [], ◌∷◌, ◌++◌, if◌then◌else◌, ◌==◌, ltb,
}
use aodv_android.Kernel.{Kernel}
use aodv_android.Params.{u32}

-- The character tests of linux/ctype.h and the conversion `%d` of sprintf, with their documented
-- laws on what the two functions give each other.
pub record Ctype : Type 0 where
  pub is_ascii : ℕ → Bool
  pub is_digit : ℕ → Bool
  pub is_xdigit : ℕ → Bool
  pub is_lower : ℕ → Bool
  pub is_space : ℕ → Bool
  pub decimal : ℕ → List ℕ
  pub digit_lem : (d : ℕ) → d < 10 → (is_ascii (48 + d) && is_digit (48 + d)) ≡ true
  pub dot_lem : is_digit 46 ≡ false
  pub one_digit : (b : ℕ) → b < 10 → decimal b ≡ (48 + b) ∷ []
  pub two_digits : (b : ℕ) → 10 ≤ b → b < 100 → decimal b ≡ (48 + b / 10) ∷ (48 + b % 10) ∷ []
  pub three_digits :
      (b : ℕ)
      → 100 ≤ b
      → b < 1000
      → decimal b ≡ (48 + b / 100) ∷ (48 + b / 10 % 10) ∷ (48 + b % 10) ∷ []

-- The base, from the prefix, and the text behind the prefix.
abbrev pub after_zero : List ℕ → ℕ × List ℕ
after_zero [] = (8, [])
after_zero (c ∷ cs) = if c == 120 || c == 88 then (16, cs) else (8, c ∷ cs)

abbrev pub base_of : List ℕ → ℕ × List ℕ
base_of [] = (10, [])
base_of (c ∷ cs) = if c == 48 then after_zero cs else (10, c ∷ cs)

abbrev pub at_dot : List ℕ → Bool
at_dot [] = false
at_dot (c ∷ cs) = c == 46

abbrev pub behind : List ℕ → List ℕ
behind [] = []
behind (c ∷ cs) = cs

-- The address from its parts, as a number; `|` joins disjoint bits here.
abbrev pub concoct : (parts : List ℕ) → (val : ℕ) → Option ℕ
concoct [] val = some val
concoct (a ∷ []) val = if ltb (2 ^ 24 - 1) val then none else some (a * 2 ^ 24 + val)
concoct (a ∷ b ∷ []) val =
    if ltb (2 ^ 16 - 1) val then none else some (a * 2 ^ 24 + b * 2 ^ 16 + val)
concoct (a ∷ b ∷ c ∷ parts) val =
    if ltb 255 val then none else some (a * 2 ^ 24 + b * 2 ^ 16 + c * 2 ^ 8 + val)

-- The byte of a number at this place in the memory of a little-endian machine.
abbrev pub byte : (place ina : ℕ) → ℕ
byte place ina = ina / 2 ^ (8 * place) % 2 ^ 8

module _ ⦃t : Ctype⦄ where
  -- The value of the digits from here on, and the text behind them.
  unfoldable pub read_digits : (base : ℕ) → List ℕ → (val : ℕ) → ℕ × List ℕ
  read_digits base [] val = (val, [])
  read_digits base (c ∷ cs) val =
      let next = read_digits base cs in
      if t.is_ascii c && t.is_digit c
      then next (u32 (val * base + (c - 48)))
      else (if base == 16 && t.is_ascii c && t.is_xdigit c
          then next (u32 (u32 (val * 2 ^ 4) + (c + 10 - (if t.is_lower c then 97 else 65))))
          else (val, c ∷ cs))

  unfoldable pub read_number : List ℕ → ℕ × List ℕ
  unfolding read_digits
  read_number cs = read_digits (base_of cs).0 (base_of cs).1 0

  -- The loop over the parts, where `left` of the places of `parts` are free: the parts before the
  -- last, the last one, and the text behind it.
  unfoldable pub read_parts : (left : ℕ) → (parts cs : List ℕ) → Option (List ℕ × (ℕ × List ℕ))
  unfolding read_number
  read_parts zero parts cs = let v = read_number cs in if at_dot v.1 then none else some (parts, v)
  read_parts (suc left) parts cs =
      let next = read_parts left in
      let v = read_number cs in
      if at_dot v.1
      then (if ltb 255 v.0 then none else next (parts ++ v.0 ∷ []) (behind v.1))
      else some (parts, v)

  -- Whether the text goes on with something else than a space.
  abbrev pub trailing : List ℕ → Bool
  trailing [] = false
  trailing (c ∷ cs) = not (t.is_ascii c) || not (t.is_space c)

  module _ ⦃k : Kernel⦄ where
    abbrev pub stored : Option ℕ → Option ℕ
    stored none = none
    stored (some val) = some (k.htonl val)

    abbrev pub finish : Option (List ℕ × (ℕ × List ℕ)) → Option ℕ
    finish none = none
    finish (some (parts, v)) = if trailing v.1 then none else stored (concoct parts v.0)

    -- What is stored at `addr`; `none` is the answer 0.
    unfoldable pub inet_aton : List ℕ → Option ℕ
    unfolding read_parts
    inet_aton cs = finish (read_parts 3 [] cs)

  unfoldable pub inet_ntoa : ℕ → List ℕ
  inet_ntoa ina =
      t.decimal (byte 0 ina)
      ++ (46 ∷ t.decimal (byte 1 ina)
          ++ (46 ∷ t.decimal (byte 2 ina) ++ (46 ∷ t.decimal (byte 3 ina))))
