-- ===== src/Addresses/Text/Octets.antt =====
-- The text of an address, read back.
use aodv_android.Base.{
  ℕ, zero, suc, ◌+◌, ◌-◌, ◌*◌, ◌/◌, ◌%◌, ◌^◌, ◌≤◌, ◌<◌, ◌≡◌, refl, sym, ap, ◌∙◌, inl, inr, Bool,
  true, false, ◌&&◌, some, List, [], ◌∷◌, ◌++◌, ◌==◌, ltb, arith, Bool-cases,
}
use aodv_android.Kernel.{Kernel}
use aodv_android.Params.{u32}
use aodv_android.Addresses.Text.{
  Ctype, read_digits, read_number, read_parts, inet_aton, byte, inet_ntoa,
}

-- Nothing, or a dot.
abbrev Stops : List ℕ → Type 0
Stops [] = Unit {0}
Stops (c ∷ cs) = c ≡ 46

and_false : (b : Bool) → (b && false) ≡ false
and_false true = refl
and_false false = refl

module _ ⦃t : Ctype⦄ where
  digits-stop :
      (base : ℕ) (rest : List ℕ) (val : ℕ)
      → (base == 16) ≡ false
      → Stops rest
      → read_digits base rest val ≡ (val, rest)
  unfolding read_digits
  digits-stop base [] val h s = refl
  digits-stop base (c ∷ cs) val h s = rw (s, t.dot_lem, h, and_false (t.is_ascii 46)) refl

  digits-step :
      (d : ℕ) (cs : List ℕ) (val : ℕ)
      → d < 10
      → val < 100
      → read_digits 10 ((48 + d) ∷ cs) val ≡ read_digits 10 cs (val * 10 + d)
  unfolding read_digits
  digits-step d cs val lt small =
      let same : u32 (val * 10 + (48 + d - 48)) ≡ val * 10 + d = omega arith in
      rw (t.digit_lem d lt, same) refl

  number_zero : (rest : List ℕ) → Stops rest → read_number (48 ∷ rest) ≡ (0, rest)
  unfolding read_number
  number_zero [] s = digits-stop 8 [] 0 refl s
  number_zero (c ∷ cs) s = rw s (digits-stop 8 (46 ∷ cs) 0 refl refl)

  number_positive :
      (d : ℕ) (cs : List ℕ) → 0 < d → d < 10 → read_number ((48 + d) ∷ cs) ≡ read_digits 10 cs d
  unfolding read_number
  number_positive d cs pos lt =
      let other : (48 + d == 48) ≡ false = ground arith in
      let same : 0 * 10 + d ≡ d = omega arith in
      rw other (digits-step d cs 0 lt (omega arith) ∙ ap (read_digits 10 cs) same)

  read_number-one :
      (b : ℕ) (rest : List ℕ) → b < 10 → Stops rest → read_number (t.decimal b ++ rest) ≡ (b, rest)
  read_number-one zero rest lt s = rw (t.one_digit 0 lt) (number_zero rest s)
  read_number-one (suc b) rest lt s =
      rw (t.one_digit (suc b) lt)
        (number_positive (suc b) rest (omega arith) lt ∙ digits-stop 10 rest (suc b) refl s)

  read_number-two :
      (b : ℕ) (rest : List ℕ)
      → 10 ≤ b
      → b < 100
      → Stops rest
      → read_number (t.decimal b ++ rest) ≡ (b, rest)
  read_number-two b rest ge lt s =
      let whole : b / 10 * 10 + b % 10 ≡ b = omega arith in
      rw (t.two_digits b ge lt) (
        number_positive (b / 10) _ (omega arith) (omega arith)
        ∙ digits-step (b % 10) rest (b / 10) (omega arith) (omega arith)
        ∙ ap (read_digits 10 rest) whole
        ∙ digits-stop 10 rest b refl s)

  read_number-three :
      (b : ℕ) (rest : List ℕ)
      → 100 ≤ b
      → b < 1000
      → Stops rest
      → read_number (t.decimal b ++ rest) ≡ (b, rest)
  read_number-three b rest ge lt s =
      let whole : (b / 100 * 10 + b / 10 % 10) * 10 + b % 10 ≡ b = omega arith in
      rw (t.three_digits b ge lt) (
        number_positive (b / 100) _ (omega arith) (omega arith)
        ∙ digits-step (b / 10 % 10) _ (b / 100) (omega arith) (omega arith)
        ∙ digits-step (b % 10) rest (b / 100 * 10 + b / 10 % 10) (omega arith) (omega arith)
        ∙ ap (read_digits 10 rest) whole
        ∙ digits-stop 10 rest b refl s)

  read_number-decimal :
      (b : ℕ) (rest : List ℕ) → b < 256 → Stops rest → read_number (t.decimal b ++ rest) ≡ (b, rest)
  read_number-decimal b rest lt s = elim (Bool-cases (ltb b 10)) [
    | inl one ↦ read_number-one b rest (ground arith) s
    | inr more ↦ elim (Bool-cases (ltb b 100)) [
      | inl two ↦ read_number-two b rest (ground arith) (ground arith) s
      | inr three ↦ read_number-three b rest (ground arith) (omega arith) s
    ]
  ]

  -- A part before the last.
  read_parts-part :
      (left b : ℕ) (parts rest : List ℕ)
      → b < 256
      → read_parts (suc left) parts (t.decimal b ++ 46 ∷ rest)
        ≡ read_parts left (parts ++ b ∷ []) rest
  unfolding read_parts
  read_parts-part left b parts rest lt =
      let small : ltb 255 b ≡ false = ground arith in
      rw (read_number-decimal b (46 ∷ rest) lt refl, small) refl

  append_nil : (cs : List ℕ) → cs ++ [] ≡ cs
  append_nil [] = refl
  append_nil (c ∷ cs) = ap (λ ds. c ∷ ds) (append_nil cs)

  read_parts-last :
      (b : ℕ) (parts : List ℕ) → b < 256 → read_parts 0 parts (t.decimal b) ≡ some (parts, (b, []))
  unfolding read_parts
  read_parts-last b parts lt =
      let read : read_number (t.decimal b) ≡ (b, []) =
        ap read_number (sym (append_nil (t.decimal b))) ∙ read_number-decimal b [] lt tt in
      rw read refl

  read_parts-inet_ntoa :
      (ina : ℕ)
      → read_parts 3 [] (inet_ntoa ina)
        ≡ some (byte 0 ina ∷ byte 1 ina ∷ byte 2 ina ∷ [], (byte 3 ina, []))
  unfolding inet_ntoa
  read_parts-inet_ntoa ina =
      read_parts-part 2 (byte 0 ina) [] _ (omega arith)
      ∙ read_parts-part 1 (byte 1 ina) (byte 0 ina ∷ []) _ (omega arith)
      ∙ read_parts-part 0 (byte 2 ina) (byte 0 ina ∷ byte 1 ina ∷ []) _ (omega arith)
      ∙ read_parts-last (byte 3 ina) (byte 0 ina ∷ byte 1 ina ∷ byte 2 ina ∷ []) (omega arith)

  -- Where htonl swaps the bytes, as on a little-endian machine, inet_aton takes the text that
  -- inet_ntoa makes of a 32-bit address, and stores that address.
  pub inet_aton-inet_ntoa :
      ⦃k : Kernel⦄ (ina : ℕ)
      → ina < 2 ^ 32
      → ((a b c d : ℕ)
          → a < 256
          → b < 256
          → c < 256
          → d < 256
          → k.htonl (a * 2 ^ 24 + b * 2 ^ 16 + c * 2 ^ 8 + d)
            ≡ a + b * 2 ^ 8 + c * 2 ^ 16 + d * 2 ^ 24)
      → inet_aton (inet_ntoa ina) ≡ some ina
  unfolding inet_aton
  inet_aton-inet_ntoa ina lt swaps =
      let small : ltb 255 (byte 3 ina) ≡ false = ground arith in
      let whole : byte 0 ina + byte 1 ina * 2 ^ 8 + byte 2 ina * 2 ^ 16 + byte 3 ina * 2 ^ 24
          ≡ ina =
        omega arith in
      let swapped =
        swaps (byte 0 ina) (byte 1 ina) (byte 2 ina) (byte 3 ina) (omega arith) (omega arith)
          (omega arith) (omega arith) in
      rw (read_parts-inet_ntoa ina, small) (ap some (swapped ∙ whole))
