-- ===== src/Tests/Text.antt =====
-- The text of an address, with the characters of ASCII.
use aodv_android.Base.{
  ℕ, ◌+◌, ◌/◌, ◌%◌, ◌≤◌, ◌<◌, ◌≡◌, refl, Bool, true, not, ◌&&◌, ◌||◌, some, List, [], ◌∷◌,
  if◌then◌else◌, ◌==◌, ltb, arith,
}
use aodv_android.Addresses.Text.{Ctype, inet_aton, inet_ntoa}
use aodv_android.Addresses.Text.Octets.{inet_aton-inet_ntoa}
use aodv_android.Tests.Platform.{platform}

abbrev pub within : (low high c : ℕ) → Bool
within low high c = not (ltb c low) && ltb c high

abbrev pub digits : ℕ → List ℕ
digits b =
    if ltb b 10
    then (48 + b) ∷ []
    else (if ltb b 100
        then (48 + b / 10) ∷ (48 + b % 10) ∷ []
        else (48 + b / 100) ∷ (48 + b / 10 % 10) ∷ (48 + b % 10) ∷ [])

pub digit_is_ascii : (d : ℕ) → d < 10 → (ltb (48 + d) 128 && within 48 58 (48 + d)) ≡ true
digit_is_ascii d lt = ground arith

pub digits_one : (b : ℕ) → b < 10 → digits b ≡ (48 + b) ∷ []
digits_one b lt = ground arith

pub digits_two : (b : ℕ) → 10 ≤ b → b < 100 → digits b ≡ (48 + b / 10) ∷ (48 + b % 10) ∷ []
digits_two b ge lt = ground arith

pub digits_three :
    (b : ℕ)
    → 100 ≤ b
    → b < 1000
    → digits b ≡ (48 + b / 100) ∷ (48 + b / 10 % 10) ∷ (48 + b % 10) ∷ []
digits_three b ge lt = ground arith

instance abbrev pub ascii : Ctype
ascii = record {
  is_ascii = λ c. ltb c 128;
  is_digit = within 48 58;
  is_xdigit = λ c. within 48 58 c || within 65 71 c || within 97 103 c;
  is_lower = within 97 123;
  is_space = λ c. within 9 14 c || c == 32;
  decimal = digits;
  digit_lem = digit_is_ascii;
  dot_lem = refl;
  one_digit = digits_one;
  two_digits = digits_two;
  three_digits = digits_three;
}

-- 192.168.0.1
inet_aton-inet_ntoa_example : inet_aton (inet_ntoa 16820416) ≡ some 16820416
inet_aton-inet_ntoa_example =
    inet_aton-inet_ntoa 16820416 (omega arith) (λ a b c d la lb lc ld. omega arith)
