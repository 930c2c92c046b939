-- ===== src/Common/Decimal.antt =====
-- `std::to_string` of a non-negative int, and the reading of decimal digits.
use Prim.Native.Nat.{ℕ, zero, suc, ◌+◌, ◌-◌, ◌*◌, ◌/◌, ◌%◌, ◌<◌}
use mathlib.Core.Path.{◌≡◌, refl, ap, ◌∙◌}
use mathlib.Core.Bool.{true, false}
use mathlib.Core.Logic.{inl, inr}
use mathlib.Core.List.{[], ◌∷◌, ◌++◌}
use native.Mathlib.Omega.{arith}
use slang_server.Common.Tests.{ltb, if◌then◌else◌, Bool-cases}
use slang_server.Common.Equality.{Bytes}
use slang_server.Common.Chars.{is_digit}
use slang_server.Common.Lists.{all}

-- The digits of `n` in front of `acc`; the fuel `n + 1` is enough.
digits_onto : ℕ → ℕ → Bytes → Bytes
digits_onto zero n acc = acc
digits_onto (suc f) n acc =
    let more = digits_onto f (n / 10) ((b'0' + n % 10) ∷ acc) in
    if ltb n 10 then (b'0' + n) ∷ acc else more

unfoldable pub to_string : ℕ → Bytes
unfolding digits_onto
to_string n = digits_onto (suc n) n []

-- The longest run of digits in front, as a number, and what follows it.
unfoldable pub read_number : ℕ → Bytes → ℕ × Bytes
unfolding is_digit
read_number n [] = (n, [])
read_number n (c ∷ s) = if is_digit c then read_number (n * 10 + (c - b'0')) s else (n, c ∷ s)

digits_onto-append :
    (f n : ℕ) (acc rest : Bytes) → digits_onto f n acc ++ rest ≡ digits_onto f n (acc ++ rest)
unfolding digits_onto
digits_onto-append zero n acc rest = refl
digits_onto-append (suc f) n acc rest =
    ground (arith, digits_onto-append f (n / 10) ((b'0' + n % 10) ∷ acc) rest)

read_number-digits_onto :
    (f n : ℕ) (acc : Bytes) → n < f → read_number 0 (digits_onto f n acc) ≡ read_number n acc
unfolding digits_onto read_number
read_number-digits_onto zero n acc h = elim h [ ]
read_number-digits_onto (suc f) n acc h =
    ground (arith, read_number-digits_onto f (n / 10) ((b'0' + n % 10) ∷ acc))

-- What follows a number does not go on with a digit.
abbrev pub NoDigit : Bytes → Type 0
NoDigit [] = Unit {0}
NoDigit (c ∷ s) = is_digit c ≡ false

read_number-NoDigit : (n : ℕ) (rest : Bytes) → NoDigit rest → read_number n rest ≡ (n, rest)
unfolding read_number
read_number-NoDigit n [] h = refl
read_number-NoDigit n (c ∷ s) h = ground arith

pub read_number-to_string :
    (n : ℕ) (rest : Bytes) → NoDigit rest → read_number 0 (to_string n ++ rest) ≡ (n, rest)
unfolding to_string
read_number-to_string n rest h =
    ap (read_number 0) (digits_onto-append (suc n) n [] rest)
    ∙ read_number-digits_onto (suc n) n rest (omega arith)
    ∙ read_number-NoDigit n rest h

digits_onto-head :
    (f n : ℕ) (acc : Bytes)
    → (d : ℕ) × (s : Bytes) × (digits_onto (suc f) n acc ≡ d ∷ s) × (is_digit d ≡ true)
unfolding digits_onto is_digit
digits_onto-head zero n acc = elim (Bool-cases (ltb n 10)) [
  | inl small ↦ (b'0' + n, acc, ground arith, ground arith)
  | inr big ↦ (b'0' + n % 10, acc, ground arith, ground arith)
]
digits_onto-head (suc f) n acc = elim (Bool-cases (ltb n 10)) [
  | inl small ↦ (b'0' + n, acc, ground arith, ground arith)
  | inr big ↦
      let (d, s, e, h) = digits_onto-head f (n / 10) ((b'0' + n % 10) ∷ acc) in
      (d, s, ground arith, h)
]

pub to_string-head : (n : ℕ) → (d : ℕ) × (s : Bytes) × (to_string n ≡ d ∷ s) × (is_digit d ≡ true)
unfolding to_string
to_string-head n = digits_onto-head n n []

digits_onto-all :
    (f n : ℕ) (acc : Bytes) → all is_digit acc ≡ true → all is_digit (digits_onto f n acc) ≡ true
unfolding digits_onto is_digit
digits_onto-all zero n acc h = h
digits_onto-all (suc f) n acc h = ground (arith, digits_onto-all f (n / 10) ((b'0' + n % 10) ∷ acc))

-- A decimal numeral consists of digits.
pub to_string-all : (n : ℕ) → all is_digit (to_string n) ≡ true
unfolding to_string
to_string-all n = digits_onto-all (suc n) n [] refl
