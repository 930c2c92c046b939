-- ===== src/Uri/Percent.antt =====
-- `URI::decode` and `URI::encode` of src/lsp/URI.cpp.
use slang_server.Common.{
  ℕ, ◌+◌, ◌-◌, ◌*◌, ◌/◌, ◌%◌, ◌<◌, Bool, true, false, ◌||◌, [], ◌∷◌, ◌++◌, Option, none, some,
  Bytes, ltb, ◌==◌, if◌then◌else◌, is_space, is_digit, is_alnum, is_xdigit, to_lower, all, ◌≡◌,
  refl, arith, ap, ◌∙◌, Bool-cases, inl, inr, is_upper, is_lower, is_alpha,
}

-- The text that `decode` gives, or the exception that `std::stoi` throws.
pub data Decoding : Type 0 where
  text : Bytes → Decoding
  invalid_argument : Decoding

unfoldable pub hex_value : ℕ → ℕ
hex_value c = if is_digit c then c - b'0' else to_lower c - b'a' + 10

-- The value of a lone hexadecimal digit.
abbrev pub one_digit : ℕ → Option ℕ
one_digit d = if is_xdigit d then some (hex_value d) else none

-- `std::stoi` of two characters to base 16, as the byte it is cast to: blanks and a sign are read
-- over, the digits are read as far as they go, and no digit is an exception.
unfoldable pub stoi_hex : ℕ → ℕ → Option ℕ
unfolding hex_value
stoi_hex c d =
    if is_xdigit c
    then if is_xdigit d then some (hex_value c * 16 + hex_value d) else some (hex_value c)
    else if is_space c || c == b'+'
    then one_digit d
    else if c == b'-'
    then minus (one_digit d)
    else none
  where
    minus : Option ℕ → Option ℕ
    minus none = none
    minus (some v) = some ((256 - v) % 256)

abbrev pub prepend : Option ℕ → Decoding → Decoding
prepend none rest = invalid_argument
prepend (some c) invalid_argument = invalid_argument
prepend (some c) (text s) = text (c ∷ s)

unfoldable pub decode : Bytes → Decoding
unfolding stoi_hex
decode [] = text []
decode (c ∷ []) = text (c ∷ [])
decode (c ∷ d ∷ []) = text (c ∷ d ∷ [])
decode (c ∷ d ∷ e ∷ s) =
    let escaped = decode s in
    let plain = decode (d ∷ e ∷ s) in
    if c == b'%' then prepend (stoi_hex d e) escaped else prepend (some c) plain

unfoldable pub hex_char : ℕ → ℕ
hex_char v = if ltb v 10 then b'0' + v else b'A' + (v - 10)

unfoldable pub to_hex : ℕ → Bytes
unfolding hex_char
to_hex c = hex_char (c / 16 % 16) ∷ hex_char (c % 16) ∷ []

unfoldable pub is_unreserved : ℕ → Bool
is_unreserved c = is_alnum c || c == b'-' || c == b'.' || c == b'_' || c == b'~' || c == b'/'

unfoldable pub encode : Bytes → Bytes
unfolding is_unreserved to_hex
encode [] = []
encode (c ∷ s) = (if is_unreserved c then c ∷ [] else b'%' ∷ to_hex c) ++ encode s

abbrev pub is_byte : ℕ → Bool
is_byte c = ltb c 256

stoi_hex-chars :
    (hi lo : ℕ) → hi < 16 → lo < 16 → stoi_hex (hex_char hi) (hex_char lo) ≡ some (hi * 16 + lo)
unfolding stoi_hex hex_char hex_value is_xdigit is_digit is_space to_lower is_upper
stoi_hex-chars hi lo h l = ground arith

decode-plain :
    (c : ℕ) (s : Bytes) → (c == b'%') ≡ false → decode (c ∷ s) ≡ prepend (some c) (decode s)
unfolding decode
decode-plain c [] h = refl
decode-plain c (d ∷ []) h = refl
decode-plain c (d ∷ e ∷ s) h = rw h refl

decode-escaped :
    (c : ℕ) (s : Bytes)
    → is_byte c ≡ true
    → decode (b'%' ∷ (to_hex c ++ s)) ≡ prepend (some c) (decode s)
unfolding decode to_hex
decode-escaped c s h =
    rw (stoi_hex-chars (c / 16 % 16) (c % 16) (omega arith) (omega arith))
      (ap (λ v. prepend (some v) (decode s)) (ground arith))

unreserved_lem : (c : ℕ) → is_unreserved c ≡ true → (c == b'%') ≡ false
unfolding is_unreserved is_alnum is_alpha is_digit is_upper is_lower
unreserved_lem c h = ground arith

-- Decoding the percent-encoding of any bytes gives them back.
pub decode-encode : (s : Bytes) → all is_byte s ≡ true → decode (encode s) ≡ text s
unfolding encode
decode-encode [] h = unfold decode in refl
decode-encode (c ∷ s) h = elim (Bool-cases (is_unreserved c)) [
  | inl plain ↦ rw plain (
      decode-plain c (encode s) (unreserved_lem c plain)
      ∙ ap (prepend (some c)) (decode-encode s (ground arith)))
  | inr e ↦ rw e (
      decode-escaped c (encode s) (ground arith)
      ∙ ap (prepend (some c)) (decode-encode s (ground arith)))
]
