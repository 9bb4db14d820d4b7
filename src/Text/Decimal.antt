-- ===== src/Text/Decimal.antt =====
-- Decimal numbers: `to_string` of an unsigned integer, and `parse::<u64>`.
pub mod RoundTrip
use hemsidor.Prelude.{
  ℕ, suc, zero, ◌+◌, ◌-◌, ◌*◌, ◌/◌, ◌%◌, Option, none, some, [], ◌∷◌, ltb, leb, ◌==◌, if◌then◌else◌,
}
use hemsidor.Text.{Text, is_ascii_digit}

digits_from : ℕ → ℕ → Text → Text
digits_from zero n out = out
digits_from (suc fuel) n out =
    let more = digits_from fuel (n / 10) ((b'0' + n % 10) ∷ out) in
    if ltb n 10 then (b'0' + n) ∷ out else more

-- `n.to_string()`
unfoldable pub decimal : ℕ → Text
unfolding digits_from
decimal n = digits_from (suc n) n []

-- The digits of `from_str_radix(10)`, each step checked against the type's greatest value.
parse_digits : ℕ → ℕ → Text → Option ℕ
parse_digits max acc [] = some acc
parse_digits max acc (c ∷ s) =
    let next = parse_digits max (acc * 10 + (c - b'0')) s in
    if is_ascii_digit c then if leb (acc * 10 + (c - b'0')) max then next else none else none

-- `s.parse()` for an unsigned type: an empty text and a lone sign are refused, one `+` may lead.
unfoldable pub parse_unsigned : ℕ → Text → Option ℕ
unfolding parse_digits is_ascii_digit
parse_unsigned max [] = none
parse_unsigned max (c ∷ []) = parse_digits max 0 (c ∷ [])
parse_unsigned max (c ∷ d ∷ s) =
    if c == b'+' then parse_digits max 0 (d ∷ s) else parse_digits max 0 (c ∷ d ∷ s)
