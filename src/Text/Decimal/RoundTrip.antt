-- ===== src/Text/Decimal/RoundTrip.antt =====
-- A printed number is read back, and two numbers are never printed alike.
use hemsidor.Prelude.{
  ℕ, zero, suc, ◌+◌, ◌/◌, ◌%◌, ◌≤◌, ◌<◌, Bool, true, false, ◌≡◌, refl, sym, ap, ◌∙◌, some, [], ◌∷◌,
  all, arith,
}
use hemsidor.Text.{Text, is_ascii_digit, is_whitespace}
use hemsidor.Text.Trim.{trim, starts_clean, ends_clean, trim_of_IsTrimmed}
use hemsidor.Text.Decimal.{digits_from, decimal, parse_digits, parse_unsigned}

parse_digits-digits_from :
    (max fuel n : ℕ) (out : Text)
    → n < fuel
    → n ≤ max
    → parse_digits max 0 (digits_from fuel n out) ≡ parse_digits max n out
unfolding digits_from parse_digits is_ascii_digit
parse_digits-digits_from max zero n out low fits = absurd (omega arith)
parse_digits-digits_from max (suc fuel) n out low fits =
    ground (arith, parse_digits-digits_from max fuel (n / 10) ((b'0' + n % 10) ∷ out))

all_digits :
    (fuel n : ℕ) (out : Text)
    → all is_ascii_digit out ≡ true
    → all is_ascii_digit (digits_from fuel n out) ≡ true
unfolding digits_from is_ascii_digit
all_digits zero n out h = h
all_digits (suc fuel) n out h = ground (arith, all_digits fuel (n / 10) ((b'0' + n % 10) ∷ out))

abbrev starts_with_digit : Text → Bool
starts_with_digit [] = false
starts_with_digit (c ∷ s) = is_ascii_digit c

first_digit :
    (fuel n : ℕ) (out : Text) → n < fuel → starts_with_digit (digits_from fuel n out) ≡ true
unfolding digits_from is_ascii_digit
first_digit zero n out h = absurd (omega arith)
first_digit (suc fuel) n out h = ground (arith, first_digit fuel (n / 10) ((b'0' + n % 10) ∷ out))

parse_unsigned_of_digit :
    (max : ℕ) (t : Text) → starts_with_digit t ≡ true → parse_unsigned max t ≡ parse_digits max 0 t
unfolding parse_unsigned
parse_unsigned_of_digit max [] h = cc
parse_unsigned_of_digit max (c ∷ []) h = refl
parse_unsigned_of_digit max (c ∷ d ∷ s) h = ground arith

pub parse_unsigned-decimal : (max n : ℕ) → n ≤ max → parse_unsigned max (decimal n) ≡ some n
unfolding decimal parse_digits
parse_unsigned-decimal max n fits =
    parse_unsigned_of_digit max (digits_from (suc n) n []) (first_digit (suc n) n [] (omega arith))
    ∙ parse_digits-digits_from max (suc n) n [] (omega arith) fits

pub decimal_injective : (m n : ℕ) → decimal m ≡ decimal n → m ≡ n
decimal_injective m n e =
    let p = parse_unsigned-decimal (m + n) m (omega arith) in
    let q = parse_unsigned-decimal (m + n) n (omega arith) in
    let r : some m ≡ some n = sym p ∙ (ap (parse_unsigned (m + n)) e ∙ q) in ground arith

solid : (c : ℕ) → is_ascii_digit c ≡ true → is_whitespace c ≡ false
unfolding is_ascii_digit is_whitespace
solid c h = ground arith

digits_start_clean : (t : Text) → all is_ascii_digit t ≡ true → starts_clean t ≡ true
digits_start_clean [] h = refl
digits_start_clean (c ∷ s) h = ground (arith, solid c)

digits_end_clean : (t : Text) → all is_ascii_digit t ≡ true → ends_clean t ≡ true
digits_end_clean [] h = refl
digits_end_clean (c ∷ []) h = ground (arith, solid c)
digits_end_clean (c ∷ d ∷ s) h = digits_end_clean (d ∷ s) (ground arith)

pub trim-decimal : (n : ℕ) → trim (decimal n) ≡ decimal n
unfolding decimal
trim-decimal n =
    let digits = all_digits (suc n) n [] refl in
    trim_of_IsTrimmed (digits_from (suc n) n [])
      (digits_start_clean _ digits, digits_end_clean _ digits)
