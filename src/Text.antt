-- ===== src/Text.antt =====
-- Text as Rust's `str` gives it: the list of its characters (`chars()`), each a code point. The
-- modules below hold what the program uses of the standard library's `str` and `char`.
pub mod InOrder
pub mod Trim
pub mod Match
pub mod Split
pub mod Lines
pub mod Decimal
pub mod Words
use Prim.Native.Char.{code}
use hemsidor.Prelude.{
  ℕ, ◌+◌, Bool, true, false, ◌≡◌, refl, ◌↔◌, ◌&&◌, ◌||◌, List, [], ◌∷◌, ◌++◌, String, arith, leb,
  ltb, ◌==◌, if◌then◌else◌, map,
}

abbrev pub Text : Type 0
Text = List ℕ

-- The characters of a literal. `String` has its own `[]` and `∷`.
abbrev pub codes : String → Text
codes String.[] = []
codes (String.◌∷◌ c s) = code c ∷ codes s

-- `char::is_whitespace`: Unicode's White_Space.
unfoldable pub is_whitespace : ℕ → Bool
is_whitespace c =
    (leb 9 c && leb c 13)
    || c == 32
    || c == 0x85
    || c == 0xa0
    || c == 0x1680
    || (leb 0x2000 c && leb c 0x200a)
    || c == 0x2028
    || c == 0x2029
    || c == 0x202f
    || c == 0x205f
    || c == 0x3000

-- `char::is_ascii_digit`
unfoldable pub is_ascii_digit : ℕ → Bool
is_ascii_digit c = leb b'0' c && leb c b'9'

-- `char::to_ascii_lowercase`
unfoldable pub to_ascii_lower : ℕ → ℕ
to_ascii_lower c = if leb b'A' c && leb c b'Z' then c + 32 else c

-- `==` on `str`
unfoldable pub text_eq : Text → Text → Bool
text_eq [] [] = true
text_eq [] (_ ∷ _) = false
text_eq (_ ∷ _) [] = false
text_eq (c ∷ s) (d ∷ t) = c == d && text_eq s t

-- `eq_ignore_ascii_case`
unfoldable pub eq_ignore_ascii_case : Text → Text → Bool
eq_ignore_ascii_case s t = text_eq (map to_ascii_lower s) (map to_ascii_lower t)

pub text_eq_iff : (s t : Text) → (text_eq s t ≡ true) ↔ (s ≡ t)
unfolding text_eq
text_eq_iff [] [] = ground arith
text_eq_iff [] (d ∷ t) = ground arith
text_eq_iff (c ∷ s) [] = ground arith
text_eq_iff (c ∷ s) (d ∷ t) = ground (arith, text_eq_iff s t)

pub text_eq_refl : (s : Text) → text_eq s s ≡ true
text_eq_refl s = (text_eq_iff s s).1 refl

-- What the tests on one character say where the library's proofs need it.
pub newline_is_whitespace : is_whitespace b'\n' ≡ true
unfolding is_whitespace
newline_is_whitespace = refl

pub return_is_whitespace : is_whitespace 13 ≡ true
unfolding is_whitespace
return_is_whitespace = refl

-- The parts of a `format!`, one after the other.
unfoldable pub concat : List Text → Text
concat [] = []
concat (part ∷ parts) = part ++ concat parts

-- The bytes of one character in UTF-8.
unfoldable pub utf8_width : ℕ → ℕ
utf8_width c = if ltb c 0x80 then 1 else if ltb c 0x800 then 2 else if ltb c 0x10000 then 3 else 4

-- `str::len`
unfoldable pub utf8_len : Text → ℕ
utf8_len [] = 0
utf8_len (c ∷ s) = utf8_width c + utf8_len s
