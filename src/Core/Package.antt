-- ===== src/Core/Package.antt =====
-- crates/hemsidor24-core/src/package.rs: the two packages, and their prices.
pub mod Laws
use hemsidor.Prelude.{
  ℕ, ◌+◌, ◌*◌, ◌/◌, ◌%◌, ◌^◌, Bool, true, false, ◌||◌, List, [], ◌∷◌, ◌==◌, find, Result, ok_or,
}
use hemsidor.Text.{Text, codes, eq_ignore_ascii_case}
use hemsidor.Text.Trim.{trim}
use hemsidor.Text.Match.{starts_with}
use hemsidor.Core.Scope.{vat_percent}
use hemsidor.Core.Validation.{ParseChoiceError}

pub data Package : Type 0 where
  start pro : Package

abbrev pub all_packages : List Package
all_packages = start ∷ pro ∷ []

unfoldable pub slug : Package → Text
slug start = codes "start"
slug pro = codes "pro"

unfoldable pub label_sv : Package → Text
label_sv start = codes "Start"
label_sv pro = codes "Pro"

unfoldable pub price_sek_ex_vat : Package → ℕ
price_sek_ex_vat start = 2_490
price_sek_ex_vat pro = 4_490

-- A product of two `u32`s, with its wrap-around.
abbrev pub mul_u32 : ℕ → ℕ → ℕ
mul_u32 a b = (a * b) % 2 ^ 32

unfoldable pub price_ore_inc_vat : Package → ℕ
unfolding price_sek_ex_vat
price_ore_inc_vat p = mul_u32 (mul_u32 (price_sek_ex_vat p) 100) (100 + vat_percent) / 100

unfoldable pub customer_edits_own_content : Package → Bool
customer_edits_own_content start = false
customer_edits_own_content pro = true

-- One round of the search of `from_str`, on the trimmed text.
unfoldable pub named_by : Text → Package → Bool
named_by t p =
    eq_ignore_ascii_case t (slug p)
    || eq_ignore_ascii_case t (label_sv p)
    || starts_with t (label_sv p)

unfoldable pub parse : Text → Result ParseChoiceError Package
parse s = ok_or (find (named_by (trim s)) all_packages) ParseChoiceError.«package»

-- The derived `PartialEq`.
abbrev pub package_eq : Package → Package → Bool
package_eq start start = true
package_eq pro pro = true
package_eq _ _ = false
