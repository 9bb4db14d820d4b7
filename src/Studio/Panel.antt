-- ===== src/Studio/Panel.antt =====
-- crates/hemsidor24-admin/src/models.rs: what the panel shows of each table, and what of it cannot be
-- edited there.
pub mod Orders
pub mod Others
pub mod Columns
pub mod Readonly
use hemsidor.Prelude.{ℕ, Bool, Option, none, some, List, [], ◌∷◌, if◌then◌else◌}
use hemsidor.Text.{Text, text_eq}

-- What a column holds.
pub data Value : Type 0 where
  number : ℕ → Value
  text : Text → Value
  optional_text : Option Text → Value
  moment : Option ℕ → Value
  key : Option ℕ → Value
  flag : Bool → Value

unfoldable pub cell : Text → List (Text × Value) → Option Value
cell name [] = none
cell name ((column, value) ∷ rest) = if text_eq column name then some value else cell name rest

-- `ModelAdmin` for the rows `R`, with their columns, named as the fields are, and the choices that
-- `#[rustio(choices = …)]` declares. Nothing stands for a list that the code leaves to the framework.
pub record ModelAdmin (R : Type 0) : Type 0 where
  pub columns : R → List (Text × Value)
  pub choices : List (Text × List Text)
  pub list_display : List Text
  pub list_filter : Option (List Text)
  pub search_fields : List Text
  pub ordering : List Text
  pub readonly_fields : Option (List Text)
