-- ===== src/Env.antt =====
-- The process environment, as `std::env::var` reads it: a variable that is not set, or that holds no
-- Unicode text, has no value.
use hemsidor.Prelude.{ℕ, not, ◌≡◌, Option, none, some, is_empty, if◌then◌else◌, arith}
use hemsidor.Text.{Text}
use hemsidor.Text.Trim.{trim}
use hemsidor.Text.Decimal.{parse_unsigned}

abbrev pub Env : Type 0
Env = Text → Option Text

-- `.filter(|v| !v.trim().is_empty())`
abbrev pub filled : Option Text → Option Text
filled none = none
filled (some v) = if not (is_empty (trim v)) then some v else none

-- `optional`
unfoldable pub optional : Env → Text → Option Text
optional env var = filled (env var)

-- `raw.trim().parse::<u16>()`
unfoldable pub parse_port : Text → Option ℕ
parse_port raw = parse_unsigned 65535 (trim raw)

-- What a variable counts as set to, it is set to.
pub optional_lem : (env : Env) (var v : Text) → optional env var ≡ some v → env var ≡ some v
unfolding optional
optional_lem env var v h = kept (env var) h
  where
    kept : (o : Option Text) → filled o ≡ some v → o ≡ some v
    kept none h = h
    kept (some w) h = ground arith
