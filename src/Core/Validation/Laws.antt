-- ===== src/Core/Validation/Laws.antt =====
-- Collecting errors: a value comes back exactly when nothing was recorded.
use hemsidor.Prelude.{◌≡◌, Option, none, some, [], ◌∷◌, List, Result, ok, err, true, arith}
use hemsidor.Core.Validation.{Field, FieldError, field_eq}

-- The entry that a field's check leaves among the errors.
abbrev pub entry : {T : Type 0} → Field → Result FieldError T → List (Field × FieldError)
entry field (ok value) = []
entry field (err error) = (field, error) ∷ []

-- The error of a check, if it failed.
abbrev pub failure : {T : Type 0} → Result FieldError T → Option FieldError
failure (ok value) = none
failure (err error) = some error

pub field_eq_iff : (f g : Field) → field_eq f g ≡ true → f ≡ g
field_eq_iff f g h = ground arith
