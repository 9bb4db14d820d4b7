-- ===== src/Core/Order/Fields.antt =====
-- The checks of the single fields: what each accepts, and that an accepted value is accepted again.
use hemsidor.Prelude.{
  ℕ, ◌≤◌, true, false, ◌≡◌, ◌↔◌, List, [], ◌∷◌, ◌++◌, arith, is_empty, length, any, all, filter, ok,
  ap, ◌∙◌, sym, All,
}
use hemsidor.Text.{Text, codes, is_whitespace, is_ascii_digit}
use hemsidor.Text.Trim.{trim, trim_idem}
use hemsidor.Text.Match.{starts_with, ends_with, contains_char, contains}
use hemsidor.Text.Split.{
  split_on, join, lacks, join-split_on, join_two, split_on-join, split_on-All-lacks,
}
use hemsidor.Core.Validation.{phone_max, phone_min_digits, email_max}
use hemsidor.Core.Order.{
  required_text, is_phone_char, validate_phone, email_parts_valid, validate_email,
}

-- A required text is accepted exactly when once trimmed it is not empty and not longer than the
-- limit, and is kept trimmed.
pub required_text_iff :
    (raw : Text) (max : ℕ) (t : Text)
    → (required_text raw max ≡ ok t)
      ↔ ((t ≡ trim raw) × (is_empty (trim raw) ≡ false) × (length (trim raw) ≤ max))
unfolding required_text
required_text_iff raw max t = ground arith

-- A phone number is accepted exactly when, once trimmed, it fits, has enough digits and holds phone
-- characters only; it is kept trimmed.
pub validate_phone_iff :
    (raw t : Text)
    → (validate_phone raw ≡ ok t) ↔ (
        (t ≡ trim raw)
        × (length (trim raw) ≤ phone_max)
        × (phone_min_digits ≤ length (filter is_ascii_digit (trim raw)))
        × (all is_phone_char (trim raw) ≡ true))
unfolding validate_phone
validate_phone_iff raw t = ground arith

-- One `@` with something before it, and after it a domain with a dot inside, none at its ends and
-- no two in a row; no white space.
pub record IsEmail (t : Text) : Type 0 where
  pub local : Text
  pub domain : Text
  pub splits : t ≡ local ++ b'@' ∷ domain
  pub local_lacks : lacks b'@' local ≡ true
  pub domain_lacks : lacks b'@' domain ≡ true
  pub local_filled : is_empty local ≡ false
  pub dotted : contains_char domain b'.' ≡ true
  pub no_first_dot : starts_with domain (b'.' ∷ []) ≡ false
  pub no_last_dot : ends_with domain b'.' ≡ false
  pub no_double_dot : contains domain (codes "..") ≡ false
  pub no_space : any is_whitespace t ≡ false

IsEmail-parts_IsEmail :
    (t : Text) (parts : List Text)
    → t ≡ join (b'@' ∷ []) parts
    → All (λ s. lacks b'@' s ≡ true) parts
    → email_parts_valid t parts ≡ true
    → IsEmail t
unfolding email_parts_valid join
IsEmail-parts_IsEmail t (local ∷ domain ∷ []) e (p, (q, _)) h = record {
  local = local;
  domain = domain;
  splits = e;
  local_lacks = p;
  domain_lacks = q;
  local_filled = ground arith;
  dotted = ground arith;
  no_first_dot = ground arith;
  no_last_dot = ground arith;
  no_double_dot = ground arith;
  no_space = ground arith;
}
IsEmail-parts_IsEmail t _ e l h = cc

IsEmail-valid : (t : Text) (e : IsEmail t) → email_parts_valid t (e.local ∷ e.domain ∷ []) ≡ true
unfolding email_parts_valid
IsEmail-valid t e = ground arith

IsEmail-parts : (t : Text) → IsEmail t → email_parts_valid t (split_on b'@' t) ≡ true
IsEmail-parts t e =
    ap (email_parts_valid t) (
      ap (split_on b'@') (e.splits ∙ sym (join_two b'@' e.local e.domain))
      ∙ split_on-join b'@' e.local (e.domain ∷ []) (e.local_lacks, (e.domain_lacks, tt)))
    ∙ IsEmail-valid t e

IsEmail-of_parts : (t : Text) → email_parts_valid t (split_on b'@' t) ≡ true → IsEmail t
IsEmail-of_parts t h =
    IsEmail-parts_IsEmail t (split_on b'@' t) (sym (join-split_on b'@' t))
      (split_on-All-lacks b'@' t) h

filled_of_append : (a b : Text) → is_empty a ≡ false → is_empty (a ++ b) ≡ false
filled_of_append a b h = ground arith

pub IsEmail-filled : (t : Text) → IsEmail t → is_empty t ≡ false
IsEmail-filled t e = rw e.splits (filled_of_append e.local (b'@' ∷ e.domain) e.local_filled)

-- An address is accepted, and kept trimmed, exactly when once trimmed it fits the limit, has no
-- white space, and is split by one `@` into a part that is not empty and a domain with a dot,
-- which neither begins nor ends with a dot nor has two in a row.
pub validate_email_iff :
    (raw t : Text)
    → (validate_email raw ≡ ok t)
      ↔ ((t ≡ trim raw) × (length (trim raw) ≤ email_max) × IsEmail (trim raw))
unfolding validate_email
validate_email_iff raw t = (
  λ h. ground (arith, IsEmail-of_parts (trim raw)),
  λ h. ground (arith, IsEmail-parts (trim raw) h.2, IsEmail-filled (trim raw) h.2),
)

-- The checks look at the trimmed text only.
required_text-trim : (raw : Text) (max : ℕ) → required_text (trim raw) max ≡ required_text raw max
unfolding required_text
required_text-trim raw max = rw (trim_idem raw)

validate_phone-trim : (raw : Text) → validate_phone (trim raw) ≡ validate_phone raw
unfolding validate_phone
validate_phone-trim raw = rw (trim_idem raw)

validate_email-trim : (raw : Text) → validate_email (trim raw) ≡ validate_email raw
unfolding validate_email
validate_email-trim raw = rw (trim_idem raw)

-- A value that was accepted is accepted again, as it stands.
pub required_text_again :
    (raw : Text) (max : ℕ) {t : Text} → required_text raw max ≡ ok t → required_text t max ≡ ok t
required_text_again raw max {t} h =
    ap (λ x. required_text x max) ((required_text_iff raw max t).0 h).0
    ∙ required_text-trim raw max
    ∙ h

pub validate_phone_again :
    (raw : Text) {t : Text} → validate_phone raw ≡ ok t → validate_phone t ≡ ok t
validate_phone_again raw {t} h =
    ap validate_phone ((validate_phone_iff raw t).0 h).0 ∙ validate_phone-trim raw ∙ h

pub validate_email_again :
    (raw : Text) {t : Text} → validate_email raw ≡ ok t → validate_email t ≡ ok t
validate_email_again raw {t} h =
    ap validate_email ((validate_email_iff raw t).0 h).0 ∙ validate_email-trim raw ∙ h
