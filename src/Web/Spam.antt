-- ===== src/Web/Spam.antt =====
-- crates/hemsidor24-web/src/spam.rs: the quiet checks of a submission. The clock is an argument, and
-- subtraction stops at 0 as `saturating_sub` does.
use hemsidor.Prelude.{
  ℕ, ◌+◌, ◌-◌, ◌^◌, ◌≤◌, Bool, true, false, not, ◌≡◌, refl, ◌↔◌, ◌⊎◌, inl, inr, Option, none, some,
  is_empty, ltb, if◌then◌else◌, arith, ap, ◌∙◌,
}
use hemsidor.Text.{Text}
use hemsidor.Text.Trim.{trim}
use hemsidor.Text.Decimal.{decimal, parse_unsigned}
use hemsidor.Text.Decimal.RoundTrip.{parse_unsigned-decimal, trim-decimal}

abbrev pub min_seconds_on_page : ℕ
min_seconds_on_page = 3

pub data SpamVerdict : Type 0 where
  clean honeypot_filled : SpamVerdict
  too_fast : (seconds : ℕ) → SpamVerdict

unfoldable pub is_spam : SpamVerdict → Bool
is_spam clean = false
is_spam honeypot_filled = true
is_spam (too_fast seconds) = true

-- The timer, for the moment that the form says it was opened.
unfoldable pub timed : Option ℕ → ℕ → SpamVerdict
timed none now_unix = clean
timed (some opened) now_unix =
    if ltb (now_unix - opened) min_seconds_on_page then too_fast (now_unix - opened) else clean

-- `u64::MAX`
abbrev pub u64_max : ℕ
u64_max = 2 ^ 64 - 1

-- `check`
unfoldable pub check : Text → Text → ℕ → SpamVerdict
unfolding timed
check honeypot opened_at now_unix =
    if not (is_empty (trim honeypot))
    then honeypot_filled
    else timed (parse_unsigned u64_max (trim opened_at)) now_unix

timed_iff :
    (opened : Option ℕ) (now : ℕ)
    → (is_spam (timed opened now) ≡ false)
      ↔ ((opened ≡ none) ⊎ ((n : ℕ) × (opened ≡ some n) × (n + min_seconds_on_page ≤ now)))
unfolding timed is_spam
timed_iff none now = (λ h. inl refl, λ h. refl)
timed_iff (some n) now = (
  λ h. inr (n, refl, ground arith),
  λ h. elim h [ inl e ↦ absurd (ground arith) | inr (k, e, l) ↦ ground arith ],
)

by_honeypot :
    (blank : Bool) (opened : Option ℕ) (now : ℕ)
    → (is_spam (if not blank then honeypot_filled else timed opened now) ≡ false) ↔ (
        (blank ≡ true)
        × ((opened ≡ none) ⊎ ((n : ℕ) × (opened ≡ some n) × (n + min_seconds_on_page ≤ now))))
unfolding is_spam
by_honeypot true opened now =
    (λ h. (refl, (timed_iff opened now).0 h), λ h. (timed_iff opened now).1 h.1)
by_honeypot false opened now = (λ h. absurd (ground arith), λ h. absurd (ground (arith, h.0)))

-- A submission passes exactly when the honeypot is blank and the form either names no moment that
-- can be read, or was opened at least three seconds ago.
pub check_iff :
    (honeypot opened_at : Text) (now : ℕ)
    → (is_spam (check honeypot opened_at now) ≡ false) ↔ (
        (is_empty (trim honeypot) ≡ true)
        × ((parse_unsigned u64_max (trim opened_at) ≡ none)
            ⊎ ((n : ℕ) × (parse_unsigned u64_max (trim opened_at) ≡ some n)
                × (n + min_seconds_on_page ≤ now))))
unfolding check is_spam
check_iff honeypot opened_at now =
    by_honeypot (is_empty (trim honeypot)) (parse_unsigned u64_max (trim opened_at)) now

-- A form that was rendered at `opened`, a moment that fits a u64, comes back stamped with the decimal
-- print of that moment: with a blank honeypot it passes exactly when three seconds have gone by.
check_stamped :
    (honeypot : Text) (opened now : ℕ)
    → is_empty (trim honeypot) ≡ true
    → opened ≤ u64_max
    → (is_spam (check honeypot (decimal opened) now) ≡ false) ↔ (opened + min_seconds_on_page ≤ now)
check_stamped honeypot opened now blank fits =
    let stamp : parse_unsigned u64_max (trim (decimal opened)) ≡ some opened =
      ap (parse_unsigned u64_max) (trim-decimal opened)
      ∙ parse_unsigned-decimal u64_max opened fits in
    (
      λ h. elim ((check_iff honeypot (decimal opened) now).0 h).1 [
        | inl unread ↦ absurd (ground arith)
        | inr (n, read, late) ↦ ground arith
      ],
      λ late. (check_iff honeypot (decimal opened) now).1 (blank, inr (opened, stamp, late)),
    )
