-- ===== src/Text/Match.antt =====
-- Prefixes, suffixes and occurrences: `starts_with`, `ends_with`, `contains`.
use hemsidor.Prelude.{ℕ, Bool, true, false, ◌&&◌, ◌||◌, ◌≡◌, refl, [], ◌∷◌, ◌++◌, arith, ◌==◌, any}
use hemsidor.Text.{Text}

-- `t.starts_with(prefix)`
unfoldable pub starts_with : Text → Text → Bool
starts_with t [] = true
starts_with [] (_ ∷ _) = false
starts_with (c ∷ t) (d ∷ prefix) = c == d && starts_with t prefix

-- `t.ends_with(ch)` for a character.
unfoldable pub ends_with : Text → ℕ → Bool
ends_with [] d = false
ends_with (c ∷ []) d = c == d
ends_with (c ∷ e ∷ t) d = ends_with (e ∷ t) d

-- `t.contains(ch)` for a character.
abbrev pub contains_char : Text → ℕ → Bool
contains_char t d = any (λ c. c == d) t

-- `t.contains(needle)` for a text.
unfoldable pub contains : Text → Text → Bool
unfolding starts_with
contains [] needle = starts_with [] needle
contains (c ∷ t) needle = starts_with (c ∷ t) needle || contains t needle

pub starts_with-append : (s t : Text) → starts_with (s ++ t) s ≡ true
unfolding starts_with
starts_with-append [] [] = refl
starts_with-append [] (d ∷ t) = refl
starts_with-append (c ∷ s) t = ground (arith, starts_with-append s t)
