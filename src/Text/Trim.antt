-- ===== src/Text/Trim.antt =====
-- `str::trim`, and what it leaves: a text with no white space at either end.
use hemsidor.Prelude.{
  ℕ, Bool, true, false, not, ◌&&◌, ◌≡◌, refl, [], ◌∷◌, ◌++◌, arith, is_empty, all, if◌then◌else◌,
  ap, ◌∙◌,
}
use mathlib.Core.List.{append-nil}
use hemsidor.Text.{Text, is_whitespace}

unfoldable pub trim_start : Text → Text
trim_start [] = []
trim_start (c ∷ s) = if is_whitespace c then trim_start s else c ∷ s

unfoldable pub trim_end : Text → Text
trim_end [] = []
trim_end (c ∷ s) =
    let rest = trim_end s in if is_empty rest && is_whitespace c then [] else c ∷ rest

unfoldable pub trim : Text → Text
trim t = trim_end (trim_start t)

abbrev pub starts_clean : Text → Bool
starts_clean [] = true
starts_clean (c ∷ s) = not (is_whitespace c)

abbrev pub ends_clean : Text → Bool
ends_clean [] = true
ends_clean (c ∷ []) = not (is_whitespace c)
ends_clean (c ∷ d ∷ s) = ends_clean (d ∷ s)

-- No white space at either end.
abbrev pub IsTrimmed : Text → Type 0
IsTrimmed t = (starts_clean t ≡ true) × (ends_clean t ≡ true)

trim_start-starts_clean : (t : Text) → starts_clean (trim_start t) ≡ true
unfolding trim_start
trim_start-starts_clean [] = refl
trim_start-starts_clean (c ∷ s) = ground (arith, trim_start-starts_clean s)

trim_end-starts_clean : (t : Text) → starts_clean t ≡ true → starts_clean (trim_end t) ≡ true
unfolding trim_end
trim_end-starts_clean [] h = refl
trim_end-starts_clean (c ∷ s) h = ground arith

ends_clean-cons :
    (c : ℕ) (s : Text)
    → ends_clean s ≡ true
    → (is_empty s && is_whitespace c) ≡ false
    → ends_clean (c ∷ s) ≡ true
ends_clean-cons c [] h k = ground arith
ends_clean-cons c (d ∷ s) h k = h

trim_end-ends_clean : (t : Text) → ends_clean (trim_end t) ≡ true
unfolding trim_end
trim_end-ends_clean [] = refl
trim_end-ends_clean (c ∷ s) = ground (arith, trim_end-ends_clean s, ends_clean-cons c (trim_end s))

pub trim-IsTrimmed : (t : Text) → IsTrimmed (trim t)
unfolding trim
trim-IsTrimmed t = (
  trim_end-starts_clean (trim_start t) (trim_start-starts_clean t),
  trim_end-ends_clean (trim_start t),
)

trim_start_of_clean : (t : Text) → starts_clean t ≡ true → trim_start t ≡ t
unfolding trim_start
trim_start_of_clean [] h = refl
trim_start_of_clean (c ∷ s) h = ground arith

pub trim_end_of_clean : (t : Text) → ends_clean t ≡ true → trim_end t ≡ t
unfolding trim_end
trim_end_of_clean [] h = refl
trim_end_of_clean (c ∷ []) h = ground arith
trim_end_of_clean (c ∷ d ∷ s) h = rw (trim_end_of_clean (d ∷ s) h)

pub trim_of_IsTrimmed : (t : Text) → IsTrimmed t → trim t ≡ t
unfolding trim
trim_of_IsTrimmed t (a, b) = rw (trim_start_of_clean t a) (trim_end_of_clean t b)

-- Trimming twice is trimming once.
pub trim_idem : (t : Text) → trim (trim t) ≡ trim t
trim_idem t = trim_of_IsTrimmed (trim t) (trim-IsTrimmed t)

-- A test that every character passes still holds of what is left.
all-trim_start : (p : ℕ → Bool) (t : Text) → all p t ≡ true → all p (trim_start t) ≡ true
unfolding trim_start
all-trim_start p [] h = refl
all-trim_start p (c ∷ s) h = ground (arith, all-trim_start p s)

all-trim_end : (p : ℕ → Bool) (t : Text) → all p t ≡ true → all p (trim_end t) ≡ true
unfolding trim_end
all-trim_end p [] h = refl
all-trim_end p (c ∷ s) h = ground (arith, all-trim_end p s)

pub all-trim : (p : ℕ → Bool) (t : Text) → all p t ≡ true → all p (trim t) ≡ true
unfolding trim
all-trim p t h = all-trim_end p (trim_start t) (all-trim_start p t h)

trim_end-nonempty : (c : ℕ) (t : Text) → is_whitespace c ≡ false → trim_end (c ∷ t) ≡ c ∷ trim_end t
unfolding trim_end
trim_end-nonempty c t h = ground arith

trim_end-cons : (c d : ℕ) (t r : Text) → trim_end t ≡ d ∷ r → trim_end (c ∷ t) ≡ c ∷ d ∷ r
unfolding trim_end
trim_end-cons c d t r h = ground arith

-- What follows a clean text is trimmed by itself.
pub trim_end-append :
    (c : ℕ) (s t : Text)
    → ends_clean (c ∷ s) ≡ true
    → trim_end ((c ∷ s) ++ t) ≡ (c ∷ s) ++ trim_end t
trim_end-append c [] t h = trim_end-nonempty c t (ground arith)
trim_end-append c (d ∷ s) t h =
    trim_end-cons c d ((d ∷ s) ++ t) (s ++ trim_end t) (trim_end-append d s t h)

pub trim-append :
    (c : ℕ) (s t : Text) → IsTrimmed (c ∷ s) → trim ((c ∷ s) ++ t) ≡ (c ∷ s) ++ trim_end t
unfolding trim
trim-append c s t (a, b) =
    ap trim_end (trim_start_of_clean ((c ∷ s) ++ t) a) ∙ trim_end-append c s t b

abbrev pub IsBlank : Text → Type 0
IsBlank t = all is_whitespace t ≡ true

pub trim_end_of_blank : (t : Text) → IsBlank t → trim_end t ≡ []
unfolding trim_end
trim_end_of_blank [] h = refl
trim_end_of_blank (c ∷ t) h = ground (arith, trim_end_of_blank t)

trim_start-append_blank : (pad t : Text) → IsBlank pad → trim_start (pad ++ t) ≡ trim_start t
unfolding trim_start
trim_start-append_blank [] t h = refl
trim_start-append_blank (c ∷ pad) t h = ground (arith, trim_start-append_blank pad t)

-- White space around a trimmed text is taken off, and nothing else.
pub trim-pad :
    (pre : Text) (c : ℕ) (s Post : Text)
    → IsBlank pre
    → IsTrimmed (c ∷ s)
    → IsBlank Post
    → trim (pre ++ ((c ∷ s) ++ Post)) ≡ c ∷ s
unfolding trim
trim-pad pre c s Post h k l =
    ap trim_end (trim_start-append_blank pre ((c ∷ s) ++ Post) h)
    ∙ trim-append c s Post k
    ∙ ap (λ r. (c ∷ s) ++ r) (trim_end_of_blank Post l)
    ∙ append-nil (c ∷ s)
