-- ===== src/Text/Words.antt =====
-- `str::split_whitespace`: the runs of characters that are no white space.
use hemsidor.Prelude.{
  ℕ, Bool, true, false, not, ◌≡◌, ◌≢◌, refl, ◌∙◌, List, [], ◌∷◌, ◌++◌, all, is_empty, if◌then◌else◌,
  arith, All, Bool-cases, inl, inr,
}
use hemsidor.Text.{Text, is_whitespace}
use hemsidor.Text.Trim.{IsBlank}

-- The text goes on with a word.
starts_word : Text → Bool
starts_word [] = false
starts_word (c ∷ s) = not (is_whitespace c)

-- A character in front of the first word.
onto_first : ℕ → List Text → List Text
onto_first c [] = (c ∷ []) ∷ []
onto_first c (word ∷ words) = (c ∷ word) ∷ words

unfoldable pub split_whitespace : Text → List Text
unfolding starts_word onto_first
split_whitespace [] = []
split_whitespace (c ∷ s) =
    let words = split_whitespace s in
    if is_whitespace c
    then words
    else if starts_word s
    then onto_first c words
    else (c ∷ []) ∷ words

-- One or more characters, none of them white space.
abbrev pub IsWord : Text → Type 0
IsWord w = (is_empty w ≡ false) × (all (λ c. not (is_whitespace c)) w ≡ true)

split_blank : (b t : Text) → IsBlank b → split_whitespace (b ++ t) ≡ split_whitespace t
unfolding split_whitespace
split_blank [] t h = refl
split_blank (c ∷ b) t h = ground (arith, split_blank b t)

pub split_word : (w : Text) → IsWord w → split_whitespace w ≡ w ∷ []
unfolding split_whitespace
split_word [] (h, k) = cc
split_word (c ∷ []) h = ground arith
split_word (c ∷ d ∷ w) h = ground (arith, split_word (d ∷ w))

found_word : (t : Text) → starts_word t ≡ true → split_whitespace t ≢ []
unfolding split_whitespace
found_word [] h = cc
found_word (c ∷ []) h = ground arith
found_word (c ∷ d ∷ t) h = ground (arith, found_word (d ∷ t))

onto_first-append :
    (c : ℕ) (ws vs : List Text) → ws ≢ [] → onto_first c (ws ++ vs) ≡ onto_first c ws ++ vs
unfolding onto_first
onto_first-append c [] vs h = absurd (h refl)
onto_first-append c (w ∷ ws) vs h = refl

starts_word-append :
    (d : ℕ) (b t u : Text)
    → is_whitespace d ≡ true
    → starts_word (t ++ ((d ∷ b) ++ u)) ≡ starts_word t
unfolding starts_word
starts_word-append d b [] u h = ground arith
starts_word-append d b (c ∷ t) u h = refl

-- A word behind white space is one word more.
pub split_whitespace-append_word :
    (t : Text) (d : ℕ) (b w : Text)
    → IsBlank (d ∷ b)
    → IsWord w
    → split_whitespace (t ++ ((d ∷ b) ++ w)) ≡ split_whitespace t ++ w ∷ []
unfolding split_whitespace
split_whitespace-append_word [] d b w blank word = split_blank (d ∷ b) w blank ∙ split_word w word
split_whitespace-append_word (c ∷ t) d b w blank word = ground (
  arith,
  split_whitespace-append_word t d b w,
  starts_word-append d b t w,
  onto_first-append c (split_whitespace t) (w ∷ []),
  found_word t,
)

onto_first-IsWord :
    (c : ℕ) (ws : List Text)
    → is_whitespace c ≡ false
    → All IsWord ws
    → All IsWord (onto_first c ws)
unfolding onto_first
onto_first-IsWord c [] h k = ground arith
onto_first-IsWord c (w ∷ ws) h k = ground arith

pub split_whitespace-IsWord : (t : Text) → All IsWord (split_whitespace t)
unfolding split_whitespace
split_whitespace-IsWord [] = tt
split_whitespace-IsWord (c ∷ s) = elim (Bool-cases (is_whitespace c)) [
  | inl blank ↦ rw (blank, split_whitespace) (split_whitespace-IsWord s)
  | inr solid ↦ elim (Bool-cases (starts_word s)) [
    | inl goes_on ↦
        rw (solid, goes_on, split_whitespace)
          (onto_first-IsWord c (split_whitespace s) solid (split_whitespace-IsWord s))
    | inr ends ↦
        rw (solid, ends, split_whitespace) ((refl, ground arith), split_whitespace-IsWord s)
  ]
]
