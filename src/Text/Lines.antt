-- ===== src/Text/Lines.antt =====
-- `str::lines`: the parts between newlines, each without a carriage return before its newline, and
-- without a last empty part.
use hemsidor.Prelude.{
  ℕ, true, false, ◌&&◌, ◌≡◌, refl, List, [], ◌∷◌, arith, ◌==◌, is_empty, All, if◌then◌else◌, ap,
  ap₂, ◌∙◌,
}
use hemsidor.Text.{Text, return_is_whitespace}
use hemsidor.Text.Trim.{ends_clean}
use hemsidor.Text.Split.{split_on, join, lacks, split_on-join, split_on-All-lacks}

-- `line.strip_suffix('\r').unwrap_or(line)`
strip_return : Text → Text
strip_return [] = []
strip_return (c ∷ s) = if is_empty s && c == 13 then [] else c ∷ strip_return s

terminated : List Text → List Text
terminated [] = []
terminated (last ∷ []) = if is_empty last then [] else last ∷ []
terminated (line ∷ next ∷ parts) = strip_return line ∷ terminated (next ∷ parts)

unfoldable pub lines : Text → List Text
unfolding terminated strip_return split_on
lines t = terminated (split_on b'\n' t)

-- A line that comes back as it stands: no newline in it, no white space at its end, not empty.
abbrev pub IsLine : Text → Type 0
IsLine s = (lacks b'\n' s ≡ true) × (ends_clean s ≡ true) × (is_empty s ≡ false)

strip_return_of_clean : (s : Text) → ends_clean s ≡ true → strip_return s ≡ s
unfolding strip_return
strip_return_of_clean [] h = refl
strip_return_of_clean (c ∷ []) h = ground (arith, return_is_whitespace)
strip_return_of_clean (c ∷ d ∷ s) h = rw (strip_return_of_clean (d ∷ s) h)

terminated_of_lines : (ls : List Text) → All IsLine ls → terminated ls ≡ ls
unfolding terminated
terminated_of_lines [] h = refl
terminated_of_lines (last ∷ []) (h, _) = ground arith
terminated_of_lines (line ∷ next ∷ parts) (h, hs) =
    ap₂ (λ a b. a ∷ b) (strip_return_of_clean line h.1) (terminated_of_lines (next ∷ parts) hs)

All-lacks_of_lines : (ls : List Text) → All IsLine ls → All (λ s. lacks b'\n' s ≡ true) ls
All-lacks_of_lines [] h = tt
All-lacks_of_lines (l ∷ ls) (h, hs) = (h.0, All-lacks_of_lines ls hs)

-- Lines that were joined by newlines are read back.
pub lines-join :
    (l : Text) (ls : List Text) → All IsLine (l ∷ ls) → lines (join (b'\n' ∷ []) (l ∷ ls)) ≡ l ∷ ls
unfolding lines
lines-join l ls h =
    ap terminated (split_on-join b'\n' l ls (All-lacks_of_lines (l ∷ ls) h))
    ∙ terminated_of_lines (l ∷ ls) h

lacks-strip_return : (d : ℕ) (s : Text) → lacks d s ≡ true → lacks d (strip_return s) ≡ true
unfolding strip_return
lacks-strip_return d [] h = refl
lacks-strip_return d (c ∷ s) h = ground (arith, lacks-strip_return d s)

terminated-All-lacks :
    (d : ℕ) (ls : List Text)
    → All (λ s. lacks d s ≡ true) ls
    → All (λ s. lacks d s ≡ true) (terminated ls)
unfolding terminated
terminated-All-lacks d [] h = tt
terminated-All-lacks d (last ∷ []) h = ground arith
terminated-All-lacks d (line ∷ next ∷ parts) (h, hs) =
    (lacks-strip_return d line h, terminated-All-lacks d (next ∷ parts) hs)

-- No line holds a newline.
pub lines-All-lacks : (t : Text) → All (λ s. lacks b'\n' s ≡ true) (lines t)
unfolding lines
lines-All-lacks t = terminated-All-lacks b'\n' (split_on b'\n' t) (split_on-All-lacks b'\n' t)
