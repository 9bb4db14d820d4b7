-- ===== src/Handover/Receipt/Wrap.antt =====
-- Wrapping moves white space only, and keeps to the width where the words let it.
use hemsidor.Prelude.{
  ℕ, ◌+◌, ◌≤◌, false, ◌≡◌, refl, sym, ap, ◌∙◌, ◌⊎◌, inl, inr, List, [], ◌∷◌, ◌++◌, length,
  length-append, ltb, All, arith, Bool-cases,
}
use mathlib.Core.Path.{subst}
use mathlib.Core.List.{append_assoc, append-nil}
use hemsidor.Text.{Text, is_whitespace}
use hemsidor.Text.Trim.{IsBlank}
use hemsidor.Text.Split.{join}
use hemsidor.Text.Words.{
  split_whitespace, split_word, IsWord, split_whitespace-append_word, split_whitespace-IsWord,
}
use hemsidor.Handover.Receipt.{fill, fill_all, wrap}

abbrev text_of : Text × Text → Text
text_of (out, line) = out ++ line

module _ (width : ℕ) (indent : Text) where
  -- Where no line is being filled, nothing has been written.
  abbrev Started : Text × Text → Type 0
  Started (out, []) = out ≡ []
  Started (out, c ∷ line) = Unit

  space-IsBlank : IsBlank (b' ' ∷ [])
  unfolding is_whitespace
  space-IsBlank = refl

  break-IsBlank : IsBlank indent → IsBlank (b'\n' ∷ indent)
  unfolding is_whitespace
  break-IsBlank h = ground arith

  fill-Started : (out line word : Text) → IsWord word → Started (fill width indent (out, line) word)
  fill-Started out line [] (h, k) = cc
  fill-Started out [] (d ∷ word) h = tt
  fill-Started out (c ∷ line) (d ∷ word) h =
      elim (Bool-cases (ltb width (length (c ∷ line) + 1 + length (d ∷ word)))) [
        | inl full ↦ rw full tt
        | inr room ↦ rw room tt
      ]

  grouped :
      (out line gap word : Text) → (out ++ (line ++ gap)) ++ word ≡ (out ++ line) ++ (gap ++ word)
  grouped out line gap word = simp append_assoc

  grouped_line :
      (out line gap word : Text) → out ++ ((line ++ gap) ++ word) ≡ (out ++ line) ++ (gap ++ word)
  grouped_line out line gap word = simp append_assoc

  -- One more word is laid.
  fill-words :
      (out line word : Text)
      → IsBlank indent
      → Started (out, line)
      → IsWord word
      → split_whitespace (text_of (fill width indent (out, line) word))
        ≡ split_whitespace (out ++ line) ++ word ∷ []
  unfolding split_whitespace
  fill-words out [] word blank started h =
      subst (λ o. split_whitespace (o ++ word) ≡ split_whitespace (o ++ []) ++ word ∷ [])
        (sym started) (split_word word h)
  fill-words out (c ∷ line) word blank started h =
      elim (Bool-cases (ltb width (length (c ∷ line) + 1 + length word))) [
        | inl full ↦ rw full (
            ap split_whitespace (grouped out (c ∷ line) (b'\n' ∷ indent) word)
            ∙ split_whitespace-append_word (out ++ c ∷ line) b'\n' indent word (break-IsBlank blank)
                h)
        | inr room ↦ rw room (
            ap split_whitespace (grouped_line out (c ∷ line) (b' ' ∷ []) word)
            ∙ split_whitespace-append_word (out ++ c ∷ line) b' ' [] word space-IsBlank h)
      ]

  fill_all-words :
      (words : List Text) (out line : Text)
      → IsBlank indent
      → Started (out, line)
      → All IsWord words
      → split_whitespace (text_of (fill_all width indent (out, line) words))
        ≡ split_whitespace (out ++ line) ++ words
  fill_all-words [] out line blank started h = sym (append-nil _)
  fill_all-words (word ∷ words) out line blank started (h, hs) =
      let (out', line') = fill width indent (out, line) word in
      fill_all-words words out' line' blank (fill-Started out line word h) hs
      ∙ (ap (λ ws. ws ++ words) (fill-words out line word blank started h)
          ∙ append_assoc (split_whitespace (out ++ line)) (word ∷ []) words)

  -- Wrapping loses no word, adds none and keeps their order, whatever the text and the width, where
  -- the indent is white space.
  pub wrap-words :
      (text : Text)
      → IsBlank indent
      → split_whitespace (wrap text width indent) ≡ split_whitespace text
  unfolding wrap split_whitespace
  wrap-words text blank =
      fill_all-words (split_whitespace text) [] [] blank refl (split_whitespace-IsWord text)

  -- A line that keeps to the width, or a word that is too long for any line.
  abbrev pub Fits : Text → Type 0
  Fits line = (length line ≤ width) ⊎ IsWord line

  -- The lines that are done are written with a break behind each.
  abbrev closed : List Text → Text
  closed [] = []
  closed (l ∷ ls) = (l ++ (b'\n' ∷ indent)) ++ closed ls

  closed-append :
      (ls : List Text) (l : Text) → closed (ls ++ l ∷ []) ≡ closed ls ++ (l ++ (b'\n' ∷ indent))
  closed-append [] l = append-nil _
  closed-append (k ∷ ls) l =
      ap (λ t. (k ++ (b'\n' ∷ indent)) ++ t) (closed-append ls l)
      ∙ sym (append_assoc (k ++ (b'\n' ∷ indent)) (closed ls) _)

  join-closed : (ls : List Text) (l : Text) → join (b'\n' ∷ indent) (ls ++ l ∷ []) ≡ closed ls ++ l
  unfolding join
  join-closed [] l = refl
  join-closed (k ∷ []) l = simp (append_assoc, append-nil)
  join-closed (k ∷ m ∷ ls) l =
      ap (λ t. k ++ b'\n' ∷ (indent ++ t)) (join-closed (m ∷ ls) l) ∙ simp append_assoc

  record Lines (out line : Text) : Type 0 where
    done : List Text
    written : out ≡ closed done
    fit : All Fits done
    last_fits : Fits line

  All-append : (ls : List Text) (l : Text) → All Fits ls → Fits l → All Fits (ls ++ l ∷ [])
  All-append [] l h k = (k, tt)
  All-append (m ∷ ls) l (h, hs) k = (h, All-append ls l hs k)

  fits_behind :
      (c : ℕ) (line word : Text)
      → ltb width (length (c ∷ line) + 1 + length word) ≡ false
      → length (((c ∷ line) ++ b' ' ∷ []) ++ word) ≤ width
  fits_behind c line word room =
      ground (arith, length-append (line ++ b' ' ∷ []) word, length-append line (b' ' ∷ []))

  fill-Lines :
      (out line word : Text)
      → Lines out line
      → IsWord word
      → Lines (fill width indent (out, line) word).0 (fill width indent (out, line) word).1
  fill-Lines out [] word lines h = record {
    done = lines.done;
    written = lines.written;
    fit = lines.fit;
    last_fits = inr h;
  }
  fill-Lines out (c ∷ line) word lines h =
      elim (Bool-cases (ltb width (length (c ∷ line) + 1 + length word))) [
        | inl full ↦ rw full (record {
          done = lines.done ++ (c ∷ line) ∷ [];
          written =
              ap (λ o. o ++ ((c ∷ line) ++ (b'\n' ∷ indent))) lines.written
              ∙ sym (closed-append lines.done (c ∷ line));
          fit = All-append lines.done (c ∷ line) lines.fit lines.last_fits;
          last_fits = inr h;
        })
        | inr room ↦ rw room (record {
          done = lines.done;
          written = lines.written;
          fit = lines.fit;
          last_fits = inl (fits_behind c line word room);
        })
      ]

  fill_all-Lines :
      (words : List Text) (out line : Text)
      → Lines out line
      → All IsWord words
      → Lines
          (fill_all width indent (out, line) words).0
          (fill_all width indent (out, line) words).1
  fill_all-Lines [] out line lines h = lines
  fill_all-Lines (word ∷ words) out line lines (h, hs) =
      let (out', line') = fill width indent (out, line) word in
      fill_all-Lines words out' line' (fill-Lines out line word lines h) hs

  Lines-joined :
      (out line : Text)
      → Lines out line
      → (ls : List Text) × (out ++ line ≡ join (b'\n' ∷ indent) ls) × All Fits ls
  Lines-joined out line lines = (
    lines.done ++ line ∷ [],
    ap (λ o. o ++ line) lines.written ∙ sym (join-closed lines.done line),
    All-append lines.done line lines.fit lines.last_fits,
  )

  -- Wrapping writes lines with the indent in front of all but the first, and each line keeps to the
  -- width, or is a single word that may be longer.
  pub wrap-lines :
      (text : Text)
      → (ls : List Text) × (wrap text width indent ≡ join (b'\n' ∷ indent) ls) × All Fits ls
  unfolding wrap
  wrap-lines text =
      let (out, line) = fill_all width indent ([], []) (split_whitespace text) in
      Lines-joined out line (
        fill_all-Lines (split_whitespace text) [] []
          (record { done = []; written = refl; fit = tt; last_fits = inl (omega arith) })
          (split_whitespace-IsWord text))
