-- ===== src/Text/InOrder.antt =====
-- A text that shows several parts, one after another.
use hemsidor.Prelude.{
  Bool, true, false, ◌≡◌, refl, sym, ap, ◌∙◌, List, [], ◌∷◌, ◌++◌, map, if◌then◌else◌,
}
use mathlib.Core.List.{append_assoc, append-nil}
use hemsidor.Text.{Text, concat}

-- The parts stand in the text, each after the one before it, without overlap.
abbrev pub InOrder : Text → List Text → Type 0
InOrder text [] = Unit
InOrder text (part ∷ parts) =
    (before : Text) × (after : Text) × (text ≡ before ++ (part ++ after)) × InOrder after parts

-- The parts of every element.
abbrev pub parts_of : {A : Type 0} → (A → List Text) → List A → List Text
parts_of parts [] = []
parts_of parts (x ∷ xs) = parts x ++ parts_of parts xs

skip : (s t : Text) (ps : List Text) → InOrder t ps → InOrder (s ++ t) ps
skip s t [] h = tt
skip s t (p ∷ ps) (b, a, e, h) =
    (s ++ b, a, ap (λ w. s ++ w) e ∙ sym (append_assoc s b (p ++ a)), h)

InOrder-append :
    (ps qs : List Text) (s t : Text) → InOrder s ps → InOrder t qs → InOrder (s ++ t) (ps ++ qs)
InOrder-append [] qs s t h k = skip s t qs k
InOrder-append (p ∷ ps) qs s t (b, a, e, h) k =
    (b, a ++ t, ap (λ w. w ++ t) e ∙ simp append_assoc, InOrder-append ps qs a t h k)

pub extend : (s t : Text) (ps : List Text) → InOrder s ps → InOrder (s ++ t) ps
extend s t [] h = tt
extend s t (p ∷ ps) (b, a, e, h) =
    (b, a ++ t, ap (λ w. w ++ t) e ∙ simp append_assoc, extend a t ps h)

pub blocks-InOrder :
    {A : Type 0} (block : A → Text) (parts : A → List Text) (xs : List A)
    → ((x : A) → InOrder (block x) (parts x))
    → InOrder (concat (map block xs)) (parts_of parts xs)
unfolding concat
blocks-InOrder block parts [] each = tt
blocks-InOrder block parts (x ∷ xs) each =
    InOrder-append (parts x) (parts_of parts xs) (block x) (concat (map block xs)) (each x)
      (blocks-InOrder block parts xs each)

-- A piece of what is printed, with the parts that stand in it.
pub record Piece : Type 0 where
  pub text : Text
  pub parts : List Text
  pub stands : InOrder text parts

abbrev pub quiet : Text → Piece
quiet t = record { text = t; parts = []; stands = tt }

abbrev pub whole : Text → Piece
whole t = record { text = t; parts = t ∷ []; stands = ([], [], sym (append-nil t), tt) }

-- A part with something before and after it.
abbrev pub among : Text → Text → Text → Piece
among before t after = record {
  text = before ++ (t ++ after);
  parts = t ∷ [];
  stands = (before, after, refl, tt);
}

abbrev pub text_before : List Piece → Text → Text
text_before [] t = t
text_before (x ∷ xs) t = x.text ++ text_before xs t

abbrev pub parts_before : List Piece → List Text → List Text
parts_before [] ps = ps
parts_before (x ∷ xs) ps = x.parts ++ parts_before xs ps

pub pieces-InOrder :
    (xs : List Piece) (t : Text) (ps : List Text)
    → InOrder t ps
    → InOrder (text_before xs t) (parts_before xs ps)
pieces-InOrder [] t ps h = h
pieces-InOrder (x ∷ xs) t ps h =
    InOrder-append x.parts (parts_before xs ps) x.text (text_before xs t) x.stands
      (pieces-InOrder xs t ps h)

-- A sentence that stands where there is nothing to show.
pub otherwise :
    (empty : Bool) (p : Piece)
    → InOrder (if empty then p.text else []) (if empty then p.parts else [])
otherwise true p = p.stands
otherwise false p = tt

abbrev pub only_if : Bool → Piece → Piece
only_if empty p = record {
  text = if empty then p.text else [];
  parts = if empty then p.parts else [];
  stands = otherwise empty p;
}
