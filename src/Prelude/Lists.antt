-- ===== src/Prelude/Lists.antt =====
-- Lists measured by native numbers, searched and filtered by Boolean tests, as Rust's iterators do.
use Prim.Native.Nat.{ℕ, suc, ◌+◌, ◌≤◌}
use mathlib.Core.Path.{◌≡◌, refl, subst, ap}
use mathlib.Core.Logic.{inl, inr}
use mathlib.Core.Bool.{Bool, true, false, not, ◌&&◌, ◌||◌}
use mathlib.Core.List.{List, [], ◌∷◌, ◌++◌}
use mathlib.Core.Option.{Option, none, some}
use native.Mathlib.Omega.{arith}
use hemsidor.Prelude.Results.{some_or}
use hemsidor.Prelude.Tests.{if◌then◌else◌, ltb, Bool-cases}

module _ {ℓ} {A : Type ℓ} where
  abbrev pub length : List A → ℕ
  length [] = 0
  length (x ∷ xs) = suc (length xs)

  abbrev pub is_empty : List A → Bool
  is_empty [] = true
  is_empty (x ∷ xs) = false

  -- `iter().any(p)`
  abbrev pub any : (A → Bool) → List A → Bool
  any p [] = false
  any p (x ∷ xs) = p x || any p xs

  -- `iter().all(p)`
  abbrev pub all : (A → Bool) → List A → Bool
  all p [] = true
  all p (x ∷ xs) = p x && all p xs

  -- `into_iter().find(p)`
  abbrev pub find : (A → Bool) → List A → Option A
  find p [] = none
  find p (x ∷ xs) = if p x then some x else find p xs

  -- `into_iter().filter(p)`
  abbrev pub filter : (A → Bool) → List A → List A
  filter p [] = []
  filter p (x ∷ xs) = if p x then x ∷ filter p xs else filter p xs

  pub length-append : (xs ys : List A) → length (xs ++ ys) ≡ length xs + length ys
  length-append [] ys = omega arith
  length-append (x ∷ xs) ys = omega (arith, length-append xs ys)

  pub length-filter-le : (p : A → Bool) (xs : List A) → length (filter p xs) ≤ length xs
  length-filter-le p [] = omega arith
  length-filter-le p (x ∷ xs) = ground (arith, length-filter-le p xs)

  -- What `find` returns passes the test.
  pub find_passes : (p : A → Bool) (xs : List A) {x : A} → find p xs ≡ some x → p x ≡ true
  find_passes p [] h = cc
  find_passes p (x ∷ xs) {x = y} h = ground (arith, find_passes p xs {x = y})

  -- `find` misses exactly where every element fails the test.
  pub find_of_none : (p : A → Bool) (xs : List A) → any p xs ≡ false → find p xs ≡ none
  find_of_none p [] h = refl
  find_of_none p (x ∷ xs) h = ground (arith, find_of_none p xs)

-- Every element satisfies `P`.
abbrev pub All {ℓ κ} : {A : Type ℓ} → (A → Type κ) → List A → Type κ
All P [] = Unit
All P (x ∷ xs) = P x × All P xs

module _ {ℓ} {A : Type ℓ} where
  pub All-of_all : (p : A → Bool) (xs : List A) → all p xs ≡ true → All (λ x. p x ≡ true) xs
  All-of_all p [] h = tt
  All-of_all p (x ∷ xs) h = ground (arith, All-of_all p xs)

  pub all-filter : (p : A → Bool) (xs : List A) → all p (filter p xs) ≡ true
  all-filter p [] = refl
  all-filter p (x ∷ xs) = ground (arith, all-filter p xs)

module _ {ℓ κ} {A : Type ℓ} (P : A → Type κ) where
  pub find-All : (p : A → Bool) (xs : List A) (x : A) → All P xs → find p xs ≡ some x → P x
  find-All p [] x h e = cc
  find-All p (y ∷ xs) x (h, hs) e = elim (Bool-cases (p y)) [
    | inl here ↦ subst P (ground arith) h
    | inr there ↦ find-All p xs x hs (ground arith)
  ]

  -- What follows from `P` holds of every element too.
  pub All_mono {κ'} :
      {Q : A → Type κ'} → ((x : A) → P x → Q x) → (xs : List A) → All P xs → All Q xs
  All_mono f [] h = tt
  All_mono f (x ∷ xs) (h, hs) = (f x h, All_mono f xs hs)

module _ {ℓ} {A : Type ℓ} where
  -- Where filtering keeps nothing, every element fails the test.
  pub filter_empty :
      (p : A → Bool) (xs : List A) → is_empty (filter p xs) ≡ true → All (λ x. p x ≡ false) xs
  filter_empty p [] h = tt
  filter_empty p (x ∷ xs) h = ground (arith, filter_empty p xs)

  -- Where filtering drops nothing, every element passes the test.
  pub filter_full :
      (p : A → Bool) (xs : List A)
      → ltb (length (filter p xs)) (length xs) ≡ false
      → All (λ x. p x ≡ true) xs
  filter_full p [] h = tt
  filter_full p (x ∷ xs) h = ground (arith, filter_full p xs, length-filter-le p xs)

  -- The element is the first that passes the test.
  abbrev pub FirstOf : (A → Bool) → List A → A → Type ℓ
  FirstOf p xs v =
      (before : List A) × (after : List A) × (xs ≡ before ++ v ∷ after)
      × All (λ x. p x ≡ false) before
      × (p v ≡ true)

  -- Where filtering drops something, the first that fails the test is found.
  pub find_dropped :
      (p q : A → Bool) (d : A) (xs : List A)
      → ((x : A) → q x ≡ not (p x))
      → ltb (length (filter p xs)) (length xs) ≡ true
      → FirstOf q xs (some_or d (find q xs))
  find_dropped p q d [] opposite h = absurd (ground arith)
  find_dropped p q d (x ∷ xs) opposite h = elim (Bool-cases (p x)) [
    | inl kept ↦
        let missed : q x ≡ false = ground (arith, opposite x) in
        let (before, after, split, misses, found) = find_dropped p q d xs opposite (ground arith) in
        rw missed (x ∷ before, after, ap (λ ys. x ∷ ys) split, (missed, misses), found)
    | inr dropped ↦
        let found : q x ≡ true = ground (arith, opposite x) in rw found ([], xs, refl, tt, found)
  ]
