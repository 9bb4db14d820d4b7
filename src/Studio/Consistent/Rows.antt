-- ===== src/Studio/Consistent/Rows.antt =====
-- Rows that are found again: by their keys, and by the statuses that are never left.
use hemsidor.Prelude.{
  ℕ, Bool, true, false, ◌≡◌, refl, ap, ap₂, ◌∙◌, inl, inr, some, List, [], ◌∷◌, ◌++◌, map, any,
  find, ok, ◌==◌, ◌&&◌, ==_iff, Bool-cases, All, arith,
}
use mathlib.Core.Path.{subst}
use hemsidor.Core.Status.{
  OrderStatus, publicerad, avbruten, transition_to, can_transition_to, next_allowed,
}
use hemsidor.Core.Status.Laws.{walk}
use hemsidor.Studio.Models.{Order, Site, Delivery}
use hemsidor.Studio.Tables.{is_id, delivers}
use hemsidor.Studio.Grows.{OrderGrows, SiteGrows, Extends, Unique}
use hemsidor.Studio.Lives.{status_of, Extends-status}

-- The two statuses that are never left.
pub data Final : OrderStatus → Type 0 where
  published : Final publicerad
  cancelled : Final avbruten

walk_final :
    {s : OrderStatus} (ns : List OrderStatus) (t : OrderStatus) → Final s → walk s ns ≡ ok t → t ≡ s
unfolding walk transition_to can_transition_to next_allowed
walk_final [] t f h = ground arith
walk_final (n ∷ ns) t published h = absurd (ground arith)
walk_final (n ∷ ns) t cancelled h = absurd (ground arith)

pub still_final :
    {s : OrderStatus} (n : ℕ) (xs ys : List Order)
    → Final s
    → Extends OrderGrows xs ys
    → status_of n xs ≡ some s
    → status_of n ys ≡ some s
still_final {s} n xs ys f e h =
    let (ns, t, walked, after) = Extends-status n xs ys s e h in
    after ∙ ap some (walk_final ns t f walked)

-- A delivery goes on belonging to its order.
pub still_delivers :
    (n : ℕ) (d : Delivery) (xs ys : List Site)
    → Extends SiteGrows xs ys
    → delivers xs n d ≡ true
    → delivers ys n d ≡ true
still_delivers n d [] ys e h = absurd (ground arith)
still_delivers n d (x ∷ xs) [] e h = absurd e
still_delivers n d (x ∷ xs) (y ∷ ys) (grows, e) h =
    let same : is_id d.site_id y.id && is_id y.order_id n
        ≡ is_id d.site_id x.id && is_id x.order_id n =
      ap (λ (s : Site). is_id d.site_id s.id && is_id s.order_id n) grows.facts in
    elim (Bool-cases (is_id d.site_id x.id && is_id x.order_id n)) [
      | inl here ↦ rw (same ∙ here) refl
      | inr other ↦ rw (same ∙ other) (still_delivers n d xs ys e (rw other at h))
    ]

module _ {A : Type 0} (key : A → ℕ) where
  pub same_keys :
      (f : A → A) → ((x : A) → key (f x) ≡ key x) → (xs : List A) → map key (map f xs) ≡ map key xs
  same_keys f h [] = refl
  same_keys f h (x ∷ xs) = ap₂ (λ k ks. k ∷ ks) (h x) (same_keys f h xs)

  absent :
      (k : ℕ) (xs : List A) (x : A)
      → any (λ m. m == k) (map key xs) ≡ false
      → All (λ y. key y == k ≡ true → y ≡ x) xs
  absent k [] x h = tt
  absent k (y ∷ xs) x h = (λ e. absurd (ground (arith, e, h)), absent k xs x (ground arith))

  other_key :
      (p : A → Bool) (k : ℕ) (xs : List A) (x : A)
      → any (λ m. m == k) (map key xs) ≡ false
      → find p xs ≡ some x
      → key x == k ≡ false
  other_key p k [] x h e = absurd (ground arith)
  other_key p k (y ∷ xs) x h e = elim (Bool-cases (p y)) [
    | inl here ↦ ground (arith, here, h, e)
    | inr there ↦ other_key p k xs x (ground arith) (ground (arith, there, e))
  ]

  ==_sym : (a b : ℕ) → a == b ≡ false → b == a ≡ false
  ==_sym a b h = ground (arith, ==_iff a b, ==_iff b a)

  -- No other row has the key of a row that was found.
  pub only_row :
      (p : A → Bool) (xs : List A) (x : A)
      → Unique (map key xs)
      → find p xs ≡ some x
      → All (λ y. key y == key x ≡ true → y ≡ x) xs
  only_row p [] x u h = tt
  only_row p (y ∷ xs) x (u, us) h = elim (Bool-cases (p y)) [
    | inl here ↦
        let same : y ≡ x = ground (arith, here, h) in
        (
          λ e. same,
          absent (key x) xs x (subst (λ z. any (λ m. m == key z) (map key xs) ≡ false) same u),
        )
    | inr there ↦
        let later : find p xs ≡ some x = ground (arith, there, h) in
        let differs = ==_sym (key x) (key y) (other_key p (key y) xs x u later) in
        (λ e. absurd (ground (arith, e, differs)), only_row p xs x us later)
  ]

  absent-append :
      (k : ℕ) (xs : List A) (x : A)
      → any (λ m. m == k) (map key xs) ≡ false
      → key x == k ≡ false
      → any (λ m. m == k) (map key (xs ++ x ∷ [])) ≡ false
  absent-append k [] x h e = rw e refl
  absent-append k (y ∷ xs) x h e = elim (Bool-cases (key y == k)) [
    | inl here ↦ absurd (ground (arith, here, h))
    | inr there ↦ rw there (absent-append k xs x (rw there at h) e)
  ]

  pub Unique-append :
      (xs : List A) (x : A)
      → Unique (map key xs)
      → any (λ m. m == key x) (map key xs) ≡ false
      → Unique (map key (xs ++ x ∷ []))
  Unique-append [] x u h = (refl, tt)
  Unique-append (y ∷ xs) x (u, us) h = (
    absent-append (key y) xs x u (==_sym (key y) (key x) (ground arith)),
    Unique-append xs x us (ground arith),
  )

module _ {A : Type 0} (P : A → Type 0) where
  pub All-map :
      (Q : A → Type 0) (f : A → A)
      → ((x : A) → P x → Q (f x))
      → (xs : List A) → All P xs
      → All Q (map f xs)
  All-map Q f h [] p = tt
  All-map Q f h (x ∷ xs) (p, ps) = (h x p, All-map Q f h xs ps)

  pub All-both : (Q : A → Type 0) (xs : List A) → All P xs → All Q xs → All (λ x. P x × Q x) xs
  All-both Q [] p q = tt
  All-both Q (x ∷ xs) (p, ps) (q, qs) = ((p, q), All-both Q xs ps qs)

  pub All-append : (xs : List A) (x : A) → All P xs → P x → All P (xs ++ x ∷ [])
  All-append [] x ps p = (p, tt)
  All-append (y ∷ xs) x (q, ps) p = (q, All-append xs x ps p)
