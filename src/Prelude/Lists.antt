-- ===== src/Prelude/Lists.antt =====
-- Lists with native numbers, membership and pairwise predicates by recursion.
use Prim.Native.Nat.{ℕ, zero, suc, ◌+◌}
use mathlib.Core.Path.{◌≡◌, refl, sym, ap, ap₂, subst}
use mathlib.Core.Logic.{◌⊎◌, inl, inr}
use mathlib.Core.Bool.{Bool, true, false, not}
use mathlib.Core.List.{List, [], ◌∷◌, ◌++◌, map}
use native.Mathlib.Omega.{arith}
use gitlab_reviewer.Prelude.Tests.{if◌then◌else◌, Bool-cases}

-- `range(k, k + n)`
abbrev pub count_up : ℕ → ℕ → List ℕ
count_up k zero = []
count_up k (suc n) = k ∷ count_up (k + 1) n

module _ {ℓ} {A : Type ℓ} where
  abbrev pub length : List A → ℕ
  length [] = 0
  length (x ∷ xs) = suc (length xs)

  -- A comprehension's `if`.
  abbrev pub keep_if : (A → Bool) → List A → List A
  keep_if p [] = []
  keep_if p (x ∷ xs) = let rest = keep_if p xs in if p x then x ∷ rest else rest

  pub length-append : (a b : List A) → length (a ++ b) ≡ length a + length b
  length-append [] b = omega arith
  length-append (x ∷ a) b = let e = length-append a b in omega (arith, e)

-- Membership that the tactics open; `⊥` stands in `Type 0`, and so do the elements.
module _ {A : Type 0} where
  abbrev pub In : A → List A → Type 0
  In a [] = ⊥
  In a (x ∷ xs) = (a ≡ x) ⊎ In a xs

module _ {ℓ κ} {A : Type ℓ} where
  abbrev pub All : (A → Type κ) → List A → Type κ
  All P [] = Unit
  All P (x ∷ xs) = P x × All P xs

  abbrev pub Pairwise : (A → A → Type κ) → List A → Type κ
  Pairwise R [] = Unit
  Pairwise R (x ∷ xs) = All (R x) xs × Pairwise R xs

module _ {A : Type 0} (P : A → Type 0) where
  pub All→at : (xs : List A) → All P xs → (a : A) → In a xs → P a
  All→at (x ∷ xs) h a (inl e) = subst P (sym e) h.0
  All→at (x ∷ xs) h a (inr m) = All→at xs h.1 a m
  All→at [] h a m = absurd m

  pub All-of : (xs : List A) → ((a : A) → In a xs → P a) → All P xs
  All-of [] h = tt
  All-of (x ∷ xs) h = (h x (inl refl), All-of xs (λ a m. h a (inr m)))

module _ {A : Type 0} (p : A → Bool) where
  pub keep_if-In : (xs : List A) (a : A) → In a (keep_if p xs) → In a xs × (p a ≡ true)
  keep_if-In [] a m = absurd m
  keep_if-In (x ∷ xs) a m = elim (Bool-cases (p x)) [
    | inl t ↦ elim (rw t at m) [
      | inl e ↦ (inl e, rw e t)
      | inr n ↦ (inr (keep_if-In xs a n).0, (keep_if-In xs a n).1)
    ]
    | inr f ↦ let n = keep_if-In xs a (rw f at m) in (inr n.0, n.1)
  ]

  pub In-keep_if : (xs : List A) (a : A) → In a xs → p a ≡ true → In a (keep_if p xs)
  In-keep_if [] a m h = absurd m
  In-keep_if (x ∷ xs) a (inl e) h = rw (← e, h) (inl refl)
  In-keep_if (x ∷ xs) a (inr m) h = elim (Bool-cases (p x)) [
    | inl t ↦ rw t (inr (In-keep_if xs a m h))
    | inr f ↦ rw f (In-keep_if xs a m h)
  ]

module _ {A B : Type 0} (f : A → B) where
  pub In-map : (xs : List A) (a : A) → In a xs → In (f a) (map f xs)
  In-map (x ∷ xs) a (inl e) = inl (ap f e)
  In-map (x ∷ xs) a (inr m) = inr (In-map xs a m)
  In-map [] a m = m

  pub map-In : (xs : List A) (b : B) → In b (map f xs) → (a : A) × In a xs × (b ≡ f a)
  map-In (x ∷ xs) b (inl e) = (x, inl refl, e)
  map-In (x ∷ xs) b (inr m) = let (a, n, e) = map-In xs b m in (a, inr n, e)
  map-In [] b m = absurd m

module _ {A : Type 0} where
  pub In-append : (xs ys : List A) (a : A) → In a (xs ++ ys) → In a xs ⊎ In a ys
  In-append [] ys a m = inr m
  In-append (x ∷ xs) ys a (inl e) = inl (inl e)
  In-append (x ∷ xs) ys a (inr m) = elim (In-append xs ys a m) [
    | inl l ↦ inl (inr l)
    | inr r ↦ inr r
  ]

  pub In-append_left : (xs ys : List A) (a : A) → In a xs → In a (xs ++ ys)
  In-append_left [] ys a m = absurd m
  In-append_left (x ∷ xs) ys a (inl e) = inl e
  In-append_left (x ∷ xs) ys a (inr m) = inr (In-append_left xs ys a m)

  pub In-append_right : (xs ys : List A) (a : A) → In a ys → In a (xs ++ ys)
  In-append_right [] ys a m = m
  In-append_right (x ∷ xs) ys a m = inr (In-append_right xs ys a m)

  pub keep_if-append :
      (p : A → Bool) (xs ys : List A) → keep_if p (xs ++ ys) ≡ keep_if p xs ++ keep_if p ys
  keep_if-append p [] ys = refl
  keep_if-append p (x ∷ xs) ys = elim (Bool-cases (p x)) [
    | inl t ↦ rw (t, keep_if-append p xs ys)
    | inr f ↦ rw (f, keep_if-append p xs ys)
  ]

  -- A map that the test does not see passes through the comprehension.
  pub keep_if-map :
      (p : A → Bool) (f : A → A) (xs : List A)
      → ((a : A) → p (f a) ≡ p a)
      → keep_if p (map f xs) ≡ map f (keep_if p xs)
  keep_if-map p f [] h = refl
  keep_if-map p f (x ∷ xs) h = elim (Bool-cases (p x)) [
    | inl t ↦ rw (h x, t, keep_if-map p f xs h)
    | inr e ↦ rw (h x, e, keep_if-map p f xs h)
  ]

-- An UPDATE of the rows that `hit` finds, seen through a WHERE that the new rows fail.
module _ {A : Type 0} (p hit : A → Bool) (f : A → A) where
  pub keep_if-update_out :
      (xs : List A)
      → ((a : A) → p (f a) ≡ false)
      → keep_if p (map (λ a. if hit a then f a else a) xs)
        ≡ keep_if (λ a. not (hit a)) (keep_if p xs)
  keep_if-update_out [] out = refl
  keep_if-update_out (x ∷ xs) out = elim (Bool-cases (hit x)) [
    | inl h ↦ elim (Bool-cases (p x)) [
      | inl t ↦ rw (h, out x, t, h, keep_if-update_out xs out)
      | inr e ↦ rw (h, out x, e, keep_if-update_out xs out)
    ]
    | inr h ↦ elim (Bool-cases (p x)) [
      | inl t ↦ rw (h, t, h, keep_if-update_out xs out)
      | inr e ↦ rw (h, e, keep_if-update_out xs out)
    ]
  ]

  pub keep_if-update_outside :
      (xs : List A)
      → ((a : A) → p (f a) ≡ false)
      → ((a : A) → In a xs → hit a ≡ true → p a ≡ false)
      → keep_if p (map (λ a. if hit a then f a else a) xs) ≡ keep_if p xs
  keep_if-update_outside [] out was = refl
  keep_if-update_outside (x ∷ xs) out was = elim (Bool-cases (hit x)) [
    | inl h ↦
        rw (h, out x, was x (inl refl) h, keep_if-update_outside xs out (λ a m. was a (inr m)))
    | inr h ↦ elim (Bool-cases (p x)) [
      | inl t ↦ rw (h, t, keep_if-update_outside xs out (λ a m. was a (inr m)))
      | inr e ↦ rw (h, e, keep_if-update_outside xs out (λ a m. was a (inr m)))
    ]
  ]

module _ {A B : Type 0} where
  pub map-cong_In :
      (f g : A → B) (xs : List A) → ((a : A) → In a xs → f a ≡ g a) → map f xs ≡ map g xs
  map-cong_In f g [] h = refl
  map-cong_In f g (x ∷ xs) h = ap₂ ◌∷◌ (h x (inl refl)) (map-cong_In f g xs (λ a m. h a (inr m)))

module _ {A : Type 0} where
  pub map-id : (xs : List A) → map (λ a. a) xs ≡ xs
  map-id [] = refl
  map-id (x ∷ xs) = ap₂ ◌∷◌ refl (map-id xs)

module _ {A : Type 0} where
  pub keep_if-ext :
      (p q : A → Bool) (xs : List A) → ((a : A) → p a ≡ q a) → keep_if p xs ≡ keep_if q xs
  keep_if-ext p q [] h = refl
  keep_if-ext p q (x ∷ xs) h = elim (Bool-cases (q x)) [
    | inl t ↦ rw (h x, t, keep_if-ext p q xs h)
    | inr f ↦ rw (h x, f, keep_if-ext p q xs h)
  ]

  pub keep_if-all :
      (p : A → Bool) (xs : List A) → ((a : A) → In a xs → p a ≡ true) → keep_if p xs ≡ xs
  keep_if-all p [] h = refl
  keep_if-all p (x ∷ xs) h =
      rw (h x (inl refl)) (ap (◌∷◌ x) (keep_if-all p xs (λ a m. h a (inr m))))

  pub keep_if-none :
      (p : A → Bool) (xs : List A) → ((a : A) → In a xs → p a ≡ false) → keep_if p xs ≡ []
  keep_if-none p [] h = refl
  keep_if-none p (x ∷ xs) h = rw (h x (inl refl)) (keep_if-none p xs (λ a m. h a (inr m)))
