-- ===== src/Prelude/Ordered.antt =====
-- Pairwise relations on lists: how they pass through `map`, `keep_if` and `++`, and that an
-- asymmetric one determines a list from its members.
use mathlib.Core.Path.{◌≡◌, refl, sym, ◌∙◌, ap₂, subst}
use mathlib.Core.Logic.{inl, inr}
use mathlib.Core.Bool.{Bool}
use mathlib.Core.List.{List, [], ◌∷◌, ◌++◌, map}
use gitlab_reviewer.Prelude.Tests.{Bool-cases}
use gitlab_reviewer.Prelude.Lists.{
  In, Pairwise, All→at, All-of, keep_if, keep_if-In, map-In, In-append,
}

-- Two lists that are ordered by one asymmetric relation and have the same members are equal.
module _ {A : Type 0} (R : A → A → Type 0) (asym : (a b : A) → R a b → R b a → ⊥) where
  unique_head :
      (x y : A) (xs ys : List A)
      → Pairwise R (x ∷ xs)
      → Pairwise R (y ∷ ys)
      → In x (y ∷ ys)
      → In y (x ∷ xs)
      → x ≡ y
  unique_head x y xs ys px py (inl e) n = e
  unique_head x y xs ys px py (inr m) (inl e) = sym e
  unique_head x y xs ys px py (inr m) (inr n) =
      absurd (asym x y (All→at (R x) xs px.0 y n) (All→at (R y) ys py.0 x m))

  unique_tail :
      (x y : A) (xs ys : List A)
      → x ≡ y
      → Pairwise R (x ∷ xs)
      → ((a : A) → In a (x ∷ xs) → In a (y ∷ ys))
      → (a : A) → In a xs
      → In a ys
  unique_tail x y xs ys e px to a m = elim (to a (inr m)) [
    | inl q ↦
        let r : R x x = subst (R x) (q ∙ sym e) (All→at (R x) xs px.0 a m) in absurd (asym x x r r)
    | inr n ↦ n
  ]

  pub Pairwise-unique :
      (xs ys : List A)
      → Pairwise R xs
      → Pairwise R ys
      → ((a : A) → In a xs → In a ys)
      → ((a : A) → In a ys → In a xs)
      → xs ≡ ys
  Pairwise-unique [] [] px py to from = refl
  Pairwise-unique [] (y ∷ ys) px py to from = absurd (from y (inl refl))
  Pairwise-unique (x ∷ xs) [] px py to from = absurd (to x (inl refl))
  Pairwise-unique (x ∷ xs) (y ∷ ys) px py to from =
      let e = unique_head x y xs ys px py (to x (inl refl)) (from y (inl refl)) in
      ap₂ ◌∷◌ e (
        Pairwise-unique xs ys px.1 py.1 (unique_tail x y xs ys e px to)
          (unique_tail y x ys xs (sym e) py from))

module _ {A : Type 0} (R : A → A → Type 0) where
  pub Pairwise-keep_if : (p : A → Bool) (xs : List A) → Pairwise R xs → Pairwise R (keep_if p xs)
  Pairwise-keep_if p [] h = tt
  Pairwise-keep_if p (x ∷ xs) h = elim (Bool-cases (p x)) [
    | inl t ↦ rw t (
      All-of (R x) (keep_if p xs) (λ a m. All→at (R x) xs h.0 a (keep_if-In p xs a m).0),
      Pairwise-keep_if p xs h.1,
    )
    | inr f ↦ rw f (Pairwise-keep_if p xs h.1)
  ]

  pub Pairwise-append :
      (xs ys : List A)
      → Pairwise R xs
      → Pairwise R ys
      → ((a b : A) → In a xs → In b ys → R a b)
      → Pairwise R (xs ++ ys)
  Pairwise-append [] ys hx hy h = hy
  Pairwise-append (x ∷ xs) ys hx hy h = (
    All-of (R x) (xs ++ ys) (λ a m. elim (In-append xs ys a m) [
      | inl l ↦ All→at (R x) xs hx.0 a l
      | inr r ↦ h x a (inl refl) r
    ]),
    Pairwise-append xs ys hx.1 hy (λ a b m n. h a b (inr m) n),
  )

module _ {A B : Type 0} (R : A → A → Type 0) (S : B → B → Type 0) (f : A → B) where
  pub Pairwise-map :
      (xs : List A)
      → ((a b : A) → In a xs → In b xs → R a b → S (f a) (f b))
      → Pairwise R xs
      → Pairwise S (map f xs)
  Pairwise-map [] g h = tt
  Pairwise-map (x ∷ xs) g h = (
    All-of (S (f x)) (map f xs) (λ b m.
        let (a, n, e) = map-In f xs b m in
        subst (S (f x)) (sym e) (g x a (inl refl) (inr n) (All→at (R x) xs h.0 a n))),
    Pairwise-map xs (λ a b m n. g a b (inr m) (inr n)) h.1,
  )

module _ {A : Type 0} (R S : A → A → Type 0) where
  pub Pairwise-imp :
      (xs : List A)
      → ((a b : A) → In a xs → In b xs → R a b → S a b)
      → Pairwise R xs
      → Pairwise S xs
  Pairwise-imp [] g h = tt
  Pairwise-imp (x ∷ xs) g h = (
    All-of (S x) xs (λ a m. g x a (inl refl) (inr m) (All→at (R x) xs h.0 a m)),
    Pairwise-imp xs (λ a b m n. g a b (inr m) (inr n)) h.1,
  )
