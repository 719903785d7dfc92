-- ===== src/Secrets/Starts.antt =====
-- What occurs in the start of a text.
use mathlib.Core.Bool.{false≢true}
use gitlab_reviewer.Prelude.{
  ℕ, zero, suc, true, false, ◌≡◌, refl, sym, ◌∙◌, inl, inr, [], ◌∷◌, arith, Bool-cases, Text, take,
}
use gitlab_reviewer.Secrets.{starts_with}
use gitlab_reviewer.Secrets.Absent.{occurs, occurs-head, occurs-tail, occurs-cons}

starts_with-take : (s t : Text) (k : ℕ) → starts_with s (take k t) ≡ true → starts_with s t ≡ true
unfolding starts_with take
starts_with-take [] t k h = refl
starts_with-take (c ∷ s) [] zero h = h
starts_with-take (c ∷ s) [] (suc k) h = h
starts_with-take (c ∷ s) (d ∷ t) zero h = cc
starts_with-take (c ∷ s) (d ∷ t) (suc k) h = ground (arith, starts_with-take s t k)

-- What occurs in the start of a text occurs in the text.
occurs-take : (s t : Text) (k : ℕ) → occurs s (take k t) ≡ true → occurs s t ≡ true
unfolding occurs take
occurs-take s [] zero h = h
occurs-take s [] (suc k) h = h
occurs-take s (c ∷ t) zero h = occurs-head s (c ∷ t) (starts_with-take s (c ∷ t) zero h)
occurs-take s (c ∷ t) (suc k) h = elim (occurs-cons s c (take k t) h) [
  | inl p ↦ occurs-head s (c ∷ t) (starts_with-take s (c ∷ t) (suc k) p)
  | inr q ↦ occurs-tail s c t (occurs-take s t k q)
]

pub occurs-take-none : (s t : Text) (k : ℕ) → occurs s t ≡ false → occurs s (take k t) ≡ false
occurs-take-none s t k h = elim (Bool-cases (occurs s (take k t))) [
  | inl y ↦ absurd (false≢true (sym h ∙ occurs-take s t k y))
  | inr n ↦ n
]
