-- ===== src/Prelude/Stripping.antt =====
-- Stripping a stripped text changes nothing.
use mathlib.Core.Bool.{Bool, true, false}
use mathlib.Core.List.{[], ◌∷◌, ◌++◌, reverse, reverse-append, reverse-cons, reverse-reverse}
use mathlib.Core.Logic.{inl, inr}
use mathlib.Core.Path.{◌≡◌, refl, sym, ap, subst, ◌∙◌}
use Prim.Native.Nat.{ℕ, zero, suc, ◌+◌, ◌/◌, ◌%◌, ◌<◌}
use native.Mathlib.Omega.{arith}
use gitlab_reviewer.Prelude.Tests.{Bool-cases, if_cases, ltb}
use gitlab_reviewer.Prelude.Strings.{
  Text, drop_while, rstrip_by, strip_by, strip, is_space, decimal, decimal_from,
}

module _ (p : ℕ → Bool) where
  -- No character at the front passes the test.
  abbrev pub IsTrimmed : Text → Type 0
  IsTrimmed [] = Unit
  IsTrimmed (c ∷ cs) = p c ≡ false

  drop_while-IsTrimmed : (s : Text) → IsTrimmed (drop_while p s)
  unfolding drop_while
  drop_while-IsTrimmed [] = tt
  drop_while-IsTrimmed (c ∷ cs) = elim (Bool-cases (p c)) [
    | inl t ↦ rw t (drop_while-IsTrimmed cs)
    | inr f ↦ rw f f
  ]

  drop_while_trimmed : (s : Text) → IsTrimmed s → drop_while p s ≡ s
  unfolding drop_while
  drop_while_trimmed [] h = refl
  drop_while_trimmed (c ∷ cs) h = rw h refl

  -- What is left is the end of the text.
  drop_while-append : (s : Text) → (front : Text) × (s ≡ front ++ drop_while p s)
  unfolding drop_while
  drop_while-append [] = ([], refl)
  drop_while-append (c ∷ cs) = elim (Bool-cases (p c)) [
    | inl t ↦ let (front, e) = drop_while-append cs in (c ∷ front, rw t (ap (◌∷◌ c) e))
    | inr f ↦ ([], rw f refl)
  ]

  IsTrimmed-front : (a b : Text) → IsTrimmed (a ++ b) → IsTrimmed a
  IsTrimmed-front [] b h = tt
  IsTrimmed-front (c ∷ a) b h = h

  strip_by-back : (s : Text) → IsTrimmed (reverse (strip_by p s))
  unfolding strip_by rstrip_by
  strip_by-back s =
      let u = drop_while p (reverse s) in
      let (front, e) = drop_while-append (reverse u) in
      let q : u ≡ reverse (drop_while p (reverse u)) ++ reverse front =
        sym (reverse-reverse u) ∙ ap reverse e ∙ reverse-append front (drop_while p (reverse u)) in
      IsTrimmed-front (reverse (drop_while p (reverse u))) (reverse front)
        (subst IsTrimmed q (drop_while-IsTrimmed (reverse s)))

  strip_by-front : (s : Text) → IsTrimmed (strip_by p s)
  unfolding strip_by
  strip_by-front s = drop_while-IsTrimmed (rstrip_by p s)

  pub strip_by-strip_by : (s : Text) → strip_by p (strip_by p s) ≡ strip_by p s
  unfolding strip_by rstrip_by
  strip_by-strip_by s =
      ap (drop_while p) (
        ap reverse (drop_while_trimmed (reverse (strip_by p s)) (strip_by-back s))
        ∙ reverse-reverse (strip_by p s))
      ∙ drop_while_trimmed (strip_by p s) (strip_by-front s)

pub strip-strip : (s : Text) → strip (strip s) ≡ strip s
unfolding strip
strip-strip s = strip_by-strip_by is_space s

module _ (p : ℕ → Bool) where
  -- No character passes the test.
  abbrev pub IsFree : Text → Type 0
  IsFree [] = Unit
  IsFree (c ∷ cs) = (p c ≡ false) × IsFree cs

  IsFree-append : (a b : Text) → IsFree a → IsFree b → IsFree (a ++ b)
  IsFree-append [] b h k = k
  IsFree-append (c ∷ a) b h k = (h.0, IsFree-append a b h.1 k)

  IsFree-reverse : (s : Text) → IsFree s → IsFree (reverse s)
  IsFree-reverse [] h = tt
  IsFree-reverse (c ∷ s) h =
      subst IsFree (sym (reverse-cons c s))
        (IsFree-append (reverse s) (c ∷ []) (IsFree-reverse s h.1) (h.0, tt))

  free-IsTrimmed : (s : Text) → IsFree s → IsTrimmed p s
  free-IsTrimmed [] h = tt
  free-IsTrimmed (c ∷ s) h = h.0

  -- Nothing is stripped of a text in which no character passes the test.
  pub strip_by_free : (s : Text) → IsFree s → strip_by p s ≡ s
  unfolding strip_by rstrip_by
  strip_by_free s h =
      ap (drop_while p) (
        ap reverse
          (drop_while_trimmed p (reverse s) (free-IsTrimmed (reverse s) (IsFree-reverse s h)))
        ∙ reverse-reverse s)
      ∙ drop_while_trimmed p s (free-IsTrimmed s h)

ltb-lt : (a b : ℕ) → ltb a b ≡ true → a < b
ltb-lt a b h = ground arith

digit_no_space : (d : ℕ) → d < 10 → is_space (48 + d) ≡ false
digit_no_space d h = ground arith

decimal_from-IsFree :
    (fuel n : ℕ) (done : Text) → IsFree is_space done → IsFree is_space (decimal_from fuel n done)
unfolding decimal_from
decimal_from-IsFree zero n done h = h
decimal_from-IsFree (suc fuel) n done h =
    if_cases (IsFree is_space) (ltb n 10) ((48 + n) ∷ done)
      (decimal_from fuel (n / 10) ((48 + n % 10) ∷ done))
      (λ t. (digit_no_space n (ltb-lt n 10 t), h))
      (λ f.
        decimal_from-IsFree fuel (n / 10) ((48 + n % 10) ∷ done)
          (digit_no_space (n % 10) (omega arith), h))

pub strip-decimal : (n : ℕ) → strip (decimal n) ≡ decimal n
unfolding strip decimal
strip-decimal n =
    strip_by_free is_space (decimal_from (suc n) n []) (decimal_from-IsFree (suc n) n [] tt)

decimal_from-cons :
    (fuel n c : ℕ) (done : Text) → (d : ℕ) × (ds : Text) × (decimal_from fuel n (c ∷ done) ≡ d ∷ ds)
unfolding decimal_from
decimal_from-cons zero n c done = (c, done, refl)
decimal_from-cons (suc fuel) n c done =
    if_cases (λ t. (d : ℕ) × (ds : Text) × (t ≡ d ∷ ds)) (ltb n 10) ((48 + n) ∷ c ∷ done)
      (decimal_from fuel (n / 10) ((48 + n % 10) ∷ c ∷ done)) (λ t. (48 + n, c ∷ done, refl))
      (λ f. decimal_from-cons fuel (n / 10) (48 + n % 10) (c ∷ done))

-- A number has at least one digit.
pub decimal-cons : (n : ℕ) → (d : ℕ) × (ds : Text) × (decimal n ≡ d ∷ ds)
unfolding decimal decimal_from
decimal-cons n =
    if_cases (λ t. (d : ℕ) × (ds : Text) × (t ≡ d ∷ ds)) (ltb n 10) ((48 + n) ∷ [])
      (decimal_from n (n / 10) ((48 + n % 10) ∷ [])) (λ t. (48 + n, [], refl))
      (λ f. decimal_from-cons n (n / 10) (48 + n % 10) [])
