-- ===== src/Scheduling/Ids.antt =====
-- The id lists of `_rewrite_positions`: `dict.fromkeys`, the set comparisons, and that a list of
-- different ids within another of the same length has all of its ids.
use gitlab_reviewer.Prelude.{
  ℕ, ◌≤◌, ◌<◌, true, not, ◌≡◌, refl, sym, ap, subst, ◌∙◌, ◌≢◌, inl, inr, List, [], ◌∷◌, arith, ◌==◌,
  Bool-cases, In, Pairwise, All→at, All-of, keep_if-In, In-keep_if, ==_iff, length,
  Pairwise-keep_if,
}
use mathlib.Core.Bool.{false≢true}
use native.Mathlib.Decide.{ℕ_discrete}
use gitlab_reviewer.Scheduling.{from_keys, elem, subset, other_than}

abbrev pub Differ : ℕ → ℕ → Type 0
Differ a b = a ≢ b

abbrev pub Distinct : List ℕ → Type 0
Distinct is = Pairwise Differ is

ne_test : (k i : ℕ) → not (k == i) ≡ true → k ≢ i
ne_test k i h = ground arith

test_ne : (k i : ℕ) → k ≢ i → not (k == i) ≡ true
test_ne k i h = ground arith

pub In-other_than : (i k : ℕ) (is : List ℕ) → In k is → k ≢ i → In k (other_than i is)
In-other_than i k is m n = In-keep_if (λ x. not (x == i)) is k m (test_ne k i n)

pub other_than-In : (i k : ℕ) (is : List ℕ) → In k (other_than i is) → In k is × (k ≢ i)
other_than-In i k is m = let n = keep_if-In (λ x. not (x == i)) is k m in (n.0, ne_test k i n.1)

pub other_than_absent : (i : ℕ) (is : List ℕ) → ¬ In i is → other_than i is ≡ is
other_than_absent i [] h = refl
other_than_absent i (k ∷ ks) h =
    rw (test_ne k i (λ e. h (inl (sym e)))) (ap (◌∷◌ k) (other_than_absent i ks (λ m. h (inr m))))

pub Distinct-from_keys : (is : List ℕ) → Distinct (from_keys is)
unfolding from_keys
Distinct-from_keys [] = tt
Distinct-from_keys (i ∷ is) = (
  All-of (Differ i) (other_than i (from_keys is))
      (λ k m e. (other_than-In i k (from_keys is) m).1 (sym e)),
  Pairwise-keep_if Differ (λ k. not (k == i)) (from_keys is) (Distinct-from_keys is),
)

pub from_keys-In : (is : List ℕ) (i : ℕ) → In i (from_keys is) → In i is
unfolding from_keys
from_keys-In [] i m = m
from_keys-In (k ∷ ks) i (inl e) = inl e
from_keys-In (k ∷ ks) i (inr m) = inr (from_keys-In ks i (other_than-In k i (from_keys ks) m).0)

pub In-from_keys : (is : List ℕ) (i : ℕ) → In i is → In i (from_keys is)
unfolding from_keys
In-from_keys [] i m = m
In-from_keys (k ∷ ks) i (inl e) = inl e
In-from_keys (k ∷ ks) i (inr m) = elim (ℕ_discrete i k) [
  | yes e ↦ inl e
  | no n ↦ inr (In-other_than k i (from_keys ks) (In-from_keys ks i m) n)
]

pub from_keys-Distinct : (is : List ℕ) → Distinct is → from_keys is ≡ is
unfolding from_keys
from_keys-Distinct [] d = refl
from_keys-Distinct (i ∷ is) d = ap (◌∷◌ i) (
    ap (other_than i) (from_keys-Distinct is d.1)
    ∙ other_than_absent i is (λ m. All→at (Differ i) is d.0 i m refl))

pub elem-In : (i : ℕ) (ks : List ℕ) → elem i ks ≡ true → In i ks
unfolding elem
elem-In i [] h = cc
elem-In i (k ∷ ks) h = elim (Bool-cases (i == k)) [
  | inl t ↦ inl ((==_iff i k).0 t)
  | inr f ↦ inr (elem-In i ks (rw f at h))
]

pub In-elem : (i : ℕ) (ks : List ℕ) → In i ks → elem i ks ≡ true
unfolding elem
In-elem i [] m = absurd m
In-elem i (k ∷ ks) (inl e) = rw ((==_iff i k).1 e)
In-elem i (k ∷ ks) (inr m) = ground (arith, In-elem i ks m)

abbrev pub Within : List ℕ → List ℕ → Type 0
Within is ks = (i : ℕ) → In i is → In i ks

pub subset-Within : (is ks : List ℕ) → subset is ks ≡ true → Within is ks
unfolding subset
subset-Within [] ks h i m = absurd m
subset-Within (i ∷ is) ks h k (inl e) = subst (λ x. In x ks) (sym e) (elem-In i ks (ground arith))
subset-Within (i ∷ is) ks h k (inr m) = subset-Within is ks (ground arith) k m

pub Within-subset : (is ks : List ℕ) → Within is ks → subset is ks ≡ true
unfolding subset
Within-subset [] ks h = refl
Within-subset (i ∷ is) ks h =
    rw (In-elem i ks (h i (inl refl)), Within-subset is ks (λ k m. h k (inr m)))

length-other_than-le : (i : ℕ) (ks : List ℕ) → length (other_than i ks) ≤ length ks
length-other_than-le i [] = omega arith
length-other_than-le i (k ∷ ks) = ground (arith, length-other_than-le i ks)

length-other_than-lt : (i : ℕ) (ks : List ℕ) → In i ks → length (other_than i ks) < length ks
length-other_than-lt i [] m = absurd m
length-other_than-lt i (k ∷ ks) (inl e) = ground (arith, length-other_than-le i ks)
length-other_than-lt i (k ∷ ks) (inr m) = ground (arith, length-other_than-lt i ks m)

pub length-Within : (is ks : List ℕ) → Distinct is → Within is ks → length is ≤ length ks
length-Within [] ks d h = omega arith
length-Within (i ∷ is) ks d h = omega (
  arith,
  length-other_than-lt i ks (h i (inl refl)),
  length-Within is (other_than i ks) d.1
      (λ k m. In-other_than i k ks (h k (inr m)) (λ e. All→at (Differ i) is d.0 k m (sym e))),
)

-- The pigeonhole principle.
pub Within-of_length :
    (is ks : List ℕ) → Distinct is → Within is ks → length is ≡ length ks → Within ks is
Within-of_length is ks d h e k m = elim (Bool-cases (elem k is)) [
  | inl t ↦ elem-In k is t
  | inr f ↦
      let fewer = length-Within is (other_than k ks) d (λ i n.
        In-other_than k i ks (h i n)
          (λ q. false≢true (sym f ∙ In-elem k is (subst (λ x. In x is) q n)))) in
      absurd (omega (arith, fewer, length-other_than-lt k ks m))
]
