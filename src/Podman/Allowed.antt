-- ===== src/Podman/Allowed.antt =====
-- Which images `image_allowed` of app/orchestrator/podman_client.py lets through.
use gitlab_reviewer.Prelude.{
  Bool, true, false, ◌||◌, ◌≡◌, refl, sym, ap, ap₂, subst, ◌∙◌, ◌⊎◌, ◌↔◌, inl, inr, List, [], ◌∷◌,
  ◌++◌, arith, ==_self, In, Text, codes, text_eq,
}
use gitlab_reviewer.Secrets.{starts_with}
use gitlab_reviewer.Podman.{is_under, image_allowed}

pub text_eq_sound : (s t : Text) → text_eq s t ≡ true → s ≡ t
text_eq_sound [] [] h = refl
text_eq_sound [] (d ∷ ds) h = cc
text_eq_sound (c ∷ cs) [] h = cc
text_eq_sound (c ∷ cs) (d ∷ ds) h =
    let e : c ≡ d = ground arith in
    let t : text_eq cs ds ≡ true = ground arith in ap₂ ◌∷◌ e (text_eq_sound cs ds t)

pub text_eq_self : (t : Text) → text_eq t t ≡ true
text_eq_self [] = refl
text_eq_self (c ∷ cs) = rw (==_self c) (text_eq_self cs)

starts_with_sound : (p s : Text) → starts_with p s ≡ true → (rest : Text) × (s ≡ p ++ rest)
unfolding starts_with
starts_with_sound [] s h = (s, refl)
starts_with_sound (c ∷ p) [] h = cc
starts_with_sound (c ∷ p) (d ∷ s) h =
    let e : c ≡ d = ground arith in
    let t : starts_with p s ≡ true = ground arith in
    let (rest, q) = starts_with_sound p s t in (rest, ap₂ ◌∷◌ (sym e) q)

starts_with_append : (p rest : Text) → starts_with p (p ++ rest) ≡ true
unfolding starts_with
starts_with_append [] rest = refl
starts_with_append (c ∷ p) rest = rw (==_self c) (starts_with_append p rest)

-- The image is the entry, or continues it after a slash or a colon.
pub data IsBelow (image entry : Text) : Type 0 where
  same : image ≡ entry → IsBelow image entry
  in_repo : (rest : Text) → image ≡ (entry ++ codes "/") ++ rest → IsBelow image entry
  with_tag : (rest : Text) → image ≡ (entry ++ codes ":") ++ rest → IsBelow image entry

or_cases : (a b : Bool) → (a || b) ≡ true → (a ≡ true) ⊎ (b ≡ true)
or_cases true b h = inl refl
or_cases false b h = inr h

is_under-IsBelow : (image entry : Text) → is_under image entry ≡ true → IsBelow image entry
unfolding is_under
is_under-IsBelow image entry h = elim (or_cases (text_eq image entry) _ h) [
  | inl e ↦ same (text_eq_sound image entry e)
  | inr k ↦ elim (or_cases (starts_with (entry ++ codes "/") image) _ k) [
    | inl p ↦ let (rest, q) = starts_with_sound (entry ++ codes "/") image p in in_repo rest q
    | inr p ↦ let (rest, q) = starts_with_sound (entry ++ codes ":") image p in with_tag rest q
  ]
]

or_right : (a b : Bool) → b ≡ true → (a || b) ≡ true
or_right a b h = ground arith

IsBelow-is_under : (image entry : Text) → IsBelow image entry → is_under image entry ≡ true
unfolding is_under
IsBelow-is_under image entry (same e) = rw (e, text_eq_self entry) refl
IsBelow-is_under image entry (in_repo rest e) = or_right (text_eq image entry) _ (
    rw (ap (starts_with (entry ++ codes "/")) e ∙ starts_with_append (entry ++ codes "/") rest)
      refl)
IsBelow-is_under image entry (with_tag rest e) = or_right (text_eq image entry) _ (
    or_right (starts_with (entry ++ codes "/") image) _
      (ap (starts_with (entry ++ codes ":")) e ∙ starts_with_append (entry ++ codes ":") rest))

image_allowed_sound :
    (image : Text) (entries : List Text)
    → image_allowed image entries ≡ true
    → (entry : Text) × In entry entries × IsBelow image entry
unfolding image_allowed
image_allowed_sound image [] h = cc
image_allowed_sound image (e ∷ entries) h = elim (or_cases (is_under image e) _ h) [
  | inl p ↦ (e, inl refl, is_under-IsBelow image e p)
  | inr p ↦ let (entry, m, b) = image_allowed_sound image entries p in (entry, inr m, b)
]

image_allowed_complete :
    (image entry : Text) (entries : List Text)
    → In entry entries
    → IsBelow image entry
    → image_allowed image entries ≡ true
unfolding image_allowed
image_allowed_complete image entry [] m b = absurd m
image_allowed_complete image entry (e ∷ entries) (inl p) b =
    rw (IsBelow-is_under image e (subst (IsBelow image) p b)) refl
image_allowed_complete image entry (e ∷ entries) (inr m) b =
    or_right (is_under image e) _ (image_allowed_complete image entry entries m b)

-- An image is allowed exactly when it is an entry of the allowlist, or goes on after an entry with a
-- slash or a colon.
pub image_allowed_iff :
    (image : Text) (entries : List Text)
    → (image_allowed image entries ≡ true)
      ↔ ((entry : Text) × In entry entries × IsBelow image entry)
image_allowed_iff image entries =
    (image_allowed_sound image entries, λ h. image_allowed_complete image h.0 entries h.1 h.2)
