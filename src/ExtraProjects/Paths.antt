-- ===== src/ExtraProjects/Paths.antt =====
-- What `normalize_extra_projects` of app/services/extra_projects.py changes of an entry.
use mathlib.Core.Option.{some-injective, none-ne-some}
use gitlab_reviewer.Prelude.{
  true, false, ◌||◌, Option, none, some, ◌≡◌, ◌≢◌, ◌⊎◌, refl, ap, subst, ◌∙◌, inl, inr, List, [],
  ◌∷◌, ◌++◌, Bool-cases, Option-cases, Text, text_eq, codes,
}
use gitlab_reviewer.Models.{Json, null, boolean, number, string, array, object, Fields, end, field}
use gitlab_reviewer.Secrets.{is_nil, put_field}
use gitlab_reviewer.Podman.Allowed.{text_eq_self, text_eq_sound}
use gitlab_reviewer.Python.{Python, get, climbs}
use gitlab_reviewer.ExtraProjects.{
  Urls, Owners, entry_path, entry_url, derive_path, own_name, named, normalize_fields,
  normalize_entry, normalize_from, normalize_extra_projects,
}
use gitlab_reviewer.ExtraProjects.Owners.{own_name-cases}

-- Why an entry is passed over: it is no dict, it has no url, it has a path, or the url gives no usable
-- name.
pub data IsPassed (py : Python) (urls : Urls) : Json → Type 0 where
  no_dict : (entry : Json) → ((fs : Fields) → entry ≢ object fs) → IsPassed py urls entry
  no_url : (fs : Fields) → is_nil (entry_url py fs) ≡ true → IsPassed py urls (object fs)
  has_path : (fs : Fields) → is_nil (entry_path py fs) ≡ false → IsPassed py urls (object fs)
  no_name :
      (fs : Fields) (name : Text)
      → derive_path urls (entry_url py fs) ≡ some name
      → (is_nil name || climbs name) ≡ true
      → IsPassed py urls (object fs)

-- An entry as it comes out: as it was, where it is passed over; or, where it has a url and no path,
-- with the name that the url derives as its path, the suffix of the url added or not, and every other
-- key as it was.
pub data IsNormalized (py : Python) (urls : Urls) : Json → Json → Type 0 where
  kept : {entry : Json} → IsPassed py urls entry → IsNormalized py urls entry entry
  derived :
      (fs fs' : Fields) (name path : Text)
      → is_nil (entry_url py fs) ≡ false
      → is_nil (entry_path py fs) ≡ true
      → derive_path urls (entry_url py fs) ≡ some name
      → (is_nil name || climbs name) ≡ false
      → (path ≡ name) ⊎ (path ≡ name ++ (codes "-" ++ urls.digest (entry_url py fs)))
      → get (codes "path") fs' ≡ some (string path)
      → ((key : Text) → text_eq (codes "path") key ≡ false → get key fs' ≡ get key fs)
      → IsNormalized py urls (object fs) (object fs')

pub data Pointwise (R : Json → Json → Type 0) : List Json → List Json → Type 0 where
  nil : Pointwise R [] []
  cons :
      {a b : Json} {rest done : List Json}
      → R a b
      → Pointwise R rest done
      → Pointwise R (a ∷ rest) (b ∷ done)

pub get-put_field : (k : Text) (v : Json) (fs : Fields) → get k (put_field k v fs) ≡ some v
unfolding get put_field
get-put_field k v end = rw (text_eq_self k) refl
get-put_field k v (field j w fs) = elim (Bool-cases (text_eq j k)) [
  | inl t ↦ rw (t, t) refl
  | inr f ↦ rw (f, f) (get-put_field k v fs)
]

pub get-put_field_other :
    (k key : Text) (v : Json) (fs : Fields)
    → text_eq k key ≡ false
    → get key (put_field k v fs) ≡ get key fs
unfolding get put_field
get-put_field_other k key v end h = rw h refl
get-put_field_other k key v (field j w fs) h = elim (Bool-cases (text_eq j k)) [
  | inl t ↦
      let e : text_eq j key ≡ false = ap (λ x. text_eq x key) (text_eq_sound j k t) ∙ h in
      rw (t, e) refl
  | inr f ↦ elim (Bool-cases (text_eq j key)) [
    | inl t ↦ rw (f, t) refl
    | inr g ↦ rw (f, g) (get-put_field_other k key v fs h)
  ]
]

own_name-suffix :
    (py : Python) (urls : Urls) (owner : Owners) (url name : Text)
    → (own_name urls owner url name ≡ name)
      ⊎ (own_name urls owner url name ≡ name ++ (codes "-" ++ urls.digest url))
own_name-suffix py urls owner url name = elim (own_name-cases py urls owner url name) [
  | inl (k, l) ↦ inl l
  | inr (k, l) ↦ inr l
]

-- An entry that comes out as it was.
passed :
    (py : Python) (urls : Urls) (owner : Owners) (entry : Json) (r : Owners × Json)
    → IsPassed py urls entry
    → some (owner, entry) ≡ some r
    → IsNormalized py urls entry r.1
passed py urls owner entry r p h =
    subst (λ (x : Owners × Json). IsNormalized py urls entry x.1)
      (some-injective (owner, entry) r h) (kept p)

named-IsNormalized :
    (py : Python) (urls : Urls) (owner : Owners) (fs : Fields) (name : Option Text)
    (r : Owners × Json)
    → is_nil (entry_url py fs) ≡ false
    → is_nil (entry_path py fs) ≡ true
    → derive_path urls (entry_url py fs) ≡ name
    → named urls owner fs (entry_url py fs) name ≡ some r
    → IsNormalized py urls (object fs) r.1
named-IsNormalized py urls owner fs none r u p d h = absurd (none-ne-some _ h)
named-IsNormalized py urls owner fs (some name) r u p d h =
    let own = own_name urls owner (entry_url py fs) name in
    elim (Bool-cases (is_nil name || climbs name)) [
      | inl t ↦ passed py urls owner (object fs) r (no_name fs name d t) (rw t at h)
      | inr f ↦
          subst (λ (x : Owners × Json). IsNormalized py urls (object fs) x.1)
            (some-injective
              (((own, entry_url py fs) ∷ owner), object (put_field (codes "path") (string own) fs))
              r (rw f at h))
            (derived fs (put_field (codes "path") (string own) fs) name own u p d f
              (own_name-suffix py urls owner (entry_url py fs) name)
              (get-put_field (codes "path") (string own) fs)
              (λ key g. get-put_field_other (codes "path") key (string own) fs g))
    ]

normalize_entry-IsNormalized :
    (py : Python) (urls : Urls) (owner : Owners) (entry : Json) (r : Owners × Json)
    → normalize_entry py urls owner entry ≡ some r
    → IsNormalized py urls entry r.1
unfolding normalize_entry normalize_fields
normalize_entry-IsNormalized py urls owner (object fs) r h =
    elim (Bool-cases (is_nil (entry_url py fs))) [
      | inl t ↦ passed py urls owner (object fs) r (no_url fs t) (rw t at h)
      | inr u ↦ elim (Bool-cases (is_nil (entry_path py fs))) [
        | inl p ↦
            named-IsNormalized py urls owner fs (derive_path urls (entry_url py fs)) r u p refl
              (rw (u, p) at h)
        | inr g ↦ passed py urls owner (object fs) r (has_path fs g) (rw (u, g) at h)
      ]
    ]
normalize_entry-IsNormalized py urls owner (array xs) r h =
    passed py urls owner (array xs) r (no_dict (array xs) (λ fs e. cc)) h
normalize_entry-IsNormalized py urls owner (string t) r h =
    passed py urls owner (string t) r (no_dict (string t) (λ fs e. cc)) h
normalize_entry-IsNormalized py urls owner (number n) r h =
    passed py urls owner (number n) r (no_dict (number n) (λ fs e. cc)) h
normalize_entry-IsNormalized py urls owner (boolean b) r h =
    passed py urls owner (boolean b) r (no_dict (boolean b) (λ fs e. cc)) h
normalize_entry-IsNormalized py urls owner null r h =
    passed py urls owner null r (no_dict null (λ fs e. cc)) h

normalize_from-IsNormalized :
    (py : Python) (urls : Urls) (owner : Owners) (entries result : List Json)
    → normalize_from py urls owner entries ≡ some result
    → Pointwise (IsNormalized py urls) entries result
unfolding normalize_from
normalize_from-IsNormalized py urls owner [] result h =
    subst (Pointwise (IsNormalized py urls) []) (some-injective [] result h) nil
normalize_from-IsNormalized py urls owner (entry ∷ entries) result h =
    elim (Option-cases (normalize_entry py urls owner entry)) [
      | inl e ↦ absurd (none-ne-some _ (rw (e, normalize_from) at h))
      | inr (r, e) ↦ elim (Option-cases (normalize_from py urls r.0 entries)) [
        | inl f ↦ absurd (none-ne-some _ (rw (e, normalize_from, f) at h))
        | inr (rest, f) ↦
            subst (Pointwise (IsNormalized py urls) (entry ∷ entries))
              (some-injective (r.1 ∷ rest) result (rw (e, normalize_from, f) at h))
              (cons (normalize_entry-IsNormalized py urls owner entry r e)
                (normalize_from-IsNormalized py urls r.0 entries rest f))
      ]
    ]

-- Where `urlsplit` takes every url, the normalized entries stand one for one for the given ones. An entry
-- is as it was only if it is no dict, has no url, has a path, or its url derives no name or one that
-- climbs; every other one has as its path the name that its url derives, alone or with the suffix of
-- that url, and every other key as it was.
pub normalize_extra_projects-IsNormalized :
    (py : Python) (urls : Urls) (entries result : List Json)
    → normalize_extra_projects py urls entries ≡ some result
    → Pointwise (IsNormalized py urls) entries result
unfolding normalize_extra_projects
normalize_extra_projects-IsNormalized py urls entries result h =
    normalize_from-IsNormalized py urls [] entries result h
