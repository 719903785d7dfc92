-- ===== src/ExtraProjects/Apart.antt =====
-- Two entries of `normalize_extra_projects` of app/services/extra_projects.py whose URLs derive one name.
use mathlib.Core.Option.{some-injective, none-ne-some}
use gitlab_reviewer.Prelude.{
  true, false, ◌||◌, Option, none, some, ◌≡◌, ◌≢◌, sym, ap, subst, ◌∙◌, inl, inr, List, [], ◌∷◌,
  ◌++◌, Option-cases, Text, codes,
}
use gitlab_reviewer.Models.{Json, null, boolean, number, string, array, object, Fields}
use gitlab_reviewer.Secrets.{is_nil, put_field}
use gitlab_reviewer.Python.{Python, get, climbs}
use gitlab_reviewer.ExtraProjects.{
  Urls, Owners, entry_path, entry_url, derive_path, own_name, normalize_fields, normalize_entry,
  normalize_from, normalize_extra_projects,
}
use gitlab_reviewer.ExtraProjects.Paths.{get-put_field}
use gitlab_reviewer.ExtraProjects.Owners.{
  IsHeld, normalize_entry-IsHeld, own_name-IsHeld, own_names-differ,
}

-- The entries with what comes out for them.
abbrev pub zip : List Json → List Json → List (Json × Json)
zip [] done = []
zip (a ∷ entries) [] = []
zip (a ∷ entries) (b ∷ done) = (a, b) ∷ zip entries done

-- `entry.get("path")`
abbrev pub path_of : Json → Option Json
path_of (object fs) = get (codes "path") fs
path_of (array xs) = none
path_of (string t) = none
path_of (number n) = none
path_of (boolean b) = none
path_of null = none

-- The entry has the url and no path, and the url derives the name, which is usable.
pub record IsUrlOnly (py : Python) (urls : Urls) (fs : Fields) (url name : Text) : Type 0 where
  pub has_url : entry_url py fs ≡ url
  pub not_blank : is_nil url ≡ false
  pub no_path : is_nil (entry_path py fs) ≡ true
  pub derives : derive_path urls url ≡ some name
  pub usable : (is_nil name || climbs name) ≡ false

module _ (py : Python) (urls : Urls) where
  -- What comes out for an entry with a url that derives the name.
  url_only-normalized :
      (owner : Owners) (fs : Fields) (u n : Text) (r : Owners × Json)
      → IsUrlOnly py urls fs u n
      → normalize_entry py urls owner (object fs) ≡ some r
      → (r.0 ≡ (own_name urls owner u n, u) ∷ owner)
        × (path_of r.1 ≡ some (string (own_name urls owner u n)))
  unfolding normalize_entry normalize_fields
  url_only-normalized owner fs u n r only h =
      let own = own_name urls owner u n in
      let blank : is_nil (entry_url py fs) ≡ false = ap is_nil only.has_url ∙ only.not_blank in
      let e : ((own, u) ∷ owner, object (put_field (codes "path") (string own) fs)) ≡ r =
        some-injective _ r
          (rw (blank, only.no_path, only.has_url, only.derives, only.usable) at h) in
      (
        ap (λ (x : Owners × Json). x.0) (sym e),
        ap (λ (x : Owners × Json). path_of x.1) (sym e)
            ∙ get-put_field (codes "path") (string own) fs,
      )

  normalize_from-cons :
      (owner : Owners) (e : Json) (entries result : List Json)
      → normalize_from py urls owner (e ∷ entries) ≡ some result
      → (r : Owners × Json) × (rest : List Json) × (normalize_entry py urls owner e ≡ some r)
        × (normalize_from py urls r.0 entries ≡ some rest)
        × (r.1 ∷ rest ≡ result)
  unfolding normalize_from
  normalize_from-cons owner e entries result h =
      elim (Option-cases (normalize_entry py urls owner e)) [
        | inl k ↦ absurd (none-ne-some _ (rw (k, normalize_from) at h))
        | inr (r, k) ↦ elim (Option-cases (normalize_from py urls r.0 entries)) [
          | inl f ↦ absurd (none-ne-some _ (rw (k, normalize_from, f) at h))
          | inr (rest, f) ↦
              (r, rest, k, f, some-injective (r.1 ∷ rest) result (rw (k, normalize_from, f) at h))
        ]
      ]

  -- The loop comes to an entry, with owners that satisfy what every entry before it preserves.
  record Reached (P : Owners → Type 0) (e a : Json) (back : List (Json × Json)) : Type 0 where
    owner : Owners
    next : Owners
    entries : List Json
    rest : List Json
    holds : P owner
    steps : normalize_entry py urls owner e ≡ some (next, a)
    goes_on : normalize_from py urls next entries ≡ some rest
    pairs : zip entries rest ≡ back

  module _ (P : Owners → Type 0)
      (kept : (owner : Owners) (e : Json) (r : Owners × Json)
        → normalize_entry py urls owner e ≡ some r
        → P owner
        → P r.0) where
    reached :
        (owner : Owners) (entries result : List Json) (front back : List (Json × Json)) (e a : Json)
        → P owner
        → normalize_from py urls owner entries ≡ some result
        → zip entries result ≡ front ++ (e, a) ∷ back
        → Reached P e a back
    reached owner [] result [] back e a p h z = cc
    reached owner [] result (x ∷ front) back e a p h z = cc
    reached owner (e0 ∷ entries) result [] back e a p h z =
        let (r, rest, k, f, same) = normalize_from-cons owner e0 entries result h in
        let z' : (e0, r.1) ∷ zip entries rest ≡ (e, a) ∷ back = ap (zip (e0 ∷ entries)) same ∙ z in
        let same_entry : e0 ≡ e = cc in
        let same_out : r.1 ≡ a = cc in
        record {
          owner = owner;
          next = r.0;
          entries = entries;
          rest = rest;
          holds = p;
          steps =
              ap (normalize_entry py urls owner) (sym same_entry)
              ∙ k
              ∙ ap (λ x. some (r.0, x)) same_out;
          goes_on = f;
          pairs = cc;
        }
    reached owner (e0 ∷ entries) result (x ∷ front) back e a p h z =
        let (r, rest, k, f, same) = normalize_from-cons owner e0 entries result h in
        let z' : (e0, r.1) ∷ zip entries rest ≡ (x ∷ front) ++ (e, a) ∷ back =
          ap (zip (e0 ∷ entries)) same ∙ z in
        reached r.0 entries rest front back e a (kept owner e0 r k p) f cc

  abbrev Anything : Owners → Type 0
  Anything owner = Unit

  string-cancel : (p q : Text) → some (string p) ≡ some (string q) → p ≡ q
  string-cancel p q e = cc

-- Where `urlsplit` takes every url, two entries that have a url and no path, whose urls are different
-- and derive one usable name, come out with different paths, whatever stands before, between and after
-- them: the digests of the two urls are to differ.
pub normalize_extra_projects-paths :
    (py : Python) (urls : Urls) (entries result : List Json)
    (front middle back : List (Json × Json)) (fs gs : Fields) (a b : Json) (u v n : Text)
    → normalize_extra_projects py urls entries ≡ some result
    → zip entries result ≡ front ++ (object fs, a) ∷ (middle ++ (object gs, b) ∷ back)
    → IsUrlOnly py urls fs u n
    → IsUrlOnly py urls gs v n
    → u ≢ v
    → urls.digest u ≢ urls.digest v
    → path_of a ≢ path_of b
unfolding normalize_extra_projects
normalize_extra_projects-paths py urls entries result front middle back fs gs a b u v n h z f g
      other digests e =
    let one =
      reached py urls (Anything py urls) (λ owner e r k p. tt) [] entries result front
        (middle ++ (object gs, b) ∷ back) (object fs) a tt h z in
    let out_a = url_only-normalized py urls one.owner fs u n (one.next, a) f one.steps in
    let Kept : Owners → Type 0 =
      (λ owner. own_name urls one.owner u n ≡ n → IsHeld py urls u n owner) in
    let two =
      reached py urls Kept (λ owner e r k p q. normalize_entry-IsHeld py urls u n owner e r k (p q))
        one.next one.entries one.rest middle back (object gs) b
        (λ q. subst (IsHeld py urls u n) (sym out_a.0) (own_name-IsHeld py urls one.owner u n q))
        one.goes_on one.pairs in
    let out_b = url_only-normalized py urls two.owner gs v n (two.next, b) g two.steps in
    own_names-differ py urls one.owner two.owner u v n other digests g.derives two.holds (
      string-cancel py urls (own_name urls one.owner u n) (own_name urls two.owner v n)
        (sym out_a.1 ∙ e ∙ out_b.1))
