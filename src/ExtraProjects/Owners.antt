-- ===== src/ExtraProjects/Owners.antt =====
-- The dict `owner` of `normalize_extra_projects` of app/services/extra_projects.py: who holds a name that
-- two urls derive.
use mathlib.Core.Bool.{false≢true}
use mathlib.Core.Option.{some-injective, none-ne-some}
use gitlab_reviewer.Prelude.{
  not, true, false, ◌||◌, Option, none, some, ◌≡◌, ◌≢◌, ◌⊎◌, refl, sym, ap, subst, ◌∙◌, inl, inr,
  [], ◌∷◌, ◌++◌, arith, Bool-cases, Text, text_eq, codes, length, length-append,
}
use gitlab_reviewer.Models.{Json, null, boolean, number, string, array, object, Fields}
use gitlab_reviewer.Secrets.{is_nil}
use gitlab_reviewer.Podman.Allowed.{text_eq_self, text_eq_sound}
use gitlab_reviewer.Python.{Python, climbs}
use gitlab_reviewer.ExtraProjects.{
  Urls, Owners, entry_path, entry_url, derive_path, own_name, owner_of, taken_from, named,
  normalize_fields, normalize_entry,
}

abbrev suffixed : Urls → Text → Text → Text
suffixed urls url name = name ++ (codes "-" ++ urls.digest url)

suffixed-other : (urls : Urls) (url name : Text) → suffixed urls url name ≡ name → ⊥
suffixed-other urls url name e =
    let l = length-append name (codes "-" ++ urls.digest url) in let k = ap length e in omega arith

append-cancel : (a b c : Text) → a ++ b ≡ a ++ c → b ≡ c
append-cancel [] b c e = e
append-cancel (x ∷ a) b c e = append-cancel a b c (cc)

module _ (py : Python) (urls : Urls) where
  named-owner :
      (owner : Owners) (fs : Fields) (w : Text) (name : Option Text) (r : Owners × Json)
      → derive_path urls w ≡ name
      → named urls owner fs w name ≡ some r
      → (r.0 ≡ owner)
        ⊎ ((m : Text) × (derive_path urls w ≡ some m)
            × (r.0 ≡ (own_name urls owner w m, w) ∷ owner))
  named-owner owner fs w none r d h = absurd (none-ne-some _ h)
  named-owner owner fs w (some m) r d h = elim (Bool-cases (is_nil m || climbs m)) [
    | inl t ↦
        inl
          (ap (λ (x : Owners × Json). x.0) (sym (some-injective (owner, object fs) r (rw t at h))))
    | inr f ↦ inr (m, d, ap (λ (x : Owners × Json). x.0) (sym (some-injective _ r (rw f at h))))
  ]

  -- What an entry does to the owners.
  normalize_entry-owner :
      (owner : Owners) (e : Json) (r : Owners × Json)
      → normalize_entry py urls owner e ≡ some r
      → (r.0 ≡ owner)
        ⊎ ((w m : Text) × (derive_path urls w ≡ some m)
            × (r.0 ≡ (own_name urls owner w m, w) ∷ owner))
  unfolding normalize_entry normalize_fields
  normalize_entry-owner owner (object fs) r h =
      elim (Bool-cases (is_nil (entry_url py fs) || not (is_nil (entry_path py fs)))) [
        | inl t ↦ inl (
            ap (λ (x : Owners × Json). x.0) (sym (some-injective (owner, object fs) r (rw t at h))))
        | inr f ↦
            elim (named-owner owner fs (entry_url py fs) (derive_path urls (entry_url py fs)) r refl
              (rw f at h)) [ inl e ↦ inl e | inr (m, d, e) ↦ inr (entry_url py fs, m, d, e) ]
      ]
  normalize_entry-owner owner (array xs) r h = inl cc
  normalize_entry-owner owner (string t) r h = inl cc
  normalize_entry-owner owner (number n) r h = inl cc
  normalize_entry-owner owner (boolean b) r h = inl cc
  normalize_entry-owner owner null r h = inl cc

  -- The name is held by the url, or by one that derives another name.
  pub IsHeld : Text → Text → Owners → Type 0
  IsHeld u n owner =
      (x : Text) × (owner_of n owner ≡ some x) × ((x ≡ u) ⊎ (derive_path urls x ≢ some n))

  -- An entry writes the owner of a name that it derives only where that is free or its own.
  pub own_name-cases :
      (owner : Owners) (u n : Text)
      → ((taken_from (owner_of n owner) u ≡ false) × (own_name urls owner u n ≡ n))
        ⊎ ((taken_from (owner_of n owner) u ≡ true) × (own_name urls owner u n ≡ suffixed urls u n))
  unfolding own_name
  own_name-cases owner u n = elim (Bool-cases (taken_from (owner_of n owner) u)) [
    | inl t ↦ inr (t, rw t refl)
    | inr f ↦ inl (f, rw f refl)
  ]

  push_owner-IsHeld :
      (owner : Owners) (u n w m own : Text)
      → derive_path urls w ≡ some m
      → own ≡ own_name urls owner w m
      → IsHeld u n owner
      → IsHeld u n ((own, w) ∷ owner)
  unfolding IsHeld owner_of
  push_owner-IsHeld owner u n w m own d e (x, o, h) = elim (Bool-cases (text_eq own n)) [
    | inr f ↦ (x, rw f o, h)
    | inl t ↦ (
      w,
      rw t refl,
      elim (Bool-cases (text_eq m n)) [
        | inr g ↦ inr (λ k.
            let same : m ≡ n = some-injective m n (sym d ∙ k) in
            false≢true (sym g ∙ ap (λ y. text_eq y n) same ∙ text_eq_self n))
        | inl s ↦
            let same : m ≡ n = text_eq_sound m n s in
            let own_is : own ≡ n = text_eq_sound own n t in
            elim (own_name-cases owner w m) [
              | inr (k, l) ↦ absurd (suffixed-other urls w m (sym l ∙ sym e ∙ own_is ∙ sym same))
              | inl (k, l) ↦
                  let free : taken_from (some x) w ≡ false =
                    sym (
                      ap (λ (y : Option Text). taken_from y w)
                        (ap (λ y. owner_of y owner) same ∙ o))
                    ∙ k in
                  let x_is : x ≡ w = held_by x w free in
                  subst (λ y. (y ≡ u) ⊎ (derive_path urls y ≢ some n)) x_is h
            ]
      ],
    )
  ]
    where
      held_by : (a b : Text) → taken_from (some a) b ≡ false → a ≡ b
      held_by a b h = elim (Bool-cases (text_eq a b)) [
        | inl t ↦ text_eq_sound a b t
        | inr f ↦ let k : true ≡ false = rw f at h in cc
      ]

  pub normalize_entry-IsHeld :
      (u n : Text) (owner : Owners) (e : Json) (r : Owners × Json)
      → normalize_entry py urls owner e ≡ some r
      → IsHeld u n owner
      → IsHeld u n r.0
  normalize_entry-IsHeld u n owner e r h held = elim (normalize_entry-owner owner e r h) [
    | inl same ↦ subst (IsHeld u n) (sym same) held
    | inr (w, m, d, new) ↦
        subst (IsHeld u n) (sym new)
          (push_owner-IsHeld owner u n w m (own_name urls owner w m) d refl held)
  ]

  pub own_name-IsHeld :
      (owner : Owners) (u n : Text)
      → own_name urls owner u n ≡ n
      → IsHeld u n ((own_name urls owner u n, u) ∷ owner)
  unfolding IsHeld owner_of
  own_name-IsHeld owner u n e =
      let t : text_eq (own_name urls owner u n) n ≡ true =
        ap (λ x. text_eq x n) e ∙ text_eq_self n in
      (u, rw t refl, inl refl)

  -- Another url of the name finds it held, and gets the suffix.
  IsHeld-own_name :
      (owner : Owners) (u v n : Text)
      → IsHeld u n owner
      → u ≢ v
      → derive_path urls v ≡ some n
      → own_name urls owner v n ≡ suffixed urls v n
  unfolding IsHeld
  IsHeld-own_name owner u v n (x, o, h) other d = elim (own_name-cases owner v n) [
    | inr (k, l) ↦ l
    | inl (k, l) ↦
        let free : taken_from (some x) v ≡ false =
          ap (λ (y : Option Text). taken_from y v) (sym o) ∙ k in
        elim (Bool-cases (text_eq x v)) [
          | inr f ↦ let y : true ≡ false = rw f at free in cc
          | inl t ↦
              let x_is = text_eq_sound x v t in
              elim h [
                | inl mine ↦ absurd (other (sym mine ∙ x_is))
                | inr unlike ↦ absurd (unlike (ap (derive_path urls) x_is ∙ d))
              ]
        ]
  ]

  suffixed-cancel :
      (u v n : Text) → suffixed urls u n ≡ suffixed urls v n → urls.digest u ≡ urls.digest v
  suffixed-cancel u v n e =
      append-cancel (codes "-") (urls.digest u) (urls.digest v)
        (append-cancel n (codes "-" ++ urls.digest u) (codes "-" ++ urls.digest v) e)

  -- The names of two entries, where the first one's holds until the second.
  pub own_names-differ :
      (owner owner' : Owners) (u v n : Text)
      → u ≢ v
      → urls.digest u ≢ urls.digest v
      → derive_path urls v ≡ some n
      → (own_name urls owner u n ≡ n → IsHeld u n owner')
      → own_name urls owner u n ≢ own_name urls owner' v n
  own_names-differ owner owner' u v n other digests d held e = elim (own_name-cases owner u n) [
    | inl (k, l) ↦
        suffixed-other urls v n (sym (IsHeld-own_name owner' u v n (held l) other d) ∙ sym e ∙ l)
    | inr (k, l) ↦ elim (own_name-cases owner' v n) [
      | inl (k', l') ↦ suffixed-other urls u n (sym l ∙ e ∙ l')
      | inr (k', l') ↦ digests (suffixed-cancel u v n (sym l ∙ e ∙ l'))
    ]
  ]
