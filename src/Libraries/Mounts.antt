-- ===== src/Libraries/Mounts.antt =====
-- The mounts that `ensure_libraries` of app/orchestrator/libraries.py returns.
use mathlib.Core.Bool.{false≢true}
use mathlib.Core.Option.{some-injective, none-ne-some}
use gitlab_reviewer.Prelude.{
  ℕ, true, false, Option, none, some, ◌≡◌, refl, sym, ap, subst, ◌∙◌, ◌≢◌, inl, inr, List, [], ◌∷◌,
  arith, length, Bool-cases, In, In-append, Pairwise, Pairwise-append, Text, text_eq,
}
use gitlab_reviewer.Models.{Json, Fields, object}
use gitlab_reviewer.Secrets.{is_nil}
use gitlab_reviewer.Podman.Allowed.{text_eq_self, text_eq_sound}
use gitlab_reviewer.Python.{Python, member, climbs}
use gitlab_reviewer.ExtraProjects.{Urls, entry_path, entry_url, normalize_extra_projects}
use gitlab_reviewer.Libraries.{
  is_inside, Disk, World, Setup, relpath_of, library_relpath, Ensured, Mounts, mounted, after_entry,
  or_raised, ensure_library_checkout, ensure_each, ensure_normalized, ensure_libraries,
}
use gitlab_reviewer.Libraries.Checkout.{
  IsCheckoutOf, IsElsewhere, Settles, ensured, failed, Ends, passed_over, settles,
  ensure_library_checkout-Ends,
}

-- A mount of a checkout: the path below /work/lib does not climb, the host path is its place, and what
-- is there is a checkout of the url of an entry.
pub record IsMounted (py : Python) (s : Setup) (entries : List Json) (disk : Disk) (m : Text × Text)
    : Type 0 where
  pub fs : Fields
  pub given : In (object fs) entries
  pub has_path : is_nil m.1 ≡ false
  pub stays : climbs m.1 ≡ false
  pub place : m.0 ≡ s.place m.1
  pub content : IsCheckoutOf (entry_url py fs) (disk m.0)
  -- The entry that has the path.
  pub owner : Fields
  pub owned : In (object owner) entries
  pub owner_path : relpath_of py owner ≡ some m.1

-- The place of no entry is inside that of another.
abbrev pub AreBeside : Python → Setup → List Json → Type 0
AreBeside py s entries =
    (fs gs : Fields) (p q : Text)
    → In (object fs) entries
    → In (object gs) entries
    → relpath_of py fs ≡ some p
    → relpath_of py gs ≡ some q
    → is_inside (s.place p) (s.place q) ≡ false

abbrev pub OtherPath : Text × Text → Text × Text → Type 0
OtherPath a b = a.1 ≢ b.1

relpath_of-usable :
    (py : Python) (fs : Fields) (relpath : Text)
    → relpath_of py fs ≡ some relpath
    → (is_nil relpath ≡ false) × (climbs relpath ≡ false)
unfolding relpath_of
relpath_of-usable py fs relpath e = elim (Bool-cases (is_nil (entry_path py fs))) [
  | inl t ↦ let q : none ≡ some relpath = rw t at e in absurd (none-ne-some _ q)
  | inr f ↦ elim (Bool-cases (climbs (entry_path py fs))) [
    | inl t ↦ let q : none ≡ some relpath = rw (f, t) at e in absurd (none-ne-some _ q)
    | inr g ↦
        let q : entry_path py fs ≡ relpath = some-injective _ _ (rw (f, g) at e) in
        (subst (λ p. is_nil p ≡ false) q f, subst (λ p. climbs p ≡ false) q g)
  ]
]

module _ (py : Python) (s : Setup) (all : List Json) (beside : AreBeside py s all) where
  -- What the loop keeps of its variables.
  record Keeps (disk : Disk) (seen : List Text) (mounts : Mounts) : Type 0 where
    good : (m : Text × Text) → In m mounts → IsMounted py s all disk m
    apart : Pairwise OtherPath mounts
    known : (m : Text × Text) → In m mounts → member m.1 seen ≡ true

  -- A checkout that is made or refreshed leaves every mount a checkout.
  moved-IsMounted :
      (fs : Fields) (relpath : Text) (disk disk' : Disk)
      → In (object fs) all
      → relpath_of py fs ≡ some relpath
      → IsCheckoutOf (entry_url py fs) (disk' (s.place relpath))
      → ((path : Text) → IsElsewhere (s.place relpath) path → disk' path ≡ disk path)
      → (m : Text × Text) → IsMounted py s all disk m
      → IsMounted py s all disk' m
  moved-IsMounted fs relpath disk disk' n e c same m g =
      elim (Bool-cases (text_eq m.0 (s.place relpath))) [
        | inl t ↦ record {
          fs = fs;
          given = n;
          has_path = g.has_path;
          stays = g.stays;
          place = g.place;
          content =
              subst (λ p. IsCheckoutOf (entry_url py fs) (disk' p))
                (sym (text_eq_sound m.0 (s.place relpath) t)) c;
          owner = g.owner;
          owned = g.owned;
          owner_path = g.owner_path;
        }
        | inr f ↦ record {
          fs = g.fs;
          given = g.given;
          has_path = g.has_path;
          stays = g.stays;
          place = g.place;
          content =
              subst (IsCheckoutOf (entry_url py g.fs))
                (sym (
                  same m.0 (record {
                    differs = f;
                    outside =
                        ap (is_inside (s.place relpath)) g.place
                        ∙ beside fs g.owner relpath m.1 n g.owned e g.owner_path;
                    beside =
                        ap (λ x. is_inside x (s.place relpath)) g.place
                        ∙ beside g.owner fs m.1 relpath g.owned n g.owner_path e;
                  })))
                g.content;
          owner = g.owner;
          owned = g.owned;
          owner_path = g.owner_path;
        }
      ]

  member-more : (t u : Text) (seen : List Text) → member t seen ≡ true → member t (u ∷ seen) ≡ true
  unfolding member
  member-more t u seen h = ground arith

  member_self : (t : Text) (seen : List Text) → member t (t ∷ seen) ≡ true
  unfolding member
  member_self t seen = rw (text_eq_self t) refl

  mounted-Keeps :
      (relpath : Text) (disk : Disk) (seen : List Text) (mounts : Mounts)
      → IsMounted py s all disk (s.place relpath, relpath)
      → Keeps disk seen mounts
      → let r = mounted (s.place relpath) (some relpath) seen mounts in Keeps disk r.0 r.1
  mounted-Keeps relpath disk seen mounts new k = elim (Bool-cases (member relpath seen)) [
    | inl t ↦ rw t k
    | inr f ↦ rw f (record {
      good = λ m n. elim (In-append mounts ((s.place relpath, relpath) ∷ []) m n) [
        | inl old ↦ k.good m old
        | inr (inl e) ↦ subst (IsMounted py s all disk) (sym e) new
        | inr (inr z) ↦ absurd z
      ];
      apart =
          Pairwise-append OtherPath mounts ((s.place relpath, relpath) ∷ []) k.apart (tt, tt)
            (λ a b n l. elim l [
              | inl e ↦ λ same. false≢true (
                  sym f
                  ∙ ap (λ p. member p seen) (sym (same ∙ ap (λ (x : Text × Text). x.1) e))
                  ∙ k.known a n)
              | inr z ↦ absurd z
            ]);
      known = λ m n. elim (In-append mounts ((s.place relpath, relpath) ∷ []) m n) [
        | inl old ↦ member-more m.1 relpath seen (k.known m old)
        | inr (inl e) ↦
            subst (λ p. member p (relpath ∷ seen) ≡ true) (sym (ap (λ (x : Text × Text). x.1) e))
              (member_self relpath seen)
        | inr (inr z) ↦ absurd z
      ];
    })
  ]

  Settles-Keeps :
      (fs : Fields) (relpath : Text) (disk : Disk) (r : Ensured × Disk) (seen : List Text)
      (mounts : Mounts) (done : List Text × Mounts)
      → In (object fs) all
      → relpath_of py fs ≡ some relpath
      → Settles (entry_url py fs) (s.place relpath) disk r
      → Keeps disk seen mounts
      → after_entry py (object fs) r.0 seen mounts ≡ some done
      → Keeps r.1 done.0 done.1
  unfolding library_relpath
  Settles-Keeps fs relpath disk _ seen mounts done n e (ensured disk' c same) k h =
      let usable = relpath_of-usable py fs relpath e in
      let new : IsMounted py s all disk' (s.place relpath, relpath) = record {
        fs = fs;
        given = n;
        has_path = usable.0;
        stays = usable.1;
        place = refl;
        content = c;
        owner = fs;
        owned = n;
        owner_path = e;
      } in
      let moved : Keeps disk' seen mounts = record {
        good = λ m l. moved-IsMounted fs relpath disk disk' n e c same m (k.good m l);
        apart = k.apart;
        known = k.known;
      } in
      let h' : some (mounted (s.place relpath) (some relpath) seen mounts) ≡ some done =
        ap (λ p. some (mounted (s.place relpath) p seen mounts)) (sym e) ∙ h in
      subst (λ (d : List Text × Mounts). Keeps disk' d.0 d.1) (some-injective _ _ h')
        (mounted-Keeps relpath disk' seen mounts new moved)
  Settles-Keeps fs relpath disk _ seen mounts done n e (failed disk') k h =
      absurd (none-ne-some _ h)

  step-Keeps :
      (entry : Json) (disk : Disk) (r : Ensured × Disk) (seen : List Text) (mounts : Mounts)
      (done : List Text × Mounts)
      → In entry all
      → Ends py s disk entry r
      → Keeps disk seen mounts
      → after_entry py entry r.0 seen mounts ≡ some done
      → Keeps r.1 done.0 done.1
  step-Keeps entry disk _ seen mounts done n passed_over k h =
      subst (λ (d : List Text × Mounts). Keeps disk d.0 d.1) (some-injective _ _ h) k
  step-Keeps _ disk r seen mounts done n (settles fs relpath e c) k h =
      Settles-Keeps fs relpath disk r seen mounts done n e c k h

  or_raised-Keeps :
      (after : Option (List Text × Mounts)) (disk : Disk)
      (rest : List Text × Mounts → Option Mounts × Disk) (result : Mounts)
      → ((done : List Text × Mounts)
          → after ≡ some done
          → (rest done).0 ≡ some result
          → (seen' : List Text) × Keeps (rest done).1 seen' result)
      → (or_raised after disk rest).0 ≡ some result
      → (seen' : List Text) × Keeps (or_raised after disk rest).1 seen' result
  or_raised-Keeps none disk rest result k h = absurd (none-ne-some _ h)
  or_raised-Keeps (some done) disk rest result k h = k done refl h

  ensure_each-Keeps :
      (world : ℕ → World) (entries : List Json) (disk : Disk) (seen : List Text) (mounts : Mounts)
      (result : Mounts)
      → ((e : Json) → In e entries → In e all)
      → Keeps disk seen mounts
      → (ensure_each py s world entries disk seen mounts).0 ≡ some result
      → (seen' : List Text) × Keeps (ensure_each py s world entries disk seen mounts).1 seen' result
  unfolding ensure_each
  ensure_each-Keeps world [] disk seen mounts result sub k h =
      (seen, subst (Keeps disk seen) (some-injective _ _ h) k)
  ensure_each-Keeps world (entry ∷ entries) disk seen mounts result sub k h =
      let r = ensure_library_checkout py s (world (length entries)) entry disk in
      or_raised-Keeps (after_entry py entry r.0 seen mounts) r.1
        (λ done. ensure_each py s world entries r.1 done.0 done.1) result
        (λ done e g.
          ensure_each-Keeps world entries r.1 done.0 done.1 result (λ x m. sub x (inr m))
            (step-Keeps entry disk r seen mounts done (sub entry (inl refl))
              (ensure_library_checkout-Ends py s (world (length entries)) entry disk) k e)
            g)
        h

-- Where the entries normalize, the place of none is inside that of another, and `ensure_libraries` returns
-- mounts, no two of them have one path below /work/lib, and each has a path that does not climb, its place
-- on the host, and there a checkout of the url of an entry, whatever git and the disk did before.
pub ensure_libraries-IsMounted :
    (py : Python) (urls : Urls) (s : Setup) (world : ℕ → World) (entries normalized : List Json)
    (disk : Disk) (mounts : Mounts)
    → normalize_extra_projects py urls entries ≡ some normalized
    → AreBeside py s normalized
    → (ensure_libraries py urls s world entries disk).0 ≡ some mounts
    → Pairwise OtherPath mounts
      × ((m : Text × Text)
          → In m mounts
          → IsMounted py s normalized (ensure_libraries py urls s world entries disk).1 m)
unfolding ensure_libraries
ensure_libraries-IsMounted py urls s world entries normalized disk mounts e beside h =
    let e' = ap (λ (n : Option (List Json)). ensure_normalized py s world n disk) e in
    let h' = sym (ap (λ (r : Option Mounts × Disk). r.0) e') ∙ h in
    let (seen, k) =
      ensure_each-Keeps py s normalized beside world normalized disk [] [] mounts (λ x m. m)
        (record { good = λ m n. absurd n; apart = tt; known = λ m n. absurd n }) h' in
    (
      k.apart,
      λ m n.
          subst (λ d. IsMounted py s normalized d m)
            (sym (ap (λ (r : Option Mounts × Disk). r.1) e')) (k.good m n),
    )
